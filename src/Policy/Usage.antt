-- ===== src/Policy/Usage.antt =====
-- The mode `usage_balanced` (and any unknown mode): the best score, and the hysteresis.
use agent_lb_proxy.Prelude.{
  ℕ, ◌≡◌, refl, ◌⊎◌, inl, inr, Bool, true, false, String, some, List, [], ◌∷◌, length, get_elem?,
  not, arith, ◌==◌, str_eq, Bool-cases, if◌then◌else◌,
}
use agent_lb_proxy.Prelude.Int.{ℤ}
use agent_lb_proxy.Prelude.Float.{Float64, IsOrdered, lt, sub}
use agent_lb_proxy.Prelude.Outcome.{Returns, Returns-bind, Returns-if, Returns-mono, at}
use agent_lb_proxy.Types.{PolicyConfig, Account, StoreFile}
use agent_lb_proxy.Policy.{
  Selection, contains, candidates, best_from, usage_choice, usage_delta, select_usage,
  select_by_mode, pinned_among, select_account,
}
use agent_lb_proxy.Policy.Score.{score}
use agent_lb_proxy.Policy.Indexes.{head_contains, candidates-in_range}
use agent_lb_proxy.Policy.Safety.{tail_contains, from_candidates}

module _ {W : Type 0} ⦃f : Float64 W⦄ (o : IsOrdered W) (accounts : List (Account W))
    (policy : PolicyConfig W) where
  -- The pair of an index and the score of the account there.
  abbrev IsScored : ℕ × W → Type 0
  IsScored b = (a : Account W) × (get_elem? accounts b.0 ≡ some a) × (score a policy ≡ b.1)

  -- No account of the list has a higher score.
  abbrev IsTop : List ℕ → W → Type 0
  IsTop l s =
      (j : ℕ) (c : Account W)
      → contains l j ≡ true
      → get_elem? accounts j ≡ some c
      → lt s (score c policy) ≡ false

  -- The score is the first one, or it is higher.
  abbrev Raises : W → W → Type 0
  Raises s t = (t ≡ s) ⊎ (lt s t ≡ true)

  not-lt_of_Raises : (s t x : W) → Raises s t → lt s x ≡ false → lt t x ≡ false
  not-lt_of_Raises s t x (inl e) h = rw e h
  not-lt_of_Raises s t x (inr k) h = elim (Bool-cases (lt t x)) [
    | inl e ↦ absurd (ground (arith, o.lt_trans s t x k e))
    | inr e ↦ e
  ]

  Raises-trans : (s t u : W) → lt s t ≡ true → Raises t u → Raises s u
  Raises-trans s t u h (inl e) = inr (rw e h)
  Raises-trans s t u h (inr k) = inr (o.lt_trans s t u h k)

  IsTop-nil : (t : W) → IsTop [] t
  unfolding contains
  IsTop-nil t j c h e = ground arith

  IsTop-cons :
      (x : ℕ) (l : List ℕ) (a : Account W) (t : W)
      → get_elem? accounts x ≡ some a
      → lt t (score a policy) ≡ false
      → IsTop l t
      → IsTop (x ∷ l) t
  unfolding contains
  IsTop-cons x l a t found h top j c m e = elim (Bool-cases (x == j)) [
    | inl same ↦ ground (arith, found, h, e)
    | inr other ↦ top j c (ground arith) e
  ]

  abbrev IsBest : List ℕ → W → ℕ × W → Type 0
  IsBest l s b = IsScored b × Raises s b.1 × IsTop l b.1

  IsBest-step :
      (i x : ℕ) (s : W) (l : List ℕ) (a : Account W) (better : Bool) (b : ℕ × W)
      → lt s (score a policy) ≡ better
      → get_elem? accounts x ≡ some a
      → IsBest l (if better then score a policy else s) b
      → IsBest (x ∷ l) s b
  IsBest-step i x s l a true b h found (scored, raises, top) = (
    scored,
    Raises-trans s (score a policy) b.1 h raises,
    IsTop-cons x l a b.1 found
        (not-lt_of_Raises (score a policy) b.1 _ raises (o.lt_irrefl (score a policy))) top,
  )
  IsBest-step i x s l a false b h found (scored, raises, top) =
      (scored, raises, IsTop-cons x l a b.1 found (not-lt_of_Raises s b.1 _ raises h) top)

  IsScored-if :
      (i x : ℕ) (s : W) (a : Account W) (better : Bool)
      → IsScored (i, s)
      → get_elem? accounts x ≡ some a
      → IsScored (if better then x else i, if better then score a policy else s)
  IsScored-if i x s a true scored found = (a, found, refl)
  IsScored-if i x s a false scored found = scored

  at-found :
      (x : ℕ)
      → (a : Account W) × (get_elem? accounts x ≡ some a)
      → Returns (λ a. get_elem? accounts x ≡ some a) (at {E = String} accounts x)
  at-found x (a, e) = rw (e, at) refl

  best_from-IsBest :
      (i : ℕ) (s : W) (l : List ℕ)
      → IsScored (i, s)
      → ((j : ℕ) → contains l j ≡ true → (a : Account W) × (get_elem? accounts j ≡ some a))
      → Returns (IsBest l s) (best_from accounts policy i s l)
  unfolding best_from
  best_from-IsBest i s [] scored in_range = (scored, inl refl, IsTop-nil s)
  best_from-IsBest i s (x ∷ l) scored in_range =
      Returns-bind _ _ (at accounts x) _ (at-found x (in_range x (head_contains x l))) (λ a found.
        Returns-mono _ _
          (best_from accounts policy (if lt s (score a policy) then x else i)
            (if lt s (score a policy) then score a policy else s) l)
          (λ b best. IsBest-step i x s l a (lt s (score a policy)) b refl found best)
          (best_from-IsBest (if lt s (score a policy) then x else i)
            (if lt s (score a policy) then score a policy else s) l
            (IsScored-if i x s a (lt s (score a policy)) scored found)
            (λ j h. in_range j (tail_contains x l j h))))

-- The selected account has the best score, or the selection stays with the active account, whose
-- score is not below the best one by more than the hysteresis.
abbrev pub IsUsageChoice : {W : Type 0} ⦃f : Float64 W⦄ → StoreFile W → Selection W → Type 0
IsUsageChoice {W} ⦃f⦄ sf sel =
    (a : Account W) × (get_elem? sf.accounts sel.index ≡ some a)
    × (((sel.switched ≡ true) × (score a sf.settings.policy ≡ sel.best_score))
        ⊎ ((sel.switched ≡ false)
            × (lt (score a sf.settings.policy) (sub sel.best_score (usage_delta sf.settings.policy))
                ≡ false)))

module _ {W : Type 0} ⦃f : Float64 W⦄ (o : IsOrdered W) (sf : StoreFile W) where
  -- The result's best score is not below the score of any candidate.
  abbrev IsBestChoice : List ℕ → Selection W → Type 0
  IsBestChoice cs sel =
      IsUsageChoice sf sel × IsTop o sf.accounts sf.settings.policy cs sel.best_score

  usage_choice-IsBestChoice :
      (cs : List ℕ) (active : ℕ) (b : ℕ × W)
      → ((j : ℕ) → contains cs j ≡ true → (a : Account W) × (get_elem? sf.accounts j ≡ some a))
      → IsScored o sf.accounts sf.settings.policy b
      → IsTop o sf.accounts sf.settings.policy cs b.1
      → Returns (IsBestChoice cs) (usage_choice sf cs active b)
  unfolding usage_choice
  usage_choice-IsBestChoice cs active (i, s) in_range (a, found, scored) top =
      Returns-if _ (not (contains cs active)) _ _ (λ _. ((a, found, inl (refl, scored)), top))
        (λ h.
          let here : contains cs active ≡ true = ground arith in
          Returns-bind _ _ (at sf.accounts active) _
            (at-found o sf.accounts sf.settings.policy active (in_range active here))
            (λ c e.
              Returns-if _ (lt (score c sf.settings.policy) _) _ _
                (λ _. ((a, found, inl (refl, scored)), top))
                (λ stays. ((c, e, inr (refl, stays)), top))))

  select_usage-IsBestChoice :
      (h : ℕ) (hs : List ℕ) (active : ℕ)
      → ((j : ℕ)
          → contains (h ∷ hs) j ≡ true
          → (a : Account W) × (get_elem? sf.accounts j ≡ some a))
      → Returns (IsBestChoice (h ∷ hs)) (select_usage sf (h ∷ hs) active)
  unfolding select_usage
  select_usage-IsBestChoice h hs active in_range =
      Returns-bind _ _ (at sf.accounts h) _
        (at-found o sf.accounts sf.settings.policy h (in_range h (head_contains h hs)))
        (λ a e.
          Returns-bind _ _ (best_from sf.accounts sf.settings.policy h _ hs) _
            (best_from-IsBest o sf.accounts sf.settings.policy h _ hs (a, e, refl)
              (λ j c. in_range j (tail_contains h hs j c)))
            (λ b (scored, raises, top).
              usage_choice-IsBestChoice (h ∷ hs) active b in_range scored (
                IsTop-cons o sf.accounts sf.settings.policy h hs a b.1 e
                  (not-lt_of_Raises o sf.accounts sf.settings.policy _ b.1 _ raises (o.lt_irrefl _))
                  top)))

  from_list-IsBestChoice :
      (l : List ℕ) (j : ℕ)
      → ((i : ℕ) → contains l i ≡ true → (a : Account W) × (get_elem? sf.accounts i ≡ some a))
      → contains l j ≡ true
      → str_eq sf.state.pinned_account_id "" ≡ true
      → str_eq sf.settings.policy.mode "sticky" ≡ false
      → str_eq sf.settings.policy.mode "round_robin" ≡ false
      → Returns (IsBestChoice l) (from_candidates sf l)
  unfolding contains pinned_among select_by_mode
  from_list-IsBestChoice [] j in_range h no_pin not_sticky not_rr = absurd (ground arith)
  from_list-IsBestChoice (x ∷ l) j in_range h no_pin not_sticky not_rr =
      rw (no_pin, not_sticky, not_rr, pinned_among)
        (Returns-if _ (length (x ∷ l) == 0) _ _ (λ e. absurd (ground arith))
          (λ _. select_usage-IsBestChoice x l _ in_range))

  -- With no pinned account, and a mode that is neither sticky nor round-robin, the best score that
  -- `selectAccount` reports is not below the score of any candidate `c`; and either it switches to
  -- an account with that score, or it stays with an account whose score is not below the best one
  -- less the configured delta.
  pub select_account-IsUsageChoice :
      (now_ms : ℤ) (j : ℕ) (c : Account W)
      → contains (candidates sf.accounts now_ms) j ≡ true
      → get_elem? sf.accounts j ≡ some c
      → str_eq sf.state.pinned_account_id "" ≡ true
      → str_eq sf.settings.policy.mode "sticky" ≡ false
      → str_eq sf.settings.policy.mode "round_robin" ≡ false
      → Returns
          (λ sel. IsUsageChoice sf sel × (lt sel.best_score (score c sf.settings.policy) ≡ false))
          (select_account sf now_ms)
  unfolding select_account
  select_account-IsUsageChoice now_ms j c candidate found no_pin not_sticky not_rr =
      Returns-mono _ _ (from_candidates sf (candidates sf.accounts now_ms))
        (λ sel (choice, top). (choice, top j c candidate found))
        (from_list-IsBestChoice (candidates sf.accounts now_ms) j
          (candidates-in_range sf.accounts now_ms) candidate no_pin not_sticky not_rr)
