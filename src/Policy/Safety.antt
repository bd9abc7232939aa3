-- ===== src/Policy/Safety.antt =====
-- Lemmas on what `selectAccount` returns: an index of its list of candidates.
use agent_lb_proxy.Prelude.{
  ℕ, zero, suc, ◌+◌, ◌%◌, ◌<◌, ◌≡◌, refl, inl, inr, Bool, true, false, String, Option, none, some,
  List, [], ◌∷◌, length, get_elem?, get_elem?_of_lt, not, index_func, arith, ◌==◌, str_eq,
  Option-cases, if◌then◌else◌,
}
use agent_lb_proxy.Prelude.Int.{ℤ}
use agent_lb_proxy.Prelude.Float.{Float64, lt}
use agent_lb_proxy.Prelude.Outcome.{
  Outcome, err, Returns, Returns-bind, Returns-if, Returns-mono, at, ◌>>=◌,
}
use agent_lb_proxy.Types.{PolicyConfig, Account, StoreFile}
use agent_lb_proxy.Policy.{
  Selection, contains, next_healthy, candidates, pick, find_pinned, best_from, select_sticky,
  select_round_robin, usage_choice, select_usage, select_by_mode, pinned_among, select_account,
}
use agent_lb_proxy.Policy.Score.{score}
use agent_lb_proxy.Policy.Indexes.{
  healthy_at, quota_left_at, candidates-in_range, candidates-quota_left, candidates_pos,
  head_contains,
}

contains_of_get_elem? :
    (xs : List ℕ) (i : ℕ) {x : ℕ} → get_elem? xs i ≡ some x → contains xs x ≡ true
unfolding contains
contains_of_get_elem? [] i h = ground arith
contains_of_get_elem? (y ∷ ys) zero h = ground arith
contains_of_get_elem? (y ∷ ys) (suc i) h = ground (arith, contains_of_get_elem? ys i h)

-- The rotation finds an index of the list.
pub next_healthy-contains :
    (h : ℕ) (hs : List ℕ) (current : ℕ)
    → (idx : ℕ) × (next_healthy (h ∷ hs) current ≡ some idx) × (contains (h ∷ hs) idx ≡ true)
unfolding next_healthy
next_healthy-contains h hs current =
    elim (Option-cases (index_func (λ idx. idx == current) (h ∷ hs))) [
      | inl e ↦ (h, rw (e, next_healthy), head_contains h hs)
      | inr (i, e) ↦
          let (x, found) = get_elem?_of_lt (h ∷ hs) ((i + 1) % length (h ∷ hs)) (rotated i) in
          (x, rw (e, next_healthy) found, contains_of_get_elem? (h ∷ hs) _ found)
    ]
  where
    rotated : (i : ℕ) → (i + 1) % length (h ∷ hs) < length (h ∷ hs)
    rotated i = grind arith

pub tail_contains :
    (x : ℕ) (xs : List ℕ) (i : ℕ) → contains xs i ≡ true → contains (x ∷ xs) i ≡ true
unfolding contains
tail_contains x xs i h = ground arith

-- The chosen index is one of the candidates.
abbrev pub IsChosen : {W : Type 0} → List ℕ → Selection W → Type 0
IsChosen cs sel = contains cs sel.index ≡ true

abbrev IsChosenOption : List ℕ → Option ℕ → Type 0
IsChosenOption cs none = Unit
IsChosenOption cs (some i) = contains cs i ≡ true

module _ {W : Type 0} ⦃f : Float64 W⦄ (sf : StoreFile W) (cs : List ℕ)
    (in_range : (i : ℕ)
      → contains cs i ≡ true
      → (a : Account W) × (get_elem? sf.accounts i ≡ some a)) where
  at-Returns :
      (i : ℕ)
      → contains cs i ≡ true
      → Returns (λ a. get_elem? sf.accounts i ≡ some a) (at {E = String} sf.accounts i)
  at-Returns i c = let (a, e) = in_range i c in rw (e, at) refl

  pick-Returns :
      (i : ℕ) (switched : Bool) (reason : String)
      → contains cs i ≡ true
      → Returns (IsChosen cs) (pick sf i switched reason)
  unfolding pick
  pick-Returns i switched reason c =
      Returns-bind _ (IsChosen cs) (at sf.accounts i) _ (at-Returns i c) (λ a e. c)

  find_pinned-Returns :
      (id : String) (l : List ℕ)
      → ((i : ℕ) → contains l i ≡ true → contains cs i ≡ true)
      → Returns (IsChosenOption cs) (find_pinned sf.accounts id l)
  unfolding find_pinned
  find_pinned-Returns id [] sub = tt
  find_pinned-Returns id (x ∷ l) sub =
      Returns-bind _ (IsChosenOption cs) (at sf.accounts x) _ (at-Returns x here) (λ a e.
        Returns-if (IsChosenOption cs) (str_eq a.id id) _ _ (λ _. here)
          (λ _. find_pinned-Returns id l (λ i c. sub i (tail_contains x l i c))))
    where
      here : contains cs x ≡ true
      here = sub x (head_contains x l)

  best_from-Returns :
      (policy : PolicyConfig W) (i : ℕ) (s : W) (l : List ℕ)
      → contains cs i ≡ true
      → ((j : ℕ) → contains l j ≡ true → contains cs j ≡ true)
      → Returns (λ b. contains cs b.0 ≡ true) (best_from sf.accounts policy i s l)
  unfolding best_from
  best_from-Returns policy i s [] c sub = c
  best_from-Returns policy i s (x ∷ l) c sub =
      Returns-bind _ _ (at sf.accounts x) _ (at-Returns x here) (λ a e.
        best_from-Returns policy (if lt s (score a policy) then x else i)
          (if lt s (score a policy) then score a policy else s) l (either (lt s (score a policy)))
          (λ j d. sub j (tail_contains x l j d)))
    where
      here : contains cs x ≡ true
      here = sub x (head_contains x l)

      either : (b : Bool) → contains cs (if b then x else i) ≡ true
      either true = here
      either false = c

  usage_choice-Returns :
      (active : ℕ) (best : ℕ × W)
      → contains cs best.0 ≡ true
      → Returns (IsChosen cs) (usage_choice sf cs active best)
  unfolding usage_choice
  usage_choice-Returns active (i, s) c =
      Returns-if (IsChosen cs) (not (contains cs active)) _ _ (λ _. c)
        (λ h.
          let here : contains cs active ≡ true = ground arith in
          Returns-bind _ (IsChosen cs) (at sf.accounts active) _ (at-Returns active here) (λ a e.
            Returns-if (IsChosen cs) (lt (score a sf.settings.policy) _) _ _ (λ _. c) (λ _. here)))

module _ {W : Type 0} ⦃f : Float64 W⦄ (sf : StoreFile W) (h : ℕ) (hs : List ℕ)
    (in_range : (i : ℕ)
      → contains (h ∷ hs) i ≡ true
      → (a : Account W) × (get_elem? sf.accounts i ≡ some a)) where
  head_chosen : contains (h ∷ hs) h ≡ true
  head_chosen = head_contains h hs

  select_sticky-Returns :
      (active : ℕ) → Returns (IsChosen (h ∷ hs)) (select_sticky sf (h ∷ hs) active)
  unfolding select_sticky
  select_sticky-Returns active =
      Returns-if _ (contains (h ∷ hs) active) _ _
        (λ c. pick-Returns sf (h ∷ hs) in_range active false "sticky" c)
        (λ _. pick-Returns sf (h ∷ hs) in_range h true "sticky-fallback" head_chosen)

  select_round_robin-Returns :
      (active : ℕ) → Returns (IsChosen (h ∷ hs)) (select_round_robin sf (h ∷ hs) active)
  unfolding select_round_robin
  select_round_robin-Returns active =
      Returns-if _ (not (contains (h ∷ hs) active)) _ _
        (λ _. pick-Returns sf (h ∷ hs) in_range h true "rr-fallback" head_chosen)
        (λ _.
          let (idx, e, c) = next_healthy-contains h hs active in
          rw e (
            Returns-if _ (idx == active) _ _
              (λ _. pick-Returns sf (h ∷ hs) in_range idx false "rr-stay" c)
              (λ _. pick-Returns sf (h ∷ hs) in_range idx true "rr" c)))

  select_usage-Returns :
      (active : ℕ) → Returns (IsChosen (h ∷ hs)) (select_usage sf (h ∷ hs) active)
  unfolding select_usage
  select_usage-Returns active =
      Returns-bind _ _ (at sf.accounts h) _ (at-Returns sf (h ∷ hs) in_range h head_chosen) (λ a e.
        Returns-bind _ _ (best_from sf.accounts sf.settings.policy h _ hs) _
          (best_from-Returns sf (h ∷ hs) in_range sf.settings.policy h _ hs head_chosen
            (tail_contains h hs))
          (λ best c. usage_choice-Returns sf (h ∷ hs) in_range active best c))

  select_by_mode-Returns : Returns (IsChosen (h ∷ hs)) (select_by_mode sf (h ∷ hs))
  unfolding select_by_mode
  select_by_mode-Returns =
      Returns-if _ (str_eq sf.settings.policy.mode "sticky") _ _ (λ _. select_sticky-Returns _)
        (λ _.
          Returns-if _ (str_eq sf.settings.policy.mode "round_robin") _ _
            (λ _. select_round_robin-Returns _) (λ _. select_usage-Returns _))

  pinned_among-Returns : Returns (IsChosenOption (h ∷ hs)) (pinned_among sf (h ∷ hs))
  unfolding pinned_among
  pinned_among-Returns =
      Returns-if _ (str_eq sf.state.pinned_account_id "") _ _ (λ _. tt)
        (λ _.
          find_pinned-Returns sf (h ∷ hs) in_range sf.state.pinned_account_id (h ∷ hs) (λ i c. c))

  -- The steps of `selectAccount` behind the first test, on candidates that are in range.
  select_among-Returns : Returns (IsChosen (h ∷ hs)) (do
    pinned ← pinned_among sf (h ∷ hs)
    elim pinned [ none ↦ select_by_mode sf (h ∷ hs) | some idx ↦ pick sf idx false "pinned" ])
  select_among-Returns =
      Returns-bind (IsChosenOption (h ∷ hs)) _ (pinned_among sf (h ∷ hs)) _ pinned_among-Returns
        pinned_or_mode
    where
      pinned_or_mode :
          (o : Option ℕ)
          → IsChosenOption (h ∷ hs) o
          → Returns
              (IsChosen (h ∷ hs))
              (elim o [ none ↦ select_by_mode sf (h ∷ hs) | some idx ↦ pick sf idx false "pinned" ])
      pinned_or_mode none c = select_by_mode-Returns
      pinned_or_mode (some idx) c = pick-Returns sf (h ∷ hs) in_range idx false "pinned" c

module _ {W : Type 0} ⦃f : Float64 W⦄ (sf : StoreFile W) where
  -- What `selectAccount` computes from its list of candidates.
  abbrev pub from_candidates : List ℕ → Outcome String (Selection W)
  from_candidates healthy = if length healthy == 0 then err "no healthy accounts" else (do
    pinned ← pinned_among sf healthy
    elim pinned [ none ↦ select_by_mode sf healthy | some idx ↦ pick sf idx false "pinned" ])

module _ {W : Type 0} ⦃f : Float64 W⦄ (sf : StoreFile W) (now_ms : ℤ) where
  pub from_candidates-Returns :
      (l : List ℕ)
      → ((i : ℕ) → contains l i ≡ true → (a : Account W) × (get_elem? sf.accounts i ≡ some a))
      → 0 < length l
      → Returns (IsChosen l) (from_candidates sf l)
  from_candidates-Returns [] in_range h = elim h [ ]
  from_candidates-Returns (h ∷ hs) in_range _ =
      Returns-if _ (length (h ∷ hs) == 0) _ _ (λ e. absurd (ground arith))
        (λ _. select_among-Returns sf h hs in_range)

  -- The result is one of the candidates.
  pub select_account-Returns :
      (k : ℕ)
      → healthy_at now_ms sf.accounts k ≡ true
      → Returns (IsChosen (candidates sf.accounts now_ms)) (select_account sf now_ms)
  unfolding select_account
  select_account-Returns k h =
      from_candidates-Returns (candidates sf.accounts now_ms)
        (candidates-in_range sf.accounts now_ms) (candidates_pos sf.accounts now_ms k h)

  -- If some healthy account has quota left, the account that selectAccount returns has quota left,
  -- whatever the mode, the pin and the active index are: a healthy account without quota is passed over
  -- also when it is pinned or, in the mode sticky, active.
  pub select_account-quota_left :
      (k : ℕ)
      → healthy_at now_ms sf.accounts k ≡ true
      → quota_left_at sf.accounts k ≡ true
      → Returns (λ sel. quota_left_at sf.accounts sel.index ≡ true) (select_account sf now_ms)
  select_account-quota_left k h q =
      Returns-mono _ _ (select_account sf now_ms)
        (λ sel. candidates-quota_left sf.accounts now_ms k sel.index h q)
        (select_account-Returns k h)
