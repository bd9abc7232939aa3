-- ===== src/Policy/Stay.antt =====
-- When `selectAccount` keeps to one account: the pinned one.
use agent_lb_proxy.Prelude.{
  ℕ, ◌≡◌, refl, true, false, String, Option, none, some, List, [], ◌∷◌, length, get_elem?, arith,
  ◌==◌, str_eq,
}
use agent_lb_proxy.Prelude.Int.{ℤ}
use agent_lb_proxy.Prelude.Float.{Float64}
use agent_lb_proxy.Prelude.Outcome.{Returns, Returns-bind, Returns-if, at}
use agent_lb_proxy.Types.{Account, StoreFile}
use agent_lb_proxy.Policy.{
  Selection, contains, candidates, pick, find_pinned, pinned_among, select_by_mode, select_account,
}
use agent_lb_proxy.Policy.Indexes.{head_contains, candidates-in_range}
use agent_lb_proxy.Policy.Safety.{tail_contains, from_candidates}

module _ {W : Type 0} ⦃f : Float64 W⦄ (sf : StoreFile W) where
  -- The selection is an account with the pinned identifier, with no switch.
  abbrev pub IsPinned : Selection W → Type 0
  IsPinned sel =
      (a : Account W) × (get_elem? sf.accounts sel.index ≡ some a)
      × (str_eq a.id sf.state.pinned_account_id ≡ true)
      × (sel.switched ≡ false)
      × (sel.switch_reason ≡ "pinned")

  abbrev Found : String → Option ℕ → Type 0
  Found id none = ⊥
  Found id (some i) = (a : Account W) × (get_elem? sf.accounts i ≡ some a) × (str_eq a.id id ≡ true)

  find_pinned-Found :
      (id : String) (l : List ℕ) (j : ℕ) (c : Account W)
      → ((i : ℕ) → contains l i ≡ true → (a : Account W) × (get_elem? sf.accounts i ≡ some a))
      → contains l j ≡ true
      → get_elem? sf.accounts j ≡ some c
      → str_eq c.id id ≡ true
      → Returns (Found id) (find_pinned sf.accounts id l)
  unfolding find_pinned contains
  find_pinned-Found id [] j c in_range h found same = absurd (ground arith)
  find_pinned-Found id (x ∷ l) j c in_range h found same =
      let (a, e) = in_range x (head_contains x l) in
      rw (e, at)
        (Returns-if (Found id) (str_eq a.id id) _ _ (λ hit. (a, e, hit))
          (λ miss.
            find_pinned-Found id l j c (λ i m. in_range i (tail_contains x l i m)) (ground arith)
              found same))

  pick-IsPinned :
      (i : ℕ)
      → Found sf.state.pinned_account_id (some i)
      → Returns IsPinned (pick sf i false "pinned")
  unfolding pick
  pick-IsPinned i (a, e, same) = rw (e, at) (a, e, same, refl, refl)

  from_list-IsPinned :
      (l : List ℕ) (j : ℕ) (c : Account W)
      → ((i : ℕ) → contains l i ≡ true → (a : Account W) × (get_elem? sf.accounts i ≡ some a))
      → contains l j ≡ true
      → get_elem? sf.accounts j ≡ some c
      → str_eq c.id sf.state.pinned_account_id ≡ true
      → str_eq sf.state.pinned_account_id "" ≡ false
      → Returns IsPinned (from_candidates sf l)
  unfolding contains pinned_among
  from_list-IsPinned [] j c in_range h found same pin = absurd (ground arith)
  from_list-IsPinned (x ∷ l) j c in_range h found same pin =
      Returns-if _ (length (x ∷ l) == 0) _ _ (λ e. absurd (ground arith))
        (λ _.
          Returns-bind (Found sf.state.pinned_account_id) IsPinned (pinned_among sf (x ∷ l)) _
            (rw (pin, pinned_among)
              (find_pinned-Found sf.state.pinned_account_id (x ∷ l) j c in_range h found same))
            taken)
    where
      taken :
          (o : Option ℕ)
          → Found sf.state.pinned_account_id o
          → Returns IsPinned
              (elim o [ none ↦ select_by_mode sf (x ∷ l) | some idx ↦ pick sf idx false "pinned" ])
      taken none h = absurd h
      taken (some i) h = pick-IsPinned i h

  -- If an account is pinned and a candidate has its identifier, `selectAccount` returns an account
  -- with that identifier, whatever the mode and the scores, and reports no switch.
  pub select_account-IsPinned :
      (now_ms : ℤ) (j : ℕ) (c : Account W)
      → contains (candidates sf.accounts now_ms) j ≡ true
      → get_elem? sf.accounts j ≡ some c
      → str_eq c.id sf.state.pinned_account_id ≡ true
      → str_eq sf.state.pinned_account_id "" ≡ false
      → Returns IsPinned (select_account sf now_ms)
  unfolding select_account
  select_account-IsPinned now_ms j c candidate found same pin =
      from_list-IsPinned (candidates sf.accounts now_ms) j c
        (candidates-in_range sf.accounts now_ms) candidate found same pin
