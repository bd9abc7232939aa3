-- ===== src/Quota/Reset.antt =====
-- The reset time that the proxy reports for all its accounts.
use agent_lb_proxy.Prelude.{
  zero, some, get_elem?, subst, ℕ, suc, ◌≡◌, Bool, true, false, not, ◌&&◌, ◌||◌, List, [], ◌∷◌, All,
  arith, if◌then◌else◌,
}
use agent_lb_proxy.Prelude.Int.{ℤ, pos, ◌≤ℤ◌, ◌<ℤ◌, ltb_ℤ, eqb_ℤ}
use agent_lb_proxy.Prelude.Float.{Float64, of_int, lt, add}
use agent_lb_proxy.Status.{AccountStatus}
use agent_lb_proxy.Quota.{usage_totals}

-- The loop's update of the earliest reset, for an account that counts or not.
abbrev next_earliest : Bool → ℤ → ℤ → ℤ → ℤ
next_earliest skipped now_s e reset_at =
    if not skipped && (ltb_ℤ now_s reset_at && (eqb_ℤ e (pos 0) || ltb_ℤ reset_at e))
    then reset_at
    else e

-- A known time stays known, and only gets earlier.
next_earliest-known :
    (skipped : Bool) (now_s : ℕ) (e reset_at : ℤ)
    → eqb_ℤ e (pos 0) ≡ false
    → (eqb_ℤ (next_earliest skipped (pos now_s) e reset_at) (pos 0) ≡ false)
      × (next_earliest skipped (pos now_s) e reset_at ≤ℤ e)
next_earliest-known skipped now_s e reset_at h = (ground arith, ground arith)

next_earliest-bound :
    (skipped : Bool) (now_s : ℕ) (e reset_at : ℤ)
    → (not skipped && ltb_ℤ (pos now_s) reset_at) ≡ true
    → (eqb_ℤ (next_earliest skipped (pos now_s) e reset_at) (pos 0) ≡ false)
      × (next_earliest skipped (pos now_s) e reset_at ≤ℤ reset_at)
next_earliest-bound skipped now_s e reset_at h = (ground arith, ground arith)

module _ {W : Type 0} ⦃f : Float64 W⦄ where
  -- The third result of the loop.
  abbrev pub earliest_of : W × ℕ × ℤ → ℤ
  earliest_of (total, count, e) = e

  -- If the account counts and resets after `now`, the time is known and not after its reset.
  abbrev IsBound : ℤ → (AccountStatus W → W × ℤ) → ℤ → AccountStatus W → Type 0
  IsBound now_s extract e a =
      (not (lt (extract a).0 (of_int (pos 0))) && ltb_ℤ now_s (extract a).1) ≡ true
      → (eqb_ℤ e (pos 0) ≡ false) × (e ≤ℤ (extract a).1)

  -- The result is at most what the loop starts from, if that is known.
  totals-below :
      (now_s : ℕ) (extract : AccountStatus W → W × ℤ) (total : W) (count : ℕ) (e : ℤ)
      (accounts : List (AccountStatus W))
      → eqb_ℤ e (pos 0) ≡ false
      → (eqb_ℤ (earliest_of (usage_totals (pos now_s) extract total count e accounts)) (pos 0)
          ≡ false)
        × (earliest_of (usage_totals (pos now_s) extract total count e accounts) ≤ℤ e)
  unfolding usage_totals
  totals-below now_s extract total count e [] h = (h, omega arith)
  totals-below now_s extract total count e (a ∷ accounts) h =
      let skipped = lt (extract a).0 (of_int (pos 0)) in
      let (known, le) = next_earliest-known skipped now_s e (extract a).1 h in
      let (known', le') =
        totals-below now_s extract (if skipped then total else add total (extract a).0)
          (if skipped then count else suc count) (next_earliest skipped (pos now_s) e (extract a).1)
          accounts known in
      (known', omega (arith, le, le'))

  usage_totals-IsBound :
      (now_s : ℕ) (extract : AccountStatus W → W × ℤ) (total : W) (count : ℕ) (e : ℤ)
      (accounts : List (AccountStatus W))
      → All
          (IsBound
            (pos now_s)
            extract
            (earliest_of (usage_totals (pos now_s) extract total count e accounts)))
          accounts
  unfolding usage_totals
  usage_totals-IsBound now_s extract total count e [] = tt
  usage_totals-IsBound now_s extract total count e (a ∷ accounts) =
      let skipped = lt (extract a).0 (of_int (pos 0)) in
      let e' = next_earliest skipped (pos now_s) e (extract a).1 in
      let total' = if skipped then total else add total (extract a).0 in
      let count' = if skipped then count else suc count in
      (
        (λ h.
            let (known, le) = next_earliest-bound skipped now_s e (extract a).1 h in
            let (known', le') = totals-below now_s extract total' count' e' accounts known in
            (known', omega (arith, le, le'))),
        usage_totals-IsBound now_s extract total' count' e' accounts,
      )

  All-get_elem? :
      (P : AccountStatus W → Type 0) (accounts : List (AccountStatus W)) (i : ℕ)
      {a : AccountStatus W}
      → All P accounts
      → get_elem? accounts i ≡ some a
      → P a
  All-get_elem? P [] i h e = absurd (cc)
  All-get_elem? P (x ∷ accounts) zero {a = a} (h, hs) e =
      let same : x ≡ a = ground arith in subst P same h
  All-get_elem? P (x ∷ accounts) (suc i) (h, hs) e = All-get_elem? P accounts i hs e

  -- The loop of `aggregateUsageWindow` finds the earliest reset: for an account of the list whose use
  -- is not negative and that resets after `now`, a time from 1970 on, the result is a time that is
  -- not 0 and not after the reset of that account.
  pub usage_totals-earliest :
      (now_s : ℕ) (extract : AccountStatus W → W × ℤ) (total : W) (count : ℕ) (e : ℤ)
      (accounts : List (AccountStatus W)) (i : ℕ) (a : AccountStatus W)
      → get_elem? accounts i ≡ some a
      → lt (extract a).0 (of_int (pos 0)) ≡ false
      → pos now_s <ℤ (extract a).1
      → (eqb_ℤ (earliest_of (usage_totals (pos now_s) extract total count e accounts)) (pos 0)
          ≡ false)
        × (earliest_of (usage_totals (pos now_s) extract total count e accounts) ≤ℤ (extract a).1)
  usage_totals-earliest now_s extract total count e accounts i a found counts later =
      All-get_elem? _ accounts i (usage_totals-IsBound now_s extract total count e accounts) found
        (ground arith)
