-- ===== src/Policy/Indexes.antt =====
-- Which indexes `healthyIndexes`, `eligibleIndexes` and the candidates hold.
use native.Mathlib.Nat.{add-zero}
use mathlib.Core.Bool.{true≢false}
use agent_lb_proxy.Prelude.{
  ℕ, zero, suc, ◌+◌, ◌<◌, ◌≡◌, refl, ◌∙◌, sym, subst, sym, subst, inl, inr, Bool, true, false, not,
  ◌&&◌, none, some, List, [], ◌∷◌, length, get_elem?, arith, Option-cases,
}
use agent_lb_proxy.Prelude.Int.{ℤ}
use agent_lb_proxy.Prelude.Float.{Float64}
use agent_lb_proxy.Types.{Account}
use agent_lb_proxy.Policy.{
  contains, is_healthy, healthy_from, healthy_indexes, eligible_indexes, candidates,
}
use agent_lb_proxy.Policy.Score.{account_quota_exhausted}

length_pos_of_contains : (xs : List ℕ) (i : ℕ) → contains xs i ≡ true → 0 < length xs
unfolding contains
length_pos_of_contains [] i h = ground arith
length_pos_of_contains (x ∷ xs) i h = omega arith

pub head_contains : (x : ℕ) (xs : List ℕ) → contains (x ∷ xs) x ≡ true
unfolding contains
head_contains x xs = ground arith

module _ {W : Type 0} ⦃f : Float64 W⦄ where
  -- There is an account at the index, and it passes the health test.
  abbrev pub healthy_at : ℤ → List (Account W) → ℕ → Bool
  healthy_at now_ms accounts i = elim (get_elem? accounts i) [
    | none ↦ false
    | some a ↦ is_healthy now_ms a
  ]

  -- There is an account at the index, and none of its quotas is used up.
  abbrev pub quota_left_at : List (Account W) → ℕ → Bool
  quota_left_at accounts i = elim (get_elem? accounts i) [
    | none ↦ false
    | some a ↦ not (account_quota_exhausted a)
  ]

  pub not-contains-below :
      (now_ms : ℤ) (i j : ℕ) (accounts : List (Account W))
      → j < i
      → contains (healthy_from now_ms i accounts) j ≡ false
  unfolding contains healthy_from
  not-contains-below now_ms i j [] h = refl
  not-contains-below now_ms i j (a ∷ accounts) h =
      ground (arith, not-contains-below now_ms (suc i) j accounts)

  contains-healthy_from :
      (now_ms : ℤ) (i k : ℕ) (accounts : List (Account W))
      → contains (healthy_from now_ms i accounts) (k + i) ≡ healthy_at now_ms accounts k
  unfolding contains healthy_from
  contains-healthy_from now_ms i zero [] = refl
  contains-healthy_from now_ms i (suc k) [] = refl
  contains-healthy_from now_ms i zero (a ∷ accounts) =
      ground (arith, not-contains-below now_ms (suc i) (0 + i) accounts)
  contains-healthy_from now_ms i (suc k) (a ∷ accounts) =
      let shift : k + suc i ≡ suc k + i = omega arith in
      let later : contains (healthy_from now_ms (suc i) accounts) (suc k + i)
          ≡ healthy_at now_ms accounts k =
        rw (← shift) (contains-healthy_from now_ms (suc i) k accounts) in
      ground arith

  -- `healthyIndexes` holds exactly the indexes of the healthy accounts.
  pub contains-healthy_indexes :
      (accounts : List (Account W)) (now_ms : ℤ) (i : ℕ)
      → contains (healthy_indexes accounts now_ms) i ≡ healthy_at now_ms accounts i
  unfolding healthy_indexes
  contains-healthy_indexes accounts now_ms i =
      subst (λ t. contains (healthy_from now_ms 0 accounts) t ≡ healthy_at now_ms accounts i)
        (add-zero i) (contains-healthy_from now_ms 0 i accounts)

  pub contains-eligible_indexes :
      (accounts : List (Account W)) (idxs : List ℕ) (i : ℕ)
      → contains (eligible_indexes accounts idxs) i ≡ (contains idxs i && quota_left_at accounts i)
  unfolding contains eligible_indexes
  contains-eligible_indexes accounts [] i = refl
  contains-eligible_indexes accounts (idx ∷ idxs) i =
      ground (arith, contains-eligible_indexes accounts idxs i)

module _ {W : Type 0} ⦃f : Float64 W⦄ (accounts : List (Account W)) (now_ms : ℤ) where
  -- Every candidate is healthy.
  pub candidates-healthy :
      (i : ℕ) → contains (candidates accounts now_ms) i ≡ true → healthy_at now_ms accounts i ≡ true
  unfolding candidates
  candidates-healthy i h = ground (
    arith,
    contains-healthy_indexes accounts now_ms i,
    contains-eligible_indexes accounts (healthy_indexes accounts now_ms) i,
  )

  -- So a candidate's index is in range.
  pub candidates-in_range :
      (i : ℕ)
      → contains (candidates accounts now_ms) i ≡ true
      → (a : Account W) × (get_elem? accounts i ≡ some a)
  candidates-in_range i h = elim (Option-cases (get_elem? accounts i)) [
    | inl e ↦ absurd (ground (arith, candidates-healthy i h))
    | inr found ↦ found
  ]

  eligible_pos :
      (k : ℕ)
      → healthy_at now_ms accounts k ≡ true
      → quota_left_at accounts k ≡ true
      → 0 < length (eligible_indexes accounts (healthy_indexes accounts now_ms))
  eligible_pos k h q = length_pos_of_contains _ k (
      ground (
        arith,
        contains-healthy_indexes accounts now_ms k,
        contains-eligible_indexes accounts (healthy_indexes accounts now_ms) k,
      ))

  -- When some healthy account has quota left, every candidate has.
  pub candidates-quota_left :
      (k i : ℕ)
      → healthy_at now_ms accounts k ≡ true
      → quota_left_at accounts k ≡ true
      → contains (candidates accounts now_ms) i ≡ true
      → quota_left_at accounts i ≡ true
  unfolding candidates
  candidates-quota_left k i h q c = ground (
    arith,
    eligible_pos k h q,
    contains-eligible_indexes accounts (healthy_indexes accounts now_ms) i,
  )

  -- A healthy account gives a candidate, and there is none without one.
  pub candidates_pos :
      (k : ℕ) → healthy_at now_ms accounts k ≡ true → 0 < length (candidates accounts now_ms)
  unfolding candidates
  candidates_pos k h = ground (
    arith,
    length_pos_of_contains (healthy_indexes accounts now_ms) k
        (contains-healthy_indexes accounts now_ms k ∙ h),
  )

  pub candidates-eq-nil :
      ((k : ℕ) → healthy_at now_ms accounts k ≡ false) → candidates accounts now_ms ≡ []
  candidates-eq-nil none_healthy = empty (candidates accounts now_ms) candidates-healthy
    where
      empty :
          (l : List ℕ)
          → ((i : ℕ) → contains l i ≡ true → healthy_at now_ms accounts i ≡ true)
          → l ≡ []
      empty [] h = refl
      empty (x ∷ xs) h = absurd (true≢false (sym (h x (head_contains x xs)) ∙ none_healthy x))
