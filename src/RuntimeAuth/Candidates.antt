-- ===== src/RuntimeAuth/Candidates.antt =====
-- Which accounts `/oauth/token` tries.
use agent_lb_proxy.Prelude.{
  ℕ, zero, suc, ◌+◌, ◌<◌, ◌≡◌, refl, ◌∙◌, true, false, not, ◌&&◌, ◌||◌, String, List, [], ◌∷◌, ◌++◌,
  length, ltb, leb, ◌==◌, arith, Bool-cases, subst, inl, inr, ◌⊎◌,
}
use agent_lb_proxy.Prelude.Int.{ℤ, pos, pos_part, leb_ℤ}
use agent_lb_proxy.Prelude.Float.{Float64}
use agent_lb_proxy.Prelude.Outcome.{Outcome, ok, err, panic}
use agent_lb_proxy.Types.{StoreFile}
use agent_lb_proxy.Policy.{Selection, contains, select_account}
use agent_lb_proxy.Policy.Rotation.{IsDistinct}
use agent_lb_proxy.RuntimeAuth.{
  append_unique, append_all, append_active, append_selected, runtime_auth_candidate_indexes,
}

contains-snoc : (xs : List ℕ) (j i : ℕ) → contains (xs ++ j ∷ []) i ≡ (contains xs i || j == i)
unfolding contains
contains-snoc [] j i = ground arith
contains-snoc (x ∷ xs) j i = ground (arith, contains-snoc xs j i)

IsDistinct-snoc :
    (xs : List ℕ) (j : ℕ) → IsDistinct xs → contains xs j ≡ false → IsDistinct (xs ++ j ∷ [])
unfolding contains
IsDistinct-snoc [] j d h = (refl, tt)
IsDistinct-snoc (x ∷ xs) j d h =
    (ground (arith, contains-snoc xs j x, d.0), IsDistinct-snoc xs j d.1 (ground (arith, h)))

-- Different indexes below the number of accounts.
record IsListed (total : ℕ) (seen : List ℕ) : Type 0 where
  pub distinct : IsDistinct seen
  pub bounded : (i : ℕ) → contains seen i ≡ true → i < total

append_unique-IsListed :
    (total : ℕ) (seen : List ℕ) (i : ℕ)
    → IsListed total seen
    → IsListed total (append_unique total seen i)
unfolding append_unique
append_unique-IsListed total seen i l = elim (Bool-cases (ltb i total && not (contains seen i))) [
  | inl e ↦ rw e (record {
    distinct = IsDistinct-snoc seen i l.distinct (ground (arith, e));
    bounded = λ j h. ground (arith, contains-snoc seen i j, l.bounded j, e, h);
  })
  | inr e ↦ rw e l
]

contains-seen :
    (total : ℕ) (seen : List ℕ) (j : ℕ)
    → (ltb j total && not (contains seen j)) ≡ false
    → contains seen j ≡ (contains seen j || ltb j total)
contains-seen total seen j e = ground (arith, e)

-- What is seen stays, and an index below the number of accounts is seen after its turn.
append_unique-contains :
    (total : ℕ) (seen : List ℕ) (j i : ℕ)
    → contains (append_unique total seen j) i ≡ (contains seen i || (ltb i total && j == i))
unfolding append_unique
append_unique-contains total seen j i = elim (Bool-cases (ltb j total && not (contains seen j))) [
  | inl e ↦ rw e (contains-snoc seen j i ∙ ground (arith, e))
  | inr e ↦ rw e (same_list e (Bool-cases (j == i)))
]
  where
    same_list :
        (ltb j total && not (contains seen j)) ≡ false
        → ((j == i) ≡ true) ⊎ ((j == i) ≡ false)
        → contains seen i ≡ (contains seen i || (ltb i total && j == i))
    same_list e (inl q) =
        subst (λ k. contains seen k ≡ (contains seen k || ltb k total)) same
          (contains-seen total seen j e)
        ∙ ground (arith, q)
      where
        same : j ≡ i
        same = ground (arith, q)
    same_list e (inr q) = ground (arith, q)

append_all-IsListed :
    (total : ℕ) (seen : List ℕ) (i n : ℕ)
    → IsListed total seen
    → IsListed total (append_all total seen i n)
unfolding append_all
append_all-IsListed total seen i zero l = l
append_all-IsListed total seen i (suc n) l =
    append_all-IsListed total (append_unique total seen i) (suc i) n
      (append_unique-IsListed total seen i l)

append_all-contains :
    (total : ℕ) (seen : List ℕ) (k n i : ℕ)
    → contains (append_all total seen k n) i
      ≡ (contains seen i || (ltb i total && leb k i && ltb i (k + n)))
unfolding append_all
append_all-contains total seen k zero i = ground arith
append_all-contains total seen k (suc n) i =
    append_all-contains total (append_unique total seen k) (suc k) n i
    ∙ ground (arith, append_unique-contains total seen k i)

append_active-IsListed :
    (total : ℕ) (seen : List ℕ) (i : ℤ)
    → IsListed total seen
    → IsListed total (append_active total seen i)
unfolding append_active
append_active-IsListed total seen i l = elim (Bool-cases (leb_ℤ (pos 0) i)) [
  | inl e ↦ rw e (append_unique-IsListed total seen (pos_part i) l)
  | inr e ↦ rw e l
]

nothing-IsListed : (total : ℕ) → IsListed total []
unfolding contains
nothing-IsListed total = record { distinct = tt; bounded = λ i h. ground (arith, h) }

append_selected-IsListed :
    {W : Type 0} (total : ℕ) (o : Outcome String (Selection W))
    → IsListed total (append_selected total o)
unfolding append_selected
append_selected-IsListed total (ok sel) =
    append_unique-IsListed total [] sel.index (nothing-IsListed total)
append_selected-IsListed total (err e) = nothing-IsListed total
append_selected-IsListed total panic = nothing-IsListed total

module _ {W : Type 0} ⦃f : Float64 W⦄ where
  runtime_auth_candidate_indexes-IsListed :
      (snap : StoreFile W) (now_ms : ℤ)
      → IsListed (length snap.accounts) (runtime_auth_candidate_indexes snap now_ms)
  unfolding runtime_auth_candidate_indexes
  runtime_auth_candidate_indexes-IsListed snap now_ms =
      append_all-IsListed (length snap.accounts) _ 0 (length snap.accounts) (
        append_active-IsListed (length snap.accounts) _ snap.state.active_index
          (append_selected-IsListed (length snap.accounts) (select_account snap now_ms)))

  -- The accounts that `/oauth/token` tries are all accounts of the store, each once, whatever account
  -- is selected and whatever the active index is.
  pub runtime_auth_candidate_indexes-contains :
      (snap : StoreFile W) (now_ms : ℤ)
      → IsDistinct (runtime_auth_candidate_indexes snap now_ms)
        × ((i : ℕ)
            → contains (runtime_auth_candidate_indexes snap now_ms) i
              ≡ ltb i (length snap.accounts))
  unfolding runtime_auth_candidate_indexes
  runtime_auth_candidate_indexes-contains snap now_ms =
      (l.distinct, λ i. covers i (append_all-contains total before 0 total i))
    where
      l : IsListed (length snap.accounts) (runtime_auth_candidate_indexes snap now_ms)
      l = runtime_auth_candidate_indexes-IsListed snap now_ms

      total : ℕ
      total = length snap.accounts

      before : List ℕ
      before =
          append_active total (append_selected total (select_account snap now_ms))
            snap.state.active_index

      covers :
          (i : ℕ)
          → contains (append_all total before 0 total) i
            ≡ (contains before i || (ltb i total && leb 0 i && ltb i (0 + total)))
          → contains (append_all total before 0 total) i ≡ ltb i total
      covers i e = ground (arith, e, l.bounded i)
