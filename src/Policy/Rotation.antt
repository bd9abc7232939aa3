-- ===== src/Policy/Rotation.antt =====
-- The rotation of the mode `round_robin`.
use native.Mathlib.Nat.{add-zero, mod-lt, mod-eq_of_lt, mod-add-mod, add-mod-mod, add-mod_right}
use agent_lb_proxy.Prelude.{
  ◌-◌, inl, inr, Bool-cases, ltb, if◌then◌else◌, ℕ, zero, suc, ◌+◌, ◌%◌, ◌<◌, ◌≡◌, ap, sym, ◌∙◌,
  Bool, true, false, Option, none, some, List, [], ◌∷◌, length, get_elem?, get_elem?_of_lt,
  lt_of_get_elem?, index_func, arith, ◌==◌,
}
use agent_lb_proxy.Prelude.Int.{ℤ}
use agent_lb_proxy.Prelude.Float.{Float64}
use agent_lb_proxy.Types.{Account}
use agent_lb_proxy.Policy.{
  contains, next_healthy, is_healthy, healthy_from, healthy_indexes, eligible_indexes, candidates,
}
use agent_lb_proxy.Policy.Score.{account_quota_exhausted}
use agent_lb_proxy.Policy.Indexes.{not-contains-below, contains-eligible_indexes}

-- No index stands twice in the list.
abbrev pub IsDistinct : List ℕ → Type 0
IsDistinct [] = Unit
IsDistinct (x ∷ xs) = (contains xs x ≡ false) × IsDistinct xs

not-get_elem? : (xs : List ℕ) (i x : ℕ) → contains xs x ≡ false → get_elem? xs i ≡ some x → ⊥
unfolding contains
not-get_elem? [] i x h e = ground arith
not-get_elem? (y ∷ ys) zero x h e = ground arith
not-get_elem? (y ∷ ys) (suc i) x h e = ground (arith, not-get_elem? ys i x)

-- Where the list has no index twice, the search finds the one position.
index_func-get_elem? :
    (xs : List ℕ) (i x : ℕ)
    → IsDistinct xs
    → get_elem? xs i ≡ some x
    → index_func (λ y. y == x) xs ≡ some i
unfolding index_func
index_func-get_elem? [] i x d e = ground arith
index_func-get_elem? (y ∷ ys) zero x d e = ground arith
index_func-get_elem? (y ∷ ys) (suc i) x d e =
    ground (arith, index_func-get_elem? ys i x d.1 e, not-get_elem? ys i x)

-- From the account at a position, the rotation goes to the next position, and from the last one to
-- the first.
pub next_healthy-get_elem? :
    (xs : List ℕ) (i x : ℕ)
    → IsDistinct xs
    → get_elem? xs i ≡ some x
    → next_healthy xs x ≡ get_elem? xs ((i + 1) % length xs)
unfolding next_healthy
next_healthy-get_elem? [] i x d e = ground arith
next_healthy-get_elem? (y ∷ ys) i x d e = rw (index_func-get_elem? (y ∷ ys) i x d e, next_healthy)

-- `n` turns of the rotation.
abbrev pub turns : List ℕ → ℕ → ℕ → Option ℕ
turns xs zero x = some x
turns xs (suc n) x = elim (turns xs n x) [ none ↦ none | some y ↦ next_healthy xs y ]

add-zero-mod : (i n : ℕ) → i < n → (i + 0) % n ≡ i
add-zero-mod i n h = rw add-zero (mod-eq_of_lt h)

next_mod : (a b n : ℕ) → a + 1 ≡ b → (a % n + 1) % n ≡ b % n
next_mod a b n h = mod-add-mod a n 1 ∙ ap (λ t. t % n) h

mod_back : (i j n : ℕ) → i < n → j < n → (i + (j + n - i) % n) % n ≡ j
mod_back i j n hi hj =
    let whole : i + (j + n - i) ≡ j + n = omega arith in
    add-mod-mod i (j + n - i) n ∙ ap (λ t. t % n) whole ∙ add-mod_right j n ∙ mod-eq_of_lt hj

turns-get_elem? :
    (xs : List ℕ) (n i x : ℕ)
    → IsDistinct xs
    → get_elem? xs i ≡ some x
    → turns xs n x ≡ get_elem? xs ((i + n) % length xs)
turns-get_elem? xs zero i x d e =
    let inside : i < length xs = lt_of_get_elem? xs i e in
    let here : (i + 0) % length xs ≡ i = add-zero-mod i (length xs) inside in rw here (sym e)
turns-get_elem? xs (suc n) i x d e =
    let inside : i < length xs = lt_of_get_elem? xs i e in
    let (y, found) =
      get_elem?_of_lt xs ((i + n) % length xs) (mod-lt (i + n) (omega (arith, inside))) in
    let step : ((i + n) % length xs + 1) % length xs ≡ (i + suc n) % length xs =
      next_mod (i + n) (i + suc n) (length xs) (omega arith) in
    rw (turns-get_elem? xs n i x d e ∙ found)
      (next_healthy-get_elem? xs ((i + n) % length xs) y d found ∙ ap (get_elem? xs) step)

position : (xs : List ℕ) (x : ℕ) → contains xs x ≡ true → (i : ℕ) × (get_elem? xs i ≡ some x)
unfolding contains
position [] x h = ground arith
position (y ∷ ys) x h = elim (Bool-cases (y == x)) [
  | inl e ↦ (0, ground arith)
  | inr e ↦ let (i, found) = position ys x (ground arith) in (suc i, found)
]

-- From any index of the list the rotation comes to any other in fewer turns than there are indexes.
turns_reach :
    (xs : List ℕ) (x y : ℕ)
    → IsDistinct xs
    → contains xs x ≡ true
    → contains xs y ≡ true
    → (n : ℕ) × (n < length xs) × (turns xs n x ≡ some y)
turns_reach xs x y d hx hy =
    let (i, ex) = position xs x hx in
    let (j, ey) = position xs y hy in
    let i_in : i < length xs = lt_of_get_elem? xs i ex in
    let j_in : j < length xs = lt_of_get_elem? xs j ey in
    let n = (j + length xs - i) % length xs in
    let back : (i + n) % length xs ≡ j = mod_back i j (length xs) i_in j_in in
    (
      n,
      mod-lt (j + length xs - i) (omega (arith, i_in)),
      turns-get_elem? xs n i x d ex ∙ ap (get_elem? xs) back ∙ ey,
    )

module _ {W : Type 0} ⦃f : Float64 W⦄ where
  healthy_from-IsDistinct :
      (now_ms : ℤ) (i : ℕ) (accounts : List (Account W))
      → IsDistinct (healthy_from now_ms i accounts)
  unfolding healthy_from
  healthy_from-IsDistinct now_ms i [] = tt
  healthy_from-IsDistinct now_ms i (a ∷ accounts) = elim (Bool-cases (is_healthy now_ms a)) [
    | inl e ↦ rw e (
      not-contains-below now_ms (suc i) i accounts (omega arith),
      healthy_from-IsDistinct now_ms (suc i) accounts,
    )
    | inr e ↦ rw e (healthy_from-IsDistinct now_ms (suc i) accounts)
  ]

  eligible_indexes-IsDistinct :
      (accounts : List (Account W)) (idxs : List ℕ)
      → IsDistinct idxs
      → IsDistinct (eligible_indexes accounts idxs)
  unfolding eligible_indexes
  eligible_indexes-IsDistinct accounts [] d = tt
  eligible_indexes-IsDistinct accounts (x ∷ idxs) d =
      eligible_step (get_elem? accounts x) (eligible_indexes accounts idxs) x
        (ground (arith, contains-eligible_indexes accounts idxs x))
        (eligible_indexes-IsDistinct accounts idxs d.1)
    where
      eligible_step :
          (o : Option (Account W)) (rest : List ℕ) (x : ℕ)
          → contains rest x ≡ false
          → IsDistinct rest
          → IsDistinct (elim o [
            | none ↦ rest
            | some a ↦ if account_quota_exhausted a then rest else x ∷ rest
          ])
      eligible_step none rest x h d = d
      eligible_step (some a) rest x h d = either (account_quota_exhausted a)
        where
          either : (b : Bool) → IsDistinct (if b then rest else x ∷ rest)
          either true = d
          either false = (h, d)

  candidates-IsDistinct :
      (accounts : List (Account W)) (now_ms : ℤ) → IsDistinct (candidates accounts now_ms)
  unfolding candidates healthy_indexes
  candidates-IsDistinct accounts now_ms =
      elim (Bool-cases
        (ltb 0 (length (eligible_indexes accounts (healthy_from now_ms 0 accounts))))) [
          | inl e ↦
              rw e
                (eligible_indexes-IsDistinct accounts _ (healthy_from-IsDistinct now_ms 0 accounts))
          | inr e ↦ rw e (healthy_from-IsDistinct now_ms 0 accounts)
        ]

  -- While the candidates stay the same, the rotation of `round_robin` starves none: from any
  -- candidate it comes to any other in fewer turns than there are candidates.
  pub rotation_reaches :
      (accounts : List (Account W)) (now_ms : ℤ) (x y : ℕ)
      → contains (candidates accounts now_ms) x ≡ true
      → contains (candidates accounts now_ms) y ≡ true
      → (n : ℕ) × (n < length (candidates accounts now_ms))
        × (turns (candidates accounts now_ms) n x ≡ some y)
  rotation_reaches accounts now_ms x y hx hy =
      turns_reach (candidates accounts now_ms) x y (candidates-IsDistinct accounts now_ms) hx hy
