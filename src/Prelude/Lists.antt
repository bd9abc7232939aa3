-- ===== src/Prelude/Lists.antt =====
-- Go slices as lists, measured and indexed by native numbers, under the library's names.
use Prim.Native.Nat.{ℕ, zero, suc, ◌+◌, ◌<◌}
use mathlib.Core.Path.{◌≡◌, refl, ap}
use mathlib.Core.Logic.{◌≢◌}
use mathlib.Core.Bool.{Bool, true}
use mathlib.Core.List.{List, [], ◌∷◌, ◌++◌, map}
use mathlib.Core.Option.{Option, none, some}
use native.Mathlib.Omega.{arith}
use agent_lb_proxy.Prelude.Tests.{if◌then◌else◌}

module _ {ℓ} {A : Type ℓ} where
  abbrev pub length : List A → ℕ
  length [] = 0
  length (x ∷ xs) = suc (length xs)

  abbrev pub get_elem? : List A → ℕ → Option A
  get_elem? [] i = none
  get_elem? (x ∷ xs) zero = some x
  get_elem? (x ∷ xs) (suc i) = get_elem? xs i

  -- A write out of bounds changes nothing.
  abbrev pub set : List A → ℕ → A → List A
  set [] i v = []
  set (x ∷ xs) zero v = v ∷ xs
  set (x ∷ xs) (suc i) v = x ∷ set xs i v

  -- `append(xs[:i], xs[i+1:]...)`.
  abbrev pub remove_at : List A → ℕ → List A
  remove_at [] i = []
  remove_at (x ∷ xs) zero = xs
  remove_at (x ∷ xs) (suc i) = x ∷ remove_at xs i

  abbrev pub modify : List A → ℕ → (A → A) → List A
  modify [] i f = []
  modify (x ∷ xs) zero f = f x ∷ xs
  modify (x ∷ xs) (suc i) f = x ∷ modify xs i f

  -- `slices.IndexFunc`, with `none` for -1.
  unfoldable pub index_func : (A → Bool) → List A → Option ℕ
  index_func p [] = none
  index_func p (x ∷ xs) =
      let rest = index_func p xs in
      if p x then some 0 else (elim rest [ none ↦ none | some i ↦ some (suc i) ])

  abbrev pub All {κ} : (A → Type κ) → List A → Type κ
  All P [] = Unit
  All P (x ∷ xs) = P x × All P xs

module _ {ℓ} {A : Type ℓ} where
  pub length-append : (xs ys : List A) → length (xs ++ ys) ≡ length xs + length ys
  length-append [] ys = omega arith
  length-append (x ∷ xs) ys = omega (arith, length-append xs ys)

  pub length-modify : (xs : List A) (i : ℕ) (f : A → A) → length (modify xs i f) ≡ length xs
  length-modify [] i f = refl
  length-modify (x ∷ xs) zero f = refl
  length-modify (x ∷ xs) (suc i) f = ap suc (length-modify xs i f)

  pub length-remove_at :
      (xs : List A) (i : ℕ) → i < length xs → length (remove_at xs i) + 1 ≡ length xs
  length-remove_at [] i h = elim h [ ]
  length-remove_at (x ∷ xs) zero h = omega arith
  length-remove_at (x ∷ xs) (suc i) h = omega (arith, length-remove_at xs i (omega arith))

  pub get_elem?_of_lt : (xs : List A) (i : ℕ) → i < length xs → (x : A) × (get_elem? xs i ≡ some x)
  get_elem?_of_lt [] i h = elim h [ ]
  get_elem?_of_lt (x ∷ xs) zero h = (x, refl)
  get_elem?_of_lt (x ∷ xs) (suc i) h = get_elem?_of_lt xs i (omega arith)

  pub lt_of_get_elem? : (xs : List A) (i : ℕ) {x : A} → get_elem? xs i ≡ some x → i < length xs
  lt_of_get_elem? [] i h = ground arith
  lt_of_get_elem? (x ∷ xs) zero h = omega arith
  lt_of_get_elem? (x ∷ xs) (suc i) h = omega (arith, lt_of_get_elem? xs i h)

  pub get_elem?-modify_self :
      (xs : List A) (i : ℕ) (f : A → A) {x : A}
      → get_elem? xs i ≡ some x
      → get_elem? (modify xs i f) i ≡ some (f x)
  get_elem?-modify_self [] i f h = ground arith
  get_elem?-modify_self (x ∷ xs) zero f h = ground arith
  get_elem?-modify_self (x ∷ xs) (suc i) f h = get_elem?-modify_self xs i f h

  pub get_elem?-modify_ne :
      (xs : List A) (i j : ℕ) (f : A → A) → i ≢ j → get_elem? (modify xs i f) j ≡ get_elem? xs j
  get_elem?-modify_ne [] i j f h = refl
  get_elem?-modify_ne (x ∷ xs) zero zero f h = absurd (h refl)
  get_elem?-modify_ne (x ∷ xs) zero (suc j) f h = refl
  get_elem?-modify_ne (x ∷ xs) (suc i) zero f h = refl
  get_elem?-modify_ne (x ∷ xs) (suc i) (suc j) f h =
      get_elem?-modify_ne xs i j f (λ e. h (ap suc e))

  pub length-map {κ} : {B : Type κ} (f : A → B) (xs : List A) → length (map f xs) ≡ length xs
  length-map f [] = refl
  length-map f (x ∷ xs) = ap suc (length-map f xs)

  -- What `slices.IndexFunc` returns is an index in range, and its element passes the test.
  pub index_func-some :
      (p : A → Bool) (xs : List A) {i : ℕ}
      → index_func p xs ≡ some i
      → (x : A) × (get_elem? xs i ≡ some x) × (p x ≡ true)
  unfolding index_func
  index_func-some p [] h = ground arith
  index_func-some p (x ∷ xs) {i = zero} h = (x, refl, ground arith)
  index_func-some p (x ∷ xs) {i = suc i} h = index_func-some p xs (ground arith)
