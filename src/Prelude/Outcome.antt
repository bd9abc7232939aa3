-- ===== src/Prelude/Outcome.antt =====
-- Go's results: a value, an error, or a panic (an index out of range).
use agent_lb_proxy.Prelude.{
  ℕ, ◌≡◌, refl, Bool, true, false, List, none, some, get_elem?, if◌then◌else◌,
}

pub data Outcome {ℓ κ} (E : Type κ) (A : Type ℓ) : Type (ℓ ⊔ κ) where
  ok : A → Outcome E A
  err : E → Outcome E A
  panic : Outcome E A

infixl 5 ◌>>=◌
abbrev pub ◌>>=◌ {ℓ κ ν} :
    {E : Type ν} {A : Type ℓ} {B : Type κ} → Outcome E A → (A → Outcome E B) → Outcome E B
ok a >>= f = f a
err e >>= f = err e
panic >>= f = panic

-- `xs[i]`
abbrev pub at {ℓ κ} : {E : Type κ} {A : Type ℓ} → List A → ℕ → Outcome E A
at xs i = elim (get_elem? xs i) [ none ↦ panic | some x ↦ ok x ]

pub at_of_get_elem? {ℓ κ} :
    {E : Type κ} {A : Type ℓ} (xs : List A) (i : ℕ) {x : A}
    → get_elem? xs i ≡ some x
    → at {E = E} xs i ≡ ok x
at_of_get_elem? xs i h = rw (h, at)

-- The call returns a value, and the value satisfies `P`: neither an error nor a panic.
abbrev pub Returns {ℓ κ} : {E : Type κ} {A : Type ℓ} → (A → Type 0) → Outcome E A → Type 0
Returns P (ok a) = P a
Returns P (err e) = ⊥
Returns P panic = ⊥

pub Returns-bind {ℓ κ ν} :
    {E : Type ν} {A : Type ℓ} {B : Type κ} (P : A → Type 0) (Q : B → Type 0) (m : Outcome E A)
    (k : A → Outcome E B)
    → Returns P m
    → ((a : A) → P a → Returns Q (k a))
    → Returns Q (m >>= k)
Returns-bind P Q (ok a) k h g = g a h
Returns-bind P Q (err e) k h g = h
Returns-bind P Q panic k h g = h

pub Returns-mono {ℓ κ} :
    {E : Type κ} {A : Type ℓ} (P Q : A → Type 0) (m : Outcome E A)
    → ((a : A) → P a → Q a)
    → Returns P m
    → Returns Q m
Returns-mono P Q (ok a) g h = g a h
Returns-mono P Q (err e) g h = h
Returns-mono P Q panic g h = h

pub Returns-if {ℓ κ} :
    {E : Type κ} {A : Type ℓ} (P : A → Type 0) (b : Bool) (m n : Outcome E A)
    → (b ≡ true → Returns P m)
    → (b ≡ false → Returns P n)
    → Returns P (if b then m else n)
Returns-if P true m n h g = h refl
Returns-if P false m n h g = g refl

-- The call does not panic, and a value that it returns satisfies `P`.
abbrev pub Keeps {ℓ κ} : {E : Type κ} {A : Type ℓ} → (A → Type 0) → Outcome E A → Type 0
Keeps P (ok a) = P a
Keeps P (err e) = Unit
Keeps P panic = ⊥
