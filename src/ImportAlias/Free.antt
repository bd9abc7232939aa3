-- ===== src/ImportAlias/Free.antt =====
-- The alias that makeUniqueImportAlias finds is an alias of an import, and is not taken.
use agent_lb_proxy.Prelude.{
  ℕ, zero, suc, ◌+◌, ◌≤◌, ◌<◌, ◌≡◌, ◌≢◌, refl, sym, subst, true, false, none, some, List, [], ◌∷◌,
  ◌++◌, ltb, ◌==◌, if◌then◌else◌, length, arith, Bool-cases, Option-cases, inl, inr,
}
use agent_lb_proxy.Prelude.Codes.{Text, codes, text_equal}
use agent_lb_proxy.Request.{to_lower, lower}
use agent_lb_proxy.ImportAlias.{
  is_lower, is_digit, is_separator, all_of, validate_alias, sanitize_import_alias_candidate, itoa,
  join_suffix, append_import_alias_suffix, import_alias_taken, holds, random_import_alias,
  try_numbered, first_free, make_unique_import_alias,
}
use agent_lb_proxy.ImportAlias.Valid.{
  kept, IsImportAlias, kept-IsImportAlias, sanitize-IsImportAlias,
}
use agent_lb_proxy.ImportAlias.Suffix.{sanitize-suffix}
use agent_lb_proxy.ImportAlias.Unique.{
  kept-suffix, IsSuffix, joined, joined-IsImportAlias, joined-injective, itoa-IsSuffix,
  itoa-injective,
}

pub text_equal_iff :
    (s t : Text) → (text_equal s t ≡ true → s ≡ t) × (s ≡ t → text_equal s t ≡ true)
unfolding text_equal
text_equal_iff [] [] = (λ h. refl, λ h. refl)
text_equal_iff [] (d ∷ t) = (λ h. ground arith, λ h. ground arith)
text_equal_iff (c ∷ s) [] = (λ h. ground arith, λ h. ground arith)
text_equal_iff (c ∷ s) (d ∷ t) =
    (λ h. grind (arith, (text_equal_iff s t).0), λ h. grind (arith, (text_equal_iff s t).1))

-- The taken aliases without the first one that is `a`.
erase : Text → List Text → List Text
erase a [] = []
erase a (t ∷ taken) = if text_equal a t then taken else t ∷ erase a taken

length-erase :
    (a : Text) (taken : List Text)
    → holds a taken ≡ true
    → length (erase a taken) + 1 ≡ length taken
unfolding erase holds
length-erase a [] h = ground arith
length-erase a (t ∷ taken) h = ground (arith, length-erase a taken)

holds-erase :
    (a b : Text) (taken : List Text) → b ≢ a → holds b taken ≡ true → holds b (erase a taken) ≡ true
unfolding erase holds
holds-erase a b [] ne h = ground arith
holds-erase a b (t ∷ taken) ne h =
    grind (arith, holds-erase a b taken ne, (text_equal_iff b t).0, (text_equal_iff a t).0)

import-IsImportAlias : (s : Text) → IsSuffix s → IsImportAlias (codes "import-" ++ s)
unfolding is_lower is_digit is_separator
import-IsImportAlias s v =
    kept-IsImportAlias b'i' (codes "mport-" ++ s) refl (kept-suffix s v.chars)
      (omega (arith, v.short))

-- As many taken aliases as there are different ones among them.
pigeonhole :
    (f : ℕ → Text) (lo n : ℕ) (taken : List Text)
    → ((i j : ℕ) → i < lo + n → j < lo + n → f i ≡ f j → i ≡ j)
    → ((i : ℕ) → lo ≤ i → i < lo + n → holds (f i) taken ≡ true)
    → n ≤ length taken
pigeonhole f lo zero taken inj h = omega arith
pigeonhole f lo (suc n) taken inj h =
    let here = h lo (omega arith) (omega arith) in
    let rest =
      pigeonhole f (suc lo) n (erase (f lo) taken) (λ i j a b. inj i j (omega arith) (omega arith))
        (λ i a b.
          holds-erase (f lo) (f i) taken
            (λ e. ground (arith, inj i lo (omega arith) (omega arith) e))
            (h i (omega arith) (omega arith))) in
    omega (arith, rest, length-erase (f lo) taken here)

to_lower-kept : (wide : ℕ → ℕ) (s : Text) → all_of kept s ≡ true → to_lower wide s ≡ s
unfolding to_lower lower is_lower is_digit is_separator
to_lower-kept wide [] h = refl
to_lower-kept wide (c ∷ s) h = grind (arith, to_lower-kept wide s)

import_alias-nonempty : (a : Text) → IsImportAlias a → text_equal a [] ≡ false
unfolding validate_alias text_equal
import_alias-nonempty [] b = absurd (ground (arith, b.valid))
import_alias-nonempty (c ∷ s) b = refl

module _ (wide : ℕ → ℕ) (random : ℕ → Text) where
  append_import_alias_suffix-joined :
      (base suffix : Text) (k : ℕ)
      → IsImportAlias base
      → IsSuffix suffix
      → append_import_alias_suffix wide random base suffix k ≡ (joined base suffix, k)
  unfolding append_import_alias_suffix join_suffix
  append_import_alias_suffix-joined base suffix k b v =
      rw
        (
          sanitize-suffix wide suffix v.chars (omega (arith, v.short)),
          v.nonempty,
          short v.short,
          import_alias-nonempty base b,
        )
        refl
    where
      short : length suffix ≤ 57 → ltb 62 (length suffix) ≡ false
      short e = ground arith

  -- A free alias of an import.
  abbrev pub IsFree : Text → List Text → Type 0
  IsFree a taken = IsImportAlias a × (import_alias_taken wide a taken ≡ false)

  try_numbered-IsFree :
      (base : Text) (taken : List Text) (n i k : ℕ) {a : Text}
      → IsImportAlias base
      → i + n ≤ 1000
      → (try_numbered wide random base taken n i k).0 ≡ some a
      → IsFree a taken
  unfolding try_numbered
  try_numbered-IsFree base taken zero i k b few e = ground (arith, e)
  try_numbered-IsFree base taken (suc n) i k b few e =
      let v = itoa-IsSuffix i (omega arith) in
      let e' = rw (append_import_alias_suffix-joined base (itoa i) k b v) at e in
      elim (Bool-cases (import_alias_taken wide (joined base (itoa i)) taken)) [
        | inl t ↦ try_numbered-IsFree base taken n (suc i) k b (omega arith) (rw t at e')
        | inr t ↦
            subst (λ x. IsFree x taken) (found (rw t at e'))
              (joined-IsImportAlias base (itoa i) b v, t)
      ]
    where
      found : {x y : Text} → some x ≡ some y → x ≡ y
      found e = ground arith

  try_numbered-none :
      (base : Text) (taken : List Text) (n i k : ℕ)
      → IsImportAlias base
      → i + n ≤ 1000
      → (try_numbered wide random base taken n i k).0 ≡ none
      → (j : ℕ) → i ≤ j
      → j < i + n
      → import_alias_taken wide (joined base (itoa j)) taken ≡ true
  unfolding try_numbered
  try_numbered-none base taken zero i k b few e j lo hi = absurd (omega arith)
  try_numbered-none base taken (suc n) i k b few e j lo hi =
      let v = itoa-IsSuffix i (omega arith) in
      let e' = rw (append_import_alias_suffix-joined base (itoa i) k b v) at e in
      elim (Bool-cases (import_alias_taken wide (joined base (itoa i)) taken)) [
        | inl t ↦ elim (Bool-cases (j == i)) [
          | inl q ↦
              subst (λ x. import_alias_taken wide (joined base (itoa x)) taken ≡ true)
                (ground arith) t
          | inr q ↦
              try_numbered-none base taken n (suc i) k b (omega arith) (rw t at e') j (ground arith)
                (omega arith)
        ]
        | inr t ↦ absurd (missing (rw t at e'))
      ]
    where
      missing : {x : Text} → some x ≡ none → ⊥
      missing e = ground arith

  first_free-IsFree :
      (fuel : ℕ) (base : Text) (taken : List Text) (k : ℕ)
      → IsImportAlias base
      → length taken ≤ 997
      → (a : Text) × (first_free wide random fuel base taken k ≡ some a) × IsFree a taken
  unfolding first_free import_alias_taken
  first_free-IsFree fuel base taken k b few =
      elim (Bool-cases (import_alias_taken wide base taken)) [
        | inl t ↦ elim (Option-cases (try_numbered wide random base taken 998 2 k).0) [
          | inl e ↦ absurd (crowded (all_taken e))
          | inr (a, e) ↦
              (a, rw (t, e) refl, try_numbered-IsFree base taken 998 2 k b (omega arith) e)
        ]
        | inr t ↦ (base, rw t refl, (b, t))
      ]
    where
      lowered : (i : ℕ) → i < 1000 → to_lower wide (joined base (itoa i)) ≡ joined base (itoa i)
      lowered i h =
          to_lower-kept wide _ (joined-IsImportAlias base (itoa i) b (itoa-IsSuffix i h)).kept_only

      all_taken : (try_numbered wide random base taken 998 2 k).0 ≡ none → 998 ≤ length taken
      all_taken e =
          pigeonhole (λ i. joined base (itoa i)) 2 998 taken
            (λ i j h g q.
              itoa-injective i j h g
                (joined-injective base (itoa i) (itoa j) (itoa-IsSuffix i h) (itoa-IsSuffix j g) q))
            (λ i h g.
              rw (sym (lowered i g)) (try_numbered-none base taken 998 2 k b (omega arith) e i h g))

      crowded : 998 ≤ length taken → ⊥
      crowded h = omega arith

  -- When at most 997 aliases are taken and the random texts are suffixes, makeUniqueImportAlias returns,
  -- whatever the base and without its last loop, an alias that ValidateAlias accepts and that is not
  -- taken.
  pub make_unique_import_alias-IsFree :
      (fuel : ℕ) (base : Text) (taken : List Text) (k : ℕ)
      → ((i : ℕ) → IsSuffix (random i))
      → length taken ≤ 997
      → (a : Text) × (make_unique_import_alias wide random fuel base taken k ≡ some a)
        × (IsImportAlias a × (import_alias_taken wide a taken ≡ false))
  unfolding make_unique_import_alias random_import_alias
  make_unique_import_alias-IsFree fuel base taken k drawn few =
      elim (Bool-cases (text_equal (sanitize_import_alias_candidate wide base) [])) [
        | inl e ↦ rw e (first_free-IsFree fuel _ taken (suc k) (imported (drawn k)) few)
        | inr e ↦ rw e (
            first_free-IsFree fuel _ taken k
              (sanitize-IsImportAlias wide base (λ q. ground (arith, (text_equal_iff _ []).1 q)))
              few)
      ]
    where
      imported : IsSuffix (random k) → IsImportAlias (codes "import-" ++ random k)
      imported v = import-IsImportAlias (random k) v
