-- ===== src/Targets/Owner.antt =====
-- The proxy that the command line names for an account.
use agent_lb_proxy.Prelude.{
  ◌≡◌, refl, sym, ap, subst, ◌∙◌, Bool, true, false, not, ◌||◌, String, Option, none, some, List,
  [], ◌∷◌, All, str_eq, eq_iff, arith, Bool-cases, inl, inr, if◌then◌else◌, ◌⊎◌,
}
use agent_lb_proxy.Prelude.Text.{trim_space}
use agent_lb_proxy.Status.{AccountStatus, ProxyStatus}
use agent_lb_proxy.Targets.{
  name_in, insert_name, is_account, owner_name, owners, only_name, name_in_status,
}

name_in-All :
    (names : List String) (name n : String)
    → name_in names name ≡ true
    → All (λ s. s ≡ n) names
    → name ≡ n
unfolding name_in
name_in-All [] name n h a = ground (arith, h)
name_in-All (x ∷ xs) name n h a = elim (Bool-cases (str_eq x name)) [
  | inl q ↦ sym ((eq_iff x name).0 q) ∙ a.0
  | inr q ↦ name_in-All xs name n (ground (h, q, arith)) a.1
]

added-All :
    (b : Bool) (names : List String) (name n : String)
    → (b ≡ true → All (λ s. s ≡ n) names → name ≡ n)
    → All (λ s. s ≡ n) (if b then names else name ∷ names)
    → (name ≡ n) × All (λ s. s ≡ n) names
added-All true names name n h a = (h refl a, a)
added-All false names name n h a = a

insert_name-All :
    (names : List String) (name n : String)
    → All (λ s. s ≡ n) (insert_name name names)
    → (name ≡ n) × All (λ s. s ≡ n) names
unfolding insert_name
insert_name-All names name n a =
    added-All (name_in names name) names name n (λ q l. name_in-All names name n q l) a

kept_branch :
    {A : Type 0} (b c : Bool) (skipped found : Option A) {x : A}
    → (if not b then skipped else if c then none else found) ≡ some x
    → ((b ≡ false) × (skipped ≡ some x)) ⊎ (found ≡ some x)
kept_branch true true skipped found e = ground (arith, e)
kept_branch true false skipped found e = inr e
kept_branch false c skipped found e = inl (refl, e)

module _ {W : Type 0} where
  -- Every account of the alias belongs to `n`.
  abbrev pub AllOwned : String → String → String → List (AccountStatus W) → Type 0
  AllOwned proxy_name alias n = All (λ a. is_account alias a ≡ true → owner_name proxy_name a ≡ n)

  abbrev pub is_listed : String → List (AccountStatus W) → Bool
  is_listed alias [] = false
  is_listed alias (a ∷ rest) = is_account alias a || is_listed alias rest

  owners-All :
      (proxy_name alias n : String) (accounts : List (AccountStatus W)) (names found : List String)
      → owners proxy_name alias accounts names ≡ some found
      → All (λ s. s ≡ n) found
      → AllOwned proxy_name alias n accounts × All (λ s. s ≡ n) names
  unfolding owners
  owners-All proxy_name alias n [] names found e l =
      (tt, subst (All (λ s. s ≡ n)) (ground (arith, e)) l)
  owners-All proxy_name alias n (a ∷ rest) names found e l =
      elim (kept_branch (is_account alias a) (str_eq (owner_name proxy_name a) "") _ _ e) [
        | inl q ↦
            let t = owners-All proxy_name alias n rest names found q.1 l in
            (((λ h. ground (arith, h, q.0)), t.0), t.1)
        | inr q ↦
            let t =
              owners-All proxy_name alias n rest (insert_name (owner_name proxy_name a) names) found
                q l in
            let added = insert_name-All names (owner_name proxy_name a) n t.1 in
            (((λ h. added.0), t.0), added.1)
      ]

  owners-unlisted :
      (proxy_name alias : String) (accounts : List (AccountStatus W)) (names : List String)
      → is_listed alias accounts ≡ false
      → owners proxy_name alias accounts names ≡ some names
  unfolding owners
  owners-unlisted proxy_name alias [] names h = refl
  owners-unlisted proxy_name alias (a ∷ rest) names h =
      rw (unlisted) (owners-unlisted proxy_name alias rest names (ground (arith, h)))
    where
      unlisted : is_account alias a ≡ false
      unlisted = ground (arith, h)

not-empty : (n : String) → "" ≡ n → str_eq n "" ≡ false → ⊥
not-empty n e h = ground (arith, subst (λ k. str_eq k "" ≡ false) (sym e) h)

unless_empty : (b : Bool) (x n : String) → (if b then "" else x) ≡ n → str_eq n "" ≡ false → x ≡ n
unless_empty true x n e h = absurd (not-empty n e h)
unless_empty false x n e h = e

only_name-some :
    (o : Option (List String)) (n : String)
    → only_name o ≡ n
    → str_eq n "" ≡ false
    → o ≡ some (n ∷ [])
unfolding only_name
only_name-some none n e h = absurd (not-empty n e h)
only_name-some (some []) n e h = absurd (not-empty n e h)
only_name-some (some (m ∷ [])) n e h = ap (λ k. some (k ∷ [])) e
only_name-some (some (m ∷ k ∷ names)) n e h = absurd (not-empty n e h)

module _ {W : Type 0} where
  -- When the command line names a proxy for an account, the status lists an account of this alias or
  -- identifier, and every account of it belongs to that proxy.
  pub name_in_status-AllOwned :
      (alias n : String) (status : ProxyStatus W)
      → name_in_status alias status ≡ n
      → str_eq n "" ≡ false
      → AllOwned status.proxy_name (trim_space alias) n status.accounts
        × (is_listed (trim_space alias) status.accounts ≡ true)
  unfolding name_in_status
  name_in_status-AllOwned alias n status e h = (owned, listed)
    where
      found : owners status.proxy_name (trim_space alias) status.accounts [] ≡ some (n ∷ [])
      found = only_name-some _ n (unless_empty (str_eq (trim_space alias) "") _ n e h) h

      owned : AllOwned status.proxy_name (trim_space alias) n status.accounts
      owned =
          (owners-All status.proxy_name (trim_space alias) n status.accounts [] (n ∷ []) found
            (refl, tt)).0

      listed : is_listed (trim_space alias) status.accounts ≡ true
      listed = elim (Bool-cases (is_listed (trim_space alias) status.accounts)) [
        | inl q ↦ q
        | inr q ↦ ground (
          arith,
          found,
          owners-unlisted status.proxy_name (trim_space alias) status.accounts [] q,
        )
      ]
