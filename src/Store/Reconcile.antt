-- ===== src/Store/Reconcile.antt =====
-- What the accounts and the state are after `reconcileAccountsFromDisk`.
use agent_lb_proxy.Prelude.{
  ◌≡◌, refl, ap, subst, ◌∙◌, Bool, true, false, not, ◌&&◌, ◌||◌, String, some, List, [], ◌∷◌,
  str_eq, eq_iff, arith, Bool-cases, Option-cases, inl, inr,
}
use agent_lb_proxy.Prelude.Codes.{is_some}
use agent_lb_proxy.Types.{Account, StoreFile}
use agent_lb_proxy.Store.Startup.{
  DirEntry, account_auth, with_alias, delete_alias, insert_account, sort_accounts, reconcile_order,
  refresh_account, discovered_account, discover, reconcile_accounts,
}

-- Whether a directory that holds an account has the name.
pub on_disk : String → List DirEntry → Bool
on_disk alias [] = false
on_disk alias (e ∷ entries) =
    (is_some (account_auth e) && str_eq e.name alias) || on_disk alias entries

module _ {W : Type 0} where
  abbrev pub has_alias : String → List (Account W) → Bool
  has_alias alias [] = false
  has_alias alias (a ∷ accounts) = str_eq a.alias alias || has_alias alias accounts

  has_alias-insert :
      (x : String) (a : Account W) (accounts : List (Account W))
      → has_alias x (insert_account a accounts) ≡ (str_eq a.alias x || has_alias x accounts)
  unfolding insert_account
  has_alias-insert x a [] = refl
  has_alias-insert x a (b ∷ accounts) = ground (arith, has_alias-insert x a accounts)

  has_alias-sort :
      (x : String) (accounts : List (Account W))
      → has_alias x (sort_accounts accounts) ≡ has_alias x accounts
  unfolding sort_accounts
  has_alias-sort x [] = refl
  has_alias-sort x (a ∷ accounts) =
      has_alias-insert x a (sort_accounts accounts) ∙ rw (has_alias-sort x accounts) refl

  has_alias-delete :
      (x y : String) (accounts : List (Account W))
      → has_alias x (delete_alias y accounts) ≡ (not (str_eq y x) && has_alias x accounts)
  unfolding delete_alias
  has_alias-delete x y [] = ground arith
  has_alias-delete x y (a ∷ accounts) =
      ground (arith, has_alias-delete x y accounts, eq_iff a.alias x, eq_iff a.alias y, eq_iff y x)

  with_alias-some :
      (y : String) (accounts : List (Account W)) {a : Account W}
      → with_alias y accounts ≡ some a
      → (str_eq a.alias y ≡ true) × (has_alias y accounts ≡ true)
  unfolding with_alias
  with_alias-some y [] e = ground (arith, e)
  with_alias-some y (b ∷ accounts) {a} e = elim (Bool-cases (str_eq b.alias y)) [
    | inl q ↦ (subst (λ (c : Account W). str_eq c.alias y ≡ true) (found (rw q at e)) q, rw q refl)
    | inr q ↦ ground (arith, with_alias-some y accounts (rw q at e))
  ]
    where
      found : {c d : Account W} → some c ≡ some d → c ≡ d
      found p = ground arith

  has_alias-reconcile_order :
      (x : String) (existing discovered : List (Account W))
      → has_alias x (reconcile_order existing discovered) ≡ has_alias x discovered
  unfolding reconcile_order
  has_alias-reconcile_order x [] discovered = has_alias-sort x discovered
  has_alias-reconcile_order x (e ∷ existing) discovered =
      elim (Option-cases (with_alias e.alias discovered)) [
        | inl q ↦ rw (q, reconcile_order) (has_alias-reconcile_order x existing discovered)
        | inr (a, q) ↦
            rw (q, reconcile_order)
              (grind (
                arith,
                has_alias-reconcile_order x existing (delete_alias e.alias discovered),
                has_alias-delete x e.alias discovered,
                (with_alias-some e.alias discovered q).0,
                (with_alias-some e.alias discovered q).1,
                eq_iff a.alias e.alias,
                eq_iff e.alias x,
                eq_iff a.alias x,
              ))
      ]

  module _ (lower home_of : String → String) where
    has_alias-discover :
        (z : W) (base x : String) (accounts : List (Account W)) (entries : List DirEntry)
        → has_alias x (discover lower home_of z base accounts entries) ≡ on_disk x entries
    unfolding discover on_disk discovered_account refresh_account
    has_alias-discover z base x accounts [] = refl
    has_alias-discover z base x accounts (e ∷ entries) = elim (Option-cases (account_auth e)) [
      | inl q ↦ rw (q, discover, on_disk) (has_alias-discover z base x accounts entries)
      | inr (auth, q) ↦
          rw (q, discover, on_disk)
            (ap (λ b. str_eq e.name x || b) (has_alias-discover z base x accounts entries))
    ]

    -- After the accounts are read from disk there is an account of an alias exactly when the directory
    -- has a valid entry of that name with credentials.
    pub has_alias-reconcile_accounts :
        (z : W) (entries : List DirEntry) (sf : StoreFile W) (x : String)
        → has_alias x (reconcile_accounts lower home_of z entries sf).accounts ≡ on_disk x entries
    unfolding reconcile_accounts
    has_alias-reconcile_accounts z entries sf x =
        has_alias-reconcile_order x sf.accounts _ ∙ has_alias-discover z _ x sf.accounts entries
