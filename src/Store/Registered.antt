-- ===== src/Store/Registered.antt =====
-- The accounts that are read from disk are registered under their aliases, and the state is sound.
use agent_lb_proxy.Prelude.{
  ◌≡◌, refl, subst, true, false, not, ◌&&◌, ◌||◌, String, Option, none, some, List, [], ◌∷◌, str_eq,
  length, All, arith, Bool-cases, Option-cases, inl, inr, if◌then◌else◌,
}
use agent_lb_proxy.Prelude.Int.{neg_part}
use agent_lb_proxy.Types.{Account, StoreFile, AuthInfo}
use agent_lb_proxy.Store.Invariant.{IsSound, has_id, clamp_nonneg, clamp_below}
use agent_lb_proxy.Store.Startup.{
  DirEntry, account_auth, alias_before, account_id, with_alias, delete_alias, insert_account,
  sort_accounts, reconcile_order, is_known_id, reconcile_state, refresh_account, discovered_account,
  discover, base_or_default, reconcile_accounts,
}

base_nonempty : (base : String) → str_eq (base_or_default base) "" ≡ false
unfolding base_or_default
base_nonempty base = elim (Bool-cases (str_eq base "")) [ inl e ↦ rw e refl | inr e ↦ rw e e ]

module _ {W : Type 0} where
  All-insert :
      (P : Account W → Type 0) (a : Account W) (accounts : List (Account W))
      → P a
      → All P accounts
      → All P (insert_account a accounts)
  unfolding insert_account
  All-insert P a [] h g = (h, tt)
  All-insert P a (b ∷ accounts) h g = elim (Bool-cases (alias_before a.alias b.alias)) [
    | inl e ↦ rw e (h, g)
    | inr e ↦ rw e (g.0, All-insert P a accounts h g.1)
  ]

  All-sort :
      (P : Account W → Type 0) (accounts : List (Account W))
      → All P accounts
      → All P (sort_accounts accounts)
  unfolding sort_accounts
  All-sort P [] h = tt
  All-sort P (a ∷ accounts) h =
      All-insert P a (sort_accounts accounts) h.0 (All-sort P accounts h.1)

  All-delete :
      (P : Account W → Type 0) (y : String) (accounts : List (Account W))
      → All P accounts
      → All P (delete_alias y accounts)
  unfolding delete_alias
  All-delete P y [] h = tt
  All-delete P y (a ∷ accounts) h = elim (Bool-cases (str_eq a.alias y)) [
    | inl e ↦ rw e (All-delete P y accounts h.1)
    | inr e ↦ rw e (h.0, All-delete P y accounts h.1)
  ]

  abbrev AllOption : (Account W → Type 0) → Option (Account W) → Type 0
  AllOption P none = Unit
  AllOption P (some a) = P a

  All-with_alias :
      (P : Account W → Type 0) (y : String) (accounts : List (Account W))
      → All P accounts
      → AllOption P (with_alias y accounts)
  unfolding with_alias
  All-with_alias P y [] h = tt
  All-with_alias P y (a ∷ accounts) h = elim (Bool-cases (str_eq a.alias y)) [
    | inl e ↦ rw e h.0
    | inr e ↦ rw e (All-with_alias P y accounts h.1)
  ]

  All-reconcile_order :
      (P : Account W → Type 0) (existing discovered : List (Account W))
      → All P discovered
      → All P (reconcile_order existing discovered)
  unfolding reconcile_order
  All-reconcile_order P [] discovered h = All-sort P discovered h
  All-reconcile_order P (e ∷ existing) discovered h =
      elim (Option-cases (with_alias e.alias discovered)) [
        | inl q ↦ rw (q, reconcile_order) (All-reconcile_order P existing discovered h)
        | inr (a, q) ↦
            rw (q, reconcile_order)
              (
                found q (All-with_alias P e.alias discovered h),
                All-reconcile_order P existing _ (All-delete P e.alias discovered h),
              )
      ]
    where
      found : {a : Account W} {o : Option (Account W)} → o ≡ some a → AllOption P o → P a
      found q k = subst (AllOption P) q k

  is_known_id-has_id :
      (id : String) (accounts : List (Account W)) → is_known_id id accounts ≡ has_id id accounts
  unfolding is_known_id
  is_known_id-has_id id [] = refl
  is_known_id-has_id id (a ∷ accounts) = rw (is_known_id-has_id id accounts) refl

  -- The pin after the accounts have been read.
  pinned_or_empty :
      (id : String) (accounts : List (Account W))
      → let kept = if not (str_eq id "") && not (is_known_id id accounts) then "" else id in
        (str_eq kept "" || has_id kept accounts) ≡ true
  pinned_or_empty id accounts =
      elim (Bool-cases (not (str_eq id "") && not (is_known_id id accounts))) [
        | inl e ↦ rw e refl
        | inr e ↦ rw e (ground (arith, is_known_id-has_id id accounts))
      ]

  module _ (lower home_of : String → String) where
    -- The identifier, the directory and the base URL are those of the alias.
    pub record IsRegistered (a : Account W) : Type 0 where
      pub identifier : a.id ≡ account_id lower a.alias
      pub home : a.home_dir ≡ home_of a.alias
      pub based : str_eq a.base_url "" ≡ false

    refresh_account-IsRegistered :
        (alias base : String) (auth : AuthInfo) (a : Account W)
        → str_eq base "" ≡ false
        → IsRegistered (refresh_account (account_id lower alias) alias (home_of alias) base auth a)
    unfolding refresh_account
    refresh_account-IsRegistered alias base auth a h = record {
      identifier = refl;
      home = refl;
      based = ground arith;
    }

    discover-IsRegistered :
        (z : W) (base : String) (accounts : List (Account W)) (entries : List DirEntry)
        → str_eq base "" ≡ false
        → All IsRegistered (discover lower home_of z base accounts entries)
    unfolding discover discovered_account
    discover-IsRegistered z base accounts [] h = tt
    discover-IsRegistered z base accounts (e ∷ entries) h = elim (Option-cases (account_auth e)) [
      | inl q ↦ rw (q, discover) (discover-IsRegistered z base accounts entries h)
      | inr (auth, q) ↦
          rw (q, discover)
            (
              refresh_account-IsRegistered e.name base auth _ h,
              discover-IsRegistered z base accounts entries h,
            )
    ]

    -- When the active index is not negative, the store is sound after the accounts are read from disk,
    -- and each account has the identifier `openai:` and its alias in lower case, the directory of its
    -- alias, and a base URL.
    pub reconcile_accounts-IsSound :
        (z : W) (entries : List DirEntry) (sf : StoreFile W)
        → neg_part sf.state.active_index ≡ 0
        → IsSound (reconcile_accounts lower home_of z entries sf)
          × All IsRegistered (reconcile_accounts lower home_of z entries sf).accounts
    unfolding reconcile_accounts reconcile_state
    reconcile_accounts-IsSound z entries sf h =
        let base = base_or_default sf.settings.proxy.upstream_base_url in
        let accounts =
          reconcile_order sf.accounts (discover lower home_of z base sf.accounts entries) in
        (
          record {
            nonneg = clamp_nonneg (length accounts) sf.state.active_index h;
            below = clamp_below (length accounts) sf.state.active_index h;
            pinned = pinned_or_empty sf.state.pinned_account_id accounts;
          },
          All-reconcile_order IsRegistered sf.accounts _
              (discover-IsRegistered z base sf.accounts entries (base_nonempty _)),
        )
