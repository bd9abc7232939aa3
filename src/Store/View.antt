-- ===== src/Store/View.antt =====
-- What the store is to the rest of the proxy, apart from the order of its accounts: the account of each
-- identifier, and the pin. The records of internal/lb/proxy.go as updates of that view.
use agent_lb_proxy.Prelude.{
  ℕ, suc, ◌≡◌, refl, ap, ◌∙◌, Bool, true, false, ◌&&◌, String, Option, none, some, List, [], ◌∷◌,
  str_eq, eq_iff, modify, index_func, arith, Bool-cases, Option-cases, inl, inr, if◌then◌else◌,
}
use agent_lb_proxy.Prelude.Int.{ℤ}
use agent_lb_proxy.Prelude.Codes.{is_some}
use agent_lb_proxy.Types.{Account, StoreFile}
use agent_lb_proxy.Store.Marks.{
  index_of_id, on_account, succeed, mark_success, disable, mark_disabled,
  should_clear_pin_on_disable,
}

module _ {W : Type 0} where
  abbrev pub map_option : (Account W → Account W) → Option (Account W) → Option (Account W)
  map_option f none = none
  map_option f (some a) = some (f a)

  abbrev pub lookup : List (Account W) → String → Option (Account W)
  lookup [] x = none
  lookup (a ∷ accounts) x = if str_eq a.id x then some a else lookup accounts x

  -- One account of the view is changed.
  abbrev pub changed :
      String → (Account W → Account W) → (String → Option (Account W)) → String → Option (Account W)
  changed id change v x = if str_eq id x then map_option change (v x) else v x

  -- The accounts after `on_account` and its like, for the index that is found.
  abbrev pub change_at : Option ℕ → (Account W → Account W) → List (Account W) → List (Account W)
  change_at none change accounts = accounts
  change_at (some i) change accounts = modify accounts i change

  index_of_id-head :
      (a : Account W) (id : String) (accounts : List (Account W))
      → str_eq a.id id ≡ true
      → index_of_id id (a ∷ accounts) ≡ some 0
  unfolding index_func
  index_of_id-head a id accounts h = ground (arith, h)

  index_of_id-tail :
      (a : Account W) (id : String) (accounts : List (Account W))
      → str_eq a.id id ≡ false
      → index_of_id id (a ∷ accounts)
        ≡ elim (index_of_id id accounts) [ none ↦ none | some i ↦ some (suc i) ]
  unfolding index_func
  index_of_id-tail a id accounts h = ground (arith, h)

  change_at-tail :
      (a : Account W) (o : Option ℕ) (change : Account W → Account W) (accounts : List (Account W))
      → change_at (elim o [ none ↦ none | some i ↦ some (suc i) ]) change (a ∷ accounts)
        ≡ a ∷ change_at o change accounts
  change_at-tail a none change accounts = refl
  change_at-tail a (some i) change accounts = refl

  changed-head :
      (a : Account W) (id : String) (change : Account W → Account W) (accounts : List (Account W))
      (x : String)
      → ((a : Account W) → (change a).id ≡ a.id)
      → str_eq a.id id ≡ true
      → lookup (change a ∷ accounts) x ≡ changed id change (lookup (a ∷ accounts)) x
  changed-head a id change accounts x h e = elim (Bool-cases (str_eq a.id x)) [
    | inl q ↦ rw (ap (λ i. str_eq i x) (h a), same_test e, q) refl
    | inr q ↦ rw (ap (λ i. str_eq i x) (h a), same_test e, q) refl
  ]
    where
      same_test : str_eq a.id id ≡ true → str_eq id x ≡ str_eq a.id x
      same_test p = ground (arith, eq_iff a.id id, eq_iff a.id x, eq_iff id x)

  changed-tail :
      (a : Account W) (id : String) (change : Account W → Account W)
      (accounts accounts' : List (Account W)) (x : String)
      → str_eq a.id id ≡ false
      → lookup accounts' x ≡ changed id change (lookup accounts) x
      → lookup (a ∷ accounts') x ≡ changed id change (lookup (a ∷ accounts)) x
  changed-tail a id change accounts accounts' x e ih = elim (Bool-cases (str_eq a.id x)) [
    | inl q ↦ rw (q, other q) refl
    | inr q ↦ rw q ih
  ]
    where
      other : str_eq a.id x ≡ true → str_eq id x ≡ false
      other q = ground (arith, eq_iff a.id id, eq_iff a.id x, eq_iff id x)

  pub lookup-change_at :
      (id : String) (change : Account W → Account W) (accounts : List (Account W)) (x : String)
      → ((a : Account W) → (change a).id ≡ a.id)
      → lookup (change_at (index_of_id id accounts) change accounts) x
        ≡ changed id change (lookup accounts) x
  unfolding index_func
  lookup-change_at id change [] x h = ground arith
  lookup-change_at id change (a ∷ accounts) x h = elim (Bool-cases (str_eq a.id id)) [
    | inl e ↦
        ap (λ o. lookup (change_at o change (a ∷ accounts)) x) (index_of_id-head a id accounts e)
        ∙ changed-head a id change accounts x h e
    | inr e ↦
        ap (λ o. lookup (change_at o change (a ∷ accounts)) x) (index_of_id-tail a id accounts e)
        ∙ ap (λ l. lookup l x) (change_at-tail a (index_of_id id accounts) change accounts)
        ∙ changed-tail a id change accounts _ x e (lookup-change_at id change accounts x h)
  ]

  -- Whether an index is found is whether the identifier has an account.
  pub lookup-index_of_id :
      (id : String) (accounts : List (Account W))
      → is_some (lookup accounts id) ≡ is_some (index_of_id id accounts)
  unfolding index_func
  lookup-index_of_id id [] = refl
  lookup-index_of_id id (a ∷ accounts) = elim (Bool-cases (str_eq a.id id)) [
    | inl e ↦ ground (arith, e)
    | inr e ↦ ground (arith, e, lookup-index_of_id id accounts)
  ]

  -- The three forms of a record: each changes the account at the index that is found.
  pub on_account-change_at :
      (id : String) (change : Account W → Account W) (sf : StoreFile W)
      → ((on_account id change sf).accounts
          ≡ change_at (index_of_id id sf.accounts) change sf.accounts)
        × ((on_account id change sf).state ≡ sf.state)
  unfolding on_account
  on_account-change_at id change sf = elim (Option-cases (index_of_id id sf.accounts)) [
    | inl e ↦ rw (e, on_account) (refl, refl)
    | inr (i, e) ↦ rw (e, on_account) (refl, refl)
  ]

  pub mark_success-change_at :
      (now : ℤ) (switched : Bool) (reason id : String) (increment : Bool) (sf : StoreFile W)
      → ((mark_success now switched reason id increment sf).accounts
          ≡ change_at (index_of_id id sf.accounts) (succeed now reason) sf.accounts)
        × ((mark_success now switched reason id increment sf).state.pinned_account_id
            ≡ sf.state.pinned_account_id)
  unfolding mark_success
  mark_success-change_at now switched reason id increment sf =
      elim (Option-cases (index_of_id id sf.accounts)) [
        | inl e ↦ rw (e, mark_success) (refl, refl)
        | inr (i, e) ↦ rw (e, mark_success) (refl, refl)
      ]

  pub mark_disabled-change_at :
      (id reason : String) (sf : StoreFile W)
      → ((mark_disabled id reason sf).accounts
          ≡ change_at (index_of_id id sf.accounts) (disable reason) sf.accounts)
        × ((mark_disabled id reason sf).state.pinned_account_id ≡ (
            if is_some (index_of_id id sf.accounts)
              && (should_clear_pin_on_disable reason && str_eq sf.state.pinned_account_id id)
            then ""
            else sf.state.pinned_account_id))
  unfolding mark_disabled
  mark_disabled-change_at id reason sf = elim (Option-cases (index_of_id id sf.accounts)) [
    | inl e ↦ rw (e, mark_disabled) (refl, refl)
    | inr (i, e) ↦ rw (e, mark_disabled) (refl, refl)
  ]
