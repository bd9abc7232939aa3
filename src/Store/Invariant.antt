-- ===== src/Store/Invariant.antt =====
-- What makes the state of a store sound, and the operations of the proxy on it.
use agent_lb_proxy.Prelude.{
  ℕ, zero, suc, ◌+◌, ◌-◌, ◌≤◌, ◌<◌, ◌≡◌, refl, inl, inr, Bool, true, false, ◌&&◌, ◌||◌, String,
  some, List, [], ◌∷◌, map, length, length-modify, length-map, modify, remove_at, length-remove_at,
  lt_of_get_elem?, index_func-some, index_func, get_elem?, arith, eq_iff, str_eq, Option-cases,
  if◌then◌else◌,
}
use agent_lb_proxy.Prelude.Int.{ℤ, pos_part, neg_part}
use agent_lb_proxy.Prelude.Outcome.{Keeps, at}
use agent_lb_proxy.Types.{Account, StoreFile}
use agent_lb_proxy.Store.Accounts.{remove_fn, clamp_active_index}
use agent_lb_proxy.Store.Marks.{
  index_of_id, on_account, succeed, mark_success, disable, mark_disabled,
  should_clear_pin_on_disable, expire, expire_cooldowns, pinned_id_of,
}

pub clamp_nonneg :
    (total : ℕ) (active : ℤ) → neg_part active ≡ 0 → neg_part (clamp_active_index total active) ≡ 0
unfolding clamp_active_index
clamp_nonneg total active h = ground arith

pub clamp_below :
    (total : ℕ) (active : ℤ)
    → neg_part active ≡ 0
    → pos_part (clamp_active_index total active) ≤ total - 1
unfolding clamp_active_index
clamp_below total active h = ground arith

module _ {W : Type 0} where
  abbrev pub has_id : String → List (Account W) → Bool
  has_id id [] = false
  has_id id (a ∷ accounts) = str_eq a.id id || has_id id accounts

  abbrev pub IsKnown : String → List (Account W) → Type 0
  IsKnown id accounts = (str_eq id "" || has_id id accounts) ≡ true

  clear-IsKnown :
      (clear : Bool) (id : String) (accounts : List (Account W))
      → IsKnown id accounts
      → IsKnown (if clear then "" else id) accounts
  clear-IsKnown true id accounts h = refl
  clear-IsKnown false id accounts h = h

  -- The active index is that of an account, or 0 in an empty store; and the pinned identifier is
  -- empty or that of an account.
  pub record IsSound (sf : StoreFile W) : Type 0 where
    pub nonneg : neg_part sf.state.active_index ≡ 0
    pub below : pos_part sf.state.active_index ≤ length sf.accounts - 1
    pub pinned :
        (str_eq sf.state.pinned_account_id "" || has_id sf.state.pinned_account_id sf.accounts)
        ≡ true

  pub has_id-modify :
      (id : String) (change : Account W → Account W) (i : ℕ) (accounts : List (Account W))
      → ((a : Account W) → (change a).id ≡ a.id)
      → has_id id (modify accounts i change) ≡ has_id id accounts
  has_id-modify id change i [] h = refl
  has_id-modify id change zero (a ∷ accounts) h = rw (h a)
  has_id-modify id change (suc i) (a ∷ accounts) h = rw (has_id-modify id change i accounts h)

  pub has_id-map :
      (id : String) (change : Account W → Account W) (accounts : List (Account W))
      → ((a : Account W) → (change a).id ≡ a.id)
      → has_id id (map change accounts) ≡ has_id id accounts
  has_id-map id change [] h = refl
  has_id-map id change (a ∷ accounts) h = rw (h a, has_id-map id change accounts h)

  has_id-remove_at :
      (id : String) (i : ℕ) (accounts : List (Account W)) {removed : Account W}
      → get_elem? accounts i ≡ some removed
      → str_eq id removed.id ≡ false
      → has_id id (remove_at accounts i) ≡ has_id id accounts
  has_id-remove_at id i [] e h = refl
  has_id-remove_at id zero (a ∷ accounts) {removed} e h =
      ground (arith, eq_iff a.id id, eq_iff id removed.id)
  has_id-remove_at id (suc i) (a ∷ accounts) e h = rw (has_id-remove_at id i accounts e h)

  index_of_id-lt :
      (id : String) (accounts : List (Account W)) {i : ℕ}
      → index_of_id id accounts ≡ some i
      → i < length accounts
  index_of_id-lt id accounts {i} e =
      let (a, found, same) = index_func-some (λ (b : Account W). str_eq b.id id) accounts e in
      lt_of_get_elem? accounts i found

  pub on_account-IsSound :
      (id : String) (change : Account W → Account W) (sf : StoreFile W)
      → ((a : Account W) → (change a).id ≡ a.id)
      → IsSound sf
      → IsSound (on_account id change sf)
  unfolding on_account
  on_account-IsSound id change sf h v = elim (Option-cases (index_of_id id sf.accounts)) [
    | inl e ↦ rw (e, on_account) v
    | inr (i, e) ↦
        rw (e, on_account)
          (record {
            nonneg = v.nonneg;
            below = omega (arith, length-modify sf.accounts i change, v.below);
            pinned = rw (has_id-modify sf.state.pinned_account_id change i sf.accounts h) v.pinned;
          })
  ]

  pub mark_success-IsSound :
      (now_ms : ℤ) (switched : Bool) (reason id : String) (increment : Bool) (sf : StoreFile W)
      → IsSound sf
      → IsSound (mark_success now_ms switched reason id increment sf)
  unfolding mark_success succeed
  mark_success-IsSound now_ms switched reason id increment sf v =
      elim (Option-cases (index_of_id id sf.accounts)) [
        | inl e ↦ rw (e, mark_success) v
        | inr (i, e) ↦
            rw (e, mark_success)
              (record {
                nonneg = refl;
                below = omega (
                  arith,
                  index_of_id-lt id sf.accounts e,
                  length-modify sf.accounts i (succeed now_ms reason),
                );
                pinned =
                    rw
                      (has_id-modify sf.state.pinned_account_id (succeed now_ms reason) i
                        sf.accounts (λ a. refl))
                      v.pinned;
              })
      ]

  pub mark_disabled-IsSound :
      (id reason : String) (sf : StoreFile W) → IsSound sf → IsSound (mark_disabled id reason sf)
  unfolding mark_disabled disable
  mark_disabled-IsSound id reason sf v = elim (Option-cases (index_of_id id sf.accounts)) [
    | inl e ↦ rw (e, mark_disabled) v
    | inr (i, e) ↦
        rw (e, mark_disabled)
          (record {
            nonneg = v.nonneg;
            below = omega (arith, length-modify sf.accounts i (disable reason), v.below);
            pinned =
                clear-IsKnown
                  (should_clear_pin_on_disable reason && str_eq sf.state.pinned_account_id id)
                  sf.state.pinned_account_id _
                  (rw
                    (has_id-modify sf.state.pinned_account_id (disable reason) i sf.accounts
                      (λ a. refl))
                    v.pinned);
          })
  ]

  pub expire_cooldowns-IsSound :
      (now_ms : ℤ) (sf : StoreFile W) → IsSound sf → IsSound (expire_cooldowns now_ms sf)
  unfolding expire_cooldowns expire
  expire_cooldowns-IsSound now_ms sf v = record {
    nonneg = v.nonneg;
    below = omega (arith, length-map (expire now_ms) sf.accounts, v.below);
    pinned =
        rw (has_id-map sf.state.pinned_account_id (expire now_ms) sf.accounts (λ a. refl)) v.pinned;
  }

  pub pinned_id_of-has_id :
      (alias : String) (accounts : List (Account W))
      → (str_eq (pinned_id_of alias accounts) "" || has_id (pinned_id_of alias accounts) accounts)
        ≡ true
  unfolding pinned_id_of
  pinned_id_of-has_id alias [] = refl
  pinned_id_of-has_id alias (a ∷ accounts) =
      ground (arith, pinned_id_of-has_id alias accounts, eq_iff a.id a.id)

  remove_pin :
      (known : Bool) (same : Bool) (pinned : String) (accounts : List (Account W))
      → (same ≡ false → IsKnown pinned accounts)
      → IsKnown (if known || same then "" else pinned) accounts
  remove_pin true same pinned accounts h = refl
  remove_pin false true pinned accounts h = refl
  remove_pin false false pinned accounts h = h refl

  pub remove_fn-IsSound :
      (alias : String) (sf : StoreFile W) → IsSound sf → Keeps IsSound (remove_fn alias sf)
  unfolding remove_fn
  remove_fn-IsSound alias sf v =
      elim (Option-cases
        (index_func (λ a. str_eq a.alias alias || str_eq a.id alias) sf.accounts)) [
          | inl e ↦ rw (e, remove_fn) tt
          | inr (i, e) ↦ removed_at i (index_func-some _ sf.accounts e) e
        ]
    where
      removed_at :
          (i : ℕ)
          → (a : Account W) × (get_elem? sf.accounts i ≡ some a)
            × ((str_eq a.alias alias || str_eq a.id alias) ≡ true)
          → index_func (λ a. str_eq a.alias alias || str_eq a.id alias) sf.accounts ≡ some i
          → Keeps IsSound (remove_fn alias sf)
      removed_at i (removed, found, same) e =
          let inside : i < length sf.accounts = lt_of_get_elem? sf.accounts i found in
          let fewer : length (remove_at sf.accounts i) + 1 ≡ length sf.accounts =
            length-remove_at sf.accounts i inside in
          rw (e, found, remove_fn, at)
            (record {
              nonneg =
                  clamp_nonneg (length (remove_at sf.accounts i)) sf.state.active_index v.nonneg;
              below = clamp_below (length (remove_at sf.accounts i)) sf.state.active_index v.nonneg;
              pinned =
                  remove_pin (str_eq sf.state.pinned_account_id alias)
                    (str_eq sf.state.pinned_account_id removed.id) sf.state.pinned_account_id _
                    (λ other.
                      rw (has_id-remove_at sf.state.pinned_account_id i sf.accounts found other)
                        v.pinned);
            })
