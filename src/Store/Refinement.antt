-- ===== src/Store/Refinement.antt =====
-- The records of internal/lb/proxy.go refine updates of an abstract view of the store.
use mathlib.Core.Path.{fun_ext}
use agent_lb_proxy.Prelude.{
  ◌≡◌, refl, ap, ◌∙◌, sym, Bool, true, false, ◌&&◌, String, Option, List, [], ◌∷◌, str_eq, map, All,
  arith, Bool-cases, inl, inr, if◌then◌else◌,
}
use agent_lb_proxy.Prelude.Int.{ℤ}
use agent_lb_proxy.Prelude.Codes.{is_some}
use agent_lb_proxy.Types.{Account, StoreFile}
use agent_lb_proxy.Store.Marks.{
  index_of_id, on_account, succeed, cool_down, mark_cooldown, disable, recover, mark_auth_recovered,
  adopt_auth, expire, expire_cooldowns, take_refresh, store_refresh, set_pin, unpin_account,
  should_clear_pin_on_disable,
}
use agent_lb_proxy.Store.History.{
  Event, succeeded, cooled, disabled, recovered, adopted, refreshed, expired, removed, pinned,
  unpinned, apply, run,
}
use agent_lb_proxy.Store.View.{
  map_option, lookup, changed, change_at, lookup-change_at, lookup-index_of_id,
  mark_success-change_at, mark_disabled-change_at, on_account-change_at,
}

-- What the store is to the rest of the proxy, apart from the order of its accounts.
pub record View (W : Type 0) : Type 0 where
  pub account : String → Option (Account W)
  pub pin : String

module _ {W : Type 0} where
  abbrev pub view : StoreFile W → View W
  view sf = record { account = lookup sf.accounts; pin = sf.state.pinned_account_id }

  abbrev change_view : String → (Account W → Account W) → View W → View W
  change_view id change v = record v { account = changed id change v.account }

  -- The event, for a view. Removals and pins find an account by its alias, which takes the order of the
  -- accounts; they have no counterpart here.
  abbrev pub step_view : Event W → View W → View W
  step_view (succeeded now switched reason id increment) v = change_view id (succeed now reason) v
  step_view (cooled clock id seconds reason) v = change_view id (cool_down clock seconds reason) v
  step_view (disabled id reason) v = record {
    account = changed id (disable reason) v.account;
    pin =
        if is_some (v.account id) && (should_clear_pin_on_disable reason && str_eq v.pin id)
        then ""
        else v.pin;
  }
  step_view (recovered id auth) v = change_view id (recover auth) v
  step_view (adopted id auth) v = change_view id (adopt_auth auth) v
  step_view (refreshed id updated) v = change_view id (take_refresh updated) v
  step_view (expired now) v = record v { account = λ x. map_option (expire now) (v.account x) }
  step_view unpinned v = record v { pin = "" }
  step_view _ v = v

  -- An event that is not a removal or a pin.
  abbrev pub is_record : Event W → Bool
  is_record (removed alias) = false
  is_record (pinned alias) = false
  is_record _ = true

  abbrev pub run_view : List (Event W) → View W → View W
  run_view [] v = v
  run_view (e ∷ events) v = run_view events (step_view e v)

  view-equal : (v w : View W) → ((x : String) → v.account x ≡ w.account x) → v.pin ≡ w.pin → v ≡ w
  view-equal v w f e = ap (put v.pin) (fun_ext f) ∙ ap (λ p. put p w.account) e
    where
      put : String → (String → Option (Account W)) → View W
      put p g = record { account = g; pin = p }

  -- The accounts of a store after a record.
  lookup-changed :
      (id : String) (change : Account W → Account W) (accounts changed_list : List (Account W))
      → ((a : Account W) → (change a).id ≡ a.id)
      → changed_list ≡ change_at (index_of_id id accounts) change accounts
      → (x : String) → lookup changed_list x ≡ changed id change (lookup accounts) x
  lookup-changed id change accounts changed_list h e x =
      ap (λ l. lookup l x) e ∙ lookup-change_at id change accounts x h

  on_account-view :
      (id : String) (change : Account W → Account W) (sf : StoreFile W)
      → ((a : Account W) → (change a).id ≡ a.id)
      → view (on_account id change sf) ≡ change_view id change (view sf)
  on_account-view id change sf h =
      let (accounts, state) = on_account-change_at id change sf in
      view-equal _ _ (lookup-changed id change sf.accounts _ h accounts)
        (ap (λ s. s.pinned_account_id) state)

  lookup-expire :
      (now : ℤ) (accounts : List (Account W)) (x : String)
      → lookup (map (expire now) accounts) x ≡ map_option (expire now) (lookup accounts x)
  unfolding expire
  lookup-expire now [] x = refl
  lookup-expire now (a ∷ accounts) x = elim (Bool-cases (str_eq a.id x)) [
    | inl e ↦ rw e refl
    | inr e ↦ rw e (lookup-expire now accounts x)
  ]

  apply-view :
      (e : Event W) (sf : StoreFile W)
      → is_record e ≡ true
      → view (apply e sf) ≡ step_view e (view sf)
  unfolding apply mark_cooldown cool_down mark_auth_recovered recover adopt_auth store_refresh
      take_refresh unpin_account set_pin succeed disable expire_cooldowns
  apply-view (succeeded now switched reason id increment) sf h =
      let (accounts, pin) = mark_success-change_at now switched reason id increment sf in
      view-equal _ _ (lookup-changed id (succeed now reason) sf.accounts _ (λ a. refl) accounts) pin
  apply-view (cooled clock id seconds reason) sf h =
      on_account-view id (cool_down clock seconds reason) sf (λ a. refl)
  apply-view (disabled id reason) sf h =
      let (accounts, pin) = mark_disabled-change_at id reason sf in
      view-equal _ _ (lookup-changed id (disable reason) sf.accounts _ (λ a. refl) accounts) (
        pin
        ∙ ap
            (λ b.
              if b && (should_clear_pin_on_disable reason && str_eq sf.state.pinned_account_id id)
              then ""
              else sf.state.pinned_account_id)
            (sym (lookup-index_of_id id sf.accounts)))
  apply-view (recovered id auth) sf h = on_account-view id (recover auth) sf (λ a. refl)
  apply-view (adopted id auth) sf h = on_account-view id (adopt_auth auth) sf (λ a. refl)
  apply-view (refreshed id updated) sf h = on_account-view id (take_refresh updated) sf (λ a. refl)
  apply-view (expired now) sf h = view-equal _ _ (lookup-expire now sf.accounts) refl
  apply-view (removed alias) sf h = absurd (ground (arith, h))
  apply-view (pinned alias) sf h = absurd (ground (arith, h))
  apply-view unpinned sf h = refl

  -- A history of successes, cooldowns, disablings, recoveries, refreshes, expiries and unpinnings does to
  -- the view of the store, the account of each identifier and the pin, what the events do to it one by
  -- one, each to the account of its identifier alone.
  pub run-view :
      (events : List (Event W)) (sf : StoreFile W)
      → All (λ e. is_record e ≡ true) events
      → view (run events sf) ≡ run_view events (view sf)
  unfolding run
  run-view [] sf h = refl
  run-view (e ∷ events) sf h =
      run-view events (apply e sf) h.1 ∙ ap (run_view events) (apply-view e sf h.0)
