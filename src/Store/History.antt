-- ===== src/Store/History.antt =====
-- Histories of the store: the operations of the proxy in any order.
use agent_lb_proxy.Prelude.{Bool, String, List, [], ◌∷◌, refl}
use agent_lb_proxy.Prelude.Int.{ℤ}
use agent_lb_proxy.Prelude.Outcome.{Outcome, ok, err, panic, Keeps}
use agent_lb_proxy.Types.{Account, StoreFile, AuthInfo}
use agent_lb_proxy.Store.Accounts.{remove_fn}
use agent_lb_proxy.Store.Marks.{
  on_account, mark_success, cool_down, mark_cooldown, mark_disabled, recover, mark_auth_recovered,
  adopt_auth, expire_cooldowns, take_refresh, store_refresh, set_pin, unpin_account,
}
use agent_lb_proxy.Store.Invariant.{
  IsSound, IsKnown, on_account-IsSound, mark_success-IsSound, mark_disabled-IsSound,
  expire_cooldowns-IsSound, remove_fn-IsSound,
}

-- The operations of the proxy that write accounts or the state, with their arguments.
pub data Event (W : Type 0) : Type 0 where
  succeeded : ℤ → Bool → String → String → Bool → Event W
  cooled : ℤ → String → ℤ → String → Event W
  disabled : String → String → Event W
  recovered : String → AuthInfo → Event W
  adopted : String → AuthInfo → Event W
  refreshed : String → Account W → Event W
  expired : ℤ → Event W
  removed : String → Event W
  pinned : String → Event W
  unpinned : Event W

module _ {W : Type 0} where
  -- A removal that fails leaves the store as it is. A pin is the update of `/admin/account/pin`, with
  -- the identifier that the handler has looked up before.
  unfoldable pub apply : Event W → StoreFile W → StoreFile W
  apply (succeeded now switched reason id increment) sf =
      mark_success now switched reason id increment sf
  apply (cooled clock id seconds reason) sf = mark_cooldown clock id seconds reason sf
  apply (disabled id reason) sf = mark_disabled id reason sf
  apply (recovered id auth) sf = mark_auth_recovered id auth sf
  apply (adopted id auth) sf = on_account id (adopt_auth auth) sf
  apply (refreshed id updated) sf = store_refresh id updated sf
  apply (expired now) sf = expire_cooldowns now sf
  apply (removed alias) sf = elim (remove_fn alias sf) [ ok sf' ↦ sf' | err e ↦ sf | panic ↦ sf ]
  apply (pinned id) sf = set_pin id sf
  apply unpinned sf = unpin_account sf

  unfoldable pub run : List (Event W) → StoreFile W → StoreFile W
  run [] sf = sf
  run (e ∷ events) sf = run events (apply e sf)

  removed-IsSound :
      (o : Outcome String (StoreFile W)) (sf : StoreFile W)
      → Keeps IsSound o
      → IsSound sf
      → IsSound (elim o [ ok sf' ↦ sf' | err e ↦ sf | panic ↦ sf ])
  removed-IsSound (ok sf') sf k v = k
  removed-IsSound (err e) sf k v = v
  removed-IsSound panic sf k v = v

  -- What an event needs: the identifier of a pin is that of an account.
  abbrev pub Fits : Event W → StoreFile W → Type 0
  Fits (pinned id) sf = IsKnown id sf.accounts
  Fits _ sf = Unit

  pub apply-IsSound :
      (e : Event W) (sf : StoreFile W) → Fits e sf → IsSound sf → IsSound (apply e sf)
  unfolding apply mark_cooldown cool_down mark_auth_recovered recover adopt_auth store_refresh
      take_refresh unpin_account set_pin
  apply-IsSound (succeeded now switched reason id increment) sf h v =
      mark_success-IsSound now switched reason id increment sf v
  apply-IsSound (cooled clock id seconds reason) sf h v =
      on_account-IsSound id (cool_down clock seconds reason) sf (λ a. refl) v
  apply-IsSound (disabled id reason) sf h v = mark_disabled-IsSound id reason sf v
  apply-IsSound (recovered id auth) sf h v = on_account-IsSound id (recover auth) sf (λ a. refl) v
  apply-IsSound (adopted id auth) sf h v = on_account-IsSound id (adopt_auth auth) sf (λ a. refl) v
  apply-IsSound (refreshed id updated) sf h v =
      on_account-IsSound id (take_refresh updated) sf (λ a. refl) v
  apply-IsSound (expired now) sf h v = expire_cooldowns-IsSound now sf v
  apply-IsSound (removed alias) sf h v =
      removed-IsSound (remove_fn alias sf) sf (remove_fn-IsSound alias sf v) v
  apply-IsSound (pinned id) sf h v = record { nonneg = v.nonneg; below = v.below; pinned = h }
  apply-IsSound unpinned sf h v = record { nonneg = v.nonneg; below = v.below; pinned = refl }
