-- ===== src/Store/Accounts.antt =====
-- `UpsertAccount`, `RemoveAccountByAlias`, `ReloadSettingsFromConfig` and its equality tests, of
-- internal/lb/store.go.
use agent_lb_proxy.Prelude.{
  ℕ, suc, ◌-◌, Bool, true, false, not, ◌&&◌, ◌||◌, String, Option, none, some, List, [], ◌∷◌, ◌++◌,
  length, set, remove_at, index_func, ltb, str_eq, if◌then◌else◌,
}
use agent_lb_proxy.Prelude.Int.{ℤ, pos, eqb_ℤ, leb_ℤ}
use agent_lb_proxy.Prelude.Float.{Float64, eq}
use agent_lb_proxy.Prelude.Outcome.{Outcome, ok, err, panic, at, ◌>>=◌}
use agent_lb_proxy.Types.{ProxyConfig, QuotaConfig, Settings, Account, StoreFile}
use agent_lb_proxy.Store.{Store, WriteFault, in_place, update, write_store, move_base_url}

-- `slices.Equal`
unfoldable pub equal_texts : List String → List String → Bool
equal_texts [] [] = true
equal_texts (x ∷ xs) (y ∷ ys) = str_eq x y && equal_texts xs ys
equal_texts _ _ = false

unfoldable pub proxy_config_equal : ProxyConfig → ProxyConfig → Bool
unfolding equal_texts
proxy_config_equal a b =
    str_eq a.name b.name
    && str_eq a.listen b.listen
    && str_eq a.upstream_base_url b.upstream_base_url
    && eqb_ℤ a.max_attempts b.max_attempts
    && eqb_ℤ a.usage_timeout_ms b.usage_timeout_ms
    && eqb_ℤ a.cooldown_default_s b.cooldown_default_s
    && equal_texts a.child_proxy_urls b.child_proxy_urls

abbrev eqb : Bool → Bool → Bool
eqb true b = b
eqb false b = not b

-- `a.Quota != b.Quota` compares the fields.
abbrev quota_config_equal : QuotaConfig → QuotaConfig → Bool
quota_config_equal a b =
    eqb_ℤ a.refresh_interval_minutes b.refresh_interval_minutes
    && eqb_ℤ a.refresh_interval_messages b.refresh_interval_messages
    && eqb_ℤ a.cache_ttl_minutes b.cache_ttl_minutes

-- The index after the accounts have become fewer.
unfoldable pub clamp_active_index : ℕ → ℤ → ℤ
clamp_active_index total active = if leb_ℤ (pos total) active then pos (total - 1) else active

module _ {W : Type 0} ⦃f : Float64 W⦄ where
  unfoldable pub settings_equal : Settings W → Settings W → Bool
  settings_equal a b =
      proxy_config_equal a.proxy b.proxy
      && str_eq a.policy.mode b.policy.mode
      && eq a.policy.delta_percent b.policy.delta_percent
      && eq a.policy.weights.daily b.policy.weights.daily
      && eq a.policy.weights.weekly b.policy.weights.weekly
      && quota_config_equal a.quota b.quota
      && eqb a.run.inherit_shell b.run.inherit_shell
      && equal_texts a.commands.login b.commands.login
      && equal_texts a.commands.run b.commands.run

module _ {W : Type 0} where
  -- What an account that is stored already keeps when it is written again.
  unfoldable pub keep_history : Account W → Account W → Account W
  keep_history prev account = record account {
    quota = prev.quota;
    cooldown_until_ms = prev.cooldown_until_ms;
    last_used_at_ms = prev.last_used_at_ms;
    last_switch_reason = prev.last_switch_reason;
  }

  unfoldable pub upsert_fn : Account W → StoreFile W → Outcome String (StoreFile W)
  upsert_fn account sf =
      elim (index_func (λ a. str_eq a.id account.id || str_eq a.alias account.alias) sf.accounts) [
        | none ↦ ok (record sf { accounts = sf.accounts ++ account ∷ [] })
        | some i ↦ do
          prev ← at sf.accounts i
          ok (record sf { accounts = set sf.accounts i (keep_history prev account) })
      ]

  unfoldable pub remove_fn : String → StoreFile W → Outcome String (StoreFile W)
  remove_fn alias sf =
      elim (index_func (λ a. str_eq a.alias alias || str_eq a.id alias) sf.accounts) [
        | none ↦ err "account not found"
        | some i ↦ do
          removed ← at sf.accounts i
          let accounts = remove_at sf.accounts i
          let pinned = sf.state.pinned_account_id
          ok (record sf {
            accounts = accounts;
            state = record sf.state {
              active_index = clamp_active_index (length accounts) sf.state.active_index;
              pinned_account_id =
                  if str_eq pinned alias || str_eq pinned removed.id then "" else pinned;
            };
          })
      ]

  unfoldable pub upsert_account :
      String → Option WriteFault → Account W → Store W → Store W × Outcome String (Unit {0})
  upsert_account stamp failure account = update stamp failure (in_place (upsert_fn account))

  unfoldable pub remove_account_by_alias :
      String → Option WriteFault → String → Store W → Store W × Outcome String (Unit {0})
  remove_account_by_alias stamp failure alias = update stamp failure (in_place (remove_fn alias))

pub record SettingsReloadSummary (W : Type 0) : Type 0 where
  pub changed : Bool
  pub upstream_changed : Bool
  pub listen_change_ignored : Bool
  pub previous : Settings W
  pub current : Settings W
  pub updated_account_base_url : ℕ

module _ {W : Type 0} ⦃f : Float64 W⦄ where
  -- How many accounts the loop over the base URLs writes.
  unfoldable pub count_moved : String → List (Account W) → ℕ
  count_moved prev [] = 0
  count_moved prev (a ∷ accounts) =
      let rest = count_moved prev accounts in
      if str_eq a.base_url "" || str_eq a.base_url prev then suc rest else rest

  -- `loaded` is what `loadOrCreateSettingsConfig` returns.
  unfoldable pub reload_settings :
      Option WriteFault
      → Outcome String (Settings W)
      → Store W
      → Store W × Option (SettingsReloadSummary W) × Outcome String (Unit {0})
  reload_settings failure (err e) s = (s, none, err e)
  reload_settings failure panic s = (s, none, panic)
  reload_settings failure (ok settings) s =
      let prev = s.store_file.settings in
      let ignored = not (str_eq settings.proxy.listen prev.proxy.listen) in
      let kept = record settings { proxy = record settings.proxy { listen = prev.proxy.listen } } in
      let upstream = not (str_eq settings.proxy.upstream_base_url prev.proxy.upstream_base_url) in
      let moved =
        if upstream then count_moved prev.proxy.upstream_base_url s.store_file.accounts else 0 in
      let accounts =
        if upstream
        then move_base_url prev.proxy.upstream_base_url settings.proxy.upstream_base_url
            s.store_file.accounts
        else s.store_file.accounts in
      let changed = not (settings_equal settings prev) || ignored || ltb 0 moved in
      let s' = record s {
        store_file = record s.store_file { settings = kept; accounts = accounts };
      } in
      let summary : SettingsReloadSummary W = record {
        changed = changed;
        upstream_changed = upstream;
        listen_change_ignored = ignored;
        previous = prev;
        current = kept;
        updated_account_base_url = moved;
      } in
      let (written, e) = write_store failure s' in
      if changed then (written, some summary, e) else (s', some summary, ok tt)
