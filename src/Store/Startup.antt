-- ===== src/Store/Startup.antt =====
-- `loadOrInit` and `reconcileAccountsFromDisk` of internal/lb/store.go, RegisterAccount of
-- internal/lb/wrapper.go. `lower` is `strings.ToLower`, `home_of` the path of an account's directory.
use Prim.Native.String.{compare, ◌++◌ as append}
use Prim.Native.Nat.Ordering.{lt}
use agent_lb_proxy.Prelude.{
  Bool, true, false, not, ◌&&◌, ◌||◌, String, Option, none, some, List, [], ◌∷◌, str_eq, length,
  if◌then◌else◌,
}
use agent_lb_proxy.Prelude.Int.{pos}
use agent_lb_proxy.Prelude.Float.{Float64}
use agent_lb_proxy.Prelude.Codes.{codes}
use agent_lb_proxy.Prelude.Outcome.{Outcome, ok, err, panic, ◌>>=◌}
use agent_lb_proxy.Types.{Settings, Account, QuotaState, StoreFile, RuntimeState, AuthInfo}
use agent_lb_proxy.Types.Defaults.{default_store, merge_defaults}
use agent_lb_proxy.ImportAlias.{validate_alias}
use agent_lb_proxy.Store.{Store, WriteFault, RuntimeSettingsOverrides, move_base_url, write_store}
use agent_lb_proxy.Store.Accounts.{clamp_active_index}

-- An entry of the accounts directory; `auth` is what LoadAuth returns for it.
pub record DirEntry : Type 0 where
  pub name : String
  pub is_dir : Bool
  pub auth : Option AuthInfo

-- A directory with a valid name and credentials.
unfoldable pub account_auth : DirEntry → Option AuthInfo
account_auth e = if e.is_dir && validate_alias (codes e.name) then e.auth else none

unfoldable pub base_or_default : String → String
base_or_default base = if str_eq base "" then "https://chatgpt.com/backend-api" else base

-- `slices.Sort` of the keys.
unfoldable pub alias_before : String → String → Bool
alias_before s t = elim (compare s t) [ lt ↦ true | _ ↦ false ]

unfoldable pub account_id : (String → String) → String → String
account_id lower alias = append "openai:" (lower alias)

module _ {W : Type 0} where
  unfoldable pub last_with : (Account W → Bool) → List (Account W) → Option (Account W)
  last_with p [] = none
  last_with p (a ∷ accounts) = elim (last_with p accounts) [
    | some b ↦ some b
    | none ↦ if p a then some a else none
  ]

  -- A Go map from aliases to accounts; an account's alias is its key.
  unfoldable pub with_alias : String → List (Account W) → Option (Account W)
  with_alias alias [] = none
  with_alias alias (a ∷ accounts) =
      let rest = with_alias alias accounts in if str_eq a.alias alias then some a else rest

  unfoldable pub delete_alias : String → List (Account W) → List (Account W)
  delete_alias alias [] = []
  delete_alias alias (a ∷ accounts) =
      let rest = delete_alias alias accounts in if str_eq a.alias alias then rest else a ∷ rest

  unfoldable pub insert_account : Account W → List (Account W) → List (Account W)
  insert_account a [] = a ∷ []
  insert_account a (b ∷ accounts) =
      let rest = insert_account a accounts in
      if alias_before a.alias b.alias then a ∷ b ∷ accounts else b ∷ rest

  unfoldable pub sort_accounts : List (Account W) → List (Account W)
  sort_accounts [] = []
  sort_accounts (a ∷ accounts) = insert_account a (sort_accounts accounts)

  -- The accounts that are still on disk in their old order, then the others by alias.
  unfoldable pub reconcile_order : List (Account W) → List (Account W) → List (Account W)
  reconcile_order [] discovered = sort_accounts discovered
  reconcile_order (e ∷ existing) discovered = elim (with_alias e.alias discovered) [
    | none ↦ reconcile_order existing discovered
    | some a ↦ a ∷ reconcile_order existing (delete_alias e.alias discovered)
  ]

  unfoldable pub is_known_id : String → List (Account W) → Bool
  is_known_id id [] = false
  is_known_id id (a ∷ accounts) = str_eq a.id id || is_known_id id accounts

  -- The index and the pin after the accounts have been read.
  unfoldable pub reconcile_state : List (Account W) → RuntimeState → RuntimeState
  reconcile_state accounts state = record state {
    active_index = clamp_active_index (length accounts) state.active_index;
    pinned_account_id =
        if not (str_eq state.pinned_account_id "")
          && not (is_known_id state.pinned_account_id accounts)
        then ""
        else state.pinned_account_id;
  }

  unfoldable pub empty_quota : W → QuotaState W
  empty_quota z = record {
    daily_limit = z;
    daily_used = z;
    daily_reset_at = pos 0;
    weekly_limit = z;
    weekly_used = z;
    weekly_reset_at = pos 0;
    additional_limits = [];
    last_sync_at = pos 0;
    last_sync_message_counter = pos 0;
    source = "";
  }

  -- An account that the store does not know.
  unfoldable pub new_account : W → String → String → String → String → AuthInfo → Account W
  new_account z id alias home base auth = record {
    id = id;
    alias = alias;
    home_dir = home;
    base_url = base;
    enabled = true;
    disabled_reason = "";
    cooldown_until_ms = pos 0;
    last_used_at_ms = pos 0;
    last_switch_reason = "";
    chatgpt_account_id = auth.chatgpt_account_id;
    user_email = auth.user_email;
    quota = empty_quota z;
  }

  -- `existingByAlias[alias]`, and then `existingByID[id]`.
  unfoldable pub existing_account : String → String → List (Account W) → Option (Account W)
  existing_account alias id accounts = elim (last_with (λ a. str_eq a.alias alias) accounts) [
    | some a ↦ some a
    | none ↦ last_with (λ a. str_eq a.id id) accounts
  ]

  -- What is written on an account that is on disk.
  unfoldable pub refresh_account :
      String → String → String → String → AuthInfo → Account W → Account W
  refresh_account id alias home base auth a = record a {
    id = id;
    alias = alias;
    home_dir = home;
    base_url = if str_eq a.base_url "" then base else a.base_url;
    chatgpt_account_id = auth.chatgpt_account_id;
    user_email = auth.user_email;
  }

  module _ (lower home_of : String → String) where
    unfoldable pub discovered_account :
        W → String → List (Account W) → String → AuthInfo → Account W
    discovered_account z base accounts alias auth =
        let id = account_id lower alias in
        let home = home_of alias in
        refresh_account id alias home base auth (elim (existing_account alias id accounts) [
          | some a ↦ a
          | none ↦ new_account z id alias home base auth
        ])

    -- The loop over the entries.
    unfoldable pub discover : W → String → List (Account W) → List DirEntry → List (Account W)
    discover z base accounts [] = []
    discover z base accounts (e ∷ entries) = elim (account_auth e) [
      | none ↦ discover z base accounts entries
      | some auth ↦
          discovered_account z base accounts e.name auth ∷ discover z base accounts entries
    ]

    unfoldable pub reconcile_accounts : W → List DirEntry → StoreFile W → StoreFile W
    reconcile_accounts z entries sf =
        let base = base_or_default sf.settings.proxy.upstream_base_url in
        let accounts = reconcile_order sf.accounts (discover z base sf.accounts entries) in
        record sf { accounts = accounts; state = reconcile_state accounts sf.state }

    -- `reconcileAccountsFromDisk`; the entries are `none` when the directory cannot be read.
    unfoldable pub reconcile_accounts_from_disk :
        W → Option (List DirEntry) → StoreFile W → Outcome String (StoreFile W)
    reconcile_accounts_from_disk z none sf = err "read accounts dir"
    reconcile_accounts_from_disk z (some entries) sf = ok (reconcile_accounts z entries sf)

  -- The settings of config.toml, and the accounts that followed the stored upstream URL.
  unfoldable pub adopt_settings : Settings W → StoreFile W → StoreFile W
  adopt_settings settings sf = record sf {
    settings = settings;
    accounts =
        if str_eq settings.proxy.upstream_base_url sf.settings.proxy.upstream_base_url
        then sf.accounts
        else move_base_url sf.settings.proxy.upstream_base_url settings.proxy.upstream_base_url
            sf.accounts;
  }

-- What reading store.json gives.
pub data StoredFile (W : Type 0) : Type 0 where
  missing : StoredFile W
  unreadable : StoredFile W
  unparsable : StoredFile W
  stored : StoreFile W → StoredFile W

abbrev pub no_overrides : RuntimeSettingsOverrides
no_overrides = record {
  proxy_name = none;
  listen = none;
  upstream_base_url = none;
  child_proxy_urls = none;
  max_attempts = none;
  usage_timeout_ms = none;
  cooldown_default_seconds = none;
  refresh_interval_minutes = none;
  refresh_interval_messages = none;
  cache_ttl_minutes = none;
}

module _ {W : Type 0} ⦃f : Float64 W⦄ where
  unfoldable pub read_stored : String → StoredFile W → Outcome String (StoreFile W)
  read_stored stamp missing = ok (default_store stamp)
  read_stored stamp unreadable = err "read store file"
  read_stored stamp unparsable = err "parse store file"
  read_stored stamp (stored sf) = ok (merge_defaults stamp sf)

  -- The end of `loadOrInit`: store.json is written, and a store that cannot be written is not opened.
  unfoldable pub open_written : Store W × Outcome String (Unit {0}) → Outcome String (Store W)
  open_written (s, ok u) = ok s
  open_written (s, err e) = err e
  open_written (s, panic) = panic

  -- `settings` is what loadOrCreateSettingsConfig returns.
  unfoldable pub load_or_init :
      (String → String)
      → (String → String)
      → W
      → String
      → StoredFile W
      → Outcome String (Settings W)
      → Option (List DirEntry)
      → Option WriteFault
      → Outcome String (Store W)
  load_or_init lower home_of z stamp file settings entries failure = do
    sf ← read_stored stamp file
    s ← settings
    reconciled ← reconcile_accounts_from_disk lower home_of z entries (adopt_settings s sf)
    open_written (
        write_store failure (record {
          store_file = reconciled;
          runtime_overrides = no_overrides;
          disk = none;
          temp = none;
        }))
