-- ===== src/Types/Defaults.antt =====
-- `defaultStore`, `mergeDefaults`, `normalizeProxyURLList` and `sanitizeCommand` of
-- internal/lb/types.go. `stamp` is the current time in RFC 3339.
use agent_lb_proxy.Prelude.{
  Bool, true, not, ◌&&◌, String, List, [], ◌∷◌, map, length, ◌==◌, str_eq, if◌then◌else◌,
}
use agent_lb_proxy.Prelude.Int.{ℤ, pos, leb_ℤ, eqb_ℤ}
use agent_lb_proxy.Prelude.Float.{Float64, of_int, lt, eq}
use agent_lb_proxy.Prelude.Text.{trim_space, trim_right, is_slash}
use agent_lb_proxy.Types.{
  ProxyConfig, PolicyWeights, PolicyConfig, QuotaConfig, Settings, Account, StoreFile,
}

unfoldable pub contains_text : List String → String → Bool
contains_text [] t = not true
contains_text (s ∷ rest) t = if str_eq s t then true else contains_text rest t

-- The loop body's first line.
unfoldable pub clean_url : String → String
clean_url raw = trim_right is_slash (trim_space raw)

-- `seen` is the map of the URLs that are in the output already.
unfoldable pub normalize_from : List String → List String → List String
unfolding contains_text clean_url
normalize_from seen [] = []
normalize_from seen (raw ∷ rest) =
    let url = clean_url raw in
    let skipped = normalize_from seen rest in
    let kept = url ∷ normalize_from (url ∷ seen) rest in
    if str_eq url "" then skipped else if contains_text seen url then skipped else kept

unfoldable pub normalize_proxy_url_list : List String → List String
unfolding normalize_from
normalize_proxy_url_list urls = normalize_from [] urls

unfoldable pub sanitize_command : List String → List String
unfolding trim_space
sanitize_command [] = []
sanitize_command (part ∷ rest) =
    let part' = trim_space part in
    let rest' = sanitize_command rest in if str_eq part' "" then rest' else part' ∷ rest'

abbrev pub or_text : String → String → String
or_text s d = if str_eq s "" then d else s

abbrev pub or_positive : ℤ → ℤ → ℤ
or_positive n d = if leb_ℤ n (pos 0) then d else n

abbrev pub default_proxy : ProxyConfig
default_proxy = record {
  name = "";
  listen = "127.0.0.1:8765";
  upstream_base_url = "https://chatgpt.com/backend-api";
  child_proxy_urls = [];
  max_attempts = pos 3;
  usage_timeout_ms = pos 30000;
  cooldown_default_s = pos 5;
}

abbrev pub default_quota : QuotaConfig
default_quota = record {
  refresh_interval_minutes = pos 10;
  refresh_interval_messages = pos 10;
  cache_ttl_minutes = pos 30;
}

unfoldable pub merge_proxy : ProxyConfig → ProxyConfig
merge_proxy p = record {
  name = trim_space p.name;
  listen = or_text p.listen default_proxy.listen;
  upstream_base_url = or_text p.upstream_base_url default_proxy.upstream_base_url;
  child_proxy_urls = normalize_proxy_url_list p.child_proxy_urls;
  max_attempts = or_positive p.max_attempts default_proxy.max_attempts;
  usage_timeout_ms = or_positive p.usage_timeout_ms default_proxy.usage_timeout_ms;
  cooldown_default_s = or_positive p.cooldown_default_s default_proxy.cooldown_default_s;
}

unfoldable pub merge_quota : QuotaConfig → QuotaConfig
merge_quota q = record {
  refresh_interval_minutes =
      or_positive q.refresh_interval_minutes default_quota.refresh_interval_minutes;
  refresh_interval_messages =
      or_positive q.refresh_interval_messages default_quota.refresh_interval_messages;
  cache_ttl_minutes = or_positive q.cache_ttl_minutes default_quota.cache_ttl_minutes;
}

abbrev pub default_login : List String
default_login = "login" ∷ []

-- Both tests `len(...Login) == 0`: before and after the clean-up.
unfoldable pub merge_login : List String → List String
merge_login login =
    if length login == 0
    then default_login
    else (let clean = sanitize_command login in if length clean == 0 then default_login else clean)

module _ {W : Type 0} ⦃f : Float64 W⦄ where
  abbrev pub default_weights : PolicyWeights W
  default_weights = record { daily = of_int (pos 60); weekly = of_int (pos 40) }

  unfoldable pub default_store : String → StoreFile W
  default_store stamp = record {
    version = pos 1;
    updated_at = stamp;
    settings = record {
      proxy = default_proxy;
      proxy_url = "";
      policy = record {
        mode = "usage_balanced";
        delta_percent = of_int (pos 10);
        weights = default_weights;
      };
      quota = default_quota;
      commands = record { login = default_login; run = [] };
      run = record { inherit_shell = true };
    };
    state = record {
      active_index = pos 0;
      message_counter = pos 0;
      last_rotation_at_ms = pos 0;
      pinned_account_id = "";
    };
    accounts = [];
  }

  abbrev pub at_least_zero : W → W
  at_least_zero x = if lt x (of_int (pos 0)) then of_int (pos 0) else x

  -- The two clamps, then the default when both weights are 0.
  unfoldable pub merge_weights : PolicyWeights W → PolicyWeights W
  merge_weights w =
      let daily = at_least_zero w.daily in
      let weekly = at_least_zero w.weekly in
      if eq daily (of_int (pos 0)) && eq weekly (of_int (pos 0))
      then default_weights
      else record { daily = daily; weekly = weekly }

  unfoldable pub merge_policy : PolicyConfig W → PolicyConfig W
  unfolding merge_weights
  merge_policy p = record {
    mode = or_text p.mode "usage_balanced";
    delta_percent =
        if lt p.delta_percent (of_int (pos 0)) then of_int (pos 10) else p.delta_percent;
    weights = merge_weights p.weights;
  }

  -- The loop over the accounts.
  unfoldable pub merge_account : String → Account W → Account W
  merge_account upstream a = record a {
    base_url = or_text a.base_url upstream;
    enabled = if not a.enabled && str_eq a.disabled_reason "" then true else a.enabled;
  }

  unfoldable pub merge_settings : Settings W → Settings W
  unfolding merge_proxy merge_policy merge_quota merge_login normalize_proxy_url_list
      sanitize_command trim_space
  merge_settings s = record {
    proxy = merge_proxy s.proxy;
    proxy_url = trim_space s.proxy_url;
    policy = merge_policy s.policy;
    quota = merge_quota s.quota;
    commands = record {
      login = merge_login s.commands.login;
      run = sanitize_command s.commands.run;
    };
    run = s.run;
  }

  unfoldable pub merge_defaults : String → StoreFile W → StoreFile W
  unfolding merge_settings merge_account
  merge_defaults stamp sf =
      let settings = merge_settings sf.settings in
      record {
        version = if eqb_ℤ sf.version (pos 0) then pos 1 else sf.version;
        updated_at = or_text sf.updated_at stamp;
        settings = settings;
        state = sf.state;
        accounts = map (merge_account settings.proxy.upstream_base_url) sf.accounts;
      }
