-- ===== src/Config/Partial.antt =====
-- The file as it is read: every table and every key may be missing (internal/lb/config.go).
use agent_lb_proxy.Prelude.{Bool, String, Option, none, some, List, str_eq, ◌||◌, if◌then◌else◌}
use agent_lb_proxy.Prelude.Int.{ℤ}
use agent_lb_proxy.Prelude.Text.{trim_space}
use agent_lb_proxy.Types.{
  ProxyConfig, PolicyWeights, PolicyConfig, QuotaConfig, CommandConfig, RunConfig, Settings,
}
use agent_lb_proxy.Types.Defaults.{clean_url, normalize_proxy_url_list, sanitize_command}

pub record PartialConfigProxy : Type 0 where
  pub name : Option String
  pub listen : Option String
  pub upstream_base_url : Option String
  pub child_proxy_urls : Option (List String)
  pub proxy_url : Option String
  pub max_attempts : Option ℤ
  pub usage_timeout_ms : Option ℤ
  pub cooldown_default_seconds : Option ℤ

pub record PartialConfigWeights (W : Type 0) : Type 0 where
  pub daily : Option W
  pub weekly : Option W

pub record PartialConfigPolicy (W : Type 0) : Type 0 where
  pub mode : Option String
  pub delta_percent : Option W
  pub weights : Option (PartialConfigWeights W)

pub record PartialConfigQuota : Type 0 where
  pub refresh_interval_minutes : Option ℤ
  pub refresh_interval_messages : Option ℤ
  pub cache_ttl_minutes : Option ℤ

pub record PartialConfigCommands : Type 0 where
  pub login : Option (List String)
  pub run : Option (List String)

pub record PartialConfigRun : Type 0 where
  pub inherit_shell : Option Bool

pub record PartialConfigFile (W : Type 0) : Type 0 where
  pub proxy : Option PartialConfigProxy
  pub policy : Option (PartialConfigPolicy W)
  pub quota : Option PartialConfigQuota
  pub commands : Option PartialConfigCommands
  pub run : Option PartialConfigRun

-- `if p != nil { x = f(*p) }`
abbrev pub given {ℓ κ} : {A : Type ℓ} {B : Type κ} → (A → B) → Option A → B → B
given f none x = x
given f (some a) x = f a

-- A table that is missing changes nothing.
abbrev pub with_table {ℓ κ} : {A : Type ℓ} {B : Type κ} → (A → B → B) → Option A → B → B
with_table f none x = x
with_table f (some a) x = f a x

abbrev pub same {ℓ} : {A : Type ℓ} → A → A
same x = x

unfoldable pub take_proxy : PartialConfigProxy → ProxyConfig → ProxyConfig
take_proxy p out = record {
  name = given trim_space p.name out.name;
  listen = given trim_space p.listen out.listen;
  upstream_base_url = given clean_url p.upstream_base_url out.upstream_base_url;
  child_proxy_urls = given normalize_proxy_url_list p.child_proxy_urls out.child_proxy_urls;
  max_attempts = given same p.max_attempts out.max_attempts;
  usage_timeout_ms = given same p.usage_timeout_ms out.usage_timeout_ms;
  cooldown_default_s = given same p.cooldown_default_seconds out.cooldown_default_s;
}

unfoldable pub is_policy_mode : String → Bool
is_policy_mode mode =
    str_eq mode "usage_balanced" || str_eq mode "round_robin" || str_eq mode "sticky"

-- A mode that is not known is ignored.
unfoldable pub take_mode : String → String → String
take_mode mode out = if is_policy_mode (trim_space mode) then trim_space mode else out

unfoldable pub take_quota : PartialConfigQuota → QuotaConfig → QuotaConfig
take_quota p out = record {
  refresh_interval_minutes = given same p.refresh_interval_minutes out.refresh_interval_minutes;
  refresh_interval_messages = given same p.refresh_interval_messages out.refresh_interval_messages;
  cache_ttl_minutes = given same p.cache_ttl_minutes out.cache_ttl_minutes;
}

unfoldable pub take_commands : PartialConfigCommands → CommandConfig → CommandConfig
take_commands p out = record {
  login = given sanitize_command p.login out.login;
  run = given sanitize_command p.run out.run;
}

unfoldable pub take_run : PartialConfigRun → RunConfig → RunConfig
take_run p out = record { inherit_shell = given same p.inherit_shell out.inherit_shell }

-- `partial.Proxy.ProxyURL`
unfoldable pub new_proxy_url : Option PartialConfigProxy → Option String
new_proxy_url none = none
new_proxy_url (some p) = p.proxy_url

-- The URL under [proxy], or with none there the one that older files hold under [run].
unfoldable pub take_proxy_url : Option String → Option String → String → String
take_proxy_url (some url) legacy out = trim_space url
take_proxy_url none legacy out = given trim_space legacy out

module _ {W : Type 0} where
  unfoldable pub take_weights : PartialConfigWeights W → PolicyWeights W → PolicyWeights W
  take_weights p out = record {
    daily = given same p.daily out.daily;
    weekly = given same p.weekly out.weekly;
  }

  unfoldable pub take_policy : PartialConfigPolicy W → PolicyConfig W → PolicyConfig W
  take_policy p out = record {
    mode = with_table take_mode p.mode out.mode;
    delta_percent = given same p.delta_percent out.delta_percent;
    weights = with_table take_weights p.weights out.weights;
  }

  -- The keys of the file over the fallback; `legacy` is the `proxy_url` under [run].
  unfoldable pub take_partial : PartialConfigFile W → Option String → Settings W → Settings W
  take_partial p legacy out = record {
    proxy = with_table take_proxy p.proxy out.proxy;
    proxy_url = take_proxy_url (new_proxy_url p.proxy) legacy out.proxy_url;
    policy = with_table take_policy p.policy out.policy;
    quota = with_table take_quota p.quota out.quota;
    commands = with_table take_commands p.commands out.commands;
    run = with_table take_run p.run out.run;
  }
