-- ===== src/Config.antt =====
-- internal/lb/config.go: config.toml. `W` is the type of `float64`; the TOML library is not part of the
-- repository, so what it reads and writes is an argument of the functions that use it.
use agent_lb_proxy.Prelude.{Bool, String, Option, none, some, List, map}
use agent_lb_proxy.Prelude.Int.{ℤ}
use agent_lb_proxy.Types.{Settings}
pub mod Partial
pub mod Load
pub mod Usable
pub mod RoundTrip

pub record ConfigProxy : Type 0 where
  pub name : String
  pub listen : String
  pub upstream_base_url : String
  pub child_proxy_urls : List String
  pub proxy_url : String
  pub max_attempts : ℤ
  pub usage_timeout_ms : ℤ
  pub cooldown_default_seconds : ℤ

pub record ConfigWeights (W : Type 0) : Type 0 where
  pub daily : W
  pub weekly : W

pub record ConfigPolicy (W : Type 0) : Type 0 where
  pub mode : String
  pub delta_percent : W
  pub weights : ConfigWeights W

pub record ConfigQuota : Type 0 where
  pub refresh_interval_minutes : ℤ
  pub refresh_interval_messages : ℤ
  pub cache_ttl_minutes : ℤ

pub record ConfigCommands : Type 0 where
  pub login : List String
  pub run : List String

pub record ConfigRun : Type 0 where
  pub inherit_shell : Bool

pub record ConfigFile (W : Type 0) : Type 0 where
  pub proxy : ConfigProxy
  pub policy : ConfigPolicy W
  pub quota : ConfigQuota
  pub commands : ConfigCommands
  pub run : ConfigRun

module _ {W : Type 0} where
  unfoldable pub settings_to_config : Settings W → ConfigFile W
  settings_to_config s = record {
    proxy = record {
      name = s.proxy.name;
      listen = s.proxy.listen;
      upstream_base_url = s.proxy.upstream_base_url;
      child_proxy_urls = s.proxy.child_proxy_urls;
      proxy_url = s.proxy_url;
      max_attempts = s.proxy.max_attempts;
      usage_timeout_ms = s.proxy.usage_timeout_ms;
      cooldown_default_seconds = s.proxy.cooldown_default_s;
    };
    policy = record {
      mode = s.policy.mode;
      delta_percent = s.policy.delta_percent;
      weights = record { daily = s.policy.weights.daily; weekly = s.policy.weights.weekly };
    };
    quota = record {
      refresh_interval_minutes = s.quota.refresh_interval_minutes;
      refresh_interval_messages = s.quota.refresh_interval_messages;
      cache_ttl_minutes = s.quota.cache_ttl_minutes;
    };
    commands = record { login = s.commands.login; run = s.commands.run };
    run = record { inherit_shell = s.run.inherit_shell };
  }
