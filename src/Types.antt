-- ===== src/Types.antt =====
-- internal/lb/types.go: the data that the store, the policy and the proxy share. `W` is the type of
-- `float64`; a slice is a list, `nil` and the empty slice being one value.
pub mod Defaults
pub mod Merge
use agent_lb_proxy.Prelude.{ℕ, Bool, String, List}
use agent_lb_proxy.Prelude.Int.{ℤ}

pub record ProxyConfig : Type 0 where
  pub name : String
  pub listen : String
  pub upstream_base_url : String
  pub child_proxy_urls : List String
  pub max_attempts : ℤ
  pub usage_timeout_ms : ℤ
  pub cooldown_default_s : ℤ

pub record PolicyWeights (W : Type 0) : Type 0 where
  pub daily : W
  pub weekly : W

-- `mode` is a Go string: any text may come from a configuration file.
pub record PolicyConfig (W : Type 0) : Type 0 where
  pub mode : String
  pub delta_percent : W
  pub weights : PolicyWeights W

pub record QuotaConfig : Type 0 where
  pub refresh_interval_minutes : ℤ
  pub refresh_interval_messages : ℤ
  pub cache_ttl_minutes : ℤ

pub record CommandConfig : Type 0 where
  pub login : List String
  pub run : List String

pub record RunConfig : Type 0 where
  pub inherit_shell : Bool

pub record Settings (W : Type 0) : Type 0 where
  pub proxy : ProxyConfig
  pub proxy_url : String
  pub policy : PolicyConfig W
  pub quota : QuotaConfig
  pub commands : CommandConfig
  pub run : RunConfig

pub record AdditionalQuotaState (W : Type 0) : Type 0 where
  pub limit_id : String
  pub limit_name : String
  pub primary_limit : W
  pub primary_used : W
  pub primary_reset_at : ℤ
  pub primary_window_seconds : ℤ
  pub secondary_limit : W
  pub secondary_used : W
  pub secondary_reset_at : ℤ
  pub secondary_window_seconds : ℤ

pub record QuotaState (W : Type 0) : Type 0 where
  pub daily_limit : W
  pub daily_used : W
  pub daily_reset_at : ℤ
  pub weekly_limit : W
  pub weekly_used : W
  pub weekly_reset_at : ℤ
  pub additional_limits : List (AdditionalQuotaState W)
  pub last_sync_at : ℤ
  pub last_sync_message_counter : ℤ
  pub source : String

pub record Account (W : Type 0) : Type 0 where
  pub id : String
  pub alias : String
  pub home_dir : String
  pub base_url : String
  pub enabled : Bool
  pub disabled_reason : String
  pub cooldown_until_ms : ℤ
  pub last_used_at_ms : ℤ
  pub last_switch_reason : String
  pub chatgpt_account_id : String
  pub user_email : String
  pub quota : QuotaState W

pub record RuntimeState : Type 0 where
  pub active_index : ℤ
  pub message_counter : ℤ
  pub last_rotation_at_ms : ℤ
  pub pinned_account_id : String

pub record StoreFile (W : Type 0) : Type 0 where
  pub version : ℤ
  pub updated_at : String
  pub settings : Settings W
  pub state : RuntimeState
  pub accounts : List (Account W)

-- `AuthInfo` of internal/lb/auth.go.
pub record AuthInfo : Type 0 where
  pub access_token : String
  pub refresh_token : String
  pub id_token : String
  pub chatgpt_account_id : String
  pub user_email : String
