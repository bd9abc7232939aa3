-- ===== src/Status.antt =====
-- internal/lb/status.go: what the proxy reports of its accounts, the lists of limits and accounts in
-- the order of the store: `sort.Slice`, which reorders them for display, is not modelled.
use agent_lb_proxy.Prelude.{
  ℕ, suc, Bool, not, ◌&&◌, String, List, [], ◌∷◌, map, str_eq, if◌then◌else◌,
}
use agent_lb_proxy.Prelude.Int.{ℤ, pos, negsuc, ltb_ℤ, eqb_ℤ, ◌+ℤ◌, ◌-ℤ◌, trunc_div}
use agent_lb_proxy.Prelude.Float.{Float64, of_int, lt, le, sub, mul, div}
use agent_lb_proxy.Prelude.Text.{trim_space}
use agent_lb_proxy.Policy.{is_healthy}
use agent_lb_proxy.Policy.Score.{clamp01, score}
use agent_lb_proxy.Types.{AdditionalQuotaState, Account, StoreFile}

pub record AdditionalLimitStatus (W : Type 0) : Type 0 where
  pub limit_id : String
  pub limit_name : String
  pub primary_left_pct : W
  pub primary_reset_at : ℤ
  pub primary_window_seconds : ℤ
  pub secondary_left_pct : W
  pub secondary_reset_at : ℤ
  pub secondary_window_seconds : ℤ

pub record AccountStatus (W : Type 0) : Type 0 where
  pub proxy_name : String
  pub alias : String
  pub id : String
  pub email : String
  pub active : Bool
  pub pinned : Bool
  pub healthy : Bool
  pub enabled : Bool
  pub disabled_reason : String
  pub cooldown_seconds : ℤ
  pub daily_left_pct : W
  pub daily_reset_at : ℤ
  pub weekly_left_pct : W
  pub weekly_reset_at : ℤ
  pub additional_limits : List (AdditionalLimitStatus W)
  pub score : W
  pub last_used_at_ms : ℤ
  pub last_switch_reason : String
  pub quota_source : String

pub record ChildProxyStatus (W : Type 0) : Type 0 where
  pub name : String
  pub url : String
  pub active : Bool
  pub healthy : Bool
  pub reachable : Bool
  pub cooldown_seconds : ℤ
  pub score : W
  pub selected_target : String
  pub selection_reason : String
  pub last_switch_reason : String
  pub last_error : String

-- The fields of `ProxyStatus` that routing and the pooled usage read.
pub record ProxyStatus (W : Type 0) : Type 0 where
  pub proxy_name : String
  pub selected_account_id : String
  pub selected_proxy_url : String
  pub selection_reason : String
  pub accounts : List (AccountStatus W)
  pub additional_limits : List (AdditionalLimitStatus W)
  pub child_proxies : List (ChildProxyStatus W)

-- Whole seconds of a cooldown, rounded up.
unfoldable pub cooldown_seconds_left : ℤ → ℤ → ℤ
cooldown_seconds_left until_ms now_ms =
    if ltb_ℤ now_ms until_ms then trunc_div ((until_ms -ℤ now_ms) +ℤ pos 999) 1000 else pos 0

module _ {W : Type 0} ⦃f : Float64 W⦄ where
  unfoldable pub quota_left_percent : W → W → W
  quota_left_percent limit used =
      if le limit (of_int (pos 0))
      then of_int (negsuc 0)
      else mul (clamp01 (div (sub limit used) limit)) (of_int (pos 100))

  unfoldable pub additional_limit_status : AdditionalQuotaState W → AdditionalLimitStatus W
  additional_limit_status l = record {
    limit_id = trim_space l.limit_id;
    limit_name = trim_space l.limit_name;
    primary_left_pct = quota_left_percent l.primary_limit l.primary_used;
    primary_reset_at = l.primary_reset_at;
    primary_window_seconds = l.primary_window_seconds;
    secondary_left_pct = quota_left_percent l.secondary_limit l.secondary_used;
    secondary_reset_at = l.secondary_reset_at;
    secondary_window_seconds = l.secondary_window_seconds;
  }

  unfoldable pub quota_additional_statuses :
      List (AdditionalQuotaState W) → List (AdditionalLimitStatus W)
  quota_additional_statuses limits = map additional_limit_status limits

  -- A window without a limit is unknown: -1.
  unfoldable pub window_left_percent : W → W → W
  window_left_percent limit used =
      if lt (of_int (pos 0)) limit
      then mul (clamp01 (div (sub limit used) limit)) (of_int (pos 100))
      else of_int (negsuc 0)

  -- One turn of the loop of `BuildProxyStatus`. `healthySet[i]` is the test of the account itself.
  unfoldable pub account_status : StoreFile W → ℤ → ℕ → Account W → AccountStatus W
  account_status sf now_ms i a = record {
    proxy_name = sf.settings.proxy.name;
    alias = a.alias;
    id = a.id;
    email = a.user_email;
    active = eqb_ℤ (pos i) sf.state.active_index;
    pinned = not (str_eq sf.state.pinned_account_id "") && str_eq sf.state.pinned_account_id a.id;
    healthy = is_healthy now_ms a;
    enabled = a.enabled;
    disabled_reason = a.disabled_reason;
    cooldown_seconds = cooldown_seconds_left a.cooldown_until_ms now_ms;
    daily_left_pct = window_left_percent a.quota.daily_limit a.quota.daily_used;
    daily_reset_at = a.quota.daily_reset_at;
    weekly_left_pct = window_left_percent a.quota.weekly_limit a.quota.weekly_used;
    weekly_reset_at = a.quota.weekly_reset_at;
    additional_limits = quota_additional_statuses a.quota.additional_limits;
    score = score a sf.settings.policy;
    last_used_at_ms = a.last_used_at_ms;
    last_switch_reason = a.last_switch_reason;
    quota_source = a.quota.source;
  }

  -- `i` is the index of the first account of the list.
  unfoldable pub account_statuses : StoreFile W → ℤ → ℕ → List (Account W) → List (AccountStatus W)
  account_statuses sf now_ms i [] = []
  account_statuses sf now_ms i (a ∷ accounts) =
      account_status sf now_ms i a ∷ account_statuses sf now_ms (suc i) accounts
