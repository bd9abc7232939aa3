-- ===== src/Quota.antt =====
-- internal/lb/quota.go: the usage windows that the upstream reports and that the proxy reports in
-- its place. Times are Unix seconds where the source has them.
pub mod Reset
use agent_lb_proxy.Prelude.{
  ℕ, suc, Bool, true, false, not, ◌&&◌, ◌||◌, String, List, [], ◌∷◌, map, length, ltb, ◌==◌, str_eq,
  if◌then◌else◌,
}
use agent_lb_proxy.Prelude.Int.{ℤ, pos, negsuc, ltb_ℤ, leb_ℤ, eqb_ℤ, ◌+ℤ◌, ◌-ℤ◌, ◌*ℤ◌, wrap64}
use agent_lb_proxy.Prelude.Float.{Float64, of_int, lt, le, add, sub, div, fmax, fmin, round}
use agent_lb_proxy.Prelude.Text.{trim_space}
use agent_lb_proxy.Types.{AdditionalQuotaState, QuotaConfig, Account, RuntimeState}
use agent_lb_proxy.Status.{AdditionalLimitStatus, AccountStatus, ProxyStatus}

pub record UsageWindow (W : Type 0) : Type 0 where
  pub limit : W
  pub used : W
  pub used_percent : W
  pub limit_window_seconds : ℤ
  pub reset_after_seconds : ℤ
  pub reset_at : ℤ
  pub resets_at : ℤ

pub record UsageRateLimit (W : Type 0) : Type 0 where
  pub allowed : Bool
  pub limit_reached : Bool
  pub primary_window : UsageWindow W
  pub secondary_window : UsageWindow W

pub record UsageAdditionalRateLimit (W : Type 0) : Type 0 where
  pub limit_name : String
  pub metered_feature : String
  pub rate_limit : UsageRateLimit W

-- The fields of `usageResponse` that the source reads or fills.
pub record UsageResponse (W : Type 0) : Type 0 where
  pub user_id : String
  pub account_id : String
  pub email : String
  pub plan_type : String
  pub rate_limit : UsageRateLimit W
  pub additional_rate_limits : List (UsageAdditionalRateLimit W)

unfoldable pub max_int64 : ℤ → ℤ → ℤ
max_int64 a b = if ltb_ℤ b a then a else b

-- `max(1, n)` on Go's `int`.
unfoldable pub at_least_one : ℤ → ℤ
at_least_one n = if ltb_ℤ (pos 1) n then n else pos 1

unfoldable pub window_reset_at : ℤ → ℤ → ℤ → ℤ → ℤ
window_reset_at now_s resets_at reset_at after =
    let first = if leb_ℤ resets_at (pos 0) then reset_at else resets_at in
    if leb_ℤ first (pos 0) && ltb_ℤ (pos 0) after then wrap64 (now_s +ℤ after) else first

unfoldable pub reset_after : ℤ → ℤ → ℤ
reset_after now_s reset_at =
    if ltb_ℤ (pos 0) reset_at then max_int64 (pos 0) (wrap64 (reset_at -ℤ now_s)) else pos 0

module _ {W : Type 0} ⦃f : Float64 W⦄ where
  -- The limit, what is used of it, and the time of the reset.
  unfoldable pub parse_window : ℤ → UsageWindow W → W × W × ℤ
  parse_window now_s w =
      let reset_at = window_reset_at now_s w.resets_at w.reset_at w.reset_after_seconds in
      if lt (of_int (pos 0)) w.limit
      then (w.limit, fmax (of_int (pos 0)) w.used, reset_at)
      else if le (of_int (pos 0)) w.used_percent
      then (
        of_int (pos 100),
        fmax (of_int (pos 0)) (fmin (of_int (pos 100)) w.used_percent),
        reset_at,
      )
      else (of_int (pos 0), of_int (pos 0), reset_at)

  unfoldable pub map_additional_quota_state :
      ℤ → UsageAdditionalRateLimit W → AdditionalQuotaState W
  map_additional_quota_state now_s l =
      let (primary_limit, primary_used, primary_reset) =
        parse_window now_s l.rate_limit.primary_window in
      let (secondary_limit, secondary_used, secondary_reset) =
        parse_window now_s l.rate_limit.secondary_window in
      record {
        limit_id = trim_space l.metered_feature;
        limit_name = trim_space l.limit_name;
        primary_limit = primary_limit;
        primary_used = primary_used;
        primary_reset_at = primary_reset;
        primary_window_seconds = l.rate_limit.primary_window.limit_window_seconds;
        secondary_limit = secondary_limit;
        secondary_used = secondary_used;
        secondary_reset_at = secondary_reset;
        secondary_window_seconds = l.rate_limit.secondary_window.limit_window_seconds;
      }

  unfoldable pub map_additional_quota_states :
      ℤ → List (UsageAdditionalRateLimit W) → List (AdditionalQuotaState W)
  map_additional_quota_states now_s limits = map (map_additional_quota_state now_s) limits

  -- What `refreshQuotaForAccount` stores of a decoded reply.
  unfoldable pub store_usage : ℤ → ℤ → UsageResponse W → Account W → Account W
  store_usage now_s now_ms payload a =
      let (daily_limit, daily_used, daily_reset) =
        parse_window now_s payload.rate_limit.primary_window in
      let (weekly_limit, weekly_used, weekly_reset) =
        parse_window now_s payload.rate_limit.secondary_window in
      record a {
        quota = record a.quota {
          daily_limit = daily_limit;
          daily_used = daily_used;
          daily_reset_at = daily_reset;
          weekly_limit = weekly_limit;
          weekly_used = weekly_used;
          weekly_reset_at = weekly_reset;
          additional_limits = map_additional_quota_states now_s payload.additional_rate_limits;
          last_sync_at = now_ms;
          source = "openai_usage_api";
        };
      }

  unfoldable pub additional_limits_missing_window_data : List (AdditionalQuotaState W) → Bool
  additional_limits_missing_window_data [] = false
  additional_limits_missing_window_data (l ∷ limits) =
      if le l.primary_limit (of_int (pos 0)) && le l.secondary_limit (of_int (pos 0))
      then true
      else additional_limits_missing_window_data limits

  unfoldable pub due_for_quota_refresh : Account W → RuntimeState → QuotaConfig → ℤ → Bool
  due_for_quota_refresh a state quota_cfg now_ms =
      let refresh_ms = wrap64 (at_least_one quota_cfg.refresh_interval_minutes *ℤ pos 60000) in
      let refresh_messages = at_least_one quota_cfg.refresh_interval_messages in
      if leb_ℤ a.quota.last_sync_at (pos 0)
      then true
      else if leb_ℤ refresh_ms (wrap64 (now_ms -ℤ a.quota.last_sync_at))
      then true
      else if leb_ℤ refresh_messages
          (wrap64 (state.message_counter -ℤ a.quota.last_sync_message_counter))
      then true
      else if le a.quota.daily_limit (of_int (pos 0)) || le a.quota.weekly_limit (of_int (pos 0))
      then true
      else ltb 0 (length a.quota.additional_limits)
        && additional_limits_missing_window_data a.quota.additional_limits

  unfoldable pub clamp_usage_percent : W → W
  clamp_usage_percent v = fmax (of_int (pos 0)) (fmin (of_int (pos 100)) v)

  unfoldable pub normalize_usage_percent_for_backend : W → W
  normalize_usage_percent_for_backend v = clamp_usage_percent (round v)

  -- The loop: the sum, the count, and the earliest reset that is still to come.
  unfoldable pub usage_totals :
      ℤ → (AccountStatus W → W × ℤ) → W → ℕ → ℤ → List (AccountStatus W) → W × ℕ × ℤ
  usage_totals now_s extract total count earliest [] = (total, count, earliest)
  usage_totals now_s extract total count earliest (a ∷ accounts) =
      let (used_percent, reset_at) = extract a in
      let skipped = lt used_percent (of_int (pos 0)) in
      let sooner = ltb_ℤ now_s reset_at && (eqb_ℤ earliest (pos 0) || ltb_ℤ reset_at earliest) in
      usage_totals now_s extract (if skipped then total else add total used_percent)
        (if skipped then count else suc count)
        (if not skipped && sooner then reset_at else earliest) accounts

  unfoldable pub aggregate_usage_window :
      List (AccountStatus W) → ℤ → (AccountStatus W → W × ℤ) → W × ℤ
  aggregate_usage_window accounts now_s extract =
      let (total, count, earliest) =
        usage_totals now_s extract (of_int (pos 0)) 0 (pos 0) accounts in
      if count == 0 then (of_int (pos 0), pos 0) else (div total (of_int (pos count)), earliest)

  -- The two functions that `aggregateUsageResponse` extracts with.
  unfoldable pub used_from_left : W → ℤ → W × ℤ
  used_from_left left_pct reset_at =
      if lt left_pct (of_int (pos 0))
      then (of_int (negsuc 0), pos 0)
      else (clamp_usage_percent (sub (of_int (pos 100)) left_pct), reset_at)

  unfoldable pub full_window : ℤ → W → ℤ → ℤ → UsageWindow W
  full_window now_s used_pct reset_at window_seconds = record {
    limit = of_int (pos 100);
    used = used_pct;
    used_percent = used_pct;
    limit_window_seconds = window_seconds;
    reset_after_seconds = reset_after now_s reset_at;
    reset_at = reset_at;
    resets_at = reset_at;
  }

  unfoldable pub usage_window_from_status : W → ℤ → ℤ → ℤ → UsageWindow W
  usage_window_from_status left_pct reset_at window_seconds now_s =
      if lt left_pct (of_int (pos 0))
      then record {
        limit = of_int (pos 0);
        used = of_int (pos 0);
        used_percent = of_int (pos 0);
        limit_window_seconds = pos 0;
        reset_after_seconds = pos 0;
        reset_at = pos 0;
        resets_at = pos 0;
      }
      else full_window now_s
          (normalize_usage_percent_for_backend
            (clamp_usage_percent (sub (of_int (pos 100)) left_pct)))
          reset_at window_seconds

  unfoldable pub aggregate_additional_usage_limit :
      ℤ → AdditionalLimitStatus W → UsageAdditionalRateLimit W
  aggregate_additional_usage_limit now_s l =
      let primary =
        usage_window_from_status l.primary_left_pct l.primary_reset_at l.primary_window_seconds
          now_s in
      let secondary =
        usage_window_from_status l.secondary_left_pct l.secondary_reset_at
          l.secondary_window_seconds now_s in
      let reached =
        le (of_int (pos 100)) primary.used_percent
        || le (of_int (pos 100)) secondary.used_percent in
      record {
        limit_name =
            if str_eq (trim_space l.limit_name) ""
            then trim_space l.limit_id
            else trim_space l.limit_name;
        metered_feature = trim_space l.limit_id;
        rate_limit = record {
          allowed = not reached;
          limit_reached = reached;
          primary_window = primary;
          secondary_window = secondary;
        };
      }

  unfoldable pub aggregate_usage_response : ProxyStatus W → ℤ → UsageResponse W
  aggregate_usage_response status now_s =
      let (daily, daily_reset) =
        aggregate_usage_window status.accounts now_s
          (λ a. used_from_left a.daily_left_pct a.daily_reset_at) in
      let (weekly, weekly_reset) =
        aggregate_usage_window status.accounts now_s
          (λ a. used_from_left a.weekly_left_pct a.weekly_reset_at) in
      let daily_pct = normalize_usage_percent_for_backend daily in
      let weekly_pct = normalize_usage_percent_for_backend weekly in
      let allowed = lt daily_pct (of_int (pos 100)) && lt weekly_pct (of_int (pos 100)) in
      record {
        user_id = "proxy-only";
        account_id = "proxy-only";
        email = "proxy-only@codexlb.internal";
        plan_type = "plus";
        rate_limit = record {
          allowed = allowed;
          limit_reached = not allowed;
          primary_window = full_window now_s daily_pct daily_reset (pos 18000);
          secondary_window = full_window now_s weekly_pct weekly_reset (pos 604800);
        };
        additional_rate_limits =
            map (aggregate_additional_usage_limit now_s) status.additional_limits;
      }
