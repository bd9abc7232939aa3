-- ===== src/Policy/Score.antt =====
-- The quota tests and the score of an account, in internal/lb/policy.go.
use agent_lb_proxy.Prelude.{Bool, true, false, not, ◌&&◌, ◌||◌, List, [], ◌∷◌, if◌then◌else◌}
use agent_lb_proxy.Prelude.Int.{pos}
use agent_lb_proxy.Prelude.Float.{Float64, of_int, lt, le, add, sub, mul, div, fmax, fmin}
use agent_lb_proxy.Types.{PolicyConfig, AdditionalQuotaState, Account}

module _ {W : Type 0} ⦃f : Float64 W⦄ where
  unfoldable pub clamp01 : W → W
  clamp01 v =
      if lt v (of_int (pos 0))
      then of_int (pos 0)
      else if lt (of_int (pos 1)) v
      then of_int (pos 1)
      else v

  unfoldable pub quota_window_exhausted : W → W → Bool
  quota_window_exhausted limit used = lt (of_int (pos 0)) limit && le limit used

  unfoldable pub additional_quota_exhausted : AdditionalQuotaState W → Bool
  unfolding quota_window_exhausted
  additional_quota_exhausted l =
      quota_window_exhausted l.primary_limit l.primary_used
      || quota_window_exhausted l.secondary_limit l.secondary_used

  -- The loop over the additional limits.
  unfoldable pub any_additional_exhausted : List (AdditionalQuotaState W) → Bool
  unfolding additional_quota_exhausted
  any_additional_exhausted [] = false
  any_additional_exhausted (l ∷ limits) =
      if additional_quota_exhausted l then true else any_additional_exhausted limits

  unfoldable pub account_quota_exhausted : Account W → Bool
  unfolding any_additional_exhausted
  account_quota_exhausted a =
      if lt (of_int (pos 0)) a.quota.daily_limit && le a.quota.daily_limit a.quota.daily_used
      then true
      else if lt (of_int (pos 0)) a.quota.weekly_limit
          && le a.quota.weekly_limit a.quota.weekly_used
      then true
      else any_additional_exhausted a.quota.additional_limits

  -- `clamp01((limit - used) / limit)`
  unfoldable pub remaining_of : W → W → W
  unfolding clamp01
  remaining_of limit used = clamp01 (div (sub limit used) limit)

  -- Without a window the result is 1, which is also the value that `remaining` starts from.
  unfoldable pub additional_quota_remaining : AdditionalQuotaState W → W
  unfolding remaining_of
  additional_quota_remaining l =
      let has_primary = lt (of_int (pos 0)) l.primary_limit in
      let has_secondary = lt (of_int (pos 0)) l.secondary_limit in
      let one : W = of_int (pos 1) in
      let remaining =
        if has_primary then fmin one (remaining_of l.primary_limit l.primary_used) else one in
      let remaining' =
        if has_secondary
        then fmin remaining (remaining_of l.secondary_limit l.secondary_used)
        else remaining in
      if not (has_primary || has_secondary) then one else remaining'

  unfoldable pub least_remaining : W → List (AdditionalQuotaState W) → W
  unfolding additional_quota_remaining
  least_remaining s [] = s
  least_remaining s (l ∷ limits) = least_remaining (fmin s (additional_quota_remaining l)) limits

  unfoldable pub score : Account W → PolicyConfig W → W
  unfolding remaining_of least_remaining
  score a policy =
      let unknown : W = div (of_int (pos 3)) (of_int (pos 10)) in
      let daily =
        if lt (of_int (pos 0)) a.quota.daily_limit
        then remaining_of a.quota.daily_limit a.quota.daily_used
        else unknown in
      let weekly =
        if lt (of_int (pos 0)) a.quota.weekly_limit
        then remaining_of a.quota.weekly_limit a.quota.weekly_used
        else unknown in
      let daily_weight = fmax (of_int (pos 0)) policy.weights.daily in
      let weekly_weight = fmax (of_int (pos 0)) policy.weights.weekly in
      let total = add daily_weight weekly_weight in
      if le total (of_int (pos 0))
      then of_int (pos 0)
      else least_remaining
          (add (mul (div daily_weight total) daily) (mul (div weekly_weight total) weekly))
          a.quota.additional_limits
