-- ===== src/Tests/Stores.antt =====
-- The theorems on the store, the settings and the usage windows, at concrete inputs.
use agent_lb_proxy.Prelude.{
  ◌≡◌, ◌≢◌, refl, true, false, not, ◌&&◌, String, some, List, [], ◌∷◌, map, All, str_eq, arith,
  index_func,
}
use agent_lb_proxy.Prelude.Int.{ℤ, pos, ◌≤ℤ◌, ◌<ℤ◌, ◌+ℤ◌, ◌-ℤ◌, ◌*ℤ◌, eqb_ℤ}
use agent_lb_proxy.Prelude.Fixed.{fixed, fixed-IsOrdered}
use agent_lb_proxy.Prelude.Outcome.{ok}
use agent_lb_proxy.Types.Defaults.{
  clean_url, contains_text, normalize_proxy_url_list, merge_defaults,
}
use agent_lb_proxy.Types.Merge.{
  IsDistinct, IsUsable, IsSettled, normalize_proxy_url_list_lem, merge_defaults-IsUsable,
}
use agent_lb_proxy.Policy.{
  candidates, select_account, healthy_indexes, healthy_from, is_healthy, eligible_indexes, contains,
  pinned_among, select_by_mode, select_sticky, pick, active_or_first,
}
use agent_lb_proxy.Policy.Score.{
  account_quota_exhausted, any_additional_exhausted, score, remaining_of, clamp01, least_remaining,
}
use agent_lb_proxy.Policy.Indexes.{healthy_at}
use agent_lb_proxy.Store.{update}
use agent_lb_proxy.Store.Marks.{
  pinned_id_of, set_pin, cooldown_deadline, mark_cooldown, mark_disabled, disable, expire_cooldowns,
  should_clear_pin_on_disable,
}
use agent_lb_proxy.Store.Invariant.{IsSound}
use agent_lb_proxy.Store.History.{succeeded, disabled, removed, apply}
use agent_lb_proxy.Store.Pins.{
  Action, looked_up, wrote_pin, updated, in_flight, look_up, write_pin, act, act_all,
  act_all-IsSound,
}
use agent_lb_proxy.Store.Health.{
  cooldown_deadline_wraps, select_account-mark_disabled, mark_cooldown-health,
  candidates-expire_cooldowns,
}
use agent_lb_proxy.Store.{not_written}
use agent_lb_proxy.Store.Accounts.{remove_fn}
use agent_lb_proxy.Store.Durable.{IsUpdate, update-IsUpdate}
use agent_lb_proxy.Status.{AccountStatus}
use agent_lb_proxy.Quota.{usage_totals}
use agent_lb_proxy.Quota.Reset.{earliest_of, usage_totals-earliest}
use agent_lb_proxy.Tests.Data.{fallback_b, account_a, sticky_store, pinned_store, store_with}

-- A request to pin `b` and a success of `b` before it is written; then the removal of `a`, and a refusal
-- of `b`.
abbrev some_actions : List (Action ℤ)
some_actions =
    looked_up "b"
    ∷ updated (succeeded (pos 9) true "rr" "b" true)
    ∷ wrote_pin 0
    ∷ updated (removed "a")
    ∷ updated (disabled "b" "http-401")
    ∷ []

pinned_store-IsSound : IsSound pinned_store
pinned_store-IsSound = record { nonneg = refl; below = omega arith; pinned = refl }

act_all-IsSound_example : IsSound (act_all some_actions (in_flight pinned_store [])).store_file
unfolding act look_up write_pin pinned_id_of
act_all-IsSound_example = act_all-IsSound some_actions pinned_store refl pinned_store-IsSound

-- An account that is removed between the two steps of a pin stays pinned.
race_test :
    (act_all
      (looked_up "b" ∷ updated (removed "b") ∷ wrote_pin 0 ∷ [])
      (in_flight sticky_store [])).store_file.state.pinned_account_id
    ≡ "b"
unfolding act_all act look_up write_pin pinned_id_of apply remove_fn index_func set_pin
race_test = refl

cooldown_deadline_wraps_example : cooldown_deadline (pos 11000000000) (pos 9223372037) <ℤ pos 11000
cooldown_deadline_wraps_example =
    cooldown_deadline_wraps 11000000000 9223372037 (omega arith) (omega arith)

mark_cooldown-health_example :
    healthy_at
      (pos 16000)
      (mark_cooldown (pos 11000000000) "a" (pos 5) "http-503" sticky_store).accounts
      0
    ≡ true
unfolding index_func
mark_cooldown-health_example =
    mark_cooldown-health 11000000000 5 "a" "http-503" sticky_store 16000 0 account_a refl refl
      (omega arith) (omega arith)

candidates-expire_cooldowns_example :
    candidates (expire_cooldowns (pos 9) sticky_store).accounts (pos 12)
    ≡ candidates sticky_store.accounts (pos 12)
candidates-expire_cooldowns_example =
    candidates-expire_cooldowns (pos 9) (pos 12) sticky_store (omega arith)

fallback_test : select_account (mark_disabled "a" "http-401" sticky_store) (pos 9) ≡ ok fallback_b
unfolding index_func select_account candidates healthy_indexes healthy_from is_healthy
    eligible_indexes account_quota_exhausted any_additional_exhausted contains fixed pinned_among
    select_by_mode select_sticky pick active_or_first score remaining_of clamp01 least_remaining
    mark_disabled disable should_clear_pin_on_disable ◌+ℤ◌ ◌-ℤ◌ ◌*ℤ◌
fallback_test = refl

select_account-mark_disabled_example : fallback_b.index ≢ 0
unfolding index_func
select_account-mark_disabled_example =
    select_account-mark_disabled "a" "http-401" sticky_store (pos 9) 0 fallback_b refl fallback_test

update-IsUpdate_example : IsUpdate (store_with sticky_store) (
    update "now"
      (some (not_written "disk full" (some "{")))
      (λ sf. (mark_disabled "a" "http-401" sf, ok tt))
      (store_with sticky_store))
update-IsUpdate_example =
    update-IsUpdate "now" (some (not_written "disk full" (some "{")))
      (λ sf. (mark_disabled "a" "http-401" sf, ok tt)) (store_with sticky_store)

normalize_proxy_url_list_lem_example :
    IsDistinct (normalize_proxy_url_list (" http://a/ " ∷ "http://a" ∷ "" ∷ []))
    × ((u : String)
        → contains_text (normalize_proxy_url_list (" http://a/ " ∷ "http://a" ∷ "" ∷ [])) u ≡ (
            not (str_eq u "")
            && contains_text (map clean_url (" http://a/ " ∷ "http://a" ∷ "" ∷ [])) u))
normalize_proxy_url_list_lem_example =
    normalize_proxy_url_list_lem (" http://a/ " ∷ "http://a" ∷ "" ∷ [])

merge_defaults-IsUsable_example :
    IsUsable (merge_defaults "now" sticky_store).settings
    × All IsSettled (merge_defaults "now" sticky_store).accounts
merge_defaults-IsUsable_example = merge_defaults-IsUsable fixed-IsOrdered "now" sticky_store

abbrev status_of : ℤ → AccountStatus ℤ
status_of reset_at = record {
  proxy_name = "";
  alias = "";
  id = "";
  email = "";
  active = false;
  pinned = false;
  healthy = true;
  enabled = true;
  disabled_reason = "";
  cooldown_seconds = pos 0;
  daily_left_pct = pos 500000;
  daily_reset_at = reset_at;
  weekly_left_pct = pos 500000;
  weekly_reset_at = reset_at;
  additional_limits = [];
  score = pos 5000;
  last_used_at_ms = pos 0;
  last_switch_reason = "";
  quota_source = "";
}

abbrev statuses : List (AccountStatus ℤ)
statuses = status_of (pos 80) ∷ status_of (pos 60) ∷ []

abbrev daily_use : AccountStatus ℤ → ℤ × ℤ
daily_use a = (a.daily_left_pct, a.daily_reset_at)

usage_totals-earliest_example :
    (eqb_ℤ (earliest_of (usage_totals (pos 50) daily_use (pos 0) 0 (pos 0) statuses)) (pos 0)
      ≡ false)
    × (earliest_of (usage_totals (pos 50) daily_use (pos 0) 0 (pos 0) statuses) ≤ℤ pos 60)
unfolding fixed
usage_totals-earliest_example =
    usage_totals-earliest 50 daily_use (pos 0) 0 (pos 0) statuses 1 (status_of (pos 60)) refl refl
      (omega arith)
