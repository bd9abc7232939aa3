-- ===== src/Tests/Serving.antt =====
-- The theorems on routes and on serving a request, at concrete servers and replies.
use agent_lb_proxy.Prelude.{
  ◌≡◌, ◌≢◌, refl, true, false, none, some, [], ◌∷◌, arith, index_func, ltb, if◌then◌else◌,
}
use agent_lb_proxy.Prelude.Int.{ℤ, pos, ◌+ℤ◌, ◌-ℤ◌, ◌*ℤ◌, wrap64}
use agent_lb_proxy.Prelude.Fixed.{fixed}
use agent_lb_proxy.Prelude.Codes.{
  text_equal, cut_prefix, contains_sub, trim_left_text, trim_right_text,
}
use agent_lb_proxy.Prelude.Text.{is_space, trim_space, trim_left, trim_right}
use agent_lb_proxy.Prelude.Outcome.{ok, err}
use agent_lb_proxy.Policy.{
  Selection, candidates, select_account, healthy_indexes, healthy_from, is_healthy,
  eligible_indexes, contains, pinned_among, select_by_mode, select_sticky, pick, active_or_first,
}
use agent_lb_proxy.Policy.Score.{
  account_quota_exhausted, any_additional_exhausted, score, remaining_of, clamp01, least_remaining,
}
use agent_lb_proxy.Request.{
  is_retryable_status, default_backoff_seconds, plain_apostrophe, lower, to_lower,
  account_responses_suffix, is_account_scoped_path, should_disable_for_auth_failure,
  is_usage_limit_response,
}
use agent_lb_proxy.Store.{update, write_store}
use agent_lb_proxy.Store.Overrides.{override_proxy, apply_runtime_overrides, snapshot}
use agent_lb_proxy.Store.Marks.{
  on_account, cooldown_deadline, cool_down, mark_cooldown, mark_disabled,
}
use agent_lb_proxy.Routes.{fenced_cooldown, current_active_route_id}
use agent_lb_proxy.Routes.Select.{
  child, is_active_route, local_candidates, route_candidates, active_candidate, child_quota,
  child_account, child_target_as_account, candidate_account, fake_store, chosen_of,
  select_route_from_targets,
}
use agent_lb_proxy.Routes.Safety.{can_serve, select_route-can_serve}
use agent_lb_proxy.Serve.{
  answered, Attempt, Server, Last, again, parse_retry_after_seconds, usage_limit, disabling,
  backing_off, digit, decimal, http_reason, commit, unless_error,
}
use agent_lb_proxy.Serve.Account.{
  Picked, longer, cool, conclude, authorize, judge, judge_first, handle_http_via_picked_account,
}
use agent_lb_proxy.Serve.Aside.{IsTimely}
use agent_lb_proxy.Serve.Failover.{failover}
use agent_lb_proxy.Serve.Limits.{handle-usage_limit}
use agent_lb_proxy.Tests.Data.{
  fallback_b, account_a, sticky_store, empty_store, no_children, server_with, child_target,
  credentials, unreadable_auth, attempt_with, overloaded, limited, post_responses, nothing_yet,
  same_case, first_choice,
}
use agent_lb_proxy.Store.Invariant.{IsSound}
use agent_lb_proxy.Maintain.Kept.{stored}
use agent_lb_proxy.Serve.Loop.{handle_http}
use agent_lb_proxy.Serve.Whole.{handle_http-IsSound}

abbrev server : Server ℤ
server = server_with sticky_store

abbrev picked_a : Picked ℤ
picked_a = record { selection = first_choice; account = account_a; auth = credentials }

abbrev overloaded_attempt : Attempt ℤ
overloaded_attempt = attempt_with (ok credentials) (ok credentials) (answered overloaded)

abbrev limited_attempt : Attempt ℤ
limited_attempt = attempt_with (ok credentials) (err unreadable_auth) (answered limited)

handle-usage_limit_example :
    handle_http_via_picked_account same_case limited_attempt post_responses sticky_store picked_a
      (pos 9)
      3
      3
      nothing_yet
      server
    ≡ again
        (if ltb 3 3
          then cool limited_attempt usage_limit "a"
              (longer (pos 5) (parse_retry_after_seconds limited.retry_after))
              "usage-limit"
              server
          else commit limited_attempt disabling (mark_disabled "a" "http-403") (
              cool limited_attempt usage_limit "a"
                (longer (pos 5) (parse_retry_after_seconds limited.retry_after))
                "usage-limit"
                server))
        (record nothing_yet { resp = some limited })
unfolding is_usage_limit_response is_account_scoped_path account_responses_suffix to_lower lower
    plain_apostrophe text_equal cut_prefix contains_sub trim_left_text trim_right_text is_space
handle-usage_limit_example =
    handle-usage_limit same_case limited_attempt post_responses sticky_store picked_a (pos 9) 3 3
      nothing_yet server limited unreadable_auth refl refl refl refl refl

abbrev after_a : Server ℤ
after_a = cool overloaded_attempt backing_off "a" (pos 7) "http-503" server

abbrev closed : Last
closed = record { resp = some (record overloaded { readable = false }); error = none }

timely : IsTimely overloaded_attempt sticky_store (pos 9)
unfolding parse_retry_after_seconds
timely = record {
  clock = λ site. (11000000000, refl, omega arith);
  configured = omega arith;
  first = omega arith;
  second = tt;
}

verdict_test :
    handle_http_via_picked_account same_case overloaded_attempt post_responses sticky_store picked_a
      (pos 9)
      1
      3
      nothing_yet
      server
    ≡ again after_a closed
unfolding handle_http_via_picked_account judge_first judge authorize conclude unless_error
    is_retryable_status default_backoff_seconds parse_retry_after_seconds http_reason decimal digit
    should_disable_for_auth_failure
verdict_test = refl

next_test : select_account (snapshot after_a.store) (pos 9) ≡ ok fallback_b
unfolding index_func select_account candidates healthy_indexes healthy_from is_healthy
    eligible_indexes account_quota_exhausted any_additional_exhausted contains fixed pinned_among
    select_by_mode select_sticky pick active_or_first score remaining_of clamp01 least_remaining
    cool commit update write_store mark_cooldown on_account cool_down cooldown_deadline snapshot
    apply_runtime_overrides override_proxy wrap64 ◌+ℤ◌ ◌-ℤ◌ ◌*ℤ◌
next_test = refl

failover_example : fallback_b.index ≢ 0
unfolding index_func
failover_example =
    failover same_case overloaded_attempt post_responses sticky_store picked_a (pos 9) 1 3
      nothing_yet closed server after_a fallback_b timely refl refl refl verdict_test next_test

-- The only route of a store without accounts is the child.
abbrev only_child : Selection ℤ
only_child = record {
  index = 0;
  score = pos 10000;
  best_score = pos 10000;
  switched = false;
  switch_reason = "sticky";
}

route_test :
    select_route_from_targets no_children empty_store (pos 9) (child_target true ∷ [])
    ≡ ok (some (only_child, child (child_target true)))
unfolding index_func select_account candidates healthy_indexes healthy_from is_healthy
    eligible_indexes account_quota_exhausted any_additional_exhausted contains fixed pinned_among
    select_by_mode select_sticky pick active_or_first score remaining_of clamp01 least_remaining
    select_route_from_targets chosen_of fake_store candidate_account child_target_as_account
    child_account child_quota active_candidate route_candidates local_candidates is_active_route
    current_active_route_id fenced_cooldown trim_space trim_left trim_right is_space ◌+ℤ◌ ◌-ℤ◌ ◌*ℤ◌
route_test = refl

select_route-can_serve_example : can_serve (pos 9) (child (child_target true)) ≡ true
select_route-can_serve_example =
    select_route-can_serve no_children empty_store 9 (child_target true ∷ []) only_child
      (child (child_target true)) (omega arith) route_test

handle_http-IsSound_example : IsSound (
    stored
      (handle_http ⦃f = fixed⦄ same_case (λ n. overloaded_attempt) post_responses (pos 9) server).0)
handle_http-IsSound_example =
    handle_http-IsSound ⦃f = fixed⦄ same_case (λ n. overloaded_attempt) post_responses (pos 9)
      server (record { nonneg = refl; below = omega arith; pinned = refl })
