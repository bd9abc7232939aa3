-- ===== src/Tests/Upkeep.antt =====
-- The theorems on the refresh of quotas, the admin interface, `/oauth/token` and the command line's targets, at concrete inputs.
use agent_lb_proxy.Prelude.{
  ℕ, zero, suc, ltb, ◌≡◌, refl, true, false, String, Option, none, some, List, [], ◌∷◌, str_eq,
  length, arith, index_func,
}
use agent_lb_proxy.Prelude.Int.{ℤ, pos}
use agent_lb_proxy.Prelude.Fixed.{fixed}
use agent_lb_proxy.Prelude.Text.{trim_space}
use agent_lb_proxy.Prelude.Outcome.{ok, err}
use agent_lb_proxy.Store.{broken, update}
use agent_lb_proxy.Store.Accounts.{remove_account_by_alias, remove_fn}
use agent_lb_proxy.Store.Invariant.{IsSound}
use agent_lb_proxy.Serve.{Attempt, failed}
use agent_lb_proxy.Maintain.{Check, not_sent, usage_answered, maybe_refresh_quota}
use agent_lb_proxy.Maintain.Kept.{stored}
use agent_lb_proxy.Maintain.Sound.{
  IsEnabledAt, maybe_refresh_quota-IsSound, maybe_refresh_quota-IsEnabledAt,
}
use agent_lb_proxy.Admin.{
  ForwardReply, forward_answer, find_direct_child_proxy_matches, child_matches, some_unreachable,
  forward_admin_to_named_proxy,
}
use agent_lb_proxy.Admin.Forward.{answers, any_error, expected}
use agent_lb_proxy.Admin.Sent.{at_most, forward_admin-expected}
use agent_lb_proxy.Admin.Handle.{
  remove, AdminInputs, AdminState, handle_admin, with_alias_of, removal_reply, remove_account,
  with_reply, mutation_reply, remove_all, unless_removed, is_removed,
}
use agent_lb_proxy.Admin.Refused.{StateKeeps, handle_admin-StateKeeps}
use agent_lb_proxy.Tests.Data.{
  credentials, unreadable_auth, attempt_with, pinned_store, server_with, store_with, no_report,
}
use agent_lb_proxy.Policy.{contains}
use agent_lb_proxy.Policy.Rotation.{IsDistinct}
use agent_lb_proxy.RuntimeAuth.{
  TokenRequest, runtime_auth_candidate_indexes, handle_runtime_oauth_token,
}
use agent_lb_proxy.RuntimeAuth.Candidates.{runtime_auth_candidate_indexes-contains}
use agent_lb_proxy.RuntimeAuth.Granted.{handle_runtime_oauth_token-IsSound}
use agent_lb_proxy.RuntimeAuth.Served.{is_granted, is_broken, handle_runtime_oauth_token-granted}
use agent_lb_proxy.Store.Overrides.{snapshot, apply_runtime_overrides}
use agent_lb_proxy.Status.{AccountStatus, ProxyStatus}
use agent_lb_proxy.Targets.{
  name_in_status, owners, is_account, owner_name, insert_name, name_in, only_name,
}
use agent_lb_proxy.Targets.Owner.{AllOwned, is_listed, name_in_status-AllOwned}

abbrev attempt : Attempt ℤ
attempt = attempt_with (ok credentials) (err unreadable_auth) (failed "none")

-- A usage request that is refused with 401, and credentials that cannot be refreshed.
abbrev check : Check ℤ
check = record {
  first = attempt;
  usage = usage_answered 401 none;
  second = attempt;
  second_usage = not_sent;
}

maybe_refresh_quota-IsSound_example : IsSound (
    stored (
      maybe_refresh_quota ⦃f = fixed⦄ false false
        (pos 11)
        (pos 11000)
        (λ i. check)
        (server_with pinned_store)))
maybe_refresh_quota-IsSound_example =
    maybe_refresh_quota-IsSound ⦃f = fixed⦄ false false (pos 11) (pos 11000) (λ i. check)
      (server_with pinned_store) (record { nonneg = refl; below = omega arith; pinned = refl })

maybe_refresh_quota-IsEnabledAt_example : IsEnabledAt "a" (
    stored (
      maybe_refresh_quota ⦃f = fixed⦄ false true
        (pos 11)
        (pos 11000)
        (λ i. check)
        (server_with pinned_store)))
maybe_refresh_quota-IsEnabledAt_example =
    maybe_refresh_quota-IsEnabledAt ⦃f = fixed⦄ false (pos 11) (pos 11000) (λ i. check)
      (server_with pinned_store) "a" refl

-- Two children that both take the request, and report other names.
abbrev name_of : String → Option String
name_of url = some "other"

abbrev takes : String → ForwardReply
takes url = forward_answer 200 ""

abbrev children : List String
children = "http://a" ∷ "http://b" ∷ []

forward_admin-expected_example :
    ((forward_admin_to_named_proxy str_eq name_of takes "target" children).0
      ≡ expected (answers takes children) (any_error takes children))
    × (length
          (answers takes (forward_admin_to_named_proxy str_eq name_of takes "target" children).1)
        ≡ at_most 2 (length (answers takes children)))
unfolding find_direct_child_proxy_matches child_matches some_unreachable trim_space
forward_admin-expected_example =
    forward_admin-expected str_eq name_of takes "target" "http://a" ("http://b" ∷ []) refl

abbrev inputs : AdminInputs ℤ
inputs = record {
  zero_quota = pos 0;
  lower = λ s. s;
  home_of = λ s. s;
  makes_home = true;
  prepared = none;
  loaded = ok credentials;
  stamp = "";
  failure = none;
  store_path = "store.json";
  temp_path = "store.json.tmp.1";
  under = str_eq;
  stays = λ file. false;
}

abbrev state : AdminState ℤ
state = record { store = store_with pinned_store; homes = "a" ∷ "b" ∷ "c" ∷ [] }

handle_admin-StateKeeps_example : StateKeeps state (handle_admin inputs (remove (some "c")) state)
handle_admin-StateKeeps_example = handle_admin-StateKeeps inputs refl (remove (some "c")) state refl

-- For the alias `..` the program removes the root directory, with store.json.
abbrev rooted : AdminInputs ℤ
rooted = record inputs { under = λ path file. str_eq path ".." }

root_test :
    (handle_admin rooted
      (remove (some ".."))
      (record state { store = record state.store { disk = some (broken "{}") } })).0.store.disk
    ≡ none
unfolding handle_admin with_alias_of removal_reply remove_account with_reply mutation_reply
    trim_space index_func remove_account_by_alias update remove_fn remove_all unless_removed
    is_removed
root_test = refl

-- The credentials of the first account cannot be refreshed, those of the second can.
abbrev token_attempt : ℕ → Attempt ℤ
token_attempt zero = attempt
token_attempt (suc i) = record attempt { reloaded = ok credentials; refreshed = ok credentials }

abbrev token_request : TokenRequest ℤ
token_request = record {
  form_error = none;
  grant_type = "refresh_token";
  refresh_token = "codexlb-runtime-refresh";
  attempt = token_attempt;
  tokens = λ i. ok "tokens";
}

runtime_auth_candidate_indexes-contains_example :
    IsDistinct (runtime_auth_candidate_indexes ⦃f = fixed⦄ pinned_store (pos 11000))
    × ((i : ℕ)
        → contains (runtime_auth_candidate_indexes ⦃f = fixed⦄ pinned_store (pos 11000)) i
          ≡ ltb i 2)
runtime_auth_candidate_indexes-contains_example =
    runtime_auth_candidate_indexes-contains ⦃f = fixed⦄ pinned_store (pos 11000)

handle_runtime_oauth_token-IsSound_example : IsSound (
    stored
      (handle_runtime_oauth_token ⦃f = fixed⦄ token_request
        (pos 11000)
        (server_with pinned_store)).0)
handle_runtime_oauth_token-IsSound_example =
    handle_runtime_oauth_token-IsSound ⦃f = fixed⦄ token_request (pos 11000)
      (server_with pinned_store) (record { nonneg = refl; below = omega arith; pinned = refl })

handle_runtime_oauth_token-granted_example :
    is_granted
      (handle_runtime_oauth_token ⦃f = fixed⦄ token_request
        (pos 11000)
        (server_with pinned_store)).1
    ≡ true
unfolding trim_space index_func snapshot apply_runtime_overrides
handle_runtime_oauth_token-granted_example =
    handle_runtime_oauth_token-granted ⦃f = fixed⦄ token_request (pos 11000)
      (server_with pinned_store) 1 refl refl refl (omega arith) refl not_broken
  where
    not_broken : (j : ℕ) → is_broken token_request j ≡ false
    not_broken zero = refl
    not_broken (suc j) = refl

-- Two accounts of different proxies.
abbrev listed_account : String → String → AccountStatus ℤ
listed_account alias proxy_name = record {
  proxy_name = proxy_name;
  alias = alias;
  id = "";
  email = "";
  active = false;
  pinned = false;
  healthy = true;
  enabled = true;
  disabled_reason = "";
  cooldown_seconds = pos 0;
  daily_left_pct = pos 0;
  daily_reset_at = pos 0;
  weekly_left_pct = pos 0;
  weekly_reset_at = pos 0;
  additional_limits = [];
  score = pos 0;
  last_used_at_ms = pos 0;
  last_switch_reason = "";
  quota_source = "";
}

abbrev chain_status : ProxyStatus ℤ
chain_status = record no_report {
  accounts = listed_account "one" "east" ∷ listed_account "two" "west" ∷ [];
}

name_in_status-AllOwned_example :
    AllOwned "" (trim_space "two") "west" chain_status.accounts
    × (is_listed (trim_space "two") chain_status.accounts ≡ true)
unfolding name_in_status owners trim_space index_func is_account owner_name insert_name name_in
    only_name
name_in_status-AllOwned_example = name_in_status-AllOwned "two" "west" chain_status refl refl
