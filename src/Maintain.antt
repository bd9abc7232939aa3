-- ===== src/Maintain.antt =====
-- internal/lb/proxy.go and quota.go: the refresh of quotas, in the background and forced. What the
-- outside answers while one account is checked is an argument, `Check`. Log records are not modelled.
use agent_lb_proxy.Prelude.{
  ℕ, suc, Bool, true, false, not, ◌&&◌, ◌||◌, String, Option, none, some, List, [], ◌∷◌, str_eq,
  ◌==◌, leb, ltb, if◌then◌else◌,
}
use agent_lb_proxy.Prelude.Int.{ℤ}
use agent_lb_proxy.Prelude.Float.{Float64}
use agent_lb_proxy.Prelude.Outcome.{Outcome, ok, err, panic}
use agent_lb_proxy.Types.{Account, AuthInfo, StoreFile, RuntimeState}
use agent_lb_proxy.Store.Marks.{mark_disabled, store_refresh}
use agent_lb_proxy.Store.Overrides.{snapshot}
use agent_lb_proxy.Quota.{UsageResponse, store_usage, due_for_quota_refresh}
use agent_lb_proxy.Serve.{AuthError, missing, succeeding, Attempt, Server, commit}
use agent_lb_proxy.Serve.Credentials.{try_refresh_account_auth}
pub mod Kept
pub mod Pass
pub mod Sound

-- The usage request: an error before a response, or a status with the body, if it can be decoded.
pub data UsageReply (W : Type 0) : Type 0 where
  not_sent : UsageReply W
  usage_answered : ℕ → Option (UsageResponse W) → UsageReply W

-- An `upstreamStatusError`, or another error.
pub data UsageError : Type 0 where
  upstream_status : ℕ → UsageError
  other_error : UsageError

-- `first` has the credentials and a refresh before the usage request, `second` the refresh after it.
pub record Check (W : Type 0) : Type 0 where
  pub first : Attempt W
  pub usage : UsageReply W
  pub second : Attempt W
  pub second_usage : UsageReply W

unfoldable pub is_auth_failure_reason : String → Bool
is_auth_failure_reason reason = str_eq reason "http-401"

unfoldable pub is_terminal_auth_failure_reason : String → Bool
is_terminal_auth_failure_reason reason = str_eq reason "refresh-token-reused"

unfoldable pub auth_failure_status_from_error : UsageError → ℕ
auth_failure_status_from_error (upstream_status status) =
    if status == 401 || status == 403 then status else 0
auth_failure_status_from_error other_error = 0

module _ {W : Type 0} ⦃f : Float64 W⦄ where
  -- `refreshQuotaForAccount`, for the time in seconds and in milliseconds.
  unfoldable pub refresh_quota_for_account :
      ℤ → ℤ → UsageReply W → Account W → Outcome UsageError (Account W)
  refresh_quota_for_account now_s now_ms not_sent a = err other_error
  refresh_quota_for_account now_s now_ms (usage_answered status none) a =
      if ltb status 200 || leb 300 status then err (upstream_status status) else err other_error
  refresh_quota_for_account now_s now_ms (usage_answered status (some payload)) a =
      if ltb status 200 || leb 300 status
      then err (upstream_status status)
      else ok (store_usage now_s now_ms payload a)

module _ {W : Type 0} where
  -- What is stored of an account whose usage is known.
  unfoldable pub refreshed_account : ℤ → AuthInfo → Account W → Account W → Account W
  refreshed_account counter auth account updated = record updated {
    quota = record updated.quota { last_sync_message_counter = counter };
    chatgpt_account_id = auth.chatgpt_account_id;
    user_email = auth.user_email;
    enabled = true;
    disabled_reason = "";
    last_switch_reason =
        if str_eq account.disabled_reason ""
        then updated.last_switch_reason
        else "quota-refresh-recovered";
  }

  unfoldable pub store_checked :
      Attempt W → ℤ → Account W → AuthInfo → Outcome UsageError (Account W) → Server W → Server W
  store_checked t counter account auth (ok updated) p =
      commit t succeeding
        (store_refresh account.id (refreshed_account counter auth account updated)) p
  store_checked t counter account auth (err e) p = p
  store_checked t counter account auth panic p = p

module _ {W : Type 0} ⦃f : Float64 W⦄ where
  -- After the refresh that follows a 401 or 403: the usage is asked for again.
  unfoldable pub ask_again :
      ℤ → ℤ → ℤ → Account W → Check W → Server W × Outcome AuthError AuthInfo → Server W
  ask_again now_s now_ms counter account c (p, ok auth) =
      store_checked c.second counter account auth
        (refresh_quota_for_account now_s now_ms c.second_usage account) p
  ask_again now_s now_ms counter account c (p, err e) = p
  ask_again now_s now_ms counter account c (p, panic) = p

  unfoldable pub judge_usage :
      ℤ
      → ℤ
      → ℤ
      → Account W
      → Check W
      → AuthInfo
      → Outcome UsageError (Account W)
      → Server W
      → Server W
  judge_usage now_s now_ms counter account c auth (ok updated) p =
      store_checked c.second counter account auth (ok updated) p
  judge_usage now_s now_ms counter account c auth (err e) p =
      if auth_failure_status_from_error e == 0
      then p
      else ask_again now_s now_ms counter account c
          (try_refresh_account_auth c.second account.id auth p)
  judge_usage now_s now_ms counter account c auth panic p = p

  unfoldable pub ask_usage : ℤ → ℤ → ℤ → Account W → Check W → AuthInfo → Server W → Server W
  ask_usage now_s now_ms counter account c auth p =
      judge_usage now_s now_ms counter account c auth
        (refresh_quota_for_account now_s now_ms c.usage account) p

  -- The refresh of an account that is disabled as http-401.
  unfoldable pub with_refreshed :
      ℤ → ℤ → ℤ → Account W → Check W → Server W × Outcome AuthError AuthInfo → Server W
  with_refreshed now_s now_ms counter account c (p, ok auth) =
      ask_usage now_s now_ms counter account c auth p
  with_refreshed now_s now_ms counter account c (p, err e) = p
  with_refreshed now_s now_ms counter account c (p, panic) = p

  -- What LoadAuth returns decides what follows.
  unfoldable pub with_loaded :
      Bool → ℤ → ℤ → ℤ → Account W → Check W → Outcome AuthError AuthInfo → Server W → Server W
  with_loaded force now_s now_ms counter account c (err e) p =
      if force then p else commit c.first missing (mark_disabled account.id "missing-auth") p
  with_loaded force now_s now_ms counter account c (ok auth) p =
      if force && is_terminal_auth_failure_reason account.disabled_reason
      then p
      else if is_auth_failure_reason account.disabled_reason
      then with_refreshed now_s now_ms counter account c
          (try_refresh_account_auth c.first account.id auth p)
      else ask_usage now_s now_ms counter account c auth p
  with_loaded force now_s now_ms counter account c panic p = p

  -- The body of the loop, with the state and the settings of the snapshot.
  unfoldable pub check_account :
      Bool → ℤ → ℤ → StoreFile W → Account W → Check W → Server W → Server W
  check_account force now_s now_ms snap account c p =
      if not force && not (due_for_quota_refresh account snap.state snap.settings.quota now_ms)
      then p
      else with_loaded force now_s now_ms snap.state.message_counter account c c.first.loaded p

  -- The loop; `checks` is by the place of the account in the snapshot.
  unfoldable pub check_accounts :
      Bool → ℤ → ℤ → StoreFile W → (ℕ → Check W) → ℕ → List (Account W) → Server W → Server W
  check_accounts force now_s now_ms snap checks i [] p = p
  check_accounts force now_s now_ms snap checks i (a ∷ accounts) p =
      check_accounts force now_s now_ms snap checks (suc i) accounts
        (check_account force now_s now_ms snap a (checks i) p)

  -- `maybeRefreshQuota`: a call while another one is in flight does nothing.
  unfoldable pub maybe_refresh_quota : Bool → Bool → ℤ → ℤ → (ℕ → Check W) → Server W → Server W
  maybe_refresh_quota in_flight force now_s now_ms checks p =
      let snap = snapshot p.store in
      if in_flight then p else check_accounts force now_s now_ms snap checks 0 snap.accounts p
