-- ===== src/Maintain/Pass.antt =====
-- A refresh of the quotas keeps every property of the store that its records keep.
use agent_lb_proxy.Prelude.{
  ℕ, suc, Bool, true, false, not, ◌&&◌, List, [], ◌∷◌, ◌==◌, Bool-cases, inl, inr,
}
use agent_lb_proxy.Prelude.Int.{ℤ}
use agent_lb_proxy.Prelude.Float.{Float64}
use agent_lb_proxy.Prelude.Outcome.{Outcome, ok, err, panic}
use agent_lb_proxy.Types.{Account, AuthInfo, StoreFile}
use agent_lb_proxy.Store.Overrides.{snapshot}
use agent_lb_proxy.Serve.{AuthError, Server, missing}
use agent_lb_proxy.Serve.Credentials.{try_refresh_account_auth}
use agent_lb_proxy.Quota.{due_for_quota_refresh}
use agent_lb_proxy.Maintain.{
  Check, UsageError, is_terminal_auth_failure_reason, is_auth_failure_reason,
  auth_failure_status_from_error, ask_again, judge_usage, ask_usage, with_refreshed, with_loaded,
  check_account, check_accounts, maybe_refresh_quota,
}
use agent_lb_proxy.Maintain.Kept.{
  stored, IsKept, commit-kept, take_reloaded-kept, store_checked-kept,
}

module _ {W : Type 0} ⦃f : Float64 W⦄ (force : Bool) (P : StoreFile W → Type 0)
    (k : IsKept force P) where
  ask_again-kept :
      (now_s now_ms counter : ℤ) (account : Account W) (c : Check W)
      (r : Server W × Outcome AuthError AuthInfo)
      → P (stored r.0)
      → P (stored (ask_again now_s now_ms counter account c r))
  unfolding ask_again
  ask_again-kept now_s now_ms counter account c (p, ok auth) h =
      store_checked-kept force P k c.second counter account auth _ p h
  ask_again-kept now_s now_ms counter account c (p, err e) h = h
  ask_again-kept now_s now_ms counter account c (p, panic) h = h

  judge_usage-kept :
      (now_s now_ms counter : ℤ) (account : Account W) (c : Check W) (auth : AuthInfo)
      (o : Outcome UsageError (Account W)) (p : Server W)
      → P (stored p)
      → P (stored (judge_usage now_s now_ms counter account c auth o p))
  unfolding judge_usage try_refresh_account_auth
  judge_usage-kept now_s now_ms counter account c auth (ok updated) p h =
      store_checked-kept force P k c.second counter account auth (ok updated) p h
  judge_usage-kept now_s now_ms counter account c auth (err e) p h =
      elim (Bool-cases (auth_failure_status_from_error e == 0)) [
        | inl q ↦ rw q h
        | inr q ↦ rw q (
            ask_again-kept now_s now_ms counter account c _
              (take_reloaded-kept force P k c.second account.id auth p c.second.reloaded h))
      ]
  judge_usage-kept now_s now_ms counter account c auth panic p h = h

  ask_usage-kept :
      (now_s now_ms counter : ℤ) (account : Account W) (c : Check W) (auth : AuthInfo)
      (p : Server W)
      → P (stored p)
      → P (stored (ask_usage now_s now_ms counter account c auth p))
  unfolding ask_usage
  ask_usage-kept now_s now_ms counter account c auth p h =
      judge_usage-kept now_s now_ms counter account c auth _ p h

  with_refreshed-kept :
      (now_s now_ms counter : ℤ) (account : Account W) (c : Check W)
      (r : Server W × Outcome AuthError AuthInfo)
      → P (stored r.0)
      → P (stored (with_refreshed now_s now_ms counter account c r))
  unfolding with_refreshed
  with_refreshed-kept now_s now_ms counter account c (p, ok auth) h =
      ask_usage-kept now_s now_ms counter account c auth p h
  with_refreshed-kept now_s now_ms counter account c (p, err e) h = h
  with_refreshed-kept now_s now_ms counter account c (p, panic) h = h

  with_loaded-kept :
      (now_s now_ms counter : ℤ) (account : Account W) (c : Check W)
      (o : Outcome AuthError AuthInfo) (p : Server W)
      → P (stored p)
      → P (stored (with_loaded force now_s now_ms counter account c o p))
  unfolding with_loaded try_refresh_account_auth
  with_loaded-kept now_s now_ms counter account c (err e) p h = elim (Bool-cases force) [
    | inl q ↦ rw q h
    | inr q ↦ rw q (commit-kept P c.first missing _ p k.stamped (k.disabled q account.id _ h))
  ]
  with_loaded-kept now_s now_ms counter account c (ok auth) p h =
      elim (Bool-cases (force && is_terminal_auth_failure_reason account.disabled_reason)) [
        | inl q ↦ rw q h
        | inr q ↦ elim (Bool-cases (is_auth_failure_reason account.disabled_reason)) [
          | inl r ↦
              rw (q, r)
                (with_refreshed-kept now_s now_ms counter account c _
                  (take_reloaded-kept force P k c.first account.id auth p c.first.reloaded h))
          | inr r ↦ rw (q, r) (ask_usage-kept now_s now_ms counter account c auth p h)
        ]
      ]
  with_loaded-kept now_s now_ms counter account c panic p h = h

  check_account-kept :
      (now_s now_ms : ℤ) (snap : StoreFile W) (account : Account W) (c : Check W) (p : Server W)
      → P (stored p)
      → P (stored (check_account force now_s now_ms snap account c p))
  unfolding check_account
  check_account-kept now_s now_ms snap account c p h =
      elim (Bool-cases
        (not force && not (due_for_quota_refresh account snap.state snap.settings.quota now_ms))) [
          | inl q ↦ rw q h
          | inr q ↦ rw q (with_loaded-kept now_s now_ms _ account c c.first.loaded p h)
        ]

  check_accounts-kept :
      (now_s now_ms : ℤ) (snap : StoreFile W) (checks : ℕ → Check W) (i : ℕ)
      (accounts : List (Account W)) (p : Server W)
      → P (stored p)
      → P (stored (check_accounts force now_s now_ms snap checks i accounts p))
  unfolding check_accounts
  check_accounts-kept now_s now_ms snap checks i [] p h = h
  check_accounts-kept now_s now_ms snap checks i (a ∷ accounts) p h =
      check_accounts-kept now_s now_ms snap checks (suc i) accounts _
        (check_account-kept now_s now_ms snap a (checks i) p h)

  pub maybe_refresh_quota-kept :
      (in_flight : Bool) (now_s now_ms : ℤ) (checks : ℕ → Check W) (p : Server W)
      → P (stored p)
      → P (stored (maybe_refresh_quota in_flight force now_s now_ms checks p))
  unfolding maybe_refresh_quota
  maybe_refresh_quota-kept true now_s now_ms checks p h = h
  maybe_refresh_quota-kept false now_s now_ms checks p h =
      check_accounts-kept now_s now_ms (snapshot p.store) checks 0 (snapshot p.store).accounts p h
