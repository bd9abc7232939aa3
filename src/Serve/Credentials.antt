-- ===== src/Serve/Credentials.antt =====
-- The credentials of an account: `loadAuthForAccount` and `tryRefreshAccountAuth` of
-- internal/lb/proxy.go. LoadAuth and RefreshAuth are fields of the attempt.
use agent_lb_proxy.Prelude.{not, ◌&&◌, String, str_eq, if◌then◌else◌}
use agent_lb_proxy.Prelude.Outcome.{Outcome, ok, err, panic}
use agent_lb_proxy.Types.{Account, AuthInfo}
use agent_lb_proxy.Store.Marks.{on_account, mark_disabled, mark_auth_recovered, adopt_auth}
use agent_lb_proxy.Serve.{AuthError, missing, adopting, recovering, Attempt, Server, commit}

module _ {W : Type 0} where
  unfoldable pub load_auth_for_account :
      Attempt W → Account W → Server W → Server W × Outcome String AuthInfo
  load_auth_for_account t a p = elim (t.loaded) [
    | err e ↦ (commit t missing (mark_disabled a.id "missing-auth") p, err e.message)
    | panic ↦ (p, panic)
    | ok auth ↦
        if not (str_eq auth.chatgpt_account_id "")
          && not (str_eq auth.chatgpt_account_id a.chatgpt_account_id)
        then (commit t adopting (on_account a.id (adopt_auth auth)) p, ok auth)
        else (p, ok auth)
  ]

  -- The result of `RefreshAuth`.
  unfoldable pub take_refreshed :
      Attempt W
      → String
      → Server W
      → Outcome AuthError AuthInfo
      → Server W × Outcome AuthError AuthInfo
  take_refreshed t id p (ok auth) = (commit t recovering (mark_auth_recovered id auth) p, ok auth)
  take_refreshed t id p (err e) = (p, err e)
  take_refreshed t id p panic = (p, panic)

  -- Credentials that another request refreshed meanwhile are taken as they are.
  unfoldable pub take_reloaded :
      Attempt W
      → String
      → AuthInfo
      → Server W
      → Outcome AuthError AuthInfo
      → Server W × Outcome AuthError AuthInfo
  take_reloaded t id failed_auth p (ok current) =
      if not (str_eq failed_auth.access_token "")
        && not (str_eq current.access_token "")
        && not (str_eq current.access_token failed_auth.access_token)
      then (commit t recovering (mark_auth_recovered id current) p, ok current)
      else take_refreshed t id p t.refreshed
  take_reloaded t id failed_auth p (err e) = (p, err e)
  take_reloaded t id failed_auth p panic = (p, panic)

  unfoldable pub try_refresh_account_auth :
      Attempt W → String → AuthInfo → Server W → Server W × Outcome AuthError AuthInfo
  try_refresh_account_auth t id failed_auth p = take_reloaded t id failed_auth p t.reloaded
