-- ===== src/Serve/Account.antt =====
-- One attempt with an account of the store: `pickAccount` and `handleHTTPViaPickedAccount` of
-- internal/lb/proxy.go. `snap` is the snapshot of the attempt; `wide` lowers a code point from 128 on.
-- The second request is built of the same method and URL as the first, so building it cannot fail.
use agent_lb_proxy.Prelude.{
  ℕ, false, not, ◌&&◌, String, Option, none, some, get_elem?, ltb, ◌==◌, if◌then◌else◌,
}
use agent_lb_proxy.Prelude.Int.{ℤ, ltb_ℤ}
use agent_lb_proxy.Prelude.Float.{Float64}
use agent_lb_proxy.Prelude.Codes.{codes, contains_sub}
use agent_lb_proxy.Prelude.Outcome.{Outcome, ok, err, panic}
use agent_lb_proxy.Types.{Account, StoreFile, AuthInfo}
use agent_lb_proxy.Policy.{Selection, select_account}
use agent_lb_proxy.Request.{
  is_retryable_status, default_backoff_seconds, should_disable_for_auth_failure,
  is_usage_limit_response,
}
use agent_lb_proxy.Store.Marks.{mark_success, mark_cooldown, mark_disabled}
use agent_lb_proxy.Store.Overrides.{snapshot}
use agent_lb_proxy.Routes.Marks.{mark_local_route_active}
use agent_lb_proxy.Serve.{
  Response, Reply, canceled, failed, answered, AuthError, Site, transport, usage_limit, disabling,
  backing_off, succeeding, Attempt, Incoming, Server, Last, Verdict, done, again,
  parse_retry_after_seconds, is_terminal_refresh_error, http_reason, is_success, present, commit,
  unless_error,
}
use agent_lb_proxy.Serve.Credentials.{load_auth_for_account, try_refresh_account_auth}

pub record Picked (W : Type 0) : Type 0 where
  pub selection : Selection W
  pub account : Account W
  pub auth : AuthInfo

-- The error is that of the refresh, if there was one.
unfoldable pub disabled_reason_for_auth_failure : ℕ → Option AuthError → String
disabled_reason_for_auth_failure status none = http_reason status
disabled_reason_for_auth_failure status (some e) =
    if status == 401 && is_terminal_refresh_error e
    then "refresh-token-reused"
    else http_reason status

unfoldable pub longer : ℤ → ℤ → ℤ
longer a b = if ltb_ℤ a b then b else a

module _ {W : Type 0} where
  -- `markCooldown` at a site of the attempt.
  unfoldable pub cool : Attempt W → Site → String → ℤ → String → Server W → Server W
  cool t site id seconds reason p =
      commit t site (mark_cooldown (t.clock_ns site) id seconds reason) p

  unfoldable pub transport_failed :
      Attempt W → StoreFile W → String → String → Last → Server W → Verdict W
  transport_failed t snap id error last p =
      again (cool t transport id snap.settings.proxy.cooldown_default_s "transport-error" p)
        (record last { error = some error })

  -- The account is disabled, and the response kept for the case that no other account answers.
  unfoldable pub refuse :
      Attempt W → String → Response → Option AuthError → Last → Server W → Verdict W
  refuse t id resp refresh_error last p =
      again
        (commit t disabling
          (mark_disabled id (disabled_reason_for_auth_failure resp.status refresh_error)) p)
        (record last { resp = some resp })

  unfoldable pub finish :
      Attempt W → Incoming → Selection W → String → ℤ → Response → Server W → Verdict W
  finish t req sel id now_ms resp p =
      let increment = req.is_post && contains_sub req.path (codes "responses") in
      let marked =
        commit t succeeding (mark_success now_ms sel.switched sel.switch_reason id increment) p in
      done
        (if is_success resp.status
          then record marked { children = mark_local_route_active id marked.children }
          else p)
        (some (present t resp))

  -- A status that is worth another attempt cools the account down.
  unfoldable pub conclude :
      Attempt W
      → Incoming
      → Selection W
      → String
      → ℤ
      → ℕ
      → ℕ
      → Response
      → Last
      → Server W
      → Verdict W
  conclude t req sel id now_ms attempt max_attempts resp last p =
      let seconds =
        default_backoff_seconds resp.status (parse_retry_after_seconds resp.retry_after) in
      let cooled = cool t backing_off id seconds (http_reason resp.status) p in
      if not (is_retryable_status resp.status)
      then finish t req sel id now_ms resp p
      else if ltb attempt max_attempts
      then again cooled (record last { resp = some (record resp { readable = false }) })
      else finish t req sel id now_ms resp cooled

module _ {W : Type 0} (wide : ℕ → ℕ) where
  -- The reply to the request sent again with the refreshed credentials.
  unfoldable pub judge_second :
      Attempt W
      → Incoming
      → StoreFile W
      → Selection W
      → String
      → ℤ
      → ℕ
      → ℕ
      → Last
      → Server W
      → Reply
      → Verdict W
  judge_second t req snap sel id now_ms attempt max_attempts last p canceled = done p none
  judge_second t req snap sel id now_ms attempt max_attempts last p (failed e) =
      transport_failed t snap id e last p
  judge_second t req snap sel id now_ms attempt max_attempts last p (answered resp) =
      if should_disable_for_auth_failure wide resp.status req.path
      then refuse t id resp none last p
      else conclude t req sel id now_ms attempt max_attempts resp last p

  unfoldable pub retry_refreshed :
      Attempt W
      → Incoming
      → StoreFile W
      → Selection W
      → String
      → ℤ
      → ℕ
      → ℕ
      → Last
      → Server W
      → Verdict W
  retry_refreshed t req snap sel id now_ms attempt max_attempts last p =
      judge_second t req snap sel id now_ms attempt max_attempts last p t.second_reply

  -- The refreshed credentials, or the error of the refresh, decide how the attempt goes on.
  unfoldable pub after_refresh :
      Attempt W
      → Incoming
      → StoreFile W
      → Selection W
      → String
      → ℤ
      → ℕ
      → ℕ
      → Response
      → Last
      → Server W × Outcome AuthError AuthInfo
      → Verdict W
  after_refresh t req snap sel id now_ms attempt max_attempts resp last (p, err e) =
      refuse t id resp (some e) last p
  after_refresh t req snap sel id now_ms attempt max_attempts resp last (p, ok auth) =
      retry_refreshed t req snap sel id now_ms attempt max_attempts last p
  after_refresh t req snap sel id now_ms attempt max_attempts resp last (p, panic) = done p none

  unfoldable pub authorize :
      Attempt W
      → Incoming
      → StoreFile W
      → Picked W
      → ℤ
      → ℕ
      → ℕ
      → Response
      → Last
      → Server W
      → Verdict W
  authorize t req snap k now_ms attempt max_attempts resp last p =
      if should_disable_for_auth_failure wide resp.status req.path
      then after_refresh t req snap k.selection k.account.id now_ms attempt max_attempts resp last
          (try_refresh_account_auth t k.account.id k.auth p)
      else conclude t req k.selection k.account.id now_ms attempt max_attempts resp last p

  unfoldable pub judge :
      Attempt W
      → Incoming
      → StoreFile W
      → Picked W
      → ℤ
      → ℕ
      → ℕ
      → Response
      → Last
      → Server W
      → Verdict W
  judge t req snap k now_ms attempt max_attempts resp last p =
      let seconds =
        longer snap.settings.proxy.cooldown_default_s
          (parse_retry_after_seconds resp.retry_after) in
      let cooled = cool t usage_limit k.account.id seconds "usage-limit" p in
      if not (resp.status == 403 && is_usage_limit_response wide resp.status req.path resp.body)
      then authorize t req snap k now_ms attempt max_attempts resp last p
      else if ltb attempt max_attempts
      then again cooled (record last { resp = some resp })
      else authorize t req snap k now_ms attempt max_attempts resp last cooled

  -- The reply to the first request.
  unfoldable pub judge_first :
      Attempt W
      → Incoming
      → StoreFile W
      → Picked W
      → ℤ
      → ℕ
      → ℕ
      → Last
      → Server W
      → Reply
      → Verdict W
  judge_first t req snap k now_ms attempt max_attempts last p canceled = done p none
  judge_first t req snap k now_ms attempt max_attempts last p (failed e) =
      transport_failed t snap k.account.id e last p
  judge_first t req snap k now_ms attempt max_attempts last p (answered resp) =
      judge t req snap k now_ms attempt max_attempts resp last p

  unfoldable pub handle_http_via_picked_account :
      Attempt W → Incoming → StoreFile W → Picked W → ℤ → ℕ → ℕ → Last → Server W → Verdict W
  handle_http_via_picked_account t req snap k now_ms attempt max_attempts last p =
      unless_error t.rewrite_error last p (
        unless_error t.request_error last p
          (judge_first t req snap k now_ms attempt max_attempts last p t.reply))

module _ {W : Type 0} ⦃f : Float64 W⦄ where
  -- The account, and its credentials.
  unfoldable pub with_auth :
      Selection W
      → Account W
      → Server W × Outcome String AuthInfo
      → Server W × Outcome String (Picked W)
  with_auth sel a (p, ok auth) = (p, ok (record { selection = sel; account = a; auth = auth }))
  with_auth sel a (p, err e) = (p, err e)
  with_auth sel a (p, panic) = (p, panic)

  unfoldable pub pick_account : Attempt W → ℤ → Server W → Server W × Outcome String (Picked W)
  pick_account t now_ms p =
      let snap = snapshot p.store in
      elim (select_account snap now_ms) [
        | err e ↦ (p, err e)
        | panic ↦ (p, panic)
        | ok sel ↦ (elim (get_elem? snap.accounts sel.index) [
          | none ↦ (p, err "invalid selected account index")
          | some a ↦ with_auth sel a (load_auth_for_account t a p)
        ])
      ]
