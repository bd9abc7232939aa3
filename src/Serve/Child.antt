-- ===== src/Serve/Child.antt =====
-- One attempt with a child proxy: `childProxyTargets`, `selectRoute` and
-- `handleHTTPViaSelectedChildRoute` of internal/lb/child_proxy.go. The requests for the status of the
-- children run side by side in the source, each on the state of its own child; here they are made in
-- the order of the list.
use agent_lb_proxy.Prelude.{
  ℕ, Bool, true, false, not, ◌&&◌, String, Option, none, some, List, [], ◌∷◌, ltb, if◌then◌else◌,
}
use agent_lb_proxy.Prelude.Int.{ℤ}
use agent_lb_proxy.Prelude.Float.{Float64}
use agent_lb_proxy.Prelude.Outcome.{Outcome, ok, err, panic}
use agent_lb_proxy.Types.{StoreFile}
use agent_lb_proxy.Policy.{Selection}
use agent_lb_proxy.Request.{default_backoff_seconds}
use agent_lb_proxy.Status.{ProxyStatus}
use agent_lb_proxy.Routes.{
  ChildProxies, ChildProxyTarget, has_child_proxy_routing, child_proxy_target_from_state,
  apply_child_proxy_status, cached_child_proxy_targets,
}
use agent_lb_proxy.Routes.Select.{Candidate, select_route_from_targets}
use agent_lb_proxy.Routes.Marks.{
  fetch_child_proxy_status, mark_child_proxy_success, mark_child_proxy_cooldown,
}
use agent_lb_proxy.Serve.{
  Response, Reply, canceled, failed, answered, Site, transport, backing_off, Attempt, Server, Last,
  Verdict, done, again, parse_retry_after_seconds, http_reason, status_text, is_success,
  is_retryable_child_proxy_status, present, unless_error,
}

module _ {W : Type 0} ⦃f : Float64 W⦄ where
  unfoldable pub with_status :
      ℤ → ChildProxyTarget W → Outcome String (ProxyStatus W) → ChildProxyTarget W
  with_status now_ms target (ok status) = apply_child_proxy_status target status now_ms
  with_status now_ms target (err e) = record target {
    healthy = false;
    reachable = false;
    last_error = e;
  }
  with_status now_ms target panic = target

  -- `before` is the copy of the states that is taken first.
  unfoldable pub fetch_targets :
      Attempt W
      → ℤ
      → ChildProxies W
      → List String
      → ChildProxies W
      → ChildProxies W × List (ChildProxyTarget W)
  fetch_targets t now_ms before [] c = (c, [])
  fetch_targets t now_ms before (url ∷ urls) c =
      let (c', status) =
        fetch_child_proxy_status true (t.fetch_started_ns url) (t.fetch_ended_ns url) (t.fetch url)
          url c in
      let (c'', targets) = fetch_targets t now_ms before urls c' in
      (
        c'',
        with_status now_ms (child_proxy_target_from_state url before.active_url (before.states url))
              status
            ∷ targets,
      )

  -- The error is that nothing is healthy.
  unfoldable pub route_or_error :
      Server W
      → Outcome String (Option (Selection W × Candidate W))
      → Server W × Outcome String (Selection W × Candidate W)
  route_or_error p (ok none) = (p, err "no healthy accounts")
  route_or_error p (ok (some route)) = (p, ok route)
  route_or_error p (err e) = (p, err e)
  route_or_error p panic = (p, panic)

  unfoldable pub select_route :
      Attempt W
      → StoreFile W
      → ℤ
      → Bool
      → Server W
      → Server W × Outcome String (Selection W × Candidate W)
  select_route t snap now_ms force_refresh p =
      let (c, fetched) =
        fetch_targets t now_ms p.children snap.settings.proxy.child_proxy_urls p.children in
      if force_refresh && has_child_proxy_routing snap
      then route_or_error (record p { children = c })
          (select_route_from_targets c snap now_ms fetched)
      else route_or_error p (
          select_route_from_targets p.children snap now_ms
            (cached_child_proxy_targets p.children snap now_ms))

module _ {W : Type 0} where
  -- A child that answers is done; a 2xx makes it the active route.
  unfoldable pub finish_child : Attempt W → String → String → ℤ → Response → Server W → Verdict W
  finish_child t reason url now_ms resp p =
      done
        (if is_success resp.status
          then record p { children = mark_child_proxy_success reason url now_ms p.children }
          else p)
        (some (present t resp))

  unfoldable pub cool_child : Attempt W → Site → String → ℤ → String → String → Server W → Server W
  cool_child t site url seconds reason last_error p = record p {
    children = mark_child_proxy_cooldown (t.clock_ns site) url seconds reason last_error p.children;
  }

  unfoldable pub judge_child :
      Attempt W → String → String → ℤ → ℕ → ℕ → Response → Last → Server W → Verdict W
  judge_child t reason url now_ms attempt max_attempts resp last p =
      let seconds =
        default_backoff_seconds resp.status (parse_retry_after_seconds resp.retry_after) in
      let cooled =
        cool_child t backing_off url seconds (http_reason resp.status) (status_text resp.status)
          p in
      if not (is_retryable_child_proxy_status resp.status)
      then finish_child t reason url now_ms resp p
      else if ltb attempt max_attempts
      then again cooled (record last { resp = some (record resp { readable = false }) })
      else finish_child t reason url now_ms resp cooled

  unfoldable pub judge_child_reply :
      Attempt W
      → StoreFile W
      → Selection W
      → ChildProxyTarget W
      → ℤ
      → ℕ
      → ℕ
      → Last
      → Server W
      → Reply
      → Verdict W
  judge_child_reply t snap sel child now_ms attempt max_attempts last p canceled = done p none
  judge_child_reply t snap sel child now_ms attempt max_attempts last p (failed e) =
      again
        (cool_child t transport child.url snap.settings.proxy.cooldown_default_s "transport-error" e
          p)
        (record last { error = some e })
  judge_child_reply t snap sel child now_ms attempt max_attempts last p (answered resp) =
      judge_child t sel.switch_reason child.url now_ms attempt max_attempts resp last p

  unfoldable pub handle_http_via_selected_child_route :
      Attempt W
      → StoreFile W
      → Selection W
      → ChildProxyTarget W
      → ℤ
      → ℕ
      → ℕ
      → Last
      → Server W
      → Verdict W
  handle_http_via_selected_child_route t snap sel child now_ms attempt max_attempts last p =
      unless_error t.rewrite_error last p (
        unless_error t.request_error last p
          (judge_child_reply t snap sel child now_ms attempt max_attempts last p t.reply))
