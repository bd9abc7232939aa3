-- ===== src/Routes/Marks.antt =====
-- What the proxy records of its children (internal/lb/child_proxy.go): each operation holds the mutex
-- from its first read to its last write. `now_ns` is the clock in nanoseconds since 1970.
use agent_lb_proxy.Prelude.{
  Bool, true, false, not, ◌&&◌, String, Option, none, some, str_eq, if◌then◌else◌,
}
use agent_lb_proxy.Prelude.Int.{ℤ, pos, ltb_ℤ, leb_ℤ, ◌-ℤ◌}
use agent_lb_proxy.Prelude.Text.{trim_space}
use agent_lb_proxy.Prelude.Outcome.{Outcome, ok, err}
use agent_lb_proxy.Store.Marks.{cooldown_deadline}
use agent_lb_proxy.Status.{ProxyStatus}
use agent_lb_proxy.Routes.{ChildProxyRuntime, ChildProxies, child_route_id, account_route_id}

-- How a request for `/status?refresh=1` of a child ends: an error of the transport or of the
-- decoding or a status other than 200, with the text recorded and the text returned, or a document.
pub data FetchReply (W : Type 0) : Type 0 where
  failed : String → String → FetchReply W
  fetched : ProxyStatus W → FetchReply W

module _ {W : Type 0} where
  unfoldable pub set_state : String → ChildProxyRuntime W → ChildProxies W → ChildProxies W
  set_state url state c = record c {
    states = λ other. if str_eq other url then state else c.states other;
  }

  unfoldable pub expire_child_proxy_cooldown : ℤ → ChildProxyRuntime W → ChildProxyRuntime W
  expire_child_proxy_cooldown now_ms state = record state {
    cooldown_until_ms =
        if ltb_ℤ (pos 0) state.cooldown_until_ms && leb_ℤ state.cooldown_until_ms now_ms
        then pos 0
        else state.cooldown_until_ms;
  }

  unfoldable pub expire_child_proxy_cooldowns : ℤ → ChildProxies W → ChildProxies W
  expire_child_proxy_cooldowns now_ms c = record c {
    states = λ url. expire_child_proxy_cooldown now_ms (c.states url);
  }

  -- A status at most 15 seconds old stands in for one that cannot be fetched.
  unfoldable pub child_proxy_status_fallback : ChildProxyRuntime W → ℤ → Option (ProxyStatus W)
  child_proxy_status_fallback state now_ns = elim state.status_fetched_at [
    | none ↦ none
    | some at ↦
        if not state.reachable
        then none
        else if ltb_ℤ (pos 15000000000) (now_ns -ℤ at)
        then none
        else some state.status
  ]

  -- `none` is a status that was not reached.
  unfoldable pub record_child_proxy_status :
      String → Option (ProxyStatus W) → ℤ → String → ChildProxies W → ChildProxies W
  record_child_proxy_status proxy_url status fetched_at last_error c =
      let state = c.states proxy_url in
      let seen : ChildProxyRuntime W = record state {
        last_error = trim_space last_error;
        status_fetched_at = some fetched_at;
      } in
      set_state proxy_url
        (elim status [
          | none ↦ record seen { reachable = false }
          | some s ↦ record seen { reachable = true; status = s }
        ])
        c

  -- `ended_ns` is the clock after the request.
  unfoldable pub fetch_child_proxy_status :
      Bool
      → ℤ
      → ℤ
      → FetchReply W
      → String
      → ChildProxies W
      → ChildProxies W × Outcome String (ProxyStatus W)
  fetch_child_proxy_status force_refresh now_ns ended_ns reply proxy_url c =
      let state = c.states proxy_url in
      let fresh : Bool = elim state.status_fetched_at [
        | none ↦ false
        | some at ↦ ltb_ℤ (now_ns -ℤ at) (pos 1000000000)
      ] in
      if not force_refresh && state.reachable && fresh then (c, ok state.status) else (elim reply [
        | fetched s ↦ (record_child_proxy_status proxy_url (some s) ended_ns "" c, ok s)
        | failed noted e ↦ (elim (child_proxy_status_fallback state now_ns) [
          | some old ↦ (c, ok old)
          | none ↦ (record_child_proxy_status proxy_url none ended_ns noted c, err e)
        ])
      ])

  unfoldable pub mark_child_proxy_success : String → String → ℤ → ChildProxies W → ChildProxies W
  mark_child_proxy_success reason proxy_url now_ms c =
      record (set_state proxy_url
        (record (c.states proxy_url) {
          cooldown_until_ms = pos 0;
          last_used_at_ms = now_ms;
          last_switch_reason = reason;
          last_error = "";
          reachable = true;
        })
        c) { active_url = proxy_url; active_route_id = child_route_id proxy_url }

  unfoldable pub mark_child_proxy_cooldown :
      ℤ → String → ℤ → String → String → ChildProxies W → ChildProxies W
  mark_child_proxy_cooldown clock_ns proxy_url seconds reason last_error c =
      set_state proxy_url
        (record (c.states proxy_url) {
          cooldown_until_ms =
              cooldown_deadline clock_ns (if leb_ℤ seconds (pos 0) then pos 1 else seconds);
          last_switch_reason = reason;
          last_error = trim_space last_error;
        })
        c

  unfoldable pub mark_local_route_active : String → ChildProxies W → ChildProxies W
  mark_local_route_active id c = record c { active_route_id = account_route_id id }
