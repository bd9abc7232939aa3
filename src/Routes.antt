-- ===== src/Routes.antt =====
-- internal/lb/child_proxy.go: the child proxies of a proxy, and the choice of a route, which is an
-- account of the store or a child. The map of the children's states is a function, as a missing key
-- reads as the zero value, and the mutex that guards it makes each operation one step.
pub mod Select
pub mod Marks
pub mod Safety
use Prim.Native.String.{◌++◌ as append}
use agent_lb_proxy.Prelude.{
  ℕ, suc, Bool, true, false, not, ◌&&◌, ◌||◌, String, Option, none, some, List, [], ◌∷◌, ◌++◌, map,
  length, get_elem?, str_eq, ◌==◌, ltb, if◌then◌else◌,
}
use agent_lb_proxy.Prelude.Int.{ℤ, pos, pos_part, ltb_ℤ, leb_ℤ, ◌+ℤ◌, wrap64}
use agent_lb_proxy.Prelude.Float.{Float64, of_int, add, sub, mul, div}
use agent_lb_proxy.Prelude.Text.{trim_space}
use agent_lb_proxy.Policy.Score.{clamp01}
use agent_lb_proxy.Types.{Account, StoreFile}
use agent_lb_proxy.Status.{AccountStatus, ChildProxyStatus, ProxyStatus, cooldown_seconds_left}

-- `status_fetched_at` is the time in nanoseconds, `none` for the zero time.
pub record ChildProxyRuntime (W : Type 0) : Type 0 where
  pub cooldown_until_ms : ℤ
  pub last_used_at_ms : ℤ
  pub last_switch_reason : String
  pub last_error : String
  pub reachable : Bool
  pub status : ProxyStatus W
  pub status_fetched_at : Option ℤ

pub record ChildProxyTarget (W : Type 0) : Type 0 where
  pub name : String
  pub url : String
  pub active : Bool
  pub healthy : Bool
  pub reachable : Bool
  pub cooldown_until_ms : ℤ
  pub last_used_at_ms : ℤ
  pub score : W
  pub selected_target : String
  pub selection_reason : String
  pub last_switch_reason : String
  pub last_error : String
  pub accounts : List (AccountStatus W)

-- The fields of `ProxyServer` that `childProxyMu` guards.
pub record ChildProxies (W : Type 0) : Type 0 where
  pub states : String → ChildProxyRuntime W
  pub active_url : String
  pub active_route_id : String

unfoldable pub child_route_id : String → String
child_route_id url = append "child:" (trim_space url)

unfoldable pub account_route_id : String → String
account_route_id id = append "account:" (trim_space id)

unfoldable pub first_non_empty : List String → String
first_non_empty [] = ""
first_non_empty (value ∷ values) =
    if not (str_eq (trim_space value) "") then value else first_non_empty values

-- A child that is not reachable, or not healthy, cools down for at least another millisecond.
unfoldable pub fenced_cooldown : Bool → Bool → ℤ → ℤ → ℤ
fenced_cooldown reachable healthy until_ms now_ms =
    if not reachable || not healthy
    then (if leb_ℤ until_ms now_ms then wrap64 (now_ms +ℤ pos 1) else until_ms)
    else until_ms

module _ {W : Type 0} where
  unfoldable pub has_child_proxy_routing : StoreFile W → Bool
  has_child_proxy_routing sf = ltb 0 (length sf.settings.proxy.child_proxy_urls)

  unfoldable pub current_active_route_id : ChildProxies W → StoreFile W → String
  current_active_route_id c sf =
      if not (str_eq (trim_space c.active_route_id) "")
      then c.active_route_id
      else if not (str_eq (trim_space c.active_url) "")
      then child_route_id c.active_url
      else if leb_ℤ (pos 0) sf.state.active_index
          && ltb_ℤ sf.state.active_index (pos (length sf.accounts))
      then (elim (get_elem? sf.accounts (pos_part sf.state.active_index)) [
        | none ↦ ""
        | some a ↦ account_route_id a.id
      ])
      else ""

module _ {W : Type 0} ⦃f : Float64 W⦄ where
  unfoldable pub child_proxy_target_from_state :
      String → String → ChildProxyRuntime W → ChildProxyTarget W
  child_proxy_target_from_state proxy_url active_url state = record {
    name = "";
    url = proxy_url;
    active = str_eq proxy_url active_url;
    healthy = false;
    reachable = state.reachable;
    cooldown_until_ms = state.cooldown_until_ms;
    last_used_at_ms = state.last_used_at_ms;
    score = of_int (pos 0);
    selected_target = "";
    selection_reason = "";
    last_switch_reason = state.last_switch_reason;
    last_error = state.last_error;
    accounts = [];
  }

  -- The two loops of `summarizeProxyCapacity`: the sum of the scores and the count.
  unfoldable pub accounts_capacity : W → ℕ → List (AccountStatus W) → W × ℕ
  accounts_capacity total count [] = (total, count)
  accounts_capacity total count (a ∷ accounts) =
      let skipped = not a.healthy || not a.enabled || not (str_eq a.disabled_reason "") in
      accounts_capacity (if skipped then total else add total (clamp01 a.score))
        (if skipped then count else suc count) accounts

  unfoldable pub children_capacity : W → ℕ → List (ChildProxyStatus W) → W × ℕ
  children_capacity total count [] = (total, count)
  children_capacity total count (c ∷ children) =
      children_capacity (if c.healthy then add total (clamp01 c.score) else total)
        (if c.healthy then suc count else count) children

  -- The score; `none` where the source returns false. `SelectedTarget` of the summary has no reader.
  unfoldable pub summarize_proxy_capacity : ProxyStatus W → Option W
  summarize_proxy_capacity status =
      let (total, count) = accounts_capacity (of_int (pos 0)) 0 status.accounts in
      let (total', count') =
        if count == 0 then children_capacity total count status.child_proxies else (total, count) in
      if count' == 0 then none else some (div total' (of_int (pos count')))

  unfoldable pub apply_child_proxy_status :
      ChildProxyTarget W → ProxyStatus W → ℤ → ChildProxyTarget W
  apply_child_proxy_status target status now_ms =
      let known : ChildProxyTarget W = record target {
        name = trim_space status.proxy_name;
        accounts = status.accounts;
        reachable = true;
        selection_reason = status.selection_reason;
        selected_target =
            if str_eq status.selected_account_id ""
            then status.selected_proxy_url
            else status.selected_account_id;
      } in
      elim (summarize_proxy_capacity status) [
        | some score ↦ record known {
          score = score;
          healthy = leb_ℤ target.cooldown_until_ms now_ms;
          last_error = "";
        }
        | none ↦ record known { healthy = false; last_error = "child proxy has no healthy targets" }
      ]

  -- One turn of the loop of `cachedChildProxyTargets`.
  unfoldable pub cached_child_proxy_target : ChildProxies W → ℤ → String → ChildProxyTarget W
  cached_child_proxy_target c now_ms proxy_url =
      let state = c.states proxy_url in
      let target = child_proxy_target_from_state proxy_url c.active_url state in
      elim state.status_fetched_at [
        | none ↦ target
        | some fetched ↦
            if state.reachable then apply_child_proxy_status target state.status now_ms else target
      ]

  unfoldable pub cached_child_proxy_targets :
      ChildProxies W → StoreFile W → ℤ → List (ChildProxyTarget W)
  cached_child_proxy_targets c sf now_ms =
      map (cached_child_proxy_target c now_ms) sf.settings.proxy.child_proxy_urls

  unfoldable pub child_proxy_status_view : ChildProxyTarget W → ℤ → ChildProxyStatus W
  child_proxy_status_view target now_ms = record {
    name = if str_eq (trim_space target.name) "" then target.url else target.name;
    url = target.url;
    active = target.active;
    healthy = target.healthy;
    reachable = target.reachable;
    cooldown_seconds = cooldown_seconds_left target.cooldown_until_ms now_ms;
    score = target.score;
    selected_target = target.selected_target;
    selection_reason = target.selection_reason;
    last_switch_reason = target.last_switch_reason;
    last_error = target.last_error;
  }
