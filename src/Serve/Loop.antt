-- ===== src/Serve/Loop.antt =====
-- `handleHTTP` of internal/lb/proxy.go: the loop over the attempts, and what is written in the end.
use agent_lb_proxy.Prelude.{ℕ, zero, suc, String, Option, none, some, ◌==◌, if◌then◌else◌}
use agent_lb_proxy.Prelude.Int.{ℤ, pos, pos_part, ltb_ℤ}
use agent_lb_proxy.Prelude.Float.{Float64}
use agent_lb_proxy.Prelude.Outcome.{Outcome, ok, err, panic}
use agent_lb_proxy.Types.{StoreFile}
use agent_lb_proxy.Policy.{Selection}
use agent_lb_proxy.Store.Overrides.{snapshot}
use agent_lb_proxy.Routes.{has_child_proxy_routing}
use agent_lb_proxy.Routes.Select.{Candidate, local, child}
use agent_lb_proxy.Serve.{Response, Attempt, Incoming, Server, Last, Verdict, done, again, stop}
use agent_lb_proxy.Serve.Credentials.{load_auth_for_account}
use agent_lb_proxy.Serve.Account.{Picked, handle_http_via_picked_account, pick_account, with_auth}
use agent_lb_proxy.Serve.Child.{select_route, handle_http_via_selected_child_route}

-- What the client gets: nothing, a response, or an error text with its status.
pub data Written : Type 0 where
  silent : Written
  wrote : Response → Written
  refused : ℕ → String → Written

-- The lines after the loop.
unfoldable pub last_words : Last → Written
last_words last = elim (last.resp) [
  | some resp ↦ wrote resp
  | none ↦ (elim (last.error) [
    | some e ↦ refused 503 e
    | none ↦ refused 503 "no account available"
  ])
]

unfoldable pub written : Option Response → Written
written none = silent
written (some resp) = wrote resp

unfoldable pub max_attempts_of : {W : Type 0} → StoreFile W → ℕ
max_attempts_of sf =
    if ltb_ℤ (pos 1) sf.settings.proxy.max_attempts
    then pos_part sf.settings.proxy.max_attempts
    else 1

-- How the loop goes on after an attempt; `rest` is the next one.
unfoldable pub continue_with :
    {W : Type 0} → (Last → Server W → Server W × Written) → Verdict W → Server W × Written
continue_with rest (done p resp) = (p, written resp)
continue_with rest (again p last) = rest last p
continue_with rest (stop p last) = (p, last_words last)

module _ {W : Type 0} ⦃f : Float64 W⦄ (wide : ℕ → ℕ) where
  -- `handleHTTPViaSelectedLocalRoute`, once the credentials are loaded.
  unfoldable pub via_local_route :
      Attempt W
      → Incoming
      → StoreFile W
      → ℤ
      → ℕ
      → ℕ
      → Last
      → Server W × Outcome String (Picked W)
      → Verdict W
  via_local_route t req snap now_ms attempt max_attempts last (p, ok k) =
      handle_http_via_picked_account wide t req snap k now_ms attempt max_attempts last p
  via_local_route t req snap now_ms attempt max_attempts last (p, err e) =
      again p (record last { error = some e })
  via_local_route t req snap now_ms attempt max_attempts last (p, panic) = done p none

  unfoldable pub via_route :
      Attempt W
      → Incoming
      → StoreFile W
      → ℤ
      → ℕ
      → ℕ
      → Last
      → Server W × Outcome String (Selection W × Candidate W)
      → Verdict W
  via_route t req snap now_ms attempt max_attempts last (p, ok (sel, local i a)) =
      via_local_route t req snap now_ms attempt max_attempts last
        (with_auth sel a (load_auth_for_account t a p))
  via_route t req snap now_ms attempt max_attempts last (p, ok (sel, child target)) =
      handle_http_via_selected_child_route t snap sel target now_ms attempt max_attempts last p
  via_route t req snap now_ms attempt max_attempts last (p, err e) =
      stop p (record last { error = some e })
  via_route t req snap now_ms attempt max_attempts last (p, panic) = done p none

  -- Without children, a selection that fails ends the loop, also when it is `LoadAuth` that fails.
  unfoldable pub via_picked :
      Attempt W
      → Incoming
      → StoreFile W
      → ℤ
      → ℕ
      → ℕ
      → Last
      → Server W × Outcome String (Picked W)
      → Verdict W
  via_picked t req snap now_ms attempt max_attempts last (p, ok k) =
      handle_http_via_picked_account wide t req snap k now_ms attempt max_attempts last p
  via_picked t req snap now_ms attempt max_attempts last (p, err e) =
      stop p (record last { error = some e })
  via_picked t req snap now_ms attempt max_attempts last (p, panic) = done p none

  -- The body of the loop.
  unfoldable pub try_once : Attempt W → Incoming → ℤ → ℕ → ℕ → Last → Server W → Verdict W
  try_once t req now_ms attempt max_attempts last p =
      let snap = snapshot p.store in
      if has_child_proxy_routing snap
      then via_route t req snap now_ms attempt max_attempts last
          (select_route t snap now_ms (attempt == 1) p)
      else via_picked t req snap now_ms attempt max_attempts last (pick_account t now_ms p)

  -- `left` counts the attempts from this one on: `max_attempts - attempt + 1`.
  unfoldable pub attempts :
      (ℕ → Attempt W) → Incoming → ℤ → ℕ → ℕ → ℕ → Last → Server W → Server W × Written
  attempts turns req now_ms max_attempts zero attempt last p = (p, last_words last)
  attempts turns req now_ms max_attempts (suc left) attempt last p =
      continue_with (λ last' p'. attempts turns req now_ms max_attempts left (suc attempt) last' p')
        (try_once (turns attempt) req now_ms attempt max_attempts last p)

  unfoldable pub handle_http : (ℕ → Attempt W) → Incoming → ℤ → Server W → Server W × Written
  handle_http turns req now_ms p =
      let max_attempts = max_attempts_of (snapshot p.store) in
      attempts turns req now_ms max_attempts max_attempts 1 (record { resp = none; error = none }) p
