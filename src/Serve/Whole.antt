-- ===== src/Serve/Whole.antt =====
-- The store stays sound through `handleHTTP`, with its loop over accounts and children.
use agent_lb_proxy.Prelude.{
  ℕ, zero, suc, Bool, true, false, not, ◌&&◌, String, Option, none, some, Bool-cases, inl, inr,
  str_eq, ltb, ◌==◌, get_elem?, if◌then◌else◌,
}
use agent_lb_proxy.Prelude.Int.{ℤ}
use agent_lb_proxy.Prelude.Float.{Float64}
use agent_lb_proxy.Prelude.Outcome.{Outcome, ok, err, panic}
use agent_lb_proxy.Types.{Account, StoreFile, AuthInfo}
use agent_lb_proxy.Policy.{Selection, select_account}
use agent_lb_proxy.Store.Marks.{on_account, mark_disabled, adopt_auth}
use agent_lb_proxy.Store.Overrides.{snapshot}
use agent_lb_proxy.Store.Invariant.{IsSound}
use agent_lb_proxy.Store.History.{disabled, adopted, apply}
use agent_lb_proxy.Routes.{ChildProxyTarget, has_child_proxy_routing}
use agent_lb_proxy.Routes.Select.{Candidate, local, child}
use agent_lb_proxy.Maintain.Kept.{stored}
use agent_lb_proxy.Serve.{
  Response, Reply, canceled, failed, answered, missing, adopting, Attempt, Incoming, Server, Last,
  Verdict, done, again, stop, is_success, is_retryable_child_proxy_status, commit,
}
use agent_lb_proxy.Serve.Credentials.{load_auth_for_account}
use agent_lb_proxy.Serve.Account.{Picked, with_auth, pick_account}
use agent_lb_proxy.Serve.Child.{
  route_or_error, select_route, finish_child, cool_child, judge_child, judge_child_reply,
  handle_http_via_selected_child_route,
}
use agent_lb_proxy.Serve.Loop.{
  Written, continue_with, via_local_route, via_route, via_picked, try_once, attempts, handle_http,
}
use agent_lb_proxy.Serve.Sound.{
  IsSoundAfter, commit-IsSound, IsSoundAfter-if, server_if-IsSound, unless_error-IsSoundAfter,
  handle_http_via_picked_account-IsSoundAfter,
}

module _ {W : Type 0} where
  load_auth_for_account-IsSound :
      (t : Attempt W) (a : Account W) (p : Server W)
      → IsSound (stored p)
      → IsSound (stored (load_auth_for_account t a p).0)
  unfolding load_auth_for_account apply
  load_auth_for_account-IsSound t a p v =
      elim (t.loaded)
        as (λ o. IsSound (
          stored
            (elim o as (λ x. Server W × Outcome String AuthInfo) [
              | err e ↦ (commit t missing (mark_disabled a.id "missing-auth") p, err e.message)
              | panic ↦ (p, panic)
              | ok auth ↦
                  if not (str_eq auth.chatgpt_account_id "")
                    && not (str_eq auth.chatgpt_account_id a.chatgpt_account_id)
                  then (commit t adopting (on_account a.id (adopt_auth auth)) p, ok auth)
                  else (p, ok auth)
            ]).0)) [
              | err e ↦ commit-IsSound t missing (disabled a.id "missing-auth") p tt v
              | panic ↦ v
              | ok auth ↦
                  chosen
                    (not (str_eq auth.chatgpt_account_id "")
                      && not (str_eq auth.chatgpt_account_id a.chatgpt_account_id))
                    auth
            ]
    where
      chosen :
          (b : Bool) (auth : AuthInfo)
          → IsSound (
              stored
                (if◌then◌else◌ {A = Server W × Outcome String AuthInfo} b
                  (commit t adopting (on_account a.id (adopt_auth auth)) p, ok auth)
                  (p, ok auth)).0)
      chosen true auth = commit-IsSound t adopting (adopted a.id auth) p tt v
      chosen false auth = v

  finish_child-IsSoundAfter :
      (t : Attempt W) (reason url : String) (now_ms : ℤ) (resp : Response) (p : Server W)
      → IsSound (stored p)
      → IsSoundAfter (finish_child t reason url now_ms resp p)
  unfolding finish_child
  finish_child-IsSoundAfter t reason url now_ms resp p v =
      server_if-IsSound (is_success resp.status) _ p v v

  judge_child_reply-IsSoundAfter :
      (t : Attempt W) (snap : StoreFile W) (sel : Selection W) (c : ChildProxyTarget W) (now_ms : ℤ)
      (attempt max_attempts : ℕ) (last : Last) (p : Server W) (r : Reply)
      → IsSound (stored p)
      → IsSoundAfter (judge_child_reply t snap sel c now_ms attempt max_attempts last p r)
  unfolding judge_child_reply judge_child cool_child
  judge_child_reply-IsSoundAfter t snap sel c now_ms attempt max_attempts last p canceled v = v
  judge_child_reply-IsSoundAfter t snap sel c now_ms attempt max_attempts last p (failed e) v = v
  judge_child_reply-IsSoundAfter t snap sel c now_ms attempt max_attempts last p (answered resp) v =
      IsSoundAfter-if (not (is_retryable_child_proxy_status resp.status)) _ _
        (finish_child-IsSoundAfter t sel.switch_reason c.url now_ms resp p v)
        (IsSoundAfter-if (ltb attempt max_attempts) _ _ v
          (finish_child-IsSoundAfter t sel.switch_reason c.url now_ms resp _ v))

module _ {W : Type 0} ⦃f : Float64 W⦄ where
  with_auth-IsSound :
      (sel : Selection W) (a : Account W) (o : Server W × Outcome String AuthInfo)
      → IsSound (stored o.0)
      → IsSound (stored (with_auth sel a o).0)
  unfolding with_auth
  with_auth-IsSound sel a (p, ok auth) v = v
  with_auth-IsSound sel a (p, err e) v = v
  with_auth-IsSound sel a (p, panic) v = v

  route_or_error-IsSound :
      (p : Server W) (o : Outcome String (Option (Selection W × Candidate W)))
      → IsSound (stored p)
      → IsSound (stored (route_or_error p o).0)
  unfolding route_or_error
  route_or_error-IsSound p (ok none) v = v
  route_or_error-IsSound p (ok (some route)) v = v
  route_or_error-IsSound p (err e) v = v
  route_or_error-IsSound p panic v = v

  select_route-IsSound :
      (t : Attempt W) (snap : StoreFile W) (now_ms : ℤ) (force : Bool) (p : Server W)
      → IsSound (stored p)
      → IsSound (stored (select_route t snap now_ms force p).0)
  unfolding select_route
  select_route-IsSound t snap now_ms force p v =
      elim (Bool-cases (force && has_child_proxy_routing snap)) [
        | inl e ↦ rw e (route_or_error-IsSound _ _ v)
        | inr e ↦ rw e (route_or_error-IsSound p _ v)
      ]

  abbrev at_index :
      Attempt W → Server W → Selection W → Option (Account W) → Server W × Outcome String (Picked W)
  at_index t p sel none = (p, err "invalid selected account index")
  at_index t p sel (some a) = with_auth sel a (load_auth_for_account t a p)

  pick_account-IsSound :
      (t : Attempt W) (now_ms : ℤ) (p : Server W)
      → IsSound (stored p)
      → IsSound (stored (pick_account t now_ms p).0)
  unfolding pick_account
  pick_account-IsSound t now_ms p v =
      elim (select_account (snapshot p.store) now_ms)
        as (λ o. IsSound (
          stored
            (elim o as (λ x. Server W × Outcome String (Picked W)) [
              | err e ↦ (p, err e)
              | panic ↦ (p, panic)
              | ok sel ↦ at_index t p sel (get_elem? (snapshot p.store).accounts sel.index)
            ]).0)) [
              | err e ↦ v
              | panic ↦ v
              | ok sel ↦ sound_at sel (get_elem? (snapshot p.store).accounts sel.index)
            ]
    where
      sound_at :
          (sel : Selection W) (o : Option (Account W)) → IsSound (stored (at_index t p sel o).0)
      sound_at sel none = v
      sound_at sel (some a) = with_auth-IsSound sel a _ (load_auth_for_account-IsSound t a p v)

  module _ (wide : ℕ → ℕ) where
    via_route-IsSoundAfter :
        (t : Attempt W) (req : Incoming) (snap : StoreFile W) (now_ms : ℤ)
        (attempt max_attempts : ℕ) (last : Last)
        (o : Server W × Outcome String (Selection W × Candidate W))
        → IsSound (stored o.0)
        → IsSoundAfter (via_route wide t req snap now_ms attempt max_attempts last o)
    unfolding via_route via_local_route handle_http_via_selected_child_route
    via_route-IsSoundAfter t req snap now_ms attempt max_attempts last (p, ok (sel, local i a)) v =
        local_route _ (with_auth-IsSound sel a _ (load_auth_for_account-IsSound t a p v))
      where
        local_route :
            (o : Server W × Outcome String (Picked W))
            → IsSound (stored o.0)
            → IsSoundAfter (via_local_route wide t req snap now_ms attempt max_attempts last o)
        local_route (q, ok k) u =
            handle_http_via_picked_account-IsSoundAfter wide t req snap now_ms attempt max_attempts
              last k q u
        local_route (q, err e) u = u
        local_route (q, panic) u = u
    via_route-IsSoundAfter t req snap now_ms attempt max_attempts last (p, ok (sel, child c)) v =
        unless_error-IsSoundAfter t.rewrite_error last p _ v (
          unless_error-IsSoundAfter t.request_error last p _ v (
            judge_child_reply-IsSoundAfter t snap sel c now_ms attempt max_attempts last p t.reply
              v))
    via_route-IsSoundAfter t req snap now_ms attempt max_attempts last (p, err e) v = v
    via_route-IsSoundAfter t req snap now_ms attempt max_attempts last (p, panic) v = v

    via_picked-IsSoundAfter :
        (t : Attempt W) (req : Incoming) (snap : StoreFile W) (now_ms : ℤ)
        (attempt max_attempts : ℕ) (last : Last) (o : Server W × Outcome String (Picked W))
        → IsSound (stored o.0)
        → IsSoundAfter (via_picked wide t req snap now_ms attempt max_attempts last o)
    unfolding via_picked
    via_picked-IsSoundAfter t req snap now_ms attempt max_attempts last (p, ok k) v =
        handle_http_via_picked_account-IsSoundAfter wide t req snap now_ms attempt max_attempts last
          k p v
    via_picked-IsSoundAfter t req snap now_ms attempt max_attempts last (p, err e) v = v
    via_picked-IsSoundAfter t req snap now_ms attempt max_attempts last (p, panic) v = v

    try_once-IsSoundAfter :
        (t : Attempt W) (req : Incoming) (now_ms : ℤ) (attempt max_attempts : ℕ) (last : Last)
        (p : Server W)
        → IsSound (stored p)
        → IsSoundAfter (try_once wide t req now_ms attempt max_attempts last p)
    unfolding try_once
    try_once-IsSoundAfter t req now_ms attempt max_attempts last p v =
        IsSoundAfter-if (has_child_proxy_routing (snapshot p.store)) _ _
          (via_route-IsSoundAfter t req (snapshot p.store) now_ms attempt max_attempts last _
            (select_route-IsSound t (snapshot p.store) now_ms (attempt == 1) p v))
          (via_picked-IsSoundAfter t req (snapshot p.store) now_ms attempt max_attempts last _
            (pick_account-IsSound t now_ms p v))

    continue_with-IsSound :
        (rest : Last → Server W → Server W × Written) (v : Verdict W)
        → ((last : Last) (p : Server W) → IsSound (stored p) → IsSound (stored (rest last p).0))
        → IsSoundAfter v
        → IsSound (stored (continue_with rest v).0)
    unfolding continue_with
    continue_with-IsSound rest (done p resp) h v = v
    continue_with-IsSound rest (again p last) h v = h last p v
    continue_with-IsSound rest (stop p last) h v = v

    attempts-IsSound :
        (turns : ℕ → Attempt W) (req : Incoming) (now_ms : ℤ) (max_attempts left attempt : ℕ)
        (last : Last) (p : Server W)
        → IsSound (stored p)
        → IsSound (stored (attempts wide turns req now_ms max_attempts left attempt last p).0)
    unfolding attempts
    attempts-IsSound turns req now_ms max_attempts zero attempt last p v = v
    attempts-IsSound turns req now_ms max_attempts (suc left) attempt last p v =
        continue_with-IsSound _ _
          (attempts-IsSound turns req now_ms max_attempts left (suc attempt))
          (try_once-IsSoundAfter (turns attempt) req now_ms attempt max_attempts last p v)

    -- A request, with all its attempts over accounts and children, keeps the store sound, whatever the
    -- clock, the files, the refreshes of credentials and the replies of upstream give, and whichever
    -- writes of store.json fail.
    pub handle_http-IsSound :
        (turns : ℕ → Attempt W) (req : Incoming) (now_ms : ℤ) (p : Server W)
        → IsSound (stored p)
        → IsSound (stored (handle_http wide turns req now_ms p).0)
    unfolding handle_http
    handle_http-IsSound turns req now_ms p v = attempts-IsSound turns req now_ms _ _ 1 _ p v
