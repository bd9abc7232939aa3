-- ===== src/Serve/Sound.antt =====
-- The store stays sound through an attempt of `handleHTTP` with an account.
use agent_lb_proxy.Prelude.{
  ℕ, Bool, true, false, not, ◌&&◌, String, Option, none, some, ltb, ◌==◌, if◌then◌else◌,
}
use agent_lb_proxy.Prelude.Int.{ℤ}
use agent_lb_proxy.Prelude.Outcome.{Outcome, ok, err, panic}
use agent_lb_proxy.Types.{StoreFile, AuthInfo}
use agent_lb_proxy.Policy.{Selection}
use agent_lb_proxy.Request.{
  should_disable_for_auth_failure, is_usage_limit_response, is_retryable_status,
}
use agent_lb_proxy.Store.Invariant.{IsSound}
use agent_lb_proxy.Store.History.{Event, succeeded, cooled, disabled, apply, Fits, apply-IsSound}
use agent_lb_proxy.Maintain.Kept.{stored, commit-kept, take_reloaded-kept}
use agent_lb_proxy.Maintain.Sound.{IsSound-IsKept}
use agent_lb_proxy.Serve.{
  Response, Reply, canceled, failed, answered, AuthError, Site, disabling, Attempt, Incoming,
  Server, Last, Verdict, done, again, stop, is_success, commit, unless_error,
}
use agent_lb_proxy.Serve.Credentials.{try_refresh_account_auth}
use agent_lb_proxy.Serve.Account.{
  Picked, cool, transport_failed, refuse, finish, conclude, judge_second, retry_refreshed,
  after_refresh, authorize, judge, judge_first, handle_http_via_picked_account,
}

module _ {W : Type 0} where
  -- The store of a verdict is sound.
  abbrev pub IsSoundAfter : Verdict W → Type 0
  IsSoundAfter (done p resp) = IsSound (stored p)
  IsSoundAfter (again p last) = IsSound (stored p)
  IsSoundAfter (stop p last) = IsSound (stored p)

  pub commit-IsSound :
      (t : Attempt W) (site : Site) (e : Event W) (p : Server W)
      → Fits e (stored p)
      → IsSound (stored p)
      → IsSound (stored (commit t site (apply e) p))
  commit-IsSound t site e p h v =
      commit-kept IsSound t site (apply e) p (IsSound-IsKept true).stamped
        (apply-IsSound e (stored p) h v)

  pub IsSoundAfter-if :
      (b : Bool) (v w : Verdict W)
      → IsSoundAfter v
      → IsSoundAfter w
      → IsSoundAfter (if b then v else w)
  IsSoundAfter-if true v w h k = h
  IsSoundAfter-if false v w h k = k

  pub server_if-IsSound :
      (b : Bool) (p q : Server W)
      → IsSound (stored p)
      → IsSound (stored q)
      → IsSound (stored (if b then p else q))
  server_if-IsSound true p q h k = h
  server_if-IsSound false p q h k = k

  pub unless_error-IsSoundAfter :
      (o : Option String) (last : Last) (p : Server W) (v : Verdict W)
      → IsSound (stored p)
      → IsSoundAfter v
      → IsSoundAfter (unless_error o last p v)
  unfolding unless_error
  unless_error-IsSoundAfter none last p v h k = k
  unless_error-IsSoundAfter (some e) last p v h k = h

  cool-IsSound :
      (t : Attempt W) (site : Site) (id : String) (seconds : ℤ) (reason : String) (p : Server W)
      → IsSound (stored p)
      → IsSound (stored (cool t site id seconds reason p))
  unfolding cool apply
  cool-IsSound t site id seconds reason p v =
      commit-IsSound t site (cooled (t.clock_ns site) id seconds reason) p tt v

  refuse-IsSoundAfter :
      (t : Attempt W) (id : String) (resp : Response) (o : Option AuthError) (last : Last)
      (p : Server W)
      → IsSound (stored p)
      → IsSoundAfter (refuse t id resp o last p)
  unfolding refuse apply
  refuse-IsSoundAfter t id resp o last p v = commit-IsSound t disabling (disabled id _) p tt v

  finish-IsSoundAfter :
      (t : Attempt W) (req : Incoming) (sel : Selection W) (id : String) (now_ms : ℤ)
      (resp : Response) (p : Server W)
      → IsSound (stored p)
      → IsSoundAfter (finish t req sel id now_ms resp p)
  unfolding finish apply
  finish-IsSoundAfter t req sel id now_ms resp p v =
      server_if-IsSound (is_success resp.status) _ p
        (commit-IsSound t _ (succeeded now_ms sel.switched sel.switch_reason id _) p tt v) v

  conclude-IsSoundAfter :
      (t : Attempt W) (req : Incoming) (sel : Selection W) (id : String) (now_ms : ℤ)
      (attempt max_attempts : ℕ) (resp : Response) (last : Last) (p : Server W)
      → IsSound (stored p)
      → IsSoundAfter (conclude t req sel id now_ms attempt max_attempts resp last p)
  unfolding conclude
  conclude-IsSoundAfter t req sel id now_ms attempt max_attempts resp last p v =
      IsSoundAfter-if (not (is_retryable_status resp.status)) _ _
        (finish-IsSoundAfter t req sel id now_ms resp p v)
        (IsSoundAfter-if (ltb attempt max_attempts) _ _ (cool-IsSound t _ id _ _ p v)
          (finish-IsSoundAfter t req sel id now_ms resp _ (cool-IsSound t _ id _ _ p v)))

  module _ (wide : ℕ → ℕ) (t : Attempt W) (req : Incoming) (snap : StoreFile W) (now_ms : ℤ)
      (attempt max_attempts : ℕ) (last : Last) where
    judge_second-IsSoundAfter :
        (sel : Selection W) (id : String) (p : Server W) (r : Reply)
        → IsSound (stored p)
        → IsSoundAfter (judge_second wide t req snap sel id now_ms attempt max_attempts last p r)
    unfolding judge_second transport_failed
    judge_second-IsSoundAfter sel id p canceled v = v
    judge_second-IsSoundAfter sel id p (failed e) v = cool-IsSound t _ id _ _ p v
    judge_second-IsSoundAfter sel id p (answered resp) v =
        IsSoundAfter-if (should_disable_for_auth_failure wide resp.status req.path) _ _
          (refuse-IsSoundAfter t id resp none last p v)
          (conclude-IsSoundAfter t req sel id now_ms attempt max_attempts resp last p v)

    after_refresh-IsSoundAfter :
        (sel : Selection W) (id : String) (resp : Response)
        (o : Server W × Outcome AuthError AuthInfo)
        → IsSound (stored o.0)
        → IsSoundAfter
            (after_refresh wide t req snap sel id now_ms attempt max_attempts resp last o)
    unfolding after_refresh retry_refreshed
    after_refresh-IsSoundAfter sel id resp (p, ok auth) v = judge_second-IsSoundAfter sel id p _ v
    after_refresh-IsSoundAfter sel id resp (p, err e) v = refuse-IsSoundAfter t id resp _ last p v
    after_refresh-IsSoundAfter sel id resp (p, panic) v = v

    authorize-IsSoundAfter :
        (k : Picked W) (resp : Response) (p : Server W)
        → IsSound (stored p)
        → IsSoundAfter (authorize wide t req snap k now_ms attempt max_attempts resp last p)
    unfolding authorize try_refresh_account_auth
    authorize-IsSoundAfter k resp p v =
        IsSoundAfter-if (should_disable_for_auth_failure wide resp.status req.path) _ _
          (after_refresh-IsSoundAfter k.selection k.account.id resp _ (
            take_reloaded-kept true IsSound (IsSound-IsKept true) t k.account.id k.auth p t.reloaded
              v))
          (conclude-IsSoundAfter t req k.selection k.account.id now_ms attempt max_attempts resp
            last p v)

    judge_first-IsSoundAfter :
        (k : Picked W) (p : Server W) (r : Reply)
        → IsSound (stored p)
        → IsSoundAfter (judge_first wide t req snap k now_ms attempt max_attempts last p r)
    unfolding judge_first judge transport_failed
    judge_first-IsSoundAfter k p canceled v = v
    judge_first-IsSoundAfter k p (failed e) v = cool-IsSound t _ k.account.id _ _ p v
    judge_first-IsSoundAfter k p (answered resp) v =
        IsSoundAfter-if
          (not (resp.status == 403 && is_usage_limit_response wide resp.status req.path resp.body))
          _ _ (authorize-IsSoundAfter k resp p v)
          (IsSoundAfter-if (ltb attempt max_attempts) _ _ (cool-IsSound t _ k.account.id _ _ p v)
            (authorize-IsSoundAfter k resp _ (cool-IsSound t _ k.account.id _ _ p v)))

    pub handle_http_via_picked_account-IsSoundAfter :
        (k : Picked W) (p : Server W)
        → IsSound (stored p)
        → IsSoundAfter
            (handle_http_via_picked_account wide t req snap k now_ms attempt max_attempts last p)
    unfolding handle_http_via_picked_account
    handle_http_via_picked_account-IsSoundAfter k p v =
        unless_error-IsSoundAfter t.rewrite_error last p _ v (
          unless_error-IsSoundAfter t.request_error last p _ v
            (judge_first-IsSoundAfter k p t.reply v))
