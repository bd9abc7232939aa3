-- ===== src/Serve/Failover.antt =====
-- `handleHTTPViaPickedAccount` when it leaves the request to another attempt.
use agent_lb_proxy.Prelude.{ℕ, ◌≡◌, ◌≢◌, subst, String, Option, none, some, ltb, arith}
use agent_lb_proxy.Prelude.Int.{ℤ}
use agent_lb_proxy.Prelude.Float.{Float64}
use agent_lb_proxy.Prelude.Outcome.{Outcome, ok, err, panic}
use agent_lb_proxy.Types.{StoreFile, AuthInfo}
use agent_lb_proxy.Policy.{Selection, select_account}
use agent_lb_proxy.Request.{should_disable_for_auth_failure}
use agent_lb_proxy.Store.Overrides.{snapshot}
use agent_lb_proxy.Store.Marks.{index_of_id}
use agent_lb_proxy.Store.Health.{select_account-ok}
use agent_lb_proxy.Serve.{
  Response, Reply, canceled, failed, answered, AuthError, usage_limit, Attempt, Incoming, Server,
  Last, Verdict, again, parse_retry_after_seconds, unless_error,
}
use agent_lb_proxy.Serve.Credentials.{try_refresh_account_auth}
use agent_lb_proxy.Serve.Account.{
  Picked, judge_first, judge_second, retry_refreshed, after_refresh, authorize, judge,
  handle_http_via_picked_account,
}
use agent_lb_proxy.Serve.Writes.{accounts_of, index_of_id-cooled, healthy_at-snapshot}
use agent_lb_proxy.Serve.Aside.{
  Fits, ReplyFits, IsTimely, longer-Fits, PutsAside, PutsAside-if, cool-aside, conclude-aside,
  refuse-aside, transport_failed-aside, take_reloaded-place,
}

module _ {W : Type 0} ⦃f : Float64 W⦄ (wide : ℕ → ℕ) where
  retry_refreshed-aside :
      (t : Attempt W) (req : Incoming) (snap : StoreFile W) (sel : Selection W) (id : String)
      (now_ms : ℤ) (attempt max_attempts : ℕ) (last : Last) (p : Server W) (r : Reply) (i : ℕ)
      → IsTimely t snap now_ms
      → ReplyFits r
      → index_of_id id (accounts_of p) ≡ some i
      → PutsAside now_ms i
          (judge_second wide t req snap sel id now_ms attempt max_attempts last p r)
  unfolding judge_second
  retry_refreshed-aside t req snap sel id now_ms attempt max_attempts last p canceled i h fits e =
      tt
  retry_refreshed-aside t req snap sel id now_ms attempt max_attempts last p (failed x) i h fits e =
      transport_failed-aside t snap id x last p now_ms i h e
  retry_refreshed-aside t req snap sel id now_ms attempt max_attempts last p (answered resp) i h
        fits e =
      PutsAside-if now_ms i (should_disable_for_auth_failure wide resp.status req.path) _ _
        (refuse-aside t id resp none last p now_ms i e)
        (conclude-aside t snap req sel id now_ms attempt max_attempts resp last p i h fits e)

  after_refresh-aside :
      (t : Attempt W) (req : Incoming) (snap : StoreFile W) (sel : Selection W) (id : String)
      (now_ms : ℤ) (attempt max_attempts : ℕ) (resp : Response) (last : Last)
      (o : Server W × Outcome AuthError AuthInfo) (i : ℕ)
      → IsTimely t snap now_ms
      → index_of_id id (accounts_of o.0) ≡ some i
      → PutsAside now_ms i
          (after_refresh wide t req snap sel id now_ms attempt max_attempts resp last o)
  unfolding after_refresh retry_refreshed
  after_refresh-aside t req snap sel id now_ms attempt max_attempts resp last (p, ok auth) i h e =
      retry_refreshed-aside t req snap sel id now_ms attempt max_attempts last p t.second_reply i h
        h.second e
  after_refresh-aside t req snap sel id now_ms attempt max_attempts resp last (p, err x) i h e =
      refuse-aside t id resp (some x) last p now_ms i e
  after_refresh-aside t req snap sel id now_ms attempt max_attempts resp last (p, panic) i h e = tt

  authorize-aside :
      (t : Attempt W) (req : Incoming) (snap : StoreFile W) (k : Picked W) (now_ms : ℤ)
      (attempt max_attempts : ℕ) (resp : Response) (last : Last) (p : Server W) (i : ℕ)
      → IsTimely t snap now_ms
      → Fits (parse_retry_after_seconds resp.retry_after)
      → index_of_id k.account.id (accounts_of p) ≡ some i
      → PutsAside now_ms i (authorize wide t req snap k now_ms attempt max_attempts resp last p)
  unfolding authorize try_refresh_account_auth
  authorize-aside t req snap k now_ms attempt max_attempts resp last p i h fits e =
      PutsAside-if now_ms i (should_disable_for_auth_failure wide resp.status req.path) _ _
        (after_refresh-aside t req snap k.selection k.account.id now_ms attempt max_attempts resp
          last _ i h (take_reloaded-place t k.account.id k.auth p t.reloaded e))
        (conclude-aside t snap req k.selection k.account.id now_ms attempt max_attempts resp last p
          i h fits e)

  judge-aside :
      (t : Attempt W) (req : Incoming) (snap : StoreFile W) (k : Picked W) (now_ms : ℤ)
      (attempt max_attempts : ℕ) (resp : Response) (last : Last) (p : Server W) (i : ℕ)
      → IsTimely t snap now_ms
      → Fits (parse_retry_after_seconds resp.retry_after)
      → index_of_id k.account.id (accounts_of p) ≡ some i
      → PutsAside now_ms i (judge wide t req snap k now_ms attempt max_attempts resp last p)
  unfolding judge
  judge-aside t req snap k now_ms attempt max_attempts resp last p i h fits e =
      PutsAside-if now_ms i _ _ _
        (authorize-aside t req snap k now_ms attempt max_attempts resp last p i h fits e)
        (PutsAside-if now_ms i (ltb attempt max_attempts) _ _
          (cool-aside t snap usage_limit k.account.id _ "usage-limit" p now_ms i h
            (longer-Fits _ _ h.configured fits) e)
          (authorize-aside t req snap k now_ms attempt max_attempts resp last _ i h fits
            (index_of_id-cooled t usage_limit k.account.id _ "usage-limit" p e)))

  judge_first-aside :
      (t : Attempt W) (req : Incoming) (snap : StoreFile W) (k : Picked W) (now_ms : ℤ)
      (attempt max_attempts : ℕ) (last : Last) (p : Server W) (r : Reply) (i : ℕ)
      → IsTimely t snap now_ms
      → ReplyFits r
      → index_of_id k.account.id (accounts_of p) ≡ some i
      → PutsAside now_ms i (judge_first wide t req snap k now_ms attempt max_attempts last p r)
  unfolding judge_first
  judge_first-aside t req snap k now_ms attempt max_attempts last p canceled i h fits e = tt
  judge_first-aside t req snap k now_ms attempt max_attempts last p (failed x) i h fits e =
      transport_failed-aside t snap k.account.id x last p now_ms i h e
  judge_first-aside t req snap k now_ms attempt max_attempts last p (answered resp) i h fits e =
      judge-aside t req snap k now_ms attempt max_attempts resp last p i h fits e

  unless_error-aside :
      (o : Option String) (last : Last) (p : Server W) (v : Verdict W) (now_ms : ℤ) (i : ℕ)
      → o ≡ none
      → PutsAside now_ms i v
      → PutsAside now_ms i (unless_error o last p v)
  unfolding unless_error
  unless_error-aside none last p v now_ms i u h = h
  unless_error-aside (some e) last p v now_ms i u h = absurd (cc)

  -- A request that was sent is either done with, or its account is not healthy any more.
  handle-aside :
      (t : Attempt W) (req : Incoming) (snap : StoreFile W) (k : Picked W) (now_ms : ℤ)
      (attempt max_attempts : ℕ) (last : Last) (p : Server W) (i : ℕ)
      → IsTimely t snap now_ms
      → t.rewrite_error ≡ none
      → t.request_error ≡ none
      → index_of_id k.account.id (accounts_of p) ≡ some i
      → PutsAside now_ms i
          (handle_http_via_picked_account wide t req snap k now_ms attempt max_attempts last p)
  unfolding handle_http_via_picked_account
  handle-aside t req snap k now_ms attempt max_attempts last p i h u v e =
      unless_error-aside t.rewrite_error last p _ now_ms i u (
        unless_error-aside t.request_error last p _ now_ms i v
          (judge_first-aside t req snap k now_ms attempt max_attempts last p t.reply i h h.first e))

  -- Failover: when an attempt whose request could be built leaves the request to another attempt, the
  -- next selection at the request's time does not return the index of the attempt again. The account at
  -- this index must be the first in the store with its identifier, the clock must not be behind the
  -- request's time, and the cooldowns asked for must fit.
  pub failover :
      (t : Attempt W) (req : Incoming) (snap : StoreFile W) (k : Picked W) (now_ms : ℤ)
      (attempt max_attempts : ℕ) (last last' : Last) (p p' : Server W) (sel : Selection W)
      → IsTimely t snap now_ms
      → t.rewrite_error ≡ none
      → t.request_error ≡ none
      → index_of_id k.account.id (accounts_of p) ≡ some k.selection.index
      → handle_http_via_picked_account wide t req snap k now_ms attempt max_attempts last p
        ≡ again p' last'
      → select_account (snapshot p'.store) now_ms ≡ ok sel
      → sel.index ≢ k.selection.index
  failover t req snap k now_ms attempt max_attempts last last' p p' sel h u v e verdict s same =
      let aside : PutsAside now_ms k.selection.index (again p' last') =
        subst (PutsAside now_ms k.selection.index) verdict (
          handle-aside t req snap k now_ms attempt max_attempts last p k.selection.index h u v e) in
      absurd (
        ground (
          arith,
          aside,
          select_account-ok (snapshot p'.store) now_ms sel s,
          healthy_at-snapshot now_ms p'.store k.selection.index,
        ))
