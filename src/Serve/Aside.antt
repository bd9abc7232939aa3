-- ===== src/Serve/Aside.antt =====
-- The steps of an attempt that put its account aside: the cooldowns and the disabling.
use agent_lb_proxy.Prelude.{
  ℕ, ◌/◌, ◌≡◌, Bool, true, false, not, String, Option, some, ltb, arith, if◌then◌else◌,
}
use agent_lb_proxy.Prelude.Int.{ℤ, pos, ◌≤ℤ◌}
use agent_lb_proxy.Prelude.Float.{Float64}
use agent_lb_proxy.Prelude.Outcome.{Outcome, ok, err, panic}
use agent_lb_proxy.Types.{StoreFile, AuthInfo}
use agent_lb_proxy.Policy.{Selection}
use agent_lb_proxy.Policy.Indexes.{healthy_at}
use agent_lb_proxy.Request.{is_retryable_status, default_backoff_seconds}
use agent_lb_proxy.Store.Marks.{index_of_id}
use agent_lb_proxy.Serve.{
  Response, Reply, canceled, failed, answered, AuthError, Site, transport, recovering, disabling,
  backing_off, Attempt, Incoming, Server, Last, Verdict, done, again, stop,
  parse_retry_after_seconds, http_reason,
}
use agent_lb_proxy.Serve.Credentials.{take_refreshed, take_reloaded}
use agent_lb_proxy.Serve.Account.{longer, cool, transport_failed, refuse, finish, conclude}
use agent_lb_proxy.Serve.Writes.{
  accounts_of, index_of_id-recovered, cool-unhealthy, disabled-unhealthy,
}

-- A number of seconds whose nanoseconds fit an `int64`.
abbrev pub Fits : ℤ → Type 0
Fits seconds = seconds ≤ℤ pos 9223372036

-- The header `Retry-After` of a reply asks for a number of seconds that fits.
abbrev pub ReplyFits : Reply → Type 0
ReplyFits canceled = Unit
ReplyFits (failed e) = Unit
ReplyFits (answered resp) = Fits (parse_retry_after_seconds resp.retry_after)

-- What the theorem supposes of an attempt: no clock reading is before the request's `now`, and the
-- cooldowns that the settings and the replies ask for fit.
pub record IsTimely {W : Type 0} (t : Attempt W) (snap : StoreFile W) (now_ms : ℤ) : Type 0 where
  pub clock : (site : Site) → (c : ℕ) × (t.clock_ns site ≡ pos c) × (now_ms ≤ℤ pos (c / 1000000))
  pub configured : Fits snap.settings.proxy.cooldown_default_s
  pub first : ReplyFits t.reply
  pub second : ReplyFits t.second_reply

default_backoff_seconds-Fits :
    (status : ℕ) (seconds : ℤ) → Fits seconds → Fits (default_backoff_seconds status seconds)
unfolding default_backoff_seconds
default_backoff_seconds-Fits status seconds h = ground arith

pub longer-Fits : (a b : ℤ) → Fits a → Fits b → Fits (longer a b)
unfolding longer
longer-Fits a b h k = ground arith

module _ {W : Type 0} ⦃f : Float64 W⦄ where
  -- If the verdict is another attempt, the account is not healthy by then.
  abbrev pub PutsAside : ℤ → ℕ → Verdict W → Type 0
  PutsAside now_ms i (done p resp) = Unit
  PutsAside now_ms i (again p last) = healthy_at now_ms (accounts_of p) i ≡ false
  PutsAside now_ms i (stop p last) = Unit

  pub PutsAside-if :
      (now_ms : ℤ) (i : ℕ) (b : Bool) (v w : Verdict W)
      → PutsAside now_ms i v
      → PutsAside now_ms i w
      → PutsAside now_ms i (if b then v else w)
  PutsAside-if now_ms i true v w h k = h
  PutsAside-if now_ms i false v w h k = k

  pub cool-aside :
      (t : Attempt W) (snap : StoreFile W) (site : Site) (id : String) (seconds : ℤ)
      (reason : String) (p : Server W) (now_ms : ℤ) (i : ℕ)
      → IsTimely t snap now_ms
      → Fits seconds
      → index_of_id id (accounts_of p) ≡ some i
      → healthy_at now_ms (accounts_of (cool t site id seconds reason p)) i ≡ false
  cool-aside t snap site id seconds reason p now_ms i h fits e =
      let (c, same, late) = h.clock site in
      cool-unhealthy t site id seconds reason p now_ms c i same late fits e

  pub conclude-aside :
      (t : Attempt W) (snap : StoreFile W) (req : Incoming) (sel : Selection W) (id : String)
      (now_ms : ℤ) (attempt max_attempts : ℕ) (resp : Response) (last : Last) (p : Server W) (i : ℕ)
      → IsTimely t snap now_ms
      → Fits (parse_retry_after_seconds resp.retry_after)
      → index_of_id id (accounts_of p) ≡ some i
      → PutsAside now_ms i (conclude t req sel id now_ms attempt max_attempts resp last p)
  unfolding conclude finish
  conclude-aside t snap req sel id now_ms attempt max_attempts resp last p i h fits e =
      PutsAside-if now_ms i (not (is_retryable_status resp.status)) _ _ tt (
        PutsAside-if now_ms i (ltb attempt max_attempts) _ _
          (cool-aside t snap backing_off id _ (http_reason resp.status) p now_ms i h
            (default_backoff_seconds-Fits resp.status _ fits) e)
          tt)

  pub refuse-aside :
      (t : Attempt W) (id : String) (resp : Response) (e : Option AuthError) (last : Last)
      (p : Server W) (now_ms : ℤ) (i : ℕ)
      → index_of_id id (accounts_of p) ≡ some i
      → PutsAside now_ms i (refuse t id resp e last p)
  unfolding refuse
  refuse-aside t id resp e last p now_ms i found =
      disabled-unhealthy t disabling id _ p now_ms i found

  pub transport_failed-aside :
      (t : Attempt W) (snap : StoreFile W) (id error : String) (last : Last) (p : Server W)
      (now_ms : ℤ) (i : ℕ)
      → IsTimely t snap now_ms
      → index_of_id id (accounts_of p) ≡ some i
      → PutsAside now_ms i (transport_failed t snap id error last p)
  unfolding transport_failed
  transport_failed-aside t snap id error last p now_ms i h e =
      cool-aside t snap transport id _ "transport-error" p now_ms i h h.configured e

  -- A refresh keeps the place of the account, whether it succeeds or not.
  place-if :
      (id : String) (b : Bool) (v w : Server W × Outcome AuthError AuthInfo) {i : ℕ}
      → index_of_id id (accounts_of v.0) ≡ some i
      → index_of_id id (accounts_of w.0) ≡ some i
      → index_of_id id (accounts_of (if b then v else w).0) ≡ some i
  place-if id true v w h k = h
  place-if id false v w h k = k

  take_refreshed-place :
      (t : Attempt W) (id : String) (p : Server W) (o : Outcome AuthError AuthInfo) {i : ℕ}
      → index_of_id id (accounts_of p) ≡ some i
      → index_of_id id (accounts_of (take_refreshed t id p o).0) ≡ some i
  unfolding take_refreshed
  take_refreshed-place t id p (ok auth) e = index_of_id-recovered t recovering id auth p e
  take_refreshed-place t id p (err x) e = e
  take_refreshed-place t id p panic e = e

  pub take_reloaded-place :
      (t : Attempt W) (id : String) (auth : AuthInfo) (p : Server W)
      (o : Outcome AuthError AuthInfo) {i : ℕ}
      → index_of_id id (accounts_of p) ≡ some i
      → index_of_id id (accounts_of (take_reloaded t id auth p o).0) ≡ some i
  unfolding take_reloaded
  take_reloaded-place t id auth p (ok current) e =
      place-if id _ _ _ (index_of_id-recovered t recovering id current p e)
        (take_refreshed-place t id p t.refreshed e)
  take_reloaded-place t id auth p (err x) e = e
  take_reloaded-place t id auth p panic e = e
