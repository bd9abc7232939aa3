-- ===== src/Serve.antt =====
-- internal/lb/proxy.go and child_proxy.go: serving one HTTP request. What the outside answers during
-- an attempt is an argument, `Attempt`: the files of the account, the upstream's replies, the clock,
-- and for each write of the store its time stamp and the error of the file system, if it fails. Log
-- records are not modelled.
pub mod Credentials
pub mod Account
pub mod Child
pub mod Loop
pub mod Writes
pub mod Aside
pub mod Failover
pub mod Sound
pub mod Whole
pub mod Limits
use Prim.Native.String.{◌++◌ as append}
use agent_lb_proxy.Prelude.{
  ℕ, zero, suc, ◌/◌, ◌%◌, Bool, true, false, ◌&&◌, ◌||◌, String, Option, none, some, str_eq, leb,
  ltb, ◌==◌, if◌then◌else◌,
}
use agent_lb_proxy.Prelude.Int.{ℤ, pos, ltb_ℤ}
use agent_lb_proxy.Prelude.Codes.{Text, codes}
use agent_lb_proxy.Prelude.Outcome.{Outcome, ok}
use agent_lb_proxy.Types.{StoreFile, AuthInfo}
use agent_lb_proxy.Store.{WriteFault, Store, update}
use agent_lb_proxy.Store.Overrides.{snapshot}
use agent_lb_proxy.Routes.{ChildProxies}
use agent_lb_proxy.Routes.Marks.{FetchReply}
use agent_lb_proxy.Request.{is_retryable_status}

-- A `Retry-After` header, read by `strconv.Atoi` and `http.ParseTime`: a date is the seconds until it.
pub data RetryAfter : Type 0 where
  absent : RetryAfter
  number : ℤ → RetryAfter
  date : ℤ → RetryAfter
  unreadable : RetryAfter

unfoldable pub parse_retry_after_seconds : RetryAfter → ℤ
parse_retry_after_seconds absent = pos 0
parse_retry_after_seconds (number n) = if ltb_ℤ (pos 0) n then n else pos 0
parse_retry_after_seconds (date delta) = if ltb_ℤ (pos 0) delta then delta else pos 0
parse_retry_after_seconds unreadable = pos 0

-- `body` is what `loadBodySnippet` reads of the body, and `readable` whether the body is open.
pub record Response : Type 0 where
  pub status : ℕ
  pub retry_after : RetryAfter
  pub body : Text
  pub readable : Bool

-- `requestClient.Do`: the client went away, the transport failed, or there is a response.
pub data Reply : Type 0 where
  canceled : Reply
  failed : String → Reply
  answered : Response → Reply

-- An error of `LoadAuth` or `RefreshAuth`; `code` is that of an `authRefreshError`.
pub record AuthError : Type 0 where
  pub message : String
  pub code : Option String

-- The writes of the store that one attempt may make, each at most once.
pub data Site : Type 0 where
  missing : Site
  adopting : Site
  transport : Site
  usage_limit : Site
  recovering : Site
  disabling : Site
  backing_off : Site
  succeeding : Site

pub record Attempt (W : Type 0) : Type 0 where
  -- `LoadAuth` of the account, before the request and again before a refresh
  pub loaded : Outcome AuthError AuthInfo
  pub reloaded : Outcome AuthError AuthInfo
  -- `RefreshAuth`
  pub refreshed : Outcome AuthError AuthInfo
  -- the errors of `rewriteForAccount` or `rewriteForChildProxy`, and of building a request
  pub rewrite_error : Option String
  pub request_error : Option String
  -- the reply to the request, and to the one sent again after a refresh
  pub reply : Reply
  pub second_reply : Reply
  -- the request for the status of a child, with the clock before and after it
  pub fetch : String → FetchReply W
  pub fetch_started_ns : String → ℤ
  pub fetch_ended_ns : String → ℤ
  -- `maybeRewritePooledRateLimits` fails
  pub limits_fail : Bool
  pub stamp : Site → String
  pub failure : Site → Option WriteFault
  pub clock_ns : Site → ℤ

-- The request, as far as the handler reads it.
pub record Incoming : Type 0 where
  pub is_post : Bool
  pub path : Text

-- `ProxyServer`: the store and the children.
pub record Server (W : Type 0) : Type 0 where
  pub store : Store W
  pub children : ChildProxies W

-- The variables that the attempts share: `lastResp` and `lastErr`.
pub record Last : Type 0 where
  pub resp : Option Response
  pub error : Option String

-- What an attempt returns: `done` is true, with the response that is written, if one is, and `again`
-- false, with the variables for the next attempt.
pub data Verdict (W : Type 0) : Type 0 where
  done : Server W → Option Response → Verdict W
  again : Server W → Last → Verdict W
  -- the loop's `break`, when nothing can be selected
  stop : Server W → Last → Verdict W

unfoldable pub is_terminal_refresh_error : AuthError → Bool
is_terminal_refresh_error e = elim (e.code) [
  | none ↦ false
  | some code ↦ str_eq code "refresh_token_reused"
]

unfoldable pub digit : ℕ → String
digit n =
    if n == 0
    then "0"
    else if n == 1
    then "1"
    else if n == 2
    then "2"
    else if n == 3
    then "3"
    else if n == 4
    then "4"
    else if n == 5
    then "5"
    else if n == 6
    then "6"
    else if n == 7
    then "7"
    else if n == 8
    then "8"
    else "9"

-- The decimal numeral, of at most `fuel` digits, before a text.
unfoldable pub decimal : ℕ → ℕ → String → String
decimal zero n text = text
decimal (suc fuel) n text =
    let longer = append (digit (n % 10)) text in
    let rest = decimal fuel (n / 10) longer in if ltb n 10 then longer else rest

-- `fmt.Sprintf("http-%d", status)`: an `int` has at most 19 digits.
unfoldable pub http_reason : ℕ → String
http_reason status = append "http-" (decimal 19 status "")

-- `fmt.Sprintf("status %d", status)`
unfoldable pub status_text : ℕ → String
status_text status = append "status " (decimal 19 status "")

unfoldable pub is_success : ℕ → Bool
is_success status = leb 200 status && ltb status 300

unfoldable pub is_retryable_child_proxy_status : ℕ → Bool
is_retryable_child_proxy_status status =
    if status == 401 || status == 403 || status == 503 then true else is_retryable_status status

-- The response that goes out: 502 if the pooled limits cannot be written into it.
unfoldable pub present : {W : Type 0} → Attempt W → Response → Response
present t r =
    if t.limits_fail
    then record {
      status = 502;
      retry_after = absent;
      body = codes "{\"error\":\"invalid rate limit response\"}";
      readable = true;
    }
    else r

module _ {W : Type 0} where
  -- `_ = p.store.Update(...)`: the error of the write is dropped.
  unfoldable pub commit : Attempt W → Site → (StoreFile W → StoreFile W) → Server W → Server W
  commit t site change p = record p {
    store = (update (t.stamp site) (t.failure site) (λ sf. (change sf, ok tt)) p.store).0;
  }

  -- An error of a step before the request is sent leaves the request to another attempt.
  unfoldable pub unless_error : Option String → Last → Server W → Verdict W → Verdict W
  unless_error none last p verdict = verdict
  unless_error (some e) last p verdict = again p (record last { error = some e })
