-- ===== src/Serve/Limits.antt =====
-- A reply that tells of a used up limit, in `handleHTTPViaPickedAccount`.
use agent_lb_proxy.Prelude.{
  ℕ, ◌≡◌, refl, ap, ◌∙◌, true, String, Option, none, some, arith, ltb, Bool-cases, inl, inr, ◌==◌,
  if◌then◌else◌,
}
use agent_lb_proxy.Prelude.Int.{ℤ}
use agent_lb_proxy.Prelude.Codes.{Text}
use agent_lb_proxy.Prelude.Outcome.{err}
use agent_lb_proxy.Types.{StoreFile}
use agent_lb_proxy.Request.{should_disable_for_auth_failure, is_usage_limit_response}
use agent_lb_proxy.Store.Marks.{mark_disabled}
use agent_lb_proxy.Serve.{
  Response, answered, AuthError, usage_limit, disabling, Attempt, Incoming, Server, Last, Verdict,
  again, parse_retry_after_seconds, digit, decimal, http_reason, unless_error, commit,
}
use agent_lb_proxy.Serve.Credentials.{take_reloaded, try_refresh_account_auth}
use agent_lb_proxy.Serve.Account.{
  Picked, longer, disabled_reason_for_auth_failure, cool, refuse, after_refresh, authorize, judge,
  judge_first, handle_http_via_picked_account,
}

module _ (wide : ℕ → ℕ) where
  usage_limit-disables :
      (status : ℕ) (path body : Text)
      → is_usage_limit_response wide status path body ≡ true
      → ((status == 403) ≡ true) × (should_disable_for_auth_failure wide status path ≡ true)
  unfolding is_usage_limit_response should_disable_for_auth_failure
  usage_limit-disables status path body h = (ground arith, ground arith)

reason_403 :
    (status : ℕ) (e : AuthError)
    → (status == 403) ≡ true
    → disabled_reason_for_auth_failure status (some e) ≡ "http-403"
unfolding disabled_reason_for_auth_failure http_reason decimal digit
reason_403 status e h = let same : status ≡ 403 = ground arith in rw same refl

unless_error-none :
    {W : Type 0} (o : Option String) (last : Last) (p : Server W) (v : Verdict W)
    → o ≡ none
    → unless_error o last p v ≡ v
unfolding unless_error
unless_error-none o last p v h = rw (h, unless_error) refl

-- What remains of the reserve of an account whose limit is used up.
module _ {W : Type 0} (wide : ℕ → ℕ) where
  handle-answered :
      (t : Attempt W) (req : Incoming) (snap : StoreFile W) (k : Picked W) (now_ms : ℤ)
      (attempt max_attempts : ℕ) (last : Last) (p : Server W) (resp : Response)
      → t.rewrite_error ≡ none
      → t.request_error ≡ none
      → t.reply ≡ answered resp
      → handle_http_via_picked_account wide t req snap k now_ms attempt max_attempts last p
        ≡ judge wide t req snap k now_ms attempt max_attempts resp last p
  unfolding handle_http_via_picked_account judge_first
  handle-answered t req snap k now_ms attempt max_attempts last p resp u v r =
      unless_error-none t.rewrite_error last p _ u
      ∙ unless_error-none t.request_error last p _ v
      ∙ ap (judge_first wide t req snap k now_ms attempt max_attempts last p) r

  authorize-unreadable :
      (t : Attempt W) (req : Incoming) (snap : StoreFile W) (k : Picked W) (now_ms : ℤ)
      (attempt max_attempts : ℕ) (resp : Response) (last : Last) (p : Server W) (e : AuthError)
      → should_disable_for_auth_failure wide resp.status req.path ≡ true
      → (resp.status == 403) ≡ true
      → t.reloaded ≡ err e
      → authorize wide t req snap k now_ms attempt max_attempts resp last p
        ≡ again
            (commit t disabling (mark_disabled k.account.id "http-403") p)
            (record last { resp = some resp })
  unfolding authorize after_refresh take_reloaded try_refresh_account_auth refuse
  authorize-unreadable t req snap k now_ms attempt max_attempts resp last p e d s r =
      let refused : refuse t k.account.id resp (some e) last p
          ≡ again (commit t disabling (mark_disabled k.account.id "http-403") p)
              (record last { resp = some resp }) =
        ap
          (λ reason.
            again (commit t disabling (mark_disabled k.account.id reason) p)
              (record last { resp = some resp }))
          (reason_403 resp.status e s) in
      let tried : after_refresh wide t req snap k.selection k.account.id now_ms attempt max_attempts
            resp last (take_reloaded t k.account.id k.auth p t.reloaded)
          ≡ refuse t k.account.id resp (some e) last p =
        ap
          (λ o.
            after_refresh wide t req snap k.selection k.account.id now_ms attempt max_attempts resp
              last (take_reloaded t k.account.id k.auth p o))
          r in
      rw (d, authorize) (tried ∙ refused)

  -- A reply with status 403 whose body tells of a used up limit, when the credentials of the account
  -- cannot be read again: before the last attempt the account cools down and another one is tried; in
  -- the last attempt it cools down and is also disabled, with the reason `http-403`.
  pub handle-usage_limit :
      (t : Attempt W) (req : Incoming) (snap : StoreFile W) (k : Picked W) (now_ms : ℤ)
      (attempt max_attempts : ℕ) (last : Last) (p : Server W) (resp : Response) (e : AuthError)
      → t.rewrite_error ≡ none
      → t.request_error ≡ none
      → t.reply ≡ answered resp
      → t.reloaded ≡ err e
      → is_usage_limit_response wide resp.status req.path resp.body ≡ true
      → handle_http_via_picked_account wide t req snap k now_ms attempt max_attempts last p
        ≡ again
            (let cooled =
                cool t usage_limit k.account.id
                  (longer snap.settings.proxy.cooldown_default_s
                    (parse_retry_after_seconds resp.retry_after))
                  "usage-limit"
                  p in
              if ltb attempt max_attempts
              then cooled
              else commit t disabling (mark_disabled k.account.id "http-403") cooled)
            (record last { resp = some resp })
  unfolding judge
  handle-usage_limit t req snap k now_ms attempt max_attempts last p resp e u v r w h =
      let (is_403, disables) = usage_limit-disables wide resp.status req.path resp.body h in
      handle-answered t req snap k now_ms attempt max_attempts last p resp u v r
      ∙ (elim (Bool-cases (ltb attempt max_attempts)) [
        | inl b ↦ rw (is_403, h, b, judge) refl
        | inr b ↦
            rw (is_403, h, b, judge)
              (authorize-unreadable t req snap k now_ms attempt max_attempts resp last _ e disables
                is_403 w)
      ])
