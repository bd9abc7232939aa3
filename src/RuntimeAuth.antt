-- ===== src/RuntimeAuth.antt =====
-- internal/lb/wrapper.go and proxy.go: `/oauth/token`, which refreshes the credentials of the wrapped
-- command. What the outside gives for the account at an index is an argument.
use Prim.Native.String.{◌++◌ as append}
use agent_lb_proxy.Prelude.{
  ℕ, zero, suc, Bool, true, false, not, ◌&&◌, ◌||◌, String, Option, none, some, List, [], ◌∷◌, ◌++◌,
  str_eq, length, get_elem?, ltb, leb, if◌then◌else◌,
}
use agent_lb_proxy.Prelude.Int.{ℤ, pos, pos_part, leb_ℤ}
use agent_lb_proxy.Prelude.Text.{trim_space}
use agent_lb_proxy.Prelude.Float.{Float64}
use agent_lb_proxy.Prelude.Outcome.{Outcome, ok, err, panic}
use agent_lb_proxy.Types.{Account, AuthInfo, StoreFile}
use agent_lb_proxy.Policy.{Selection, contains, select_account}
use agent_lb_proxy.Store.Marks.{mark_disabled}
use agent_lb_proxy.Store.Overrides.{snapshot}
use agent_lb_proxy.Serve.{AuthError, Attempt, Server, disabling, commit}
use agent_lb_proxy.Serve.Credentials.{try_refresh_account_auth}
use agent_lb_proxy.Serve.Account.{disabled_reason_for_auth_failure}
pub mod Candidates
pub mod Granted
pub mod Served

-- `appendUnique`
unfoldable pub append_unique : ℕ → List ℕ → ℕ → List ℕ
append_unique total seen i = if ltb i total && not (contains seen i) then seen ++ i ∷ [] else seen

-- The loop over all indexes: `n` of them, from `i` on.
unfoldable pub append_all : ℕ → List ℕ → ℕ → ℕ → List ℕ
append_all total seen i zero = seen
append_all total seen i (suc n) = append_all total (append_unique total seen i) (suc i) n

unfoldable pub append_active : ℕ → List ℕ → ℤ → List ℕ
append_active total seen i = if leb_ℤ (pos 0) i then append_unique total seen (pos_part i) else seen

unfoldable pub append_selected : {W : Type 0} → ℕ → Outcome String (Selection W) → List ℕ
append_selected total (ok sel) = append_unique total [] sel.index
append_selected total (err e) = []
append_selected total panic = []

module _ {W : Type 0} ⦃f : Float64 W⦄ where
  unfoldable pub runtime_auth_candidate_indexes : StoreFile W → ℤ → List ℕ
  runtime_auth_candidate_indexes snap now_ms =
      let total = length snap.accounts in
      append_all total
        (append_active total (append_selected total (select_account snap now_ms))
          snap.state.active_index)
        0 total

-- What the handler writes: the tokens, or an error with its status.
pub data TokenReply : Type 0 where
  granted : String → TokenReply
  denied : ℕ → String → TokenReply

-- The error of `ParseForm` and the form, and for the account at an index its credentials and the tokens
-- made of them.
pub record TokenRequest (W : Type 0) : Type 0 where
  pub form_error : Option String
  pub grant_type : String
  pub refresh_token : String
  pub attempt : ℕ → Attempt W
  pub tokens : ℕ → Outcome String String

abbrev no_auth : AuthInfo
no_auth = record {
  access_token = "";
  refresh_token = "";
  id_token = "";
  chatgpt_account_id = "";
  user_email = "";
}

unfoldable pub deny_last : Option String → TokenReply
deny_last (some e) = denied 401 (append "refresh runtime auth: " e)
deny_last none = denied 404 "no available account for runtime auth refresh"

module _ {W : Type 0} where
  -- The tokens after a refresh; `next` is the loop with the last error.
  unfoldable pub grant :
      Server W
      → (Option String → Server W → Server W × TokenReply)
      → Outcome String String
      → Server W × TokenReply
  grant p next (ok tokens) = (p, granted tokens)
  grant p next (err e) = next (some e) p
  grant p next panic = (p, denied 500 "panic")

  unfoldable pub disable_unless_empty : Attempt W → String → String → Server W → Server W
  disable_unless_empty t id reason p =
      if not (str_eq reason "") then commit t disabling (mark_disabled id reason) p else p

  unfoldable pub after_account_refresh :
      TokenRequest W
      → ℕ
      → String
      → (Option String → Server W → Server W × TokenReply)
      → Server W × Outcome AuthError AuthInfo
      → Server W × TokenReply
  after_account_refresh r i id next (p, ok auth) = grant p next (r.tokens i)
  after_account_refresh r i id next (p, err e) =
      next (some e.message)
        (disable_unless_empty (r.attempt i) id (disabled_reason_for_auth_failure 401 (some e)) p)
  after_account_refresh r i id next (p, panic) = (p, denied 500 "panic")

  unfoldable pub try_candidate :
      TokenRequest W
      → ℕ
      → Option (Account W)
      → Option String
      → (Option String → Server W → Server W × TokenReply)
      → Server W
      → Server W × TokenReply
  try_candidate r i none last next p = next last p
  try_candidate r i (some a) last next p =
      after_account_refresh r i a.id next (try_refresh_account_auth (r.attempt i) a.id no_auth p)

  unfoldable pub try_candidates :
      TokenRequest W → List (Account W) → List ℕ → Option String → Server W → Server W × TokenReply
  try_candidates r accounts [] last p = (p, deny_last last)
  try_candidates r accounts (i ∷ rest) last p =
      try_candidate r i (get_elem? accounts i) last (try_candidates r accounts rest) p

abbrev pub proxy_runtime_refresh_token : String
proxy_runtime_refresh_token = "codexlb-runtime-refresh"

module _ {W : Type 0} ⦃f : Float64 W⦄ where
  unfoldable pub handle_token_form : TokenRequest W → ℤ → Server W → Server W × TokenReply
  handle_token_form r now_ms p =
      let grant_type = trim_space r.grant_type in
      let snap = snapshot p.store in
      if not (str_eq grant_type "") && not (str_eq grant_type "refresh_token")
      then (p, denied 400 "unsupported grant_type")
      else if not (str_eq (trim_space r.refresh_token) proxy_runtime_refresh_token)
      then (p, denied 401 "invalid runtime refresh token")
      else try_candidates r snap.accounts (runtime_auth_candidate_indexes snap now_ms) none p

  unfoldable pub parsed_or_denied :
      Option String → Server W × TokenReply → Server W → Server W × TokenReply
  parsed_or_denied none handled p = handled
  parsed_or_denied (some e) handled p = (p, denied 400 (append "parse oauth token request: " e))

  unfoldable pub handle_runtime_oauth_token : TokenRequest W → ℤ → Server W → Server W × TokenReply
  handle_runtime_oauth_token r now_ms p =
      parsed_or_denied r.form_error (handle_token_form r now_ms p) p
