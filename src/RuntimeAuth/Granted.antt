-- ===== src/RuntimeAuth/Granted.antt =====
-- What `/oauth/token` does to the store.
use agent_lb_proxy.Prelude.{
  ℕ, ◌≡◌, true, false, not, ◌&&◌, String, Option, none, some, List, [], ◌∷◌, get_elem?, str_eq,
  Bool-cases, inl, inr, ◌⊎◌, if◌then◌else◌,
}
use agent_lb_proxy.Prelude.Int.{ℤ}
use agent_lb_proxy.Prelude.Text.{trim_space}
use agent_lb_proxy.Prelude.Float.{Float64}
use agent_lb_proxy.Prelude.Outcome.{Outcome, ok, err, panic}
use agent_lb_proxy.Types.{Account, AuthInfo, StoreFile}
use agent_lb_proxy.Store.Invariant.{IsSound, mark_disabled-IsSound}
use agent_lb_proxy.Store.Overrides.{snapshot}
use agent_lb_proxy.Serve.{AuthError, Attempt, Server}
use agent_lb_proxy.Serve.Credentials.{try_refresh_account_auth}
use agent_lb_proxy.Maintain.Kept.{stored, commit-kept, take_reloaded-kept}
use agent_lb_proxy.Maintain.Sound.{IsSound-IsKept}
use agent_lb_proxy.RuntimeAuth.{
  TokenReply, TokenRequest, denied, no_auth, disable_unless_empty, grant, after_account_refresh,
  try_candidate, try_candidates, proxy_runtime_refresh_token, runtime_auth_candidate_indexes,
  handle_token_form, parsed_or_denied, handle_runtime_oauth_token,
}

module _ {W : Type 0} where
  IsSound-stamped :
      (stamp : String) (sf : StoreFile W) → IsSound sf → IsSound (record sf { updated_at = stamp })
  IsSound-stamped stamp sf v = record { nonneg = v.nonneg; below = v.below; pinned = v.pinned }

  disable_unless_empty-IsSound :
      (t : Attempt W) (id reason : String) (p : Server W)
      → IsSound (stored p)
      → IsSound (stored (disable_unless_empty t id reason p))
  unfolding disable_unless_empty
  disable_unless_empty-IsSound t id reason p v = elim (Bool-cases (not (str_eq reason ""))) [
    | inl e ↦
        rw e (commit-kept IsSound t _ _ p IsSound-stamped (mark_disabled-IsSound id reason _ v))
    | inr e ↦ rw e v
  ]

  -- A continuation that keeps the store sound.
  abbrev Keeps : (Option String → Server W → Server W × TokenReply) → Type 0
  Keeps next =
      (last : Option String) (p : Server W) → IsSound (stored p) → IsSound (stored (next last p).0)

  grant-IsSound :
      (p : Server W) (next : Option String → Server W → Server W × TokenReply)
      (o : Outcome String String)
      → Keeps next
      → IsSound (stored p)
      → IsSound (stored (grant p next o).0)
  unfolding grant
  grant-IsSound p next (ok tokens) h v = v
  grant-IsSound p next (err e) h v = h (some e) p v
  grant-IsSound p next panic h v = v

  after_account_refresh-IsSound :
      (r : TokenRequest W) (i : ℕ) (id : String)
      (next : Option String → Server W → Server W × TokenReply)
      (o : Server W × Outcome AuthError AuthInfo)
      → Keeps next
      → IsSound (stored o.0)
      → IsSound (stored (after_account_refresh r i id next o).0)
  unfolding after_account_refresh
  after_account_refresh-IsSound r i id next (p, ok auth) h v = grant-IsSound p next (r.tokens i) h v
  after_account_refresh-IsSound r i id next (p, err e) h v =
      h (some e.message) _ (disable_unless_empty-IsSound (r.attempt i) id _ p v)
  after_account_refresh-IsSound r i id next (p, panic) h v = v

  try_candidate-IsSound :
      (r : TokenRequest W) (i : ℕ) (o : Option (Account W)) (last : Option String)
      (next : Option String → Server W → Server W × TokenReply) (p : Server W)
      → Keeps next
      → IsSound (stored p)
      → IsSound (stored (try_candidate r i o last next p).0)
  unfolding try_candidate try_refresh_account_auth
  try_candidate-IsSound r i none last next p h v = h last p v
  try_candidate-IsSound r i (some a) last next p h v =
      after_account_refresh-IsSound r i a.id next _ h (
        take_reloaded-kept true IsSound (IsSound-IsKept true) (r.attempt i) a.id no_auth p
          (r.attempt i).reloaded v)

  try_candidates-IsSound :
      (r : TokenRequest W) (accounts : List (Account W)) (is : List ℕ)
      → Keeps (try_candidates r accounts is)
  unfolding try_candidates
  try_candidates-IsSound r accounts [] last p v = v
  try_candidates-IsSound r accounts (i ∷ is) last p v =
      try_candidate-IsSound r i (get_elem? accounts i) last _ p
        (try_candidates-IsSound r accounts is) v

module _ {W : Type 0} ⦃f : Float64 W⦄ where
  handle_token_form-IsSound :
      (r : TokenRequest W) (now_ms : ℤ) (p : Server W)
      → IsSound (stored p)
      → IsSound (stored (handle_token_form r now_ms p).0)
  unfolding handle_token_form
  handle_token_form-IsSound r now_ms p v =
      elim (Bool-cases (
        not (str_eq (trim_space r.grant_type) "")
        && not (str_eq (trim_space r.grant_type) "refresh_token"))) [
          | inl e ↦ rw e v
          | inr e ↦ rw e (
              rightful (
                Bool-cases (not (str_eq (trim_space r.refresh_token) proxy_runtime_refresh_token))))
        ]
    where
      tried : Server W × TokenReply
      tried =
          try_candidates r (snapshot p.store).accounts
            (runtime_auth_candidate_indexes (snapshot p.store) now_ms) none p

      rightful :
          let wrong = not (str_eq (trim_space r.refresh_token) proxy_runtime_refresh_token) in
          (wrong ≡ true) ⊎ (wrong ≡ false)
          → IsSound
              (stored (if wrong then (p, denied 401 "invalid runtime refresh token") else tried).0)
      rightful (inl e) = rw e v
      rightful (inr e) = rw e (try_candidates-IsSound r (snapshot p.store).accounts _ none p v)

  -- `/oauth/token` keeps the store sound, whatever the form holds and whatever the files and the
  -- refreshes of credentials give.
  pub handle_runtime_oauth_token-IsSound :
      (r : TokenRequest W) (now_ms : ℤ) (p : Server W)
      → IsSound (stored p)
      → IsSound (stored (handle_runtime_oauth_token r now_ms p).0)
  unfolding handle_runtime_oauth_token handle_token_form parsed_or_denied
  handle_runtime_oauth_token-IsSound r now_ms p v =
      elim (r.form_error)
        as (λ e. IsSound (stored (parsed_or_denied e (handle_token_form r now_ms p) p).0)) [
          | none ↦ handle_token_form-IsSound r now_ms p v
          | some e ↦ v
        ]
