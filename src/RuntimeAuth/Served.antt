-- ===== src/RuntimeAuth/Served.antt =====
-- When `/oauth/token` gives tokens.
use agent_lb_proxy.Prelude.{
  ℕ, ◌<◌, ◌≡◌, refl, ap, ◌∙◌, subst, Bool, true, false, ◌&&◌, ◌||◌, String, Option, none, some,
  List, [], ◌∷◌, length, get_elem?, get_elem?_of_lt, ◌==◌, arith, Bool-cases, ◌⊎◌, inl, inr,
}
use agent_lb_proxy.Prelude.Int.{ℤ}
use agent_lb_proxy.Prelude.Text.{trim_space}
use agent_lb_proxy.Prelude.Float.{Float64}
use agent_lb_proxy.Prelude.Outcome.{Outcome, ok, err, panic}
use agent_lb_proxy.Types.{Account, AuthInfo, StoreFile}
use agent_lb_proxy.Policy.{contains}
use agent_lb_proxy.Store.Overrides.{snapshot}
use agent_lb_proxy.Serve.{AuthError, Attempt, Server}
use agent_lb_proxy.Serve.Credentials.{take_refreshed, take_reloaded, try_refresh_account_auth}
use agent_lb_proxy.RuntimeAuth.{
  TokenReply, TokenRequest, granted, denied, no_auth, grant, after_account_refresh, try_candidate,
  try_candidates, proxy_runtime_refresh_token, runtime_auth_candidate_indexes, handle_token_form,
  parsed_or_denied, handle_runtime_oauth_token,
}
use agent_lb_proxy.RuntimeAuth.Candidates.{runtime_auth_candidate_indexes-contains}

abbrev pub is_granted : TokenReply → Bool
is_granted (granted tokens) = true
is_granted (denied status e) = false

abbrev is_ok : {E : Type 0} → {A : Type 0} → Outcome E A → Bool
is_ok (ok a) = true
is_ok (err e) = false
is_ok panic = false

abbrev is_panic : {E : Type 0} → {A : Type 0} → Outcome E A → Bool
is_panic (ok a) = false
is_panic (err e) = false
is_panic panic = true

-- With no credentials that failed before, those on disk are always refreshed.
abbrev refreshed_outcome :
    Outcome AuthError AuthInfo → Outcome AuthError AuthInfo → Outcome AuthError AuthInfo
refreshed_outcome (ok current) refreshed = refreshed
refreshed_outcome (err e) refreshed = err e
refreshed_outcome panic refreshed = panic

module _ {W : Type 0} where
  -- The credentials of the account are read and refreshed, and tokens are made of them.
  abbrev pub is_usable : TokenRequest W → ℕ → Bool
  is_usable r i =
      is_ok (r.attempt i).reloaded && is_ok (r.attempt i).refreshed && is_ok (r.tokens i)

  abbrev pub is_broken : TokenRequest W → ℕ → Bool
  is_broken r i =
      is_panic (r.attempt i).reloaded || is_panic (r.attempt i).refreshed || is_panic (r.tokens i)

  -- A continuation that gives tokens.
  abbrev Gives : (Option String → Server W → Server W × TokenReply) → Type 0
  Gives next = (last : Option String) (p : Server W) → is_granted (next last p).1 ≡ true

  take_refreshed-outcome :
      (t : Attempt W) (id : String) (p : Server W) (o : Outcome AuthError AuthInfo)
      → (take_refreshed t id p o).1 ≡ o
  unfolding take_refreshed
  take_refreshed-outcome t id p (ok auth) = refl
  take_refreshed-outcome t id p (err e) = refl
  take_refreshed-outcome t id p panic = refl

  take_reloaded-outcome :
      (t : Attempt W) (id : String) (p : Server W) (o : Outcome AuthError AuthInfo)
      → (take_reloaded t id no_auth p o).1 ≡ refreshed_outcome o t.refreshed
  unfolding take_reloaded
  take_reloaded-outcome t id p (ok current) = take_refreshed-outcome t id p t.refreshed
  take_reloaded-outcome t id p (err e) = refl
  take_reloaded-outcome t id p panic = refl

  -- The account gives tokens itself, or it does not panic and the accounts after it give them.
  Turn : (Option String → Server W → Server W × TokenReply) → Bool → Bool → Type 0
  Turn next usable broken = (usable ≡ true) ⊎ (Gives next × (broken ≡ false))

  grant-granted :
      (p : Server W) (next : Option String → Server W → Server W × TokenReply)
      (o : Outcome String String)
      → Turn next (is_ok o) (is_panic o)
      → is_granted (grant p next o).1 ≡ true
  unfolding grant Turn
  grant-granted p next (ok tokens) h = refl
  grant-granted p next (err e) (inl q) = ground (arith, q)
  grant-granted p next (err e) (inr (g, q)) = g (some e) p
  grant-granted p next panic (inl q) = ground (arith, q)
  grant-granted p next panic (inr (g, q)) = ground (arith, q)

  after_account_refresh-granted :
      (r : TokenRequest W) (i : ℕ) (id : String)
      (next : Option String → Server W → Server W × TokenReply) (p : Server W)
      (o : Outcome AuthError AuthInfo)
      → Turn next (is_ok o && is_ok (r.tokens i)) (is_panic o || is_panic (r.tokens i))
      → is_granted (after_account_refresh r i id next (p, o)).1 ≡ true
  unfolding after_account_refresh Turn
  after_account_refresh-granted r i id next p (ok auth) h = grant-granted p next (r.tokens i) h
  after_account_refresh-granted r i id next p (err e) (inl q) = ground (arith, q)
  after_account_refresh-granted r i id next p (err e) (inr (g, q)) = g (some e.message) _
  after_account_refresh-granted r i id next p panic (inl q) = ground (arith, q)
  after_account_refresh-granted r i id next p panic (inr (g, q)) = ground (arith, q)

  refreshed_outcome-Turn :
      (next : Option String → Server W → Server W × TokenReply)
      (reloaded refreshed : Outcome AuthError AuthInfo) (tokens : Outcome String String)
      → Turn next
          (is_ok reloaded && is_ok refreshed && is_ok tokens)
          (is_panic reloaded || is_panic refreshed || is_panic tokens)
      → Turn next
          (is_ok (refreshed_outcome reloaded refreshed) && is_ok tokens)
          (is_panic (refreshed_outcome reloaded refreshed) || is_panic tokens)
  unfolding Turn
  refreshed_outcome-Turn next (ok current) refreshed tokens h = h
  refreshed_outcome-Turn next (err e) refreshed tokens (inl q) = ground (arith, q)
  refreshed_outcome-Turn next (err e) refreshed tokens (inr (g, q)) = inr (g, ground (arith, q))
  refreshed_outcome-Turn next panic refreshed tokens (inl q) = ground (arith, q)
  refreshed_outcome-Turn next panic refreshed tokens (inr (g, q)) = ground (arith, q)

  try_candidate-granted :
      (r : TokenRequest W) (i : ℕ) (a : Account W) (last : Option String)
      (next : Option String → Server W → Server W × TokenReply) (p : Server W)
      → Turn next (is_usable r i) (is_broken r i)
      → is_granted (try_candidate r i (some a) last next p).1 ≡ true
  unfolding try_candidate try_refresh_account_auth
  try_candidate-granted r i a last next p h = after_account_refresh-granted r i a.id next _ _ (
      rw (take_reloaded-outcome t a.id p t.reloaded)
        (refreshed_outcome-Turn next t.reloaded t.refreshed (r.tokens i) h))
    where
      t : Attempt W
      t = r.attempt i

  -- An index without an account is passed over.
  try_candidate-passed :
      (r : TokenRequest W) (i : ℕ) (o : Option (Account W)) (last : Option String)
      (next : Option String → Server W → Server W × TokenReply) (p : Server W)
      → is_broken r i ≡ false
      → Gives next
      → is_granted (try_candidate r i o last next p).1 ≡ true
  unfolding try_candidate Turn
  try_candidate-passed r i none last next p b g = g last p
  try_candidate-passed r i (some a) last next p b g =
      try_candidate-granted r i a last next p (inr (g, b))

  try_candidates-granted :
      (r : TokenRequest W) (accounts : List (Account W)) (is : List ℕ) (i : ℕ) (a : Account W)
      → get_elem? accounts i ≡ some a
      → is_usable r i ≡ true
      → ((j : ℕ) → is_broken r j ≡ false)
      → contains is i ≡ true
      → Gives (try_candidates r accounts is)
  unfolding contains try_candidates Turn
  try_candidates-granted r accounts [] i a e u b h last p = ground (arith, h)
  try_candidates-granted r accounts (j ∷ is) i a e u b h last p = elim (Bool-cases (j == i)) [
    | inl q ↦
        subst
          (λ k.
            is_granted
              (try_candidate r k (get_elem? accounts k) last (try_candidates r accounts is) p).1
            ≡ true)
          (same q)
          (rw e (try_candidate-granted r i a last (try_candidates r accounts is) p (inl u)))
    | inr q ↦
        try_candidate-passed r j (get_elem? accounts j) last _ p (b j)
          (try_candidates-granted r accounts is i a e u b (ground (arith, h, q)))
  ]
    where
      same : (j == i) ≡ true → i ≡ j
      same q = ground (arith, q)

module _ {W : Type 0} ⦃f : Float64 W⦄ where
  handle_token_form-granted :
      (r : TokenRequest W) (now_ms : ℤ) (p : Server W) (i : ℕ)
      → trim_space r.grant_type ≡ "refresh_token"
      → trim_space r.refresh_token ≡ proxy_runtime_refresh_token
      → i < length (snapshot p.store).accounts
      → is_usable r i ≡ true
      → ((j : ℕ) → is_broken r j ≡ false)
      → is_granted (handle_token_form r now_ms p).1 ≡ true
  unfolding handle_token_form
  handle_token_form-granted r now_ms p i type token h u b =
      rw (type, token)
        (try_candidates-granted r snap.accounts (runtime_auth_candidate_indexes snap now_ms) i
          account.0 account.1 u b listed none p)
    where
      snap : StoreFile W
      snap = snapshot p.store

      account : (a : Account W) × (get_elem? snap.accounts i ≡ some a)
      account = get_elem?_of_lt snap.accounts i h

      listed : contains (runtime_auth_candidate_indexes snap now_ms) i ≡ true
      listed = (runtime_auth_candidate_indexes-contains snap now_ms).1 i ∙ ground (arith, h)

  -- When the form of `/oauth/token` parses, its grant type is refresh_token and it holds the runtime
  -- refresh token, it gets tokens if the credentials of one account of the snapshot can be read and
  -- refreshed and tokens made of them, whatever account is selected and whatever errors the other
  -- accounts give, when nothing panics.
  pub handle_runtime_oauth_token-granted :
      (r : TokenRequest W) (now_ms : ℤ) (p : Server W) (i : ℕ)
      → r.form_error ≡ none
      → trim_space r.grant_type ≡ "refresh_token"
      → trim_space r.refresh_token ≡ proxy_runtime_refresh_token
      → i < length (snapshot p.store).accounts
      → is_usable r i ≡ true
      → ((j : ℕ) → is_broken r j ≡ false)
      → is_granted (handle_runtime_oauth_token r now_ms p).1 ≡ true
  unfolding handle_runtime_oauth_token parsed_or_denied
  handle_runtime_oauth_token-granted r now_ms p i no_error type token h u b =
      ap (λ e. is_granted (parsed_or_denied e (handle_token_form r now_ms p) p).1) no_error
      ∙ handle_token_form-granted r now_ms p i type token h u b
