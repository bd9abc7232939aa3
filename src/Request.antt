-- ===== src/Request.antt =====
-- internal/lb/request.go: where a request goes, and what a status means. A path or a body is its list
-- of code points; `wide` is what `strings.ToLower` does from code point 128 on (Unicode's table).
use agent_lb_proxy.Prelude.{
  ℕ, ◌+◌, Bool, true, false, ◌&&◌, ◌||◌, not, Option, none, some, [], ◌++◌, map, ltb, leb, ◌==◌,
  if◌then◌else◌,
}
use agent_lb_proxy.Prelude.Int.{ℤ, pos, ltb_ℤ}
use agent_lb_proxy.Prelude.Codes.{
  Text, codes, text_equal, has_prefix, is_some, cut_prefix, trim_prefix, contains_sub, trim_slash,
  trim_left_text, trim_right_text,
}

-- The typographic apostrophe becomes the plain one.
unfoldable pub plain_apostrophe : ℕ → ℕ
plain_apostrophe c = if c == 0x2019 then 39 else c

unfoldable pub is_retryable_status : ℕ → Bool
is_retryable_status status = status == 429 || (leb 500 status && leb status 599)

unfoldable pub default_backoff_seconds : ℕ → ℤ → ℤ
default_backoff_seconds status fallback =
    if status == 429
    then (if ltb_ℤ (pos 0) fallback then fallback else pos 5)
    else if ltb_ℤ (pos 0) fallback
    then fallback
    else pos 2

module _ (wide : ℕ → ℕ) where
  unfoldable pub lower : ℕ → ℕ
  lower c = if leb b'A' c && leb c b'Z' then c + 32 else if ltb c 128 then c else wide c

  unfoldable pub to_lower : Text → Text
  to_lower s = map lower s

  unfoldable pub account_responses_suffix : Text → Option Text
  account_responses_suffix path =
      let p = to_lower path in
      if text_equal p (codes "/responses")
      then some []
      else if has_prefix p (codes "/responses/")
      then some (trim_prefix p (codes "/responses"))
      else if contains_sub p (codes "/v1/responses")
      then cut_prefix (codes "/v1/responses") p
      else none

  unfoldable pub account_apps_suffix : Text → Option Text
  account_apps_suffix path =
      let p = to_lower path in
      if text_equal p (codes "/api/codex/apps")
      then some []
      else if text_equal p (codes "/api/codex/apps/")
      then some (codes "/")
      else if has_prefix p (codes "/api/codex/apps/")
      then some (trim_prefix p (codes "/api/codex/apps"))
      else none

  unfoldable pub is_account_scoped_path : Text → Bool
  is_account_scoped_path path =
      let p = to_lower path in
      is_some (account_responses_suffix p)
      || contains_sub p (codes "/chat/completions")
      || contains_sub p (codes "/backend-api/codex/responses")

  unfoldable pub should_disable_for_auth_failure : ℕ → Text → Bool
  should_disable_for_auth_failure status path =
      if status == 401
      then true
      else if not (status == 403)
      then false
      else is_account_scoped_path path

  unfoldable pub is_usage_limit_response : ℕ → Text → Text → Bool
  is_usage_limit_response status path body =
      if not (status == 403) || not (is_account_scoped_path path)
      then false
      else let b = to_lower (map plain_apostrophe (trim_right_text (trim_left_text body))) in
        if text_equal b []
        then false
        else contains_sub b (codes "you've hit your usage limit")
          || (contains_sub b (codes "usage limit")
              && contains_sub b (codes "purchase more credits"))
          || contains_sub b (codes "chatgpt.com/codex/settings/usage")

  -- The path of `rewriteForAccount`, for the path of the base URL. `clean` is `path.Clean`.
  module _ (clean : Text → Text) where
    unfoldable pub join_path : Text → Text → Text
    join_path prefix p =
        let prefix' = trim_slash prefix in
        if text_equal p []
        then prefix'
        else if has_prefix p (prefix' ++ codes "/") || text_equal p prefix'
        then p
        else clean (prefix' ++ (codes "/" ++ trim_prefix p (codes "/")))

    unfoldable pub codex_prefix : Text → Text
    codex_prefix base = if contains_sub base (codes "/codex") then base else base ++ codes "/codex"

    unfoldable pub rewrite_path : Text → Text → Text
    rewrite_path base_path source =
        let base = trim_slash base_path in
        if contains_sub base (codes "/backend-api")
        then (elim (account_responses_suffix source) [
          | some suffix ↦ codex_prefix base ++ (codes "/responses" ++ suffix)
          | none ↦ elim (account_apps_suffix source) [
            | some suffix ↦ base ++ (codes "/wham/apps" ++ suffix)
            | none ↦
                if contains_sub source (codes "/chat/completions")
                then codex_prefix base ++ codes "/responses"
                else join_path base source
          ]
        ])
        else if not (text_equal base []) && not (text_equal base (codes "/"))
        then join_path base source
        else source
