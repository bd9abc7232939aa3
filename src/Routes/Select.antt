-- ===== src/Routes/Select.antt =====
-- The choice of a route in internal/lb/child_proxy.go: `selectAccount` on a store file that lists the
-- accounts and, as accounts of their own, the children.
use agent_lb_proxy.Prelude.{
  ℕ, suc, Bool, true, false, not, ◌&&◌, String, Option, none, some, List, [], ◌∷◌, ◌++◌, map,
  length, get_elem?, str_eq, ◌==◌, if◌then◌else◌,
}
use agent_lb_proxy.Prelude.Int.{ℤ, pos}
use agent_lb_proxy.Prelude.Float.{Float64, of_int, sub, mul}
use agent_lb_proxy.Prelude.Text.{trim_space}
use agent_lb_proxy.Prelude.Outcome.{Outcome, ok, err, panic}
use agent_lb_proxy.Policy.{Selection, select_account}
use agent_lb_proxy.Policy.Score.{clamp01}
use agent_lb_proxy.Types.{Account, QuotaState, PolicyConfig, StoreFile}
use agent_lb_proxy.Routes.{
  ChildProxyTarget, ChildProxies, child_route_id, account_route_id, first_non_empty,
  fenced_cooldown, current_active_route_id,
}

-- `routeCandidate` without its flag `activeRoute`, which `is_active_route` computes.
pub data Candidate (W : Type 0) : Type 0 where
  local : ℕ → Account W → Candidate W
  child : ChildProxyTarget W → Candidate W

module _ {W : Type 0} where
  unfoldable pub is_active_route : String → Candidate W → Bool
  is_active_route active (local i a) =
      not (str_eq active "") && str_eq active (account_route_id a.id)
  is_active_route active (child t) = not (str_eq active "") && str_eq active (child_route_id t.url)

  -- `i` is the index of the first account of the list.
  unfoldable pub local_candidates : ℕ → List (Account W) → List (Candidate W)
  local_candidates i [] = []
  local_candidates i (a ∷ accounts) = local i a ∷ local_candidates (suc i) accounts

  unfoldable pub route_candidates : StoreFile W → List (ChildProxyTarget W) → List (Candidate W)
  route_candidates sf targets = local_candidates 0 sf.accounts ++ map child targets

  -- The index of the first active route, 0 without one.
  unfoldable pub active_candidate : String → ℕ → List (Candidate W) → ℕ
  active_candidate active i [] = 0
  active_candidate active i (c ∷ cs) =
      let rest = active_candidate active (suc i) cs in if is_active_route active c then i else rest

module _ {W : Type 0} ⦃f : Float64 W⦄ where
  -- The quota of a child is what its score leaves of 100.
  unfoldable pub child_quota : W → QuotaState W
  child_quota score =
      let used = sub (of_int (pos 100)) (mul (clamp01 score) (of_int (pos 100))) in
      record {
        daily_limit = of_int (pos 100);
        daily_used = used;
        daily_reset_at = pos 0;
        weekly_limit = of_int (pos 100);
        weekly_used = used;
        weekly_reset_at = pos 0;
        additional_limits = [];
        last_sync_at = pos 0;
        last_sync_message_counter = pos 0;
        source = "child_proxy";
      }

  unfoldable pub child_account : String → String → ChildProxyTarget W → ℤ → Account W
  child_account id alias target now_ms = record {
    id = id;
    alias = alias;
    home_dir = "";
    base_url = "";
    enabled = true;
    disabled_reason = "";
    cooldown_until_ms =
        fenced_cooldown target.reachable target.healthy target.cooldown_until_ms now_ms;
    last_used_at_ms = target.last_used_at_ms;
    last_switch_reason = target.last_switch_reason;
    chatgpt_account_id = "";
    user_email = "";
    quota = child_quota target.score;
  }

  unfoldable pub child_target_as_account : ChildProxyTarget W → ℤ → Account W
  child_target_as_account target now_ms =
      child_account (child_route_id target.url)
        (first_non_empty (trim_space target.name ∷ target.url ∷ [])) target now_ms

  unfoldable pub candidate_account : ℤ → Candidate W → Account W
  candidate_account now_ms (local i a) = a
  candidate_account now_ms (child t) = child_target_as_account t now_ms

  -- A store file with zero values but for the policy, the active index, the pin and the accounts.
  unfoldable pub fake_store : PolicyConfig W → ℕ → String → List (Account W) → StoreFile W
  fake_store policy active pinned accounts = record {
    version = pos 0;
    updated_at = "";
    settings = record {
      proxy = record {
        name = "";
        listen = "";
        upstream_base_url = "";
        child_proxy_urls = [];
        max_attempts = pos 0;
        usage_timeout_ms = pos 0;
        cooldown_default_s = pos 0;
      };
      proxy_url = "";
      policy = policy;
      quota = record {
        refresh_interval_minutes = pos 0;
        refresh_interval_messages = pos 0;
        cache_ttl_minutes = pos 0;
      };
      commands = record { login = []; run = [] };
      run = record { inherit_shell = false };
    };
    state = record {
      active_index = pos active;
      message_counter = pos 0;
      last_rotation_at_ms = pos 0;
      pinned_account_id = pinned;
    };
    accounts = accounts;
  }

  -- What the result of `selectAccount` picks out of a list; an error gives nothing.
  unfoldable pub chosen_of {ℓ} :
      {A : Type ℓ}
      → List A
      → Outcome String (Selection W)
      → Outcome String (Option (Selection W × A))
  chosen_of xs (ok sel) =
      ok (elim (get_elem? xs sel.index) [ none ↦ none | some x ↦ some (sel, x) ])
  chosen_of xs (err e) = ok none
  chosen_of xs panic = panic

  unfoldable pub select_route_from_targets :
      ChildProxies W
      → StoreFile W
      → ℤ
      → List (ChildProxyTarget W)
      → Outcome String (Option (Selection W × Candidate W))
  select_route_from_targets c sf now_ms targets =
      let candidates = route_candidates sf targets in
      if length candidates == 0
      then ok none
      else chosen_of candidates (
          select_account
            (fake_store sf.settings.policy
              (active_candidate (current_active_route_id c sf) 0 candidates)
              sf.state.pinned_account_id (map (candidate_account now_ms) candidates))
            now_ms)

  -- The index of the last target at the active address, 0 without one.
  unfoldable pub active_target : String → ℕ → ℕ → List (ChildProxyTarget W) → ℕ
  active_target active found i [] = found
  active_target active found i (t ∷ targets) =
      active_target active (if str_eq t.url active then i else found) (suc i) targets

  unfoldable pub select_child_proxy_from_targets :
      ChildProxies W
      → StoreFile W
      → ℤ
      → List (ChildProxyTarget W)
      → Outcome String (Option (Selection W × ChildProxyTarget W))
  select_child_proxy_from_targets c sf now_ms targets =
      if length targets == 0
      then ok none
      else chosen_of targets (
          select_account
            (fake_store sf.settings.policy (active_target c.active_url 0 0 targets) ""
              (map (λ t. child_account t.url t.url t now_ms) targets))
            now_ms)
