-- ===== src/Routes/Safety.antt =====
-- Which routes `selectRouteFromTargets` may return.
use agent_lb_proxy.Prelude.{
  ℕ, zero, suc, ◌+◌, ◌^◌, ◌<◌, ◌≡◌, refl, inl, inr, Bool, true, false, ◌&&◌, none, some, List, [],
  ◌∷◌, map, get_elem?, arith, Option-cases, if◌then◌else◌, String,
}
use agent_lb_proxy.Prelude.Int.{ℤ, pos, ◌+ℤ◌, wrap64, wrap64_of_lt, ltb_ℤ}
use agent_lb_proxy.Prelude.Float.{Float64}
use agent_lb_proxy.Prelude.Outcome.{Outcome, ok, err, panic}
use agent_lb_proxy.Types.{StoreFile}
use agent_lb_proxy.Policy.{Selection, is_healthy, select_account}
use agent_lb_proxy.Policy.Indexes.{healthy_at}
use agent_lb_proxy.Store.Health.{select_account-ok}
use agent_lb_proxy.Routes.{ChildProxies, ChildProxyTarget, fenced_cooldown, current_active_route_id}
use agent_lb_proxy.Routes.Select.{
  Candidate, local, child, child_account, child_target_as_account, candidate_account, fake_store,
  chosen_of, select_route_from_targets, route_candidates, active_candidate,
}

next_ms : (n : ℕ) → suc n < 2 ^ 63 → wrap64 (pos n +ℤ pos 1) ≡ pos (n + 1)
unfolding ◌+ℤ◌
next_ms n h = ground (arith, wrap64_of_lt (n + 1) (omega arith))

-- A child that is not reachable or not healthy cools down beyond `now`.
fenced_cooldown-later :
    (reachable healthy : Bool) (until_ms : ℤ) (n : ℕ)
    → suc n < 2 ^ 63
    → (reachable && healthy) ≡ false
    → ltb_ℤ (pos n) (fenced_cooldown reachable healthy until_ms (pos n)) ≡ true
unfolding fenced_cooldown
fenced_cooldown-later reachable healthy until_ms n h k = ground (arith, next_ms n h)

module _ {W : Type 0} ⦃f : Float64 W⦄ where
  -- The candidate may serve: an account by the test of the policy, a child by its last status.
  unfoldable pub can_serve : ℤ → Candidate W → Bool
  can_serve now_ms (local i a) = is_healthy now_ms a
  can_serve now_ms (child t) = t.reachable && t.healthy

  candidate_account-healthy :
      (n : ℕ) (c : Candidate W)
      → suc n < 2 ^ 63
      → is_healthy (pos n) (candidate_account (pos n) c) ≡ true
      → can_serve (pos n) c ≡ true
  unfolding is_healthy candidate_account child_target_as_account child_account can_serve
  candidate_account-healthy n (local i a) h k = k
  candidate_account-healthy n (child t) h k =
      ground (arith, fenced_cooldown-later t.reachable t.healthy t.cooldown_until_ms n h)

  healthy_at-candidates :
      (n : ℕ) (cs : List (Candidate W)) (i : ℕ) {c : Candidate W}
      → suc n < 2 ^ 63
      → get_elem? cs i ≡ some c
      → healthy_at (pos n) (map (candidate_account (pos n)) cs) i ≡ true
      → can_serve (pos n) c ≡ true
  healthy_at-candidates n [] i h e k = ground arith
  healthy_at-candidates n (x ∷ cs) zero {c = c} h e k =
      let same : x ≡ c = ground arith in rw (← same) (candidate_account-healthy n x h k)
  healthy_at-candidates n (x ∷ cs) (suc i) h e k = healthy_at-candidates n cs i h e k

  chosen_of-can_serve :
      (n : ℕ) (cs : List (Candidate W)) (sf : StoreFile W) (o : Outcome String (Selection W))
      (sel : Selection W) (c : Candidate W)
      → suc n < 2 ^ 63
      → sf.accounts ≡ map (candidate_account (pos n)) cs
      → select_account sf (pos n) ≡ o
      → chosen_of cs o ≡ ok (some (sel, c))
      → can_serve (pos n) c ≡ true
  unfolding chosen_of
  chosen_of-can_serve n cs sf (ok s) sel c h same e k = elim (Option-cases (get_elem? cs s.index)) [
    | inl x ↦ ground (arith, x)
    | inr (d, x) ↦
        let first : d ≡ c = ground (arith, x) in
        rw (← first)
          (healthy_at-candidates n cs s.index h x (rw (← same) (select_account-ok sf (pos n) s e)))
  ]
  chosen_of-can_serve n cs sf (err x) sel c h same e k = ground arith
  chosen_of-can_serve n cs sf panic sel c h same e k = ground arith

  chosen_of-if :
      (b : Bool) (n : ℕ) (cs : List (Candidate W)) (sf : StoreFile W) (sel : Selection W)
      (c : Candidate W)
      → suc n < 2 ^ 63
      → sf.accounts ≡ map (candidate_account (pos n)) cs
      → (if b then ok none else chosen_of cs (select_account sf (pos n))) ≡ ok (some (sel, c))
      → can_serve (pos n) c ≡ true
  chosen_of-if true n cs sf sel c h same e = ground arith
  chosen_of-if false n cs sf sel c h same e = chosen_of-can_serve n cs sf _ sel c h same refl e

  -- A route that is selected can serve: an account passes the health test of the policy, and a child
  -- was reachable and healthy. The time is from 1970 on, and the next millisecond fits an `int64`.
  pub select_route-can_serve :
      (cs : ChildProxies W) (sf : StoreFile W) (n : ℕ) (targets : List (ChildProxyTarget W))
      (sel : Selection W) (c : Candidate W)
      → suc n < 2 ^ 63
      → select_route_from_targets cs sf (pos n) targets ≡ ok (some (sel, c))
      → can_serve (pos n) c ≡ true
  unfolding select_route_from_targets fake_store
  select_route-can_serve cs sf n targets sel c h e =
      chosen_of-if _ n (route_candidates sf targets)
        (fake_store sf.settings.policy
          (active_candidate (current_active_route_id cs sf) 0 (route_candidates sf targets))
          sf.state.pinned_account_id
          (map (candidate_account (pos n)) (route_candidates sf targets)))
        sel c h refl e
