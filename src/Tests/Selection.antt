-- ===== src/Tests/Selection.antt =====
-- The theorems on the policy and on the routes, at the stores of `Tests.Data`.
use agent_lb_proxy.Prelude.{arith, ℕ, ◌<◌, ◌≡◌, refl, true, false, some, length}
use agent_lb_proxy.Prelude.Int.{pos}
use agent_lb_proxy.Prelude.Float.{lt}
use agent_lb_proxy.Prelude.Fixed.{fixed, fixed-IsOrdered}
use agent_lb_proxy.Prelude.Outcome.{err, Returns}
use agent_lb_proxy.Policy.{
  contains, is_healthy, healthy_from, healthy_indexes, eligible_indexes, candidates, select_account,
}
use agent_lb_proxy.Policy.Score.{score, account_quota_exhausted, any_additional_exhausted}
use agent_lb_proxy.Policy.Indexes.{quota_left_at}
use agent_lb_proxy.Policy.Safety.{select_account-quota_left}
use agent_lb_proxy.Policy.Available.{
  IsAvailable, select_account-IsAvailable, select_account_none_available,
}
use agent_lb_proxy.Policy.Rotation.{turns, rotation_reaches}
use agent_lb_proxy.Policy.Usage.{IsUsageChoice, select_account-IsUsageChoice}
use agent_lb_proxy.Policy.Stay.{IsPinned, select_account-IsPinned}
use agent_lb_proxy.Tests.Data.{
  account_a, account_b, two_accounts, usage_store, pinned_store, empty_store,
}

select_account-IsAvailable_example :
    Returns (λ sel. IsAvailable (pos 9) two_accounts sel.index) (select_account usage_store (pos 9))
select_account-IsAvailable_example =
    select_account-IsAvailable usage_store (pos 9) 0 (account_a, refl, refl, refl, omega arith)

select_account-quota_left_example :
    Returns
      (λ sel. quota_left_at two_accounts sel.index ≡ true)
      (select_account usage_store (pos 9))
unfolding is_healthy account_quota_exhausted any_additional_exhausted fixed
select_account-quota_left_example = select_account-quota_left usage_store (pos 9) 0 refl refl

select_account_none_available_example :
    select_account empty_store (pos 9) ≡ err "no healthy accounts"
select_account_none_available_example = select_account_none_available empty_store (pos 9) none_there
  where
    none_there : (k : ℕ) → IsAvailable (pos 9) empty_store.accounts k → ⊥
    none_there k (a, found, on, clear, cool) = cc

rotation_reaches_example :
    (n : ℕ) × (n < length (candidates two_accounts (pos 9)))
    × (turns (candidates two_accounts (pos 9)) n 0 ≡ some 1)
unfolding candidates healthy_indexes healthy_from is_healthy eligible_indexes
    account_quota_exhausted any_additional_exhausted contains fixed
rotation_reaches_example = rotation_reaches two_accounts (pos 9) 0 1 refl refl

select_account-IsUsageChoice_example :
    Returns
      (λ sel.
        IsUsageChoice usage_store sel
        × (lt sel.best_score (score account_b usage_store.settings.policy) ≡ false))
      (select_account usage_store (pos 9))
unfolding candidates healthy_indexes healthy_from is_healthy eligible_indexes
    account_quota_exhausted any_additional_exhausted contains fixed
select_account-IsUsageChoice_example =
    select_account-IsUsageChoice fixed-IsOrdered usage_store (pos 9) 1 account_b refl refl refl refl
      refl

select_account-IsPinned_example :
    Returns (IsPinned pinned_store) (select_account pinned_store (pos 9))
unfolding candidates healthy_indexes healthy_from is_healthy eligible_indexes
    account_quota_exhausted any_additional_exhausted contains fixed
select_account-IsPinned_example =
    select_account-IsPinned pinned_store (pos 9) 1 account_b refl refl refl refl
