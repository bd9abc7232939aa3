-- ===== src/Store/Health.antt =====
-- How the proxy's records of an account decide whether `selectAccount` may return it.
use agent_lb_proxy.Prelude.{
  ℕ, zero, suc, ◌+◌, ◌-◌, ◌*◌, ◌/◌, ◌^◌, ◌≤◌, ◌<◌, ◌≡◌, ◌≢◌, refl, ap, ◌∙◌, true, false, ◌&&◌,
  String, none, some, List, [], ◌∷◌, map, modify, get_elem?, get_elem?-modify_self, index_func-some,
  arith, str_eq, leb,
}
use agent_lb_proxy.Prelude.Int.{
  ℤ, pos, negsuc, ◌+ℤ◌, ◌*ℤ◌, ◌≤ℤ◌, ◌<ℤ◌, floor_div, wrap64_of_lt, wrap64_of_le,
}
use agent_lb_proxy.Prelude.Float.{Float64}
use agent_lb_proxy.Prelude.Outcome.{ok}
use agent_lb_proxy.Types.{Account, StoreFile}
use agent_lb_proxy.Policy.{
  Selection, contains, is_healthy, healthy_from, healthy_indexes, eligible_indexes, candidates,
  select_account,
}
use agent_lb_proxy.Policy.Score.{account_quota_exhausted}
use agent_lb_proxy.Policy.Indexes.{healthy_at, candidates-healthy, candidates-in_range}
use agent_lb_proxy.Policy.Safety.{from_candidates, from_candidates-Returns}
use agent_lb_proxy.Store.Marks.{
  index_of_id, cooldown_deadline, on_account, cool_down, mark_cooldown, disable, mark_disabled,
  expire, expire_cooldowns,
}

nanoseconds : (seconds : ℕ) → pos seconds *ℤ pos 1000000000 ≡ pos (seconds * 1000000000)
unfolding ◌*ℤ◌
nanoseconds seconds = ground arith

later : (clock_ns n : ℕ) → pos clock_ns +ℤ pos n ≡ pos (clock_ns + n)
unfolding ◌+ℤ◌
later clock_ns n = ground arith

-- The deadline is exact as long as the nanoseconds fit an `int64`: `seconds * 1000` milliseconds
-- after the clock's millisecond.
pub cooldown_deadline_exact :
    (clock_ns seconds : ℕ)
    → seconds ≤ 9223372036
    → cooldown_deadline (pos clock_ns) (pos seconds) ≡ pos (clock_ns / 1000000 + seconds * 1000)
unfolding cooldown_deadline
cooldown_deadline_exact clock_ns seconds h =
    rw
      (
        nanoseconds seconds,
        wrap64_of_lt (seconds * 1000000000) (omega arith),
        later clock_ns (seconds * 1000000000),
        cooldown_deadline,
      )
      (ap pos (omega arith))

earlier :
    (clock_ns n : ℕ)
    → 709000000 ≤ n
    → floor_div (pos clock_ns +ℤ negsuc n) 1000000 <ℤ pos (clock_ns / 1000000)
unfolding ◌+ℤ◌
earlier clock_ns n h = ground arith

-- From 9223372037 seconds up to 18446744073 the product wraps round to a negative number, and the
-- deadline lies in the past.
pub cooldown_deadline_wraps :
    (clock_ns seconds : ℕ)
    → 9223372037 ≤ seconds
    → seconds ≤ 18446744073
    → cooldown_deadline (pos clock_ns) (pos seconds) <ℤ pos (clock_ns / 1000000)
unfolding cooldown_deadline
cooldown_deadline_wraps clock_ns seconds h k =
    rw
      (
        nanoseconds seconds,
        wrap64_of_le (seconds * 1000000000) (omega arith) (omega arith),
        cooldown_deadline,
      )
      (earlier clock_ns (2 ^ 64 - 1 - seconds * 1000000000) (omega arith))

module _ {W : Type 0} where
  pub mark_disabled-accounts :
      (id reason : String) (sf : StoreFile W) {i : ℕ}
      → index_of_id id sf.accounts ≡ some i
      → (mark_disabled id reason sf).accounts ≡ modify sf.accounts i (disable reason)
  unfolding mark_disabled
  mark_disabled-accounts id reason sf e = rw (e, mark_disabled)

  pub on_account-accounts :
      (id : String) (change : Account W → Account W) (sf : StoreFile W) {i : ℕ}
      → index_of_id id sf.accounts ≡ some i
      → (on_account id change sf).accounts ≡ modify sf.accounts i change
  unfolding on_account
  on_account-accounts id change sf e = rw (e, on_account)

module _ {W : Type 0} ⦃f : Float64 W⦄ where
  from_list-healthy :
      (sf : StoreFile W) (now_ms : ℤ) (l : List ℕ) (sel : Selection W)
      → ((i : ℕ) → contains l i ≡ true → healthy_at now_ms sf.accounts i ≡ true)
      → ((i : ℕ) → contains l i ≡ true → (a : Account W) × (get_elem? sf.accounts i ≡ some a))
      → from_candidates sf l ≡ ok sel
      → healthy_at now_ms sf.accounts sel.index ≡ true
  from_list-healthy sf now_ms [] sel healthy in_range e = absurd (cc)
  from_list-healthy sf now_ms (x ∷ l) sel healthy in_range e =
      healthy sel.index (rw e at (from_candidates-Returns sf now_ms (x ∷ l) in_range (omega arith)))

  -- Whatever `selectAccount` returns is a healthy account.
  pub select_account-ok :
      (sf : StoreFile W) (now_ms : ℤ) (sel : Selection W)
      → select_account sf now_ms ≡ ok sel
      → healthy_at now_ms sf.accounts sel.index ≡ true
  unfolding select_account
  select_account-ok sf now_ms sel e =
      from_list-healthy sf now_ms (candidates sf.accounts now_ms) sel
        (candidates-healthy sf.accounts now_ms) (candidates-in_range sf.accounts now_ms) e

  pub healthy_at_of_get_elem? :
      (now_ms : ℤ) (accounts : List (Account W)) (i : ℕ) {a : Account W}
      → get_elem? accounts i ≡ some a
      → healthy_at now_ms accounts i ≡ is_healthy now_ms a
  healthy_at_of_get_elem? now_ms accounts i e = rw (e, healthy_at)

  disable-unhealthy :
      (now_ms : ℤ) (reason : String) (a : Account W) → is_healthy now_ms (disable reason a) ≡ false
  unfolding is_healthy disable
  disable-unhealthy now_ms reason a = refl

  pub mark_disabled-unhealthy :
      (id reason : String) (sf : StoreFile W) (now_ms : ℤ) (i : ℕ)
      → index_of_id id sf.accounts ≡ some i
      → healthy_at now_ms (mark_disabled id reason sf).accounts i ≡ false
  mark_disabled-unhealthy id reason sf now_ms i e =
      let (a, found, same) = index_func-some (λ (b : Account W). str_eq b.id id) sf.accounts e in
      rw (mark_disabled-accounts id reason sf e) (
        healthy_at_of_get_elem? now_ms _ i
          (get_elem?-modify_self sf.accounts i (disable reason) found)
        ∙ disable-unhealthy now_ms reason a)

  -- After `markDisabled` the account of that identifier is not selected, at any time.
  pub select_account-mark_disabled :
      (id reason : String) (sf : StoreFile W) (now_ms : ℤ) (i : ℕ) (sel : Selection W)
      → index_of_id id sf.accounts ≡ some i
      → select_account (mark_disabled id reason sf) now_ms ≡ ok sel
      → sel.index ≢ i
  select_account-mark_disabled id reason sf now_ms i sel e s same = absurd (
      ground (
        arith,
        select_account-ok (mark_disabled id reason sf) now_ms sel s,
        mark_disabled-unhealthy id reason sf now_ms i e,
      ))

  cool_down-health :
      (clock_ns seconds now_ms : ℕ) (reason : String) (a : Account W)
      → 0 < seconds
      → seconds ≤ 9223372036
      → is_healthy (pos now_ms) (cool_down (pos clock_ns) (pos seconds) reason a) ≡ (
          a.enabled
          && str_eq a.disabled_reason ""
          && leb (clock_ns / 1000000 + seconds * 1000) now_ms)
  unfolding is_healthy cool_down
  cool_down-health clock_ns seconds now_ms reason a h k =
      ground (arith, cooldown_deadline_exact clock_ns seconds k)

  -- After `markCooldown` for 1 to 9223372036 seconds the account is healthy again exactly from
  -- `seconds * 1000` milliseconds after the clock's millisecond on, if it was not disabled.
  pub mark_cooldown-health :
      (clock_ns seconds : ℕ) (id reason : String) (sf : StoreFile W) (now_ms : ℕ) (i : ℕ)
      (a : Account W)
      → index_of_id id sf.accounts ≡ some i
      → get_elem? sf.accounts i ≡ some a
      → 0 < seconds
      → seconds ≤ 9223372036
      → healthy_at (pos now_ms) (mark_cooldown (pos clock_ns) id (pos seconds) reason sf).accounts i
        ≡ (a.enabled
            && str_eq a.disabled_reason ""
            && leb (clock_ns / 1000000 + seconds * 1000) now_ms)
  unfolding mark_cooldown
  mark_cooldown-health clock_ns seconds id reason sf now_ms i a e found h k =
      rw (on_account-accounts id (cool_down (pos clock_ns) (pos seconds) reason) sf e) (
        healthy_at_of_get_elem? (pos now_ms) _ i (get_elem?-modify_self sf.accounts i _ found)
        ∙ cool_down-health clock_ns seconds now_ms reason a h k)

  expire-is_healthy :
      (now_ms later_ms : ℤ) (a : Account W)
      → now_ms ≤ℤ later_ms
      → is_healthy later_ms (expire now_ms a) ≡ is_healthy later_ms a
  unfolding is_healthy expire
  expire-is_healthy now_ms later_ms a h = ground arith

  healthy_from-expire :
      (now_ms later_ms : ℤ) (i : ℕ) (accounts : List (Account W))
      → now_ms ≤ℤ later_ms
      → healthy_from later_ms i (map (expire now_ms) accounts) ≡ healthy_from later_ms i accounts
  unfolding healthy_from
  healthy_from-expire now_ms later_ms i [] h = refl
  healthy_from-expire now_ms later_ms i (a ∷ accounts) h = rw (
    expire-is_healthy now_ms later_ms a h,
    healthy_from-expire now_ms later_ms (suc i) accounts h,
  )

  expire-exhausted :
      (now_ms : ℤ) (a : Account W)
      → account_quota_exhausted (expire now_ms a) ≡ account_quota_exhausted a
  unfolding account_quota_exhausted expire
  expire-exhausted now_ms a = refl

  get_elem?-expire :
      (now_ms : ℤ) (accounts : List (Account W)) (i : ℕ)
      → (elim (get_elem? (map (expire now_ms) accounts) i) [
        | none ↦ true
        | some a ↦ account_quota_exhausted a
      ])
        ≡ (elim (get_elem? accounts i) [ none ↦ true | some a ↦ account_quota_exhausted a ])
  get_elem?-expire now_ms [] i = refl
  get_elem?-expire now_ms (a ∷ accounts) zero = expire-exhausted now_ms a
  get_elem?-expire now_ms (a ∷ accounts) (suc i) = get_elem?-expire now_ms accounts i

  eligible_indexes-expire :
      (now_ms : ℤ) (accounts : List (Account W)) (idxs : List ℕ)
      → eligible_indexes (map (expire now_ms) accounts) idxs ≡ eligible_indexes accounts idxs
  unfolding eligible_indexes
  eligible_indexes-expire now_ms accounts [] = refl
  eligible_indexes-expire now_ms accounts (x ∷ idxs) =
      ground
        (arith, get_elem?-expire now_ms accounts x, eligible_indexes-expire now_ms accounts idxs)

  -- `expireCooldowns` is housekeeping: at that time and later the candidates are the same without
  -- it.
  pub candidates-expire_cooldowns :
      (now_ms later_ms : ℤ) (sf : StoreFile W)
      → now_ms ≤ℤ later_ms
      → candidates (expire_cooldowns now_ms sf).accounts later_ms ≡ candidates sf.accounts later_ms
  unfolding candidates healthy_indexes expire_cooldowns
  candidates-expire_cooldowns now_ms later_ms sf h =
      rw (healthy_from-expire now_ms later_ms 0 sf.accounts h, eligible_indexes-expire)
