-- ===== src/Policy/Available.antt =====
-- `selectAccount` against what makes an account available, in words of its own.
use agent_lb_proxy.Prelude.{
  ℕ, ◌≡◌, refl, true, false, Option, none, some, List, get_elem?, arith, str_eq, Bool-cases, inl,
  inr,
}
use agent_lb_proxy.Prelude.Int.{ℤ, ◌≤ℤ◌}
use agent_lb_proxy.Prelude.Float.{Float64}
use agent_lb_proxy.Prelude.Outcome.{err, Returns, Returns-mono}
use agent_lb_proxy.Types.{Account, StoreFile}
use agent_lb_proxy.Policy.{is_healthy, select_account}
use agent_lb_proxy.Policy.Indexes.{healthy_at, candidates-healthy, candidates-eq-nil}
use agent_lb_proxy.Policy.Safety.{select_account-Returns}

module _ {W : Type 0} where
  -- At the index there is an account that is enabled, with no reason against it, and whose cooldown
  -- has ended by the time.
  abbrev pub IsAvailable : ℤ → List (Account W) → ℕ → Type 0
  IsAvailable now_ms accounts i =
      (a : Account W) × (get_elem? accounts i ≡ some a)
      × (a.enabled ≡ true)
      × (str_eq a.disabled_reason "" ≡ true)
      × (a.cooldown_until_ms ≤ℤ now_ms)

module _ {W : Type 0} ⦃f : Float64 W⦄ where
  healthy_of_parts :
      (now_ms : ℤ) (a : Account W)
      → a.enabled ≡ true
      → str_eq a.disabled_reason "" ≡ true
      → a.cooldown_until_ms ≤ℤ now_ms
      → is_healthy now_ms a ≡ true
  unfolding is_healthy
  healthy_of_parts now_ms a h k l = ground arith

  parts_of_healthy :
      (now_ms : ℤ) (a : Account W)
      → is_healthy now_ms a ≡ true
      → (a.enabled ≡ true) × (str_eq a.disabled_reason "" ≡ true) × (a.cooldown_until_ms ≤ℤ now_ms)
  unfolding is_healthy
  parts_of_healthy now_ms a h = (ground arith, ground arith, ground arith)

  healthy_at-IsAvailable :
      (now_ms : ℤ) (accounts : List (Account W)) (i : ℕ)
      → IsAvailable now_ms accounts i
      → healthy_at now_ms accounts i ≡ true
  healthy_at-IsAvailable now_ms accounts i (a, found, h, k, l) =
      rw (found, healthy_at) (healthy_of_parts now_ms a h k l)

  is_healthy-IsAvailable :
      (now_ms : ℤ) (accounts : List (Account W)) (i : ℕ) (o : Option (Account W))
      → get_elem? accounts i ≡ o
      → (elim o [ none ↦ false | some a ↦ is_healthy now_ms a ]) ≡ true
      → IsAvailable now_ms accounts i
  is_healthy-IsAvailable now_ms accounts i none e h = absurd (cc)
  is_healthy-IsAvailable now_ms accounts i (some a) e h =
      let (x, y, z) = parts_of_healthy now_ms a h in (a, e, x, y, z)

  IsAvailable-healthy_at :
      (now_ms : ℤ) (accounts : List (Account W)) (i : ℕ)
      → healthy_at now_ms accounts i ≡ true
      → IsAvailable now_ms accounts i
  IsAvailable-healthy_at now_ms accounts i h =
      is_healthy-IsAvailable now_ms accounts i (get_elem? accounts i) refl h

  -- If some account is available at a time, `selectAccount` returns, with neither an error nor a panic,
  -- the index of an account that is available at that time.
  pub select_account-IsAvailable :
      (sf : StoreFile W) (now_ms : ℤ) (k : ℕ)
      → IsAvailable now_ms sf.accounts k
      → Returns (λ sel. IsAvailable now_ms sf.accounts sel.index) (select_account sf now_ms)
  select_account-IsAvailable sf now_ms k h =
      Returns-mono _ _ (select_account sf now_ms)
        (λ sel c.
          IsAvailable-healthy_at now_ms sf.accounts sel.index
            (candidates-healthy sf.accounts now_ms sel.index c))
        (select_account-Returns sf now_ms k (healthy_at-IsAvailable now_ms sf.accounts k h))

  -- If no account is available at a time, `selectAccount` fails with the error that says so.
  pub select_account_none_available :
      (sf : StoreFile W) (now_ms : ℤ)
      → ((k : ℕ) → IsAvailable now_ms sf.accounts k → ⊥)
      → select_account sf now_ms ≡ err "no healthy accounts"
  unfolding select_account
  select_account_none_available sf now_ms h =
      rw (candidates-eq-nil sf.accounts now_ms (λ k. unhealthy k)) refl
    where
      unhealthy : (k : ℕ) → healthy_at now_ms sf.accounts k ≡ false
      unhealthy k = elim (Bool-cases (healthy_at now_ms sf.accounts k)) [
        | inl e ↦ absurd (h k (IsAvailable-healthy_at now_ms sf.accounts k e))
        | inr e ↦ e
      ]
