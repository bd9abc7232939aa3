-- ===== src/Maintain/Sound.antt =====
-- The store stays sound through a refresh of the quotas, and a forced refresh disables no account.
use agent_lb_proxy.Prelude.{
  ℕ, ◌≡◌, refl, ap, ◌∙◌, Bool, true, String, Option, none, some, str_eq, arith, Bool-cases, inl,
  inr,
}
use agent_lb_proxy.Prelude.Int.{ℤ}
use agent_lb_proxy.Prelude.Float.{Float64}
use agent_lb_proxy.Types.{Account, StoreFile}
use agent_lb_proxy.Store.Marks.{
  on_account, mark_auth_recovered, recover, store_refresh, take_refresh,
}
use agent_lb_proxy.Store.Invariant.{IsSound, mark_disabled-IsSound, on_account-IsSound}
use agent_lb_proxy.Store.View.{map_option, lookup, changed, lookup-change_at, on_account-change_at}
use agent_lb_proxy.Serve.{Server}
use agent_lb_proxy.Maintain.{Check, maybe_refresh_quota}
use agent_lb_proxy.Maintain.Kept.{stored, IsKept}
use agent_lb_proxy.Maintain.Pass.{maybe_refresh_quota-kept}

module _ {W : Type 0} where
  pub IsSound-IsKept : (force : Bool) → IsKept {W = W} force IsSound
  unfolding mark_auth_recovered recover store_refresh take_refresh
  IsSound-IsKept force = record {
    stamped = λ stamp sf v. record { nonneg = v.nonneg; below = v.below; pinned = v.pinned };
    disabled = λ q id sf v. mark_disabled-IsSound id "missing-auth" sf v;
    recovered = λ id auth sf v. on_account-IsSound id (recover auth) sf (λ a. refl) v;
    refreshed = λ id a sf e v. on_account-IsSound id (take_refresh a) sf (λ b. refl) v;
  }

  -- The account of the identifier, if there is one, is enabled.
  abbrev is_enabled : Option (Account W) → Bool
  is_enabled none = true
  is_enabled (some a) = a.enabled

  abbrev pub IsEnabledAt : String → StoreFile W → Type 0
  IsEnabledAt x sf = is_enabled (lookup sf.accounts x) ≡ true

  enabled_changed :
      (id x : String) (change : Account W → Account W) (v : String → Option (Account W))
      → ((a : Account W) → (change a).enabled ≡ true)
      → is_enabled (v x) ≡ true
      → is_enabled (changed id change v x) ≡ true
  enabled_changed id x change v h e = elim (Bool-cases (str_eq id x)) [
    | inl q ↦ rw q (mapped (v x))
    | inr q ↦ rw q e
  ]
    where
      mapped : (o : Option (Account W)) → is_enabled (map_option change o) ≡ true
      mapped none = refl
      mapped (some a) = h a

  on_account-IsEnabledAt :
      (x id : String) (change : Account W → Account W) (sf : StoreFile W)
      → ((a : Account W) → (change a).id ≡ a.id)
      → ((a : Account W) → (change a).enabled ≡ true)
      → IsEnabledAt x sf
      → IsEnabledAt x (on_account id change sf)
  on_account-IsEnabledAt x id change sf h g e =
      ap (λ l. is_enabled (lookup l x)) (on_account-change_at id change sf).0
      ∙ ap is_enabled (lookup-change_at id change sf.accounts x h)
      ∙ enabled_changed id x change (lookup sf.accounts) g e

  IsEnabledAt-IsKept : (x : String) → IsKept {W = W} true (IsEnabledAt x)
  unfolding mark_auth_recovered recover store_refresh take_refresh
  IsEnabledAt-IsKept x = record {
    stamped = λ stamp sf e. e;
    disabled = λ q id sf e. absurd (ground (arith, q));
    recovered =
        λ id auth sf e. on_account-IsEnabledAt x id (recover auth) sf (λ a. refl) (λ a. refl) e;
    refreshed =
        λ id a sf h e. on_account-IsEnabledAt x id (take_refresh a) sf (λ b. refl) (λ b. h) e;
  }

module _ {W : Type 0} ⦃f : Float64 W⦄ where
  -- A refresh of the quotas, in the background or forced, keeps the store sound, whatever the files, the
  -- refreshes of credentials and the usage requests give.
  pub maybe_refresh_quota-IsSound :
      (in_flight force : Bool) (now_s now_ms : ℤ) (checks : ℕ → Check W) (p : Server W)
      → IsSound (stored p)
      → IsSound (stored (maybe_refresh_quota in_flight force now_s now_ms checks p))
  maybe_refresh_quota-IsSound in_flight force now_s now_ms checks p v =
      maybe_refresh_quota-kept force IsSound (IsSound-IsKept force) in_flight now_s now_ms checks p
        v

  -- A forced refresh disables no account: if the account of an identifier is enabled before, it is
  -- enabled after, whatever the files, the refreshes of credentials and the usage requests give.
  pub maybe_refresh_quota-IsEnabledAt :
      (in_flight : Bool) (now_s now_ms : ℤ) (checks : ℕ → Check W) (p : Server W) (x : String)
      → IsEnabledAt x (stored p)
      → IsEnabledAt x (stored (maybe_refresh_quota in_flight true now_s now_ms checks p))
  maybe_refresh_quota-IsEnabledAt in_flight now_s now_ms checks p x e =
      maybe_refresh_quota-kept true (IsEnabledAt x) (IsEnabledAt-IsKept x) in_flight now_s now_ms
        checks p e
