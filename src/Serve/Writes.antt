-- ===== src/Serve/Writes.antt =====
-- What a write of the store during an attempt does to an account: which keep its place, and which
-- make it unhealthy.
use agent_lb_proxy.Prelude.{
  ℕ, zero, suc, ◌/◌, ◌≤◌, ◌≡◌, refl, ◌∙◌, inl, inr, true, false, String, none, some, List, [], ◌∷◌,
  modify, get_elem?-modify_self, index_func, index_func-some, arith, str_eq, Option-cases,
}
use agent_lb_proxy.Prelude.Int.{ℤ, pos, negsuc, ◌≤ℤ◌, leb_ℤ}
use agent_lb_proxy.Prelude.Float.{Float64}
use agent_lb_proxy.Types.{Account, StoreFile, AuthInfo}
use agent_lb_proxy.Policy.{is_healthy}
use agent_lb_proxy.Policy.Indexes.{healthy_at}
use agent_lb_proxy.Store.{Store, update, write_store, move_base_url}
use agent_lb_proxy.Store.Overrides.{apply_runtime_overrides, snapshot}
use agent_lb_proxy.Store.Marks.{
  index_of_id, cool_down, mark_cooldown, mark_disabled, recover, mark_auth_recovered,
}
use agent_lb_proxy.Store.Health.{
  cooldown_deadline_exact, healthy_at_of_get_elem?, on_account-accounts, mark_disabled-unhealthy,
}
use agent_lb_proxy.Serve.{Attempt, Site, Server, commit}
use agent_lb_proxy.Serve.Account.{cool}

module _ {W : Type 0} where
  abbrev pub accounts_of : Server W → List (Account W)
  accounts_of p = p.store.store_file.accounts

  -- A failing write leaves the change in memory.
  pub commit-accounts :
      (t : Attempt W) (site : Site) (change : StoreFile W → StoreFile W) (p : Server W)
      → accounts_of (commit t site change p) ≡ (change p.store.store_file).accounts
  unfolding commit update write_store
  commit-accounts t site change p =
      elim (t.failure site)
        as (λ failure.
          (write_store failure (record p.store {
            store_file = record (change p.store.store_file) { updated_at = t.stamp site };
          })).0.store_file.accounts
          ≡ (change p.store.store_file).accounts) [ none ↦ refl | some e ↦ refl ]

  -- A change that keeps the identifiers keeps the place of every account.
  index_of_id-modify :
      (id : String) (change : Account W → Account W) (j : ℕ) (accounts : List (Account W))
      → ((a : Account W) → (change a).id ≡ a.id)
      → index_of_id id (modify accounts j change) ≡ index_of_id id accounts
  unfolding index_func
  index_of_id-modify id change j [] h = refl
  index_of_id-modify id change zero (a ∷ accounts) h = rw (h a) refl
  index_of_id-modify id change (suc j) (a ∷ accounts) h =
      rw (index_of_id-modify id change j accounts h) refl

  pub index_of_id-recovered :
      (t : Attempt W) (site : Site) (id : String) (auth : AuthInfo) (p : Server W) {i : ℕ}
      → index_of_id id (accounts_of p) ≡ some i
      → index_of_id id (accounts_of (commit t site (mark_auth_recovered id auth) p)) ≡ some i
  unfolding mark_auth_recovered recover
  index_of_id-recovered t site id auth p {i = i} e =
      rw
        (
          commit-accounts t site (mark_auth_recovered id auth) p,
          on_account-accounts id (recover auth) p.store.store_file e,
        )
        (index_of_id-modify id (recover auth) i (accounts_of p) (λ a. refl) ∙ e)

  pub index_of_id-cooled :
      (t : Attempt W) (site : Site) (id : String) (seconds : ℤ) (reason : String) (p : Server W)
      {i : ℕ}
      → index_of_id id (accounts_of p) ≡ some i
      → index_of_id id (accounts_of (cool t site id seconds reason p)) ≡ some i
  unfolding cool mark_cooldown cool_down
  index_of_id-cooled t site id seconds reason p {i = i} e =
      rw
        (
          commit-accounts t site (mark_cooldown (t.clock_ns site) id seconds reason) p,
          on_account-accounts id (cool_down (t.clock_ns site) seconds reason) p.store.store_file e,
        )
        (index_of_id-modify id (cool_down (t.clock_ns site) seconds reason) i (accounts_of p)
            (λ a. refl)
          ∙ e)

module _ {W : Type 0} ⦃f : Float64 W⦄ where
  cool_down-pos :
      (c n : ℕ) (reason : String) (now_ms : ℤ) (a : Account W)
      → now_ms ≤ℤ pos (c / 1000000)
      → n ≤ 9223372035
      → is_healthy now_ms (cool_down (pos c) (pos (suc n)) reason a) ≡ false
  unfolding is_healthy cool_down
  cool_down-pos c n reason now_ms a h k =
      ground (arith, cooldown_deadline_exact c (suc n) (omega arith))

  cool_down-one :
      (seconds : ℤ) (c : ℕ) (reason : String) (a : Account W)
      → leb_ℤ seconds (pos 0) ≡ true
      → cool_down (pos c) seconds reason a ≡ cool_down (pos c) (pos 1) reason a
  unfolding cool_down
  cool_down-one seconds c reason a h = rw h refl

  -- Cooled down by a clock that is not behind, for a number of seconds that fits, an account is
  -- unhealthy.
  cool_down-unhealthy :
      (c : ℕ) (seconds : ℤ) (reason : String) (now_ms : ℤ) (a : Account W)
      → now_ms ≤ℤ pos (c / 1000000)
      → seconds ≤ℤ pos 9223372036
      → is_healthy now_ms (cool_down (pos c) seconds reason a) ≡ false
  cool_down-unhealthy c (pos zero) reason now_ms a h k =
      rw (cool_down-one (pos zero) c reason a refl)
        (cool_down-pos c 0 reason now_ms a h (omega arith))
  cool_down-unhealthy c (pos (suc n)) reason now_ms a h k =
      cool_down-pos c n reason now_ms a h (omega arith)
  cool_down-unhealthy c (negsuc n) reason now_ms a h k =
      rw (cool_down-one (negsuc n) c reason a (ground arith))
        (cool_down-pos c 0 reason now_ms a h (omega arith))

  pub cool-unhealthy :
      (t : Attempt W) (site : Site) (id : String) (seconds : ℤ) (reason : String) (p : Server W)
      (now_ms : ℤ) (c i : ℕ)
      → t.clock_ns site ≡ pos c
      → now_ms ≤ℤ pos (c / 1000000)
      → seconds ≤ℤ pos 9223372036
      → index_of_id id (accounts_of p) ≡ some i
      → healthy_at now_ms (accounts_of (cool t site id seconds reason p)) i ≡ false
  unfolding cool mark_cooldown
  cool-unhealthy t site id seconds reason p now_ms c i clock h k e =
      let (a, found, same) =
        index_func-some (λ (b : Account W). str_eq b.id id) (accounts_of p) e in
      rw
        (
          commit-accounts t site (mark_cooldown (t.clock_ns site) id seconds reason) p,
          on_account-accounts id (cool_down (t.clock_ns site) seconds reason) p.store.store_file e,
        )
        (healthy_at_of_get_elem? now_ms _ i (get_elem?-modify_self (accounts_of p) i _ found)
          ∙ (rw clock (cool_down-unhealthy c seconds reason now_ms a h k)))

  pub disabled-unhealthy :
      (t : Attempt W) (site : Site) (id reason : String) (p : Server W) (now_ms : ℤ) (i : ℕ)
      → index_of_id id (accounts_of p) ≡ some i
      → healthy_at now_ms (accounts_of (commit t site (mark_disabled id reason) p)) i ≡ false
  disabled-unhealthy t site id reason p now_ms i e =
      rw (commit-accounts t site (mark_disabled id reason) p)
        (mark_disabled-unhealthy id reason p.store.store_file now_ms i e)

  -- The overrides of a snapshot change no account's health.
  healthy_at-moved :
      (now_ms : ℤ) (prev next : String) (accounts : List (Account W)) (i : ℕ)
      → healthy_at now_ms (move_base_url prev next accounts) i ≡ healthy_at now_ms accounts i
  unfolding move_base_url is_healthy
  healthy_at-moved now_ms prev next [] i = refl
  healthy_at-moved now_ms prev next (a ∷ accounts) zero = ground arith
  healthy_at-moved now_ms prev next (a ∷ accounts) (suc i) =
      healthy_at-moved now_ms prev next accounts i

  pub healthy_at-snapshot :
      (now_ms : ℤ) (s : Store W) (i : ℕ)
      → healthy_at now_ms (snapshot s).accounts i ≡ healthy_at now_ms s.store_file.accounts i
  unfolding snapshot apply_runtime_overrides
  healthy_at-snapshot now_ms s i = elim (Option-cases s.runtime_overrides.upstream_base_url) [
    | inl e ↦ rw e refl
    | inr (next, e) ↦ rw e (
        healthy_at-moved now_ms s.store_file.settings.proxy.upstream_base_url next
          s.store_file.accounts i)
  ]
