-- ===== src/Maintain/Kept.antt =====
-- What a refresh of the quotas keeps: every property of the store that its records keep.
use agent_lb_proxy.Prelude.{
  ◌≡◌, refl, Bool, true, false, not, ◌&&◌, String, none, some, Bool-cases, inl, inr, str_eq,
}
use agent_lb_proxy.Prelude.Int.{ℤ}
use agent_lb_proxy.Prelude.Outcome.{Outcome, ok, err, panic}
use agent_lb_proxy.Types.{Account, AuthInfo, StoreFile}
use agent_lb_proxy.Store.{update, write_store}
use agent_lb_proxy.Store.Marks.{mark_disabled, mark_auth_recovered, store_refresh}
use agent_lb_proxy.Serve.{AuthError, Attempt, Site, Server, commit}
use agent_lb_proxy.Serve.Credentials.{take_refreshed, take_reloaded}
use agent_lb_proxy.Maintain.{UsageError, refreshed_account, store_checked}

module _ {W : Type 0} where
  abbrev pub stored : Server W → StoreFile W
  stored p = p.store.store_file

  -- A property that the records of a refresh keep; only one that is not forced disables an account.
  pub record IsKept (force : Bool) (P : StoreFile W → Type 0) : Type 0 where
    pub stamped : (stamp : String) (sf : StoreFile W) → P sf → P (record sf { updated_at = stamp })
    pub disabled :
        force ≡ false
        → (id : String) (sf : StoreFile W) → P sf
        → P (mark_disabled id "missing-auth" sf)
    pub recovered :
        (id : String) (auth : AuthInfo) (sf : StoreFile W)
        → P sf
        → P (mark_auth_recovered id auth sf)
    pub refreshed :
        (id : String) (a : Account W) (sf : StoreFile W)
        → a.enabled ≡ true
        → P sf
        → P (store_refresh id a sf)

  pub commit-kept :
      (P : StoreFile W → Type 0) (t : Attempt W) (site : Site) (change : StoreFile W → StoreFile W)
      (p : Server W)
      → ((stamp : String) (sf : StoreFile W) → P sf → P (record sf { updated_at = stamp }))
      → P (change (stored p))
      → P (stored (commit t site change p))
  unfolding commit update write_store
  commit-kept P t site change p s h =
      elim (t.failure site)
        as (λ failure.
          P
            (write_store failure (record p.store {
              store_file = record (change p.store.store_file) { updated_at = t.stamp site };
            })).0.store_file) [ none ↦ s _ _ h | some e ↦ s _ _ h ]

  module _ (force : Bool) (P : StoreFile W → Type 0) (k : IsKept force P) where
    take_refreshed-kept :
        (t : Attempt W) (id : String) (p : Server W) (o : Outcome AuthError AuthInfo)
        → P (stored p)
        → P (stored (take_refreshed t id p o).0)
    unfolding take_refreshed
    take_refreshed-kept t id p (ok auth) h =
        commit-kept P t _ (mark_auth_recovered id auth) p k.stamped (k.recovered id auth _ h)
    take_refreshed-kept t id p (err e) h = h
    take_refreshed-kept t id p panic h = h

    pub take_reloaded-kept :
        (t : Attempt W) (id : String) (failed : AuthInfo) (p : Server W)
        (o : Outcome AuthError AuthInfo)
        → P (stored p)
        → P (stored (take_reloaded t id failed p o).0)
    unfolding take_reloaded
    take_reloaded-kept t id failed p (ok current) h =
        elim (Bool-cases (
          not (str_eq failed.access_token "")
          && not (str_eq current.access_token "")
          && not (str_eq current.access_token failed.access_token))) [
            | inl e ↦ rw e (
                commit-kept P t _ (mark_auth_recovered id current) p k.stamped
                  (k.recovered id current _ h))
            | inr e ↦ rw e (take_refreshed-kept t id p t.refreshed h)
          ]
    take_reloaded-kept t id failed p (err e) h = h
    take_reloaded-kept t id failed p panic h = h

    pub store_checked-kept :
        (t : Attempt W) (counter : ℤ) (account : Account W) (auth : AuthInfo)
        (o : Outcome UsageError (Account W)) (p : Server W)
        → P (stored p)
        → P (stored (store_checked t counter account auth o p))
    unfolding store_checked refreshed_account
    store_checked-kept t counter account auth (ok updated) p h =
        commit-kept P t _ _ p k.stamped (k.refreshed account.id _ _ refl h)
    store_checked-kept t counter account auth (err e) p h = h
    store_checked-kept t counter account auth panic p h = h
