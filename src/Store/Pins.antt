-- ===== src/Store/Pins.antt =====
-- `/admin/account/pin` of internal/lb/proxy.go beside the other updates of the store: each request looks
-- the identifier up in a snapshot, and writes it in an update of its own, after which others may come
-- in between.
use agent_lb_proxy.Prelude.{
  ℕ, zero, suc, ◌≡◌, refl, subst, Bool, true, false, ◌&&◌, String, none, some, List, [], ◌∷◌, All,
  get_elem?, remove_at, str_eq, arith, Bool-cases, Option-cases, inl, inr, if◌then◌else◌,
}
use agent_lb_proxy.Types.{Account, StoreFile}
use agent_lb_proxy.Store.Marks.{
  index_of_id, on_account, succeed, mark_success, cool_down, mark_cooldown, disable, mark_disabled,
  recover, mark_auth_recovered, adopt_auth, expire, expire_cooldowns, take_refresh, store_refresh,
  pinned_id_of, set_pin, unpin_account,
}
use agent_lb_proxy.Store.Invariant.{
  IsSound, IsKnown, has_id, has_id-modify, has_id-map, pinned_id_of-has_id,
}
use agent_lb_proxy.Store.History.{
  Event, succeeded, cooled, disabled, recovered, adopted, refreshed, expired, removed, pinned,
  unpinned, apply, Fits, apply-IsSound,
}

-- The store, and the identifiers of the requests that have looked one up and not written it yet.
pub record Flight (W : Type 0) : Type 0 where
  pub store_file : StoreFile W
  pub looked : List String

-- A request looks its alias up; the request at a place writes; or there is another update.
pub data Action (W : Type 0) : Type 0 where
  looked_up : String → Action W
  wrote_pin : ℕ → Action W
  updated : Event W → Action W

module _ {W : Type 0} where
  abbrev pub in_flight : StoreFile W → List String → Flight W
  in_flight sf looked = record { store_file = sf; looked = looked }

  -- A request for an unknown alias ends with 404.
  unfoldable pub look_up : String → Flight W → Flight W
  look_up alias p =
      let id = pinned_id_of alias p.store_file.accounts in
      if str_eq id "" then p else record p { looked = id ∷ p.looked }

  unfoldable pub write_pin : ℕ → Flight W → Flight W
  write_pin n p = elim (get_elem? p.looked n) [
    | none ↦ p
    | some id ↦ record { store_file = set_pin id p.store_file; looked = remove_at p.looked n }
  ]

  unfoldable pub act : Action W → Flight W → Flight W
  act (looked_up alias) p = look_up alias p
  act (wrote_pin n) p = write_pin n p
  act (updated e) p = record p { store_file = apply e p.store_file }

  unfoldable pub act_all : List (Action W) → Flight W → Flight W
  act_all [] p = p
  act_all (a ∷ actions) p = act_all actions (act a p)

  -- The update of a pin comes from a request, and no account is removed while a request that has
  -- looked an identifier up has not written it.
  abbrev pub is_orderly : Action W → List String → Bool
  is_orderly (updated (pinned id)) looked = false
  is_orderly (updated (removed alias)) [] = true
  is_orderly (updated (removed alias)) (id ∷ looked) = false
  is_orderly _ looked = true

  abbrev pub are_orderly : List (Action W) → Flight W → Bool
  are_orderly [] p = true
  are_orderly (a ∷ actions) p = is_orderly a p.looked && are_orderly actions (act a p)

  has_id-on_account :
      (x id : String) (change : Account W → Account W) (sf : StoreFile W)
      → ((a : Account W) → (change a).id ≡ a.id)
      → has_id x (on_account id change sf).accounts ≡ has_id x sf.accounts
  unfolding on_account
  has_id-on_account x id change sf h = elim (Option-cases (index_of_id id sf.accounts)) [
    | inl e ↦ rw (e, on_account) refl
    | inr (i, e) ↦ rw (e, on_account) (has_id-modify x change i sf.accounts h)
  ]

  -- An event that is not a removal changes no identifier.
  abbrev is_removal : Event W → Bool
  is_removal (removed alias) = true
  is_removal _ = false

  has_id-apply :
      (x : String) (e : Event W) (sf : StoreFile W)
      → is_removal e ≡ false
      → has_id x (apply e sf).accounts ≡ has_id x sf.accounts
  unfolding apply mark_success mark_disabled mark_cooldown cool_down mark_auth_recovered recover
      adopt_auth store_refresh take_refresh unpin_account set_pin succeed disable expire_cooldowns
      expire
  has_id-apply x (succeeded now switched reason id increment) sf h =
      elim (Option-cases (index_of_id id sf.accounts)) [
        | inl e ↦ rw (e, mark_success) refl
        | inr (i, e) ↦
            rw (e, mark_success) (has_id-modify x (succeed now reason) i sf.accounts (λ a. refl))
      ]
  has_id-apply x (cooled clock id seconds reason) sf h =
      has_id-on_account x id (cool_down clock seconds reason) sf (λ a. refl)
  has_id-apply x (disabled id reason) sf h = elim (Option-cases (index_of_id id sf.accounts)) [
    | inl e ↦ rw (e, mark_disabled) refl
    | inr (i, e) ↦
        rw (e, mark_disabled) (has_id-modify x (disable reason) i sf.accounts (λ a. refl))
  ]
  has_id-apply x (recovered id auth) sf h = has_id-on_account x id (recover auth) sf (λ a. refl)
  has_id-apply x (adopted id auth) sf h = has_id-on_account x id (adopt_auth auth) sf (λ a. refl)
  has_id-apply x (refreshed id a) sf h = has_id-on_account x id (take_refresh a) sf (λ a. refl)
  has_id-apply x (expired now) sf h = has_id-map x (expire now) sf.accounts (λ a. refl)
  has_id-apply x (removed alias) sf h = absurd (ground (arith, h))
  has_id-apply x (pinned id) sf h = refl
  has_id-apply x unpinned sf h = refl

  -- The store is sound, and what the requests have looked up are accounts.
  record IsSafe (p : Flight W) : Type 0 where
    pub sound : IsSound p.store_file
    pub known : All (λ id. IsKnown id p.store_file.accounts) p.looked

  All-same :
      (looked : List String) (l l' : List (Account W))
      → ((x : String) → has_id x l' ≡ has_id x l)
      → All (λ id. IsKnown id l) looked
      → All (λ id. IsKnown id l') looked
  All-same [] l l' h k = tt
  All-same (x ∷ looked) l l' h k = (rw (h x) k.0, All-same looked l l' h k.1)

  All-at :
      (looked : List String) (n : ℕ) (l : List (Account W)) {id : String}
      → get_elem? looked n ≡ some id
      → All (λ x. IsKnown x l) looked
      → IsKnown id l × All (λ x. IsKnown x l) (remove_at looked n)
  All-at [] n l e k = absurd (ground (arith, e))
  All-at (x ∷ looked) zero l {id} e k = (subst (λ y. IsKnown y l) (ground (arith, e)) k.0, k.1)
  All-at (x ∷ looked) (suc n) l e k =
      let (here, there) = All-at looked n l e k.1 in (here, (k.0, there))

  look_up-IsSafe : (alias : String) (p : Flight W) → IsSafe p → IsSafe (look_up alias p)
  unfolding look_up
  look_up-IsSafe alias p v =
      elim (Bool-cases (str_eq (pinned_id_of alias p.store_file.accounts) "")) [
        | inl e ↦ rw e v
        | inr e ↦ rw e (record {
          sound = v.sound;
          known = (pinned_id_of-has_id alias p.store_file.accounts, v.known);
        })
      ]

  write_pin-IsSafe : (n : ℕ) (p : Flight W) → IsSafe p → IsSafe (write_pin n p)
  unfolding write_pin set_pin
  write_pin-IsSafe n p v = elim (Option-cases (get_elem? p.looked n)) [
    | inl e ↦ rw (e, write_pin) v
    | inr (id, e) ↦
        let (here, there) = All-at p.looked n p.store_file.accounts e v.known in
        rw (e, write_pin)
          (record {
            sound = record { nonneg = v.sound.nonneg; below = v.sound.below; pinned = here };
            known = there;
          })
  ]

  -- Another update, when no identifier is removed.
  updated-IsSafe :
      (e : Event W) (p : Flight W)
      → is_removal e ≡ false
      → Fits e p.store_file
      → IsSafe p
      → IsSafe (act (updated e) p)
  unfolding act
  updated-IsSafe e p h fits v = record {
    sound = apply-IsSound e p.store_file fits v.sound;
    known =
        All-same p.looked p.store_file.accounts _ (λ x. has_id-apply x e p.store_file h) v.known;
  }

  act-IsSafe :
      (a : Action W) (sf : StoreFile W) (looked : List String)
      → is_orderly a looked ≡ true
      → IsSafe (in_flight sf looked)
      → IsSafe (act a (in_flight sf looked))
  unfolding act
  act-IsSafe (looked_up alias) sf looked h v = look_up-IsSafe alias _ v
  act-IsSafe (wrote_pin n) sf looked h v = write_pin-IsSafe n _ v
  act-IsSafe (updated (removed alias)) sf [] h v = record {
    sound = apply-IsSound (removed alias) sf tt v.sound;
    known = tt;
  }
  act-IsSafe (updated (removed alias)) sf (x ∷ looked) h v = absurd (ground (arith, h))
  act-IsSafe (updated (pinned id)) sf looked h v = absurd (ground (arith, h))
  act-IsSafe (updated (succeeded now switched reason id increment)) sf looked h v =
      updated-IsSafe _ _ refl tt v
  act-IsSafe (updated (cooled clock id seconds reason)) sf looked h v = updated-IsSafe _ _ refl tt v
  act-IsSafe (updated (disabled id reason)) sf looked h v = updated-IsSafe _ _ refl tt v
  act-IsSafe (updated (recovered id auth)) sf looked h v = updated-IsSafe _ _ refl tt v
  act-IsSafe (updated (adopted id auth)) sf looked h v = updated-IsSafe _ _ refl tt v
  act-IsSafe (updated (refreshed id a)) sf looked h v = updated-IsSafe _ _ refl tt v
  act-IsSafe (updated (expired now)) sf looked h v = updated-IsSafe _ _ refl tt v
  act-IsSafe (updated unpinned) sf looked h v = updated-IsSafe _ _ refl tt v

  act_all-IsSafe :
      (actions : List (Action W)) (p : Flight W)
      → are_orderly actions p ≡ true
      → IsSafe p
      → IsSafe (act_all actions p)
  unfolding act_all
  act_all-IsSafe [] p h v = v
  act_all-IsSafe (a ∷ actions) p h v =
      act_all-IsSafe actions (act a p) (ground (arith, h))
        (act-IsSafe a p.store_file p.looked (ground (arith, h)) v)

  -- Requests to pin an account, each with a look-up and a later write, and any successes, cooldowns,
  -- disablings, recoveries, refreshes, expiries, removals and unpinnings in any order keep the store
  -- sound, if no account is removed while a request has looked one up and not written it: the active
  -- index stays that of an account (or 0 with none left), and the pin is empty or names an account that
  -- is still there.
  pub act_all-IsSound :
      (actions : List (Action W)) (sf : StoreFile W)
      → are_orderly actions (in_flight sf []) ≡ true
      → IsSound sf
      → IsSound (act_all actions (in_flight sf [])).store_file
  act_all-IsSound actions sf h v =
      (act_all-IsSafe actions _ h (record { sound = v; known = tt })).sound
