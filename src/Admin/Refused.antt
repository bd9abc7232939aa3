-- ===== src/Admin/Refused.antt =====
-- What a request of the admin interface that is refused leaves of the store.
use agent_lb_proxy.Prelude.{
  ℕ, ◌≡◌, refl, subst, arith, true, false, not, ◌&&◌, Bool, String, Option, none, some, str_eq,
  Bool-cases, inl, inr,
}
use agent_lb_proxy.Prelude.Text.{trim_space}
use agent_lb_proxy.Prelude.Codes.{codes}
use agent_lb_proxy.Prelude.Outcome.{Outcome, ok, err, panic}
use agent_lb_proxy.Types.{Account, AuthInfo, StoreFile}
use agent_lb_proxy.ImportAlias.{validate_alias}
use agent_lb_proxy.Store.{Store, in_place, update, write_store, write_json_atomic}
use agent_lb_proxy.Store.Accounts.{upsert_fn, upsert_account, remove_account_by_alias, remove_fn}
use agent_lb_proxy.Store.Marks.{set_pin, unpin_account}
use agent_lb_proxy.Admin.Handle.{
  AdminRequest, list_accounts, login, import_data, import_home, import_nothing, remove, pin, unpin,
  not_found, AdminReply, listed, mutated, rejected, AdminInputs, AdminState, mutation_reply,
  register_loaded, register_account, prepare_and_register, add_account, remove_account, with_reply,
  removal_reply, pin_found, with_alias_of, make_home, added_reply, handle_admin, remove_all,
  unless_removed, is_removed,
}

module _ {W : Type 0} where
  -- A refusal comes with the store as it was.
  abbrev pub KeepsIfRefused : Store W → Store W × AdminReply W → Type 0
  KeepsIfRefused s (s', rejected status message) = s' ≡ s
  KeepsIfRefused s (s', _) = Unit

  -- The same, for the state of the handler.
  abbrev pub StateKeeps : AdminState W → AdminState W × AdminReply W → Type 0
  StateKeeps st (st', rejected status message) = st'.store ≡ st.store
  StateKeeps st (st', _) = Unit

  -- An error comes with the store as it was.
  abbrev KeepsOnError : Store W → Store W × Outcome String (Unit {0}) → Type 0
  KeepsOnError s (s', ok u) = Unit
  KeepsOnError s (s', err e) = s' ≡ s
  KeepsOnError s (s', panic) = s' ≡ s

  update-KeepsOnError :
      (stamp : String) (fn : StoreFile W → Outcome String (StoreFile W)) (s : Store W)
      → KeepsOnError s (update stamp none (in_place fn) s)
  unfolding update write_store write_json_atomic
  update-KeepsOnError stamp fn s =
      elim (fn s.store_file) as (λ o. KeepsOnError s (update stamp none (in_place (λ sf. o)) s)) [
        | ok sf ↦ tt
        | err e ↦ refl
        | panic ↦ refl
      ]

  upsert_account-KeepsOnError :
      (stamp : String) (a : Account W) (s : Store W)
      → KeepsOnError s (upsert_account stamp none a s)
  unfolding upsert_account
  upsert_account-KeepsOnError stamp a s = update-KeepsOnError stamp (upsert_fn a) s

  mutation_reply-KeepsIfRefused :
      (status : ℕ) (message : String) (s : Store W) (r : Store W × Outcome String (Unit {0}))
      → KeepsOnError s r
      → KeepsIfRefused s (mutation_reply status message r)
  unfolding mutation_reply
  mutation_reply-KeepsIfRefused status message s (s', ok u) h = tt
  mutation_reply-KeepsIfRefused status message s (s', err e) h = h
  mutation_reply-KeepsIfRefused status message s (s', panic) h = h

  -- The request removes no directory that holds store.json or its temporary file.
  abbrev pub spares : AdminInputs W → AdminRequest → Bool
  spares i (remove (some alias)) =
      not (i.under (i.home_of alias) i.store_path) && not (i.under (i.home_of alias) i.temp_path)
  spares i request = true

  remove_all-store :
      (i : AdminInputs W) (alias : String) (st : AdminState W)
      → spares i (remove (some alias)) ≡ true
      → (remove_all i (i.home_of alias) st).store ≡ st.store
  unfolding remove_all unless_removed is_removed
  remove_all-store i alias st h =
      rw (outside i.store_path (ground (arith, h)), outside i.temp_path (ground (arith, h))) refl
    where
      outside :
          (file : String)
          → i.under (i.home_of alias) file ≡ false
          → (i.under (i.home_of alias) file && not (i.stays file)) ≡ false
      outside file e = rw e refl

  module _ (i : AdminInputs W) (writes : i.failure ≡ none) where
    register_loaded-KeepsOnError :
        (alias : String) (o : Outcome String AuthInfo) (s : Store W)
        → KeepsOnError s (register_loaded i alias o s)
    unfolding register_loaded
    register_loaded-KeepsOnError alias (ok auth) s =
        rw writes (upsert_account-KeepsOnError i.stamp _ s)
    register_loaded-KeepsOnError alias (err e) s = refl
    register_loaded-KeepsOnError alias panic s = refl

    prepare_and_register-KeepsOnError :
        (alias : String) (prepared : Option String) (s : Store W)
        → KeepsOnError s (prepare_and_register i alias prepared s)
    unfolding prepare_and_register register_account
    prepare_and_register-KeepsOnError alias none s = register_loaded-KeepsOnError alias i.loaded s
    prepare_and_register-KeepsOnError alias (some e) s = refl

    add_account-KeepsOnError :
        (alias : String) (s : Store W) → KeepsOnError s (add_account i alias s)
    unfolding add_account
    add_account-KeepsOnError alias s = elim (Bool-cases (validate_alias (codes alias))) [
      | inl e ↦ rw e (prepare_and_register-KeepsOnError alias i.prepared s)
      | inr e ↦ rw e refl
    ]

    pin_found-KeepsIfRefused :
        (alias id : String) (s : Store W) → KeepsIfRefused s (pin_found i alias id s)
    unfolding pin_found
    pin_found-KeepsIfRefused alias id s = elim (Bool-cases (str_eq id "")) [
      | inl e ↦ rw e refl
      | inr e ↦
          rw (e, writes)
            (mutation_reply-KeepsIfRefused 500 _ s _
              (update-KeepsOnError i.stamp (λ sf. ok (set_pin id sf)) s))
    ]

    with_alias_of-StateKeeps :
        (body : Option String) (st : AdminState W) (handle : String → AdminState W × AdminReply W)
        → ((alias : String) → StateKeeps st (handle alias))
        → StateKeeps st (with_alias_of body st handle)
    unfolding with_alias_of
    with_alias_of-StateKeeps none st handle h = refl
    with_alias_of-StateKeeps (some alias) st handle h =
        elim (Bool-cases (str_eq (trim_space alias) "")) [
          | inl e ↦ rw e refl
          | inr e ↦ rw e (h alias)
        ]

    with_reply-StateKeeps :
        (st st' : AdminState W) (r : Store W × AdminReply W)
        → KeepsIfRefused st.store r
        → StateKeeps st (with_reply st' r)
    unfolding with_reply
    with_reply-StateKeeps st st' (s, listed accounts) h = h
    with_reply-StateKeeps st st' (s, mutated message total) h = h
    with_reply-StateKeeps st st' (s, rejected status message) h = h

    added_reply-StateKeeps :
        (verb alias : String) (st : AdminState W) → StateKeeps st (added_reply i verb alias st)
    unfolding added_reply
    added_reply-StateKeeps verb alias st =
        with_reply-StateKeeps st (make_home i alias st) _
          (mutation_reply-KeepsIfRefused 400 _ st.store _ (add_account-KeepsOnError alias st.store))

    removal_reply-StateKeeps :
        (alias : String) (st : AdminState W)
        → spares i (remove (some alias)) ≡ true
        → StateKeeps st (removal_reply alias (remove_account i alias st))
    unfolding removal_reply remove_account remove_account_by_alias remove_all is_removed
    removal_reply-StateKeeps alias st h = elim (Bool-cases (str_eq alias "")) [
      | inl e ↦ rw e (
          with_reply-StateKeeps st st _
            (mutation_reply-KeepsIfRefused 400 _ st.store (st.store, err "alias is required") refl))
      | inr e ↦
          rw (e, writes)
            (with_reply-StateKeeps st _ _ (
              mutation_reply-KeepsIfRefused 400 _ st.store _ (
                subst
                  (λ s.
                    KeepsOnError s (update i.stamp none (in_place (remove_fn alias)) left.store))
                  (remove_all-store i alias st h)
                  (update-KeepsOnError i.stamp (remove_fn alias) left.store))))
    ]
      where
        left : AdminState W
        left = remove_all i (i.home_of alias) st

    remove-StateKeeps :
        (body : Option String) (st : AdminState W)
        → spares i (remove body) ≡ true
        → StateKeeps st (handle_admin i (remove body) st)
    unfolding handle_admin with_alias_of
    remove-StateKeeps none st h = refl
    remove-StateKeeps (some alias) st h = elim (Bool-cases (str_eq (trim_space alias) "")) [
      | inl e ↦ rw e refl
      | inr e ↦ rw e (removal_reply-StateKeeps alias st h)
    ]

    -- When the write of store.json does not fail, an admin request that is refused, with any status, leaves
    -- the store as it was, in memory and in store.json, unless it is the removal of an alias whose directory
    -- holds store.json or its temporary file.
    pub handle_admin-StateKeeps :
        (request : AdminRequest) (st : AdminState W)
        → spares i request ≡ true
        → StateKeeps st (handle_admin i request st)
    unfolding handle_admin
    handle_admin-StateKeeps list_accounts st h = tt
    handle_admin-StateKeeps (login body) st h =
        with_alias_of-StateKeeps body st _ (λ alias. added_reply-StateKeeps _ alias st)
    handle_admin-StateKeeps (import_data body) st h =
        with_alias_of-StateKeeps body st _ (λ alias. added_reply-StateKeeps _ alias st)
    handle_admin-StateKeeps (import_home body) st h =
        with_alias_of-StateKeeps body st _ (λ alias. added_reply-StateKeeps _ alias st)
    handle_admin-StateKeeps (import_nothing body) st h =
        with_alias_of-StateKeeps body st _ (λ alias. refl)
    handle_admin-StateKeeps (remove body) st h = remove-StateKeeps body st h
    handle_admin-StateKeeps (pin body) st h =
        with_alias_of-StateKeeps body st _
          (λ alias. with_reply-StateKeeps st st _ (pin_found-KeepsIfRefused alias _ st.store))
    handle_admin-StateKeeps unpin st h = with_reply-StateKeeps st st _ (
        rw writes (
          mutation_reply-KeepsIfRefused 500 _ st.store _
            (update-KeepsOnError i.stamp (λ sf. ok (unpin_account sf)) st.store)))
    handle_admin-StateKeeps not_found st h = refl
