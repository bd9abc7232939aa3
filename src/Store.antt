-- ===== src/Store.antt =====
-- internal/lb/store.go: the store of settings and accounts. Slices are values here, so `cloneStore`,
-- which keeps a snapshot from sharing memory with the store, is the identity and has no definition.
-- The clock and the outcomes of the file system are arguments: `stamp` is the time in RFC 3339, and
-- `fault` is the call of `writeJSONAtomic` that fails, if one does.
use Prim.Native.String.{◌++◌ as append}
pub mod Overrides
pub mod Accounts
pub mod Marks
pub mod Invariant
pub mod History
pub mod Pins
pub mod Health
pub mod Durable
pub mod Startup
pub mod Reconcile
pub mod Registered
pub mod View
pub mod Refinement
use agent_lb_proxy.Prelude.{
  Bool, true, false, String, Option, none, some, List, [], ◌∷◌, str_eq, ◌||◌, if◌then◌else◌,
}
use agent_lb_proxy.Prelude.Int.{ℤ}
use agent_lb_proxy.Prelude.Outcome.{Outcome, ok, err, panic}
use agent_lb_proxy.Types.{Settings, Account, RuntimeState, StoreFile}

pub record RuntimeSettingsOverrides : Type 0 where
  pub proxy_name : Option String
  pub listen : Option String
  pub upstream_base_url : Option String
  pub child_proxy_urls : Option (List String)
  pub max_attempts : Option ℤ
  pub usage_timeout_ms : Option ℤ
  pub cooldown_default_seconds : Option ℤ
  pub refresh_interval_minutes : Option ℤ
  pub refresh_interval_messages : Option ℤ
  pub cache_ttl_minutes : Option ℤ

-- `storeFilePersisted`: what store.json holds.
pub record Persisted (W : Type 0) : Type 0 where
  pub version : ℤ
  pub updated_at : String
  pub state : RuntimeState
  pub accounts : List (Account W)

-- What a file holds: the whole of what was written, or text that is something else.
pub data Content (W : Type 0) : Type 0 where
  whole : Persisted W → Content W
  broken : String → Content W

-- The call of `writeJSONAtomic` that fails, with its error: what `os.WriteFile` leaves in the temporary
-- file, if it has touched it, and whether `os.Remove` then removes that file.
pub data WriteFault : Type 0 where
  not_serialized : String → WriteFault
  not_written : String → Option String → WriteFault
  not_renamed : String → Bool → WriteFault

-- store.json and the temporary file beside it.
pub record Files (W : Type 0) : Type 0 where
  pub target : Option (Content W)
  pub temp : Option (Content W)

-- `disk` is the content of store.json and `temp` that of its temporary file.
pub record Store (W : Type 0) : Type 0 where
  pub store_file : StoreFile W
  pub runtime_overrides : RuntimeSettingsOverrides
  pub disk : Option (Content W)
  pub temp : Option (Content W)

module _ {W : Type 0} where
  unfoldable pub store_file_for_persistence : StoreFile W → Persisted W
  store_file_for_persistence sf = record {
    version = sf.version;
    updated_at = sf.updated_at;
    state = sf.state;
    accounts = sf.accounts;
  }

  -- `os.WriteFile` of the temporary file, when it fails.
  unfoldable pub write_partly : Option String → Files W → Files W
  write_partly none f = f
  write_partly (some text) f = record f { temp = some (broken text) }

  unfoldable pub write_file : Persisted W → Files W → Files W
  write_file v f = record f { temp = some (whole v) }

  unfoldable pub rename : Files W → Files W
  rename f = record { target = f.temp; temp = none }

  unfoldable pub remove_temp : Bool → Files W → Files W
  remove_temp removed f = if removed then record f { temp = none } else f

  unfoldable pub write_json_atomic :
      Option WriteFault → Persisted W → Files W → Files W × Outcome String (Unit {0})
  write_json_atomic (some (not_serialized e)) v f = (f, err (append "serialize json: " e))
  write_json_atomic (some (not_written e left)) v f =
      (write_partly left f, err (append "write temp json: " e))
  write_json_atomic (some (not_renamed e removed)) v f =
      (remove_temp removed (write_file v f), err (append "rename temp json: " e))
  write_json_atomic none v f = (rename (write_file v f), ok tt)

  -- The write of the store that is in memory.
  unfoldable pub write_store : Option WriteFault → Store W → Store W × Outcome String (Unit {0})
  write_store fault s =
      let r =
        write_json_atomic fault (store_file_for_persistence s.store_file)
          (record { target = s.disk; temp = s.temp }) in
      (record s { disk = r.0.target; temp = r.0.temp }, r.1)

  -- A function on the store, as one that writes in place: it either writes the whole change, or fails
  -- before it writes.
  abbrev pub in_place :
      (StoreFile W → Outcome String (StoreFile W))
      → StoreFile W
      → StoreFile W × Outcome String (Unit {0})
  in_place fn sf = elim (fn sf) [
    | ok sf' ↦ (sf', ok tt)
    | err e ↦ (sf, err e)
    | panic ↦ (sf, panic)
  ]

  -- `Store.Update`: what a failing `fn` has written stays in memory.
  unfoldable pub update :
      String
      → Option WriteFault
      → (StoreFile W → StoreFile W × Outcome String (Unit {0}))
      → Store W
      → Store W × Outcome String (Unit {0})
  update stamp failure fn s =
      let r = fn s.store_file in
      elim (r.1) [
        | ok u ↦ write_store failure (record s { store_file = record r.0 { updated_at = stamp } })
        | err e ↦ (record s { store_file = r.0 }, err e)
        | panic ↦ (record s { store_file = r.0 }, panic)
      ]

  -- An account that has no base URL, or the one that is replaced, takes the new one.
  unfoldable pub move_base_url : String → String → List (Account W) → List (Account W)
  move_base_url prev next [] = []
  move_base_url prev next (a ∷ accounts) =
      (if str_eq a.base_url "" || str_eq a.base_url prev then record a { base_url = next } else a)
      ∷ move_base_url prev next accounts

  unfoldable pub set_runtime_settings_overrides : RuntimeSettingsOverrides → Store W → Store W
  set_runtime_settings_overrides overrides s = record s { runtime_overrides = overrides }
