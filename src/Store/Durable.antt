-- ===== src/Store/Durable.antt =====
-- What `Store.Update` keeps on disk.
use agent_lb_proxy.Prelude.{true, false, ◌≡◌, refl, String, Option, none, some}
use agent_lb_proxy.Prelude.Outcome.{Outcome, ok, err, panic}
use agent_lb_proxy.Types.{StoreFile}
use agent_lb_proxy.Store.{
  Store, WriteFault, not_serialized, not_written, not_renamed, whole, store_file_for_persistence,
  write_partly, write_file, rename, remove_temp, write_json_atomic, write_store, update,
}

module _ {W : Type 0} where
  -- What holds of an update: its result decides what store.json holds.
  abbrev pub IsUpdate : Store W → Store W × Outcome String (Unit {0}) → Type 0
  IsUpdate s (s', ok u) =
      (s'.disk ≡ some (whole (store_file_for_persistence s'.store_file))) × (s'.temp ≡ none)
  IsUpdate s (s', err e) = s'.disk ≡ s.disk
  IsUpdate s (s', panic) = s'.disk ≡ s.disk

  written-IsUpdate :
      (fault : Option WriteFault) (s : Store W) (sf : StoreFile W)
      → IsUpdate s (write_store fault (record s { store_file = sf }))
  unfolding write_store write_json_atomic write_partly write_file rename remove_temp
  written-IsUpdate none s sf = (refl, refl)
  written-IsUpdate (some (not_serialized e)) s sf = refl
  written-IsUpdate (some (not_written e none)) s sf = refl
  written-IsUpdate (some (not_written e (some text))) s sf = refl
  written-IsUpdate (some (not_renamed e true)) s sf = refl
  written-IsUpdate (some (not_renamed e false)) s sf = refl

  -- After an update that succeeds, store.json holds the store of the memory, settings apart, and no
  -- temporary file is left. After one that fails, in the change or in any call of the write, store.json
  -- is what it was, also when the write of the temporary file breaks off.
  pub update-IsUpdate :
      (stamp : String) (fault : Option WriteFault)
      (fn : StoreFile W → StoreFile W × Outcome String (Unit {0})) (s : Store W)
      → IsUpdate s (update stamp fault fn s)
  unfolding update
  update-IsUpdate stamp fault fn s =
      elim ((fn s.store_file).1)
        as (λ o. IsUpdate s (elim o [
          | ok u ↦
              write_store fault
                (record s { store_file = record (fn s.store_file).0 { updated_at = stamp } })
          | err e ↦ (record s { store_file = (fn s.store_file).0 }, err e)
          | panic ↦ (record s { store_file = (fn s.store_file).0 }, panic)
        ])) [
          | ok u ↦ written-IsUpdate fault s (record (fn s.store_file).0 { updated_at = stamp })
          | err e ↦ refl
          | panic ↦ refl
        ]
