-- ===== src/Tests/Startup.antt =====
-- The theorems on the start and on the abstract view of the store, at concrete inputs.
use agent_lb_proxy.Prelude.{◌≡◌, refl, true, String, none, some, List, [], ◌∷◌, All}
use agent_lb_proxy.Prelude.Int.{ℤ, pos}
use agent_lb_proxy.Types.{AuthInfo}
use agent_lb_proxy.Store.Invariant.{IsSound}
use agent_lb_proxy.Store.History.{Event, succeeded, cooled, disabled, expired, run}
use agent_lb_proxy.Store.Startup.{DirEntry, reconcile_accounts}
use agent_lb_proxy.Store.Reconcile.{has_alias, on_disk, has_alias-reconcile_accounts}
use agent_lb_proxy.Store.Registered.{IsRegistered, reconcile_accounts-IsSound}
use agent_lb_proxy.Store.Refinement.{view, run_view, run-view}
use agent_lb_proxy.Tests.Data.{pinned_store}

abbrev new_credentials : AuthInfo
new_credentials = record {
  access_token = "t";
  refresh_token = "r";
  id_token = "";
  chatgpt_account_id = "acc";
  user_email = "a@b";
}

-- A new account, one of the store, and a directory without credentials.
abbrev entries : List DirEntry
entries =
    record { name = "c"; is_dir = true; auth = some new_credentials }
    ∷ record { name = "a"; is_dir = true; auth = some new_credentials }
    ∷ record { name = "d"; is_dir = true; auth = none }
    ∷ []

abbrev home_of : String → String
home_of alias = alias

has_alias-reconcile_accounts_example :
    has_alias "c" (reconcile_accounts home_of home_of (pos 0) entries pinned_store).accounts
    ≡ on_disk "c" entries
has_alias-reconcile_accounts_example =
    has_alias-reconcile_accounts home_of home_of (pos 0) entries pinned_store "c"

reconcile_accounts-IsSound_example :
    IsSound (reconcile_accounts home_of home_of (pos 0) entries pinned_store)
    × All
        (IsRegistered home_of home_of)
        (reconcile_accounts home_of home_of (pos 0) entries pinned_store).accounts
reconcile_accounts-IsSound_example =
    reconcile_accounts-IsSound home_of home_of (pos 0) entries pinned_store refl

abbrev records : List (Event ℤ)
records =
    succeeded (pos 5) true "usage" "b" true
    ∷ cooled (pos 1000000) "a" (pos 60) "http-429"
    ∷ disabled "b" "http-401"
    ∷ expired (pos 9)
    ∷ []

run-view_example : view (run records pinned_store) ≡ run_view records (view pinned_store)
run-view_example = run-view records pinned_store (refl, (refl, (refl, (refl, tt))))
