-- ===== src/Admin/Handle.antt =====
-- `handleAdmin` of internal/lb/proxy.go for a request to this proxy, and RegisterAccount, RemoveAccount
-- and the imports of internal/lb/wrapper.go. The login command, the copies of files and LoadAuth are
-- arguments; `homes` are the account directories on disk. A request is handled here with no other in
-- between; Store/Pins has the interleavings of the pins.
use Prim.Native.String.{◌++◌ as append}
use agent_lb_proxy.Prelude.{
  ℕ, Bool, not, ◌&&◌, String, Option, none, some, List, [], ◌∷◌, str_eq, length, if◌then◌else◌,
}
use agent_lb_proxy.Prelude.Text.{trim_space}
use agent_lb_proxy.Prelude.Codes.{codes}
use agent_lb_proxy.Prelude.Outcome.{Outcome, ok, err, panic}
use agent_lb_proxy.Types.{Account, AuthInfo}
use agent_lb_proxy.ImportAlias.{validate_alias}
use agent_lb_proxy.Store.{Store, WriteFault, update}
use agent_lb_proxy.Store.Overrides.{snapshot}
use agent_lb_proxy.Store.Accounts.{upsert_account, remove_account_by_alias}
use agent_lb_proxy.Store.Marks.{pinned_id_of, set_pin, unpin_account}
use agent_lb_proxy.Store.Startup.{new_account, account_id, base_or_default}

-- A request that is decoded; `none` is a body that cannot be.
pub data AdminRequest : Type 0 where
  list_accounts : AdminRequest
  login : Option String → AdminRequest
  import_data : Option String → AdminRequest
  import_home : Option String → AdminRequest
  import_nothing : Option String → AdminRequest
  remove : Option String → AdminRequest
  pin : Option String → AdminRequest
  unpin : AdminRequest
  not_found : AdminRequest

pub data AdminReply (W : Type 0) : Type 0 where
  listed : List (Account W) → AdminReply W
  -- the message, and how many accounts there are then
  mutated : String → ℕ → AdminReply W
  rejected : ℕ → String → AdminReply W

-- What the outside gives to one request; `makes_home` is whether the directory of the account is made,
-- `prepared` is the error of the login command or of the copies,
-- and `loaded` what LoadAuth returns after them.
pub record AdminInputs (W : Type 0) : Type 0 where
  pub zero_quota : W
  pub lower : String → String
  pub home_of : String → String
  pub makes_home : Bool
  pub prepared : Option String
  pub loaded : Outcome String AuthInfo
  pub stamp : String
  pub failure : Option WriteFault
  -- the paths of store.json and of its temporary file
  pub store_path : String
  pub temp_path : String
  -- whether a file or directory is at a path or below it
  pub under : String → String → Bool
  -- what `os.RemoveAll` fails to remove; its error is ignored
  pub stays : String → Bool

pub record AdminState (W : Type 0) : Type 0 where
  pub store : Store W
  pub homes : List String

unfoldable pub remove_homes : (String → Bool) → List String → List String
remove_homes removed [] = []
remove_homes removed (home ∷ homes) =
    let rest = remove_homes removed homes in if removed home then rest else home ∷ rest

unfoldable pub unless_removed : {A : Type 0} → Bool → Option A → Option A
unless_removed removed file = if removed then none else file

module _ {W : Type 0} where
  unfoldable pub is_removed : AdminInputs W → String → String → Bool
  is_removed i path file = i.under path file && not (i.stays file)

  -- `os.RemoveAll`: the homes, store.json and its temporary file that are at the path or below it.
  unfoldable pub remove_all : AdminInputs W → String → AdminState W → AdminState W
  remove_all i path st = record {
    store = record st.store {
      disk = unless_removed (is_removed i path i.store_path) st.store.disk;
      temp = unless_removed (is_removed i path i.temp_path) st.store.temp;
    };
    homes = remove_homes (is_removed i path) st.homes;
  }

  unfoldable pub total_of : Store W → ℕ
  total_of s = length (snapshot s).accounts

  -- The reply to a change, and its store.
  unfoldable pub mutation_reply :
      ℕ → String → Store W × Outcome String (Unit {0}) → Store W × AdminReply W
  mutation_reply status message (s, ok u) = (s, mutated message (total_of s))
  mutation_reply status message (s, err e) = (s, rejected status e)
  mutation_reply status message (s, panic) = (s, rejected 500 "panic")

  unfoldable pub register_loaded :
      AdminInputs W
      → String
      → Outcome String AuthInfo
      → Store W
      → Store W × Outcome String (Unit {0})
  register_loaded i alias (err e) s = (s, err e)
  register_loaded i alias panic s = (s, panic)
  register_loaded i alias (ok auth) s =
      let base = base_or_default (snapshot s).settings.proxy.upstream_base_url in
      upsert_account i.stamp i.failure
        (new_account i.zero_quota (account_id i.lower alias) alias (i.home_of alias) base auth) s

  unfoldable pub register_account :
      AdminInputs W → String → Store W → Store W × Outcome String (Unit {0})
  register_account i alias s = register_loaded i alias i.loaded s

  -- `LoginAccount`, `ImportAccount` and `ImportAccountData`: the alias is checked first.
  unfoldable pub prepare_and_register :
      AdminInputs W → String → Option String → Store W → Store W × Outcome String (Unit {0})
  prepare_and_register i alias (some e) s = (s, err e)
  prepare_and_register i alias none s = register_account i alias s

  unfoldable pub add_account :
      AdminInputs W → String → Store W → Store W × Outcome String (Unit {0})
  add_account i alias s =
      if validate_alias (codes alias)
      then prepare_and_register i alias i.prepared s
      else (s, err "invalid alias")

  -- `RemoveAccount`: the directory goes first, whether or not there is such an account.
  unfoldable pub remove_account :
      AdminInputs W → String → AdminState W → AdminState W × Outcome String (Unit {0})
  remove_account i alias st =
      let left = remove_all i (i.home_of alias) st in
      let (s, result) = remove_account_by_alias i.stamp i.failure alias left.store in
      if str_eq alias "" then (st, err "alias is required") else (record left { store = s }, result)

  unfoldable pub with_reply : AdminState W → Store W × AdminReply W → AdminState W × AdminReply W
  with_reply st (s, reply) = (record st { store = s }, reply)

  unfoldable pub removal_reply :
      String → AdminState W × Outcome String (Unit {0}) → AdminState W × AdminReply W
  removal_reply alias (st, result) =
      with_reply st (mutation_reply 400 (append "removed account " alias) (st.store, result))

  unfoldable pub pin_found : AdminInputs W → String → String → Store W → Store W × AdminReply W
  pin_found i alias id s =
      if str_eq id ""
      then (s, rejected 404 (append "alias not found: " alias))
      else mutation_reply 500 (append "pinned account " alias)
          (update i.stamp i.failure (λ sf. (set_pin id sf, ok tt)) s)

  -- A body that cannot be decoded and a blank alias are refused before anything else.
  unfoldable pub with_alias_of :
      Option String
      → AdminState W
      → (String → AdminState W × AdminReply W)
      → AdminState W × AdminReply W
  with_alias_of none st handle = (st, rejected 400 "invalid request")
  with_alias_of (some alias) st handle =
      if str_eq (trim_space alias) "" then (st, rejected 400 "alias is required") else handle alias

  -- `os.MkdirAll`
  unfoldable pub make_home : AdminInputs W → String → AdminState W → AdminState W
  make_home i alias st =
      if validate_alias (codes alias) && i.makes_home
      then record st { homes = i.home_of alias ∷ st.homes }
      else st

  unfoldable pub added_reply :
      AdminInputs W → String → String → AdminState W → AdminState W × AdminReply W
  added_reply i verb alias st =
      with_reply (make_home i alias st)
        (mutation_reply 400 (append verb alias) (add_account i alias st.store))

  unfoldable pub handle_admin :
      AdminInputs W → AdminRequest → AdminState W → AdminState W × AdminReply W
  handle_admin i list_accounts st = (st, listed (snapshot st.store).accounts)
  handle_admin i (login body) st =
      with_alias_of body st (λ alias. added_reply i "registered account " alias st)
  handle_admin i (import_data body) st =
      with_alias_of body st (λ alias. added_reply i "imported account " alias st)
  handle_admin i (import_home body) st =
      with_alias_of body st (λ alias. added_reply i "imported account " alias st)
  handle_admin i (import_nothing body) st =
      with_alias_of body st (λ alias. (st, rejected 400 "from_home or auth is required"))
  handle_admin i (remove body) st =
      with_alias_of body st (λ alias. removal_reply alias (remove_account i alias st))
  handle_admin i (pin body) st = with_alias_of body st (λ alias.
      with_reply st (pin_found i alias (pinned_id_of alias (snapshot st.store).accounts) st.store))
  handle_admin i unpin st = with_reply st (
      mutation_reply 500 "unpinned account selection"
        (update i.stamp i.failure (λ sf. (unpin_account sf, ok tt)) st.store))
  handle_admin i not_found st = (st, rejected 404 "admin endpoint not found")
