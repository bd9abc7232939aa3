-- ===== src/Targets.antt =====
-- cmd/codexlb/main.go: which proxy an account command of the command line talks to, and which proxy of
-- a chain it names. The reply to the request for the status is an argument, `none` for an error.
use Prim.Native.String.{◌++◌ as append}
use agent_lb_proxy.Prelude.{
  Bool, true, false, not, ◌&&◌, ◌||◌, String, Option, none, some, List, [], ◌∷◌, str_eq,
  if◌then◌else◌,
}
use agent_lb_proxy.Prelude.Text.{trim_space}
use agent_lb_proxy.Prelude.Outcome.{Outcome, ok, err, panic}
use agent_lb_proxy.Store.{Store}
use agent_lb_proxy.Store.Overrides.{snapshot}
use agent_lb_proxy.Status.{AccountStatus, ProxyStatus}
pub mod Owner

unfoldable pub name_in : List String → String → Bool
name_in [] name = false
name_in (x ∷ xs) name = str_eq x name || name_in xs name

-- `matches[name] = struct{}{}`
unfoldable pub insert_name : String → List String → List String
insert_name name names = if name_in names name then names else name ∷ names

unfoldable pub only_name : Option (List String) → String
only_name none = ""
only_name (some []) = ""
only_name (some (n ∷ [])) = n
only_name (some (n ∷ m ∷ names)) = ""

unfoldable pub name_or_none : Option String → String
name_or_none none = ""
name_or_none (some name) = name

module _ {W : Type 0} where
  unfoldable pub is_account : String → AccountStatus W → Bool
  is_account alias a = not (not (str_eq a.alias alias) && not (str_eq a.id alias))

  unfoldable pub owner_name : String → AccountStatus W → String
  owner_name proxy_name a =
      let name = trim_space a.proxy_name in if str_eq name "" then trim_space proxy_name else name

  -- The loop over the accounts; `none` when it returns for an account without a proxy's name.
  unfoldable pub owners :
      String → String → List (AccountStatus W) → List String → Option (List String)
  owners proxy_name alias [] names = some names
  owners proxy_name alias (a ∷ rest) names =
      let name = owner_name proxy_name a in
      let skipped = owners proxy_name alias rest names in
      let found = owners proxy_name alias rest (insert_name name names) in
      if not (is_account alias a) then skipped else if str_eq name "" then none else found

  unfoldable pub name_in_status : String → ProxyStatus W → String
  name_in_status alias status =
      if str_eq (trim_space alias) ""
      then ""
      else only_name (owners status.proxy_name (trim_space alias) status.accounts [])

  unfoldable pub resolve_proxy_name_for_account_alias :
      Option (ProxyStatus W) → String → Option String
  resolve_proxy_name_for_account_alias none alias = none
  resolve_proxy_name_for_account_alias (some status) alias = some (name_in_status alias status)

  unfoldable pub resolve_account_admin_target_url : Store W → String → String → String
  resolve_account_admin_target_url s proxy_url proxy_name =
      let sf = snapshot s in
      if not (str_eq (trim_space proxy_url) "")
      then trim_space proxy_url
      else if not (str_eq (trim_space sf.settings.proxy_url) "")
      then trim_space sf.settings.proxy_url
      else if not (str_eq (trim_space proxy_name) "")
      then append "http://" sf.settings.proxy.listen
      else ""

  unfoldable pub resolve_proxy_url : Store W → String → String
  resolve_proxy_url s proxy_url =
      let sf = snapshot s in
      if not (str_eq (trim_space proxy_url) "")
      then trim_space proxy_url
      else if not (str_eq sf.settings.proxy_url "")
      then sf.settings.proxy_url
      else append "http://" sf.settings.proxy.listen

  unfoldable pub target_url_of : Option (Store W) → String → String → String
  target_url_of none proxy_url proxy_name = trim_space proxy_url
  target_url_of (some s) proxy_url proxy_name =
      if str_eq (trim_space proxy_url) ""
      then resolve_account_admin_target_url s "" proxy_name
      else trim_space proxy_url

  -- The address and the proxy's name; `status` is what the proxy at the address reports.
  unfoldable pub resolve_account_admin_mutation_target :
      Option (ProxyStatus W) → Option (Store W) → String → String → String → String × String
  resolve_account_admin_mutation_target status s proxy_url proxy_name alias =
      let url = target_url_of s proxy_url proxy_name in
      if str_eq url ""
      then (url, trim_space proxy_name)
      else if not (str_eq (trim_space proxy_name) "")
      then (url, trim_space proxy_name)
      else (url, name_or_none (resolve_proxy_name_for_account_alias status alias))
