-- ===== src/Admin.antt =====
-- internal/lb/proxy.go: the admin interface. `equal_fold` is strings.EqualFold; the replies of child
-- proxies, by their URL, are arguments.
use Prim.Native.String.{◌++◌ as append}
use agent_lb_proxy.Prelude.{
  ℕ, Bool, true, false, not, ◌&&◌, ◌||◌, String, Option, none, some, List, [], ◌∷◌, str_eq, ◌==◌,
  if◌then◌else◌,
}
use agent_lb_proxy.Prelude.Text.{trim_space}
use agent_lb_proxy.Types.Defaults.{sanitize_command}
pub mod Forward
pub mod Sent
pub mod Handle
pub mod Refused

abbrev pub target_not_found : String
target_not_found = "target_proxy_not_found"

abbrev pub target_ambiguous : String
target_ambiguous = "target_proxy_ambiguous"

abbrev pub target_unavailable : String
target_unavailable = "target_proxy_unavailable"

-- `adminForwardResponse`, or the error of the request; `error_code` is that of the decoded body.
pub data ForwardReply : Type 0 where
  forward_error : String → ForwardReply
  forward_answer : ℕ → String → ForwardReply

-- What the handler writes: an answer that is passed on, or an error of its own with its code.
pub data ForwardResult : Type 0 where
  passed_on : ℕ → String → ForwardResult
  refused : ℕ → String → ForwardResult

unfoldable pub has_device_auth : List String → Bool
has_device_auth [] = false
has_device_auth (part ∷ rest) = str_eq (trim_space part) "--device-auth" || has_device_auth rest

-- `login` is the login command of the settings.
unfoldable pub effective_admin_login_args : List String → List String → List String
effective_admin_login_args login (a ∷ args) = a ∷ args
effective_admin_login_args login [] =
    if has_device_auth (sanitize_command login) then [] else "--device-auth" ∷ []

module _ (equal_fold : String → String → Bool) where
  -- The loop over the children: those of the name, and whether one could not be asked. `name_of` is the
  -- name that a child reports.
  unfoldable pub child_matches : (String → Option String) → String → List String → List String
  child_matches name_of target [] = []
  child_matches name_of target (url ∷ urls) =
      let rest = child_matches name_of target urls in
      elim (name_of url) [
        | none ↦ rest
        | some name ↦ if equal_fold (trim_space name) target then url ∷ rest else rest
      ]

  unfoldable pub some_unreachable : (String → Option String) → List String → Bool
  some_unreachable name_of [] = false
  some_unreachable name_of (url ∷ urls) = elim (name_of url) [
    | none ↦ true
    | some name ↦ some_unreachable name_of urls
  ]

  -- `none` is the error of a child that could not be asked, when no other has the name.
  unfoldable pub find_direct_child_proxy_matches :
      (String → Option String) → String → List String → Option (List String)
  find_direct_child_proxy_matches name_of target urls =
      let name = trim_space target in
      let matches = child_matches name_of name urls in
      if str_eq name "" then some [] else (elim matches [
        | [] ↦ if some_unreachable name_of urls then none else some []
        | m ∷ ms ↦ some (m ∷ ms)
      ])

-- The variables of the search: `matched`, and whether `searchErrors` has an entry.
pub record Search : Type 0 where
  pub matched : Option (ℕ × String)
  pub failed : Bool

unfoldable pub search_end : Search → ForwardResult
search_end s = elim s.matched [
  | some answer ↦ passed_on answer.0 answer.1
  | none ↦ if s.failed then refused 502 target_unavailable else refused 404 target_not_found
]

-- What one reply does to the variables; `none` is the conflict of a second answer.
unfoldable pub take_answer : ℕ × String → Search → Option Search
take_answer answer s = elim s.matched [
  | none ↦ some (record s { matched = some answer })
  | some first ↦ none
]

unfoldable pub take_reply : ForwardReply → Search → Option Search
take_reply (forward_error e) s = some (record s { failed = true })
take_reply (forward_answer status code) s =
    if status == 404 && str_eq code target_not_found then some s else take_answer (status, code) s

unfoldable pub continue_search :
    (Search → ForwardResult × List String) → String → Option Search → ForwardResult × List String
continue_search next url none = (refused 409 target_ambiguous, url ∷ [])
continue_search next url (some s) = ((next s).0, url ∷ (next s).1)

-- The search through all children; with the result, the children that the request was sent to.
unfoldable pub search_children :
    (String → ForwardReply) → List String → Search → ForwardResult × List String
search_children forward [] s = (search_end s, [])
search_children forward (url ∷ urls) s =
    continue_search (search_children forward urls) url (take_reply (forward url) s)

unfoldable pub forward_to_match : ForwardReply → ForwardResult
forward_to_match (forward_error e) = refused 502 target_unavailable
forward_to_match (forward_answer status code) = passed_on status code

-- The direct children of the name decide; with none the request is sent to every child.
unfoldable pub forward_to_matches :
    (String → ForwardReply) → List String → Option (List String) → ForwardResult × List String
forward_to_matches forward urls none = (refused 502 target_unavailable, [])
forward_to_matches forward urls (some []) =
    search_children forward urls (record { matched = none; failed = false })
forward_to_matches forward urls (some (url ∷ [])) = (forward_to_match (forward url), url ∷ [])
forward_to_matches forward urls (some (url ∷ v ∷ vs)) = (refused 409 target_ambiguous, [])

-- `forwardAdminToNamedProxy` for a request that is not streamed and whose body can be read.
unfoldable pub forward_admin_to_named_proxy :
    (String → String → Bool)
    → (String → Option String)
    → (String → ForwardReply)
    → String
    → List String
    → ForwardResult × List String
forward_admin_to_named_proxy equal_fold name_of forward target [] =
    (refused 404 target_not_found, [])
forward_admin_to_named_proxy equal_fold name_of forward target (url ∷ urls) =
    forward_to_matches forward (url ∷ urls)
      (find_direct_child_proxy_matches equal_fold name_of target (url ∷ urls))
