-- ===== src/ImportAlias/Infer.antt =====
-- cmd/codexlb/main.go: where the alias of an import comes from. The files of the source directory and
-- the store are read before: the configuration as a tree, the credentials, the base of the path.
use agent_lb_proxy.Prelude.{ℕ, Bool, Option, none, some, List, [], ◌∷◌, ◌==◌, if◌then◌else◌}
use agent_lb_proxy.Prelude.Codes.{Text, codes, text_equal, trim_left_text, trim_right_text}
use agent_lb_proxy.Request.{to_lower}
use agent_lb_proxy.ImportAlias.{
  trim_left_of, trim_right_of, sanitize_import_alias_candidate, random_import_alias,
  make_unique_import_alias,
}

-- `strings.TrimSpace`
abbrev trimmed : Text → Text
trimmed s = trim_right_text (trim_left_text s)

abbrev is_blank : Text → Bool
is_blank s = text_equal (trimmed s) []

-- A value of the configuration; a table holds its keys in the order in which Go ranges over them.
mutual
  pub data Node : Type 0 where
    text : Text → Node
    table : Fields → Node
    array : Items → Node
    other : Node

  pub data Fields : Type 0 where
    no_fields : Fields
    field : Text → Node → Fields → Fields

  pub data Items : Type 0 where
    no_items : Items
    item : Node → Items → Items

-- `node[key].(string)`, and "" for none.
unfoldable pub text_at : Text → Fields → Text
text_at key no_fields = []
text_at key (field k (text v) fs) =
    let rest = text_at key fs in if text_equal k key then v else rest
text_at key (field k _ fs) = let rest = text_at key fs in if text_equal k key then [] else rest

-- The first text that is not empty.
abbrev first_text : Text → Text → Text
first_text s t = if text_equal s [] then t else s

unfoldable pub named_hint : Fields → Text → Text
named_hint fs rest =
    let alias = text_at (codes "alias") fs in
    let profile = text_at (codes "profile") fs in
    if is_blank alias then (if is_blank profile then rest else profile) else alias

unfoldable mutual
  pub find_import_alias_hint : Node → Text
  find_import_alias_hint (text v) = []
  find_import_alias_hint (table fs) = named_hint fs (hint_of_fields fs)
  find_import_alias_hint (array xs) = hint_of_items xs
  find_import_alias_hint other = []

  pub hint_of_fields : Fields → Text
  hint_of_fields no_fields = []
  hint_of_fields (field k v fs) = first_text (find_import_alias_hint v) (hint_of_fields fs)

  pub hint_of_items : Items → Text
  hint_of_items no_items = []
  hint_of_items (item v xs) = first_text (find_import_alias_hint v) (hint_of_items xs)

unfoldable pub before_at : Text → Text
before_at [] = []
before_at (c ∷ s) = if c == b'@' then [] else c ∷ before_at s

unfoldable pub email_alias_local_part : Text → Text
email_alias_local_part email = before_at (trimmed email)

-- What the source directory holds; `none` for a file that cannot be read or parsed.
pub record SourceHome : Type 0 where
  pub config : Option Node
  pub user_email : Option Text
  pub chatgpt_account_id : Option Text
  pub base_name : Text

-- `sanitizeLoginArgs`
unfoldable pub sanitize_login_args : List Text → List Text
sanitize_login_args [] = []
sanitize_login_args (a ∷ args) = if text_equal a (codes "--") then args else a ∷ args

abbrev text_or_empty : Option Text → Text
text_or_empty none = []
text_or_empty (some s) = s

module _ (wide : ℕ → ℕ) where
  unfoldable pub import_alias_from_config : Option Node → Text
  import_alias_from_config none = []
  import_alias_from_config (some config) =
      sanitize_import_alias_candidate wide (find_import_alias_hint config)

  -- The name of the directory, unless it is that of a default one.
  unfoldable pub alias_of_base_name : Text → Text
  alias_of_base_name name =
      let is_dot : ℕ → Bool = λ c. c == b'.' in
      let bare = to_lower wide (trim_right_of is_dot (trim_left_of is_dot name)) in
      if text_equal bare []
      then []
      else if text_equal bare (codes "codex")
      then []
      else sanitize_import_alias_candidate wide name

  unfoldable pub hinted_alias : SourceHome → Text
  hinted_alias home = first_text (import_alias_from_config home.config) (
      first_text
        (sanitize_import_alias_candidate wide
          (email_alias_local_part (text_or_empty home.user_email)))
        (first_text (sanitize_import_alias_candidate wide (text_or_empty home.chatgpt_account_id))
          (alias_of_base_name home.base_name)))

  unfoldable pub local_import_alias_set : List Text → List Text
  local_import_alias_set [] = []
  local_import_alias_set (a ∷ aliases) =
      let alias = to_lower wide (trimmed a) in
      let rest = local_import_alias_set aliases in
      if text_equal alias [] then rest else alias ∷ rest

  module _ (random : ℕ → Text) where
    unfoldable pub infer_import_alias : SourceHome → ℕ → Text × ℕ
    infer_import_alias home k =
        let hinted = hinted_alias home in
        if text_equal hinted [] then random_import_alias random k else (hinted, k)

    -- An alias that is given is only trimmed.
    unfoldable pub resolve_import_alias : ℕ → Text → SourceHome → List Text → ℕ → Option Text
    resolve_import_alias fuel alias home taken k =
        let base = infer_import_alias home k in
        if text_equal (trimmed alias) []
        then make_unique_import_alias wide random fuel base.0 taken base.1
        else some (trimmed alias)
