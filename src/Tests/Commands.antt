-- ===== src/Tests/Commands.antt =====
-- The theorems on the command line, the import aliases and the configuration, at concrete inputs.
use agent_lb_proxy.Prelude.{ℕ, ◌≡◌, ◌≢◌, refl, false, none, some, List, [], ◌∷◌, ◌++◌, map, arith}
use Prim.Native.String.{◌++◌ as append}
use agent_lb_proxy.Prelude.Int.{ℤ}
use agent_lb_proxy.Prelude.Fixed.{fixed, fixed-IsOrdered}
use agent_lb_proxy.Prelude.Codes.{Text, codes, text_equal, trim_left_text, trim_right_text}
use agent_lb_proxy.Prelude.Outcome.{ok, Keeps}
use agent_lb_proxy.Types.{Settings}
use agent_lb_proxy.Shell.{
  equals, is_safe_shell_word, is_safe, sort_texts, value_of, format_shell_command,
}
use agent_lb_proxy.Shell.Reader.{read}
use agent_lb_proxy.Shell.RoundTrip.{read-format_shell_command}
use agent_lb_proxy.ImportAlias.{
  sanitize_import_alias_candidate, import_alias_taken, make_unique_import_alias, write_all, write,
  is_lower, is_digit, is_separator, shorten, trim_left_of, trim_right_of, alias_or_empty,
  first_codes,
}
use agent_lb_proxy.ImportAlias.Valid.{IsImportAlias, sanitize-IsImportAlias}
use agent_lb_proxy.ImportAlias.Unique.{IsSuffix}
use agent_lb_proxy.ImportAlias.Free.{text_equal_iff, make_unique_import_alias-IsFree}
use agent_lb_proxy.Config.{settings_to_config}
use agent_lb_proxy.Config.Load.{
  File, missing, content, header, Toml, named, write_settings_config,
  load_or_create_settings_config,
}
use agent_lb_proxy.Config.Usable.{IsLoaded, load_or_create_settings_config-IsLoaded}
use agent_lb_proxy.Config.RoundTrip.{IsCanonical, full, load-write_settings_config}
use agent_lb_proxy.Types.Defaults.{
  default_store, clean_url, normalize_proxy_url_list, sanitize_command, merge_settings,
}
use agent_lb_proxy.Prelude.Text.{is_space, trim_space}
use agent_lb_proxy.Request.{to_lower, lower}
use agent_lb_proxy.Config.Partial.{is_policy_mode}

-- A variable, and a text with a quote and a blank.
abbrev env : List (Text × Text)
env = (codes "B", codes "it's") ∷ (codes "A", codes "x y") ∷ []

nonempty_text : (t : Text) → text_equal t [] ≡ false → t ≢ []
nonempty_text t h e = ground (arith, (text_equal_iff t []).1)

read-format_shell_command_example :
    read (format_shell_command (codes "/bin/codex") (codes "login now" ∷ [] ∷ []) env)
    ≡ some (
        map (λ k. k ++ equals ∷ value_of env k) (sort_texts (map (λ e. e.0) env))
        ++ codes "/bin/codex" ∷ codes "login now" ∷ [] ∷ [])
unfolding is_safe_shell_word is_safe text_equal
read-format_shell_command_example =
    read-format_shell_command (codes "/bin/codex") (codes "login now" ∷ [] ∷ []) env
      ((nonempty_text (codes "B") refl, refl), ((nonempty_text (codes "A") refl, refl), tt))

abbrev wide : ℕ → ℕ
wide c = c

sanitize-IsImportAlias_example :
    IsImportAlias (sanitize_import_alias_candidate wide (codes " .Me & You! "))
unfolding sanitize_import_alias_candidate text_equal to_lower lower trim_left_text trim_right_text
    is_space write_all write is_lower is_digit is_separator shorten trim_left_of trim_right_of
    alias_or_empty first_codes
sanitize-IsImportAlias_example =
    sanitize-IsImportAlias wide (codes " .Me & You! ") (nonempty_text _ refl)

abbrev random : ℕ → Text
random k = codes "00c0ffee"

random-IsSuffix : (k : ℕ) → IsSuffix (random k)
unfolding is_lower is_digit text_equal
random-IsSuffix k = record { chars = refl; short = omega arith; nonempty = refl }

make_unique_import_alias-IsFree_example :
    (a : Text) × (make_unique_import_alias wide random 1 (codes "Work") (codes "work" ∷ []) 0
      ≡ some a)
    × (IsImportAlias a × (import_alias_taken wide a (codes "work" ∷ []) ≡ false))
make_unique_import_alias-IsFree_example =
    make_unique_import_alias-IsFree wide random 1 (codes "Work") (codes "work" ∷ []) 0
      random-IsSuffix (omega arith)

-- A library that writes one text and reads it back for what it wrote.
abbrev toml : Settings ℤ → Toml ℤ
toml s = record {
  marshal = λ c. some "toml";
  unmarshal = λ text. some (full (settings_to_config s));
  unmarshal_legacy = λ text. some none;
}

abbrev fresh : Settings ℤ
fresh = named "p" (default_store {W = ℤ} ⦃f = fixed⦄ "").settings

load_or_create_settings_config-IsLoaded_example :
    Keeps
      (IsLoaded ⦃f = fixed⦄)
      (load_or_create_settings_config ⦃f = fixed⦄ (toml fresh) none "p" missing).1
load_or_create_settings_config-IsLoaded_example =
    load_or_create_settings_config-IsLoaded ⦃f = fixed⦄ fixed-IsOrdered (toml fresh) none "p"
      missing refl

abbrev fresh_file : File
fresh_file = content (append header "toml")

fresh-IsCanonical : IsCanonical ⦃f = fixed⦄ fresh
unfolding default_store named fixed trim_space clean_url normalize_proxy_url_list is_policy_mode
    sanitize_command merge_settings
fresh-IsCanonical = record {
  name = refl;
  has_name = refl;
  listen = refl;
  upstream = refl;
  urls = refl;
  proxy_url = refl;
  mode = refl;
  known_mode = refl;
  login = refl;
  run = refl;
  merged = refl;
}

load-write_settings_config_example :
    (write_settings_config (toml fresh) none fresh missing ≡ (fresh_file, ok tt))
    × (load_or_create_settings_config ⦃f = fixed⦄ (toml fresh) none "q" fresh_file
        ≡ (fresh_file, ok fresh))
load-write_settings_config_example =
    load-write_settings_config ⦃f = fixed⦄ (toml fresh) none "q" missing fresh "toml" refl refl
      fresh-IsCanonical
