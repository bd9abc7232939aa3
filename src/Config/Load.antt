-- ===== src/Config/Load.antt =====
-- `loadOrCreateSettingsConfig` and `WriteSettingsConfig` of internal/lb/config.go.
use agent_lb_proxy.Prelude.{String, Option, none, some, str_eq, if◌then◌else◌}
use Prim.Native.String.{◌++◌ as append}
use agent_lb_proxy.Prelude.Float.{Float64}
use agent_lb_proxy.Prelude.Outcome.{Outcome, ok, err, panic}
use agent_lb_proxy.Types.{Settings}
use agent_lb_proxy.Types.Defaults.{default_store, merge_settings}
use agent_lb_proxy.Config.{ConfigFile, settings_to_config}
use agent_lb_proxy.Config.Partial.{PartialConfigFile, take_partial}

-- What reading config.toml gives.
pub data File : Type 0 where
  missing : File
  unreadable : File
  content : String → File

-- The comment at the top of a file that is written.
abbrev pub header : String
header =
    "# codexlb configuration\n# Edit these values to tune proxy/account selection behavior.\n\n"

-- The TOML library: `unmarshal_legacy` reads `run.proxy_url` alone, with `none` for a text that is no
-- TOML.
pub record Toml (W : Type 0) : Type 0 where
  pub marshal : ConfigFile W → Option String
  pub unmarshal : String → Option (PartialConfigFile W)
  pub unmarshal_legacy : String → Option (Option String)

-- The text that is encoded, if it is; `failure` is the file that `os.WriteFile` leaves when it fails.
unfoldable pub write_encoded : Option String → Option File → File → File × Outcome String (Unit {0})
write_encoded none failure file = (file, err "marshal config.toml")
write_encoded (some encoded) (some left) file = (left, err "write config.toml")
write_encoded (some encoded) none file = (content (append header encoded), ok tt)

module _ {W : Type 0} where
  unfoldable pub write_settings_config :
      Toml W → Option File → Settings W → File → File × Outcome String (Unit {0})
  write_settings_config toml failure settings file =
      write_encoded (toml.marshal (settings_to_config settings)) failure file

  -- The settings, unless the write that comes first has failed.
  unfoldable pub written_settings :
      Settings W → File × Outcome String (Unit {0}) → File × Outcome String (Settings W)
  written_settings settings (file, ok u) = (file, ok settings)
  written_settings settings (file, err e) = (file, err e)
  written_settings settings (file, panic) = (file, panic)

  -- `legacy` of a text: a parse that fails counts as none.
  unfoldable pub legacy_proxy_url : Toml W → String → Option String
  legacy_proxy_url toml text = elim (toml.unmarshal_legacy text) [ none ↦ none | some url ↦ url ]

module _ {W : Type 0} ⦃f : Float64 W⦄ where
  -- `random_name` is what `newRandomProxyName` returns.
  unfoldable pub named : String → Settings W → Settings W
  named random_name s = record s { proxy = record s.proxy { name = random_name } }

  -- The settings of a text that is read, before a name is chosen.
  unfoldable pub merged_settings : PartialConfigFile W → Option String → Settings W
  merged_settings p legacy = merge_settings (take_partial p legacy (default_store "").settings)

  -- Settings with no name get one, and are written.
  unfoldable pub name_settings :
      Toml W → Option File → String → Settings W → File → File × Outcome String (Settings W)
  name_settings toml failure random_name s file =
      if str_eq s.proxy.name ""
      then written_settings (named random_name s)
          (write_settings_config toml failure (named random_name s) file)
      else (file, ok s)

  -- The text as it is parsed, if it is, and the `proxy_url` under [run].
  unfoldable pub load_parsed :
      Option (PartialConfigFile W)
      → Option String
      → Toml W
      → Option File
      → String
      → String
      → File × Outcome String (Settings W)
  load_parsed none legacy toml failure random_name text = (content text, err "parse config.toml")
  load_parsed (some p) legacy toml failure random_name text =
      name_settings toml failure random_name (merged_settings p legacy) (content text)

  unfoldable pub load_or_create_settings_config :
      Toml W → Option File → String → File → File × Outcome String (Settings W)
  load_or_create_settings_config toml failure random_name missing =
      let s = named random_name (default_store "").settings in
      written_settings s (write_settings_config toml failure s missing)
  load_or_create_settings_config toml failure random_name unreadable =
      (unreadable, err "read config.toml")
  load_or_create_settings_config toml failure random_name (content text) =
      load_parsed (toml.unmarshal text) (legacy_proxy_url toml text) toml failure random_name text
