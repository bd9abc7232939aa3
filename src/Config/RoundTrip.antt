-- ===== src/Config/RoundTrip.antt =====
-- Settings that are written and then loaded are the same settings.
use Prim.Native.String.{◌++◌ as append}
use agent_lb_proxy.Prelude.{◌≡◌, refl, ap, ◌∙◌, true, false, String, Option, none, some, str_eq}
use agent_lb_proxy.Prelude.Text.{trim_space}
use agent_lb_proxy.Prelude.Float.{Float64}
use agent_lb_proxy.Prelude.Outcome.{ok}
use agent_lb_proxy.Types.{ProxyConfig, PolicyConfig, Settings}
use agent_lb_proxy.Types.Defaults.{
  clean_url, normalize_proxy_url_list, sanitize_command, default_store, merge_settings,
}
use agent_lb_proxy.Config.{ConfigFile, ConfigProxy, ConfigPolicy, settings_to_config}
use agent_lb_proxy.Config.Partial.{
  PartialConfigFile, PartialConfigProxy, PartialConfigPolicy, is_policy_mode, take_mode, take_proxy,
  take_policy, take_weights, take_quota, take_commands, take_run, take_proxy_url, new_proxy_url,
  take_partial,
}
use agent_lb_proxy.Config.Load.{
  File, content, header, Toml, write_encoded, write_settings_config, legacy_proxy_url,
  merged_settings, name_settings, load_parsed, load_or_create_settings_config,
}

-- Each text is what the loader makes of it, and the defaults change nothing.
pub record IsCanonical {W : Type 0} ⦃f : Float64 W⦄ (s : Settings W) : Type 0 where
  pub name : trim_space s.proxy.name ≡ s.proxy.name
  pub has_name : str_eq s.proxy.name "" ≡ false
  pub listen : trim_space s.proxy.listen ≡ s.proxy.listen
  pub upstream : clean_url s.proxy.upstream_base_url ≡ s.proxy.upstream_base_url
  pub urls : normalize_proxy_url_list s.proxy.child_proxy_urls ≡ s.proxy.child_proxy_urls
  pub proxy_url : trim_space s.proxy_url ≡ s.proxy_url
  pub mode : trim_space s.policy.mode ≡ s.policy.mode
  pub known_mode : is_policy_mode s.policy.mode ≡ true
  pub login : sanitize_command s.commands.login ≡ s.commands.login
  pub run : sanitize_command s.commands.run ≡ s.commands.run
  pub merged : merge_settings s ≡ s

abbrev full_proxy : ConfigProxy → PartialConfigProxy
full_proxy c = record {
  name = some c.name;
  listen = some c.listen;
  upstream_base_url = some c.upstream_base_url;
  child_proxy_urls = some c.child_proxy_urls;
  proxy_url = some c.proxy_url;
  max_attempts = some c.max_attempts;
  usage_timeout_ms = some c.usage_timeout_ms;
  cooldown_default_seconds = some c.cooldown_default_seconds;
}

module _ {W : Type 0} where
  abbrev full_policy : ConfigPolicy W → PartialConfigPolicy W
  full_policy c = record {
    mode = some c.mode;
    delta_percent = some c.delta_percent;
    weights = some (record { daily = some c.weights.daily; weekly = some c.weights.weekly });
  }

  -- A file that has every key.
  abbrev pub full : ConfigFile W → PartialConfigFile W
  full c = record {
    proxy = some (full_proxy c.proxy);
    policy = some (full_policy c.policy);
    quota = some (record {
      refresh_interval_minutes = some c.quota.refresh_interval_minutes;
      refresh_interval_messages = some c.quota.refresh_interval_messages;
      cache_ttl_minutes = some c.quota.cache_ttl_minutes;
    });
    commands = some (record { login = some c.commands.login; run = some c.commands.run });
    run = some (record { inherit_shell = some c.run.inherit_shell });
  }

module _ {W : Type 0} ⦃f : Float64 W⦄ where
  take_proxy-full :
      (s : Settings W) (out : ProxyConfig)
      → IsCanonical s
      → take_proxy (full_proxy (settings_to_config s).proxy) out ≡ s.proxy
  unfolding take_proxy settings_to_config
  take_proxy-full s out h = rw (h.name, h.listen, h.upstream, h.urls) refl

  take_policy-full :
      (s : Settings W) (out : PolicyConfig W)
      → IsCanonical s
      → take_policy (full_policy (settings_to_config s).policy) out ≡ s.policy
  unfolding take_policy settings_to_config take_mode take_weights
  take_policy-full s out h = rw (h.mode, h.known_mode) refl

  take_partial-full :
      (s out : Settings W) (legacy : Option String)
      → IsCanonical s
      → take_partial (full (settings_to_config s)) legacy out ≡ s
  unfolding take_partial settings_to_config take_commands take_run take_quota take_proxy_url
      new_proxy_url
  take_partial-full s out legacy h =
      ap (λ p. put p (take_policy (full_policy (settings_to_config s).policy) out.policy))
        (take_proxy-full s out.proxy h)
      ∙ ap (put s.proxy) (take_policy-full s out.policy h)
      ∙ rw (h.proxy_url, h.login, h.run) refl
    where
      put : ProxyConfig → PolicyConfig W → Settings W
      put p q = record s {
        proxy = p;
        proxy_url = trim_space s.proxy_url;
        policy = q;
        commands = record {
          login = sanitize_command s.commands.login;
          run = sanitize_command s.commands.run;
        };
      }

  merged_settings-full :
      (s : Settings W) (legacy : Option String)
      → IsCanonical s
      → merged_settings (full (settings_to_config s)) legacy ≡ s
  unfolding merged_settings
  merged_settings-full s legacy h =
      ap merge_settings (take_partial-full s (default_store "").settings legacy h) ∙ h.merged

  load_parsed-full :
      (toml : Toml W) (legacy : Option String) (failure : Option File) (random_name text : String)
      (s : Settings W)
      → IsCanonical s
      → load_parsed (some (full (settings_to_config s))) legacy toml failure random_name text
        ≡ (content text, ok s)
  unfolding load_parsed name_settings
  load_parsed-full toml legacy failure random_name text s h =
      ap (λ x. name_settings toml failure random_name x (content text))
        (merged_settings-full s legacy h)
      ∙ rw h.has_name refl

  -- Canonical settings that WriteSettingsConfig has written are what loadOrCreateSettingsConfig then
  -- returns, and the file stays as it was written, when the TOML library encodes them and reads every
  -- key of what it wrote back.
  pub load-write_settings_config :
      (toml : Toml W) (failure : Option File) (random_name : String) (before : File)
      (s : Settings W) (encoded : String)
      → toml.marshal (settings_to_config s) ≡ some encoded
      → toml.unmarshal (append header encoded) ≡ some (full (settings_to_config s))
      → IsCanonical s
      → let text : String = append header encoded in
        (write_settings_config toml none s before ≡ (content text, ok tt))
        × (load_or_create_settings_config toml failure random_name (content text)
            ≡ (content text, ok s))
  unfolding write_settings_config write_encoded load_or_create_settings_config
  load-write_settings_config toml failure random_name before s encoded e reads h =
      let text : String = append header encoded in
      (
        ap (λ m. write_encoded m none before) e,
        ap (λ p. load_parsed p (legacy_proxy_url toml text) toml failure random_name text) reads
            ∙ load_parsed-full toml (legacy_proxy_url toml text) failure random_name text s h,
      )
