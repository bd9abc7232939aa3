-- ===== src/Config/Usable.antt =====
-- Every configuration that `loadOrCreateSettingsConfig` returns is one that the program can run with.
use agent_lb_proxy.Prelude.{
  ◌≡◌, refl, subst, true, false, String, Option, none, some, str_eq, eq_iff, arith, Bool-cases, inl,
  inr,
}
use agent_lb_proxy.Prelude.Float.{Float64, IsOrdered}
use agent_lb_proxy.Prelude.Outcome.{Outcome, ok, err, panic, Keeps}
use agent_lb_proxy.Types.{Settings, PolicyConfig}
use agent_lb_proxy.Types.Defaults.{
  default_store, merge_settings, merge_policy, merge_defaults, or_text,
}
use agent_lb_proxy.Types.Merge.{IsUsable, merge_defaults-IsUsable, zero-lt-of_int}
use agent_lb_proxy.Config.Partial.{
  PartialConfigFile, PartialConfigPolicy, is_policy_mode, take_mode, take_policy, take_partial,
  with_table,
}
use agent_lb_proxy.Config.Load.{
  File, missing, unreadable, content, Toml, write_encoded, named, write_settings_config,
  written_settings, merged_settings, name_settings, load_parsed, legacy_proxy_url,
  load_or_create_settings_config,
}

-- Usable, with a name, and with one of the three modes.
pub record IsLoaded {W : Type 0} ⦃f : Float64 W⦄ (s : Settings W) : Type 0 where
  pub usable : IsUsable s
  pub has_name : str_eq s.proxy.name "" ≡ false
  pub known_mode : is_policy_mode s.policy.mode ≡ true

take_mode-known :
    (mode out : String) → is_policy_mode out ≡ true → is_policy_mode (take_mode mode out) ≡ true
unfolding take_mode
take_mode-known mode out h = ground arith

or_text-known : (s d : String) → is_policy_mode s ≡ true → is_policy_mode (or_text s d) ≡ true
unfolding is_policy_mode
or_text-known s d h = elim (Bool-cases (str_eq s "")) [
  | inl e ↦ absurd (empty (subst (λ x. is_policy_mode x ≡ true) (blank e) h))
  | inr e ↦ rw e h
]
  where
    empty : is_policy_mode "" ≡ true → ⊥
    empty q = ground arith

    blank : str_eq s "" ≡ true → s ≡ ""
    blank e = ground (arith, eq_iff s "")

write_encoded-Keeps :
    (encoded : Option String) (failure : Option File) (file : File)
    → Keeps (λ u. Unit {0}) (write_encoded encoded failure file).1
unfolding write_encoded
write_encoded-Keeps none failure file = tt
write_encoded-Keeps (some encoded) (some left) file = tt
write_encoded-Keeps (some encoded) none file = tt

module _ {W : Type 0} where
  written_settings-Keeps :
      (P : Settings W → Type 0) (s : Settings W) (r : File × Outcome String (Unit {0}))
      → Keeps (λ u. Unit {0}) r.1
      → P s
      → Keeps P (written_settings s r).1
  unfolding written_settings
  written_settings-Keeps P s (file, ok u) k h = h
  written_settings-Keeps P s (file, err e) k h = tt
  written_settings-Keeps P s (file, panic) k h = k

  write_named-Keeps :
      (P : Settings W → Type 0) (toml : Toml W) (failure : Option File) (s : Settings W)
      (file : File)
      → P s
      → Keeps P (written_settings s (write_settings_config toml failure s file)).1
  unfolding write_settings_config
  write_named-Keeps P toml failure s file h =
      written_settings-Keeps P s _ (write_encoded-Keeps _ failure file) h

take_mode_given-known :
    (mode : Option String) (out : String)
    → is_policy_mode out ≡ true
    → is_policy_mode (with_table take_mode mode out) ≡ true
take_mode_given-known none out h = h
take_mode_given-known (some mode) out h = take_mode-known mode out h

module _ {W : Type 0} where
  take_policy-known :
      (q : Option (PartialConfigPolicy W)) (out : PolicyConfig W)
      → is_policy_mode out.mode ≡ true
      → is_policy_mode (with_table take_policy q out).mode ≡ true
  unfolding take_policy
  take_policy-known none out h = h
  take_policy-known (some q) out h = take_mode_given-known q.mode out.mode h

module _ {W : Type 0} ⦃f : Float64 W⦄ (o : IsOrdered W) where
  -- The settings that no file has changed.
  default_settings-IsUsable : IsUsable {W = W} (default_store "").settings
  unfolding default_store
  default_settings-IsUsable = record {
    listens = refl;
    upstream = refl;
    attempts = ground arith;
    usage_timeout = ground arith;
    cooldown = ground arith;
    mode = refl;
    delta = zero-lt-of_int o 10 (omega arith) (omega arith);
    daily = zero-lt-of_int o 60 (omega arith) (omega arith);
    weekly = zero-lt-of_int o 40 (omega arith) (omega arith);
    minutes = ground arith;
    messages = ground arith;
    ttl = ground arith;
    login = omega arith;
  }

  merged_settings-IsUsable :
      (p : PartialConfigFile W) (legacy : Option String) → IsUsable (merged_settings p legacy)
  unfolding merged_settings merge_defaults
  merged_settings-IsUsable p legacy =
      (merge_defaults-IsUsable o "" (record (default_store "") {
        settings = take_partial p legacy (default_store "").settings;
      })).0

  named-IsUsable : (name : String) (s : Settings W) → IsUsable s → IsUsable (named name s)
  unfolding named
  named-IsUsable name s u = record {
    listens = u.listens;
    upstream = u.upstream;
    attempts = u.attempts;
    usage_timeout = u.usage_timeout;
    cooldown = u.cooldown;
    mode = u.mode;
    delta = u.delta;
    daily = u.daily;
    weekly = u.weekly;
    minutes = u.minutes;
    messages = u.messages;
    ttl = u.ttl;
    login = u.login;
  }

  merged_settings-known :
      (p : PartialConfigFile W) (legacy : Option String)
      → is_policy_mode (merged_settings p legacy).policy.mode ≡ true
  unfolding merged_settings merge_settings merge_policy take_partial
  merged_settings-known p legacy = or_text-known _ _ (
      take_policy-known p.policy (default_store "").settings.policy
        (unfold default_store is_policy_mode in refl))

  name_settings-Keeps :
      (toml : Toml W) (failure : Option File) (random_name : String) (s : Settings W) (file : File)
      → str_eq random_name "" ≡ false
      → IsUsable s
      → is_policy_mode s.policy.mode ≡ true
      → Keeps IsLoaded (name_settings toml failure random_name s file).1
  unfolding name_settings
  name_settings-Keeps toml failure random_name s file h u k =
      elim (Bool-cases (str_eq s.proxy.name "")) [
        | inl e ↦ rw e (
            write_named-Keeps IsLoaded toml failure (named random_name s) file (record {
              usable = named-IsUsable random_name s u;
              has_name = unfold named in h;
              known_mode = unfold named in k;
            }))
        | inr e ↦ rw e (record { usable = u; has_name = e; known_mode = k })
      ]

  load_parsed-Keeps :
      (parsed : Option (PartialConfigFile W)) (legacy : Option String) (toml : Toml W)
      (failure : Option File) (random_name text : String)
      → str_eq random_name "" ≡ false
      → Keeps IsLoaded (load_parsed parsed legacy toml failure random_name text).1
  unfolding load_parsed
  load_parsed-Keeps none legacy toml failure random_name text h = tt
  load_parsed-Keeps (some p) legacy toml failure random_name text h =
      name_settings-Keeps toml failure random_name _ _ h (merged_settings-IsUsable p legacy)
        (merged_settings-known p legacy)

  -- Whatever config.toml holds, or with none, loadOrCreateSettingsConfig does not panic, and settings that
  -- it returns are usable, have a name and one of the three modes, when the random name is not empty.
  pub load_or_create_settings_config-IsLoaded :
      (toml : Toml W) (failure : Option File) (random_name : String) (file : File)
      → str_eq random_name "" ≡ false
      → Keeps IsLoaded (load_or_create_settings_config toml failure random_name file).1
  unfolding load_or_create_settings_config
  load_or_create_settings_config-IsLoaded toml failure random_name missing h =
      write_named-Keeps IsLoaded toml failure _ missing (record {
        usable = named-IsUsable random_name _ default_settings-IsUsable;
        has_name = unfold named in h;
        known_mode = unfold named default_store is_policy_mode in refl;
      })
  load_or_create_settings_config-IsLoaded toml failure random_name unreadable h = tt
  load_or_create_settings_config-IsLoaded toml failure random_name (content text) h =
      load_parsed-Keeps (toml.unmarshal text) (legacy_proxy_url toml text) toml failure random_name
        text h
