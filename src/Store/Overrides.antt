-- ===== src/Store/Overrides.antt =====
-- `applyRuntimeOverrides` and `Snapshot` of internal/lb/store.go.
use agent_lb_proxy.Prelude.{Option, none, some}
use agent_lb_proxy.Prelude.Text.{trim_space}
use agent_lb_proxy.Types.{ProxyConfig, QuotaConfig, StoreFile}
use agent_lb_proxy.Types.Defaults.{normalize_proxy_url_list}
use agent_lb_proxy.Store.{RuntimeSettingsOverrides, Store, move_base_url}

abbrev or_else {ℓ} : {A : Type ℓ} → Option A → A → A
or_else none d = d
or_else (some a) d = a

unfoldable pub override_proxy : RuntimeSettingsOverrides → ProxyConfig → ProxyConfig
override_proxy o p = record {
  name = elim o.proxy_name [ none ↦ p.name | some name ↦ trim_space name ];
  listen = or_else o.listen p.listen;
  upstream_base_url = or_else o.upstream_base_url p.upstream_base_url;
  child_proxy_urls = elim o.child_proxy_urls [
    | none ↦ p.child_proxy_urls
    | some urls ↦ normalize_proxy_url_list urls
  ];
  max_attempts = or_else o.max_attempts p.max_attempts;
  usage_timeout_ms = or_else o.usage_timeout_ms p.usage_timeout_ms;
  cooldown_default_s = or_else o.cooldown_default_seconds p.cooldown_default_s;
}

unfoldable pub override_quota : RuntimeSettingsOverrides → QuotaConfig → QuotaConfig
override_quota o q = record {
  refresh_interval_minutes = or_else o.refresh_interval_minutes q.refresh_interval_minutes;
  refresh_interval_messages = or_else o.refresh_interval_messages q.refresh_interval_messages;
  cache_ttl_minutes = or_else o.cache_ttl_minutes q.cache_ttl_minutes;
}

module _ {W : Type 0} where
  -- The accounts follow the upstream URL; every other override is of one setting.
  unfoldable pub apply_runtime_overrides : RuntimeSettingsOverrides → StoreFile W → StoreFile W
  apply_runtime_overrides o sf = record sf {
    settings = record sf.settings {
      proxy = override_proxy o sf.settings.proxy;
      quota = override_quota o sf.settings.quota;
    };
    accounts = elim o.upstream_base_url [
      | none ↦ sf.accounts
      | some next ↦ move_base_url sf.settings.proxy.upstream_base_url next sf.accounts
    ];
  }

  unfoldable pub snapshot : Store W → StoreFile W
  snapshot s = apply_runtime_overrides s.runtime_overrides s.store_file
