-- ===== src/Tests/Data.antt =====
-- Two accounts, a store of them, a server, and what an upstream may answer.
use agent_lb_proxy.Prelude.{ℕ, Bool, true, false, String, none, List, [], ◌∷◌}
use agent_lb_proxy.Prelude.Int.{ℤ, pos}
use agent_lb_proxy.Prelude.Codes.{codes}
use agent_lb_proxy.Prelude.Outcome.{Outcome, err}
use agent_lb_proxy.Types.{
  Account, AuthInfo, PolicyConfig, ProxyConfig, QuotaState, Settings, StoreFile,
}
use agent_lb_proxy.Policy.{Selection}
use agent_lb_proxy.Store.{Store, RuntimeSettingsOverrides}
use agent_lb_proxy.Status.{ProxyStatus}
use agent_lb_proxy.Routes.{ChildProxies, ChildProxyRuntime, ChildProxyTarget}
use agent_lb_proxy.Routes.Marks.{failed as no_status}
use agent_lb_proxy.Serve.{
  Response, absent, number, Reply, failed, AuthError, Attempt, Incoming, Server, Last,
}

-- Ten-thousandths: 100 %.
abbrev pub hundred : ℤ
hundred = pos 1000000

abbrev pub quota_used : ℤ → QuotaState ℤ
quota_used used = record {
  daily_limit = hundred;
  daily_used = used;
  daily_reset_at = pos 0;
  weekly_limit = hundred;
  weekly_used = used;
  weekly_reset_at = pos 0;
  additional_limits = [];
  last_sync_at = pos 1;
  last_sync_message_counter = pos 0;
  source = "openai_usage_api";
}

abbrev pub account_named : String → ℤ → Account ℤ
account_named id used = record {
  id = id;
  alias = id;
  home_dir = id;
  base_url = "https://chatgpt.com/backend-api";
  enabled = true;
  disabled_reason = "";
  cooldown_until_ms = pos 0;
  last_used_at_ms = pos 0;
  last_switch_reason = "";
  chatgpt_account_id = "";
  user_email = "";
  quota = quota_used used;
}

abbrev pub account_a : Account ℤ
account_a = account_named "a" (pos 500000)

abbrev pub account_b : Account ℤ
account_b = account_named "b" (pos 100000)

abbrev pub proxy_config : List String → ProxyConfig
proxy_config children = record {
  name = "p";
  listen = "127.0.0.1:8765";
  upstream_base_url = "https://chatgpt.com/backend-api";
  child_proxy_urls = children;
  max_attempts = pos 3;
  usage_timeout_ms = pos 1000;
  cooldown_default_s = pos 5;
}

abbrev pub policy_of : String → PolicyConfig ℤ
policy_of mode = record {
  mode = mode;
  delta_percent = pos 100000;
  weights = record { daily = pos 600000; weekly = pos 400000 };
}

abbrev pub settings_of : String → List String → Settings ℤ
settings_of mode children = record {
  proxy = proxy_config children;
  proxy_url = "";
  policy = policy_of mode;
  quota = record {
    refresh_interval_minutes = pos 5;
    refresh_interval_messages = pos 10;
    cache_ttl_minutes = pos 1;
  };
  commands = record { login = "codex" ∷ []; run = [] };
  run = record { inherit_shell = false };
}

abbrev pub store_of : String → String → List String → List (Account ℤ) → StoreFile ℤ
store_of mode pinned children accounts = record {
  version = pos 1;
  updated_at = "";
  settings = settings_of mode children;
  state = record {
    active_index = pos 0;
    message_counter = pos 0;
    last_rotation_at_ms = pos 0;
    pinned_account_id = pinned;
  };
  accounts = accounts;
}

abbrev pub two_accounts : List (Account ℤ)
two_accounts = account_a ∷ account_b ∷ []

abbrev pub usage_store : StoreFile ℤ
usage_store = store_of "usage_balanced" "" [] two_accounts

abbrev pub sticky_store : StoreFile ℤ
sticky_store = store_of "sticky" "" [] two_accounts

abbrev pub pinned_store : StoreFile ℤ
pinned_store = store_of "sticky" "b" [] two_accounts

abbrev pub empty_store : StoreFile ℤ
empty_store = store_of "sticky" "" [] []

abbrev pub no_overrides : RuntimeSettingsOverrides
no_overrides = record {
  proxy_name = none;
  listen = none;
  upstream_base_url = none;
  child_proxy_urls = none;
  max_attempts = none;
  usage_timeout_ms = none;
  cooldown_default_seconds = none;
  refresh_interval_minutes = none;
  refresh_interval_messages = none;
  cache_ttl_minutes = none;
}

abbrev pub store_with : StoreFile ℤ → Store ℤ
store_with sf = record {
  store_file = sf;
  runtime_overrides = no_overrides;
  disk = none;
  temp = none;
}

-- The status of a proxy with nothing to tell.
abbrev pub no_report : ProxyStatus ℤ
no_report = record {
  proxy_name = "";
  selected_account_id = "";
  selected_proxy_url = "";
  selection_reason = "";
  accounts = [];
  additional_limits = [];
  child_proxies = [];
}

abbrev pub unknown_child : ChildProxyRuntime ℤ
unknown_child = record {
  cooldown_until_ms = pos 0;
  last_used_at_ms = pos 0;
  last_switch_reason = "";
  last_error = "";
  reachable = false;
  status = no_report;
  status_fetched_at = none;
}

abbrev pub no_children : ChildProxies ℤ
no_children = record { states = λ url. unknown_child; active_url = ""; active_route_id = "" }

abbrev pub server_with : StoreFile ℤ → Server ℤ
server_with sf = record { store = store_with sf; children = no_children }

abbrev pub child_target : Bool → ChildProxyTarget ℤ
child_target healthy = record {
  name = "";
  url = "http://child";
  active = false;
  healthy = healthy;
  reachable = true;
  cooldown_until_ms = pos 0;
  last_used_at_ms = pos 0;
  score = pos 10000;
  selected_target = "";
  selection_reason = "";
  last_switch_reason = "";
  last_error = "";
  accounts = [];
}

abbrev pub credentials : AuthInfo
credentials = record {
  access_token = "t";
  refresh_token = "r";
  id_token = "";
  chatgpt_account_id = "";
  user_email = "";
}

abbrev pub unreadable_auth : AuthError
unreadable_auth = record { message = "no auth.json"; code = none }

-- 11 seconds after 1970.
abbrev pub attempt_with :
    Outcome AuthError AuthInfo → Outcome AuthError AuthInfo → Reply → Attempt ℤ
attempt_with loaded reloaded reply = record {
  loaded = loaded;
  reloaded = reloaded;
  refreshed = err unreadable_auth;
  rewrite_error = none;
  request_error = none;
  reply = reply;
  second_reply = failed "none";
  fetch = λ url. no_status "down" "down";
  fetch_started_ns = λ url. pos 11000000000;
  fetch_ended_ns = λ url. pos 11000000000;
  limits_fail = false;
  stamp = λ site. "";
  failure = λ site. none;
  clock_ns = λ site. pos 11000000000;
}

abbrev pub overloaded : Response
overloaded = record { status = 503; retry_after = number (pos 7); body = []; readable = true }

abbrev pub limited : Response
limited = record {
  status = 403;
  retry_after = absent;
  body = codes "You've hit your usage limit.";
  readable = true;
}

abbrev pub post_responses : Incoming
post_responses = record { is_post = true; path = codes "/v1/responses" }

abbrev pub nothing_yet : Last
nothing_yet = record { resp = none; error = none }

-- Beyond ASCII nothing is lowered.
abbrev pub same_case : ℕ → ℕ
same_case c = c

abbrev pub first_choice : Selection ℤ
first_choice = record {
  index = 0;
  score = pos 5000;
  best_score = pos 5000;
  switched = false;
  switch_reason = "sticky";
}

-- The choice of `b` when `a` is out.
abbrev pub fallback_b : Selection ℤ
fallback_b = record {
  index = 1;
  score = pos 9000;
  best_score = pos 9000;
  switched = true;
  switch_reason = "sticky-fallback";
}
