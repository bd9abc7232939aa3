-- ===== src/Types/Merge.antt =====
-- What `mergeDefaults` and `normalizeProxyURLList` establish.
use agent_lb_proxy.Prelude.{
  ℕ, ◌^◌, ◌≤◌, ◌<◌, ◌≡◌, refl, ◌⊎◌, Bool, true, false, not, ◌&&◌, String, List, [], ◌∷◌, map, All,
  length, arith, str_eq, eq_iff, inl, inr, Bool-cases, if◌then◌else◌,
}
use agent_lb_proxy.Prelude.Int.{pos, ◌<ℤ◌}
use agent_lb_proxy.Prelude.Float.{Float64, IsOrdered, of_int, lt, lt_asymm}
use agent_lb_proxy.Types.{Settings, Account, StoreFile, PolicyWeights}
use agent_lb_proxy.Types.Defaults.{
  contains_text, clean_url, normalize_from, normalize_proxy_url_list, merge_proxy, merge_quota,
  merge_login, or_text, merge_weights, merge_account, merge_defaults,
}

-- No text stands twice in the list.
abbrev pub IsDistinct : List String → Type 0
IsDistinct [] = Unit
IsDistinct (s ∷ rest) = (contains_text rest s ≡ false) × IsDistinct rest

contains-normalize_from :
    (seen urls : List String) (u : String)
    → contains_text (normalize_from seen urls) u
      ≡ (not (str_eq u "") && contains_text (map clean_url urls) u && not (contains_text seen u))
unfolding normalize_from contains_text
contains-normalize_from seen [] u = ground arith
contains-normalize_from seen (raw ∷ rest) u = ground (
  arith,
  eq_iff (clean_url raw) u,
  eq_iff (clean_url raw) "",
  eq_iff u "",
  contains-normalize_from seen rest u,
  contains-normalize_from (clean_url raw ∷ seen) rest u,
)

contains-clean_head :
    (seen rest : List String) (u : String)
    → contains_text (normalize_from (u ∷ seen) rest) u ≡ false
unfolding contains_text
contains-clean_head seen rest u =
    ground (arith, contains-normalize_from (u ∷ seen) rest u, eq_iff u u)

normalize_from-IsDistinct : (seen urls : List String) → IsDistinct (normalize_from seen urls)
unfolding normalize_from
normalize_from-IsDistinct seen [] = tt
normalize_from-IsDistinct seen (raw ∷ rest) = elim (Bool-cases (str_eq (clean_url raw) "")) [
  | inl e ↦ rw e (normalize_from-IsDistinct seen rest)
  | inr e ↦ elim (Bool-cases (contains_text seen (clean_url raw))) [
    | inl c ↦ rw (e, c) (normalize_from-IsDistinct seen rest)
    | inr c ↦
        rw (e, c)
          (
            contains-clean_head seen rest (clean_url raw),
            normalize_from-IsDistinct (clean_url raw ∷ seen) rest,
          )
  ]
]

-- `normalizeProxyURLList` returns each URL once, and holds exactly the trimmed forms of its inputs
-- that are not empty.
pub normalize_proxy_url_list_lem :
    (urls : List String)
    → IsDistinct (normalize_proxy_url_list urls)
      × ((u : String)
          → contains_text (normalize_proxy_url_list urls) u
            ≡ (not (str_eq u "") && contains_text (map clean_url urls) u))
unfolding normalize_proxy_url_list contains_text
normalize_proxy_url_list_lem urls =
    (normalize_from-IsDistinct [] urls, λ u. ground (arith, contains-normalize_from [] urls u))

-- What the rest of the program relies on in a configuration.
pub record IsUsable {W : Type 0} ⦃f : Float64 W⦄ (s : Settings W) : Type 0 where
  pub listens : str_eq s.proxy.listen "" ≡ false
  pub upstream : str_eq s.proxy.upstream_base_url "" ≡ false
  pub attempts : pos 0 <ℤ s.proxy.max_attempts
  pub usage_timeout : pos 0 <ℤ s.proxy.usage_timeout_ms
  pub cooldown : pos 0 <ℤ s.proxy.cooldown_default_s
  pub mode : str_eq s.policy.mode "" ≡ false
  pub delta : lt s.policy.delta_percent (of_int (pos 0)) ≡ false
  pub daily : lt s.policy.weights.daily (of_int (pos 0)) ≡ false
  pub weekly : lt s.policy.weights.weekly (of_int (pos 0)) ≡ false
  pub minutes : pos 0 <ℤ s.quota.refresh_interval_minutes
  pub messages : pos 0 <ℤ s.quota.refresh_interval_messages
  pub ttl : pos 0 <ℤ s.quota.cache_ttl_minutes
  pub login : 0 < length s.commands.login

-- An account is enabled, or it is disabled for a stated reason; and it has a base URL.
abbrev pub IsSettled : {W : Type 0} → Account W → Type 0
IsSettled a =
    ((a.enabled ≡ true) ⊎ (str_eq a.disabled_reason "" ≡ false)) × (str_eq a.base_url "" ≡ false)

pub or_text_nonempty : (s d : String) → str_eq d "" ≡ false → str_eq (or_text s d) "" ≡ false
or_text_nonempty s d h = elim (Bool-cases (str_eq s "")) [ inl e ↦ rw e h | inr e ↦ rw e e ]

enabled_or_reason :
    (enabled no_reason : Bool)
    → ((if not enabled && no_reason then true else enabled) ≡ true) ⊎ (no_reason ≡ false)
enabled_or_reason true no_reason = inl refl
enabled_or_reason false true = inl refl
enabled_or_reason false false = inr refl

merge_login_pos : (login : List String) → 0 < length (merge_login login)
unfolding merge_login
merge_login_pos login = ground arith

module _ {W : Type 0} ⦃f : Float64 W⦄ where
  merge_account-IsSettled :
      (upstream : String) (a : Account W)
      → str_eq upstream "" ≡ false
      → IsSettled (merge_account upstream a)
  unfolding merge_account
  merge_account-IsSettled upstream a h = (
    enabled_or_reason a.enabled (str_eq a.disabled_reason ""),
    or_text_nonempty a.base_url upstream h,
  )

  merge_accounts-IsSettled :
      (upstream : String) (accounts : List (Account W))
      → str_eq upstream "" ≡ false
      → All IsSettled (map (merge_account upstream) accounts)
  merge_accounts-IsSettled upstream [] h = tt
  merge_accounts-IsSettled upstream (a ∷ rest) h =
      (merge_account-IsSettled upstream a h, merge_accounts-IsSettled upstream rest h)

  module _ (o : IsOrdered W) where
    pub zero-lt-of_int :
        (n : ℕ) → 0 < n → n ≤ 2 ^ 53 → lt {W = W} (of_int (pos n)) (of_int (pos 0)) ≡ false
    zero-lt-of_int n h k = lt_asymm o _ _ (o.of_int-lt 0 n h k)

    merge_weights_nonneg :
        (w : PolicyWeights W)
        → (lt (merge_weights w).daily (of_int (pos 0)) ≡ false)
          × (lt (merge_weights w).weekly (of_int (pos 0)) ≡ false)
    unfolding merge_weights
    merge_weights_nonneg w = ground (
      arith,
      o.lt_irrefl (of_int (pos 0)),
      zero-lt-of_int 60 (omega arith) (omega arith),
      zero-lt-of_int 40 (omega arith) (omega arith),
    )

    -- After `mergeDefaults` the settings are usable (positive limits, no empty mode, address or
    -- login command, no negative delta or weight), and every account is enabled or has a reason.
    pub merge_defaults-IsUsable :
        (stamp : String) (sf : StoreFile W)
        → IsUsable (merge_defaults stamp sf).settings
          × All IsSettled (merge_defaults stamp sf).accounts
    unfolding merge_defaults merge_proxy merge_quota
    merge_defaults-IsUsable stamp sf = (
      record {
        listens = or_text_nonempty sf.settings.proxy.listen _ refl;
        upstream = or_text_nonempty sf.settings.proxy.upstream_base_url _ refl;
        attempts = ground arith;
        usage_timeout = ground arith;
        cooldown = ground arith;
        mode = or_text_nonempty sf.settings.policy.mode _ refl;
        delta =
            ground
              (arith, o.lt_irrefl (of_int (pos 0)), zero-lt-of_int 10 (omega arith) (omega arith));
        daily = (merge_weights_nonneg sf.settings.policy.weights).0;
        weekly = (merge_weights_nonneg sf.settings.policy.weights).1;
        minutes = ground arith;
        messages = ground arith;
        ttl = ground arith;
        login = merge_login_pos sf.settings.commands.login;
      },
      merge_accounts-IsSettled _ sf.accounts
          (or_text_nonempty sf.settings.proxy.upstream_base_url _ refl),
    )
