-- ===== src/Store/Marks.antt =====
-- What the proxy records of an account (internal/lb/proxy.go): success, cooldown, disabling and
-- recovery. Each is the function that the method hands to `Store.Update`.
use agent_lb_proxy.Prelude.{
  ℕ, Bool, true, false, ◌&&◌, ◌||◌, String, Option, none, some, List, [], ◌∷◌, map, modify,
  index_func, str_eq, if◌then◌else◌,
}
use agent_lb_proxy.Prelude.Int.{ℤ, pos, ltb_ℤ, leb_ℤ, ◌+ℤ◌, ◌*ℤ◌, floor_div, wrap64}
use agent_lb_proxy.Types.{Account, StoreFile, AuthInfo}

-- `time.Now().Add(time.Duration(seconds) * time.Second).UnixMilli()`, for a clock in nanoseconds
-- since 1970. The product is an `int64`.
unfoldable pub cooldown_deadline : ℤ → ℤ → ℤ
cooldown_deadline clock_ns seconds =
    floor_div (clock_ns +ℤ wrap64 (seconds *ℤ pos 1000000000)) 1000000

unfoldable pub should_clear_pin_on_disable : String → Bool
should_clear_pin_on_disable reason =
    str_eq reason "missing-auth" || str_eq reason "http-401" || str_eq reason "refresh-token-reused"

module _ {W : Type 0} where
  abbrev pub index_of_id : String → List (Account W) → Option ℕ
  index_of_id id accounts = index_func (λ a. str_eq a.id id) accounts

  -- The account with the identifier is changed, if there is one.
  unfoldable pub on_account : String → (Account W → Account W) → StoreFile W → StoreFile W
  on_account id change sf = elim (index_of_id id sf.accounts) [
    | none ↦ sf
    | some i ↦ record sf { accounts = modify sf.accounts i change }
  ]

  unfoldable pub succeed : ℤ → String → Account W → Account W
  succeed now_ms reason a = record a {
    last_used_at_ms = now_ms;
    last_switch_reason = reason;
    cooldown_until_ms = pos 0;
    enabled = true;
    disabled_reason = "";
  }

  unfoldable pub mark_success : ℤ → Bool → String → String → Bool → StoreFile W → StoreFile W
  mark_success now_ms switched reason id increment sf = elim (index_of_id id sf.accounts) [
    | none ↦ sf
    | some i ↦ record sf {
      accounts = modify sf.accounts i (succeed now_ms reason);
      state = record sf.state {
        active_index = pos i;
        last_rotation_at_ms = if switched then now_ms else sf.state.last_rotation_at_ms;
        message_counter =
            if increment
            then wrap64 (sf.state.message_counter +ℤ pos 1)
            else sf.state.message_counter;
      };
    }
  ]

  unfoldable pub cool_down : ℤ → ℤ → String → Account W → Account W
  cool_down clock_ns seconds reason a = record a {
    cooldown_until_ms =
        cooldown_deadline clock_ns (if leb_ℤ seconds (pos 0) then pos 1 else seconds);
    last_switch_reason = reason;
  }

  unfoldable pub mark_cooldown : ℤ → String → ℤ → String → StoreFile W → StoreFile W
  mark_cooldown clock_ns id seconds reason = on_account id (cool_down clock_ns seconds reason)

  unfoldable pub disable : String → Account W → Account W
  disable reason a = record a {
    enabled = false;
    disabled_reason = reason;
    last_switch_reason = reason;
  }

  unfoldable pub mark_disabled : String → String → StoreFile W → StoreFile W
  mark_disabled id reason sf = elim (index_of_id id sf.accounts) [
    | none ↦ sf
    | some i ↦ record sf {
      accounts = modify sf.accounts i (disable reason);
      state = record sf.state {
        pinned_account_id =
            if should_clear_pin_on_disable reason && str_eq sf.state.pinned_account_id id
            then ""
            else sf.state.pinned_account_id;
      };
    }
  ]

  unfoldable pub recover : AuthInfo → Account W → Account W
  recover auth a = record a {
    enabled = true;
    disabled_reason = "";
    last_switch_reason = "auth-refresh-recovered";
    chatgpt_account_id =
        if str_eq auth.chatgpt_account_id "" then a.chatgpt_account_id else auth.chatgpt_account_id;
    user_email = if str_eq auth.user_email "" then a.user_email else auth.user_email;
  }

  unfoldable pub mark_auth_recovered : String → AuthInfo → StoreFile W → StoreFile W
  mark_auth_recovered id auth = on_account id (recover auth)

  -- The change of `loadAuthForAccount` when the stored file names another ChatGPT account.
  unfoldable pub adopt_auth : AuthInfo → Account W → Account W
  adopt_auth auth a = record a {
    chatgpt_account_id = auth.chatgpt_account_id;
    user_email = auth.user_email;
    enabled = true;
    disabled_reason = "";
  }

  unfoldable pub expire : ℤ → Account W → Account W
  expire now_ms a = record a {
    cooldown_until_ms =
        if ltb_ℤ (pos 0) a.cooldown_until_ms && leb_ℤ a.cooldown_until_ms now_ms
        then pos 0
        else a.cooldown_until_ms;
  }

  unfoldable pub expire_cooldowns : ℤ → StoreFile W → StoreFile W
  expire_cooldowns now_ms sf = record sf { accounts = map (expire now_ms) sf.accounts }

  -- The change of `maybeRefreshQuota`.
  unfoldable pub take_refresh : Account W → Account W → Account W
  take_refresh updated a = record a {
    quota = updated.quota;
    chatgpt_account_id = updated.chatgpt_account_id;
    user_email = updated.user_email;
    enabled = updated.enabled;
    disabled_reason = updated.disabled_reason;
    last_switch_reason =
        if str_eq updated.last_switch_reason ""
        then a.last_switch_reason
        else updated.last_switch_reason;
  }

  unfoldable pub store_refresh : String → Account W → StoreFile W → StoreFile W
  store_refresh id updated = on_account id (take_refresh updated)

  -- `/admin/account/pin`: the identifier of the first account with the alias, in a snapshot.
  unfoldable pub pinned_id_of : String → List (Account W) → String
  pinned_id_of alias [] = ""
  pinned_id_of alias (a ∷ accounts) =
      if str_eq a.alias alias then a.id else pinned_id_of alias accounts

  unfoldable pub set_pin : String → StoreFile W → StoreFile W
  set_pin id sf = record sf { state = record sf.state { pinned_account_id = id } }

  unfoldable pub unpin_account : StoreFile W → StoreFile W
  unpin_account sf = set_pin "" sf
