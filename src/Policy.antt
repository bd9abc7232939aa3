-- ===== src/Policy.antt =====
-- internal/lb/policy.go: which account serves the next request. Indexes are natural numbers; the
-- index -1, which the source returns beside an error and for an empty list, is `err` or `none`, and
-- an access out of range is a panic.
pub mod Score
pub mod Indexes
pub mod Safety
pub mod Available
pub mod Usage
pub mod Stay
pub mod Rotation
use agent_lb_proxy.Prelude.{
  ℕ, zero, suc, ◌+◌, ◌%◌, Bool, true, false, not, ◌&&◌, ◌||◌, String, Option, none, some, List, [],
  ◌∷◌, length, get_elem?, index_func, ltb, ◌==◌, str_eq, if◌then◌else◌,
}
use agent_lb_proxy.Prelude.Int.{ℤ, pos, pos_part, ltb_ℤ, leb_ℤ}
use agent_lb_proxy.Prelude.Float.{Float64, of_int, lt, le, add, sub, mul, div, fmax, fmin}
use agent_lb_proxy.Prelude.Outcome.{Outcome, ok, err, panic, at, ◌>>=◌}
use agent_lb_proxy.Policy.Score.{account_quota_exhausted, score}
use agent_lb_proxy.Types.{
  PolicyConfig, AdditionalQuotaState, QuotaState, Account, RuntimeState, StoreFile,
}

pub record Selection (W : Type 0) : Type 0 where
  pub index : ℕ
  pub score : W
  pub best_score : W
  pub switched : Bool
  pub switch_reason : String

unfoldable pub contains : List ℕ → ℕ → Bool
contains [] target = false
contains (v ∷ values) target = if v == target then true else contains values target

unfoldable pub next_healthy : List ℕ → ℕ → Option ℕ
next_healthy [] current = none
next_healthy (h ∷ hs) current = elim (index_func (λ idx. idx == current) (h ∷ hs)) [
  | none ↦ some h
  | some i ↦ get_elem? (h ∷ hs) ((i + 1) % length (h ∷ hs))
]

-- An active index out of range gives way to the first candidate.
unfoldable pub active_or_first : ℤ → ℕ → ℕ → ℕ
active_or_first active total first =
    if ltb_ℤ active (pos 0) || leb_ℤ (pos total) active then first else pos_part active

module _ {W : Type 0} ⦃f : Float64 W⦄ where
  -- The three tests of the loop body.
  unfoldable pub is_healthy : ℤ → Account W → Bool
  is_healthy now_ms a =
      if not a.enabled
      then false
      else if not (str_eq a.disabled_reason "")
      then false
      else not (ltb_ℤ now_ms a.cooldown_until_ms)

  -- `i` is the index of the first account of the list.
  unfoldable pub healthy_from : ℤ → ℕ → List (Account W) → List ℕ
  healthy_from now_ms i [] = []
  healthy_from now_ms i (a ∷ accounts) =
      let rest = healthy_from now_ms (suc i) accounts in
      if is_healthy now_ms a then i ∷ rest else rest

  unfoldable pub healthy_indexes : List (Account W) → ℤ → List ℕ
  healthy_indexes accounts now_ms = healthy_from now_ms 0 accounts

  unfoldable pub eligible_indexes : List (Account W) → List ℕ → List ℕ
  eligible_indexes accounts [] = []
  eligible_indexes accounts (idx ∷ candidates) =
      let rest = eligible_indexes accounts candidates in
      elim (get_elem? accounts idx) [
        | none ↦ rest
        | some a ↦ if account_quota_exhausted a then rest else idx ∷ rest
      ]

  -- The healthy accounts, those with quota left if there are any.
  unfoldable pub candidates : List (Account W) → ℤ → List ℕ
  candidates accounts now_ms =
      let healthy = healthy_indexes accounts now_ms in
      let eligible = eligible_indexes accounts healthy in
      if ltb 0 (length eligible) then eligible else healthy

  -- The results whose two scores are those of the chosen account.
  unfoldable pub pick : StoreFile W → ℕ → Bool → String → Outcome String (Selection W)
  pick sf idx switched reason = do
    a ← at sf.accounts idx
    let s = score a sf.settings.policy
    ok (record {
      index = idx;
      score = s;
      best_score = s;
      switched = switched;
      switch_reason = reason;
    })

  -- The search for the pinned account.
  unfoldable pub find_pinned : List (Account W) → String → List ℕ → Outcome String (Option ℕ)
  find_pinned accounts id [] = ok none
  find_pinned accounts id (idx ∷ healthy) = do
    a ← at accounts idx
    if str_eq a.id id then ok (some idx) else find_pinned accounts id healthy

  -- The loop that keeps the first best score.
  unfoldable pub best_from :
      List (Account W) → PolicyConfig W → ℕ → W → List ℕ → Outcome String (ℕ × W)
  best_from accounts policy best_idx best_score [] = ok (best_idx, best_score)
  best_from accounts policy best_idx best_score (idx ∷ healthy) = do
    a ← at accounts idx
    let s = score a policy
    let better = lt best_score s
    best_from accounts policy (if better then idx else best_idx) (if better then s else best_score)
        healthy

  unfoldable pub select_sticky : StoreFile W → List ℕ → ℕ → Outcome String (Selection W)
  select_sticky sf healthy active =
      if contains healthy active
      then pick sf active false "sticky"
      else (do idx ← at healthy 0; pick sf idx true "sticky-fallback")

  unfoldable pub select_round_robin : StoreFile W → List ℕ → ℕ → Outcome String (Selection W)
  select_round_robin sf healthy active =
      if not (contains healthy active)
      then (do idx ← at healthy 0; pick sf idx true "rr-fallback")
      else elim (next_healthy healthy active) [
        | none ↦ panic
        | some idx ↦ if idx == active then pick sf idx false "rr-stay" else pick sf idx true "rr"
      ]

  unfoldable pub usage_delta : PolicyConfig W → W
  usage_delta policy = div (fmax (of_int (pos 0)) policy.delta_percent) (of_int (pos 100))

  -- The choice between the active account and the best one.
  unfoldable pub usage_choice : StoreFile W → List ℕ → ℕ → ℕ × W → Outcome String (Selection W)
  usage_choice sf healthy active (best_idx, best_score) =
      if not (contains healthy active)
      then ok (record {
        index = best_idx;
        score = best_score;
        best_score = best_score;
        switched = true;
        switch_reason = "usage-fallback";
      })
      else do
        a ← at sf.accounts active
        let cur_score = score a sf.settings.policy
        if lt cur_score (sub best_score (usage_delta sf.settings.policy))
            then ok (record {
              index = best_idx;
              score = cur_score;
              best_score = best_score;
              switched = true;
              switch_reason = "usage-hysteresis";
            })
            else ok (record {
              index = active;
              score = cur_score;
              best_score = best_score;
              switched = false;
              switch_reason = "usage-stay";
            })

  unfoldable pub select_usage : StoreFile W → List ℕ → ℕ → Outcome String (Selection W)
  select_usage sf [] active = panic
  select_usage sf (h ∷ hs) active = do
    a ← at sf.accounts h
    best ← best_from sf.accounts sf.settings.policy h (score a sf.settings.policy) hs
    usage_choice sf (h ∷ hs) active best

  unfoldable pub select_by_mode : StoreFile W → List ℕ → Outcome String (Selection W)
  select_by_mode sf healthy = do
    first ← at healthy 0
    let active = active_or_first sf.state.active_index (length sf.accounts) first
    if str_eq sf.settings.policy.mode "sticky"
        then select_sticky sf healthy active
        else if str_eq sf.settings.policy.mode "round_robin"
        then select_round_robin sf healthy active
        else select_usage sf healthy active

  unfoldable pub pinned_among : StoreFile W → List ℕ → Outcome String (Option ℕ)
  pinned_among sf healthy =
      if str_eq sf.state.pinned_account_id ""
      then ok none
      else find_pinned sf.accounts sf.state.pinned_account_id healthy

  unfoldable pub select_account : StoreFile W → ℤ → Outcome String (Selection W)
  select_account sf now_ms =
      let healthy = candidates sf.accounts now_ms in
      if length healthy == 0 then err "no healthy accounts" else (do
        pinned ← pinned_among sf healthy
        elim pinned [ none ↦ select_by_mode sf healthy | some idx ↦ pick sf idx false "pinned" ])
