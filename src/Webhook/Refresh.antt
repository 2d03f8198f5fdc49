-- ===== src/Webhook/Refresh.antt =====
-- How often the handler asks the bank for its key.
use go_monobank_sdk.Base.{
  ℕ, suc, ◌+◌, ◌*◌, ◌≤◌, true, false, none, some, List, [], ◌∷◌, ◌≡◌, refl, ap, ◌∙◌, inl, inr,
  arith, Bool-cases, Option-cases, if◌then◌else◌, length,
}
use go_monobank_sdk.Webhook.Handler.{
  Handler, Moment, is_fresh, refresh, refresh_once, refresh_coalesced, min_refresh_interval,
}

module _ {P : Type 0} where
  -- The refreshes one after the other: how many asked for the key, and how many got one.
  unfoldable pub calls : Handler P → List (Moment P) → ℕ
  calls h [] = 0
  calls h (m ∷ ms) =
      let rest = calls (refresh_coalesced h m).handler ms in
      if (refresh_coalesced h m).called then suc rest else rest

  unfoldable pub successes : Handler P → List (Moment P) → ℕ
  successes h [] = 0
  successes h (m ∷ ms) =
      let rest = successes (refresh_coalesced h m).handler ms in
      let f = refresh_coalesced h m in
      if f.called then (if f.failed then rest else suc rest) else rest

  -- A clock that does not go back, from `at` to `end`.
  abbrev pub Clock : ℕ → List (Moment P) → ℕ → Type 0
  Clock at [] end = at ≤ end
  Clock at (m ∷ ms) end =
      (at ≤ m.now) × (m.now ≤ m.again) × (m.again ≤ m.done) × Clock m.done ms end

  abbrev pub AllFail : List (Moment P) → Type 0
  AllFail [] = Unit
  AllFail (m ∷ ms) = (m.fetched ≡ none) × AllFail ms

  data Step (h : Handler P) (m : Moment P) : Type 0 where
    throttled :
        (refresh_coalesced h m).handler ≡ h → (refresh_coalesced h m).called ≡ false → Step h m
    lost :
        is_fresh h.last_refresh_at m.again ≡ false
        → (refresh_coalesced h m).handler ≡ h
        → (refresh_coalesced h m).called ≡ true
        → (refresh_coalesced h m).failed ≡ true
        → Step h m
    renewed :
        is_fresh h.last_refresh_at m.again ≡ false
        → (refresh_coalesced h m).handler.last_refresh_at ≡ some m.done
        → (refresh_coalesced h m).called ≡ true
        → (refresh_coalesced h m).failed ≡ false
        → Step h m

  step : (h : Handler P) (m : Moment P) → Step h m
  unfolding refresh_coalesced refresh_once refresh
  step h m = elim (Bool-cases (is_fresh h.last_refresh_at m.now)) [
    | inl early ↦ Step.throttled (ground arith) (ground arith)
    | inr late ↦ elim (Bool-cases (is_fresh h.last_refresh_at m.again)) [
      | inl early ↦ Step.throttled (ground arith) (ground arith)
      | inr still ↦ elim (Option-cases m.fetched) [
        | inl gone ↦ Step.lost still (ground arith) (ground arith) (ground arith)
        | inr (sk, got) ↦
            Step.renewed still
              (rw (late, still, got, refresh_coalesced, refresh_once, refresh) refl) (ground arith)
              (ground arith)
      ]
    ]
  ]

  -- The refreshes that got a key are at least 30 seconds apart, on a clock that does not go back:
  -- after one that ended at `t`, k further ones take at least k times 30 seconds.
  pub successes-le :
      (ms : List (Moment P)) (h : Handler P) (t at end : ℕ)
      → h.last_refresh_at ≡ some t
      → t ≤ at
      → Clock at ms end
      → t + successes h ms * min_refresh_interval ≤ end
  unfolding successes is_fresh
  successes-le [] h t at end e le clock = omega arith
  successes-le (m ∷ ms) h t at end e le (c1, c2, c3, rest) = elim (step h m) [
    | throttled same quiet ↦
        let ih =
          successes-le ms (refresh_coalesced h m).handler t m.done end
            (ap (λ (x : Handler P). x.last_refresh_at) same ∙ e) (omega arith) rest in
        rw quiet ih
    | lost fresh same called failed ↦
        let ih =
          successes-le ms (refresh_coalesced h m).handler t m.done end
            (ap (λ (x : Handler P). x.last_refresh_at) same ∙ e) (omega arith) rest in
        rw (called, failed) ih
    | renewed fresh last called done ↦
        let ih =
          successes-le ms (refresh_coalesced h m).handler m.done m.done end last (omega arith)
            rest in
        let apart : t + min_refresh_interval ≤ m.again = ground arith in
        rw (called, done) (omega arith)
  ]

  -- Where the handler has not refreshed its key yet, refreshes that all fail each ask the bank for the
  -- key, whatever the clock says.
  pub calls-fail :
      (ms : List (Moment P)) (h : Handler P)
      → h.last_refresh_at ≡ none
      → AllFail ms
      → calls h ms ≡ length ms
  unfolding calls is_fresh refresh_coalesced refresh_once refresh
  calls-fail [] h e f = refl
  calls-fail (m ∷ ms) h e (gone, f) = let rest = calls-fail ms h e f in ground arith
