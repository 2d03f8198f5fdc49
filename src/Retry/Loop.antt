-- ===== src/Retry/Loop.antt =====
-- The retry loop: how often it calls, how long it sleeps, and where it stops.
use go_monobank_sdk.Base.{
  ℕ, zero, suc, ◌+◌, ◌-◌, ◌≤◌, ◌<◌, ◌≡◌, ◌⊎◌, inl, inr, refl, Bool, true, false, arith, Bool-cases,
}
use go_monobank_sdk.Base.Int.{ℤ, pos_part}
use go_monobank_sdk.Retry.{
  RetryPolicy, Outcome, success, failure, transient, permanent, canceled, attempts, delay, run_loop,
  run,
}

delay-le :
    (rand : ℕ → ℕ) (rp : RetryPolicy) (r : ℤ) (i : ℕ)
    → 0 < pos_part rp.max_delay
    → delay rand rp r i ≤ pos_part rp.max_delay
unfolding delay
delay-le rand rp r i h = ground arith

Outcome-cases :
    {E : Type 0} (o : Outcome E)
    → (o ≡ success)
      ⊎ (((e : E) × (o ≡ failure (permanent e)))
          ⊎ ((o ≡ failure canceled) ⊎ ((r : ℤ) × (e : E) × (o ≡ failure (transient r e)))))
Outcome-cases success = inl refl
Outcome-cases (failure (permanent e)) = inr (inl (e, refl))
Outcome-cases (failure canceled) = inr (inr (inl refl))
Outcome-cases (failure (transient r e)) = inr (inr (inr (r, e, refl)))

-- Whether an outcome makes the loop go on.
abbrev pub is_transient : {E : Type 0} → Outcome E → Bool
is_transient (failure (transient r e)) = true
is_transient _ = false

module _ {W E : Type 0} (rand : ℕ → ℕ) (fn : W → W × Outcome E) (sleep : ℕ → W → W × Bool)
    (rp : RetryPolicy) where
  -- A property of the state that every call and every sleep within the cap keeps.
  run_loop_inv :
      {P : W → Type 0}
      → 0 < pos_part rp.max_delay
      → ((w : W) → P w → P (fn w).0)
      → ((d : ℕ) (w : W) → d ≤ pos_part rp.max_delay → P w → P (sleep d w).0)
      → (left i : ℕ) (w : W) → P w
      → P (run_loop rand fn sleep rp left i w).0
  unfolding run_loop
  run_loop_inv cap keep nap zero i w p = keep w p
  run_loop_inv cap keep nap (suc left) i w p = elim (Outcome-cases (fn w).1) [
    | inl e ↦ rw (e, run_loop) (keep w p)
    | inr (inl (x, e)) ↦ rw (e, run_loop) (keep w p)
    | inr (inr (inl e)) ↦ rw (e, run_loop) (keep w p)
    | inr (inr (inr (r, x, e))) ↦
        let d = delay rand rp r i in
        let slept = nap d (fn w).0 (delay-le rand rp r i cap) (keep w p) in
        rw (e, run_loop)
          (elim (Bool-cases (sleep d (fn w).0).1) [
            | inl done ↦ rw (done, run_loop) slept
            | inr more ↦
                rw (more, run_loop)
                  (run_loop_inv cap keep nap left (i + 1) (sleep d (fn w).0).0 slept)
          ])
  ]

  -- With a cap on the delay, the loop keeps any property of the state that the attempts keep and
  -- that sleeps no longer than the cap keep: it never sleeps longer.
  pub run_inv :
      (P : W → Type 0)
      → 0 < pos_part rp.max_delay
      → ((w : W) → P w → P (fn w).0)
      → ((d : ℕ) (w : W) → d ≤ pos_part rp.max_delay → P w → P (sleep d w).0)
      → (w : W) → P w
      → P (run rand fn sleep rp w).0
  unfolding run
  run_inv P cap keep nap w p = run_loop_inv cap keep nap (attempts rp - 1) 0 w p

  run_loop_calls :
      (calls : W → ℕ)
      → ((w : W) → calls (fn w).0 ≡ calls w + 1)
      → ((d : ℕ) (w : W) → calls (sleep d w).0 ≡ calls w)
      → (left i : ℕ) (w : W)
      → (calls w + 1 ≤ calls (run_loop rand fn sleep rp left i w).0)
        × (calls (run_loop rand fn sleep rp left i w).0 ≤ calls w + (left + 1))
        × (is_transient (run_loop rand fn sleep rp left i w).1 ≡ true
            → calls (run_loop rand fn sleep rp left i w).0 ≡ calls w + (left + 1))
  unfolding run_loop
  run_loop_calls calls one idle zero i w = ground (arith, one w)
  run_loop_calls calls one idle (suc left) i w = elim (Outcome-cases (fn w).1) [
    | inl e ↦ rw (e, run_loop) (ground (arith, one w))
    | inr (inl (x, e)) ↦ rw (e, run_loop) (ground (arith, one w))
    | inr (inr (inl e)) ↦ rw (e, run_loop) (ground (arith, one w))
    | inr (inr (inr (r, x, e))) ↦
        let d = delay rand rp r i in
        let slept = idle d (fn w).0 in
        rw (e, run_loop)
          (elim (Bool-cases (sleep d (fn w).0).1) [
            | inl done ↦ rw (done, run_loop) (ground (arith, one w, slept))
            | inr more ↦
                rw (more, run_loop)
                  (ground (
                    arith,
                    one w,
                    slept,
                    run_loop_calls calls one idle left (i + 1) (sleep d (fn w).0).0,
                  ))
          ])
  ]

  -- Where `calls` counts the attempts, the loop makes at least one and at most the policy's number
  -- of them (one, where the policy says less), and it answers with a transient failure only after
  -- that number.
  pub run_calls :
      (calls : W → ℕ)
      → ((w : W) → calls (fn w).0 ≡ calls w + 1)
      → ((d : ℕ) (w : W) → calls (sleep d w).0 ≡ calls w)
      → (w : W)
      → (calls w + 1 ≤ calls (run rand fn sleep rp w).0)
        × (calls (run rand fn sleep rp w).0 ≤ calls w + attempts rp)
        × ((is_transient (run rand fn sleep rp w).1 ≡ false)
            ⊎ (calls (run rand fn sleep rp w).0 ≡ calls w + attempts rp))
  unfolding run
  run_calls calls one idle w =
      let (low, high, last) = run_loop_calls calls one idle (attempts rp - 1) 0 w in
      let pos_attempts : 0 < attempts rp = ground arith in
      (
        omega (arith, low),
        omega (arith, high),
        elim (Bool-cases (is_transient (run rand fn sleep rp w).1)) [
          | inl t ↦ inr (omega (arith, last t))
          | inr f ↦ inl f
        ],
      )

  run_loop_calls-le :
      (calls : W → ℕ)
      → ((w : W) → calls (fn w).0 ≤ calls w + 1)
      → ((d : ℕ) (w : W) → calls (sleep d w).0 ≡ calls w)
      → (left i : ℕ) (w : W) → calls (run_loop rand fn sleep rp left i w).0 ≤ calls w + (left + 1)
  unfolding run_loop
  run_loop_calls-le calls one idle zero i w = omega (arith, one w)
  run_loop_calls-le calls one idle (suc left) i w = elim (Outcome-cases (fn w).1) [
    | inl e ↦ rw (e, run_loop) (omega (arith, one w))
    | inr (inl (x, e)) ↦ rw (e, run_loop) (omega (arith, one w))
    | inr (inr (inl e)) ↦ rw (e, run_loop) (omega (arith, one w))
    | inr (inr (inr (r, x, e))) ↦
        let d = delay rand rp r i in
        let slept = idle d (fn w).0 in
        rw (e, run_loop)
          (elim (Bool-cases (sleep d (fn w).0).1) [
            | inl done ↦ rw (done, run_loop) (omega (arith, one w, slept))
            | inr more ↦
                rw (more, run_loop)
                  (omega (
                    arith,
                    one w,
                    slept,
                    run_loop_calls-le calls one idle left (i + 1) (sleep d (fn w).0).0,
                  ))
          ])
  ]

  -- The same bound where an attempt may also end before it counts.
  pub run_calls-le :
      (calls : W → ℕ)
      → ((w : W) → calls (fn w).0 ≤ calls w + 1)
      → ((d : ℕ) (w : W) → calls (sleep d w).0 ≡ calls w)
      → (w : W) → calls (run rand fn sleep rp w).0 ≤ calls w + attempts rp
  unfolding run
  run_calls-le calls one idle w =
      let h = run_loop_calls-le calls one idle (attempts rp - 1) 0 w in
      let pos_attempts : 0 < attempts rp = ground arith in omega (arith, h)
