-- ===== src/Acquiring/Poll.antt =====
-- PollInvoice (acquiring/reconcile.go). What each turn of its select meets, the end of the context or
-- an answer of InvoiceStatus, is an element of a list.
use go_monobank_sdk.Base.{
  ℕ, ◌≤◌, ◌≡◌, ◌↔◌, refl, sym, ap, ◌∙◌, inl, inr, Bool, true, false, ◌&&◌, ◌||◌, Option, none, some,
  List, [], ◌∷◌, ◌++◌, arith, ltb, Bool-cases, if◌then◌else◌,
}
use go_monobank_sdk.Base.Int.{ℤ, pos, negsuc}
use go_monobank_sdk.Base.Decimal.{Text, text_eq}
use go_monobank_sdk.Acquiring.{
  InvoiceStatus, hold, created, processing, success, failure, reversed, expired, other_status,
  InvoiceStatusResponse, is_terminal,
}

-- The context's deadline passes, it is canceled, or the call answers; `none` is its error.
pub data Turn : Type 0 where
  deadline cancel : Turn
  answered : Option InvoiceStatusResponse → Turn

-- How the poll ends, with the invoice read last; `polling` where the turns run out.
pub data Polled : Type 0 where
  empty_id poll_failed : Polled
  timed_out canceled polling : Option InvoiceStatusResponse → Polled
  finished : InvoiceStatusResponse → Polled

abbrev pub default_poll_interval : ℕ
default_poll_interval = 2_000_000_000

abbrev pub min_poll_interval : ℕ
min_poll_interval = 500_000_000

-- The pause between two calls, in nanoseconds.
unfoldable pub poll_interval : ℤ → ℕ
poll_interval (negsuc n) = default_poll_interval
poll_interval (pos n) =
    if ltb 0 n
    then (if ltb n min_poll_interval then min_poll_interval else n)
    else default_poll_interval

poll_interval_min : (d : ℤ) → min_poll_interval ≤ poll_interval d
unfolding poll_interval
poll_interval_min (pos n) = ground arith
poll_interval_min (negsuc n) = omega arith

abbrev is_hold : InvoiceStatus → Bool
is_hold hold = true
is_hold created = false
is_hold processing = false
is_hold success = false
is_hold failure = false
is_hold reversed = false
is_hold expired = false
is_hold (other_status s) = false

-- The `terminal` of the loop.
unfoldable pub ends : Bool → InvoiceStatus → Bool
ends treat_hold s = is_terminal s || (treat_hold && is_hold s)

unfoldable pub poll_loop : Bool → Option InvoiceStatusResponse → List Turn → Polled
poll_loop treat_hold last [] = polling last
poll_loop treat_hold last (deadline ∷ ts) = timed_out last
poll_loop treat_hold last (cancel ∷ ts) = canceled last
poll_loop treat_hold last (answered none ∷ ts) = poll_failed
poll_loop treat_hold last (answered (some inv) ∷ ts) =
    let rest = poll_loop treat_hold (some inv) ts in
    if ends treat_hold inv.status then finished inv else rest

unfoldable pub poll_invoice : Text → Bool → List Turn → Polled
unfolding poll_loop
poll_invoice id treat_hold ts = if text_eq id [] then empty_id else poll_loop treat_hold none ts

-- The statuses after which an invoice does not change, with hold where it is to count as one.
abbrev pub is_final : Bool → InvoiceStatus → Bool
is_final hold_is_final success = true
is_final hold_is_final failure = true
is_final hold_is_final reversed = true
is_final hold_is_final expired = true
is_final hold_is_final hold = hold_is_final
is_final hold_is_final created = false
is_final hold_is_final processing = false
is_final hold_is_final (other_status s) = false

ends-is_final :
    (hold_is_final : Bool) (s : InvoiceStatus) → ends hold_is_final s ≡ is_final hold_is_final s
unfolding ends is_terminal
ends-is_final b success = refl
ends-is_final b failure = refl
ends-is_final b reversed = refl
ends-is_final b expired = refl
ends-is_final true hold = refl
ends-is_final false hold = refl
ends-is_final true created = refl
ends-is_final false created = refl
ends-is_final true processing = refl
ends-is_final false processing = refl
ends-is_final true (other_status s) = refl
ends-is_final false (other_status s) = refl

-- Turns that answer, each with an invoice that does not end the poll.
unfoldable pub pending : Bool → List Turn → Bool
pending treat_hold [] = true
pending treat_hold (deadline ∷ ts) = false
pending treat_hold (cancel ∷ ts) = false
pending treat_hold (answered none ∷ ts) = false
pending treat_hold (answered (some inv) ∷ ts) =
    let rest = pending treat_hold ts in if is_final treat_hold inv.status then false else rest

First : Bool → List Turn → InvoiceStatusResponse → Type 0
First treat_hold ts inv =
    (before after : List Turn) × (ts ≡ before ++ (answered (some inv) ∷ after))
    × (pending treat_hold before ≡ true)
    × (is_final treat_hold inv.status ≡ true)

poll_loop-First :
    (treat_hold : Bool) (last : Option InvoiceStatusResponse) (ts : List Turn)
    (inv : InvoiceStatusResponse)
    → poll_loop treat_hold last ts ≡ finished inv
    → First treat_hold ts inv
unfolding poll_loop First pending
poll_loop-First treat_hold last [] inv h = absurd (ground (arith, h))
poll_loop-First treat_hold last (deadline ∷ ts) inv h = absurd (ground (arith, h))
poll_loop-First treat_hold last (cancel ∷ ts) inv h = absurd (ground (arith, h))
poll_loop-First treat_hold last (answered none ∷ ts) inv h = absurd (ground (arith, h))
poll_loop-First treat_hold last (answered (some i) ∷ ts) inv h =
    elim (Bool-cases (is_final treat_hold i.status)) [
      | inl done ↦
          let same : i ≡ inv = ground (arith, ends-is_final treat_hold i.status) in
          (
            [],
            ts,
            ap (λ (x : InvoiceStatusResponse). answered (some x) ∷ ts) same,
            refl,
            ap (λ (x : InvoiceStatusResponse). is_final treat_hold x.status) (sym same) ∙ done,
          )
      | inr more ↦
          let (before, after, split, waits, fin) =
            poll_loop-First treat_hold (some i) ts inv
              (ground (arith, ends-is_final treat_hold i.status)) in
          (answered (some i) ∷ before, after, ap (◌∷◌ (answered (some i))) split, ground arith, fin)
    ]

poll_loop_finished :
    (treat_hold : Bool) (last : Option InvoiceStatusResponse) (before after : List Turn)
    (inv : InvoiceStatusResponse)
    → pending treat_hold before ≡ true
    → is_final treat_hold inv.status ≡ true
    → poll_loop treat_hold last (before ++ (answered (some inv) ∷ after)) ≡ finished inv
unfolding poll_loop pending
poll_loop_finished treat_hold last [] after inv p e =
    rw (ends-is_final treat_hold inv.status, e) refl
poll_loop_finished treat_hold last (deadline ∷ ts) after inv p e = absurd (ground (arith, p))
poll_loop_finished treat_hold last (cancel ∷ ts) after inv p e = absurd (ground (arith, p))
poll_loop_finished treat_hold last (answered none ∷ ts) after inv p e = absurd (ground (arith, p))
poll_loop_finished treat_hold last (answered (some i) ∷ ts) after inv p e =
    elim (Bool-cases (is_final treat_hold i.status)) [
      | inl done ↦ absurd (ground arith)
      | inr more ↦
          rw (ends-is_final treat_hold i.status, more)
            (poll_loop_finished treat_hold (some i) ts after inv (ground arith) e)
    ]

-- For an id that is not empty, PollInvoice answers with an invoice and no error exactly when the
-- context lasts and the calls succeed until that invoice, and it is the first one with a terminal
-- status (success, failure, reversed or expired), or with the status hold where the options count
-- that as terminal.
pub poll_invoice_iff :
    (id : Text) (treat_hold : Bool) (ts : List Turn) (inv : InvoiceStatusResponse)
    → text_eq id [] ≡ false
    → (poll_invoice id treat_hold ts ≡ finished inv) ↔ (
        (before after : List Turn) × (ts ≡ before ++ (answered (some inv) ∷ after))
        × (pending treat_hold before ≡ true)
        × (is_final treat_hold inv.status ≡ true))
unfolding poll_invoice First
poll_invoice_iff id treat_hold ts inv named = rw named (
  λ h. poll_loop-First treat_hold none ts inv h,
  λ (before, after, split, p, e).
      rw split (poll_loop_finished treat_hold none before after inv p e),
)
