-- ===== src/Acquiring/Handler/Rotation.antt =====
-- A rotated key (acquiring/handler.go): ServeHTTP after the refresh that a bad signature causes.
use go_monobank_sdk.Base.{true, false, Option, none, some, List, [], ◌≡◌, ◌≢◌, refl, sym, arith}
use mathlib.Core.Path.{subst}
use go_monobank_sdk.Webhook.{Deduper}
use go_monobank_sdk.Acquiring.{InvoiceStatusResponse}
use go_monobank_sdk.Acquiring.Webhook.{Outside, Verdict, fine, bad_signature, verify_webhook}
use go_monobank_sdk.Acquiring.Handler.{
  Key, Handler, Options, Request, Moment, Effect, is_fresh, refresh_coalesced, replacement,
}
use go_monobank_sdk.Acquiring.Handler.Verify.{
  Verified, refuse, pass, Admission, Served, finish, try_again, recover, verify, parse_verified,
  with_current_key, admit, run_event, deliver, settle, serve_http, Decision,
}

module _ {P : Type 0} (out : Outside P) (opts : Options) where
  abbrev holding : Handler P → Key P → Handler P
  holding h k = record h { key = some k }

  abbrev after : Handler P → Key P → Moment P → Handler P
  after h k m = record h { key = some k; last_refresh_at = some m.done }

  refresh_fetches :
      (h : Handler P) (k : Key P) (m : Moment P)
      → is_fresh h.last_refresh_at m.now ≡ false
      → is_fresh h.last_refresh_at m.again ≡ false
      → m.fetched ≡ some k
      → refresh_coalesced h m ≡ record { handler = after h k m; called = true; failed = false }
  unfolding refresh_coalesced
  refresh_fetches h k m late still got = rw (late, still, got) refl

  replacement_other : (key k : Key P) → k.address ≢ key.address → replacement key (some k) ≡ some k
  unfolding replacement
  replacement_other key k ne = ground arith

  recover_fetched :
      (h : Handler P) (key k : Key P) (r : Request) (m : Moment P)
      → is_fresh h.last_refresh_at m.now ≡ false
      → is_fresh h.last_refresh_at m.again ≡ false
      → m.fetched ≡ some k
      → k.address ≢ key.address
      → recover out opts h key r m
        ≡ finish out opts
            (after h k m)
            []
            k.target
            (verify_webhook out (some k.target) r.bytes r.x_sign)
            r
            m
  unfolding recover try_again
  recover_fetched h key k r m late still got ne =
      rw (refresh_fetches h k m late still got, replacement_other key k ne) refl

  verify_rotated :
      (h : Handler P) (key k : Key P) (r : Request) (m : Moment P)
      → is_fresh h.last_refresh_at m.now ≡ false
      → is_fresh h.last_refresh_at m.again ≡ false
      → m.fetched ≡ some k
      → k.address ≢ key.address
      → verify_webhook out (some key.target) r.bytes r.x_sign ≡ bad_signature
      → verify out opts h key r m
        ≡ finish out opts
            (after h k m)
            []
            k.target
            (verify_webhook out (some k.target) r.bytes r.x_sign)
            r
            m
  unfolding verify
  verify_rotated h key k r m late still got ne bad =
      rw bad (recover_fetched h key k r m late still got ne)

  verify_held :
      (h : Handler P) (k : Key P) (r : Request) (m : Moment P)
      → verify_webhook out (some k.target) r.bytes r.x_sign ≡ fine
      → verify out opts (holding h k) k r m
        ≡ finish out opts
            (holding h k)
            []
            k.target
            (verify_webhook out (some k.target) r.bytes r.x_sign)
            r
            m
  unfolding verify
  verify_held h k r m ok = rw ok refl

  -- Two admissions that differ in the handler alone.
  record Alike (a b : Admission P) : Type 0 where
    decision : a.decision ≡ b.decision
    log : a.log ≡ b.log

  Alike-refl : (a : Admission P) → Alike a a
  Alike-refl a = record { decision = refl; log = refl }

  parse_verified-Alike :
      (h h' : Handler P) (log : List Effect) (key : P) (r : Request) (m : Moment P)
      → Alike
          (parse_verified out opts (finish out opts h log key fine r m) r.bytes)
          (parse_verified out opts (finish out opts h' log key fine r m) r.bytes)
  unfolding finish parse_verified
  parse_verified-Alike h h' log key r m = record { decision = ground arith; log = ground arith }

  -- The request meets a handler with an old key, whose last refresh is long ago, and a bank that
  -- hands out another key under which the body verifies.
  pub record Rotated (h : Handler P) (key k : Key P) (r : Request) (m : Moment P) : Type 0 where
    pub held : h.key ≡ some key
    pub bad : verify_webhook out (some key.target) r.bytes r.x_sign ≡ bad_signature
    pub late : is_fresh h.last_refresh_at m.now ≡ false
    pub still : is_fresh h.last_refresh_at m.again ≡ false
    pub got : m.fetched ≡ some k
    pub ne : k.address ≢ key.address
    pub ok : verify_webhook out (some k.target) r.bytes r.x_sign ≡ fine

  with_some_key-Alike :
      (h : Handler P) (key k : Key P) (r : Request) (m : Moment P)
      → Rotated h key k r m
      → Alike
          (with_current_key out opts h (some key) r m)
          (with_current_key out opts (holding h k) (some k) r m)
  unfolding with_current_key
  with_some_key-Alike h key k r m t =
      let settled : Handler P → Verified P = λ x.
        finish out opts x [] k.target (verify_webhook out (some k.target) r.bytes r.x_sign) r m in
      let same : Alike (parse_verified out opts (settled (after h k m)) r.bytes)
          (parse_verified out opts (settled (holding h k)) r.bytes) =
        subst
          (λ (v : Verdict).
            Alike
              (parse_verified out opts (finish out opts (after h k m) [] k.target v r m) r.bytes)
              (parse_verified out opts (finish out opts (holding h k) [] k.target v r m) r.bytes))
          (sym t.ok) (parse_verified-Alike (after h k m) (holding h k) [] k.target r m) in
      subst
        (λ (v : Verified P).
          Alike (parse_verified out opts v r.bytes)
            (parse_verified out opts (verify out opts (holding h k) k r m) r.bytes))
        (sym (verify_rotated h key k r m t.late t.still t.got t.ne t.bad))
        (subst
          (λ (v : Verified P).
            Alike (parse_verified out opts (settled (after h k m)) r.bytes)
              (parse_verified out opts v r.bytes))
          (sym (verify_held h k r m t.ok)) same)

  with_current_key-Alike :
      (h : Handler P) (key k : Key P) (r : Request) (m : Moment P)
      → Rotated h key k r m
      → Alike
          (with_current_key out opts h h.key r m)
          (with_current_key out opts (holding h k) (some k) r m)
  with_current_key-Alike h key k r m t =
      subst
        (λ (o : Option (Key P)).
          Alike (with_current_key out opts h o r m)
            (with_current_key out opts (holding h k) (some k) r m))
        (sym t.held) (with_some_key-Alike h key k r m t)

  admit-Alike :
      (h : Handler P) (k : Key P) (r : Request) (m : Moment P)
      → Alike
          (with_current_key out opts h h.key r m)
          (with_current_key out opts (holding h k) (some k) r m)
      → Alike (admit out opts h r m) (admit out opts (holding h k) r m)
  unfolding admit
  admit-Alike h k r m p =
      let d = p.decision in let l = p.log in record { decision = ground arith; log = ground arith }

  module _ (deduper : Deduper) where
    -- The same answer, the same change of the deduper and the same callbacks.
    pub record Same (a b : Served P deduper.State) : Type 0 where
      pub status : a.status ≡ b.status
      pub dedup : a.dedup ≡ b.dedup
      pub log : a.log ≡ b.log

    deliver-Same :
        (h h' : Handler P) (s : Option deduper.State) (log : List Effect)
        (inv : InvoiceStatusResponse) (m : Moment P)
        → Same (deliver out opts deduper h s log inv m) (deliver out opts deduper h' s log inv m)
    unfolding deliver run_event
    deliver-Same h h' none log inv m = record {
      status = ground arith;
      dedup = ground arith;
      log = ground arith;
    }
    deliver-Same h h' (some d) log inv m = record {
      status = ground arith;
      dedup = ground arith;
      log = ground arith;
    }

    settle-Same :
        (h h' : Handler P) (s : Option deduper.State) (log : List Effect) (d : Decision)
        (m : Moment P)
        → Same (settle out opts deduper h s log d m) (settle out opts deduper h' s log d m)
    unfolding settle
    settle-Same h h' s log (refuse n) m = record { status = refl; dedup = refl; log = refl }
    settle-Same h h' s log (pass inv) m = deliver-Same h h' s log inv m

    -- A rotation of the merchant's key goes unnoticed: a request whose signature is bad under the
    -- handler's key, met when the last refresh is long enough ago and the bank hands out another key
    -- under which it is valid, gets the answer, the change of the deduper and the callbacks that it
    -- gets of a handler that already holds that key.
    pub serve_http-rotation :
        (h : Handler P) (key k : Key P) (s : Option deduper.State) (r : Request) (m : Moment P)
        → Rotated h key k r m
        → Same
            (serve_http out opts deduper h s r m)
            (serve_http out opts deduper (record h { key = some k }) s r m)
    unfolding serve_http
    serve_http-rotation h key k s r m t =
        let a = admit out opts h r m in
        let b = admit out opts (holding h k) r m in
        let p : Alike a b = admit-Alike h k r m (with_current_key-Alike h key k r m t) in
        subst
          (λ (d : Decision).
            Same (settle out opts deduper a.handler s a.log a.decision m)
              (settle out opts deduper b.handler s b.log d m))
          p.decision
          (subst
            (λ (l : List Effect).
              Same (settle out opts deduper a.handler s a.log a.decision m)
                (settle out opts deduper b.handler s l a.decision m))
            p.log (settle-Same a.handler b.handler s a.log a.decision m))
