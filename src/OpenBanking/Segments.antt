-- ===== src/OpenBanking/Segments.antt =====
-- The segments of a path, and what url.PathEscape and badPathSegment (openbanking/client.go) make of one.
use go_monobank_sdk.Base.{
  ℕ, Bool, true, false, not, ◌&&◌, ◌||◌, Bool-cases, inl, inr, List, [], ◌∷◌, ◌++◌, ◌≡◌, refl, sym,
  ap, ◌∙◌, arith, ◌==◌, if◌then◌else◌,
}
use go_monobank_sdk.Base.Decimal.{Text, codes, text_eq, eq_of_text_eq}
use go_monobank_sdk.OpenBanking.{Urls, is_bad_path_segment}

-- The text before the first slash, and the segments after each; a question mark ends the path.
abbrev pub segments : Text → Text × List Text
segments [] = ([], [])
segments (c ∷ s) =
    let (w, ws) = segments s in
    if c == b'?' then ([], []) else if c == b'/' then ([], w ∷ ws) else (c ∷ w, ws)

abbrev pub is_clean : Text → Bool
is_clean [] = true
is_clean (c ∷ s) = not (c == b'/') && (not (c == b'?') && is_clean s)

-- A segment that resolving a URL takes away, or that is none.
abbrev pub is_unsafe : Text → Bool
is_unsafe s = text_eq s [] || (text_eq s (codes ".") || text_eq s (codes ".."))

abbrev pub are_safe : List Text → Bool
are_safe [] = true
are_safe (s ∷ ss) = not (is_unsafe s) && are_safe ss

-- What net/url documents of PathEscape: its text has neither slash nor question mark, and
-- PathUnescape gives back what it was made from, which changes no text without an escape.
pub record PathEscapes (u : Urls) : Type 0 where
  pub escape_clean : (s : Text) → is_clean (u.path_escape s) ≡ true
  pub unescape : Text → Text
  pub unescape-escape : (s : Text) → unescape (u.path_escape s) ≡ s
  pub unescape_empty : unescape [] ≡ []
  pub unescape_dot : unescape (codes ".") ≡ codes "."
  pub unescape_dots : unescape (codes "..") ≡ codes ".."

is_clean_cons :
    (c : ℕ) (e : Text)
    → is_clean (c ∷ e) ≡ true
    → (((c == b'?') ≡ false) × ((c == b'/') ≡ false)) × (is_clean e ≡ true)
is_clean_cons c e h = ((ground arith, ground arith), ground arith)

pub segments-append_end : (e : Text) → is_clean e ≡ true → segments (e ++ []) ≡ (e, [])
segments-append_end [] h = refl
segments-append_end (c ∷ e) h =
    let ((q, l), k) = is_clean_cons c e h in rw (q, l, segments-append_end e k) refl

pub segments_clean : (e : Text) → is_clean e ≡ true → segments e ≡ (e, [])
segments_clean [] h = refl
segments_clean (c ∷ e) h =
    let ((q, l), k) = is_clean_cons c e h in rw (q, l, segments_clean e k) refl

pub segments-append_slash :
    (e s : Text)
    → is_clean e ≡ true
    → segments (e ++ b'/' ∷ s) ≡ (e, (segments s).0 ∷ (segments s).1)
segments-append_slash [] s h = refl
segments-append_slash (c ∷ e) s h =
    let ((q, l), k) = is_clean_cons c e h in rw (q, l, segments-append_slash e s k) refl

pub authorisations_segments :
    (e : Text)
    → is_clean e ≡ true
    → segments (codes "authorisations/" ++ e) ≡ (codes "authorisations", e ∷ [])
authorisations_segments e h =
    segments-append_slash (codes "authorisations") e refl
    ∙ ap (λ p. (codes "authorisations", p.0 ∷ p.1)) (segments_clean e h)

pub or-false : (a b : Bool) → (a || b) ≡ false → (a ≡ false) × (b ≡ false)
or-false true b h = (h, cc)
or-false false b h = (refl, h)

unescape_bad :
    (u : Urls) (laws : PathEscapes u) (t : Text) → is_unsafe t ≡ true → laws.unescape t ≡ t
unescape_bad u laws t h = elim (Bool-cases (text_eq t [])) [
  | inl e ↦ rw (eq_of_text_eq t [] e) laws.unescape_empty
  | inr n ↦ elim (Bool-cases (text_eq t (codes "."))) [
    | inl e ↦ rw (eq_of_text_eq t (codes ".") e) laws.unescape_dot
    | inr m ↦ rw (eq_of_text_eq t (codes "..") cc) laws.unescape_dots
  ]
]

pub is_bad-escape :
    (u : Urls)
    → PathEscapes u
    → (s : Text) → is_bad_path_segment s ≡ false
    → is_unsafe (u.path_escape s) ≡ false
is_bad-escape u laws s h = elim (Bool-cases (is_unsafe (u.path_escape s))) [
  | inr n ↦ n
  | inl b ↦
      let same : u.path_escape s ≡ s =
        sym (unescape_bad u laws (u.path_escape s) b) ∙ laws.unescape-escape s in
      rw (same) h
]
