-- ===== src/Dkim/Relaxed.antt =====
-- dkim.js: the two replacements of the relaxed algorithm, and what they are to give.
use haraka.Prelude.{
  ℕ, ◌≡◌, refl, sym, ap, ◌∙◌, Bool, true, false, [], ◌∷◌, ◌&&◌, ◌==◌, not, Bool-cases, inl, inr,
  arith, if◌then◌else◌,
}
use haraka.Prelude.Text.{Text}
use haraka.Dkim.Canon.{is_wsp, is_eol, skip_wsp, strip_end, collapse, line_canon_relaxed}

-- RFC 6376, 3.4.4, byte by byte: white space is kept back, the argument telling that there is some, and
-- one space is written for it before the next byte or at the end, but none before the end of the line.
unfoldable pub relaxed : Bool → Text → Text
relaxed after [] = if after then 32 ∷ [] else []
relaxed after (c ∷ t) =
    let held = relaxed true t in
    let behind = relaxed false t in
    if is_wsp c then held else if after && not (is_eol (c ∷ t)) then 32 ∷ c ∷ behind else c ∷ behind

lf-not_wsp : (c : ℕ) → (c == 10) ≡ true → is_wsp c ≡ false
lf-not_wsp c h = ground arith

eol-not_wsp : (c : ℕ) (t : Text) → is_eol (c ∷ t) ≡ true → is_wsp c ≡ false
eol-not_wsp c [] h = lf-not_wsp c h
eol-not_wsp c (d ∷ []) h = ground arith
eol-not_wsp c (d ∷ e ∷ t) h = cc

collapse-eol : (t : Text) → is_eol t ≡ true → collapse false t ≡ t
unfolding collapse
collapse-eol [] h = refl
collapse-eol (c ∷ []) h = rw (lf-not_wsp c h) refl
collapse-eol (c ∷ d ∷ []) h =
    let e : (d == 10) ≡ true = ground arith in rw (eol-not_wsp c (d ∷ []) h, lf-not_wsp d e) refl
collapse-eol (c ∷ d ∷ e ∷ t) h = cc

relaxed-eol : (c : ℕ) (t : Text) → is_eol (c ∷ t) ≡ true → relaxed false t ≡ t
unfolding relaxed
relaxed-eol c [] h = refl
relaxed-eol c (d ∷ []) h = let e : (d == 10) ≡ true = ground arith in rw (lf-not_wsp d e) refl
relaxed-eol c (d ∷ e ∷ t) h = cc

-- With no white space kept back, and with some.
Both : Text → Type 0
Both t =
    (relaxed false t ≡ collapse false (strip_end t))
    × (relaxed true t
        ≡ (if is_eol (skip_wsp t) then skip_wsp t else 32 ∷ collapse true (strip_end t)))

relaxed-Both : (t : Text) → Both t
unfolding relaxed strip_end collapse skip_wsp Both
relaxed-Both [] = (refl, refl)
relaxed-Both (c ∷ t) = elim (Bool-cases (is_wsp c)) [
  | inl w ↦ elim (Bool-cases (is_eol (skip_wsp t))) [
    | inl e ↦ (
      rw (w, e) ((relaxed-Both t).1 ∙ rw e (sym (collapse-eol (skip_wsp t) e))),
      rw (w, e) ((relaxed-Both t).1 ∙ rw e refl),
    )
    | inr n ↦ (
      rw (w, n) (rw w ((relaxed-Both t).1 ∙ rw n refl)),
      rw (w, n) (rw w ((relaxed-Both t).1 ∙ rw n refl)),
    )
  ]
  | inr k ↦ elim (Bool-cases (is_eol (c ∷ t))) [
    | inl e ↦ (
      rw k (rw k (ap (λ x. c ∷ x) (relaxed-Both t).0)),
      rw (k, e) (ap (λ x. c ∷ x) (relaxed-eol c t e)),
    )
    | inr n ↦ (
      rw k (rw k (ap (λ x. c ∷ x) (relaxed-Both t).0)),
      rw (k, n) (rw k (ap (λ x. 32 ∷ c ∷ x) (relaxed-Both t).0)),
    )
  ]
]

pub line_canon_relaxed_lem : (t : Text) → line_canon_relaxed t ≡ relaxed false t
unfolding line_canon_relaxed Both
line_canon_relaxed_lem t = sym (relaxed-Both t).0
