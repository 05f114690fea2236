-- ===== src/Dkim/Cuts.antt =====
-- dkim.js: the lines of a text that is cut in two.
use haraka.Prelude.{
  ℕ, zero, suc, ◌+◌, ◌≡◌, refl, sym, ap, ◌∙◌, Bool, true, false, Option, none, some, List, [], ◌∷◌,
  ◌++◌, ◌==◌, take, drop, arith, if◌then◌else◌, Bool-cases, inl, inr,
}
use haraka.Prelude.Text.{Text}

-- The lines of a text, and what is behind the last.
unfoldable pub on_byte : ℕ → List Text × Text → List Text × Text
on_byte c (ls, rest) =
    if c == 10
    then ((c ∷ []) ∷ ls, rest)
    else (elim ls [ [] ↦ ([], c ∷ rest) | l ∷ more ↦ ((c ∷ l) ∷ more, rest) ])

unfoldable pub cut : Text → List Text × Text
unfolding on_byte
cut [] = ([], [])
cut (c ∷ t) = on_byte c (cut t)

-- The index of the first LF, as utils.indexOfLF gives it.
unfoldable pub first_lf : Text → Option ℕ
first_lf [] = none
first_lf (c ∷ t) =
    let r = first_lf t in
    if c == 10 then some 0 else (elim r [ none ↦ none | some i ↦ some (i + 1) ])

none-tail : (c : ℕ) (t : Text) → first_lf (c ∷ t) ≡ none → ((c == 10) ≡ false) × (first_lf t ≡ none)
unfolding first_lf
none-tail c t h = go (c == 10) (first_lf t) h
  where
    go :
        (b : Bool) (o : Option ℕ)
        → (if b then some 0 else (elim o [ none ↦ none | some i ↦ some (i + 1) ])) ≡ none
        → (b ≡ false) × (o ≡ none)
    go true o h = cc
    go false none h = (refl, refl)
    go false (some i) h = cc

some-tail :
    (c : ℕ) (t : Text) (i : ℕ)
    → first_lf (c ∷ t) ≡ some i
    → (c == 10) ≡ false
    → (j : ℕ) × ((first_lf t ≡ some j) × (i ≡ j + 1))
unfolding first_lf
some-tail c t i h e = go (c == 10) (first_lf t) h e
  where
    go :
        (b : Bool) (o : Option ℕ)
        → (if b then some 0 else (elim o [ none ↦ none | some i ↦ some (i + 1) ])) ≡ some i
        → b ≡ false
        → (j : ℕ) × ((o ≡ some j) × (i ≡ j + 1))
    go true o h e = cc
    go false none h e = cc
    go false (some j) h e = (j, (refl, cc))

byte-kept : (c : ℕ) (t : Text) → (c == 10) ≡ false → on_byte c ([], t) ≡ ([], c ∷ t)
unfolding on_byte
byte-kept c t e = rw e refl

byte-line :
    (c : ℕ) (l : Text) (ls : List Text) (t : Text)
    → (c == 10) ≡ false
    → on_byte c (l ∷ ls, t) ≡ ((c ∷ l) ∷ ls, t)
unfolding on_byte
byte-line c l ls t e = rw e refl

byte-lf : (c : ℕ) (r : List Text × Text) → (c == 10) ≡ true → on_byte c r ≡ ((c ∷ []) ∷ r.0, r.1)
unfolding on_byte
byte-lf c (ls, t) e = rw e refl

pub cut-none : (t : Text) → first_lf t ≡ none → cut t ≡ ([], t)
unfolding cut
cut-none [] h = refl
cut-none (c ∷ t) h = let n = none-tail c t h in ap (on_byte c) (cut-none t n.1) ∙ byte-kept c t n.0

-- The first line, of a length, and the lines of what is behind it.
unfoldable pub after_first : Text → ℕ → List Text × Text
unfolding cut
after_first t m = (take m t ∷ (cut (drop m t)).0, (cut (drop m t)).1)

zero_at : (c : ℕ) (t : Text) (i : ℕ) → first_lf (c ∷ t) ≡ some i → (c == 10) ≡ true → i ≡ 0
unfolding first_lf
zero_at c t i h e = go (c == 10) (first_lf t) h e
  where
    go :
        (b : Bool) (o : Option ℕ)
        → (if b then some 0 else (elim o [ none ↦ none | some j ↦ some (j + 1) ])) ≡ some i
        → b ≡ true
        → i ≡ 0
    go true o h e = cc
    go false o h e = cc

pub cut-some : (t : Text) (i : ℕ) → first_lf t ≡ some i → cut t ≡ after_first t (i + 1)
unfolding cut after_first
cut-some [] i h = unfold first_lf in cc
cut-some (c ∷ t) i h = elim (Bool-cases (c == 10)) [
  | inl e ↦
      let m : suc zero ≡ i + 1 = omega (arith, zero_at c t i h e) in
      byte-lf c (cut t) e ∙ ap (after_first (c ∷ t)) m
  | inr e ↦
      let n = some-tail c t i h e in
      let m : suc (n.0 + 1) ≡ i + 1 = omega (arith, n.1.1) in
      ap (on_byte c) (cut-some t n.0 n.1.0)
      ∙ byte-line c (take (n.0 + 1) t) (cut (drop (n.0 + 1) t)).0 (cut (drop (n.0 + 1) t)).1 e
      ∙ ap (after_first (c ∷ t)) m
]

-- The lines of a text that goes on.
unfoldable pub append_cut : List Text → List Text × Text → List Text × Text
append_cut ls r = (ls ++ r.0, r.1)

on_byte-append :
    (c : ℕ) (ls : List Text) (rest b : Text)
    → on_byte c (append_cut ls (cut (rest ++ b)))
      ≡ append_cut (on_byte c (ls, rest)).0 (cut ((on_byte c (ls, rest)).1 ++ b))
unfolding cut append_cut
on_byte-append c ls rest b = elim (Bool-cases (c == 10)) [
  | inl e ↦
      byte-lf c (append_cut ls (cut (rest ++ b))) e
      ∙ ap (λ (y : List Text × Text). append_cut y.0 (cut (y.1 ++ b)))
          (sym (byte-lf c (ls, rest) e))
  | inr e ↦ go ls e
]
  where
    go :
        (xs : List Text)
        → (c == 10) ≡ false
        → on_byte c (append_cut xs (cut (rest ++ b)))
          ≡ append_cut (on_byte c (xs, rest)).0 (cut ((on_byte c (xs, rest)).1 ++ b))
    go [] e =
        ap (λ (y : List Text × Text). append_cut y.0 (cut (y.1 ++ b))) (sym (byte-kept c rest e))
    go (l ∷ xs) e =
        byte-line c l (xs ++ (cut (rest ++ b)).0) (cut (rest ++ b)).1 e
        ∙ ap (λ (y : List Text × Text). append_cut y.0 (cut (y.1 ++ b)))
            (sym (byte-line c l xs rest e))

pub cut-append : (a b : Text) → cut (a ++ b) ≡ append_cut (cut a).0 (cut ((cut a).1 ++ b))
unfolding cut append_cut
cut-append [] b = refl
cut-append (c ∷ a) b = ap (on_byte c) (cut-append a b) ∙ on_byte-append c (cut a).0 (cut a).1 b
