-- ===== src/Rfc1869/Chew.antt =====
-- rfc1869.js: the loop that takes the parameters off the end of the line.
use haraka.Prelude.{
  ℕ, zero, suc, ◌<◌, ◌≡◌, true, none, some, List, [], ◌∷◌, length, arith, Option-cases, inl, inr,
}
use haraka.Prelude.Text.{Text}
use haraka.Rfc1869.{chew, chew_all, is_param}

-- What stands before a parameter is shorter than the line.
chew_shorter : (t : Text) (r : Text × Text) → chew t ≡ some r → length r.0 < length t
unfolding chew
chew_shorter [] r h = cc
chew_shorter (c ∷ t) r h = elim (Option-cases (chew t)) [
  | inl e ↦ ground arith
  | inr (a, e) ↦ ground (arith, chew_shorter t a e)
]

-- What is taken off is a parameter.
chew-is_param : (t : Text) (r : Text × Text) → chew t ≡ some r → is_param r.1 ≡ true
unfolding chew
chew-is_param [] r h = cc
chew-is_param (c ∷ t) r h = elim (Option-cases (chew t)) [
  | inl e ↦ ground arith
  | inr (a, e) ↦ ground (arith, chew-is_param t a e)
]

-- With a fuel above the length of the line, the loop ends because no parameter is left at the end.
pub chew_all_complete :
    (n : ℕ) (line : Text) (params : List Text)
    → length line < n
    → chew (chew_all n line params).0 ≡ none
unfolding chew_all
chew_all_complete zero line params h = elim h [ ]
chew_all_complete (suc n) line params h = elim (Option-cases (chew line)) [
  | inl e ↦ ground arith
  | inr (r, e) ↦ ground (arith, chew_shorter line r e, chew_all_complete n r.0 (r.1 ∷ params))
]

abbrev pub AllParams : List Text → Type 0
AllParams [] = Unit
AllParams (p ∷ ps) = (is_param p ≡ true) × AllParams ps

-- Everything that the loop collects is a parameter.
pub chew_all-AllParams :
    (n : ℕ) (line : Text) (params : List Text)
    → AllParams params
    → AllParams (chew_all n line params).1
unfolding chew_all
chew_all-AllParams zero line params h = h
chew_all-AllParams (suc n) line params h = elim (Option-cases (chew line)) [
  | inl e ↦ rw (AllParams, e) h
  | inr (r, e) ↦
      rw (AllParams, e) (chew_all-AllParams n r.0 (r.1 ∷ params) (chew-is_param line r e, h))
]
