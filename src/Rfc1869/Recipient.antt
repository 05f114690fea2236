-- ===== src/Rfc1869/Recipient.antt =====
-- rfc1869.js: what `parse` accepts as a recipient.
use haraka.Prelude.{
  ℕ, suc, ◌≡◌, refl, ◌⊎◌, inl, inr, true, false, Bool, List, [], ◌∷◌, ◌++◌, ◌&&◌, ◌||◌, not, length,
  last?-append, Bool-cases, arith, if◌then◌else◌, ◌==◌, is_empty,
}
use haraka.Prelude.Text.{Text, is_space}
use haraka.Rfc1869.{
  rcpt, Parsed, ok, err, parse, finish, check_format, check_address, has, has_at_space,
  is_bracketed, is_local_name, chew_all, drop_keyword, trim_right, keyword,
}

abbrev is_break : ℕ → Bool
is_break d = d == 10 || d == 13

has_break-false : (t : Text) → has is_space t ≡ false → has is_break t ≡ false
unfolding has is_space
has_break-false [] h = refl
has_break-false (c ∷ t) h = ground (arith, has_break-false t)

has-append : (p : ℕ → Bool) (s t : Text) → has p (s ++ t) ≡ (has p s || has p t)
unfolding has
has-append p [] t = refl
has-append p (c ∷ s) t = ground (arith, has-append p s t)

bracketed : (t : Text) → has is_space t ≡ false → is_bracketed (b'<' ∷ (t ++ b'>' ∷ [])) ≡ true
unfolding is_bracketed has
bracketed t h =
    ground (arith, last?-append t b'>', has-append is_break t (b'>' ∷ []), has_break-false t h)

-- A recipient: in angle brackets, or one of the names of the host itself.
abbrev pub IsRecipient : Parsed → Type 0
IsRecipient (ok []) = ⊥
IsRecipient (ok (a ∷ ps)) = (is_bracketed a ≡ true) ⊎ (is_local_name a ≡ true)
IsRecipient (err e) = Unit

is_bracketed-or_new :
    (line : Text)
    → has is_space line ≡ false
    → is_bracketed (if is_bracketed line then line else (b'<' ∷ line) ++ (b'>' ∷ [])) ≡ true
is_bracketed-or_new line h = elim (Bool-cases (is_bracketed line)) [
  | inl closed ↦ rw closed closed
  | inr bare ↦ rw bare (bracketed line h)
]

if-IsRecipient :
    (b : Bool) (p q : Parsed)
    → (b ≡ true → IsRecipient p)
    → (b ≡ false → IsRecipient q)
    → IsRecipient (if b then p else q)
if-IsRecipient true p q h k = h refl
if-IsRecipient false p q h k = k refl

address-IsRecipient :
    (line : Text) (params : List Text) → IsRecipient (check_address rcpt line params)
unfolding check_address
address-IsRecipient line params =
    if-IsRecipient (has_at_space line) _ _ (λ e. tt)
      λ e.
        if-IsRecipient (has is_space line) _ _ (λ f. tt)
          λ solid.
            if-IsRecipient (has (λ c. c == b'@') line) _ _
              (λ f. inl (is_bracketed-or_new line solid))
              λ f. if-IsRecipient (is_local_name line) _ _ inr (λ g. tt)

format-IsRecipient :
    (strict : Bool) (params : List Text) → IsRecipient (check_format rcpt strict params)
unfolding check_format
format-IsRecipient strict [] = if-IsRecipient strict _ _ (λ e. tt) (λ e. address-IsRecipient [] [])
format-IsRecipient strict (line ∷ params) =
    if-IsRecipient (strict && not (is_bracketed line)) _ _ (λ e. tt)
      (λ e. address-IsRecipient line params)

finish-IsRecipient :
    (strict : Bool) (line : Text) (params : List Text)
    → IsRecipient (finish rcpt strict line params)
unfolding finish
finish-IsRecipient strict line params =
    if-IsRecipient (is_empty line) _ _ (λ e. format-IsRecipient strict params)
      λ e.
        if-IsRecipient (has_at_space line) _ _ (λ f. tt)
          (λ f. format-IsRecipient strict (line ∷ params))

-- What `parse` accepts as the argument of RCPT, strict or not, begins with an address in angle
-- brackets, or with one of the names `postmaster` and `abuse`.
pub parse-IsRecipient : (line : Text) (strict : Bool) → IsRecipient (parse rcpt line strict)
unfolding parse
parse-IsRecipient line strict =
    let l = drop_keyword strict (keyword rcpt) (trim_right line) in
    let chewed = chew_all (suc (length l)) l [] in finish-IsRecipient strict chewed.0 chewed.1
