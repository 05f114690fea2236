-- ===== src/Rfc1869.antt =====
-- rfc1869.js: the arguments of MAIL and RCPT, an address and the ESMTP parameters behind it.
pub mod Chew
pub mod Recipient
use haraka.Prelude.{
  ℕ, zero, suc, Bool, true, false, Option, none, some, List, [], ◌∷◌, ◌++◌, ◌&&◌, ◌||◌, not, length,
  last?, is_empty, if◌then◌else◌, ◌==◌, leb,
}
use haraka.Prelude.Text.{Text, text, text_eq, to_lower, is_space}

-- The `type` argument: "mail", or anything else.
pub data Kind : Type 0 where
  mail rcpt : Kind

-- The errors that `parse` throws.
pub data SyntaxError : Type 0 where
  in_parameters invalid_format in_address : SyntaxError

pub data Parsed : Type 0 where
  ok : List Text → Parsed
  err : SyntaxError → Parsed

-- /\s*$/ taken off: the text without the white space at its end
abbrev trim_step : ℕ → Text → Text
trim_step c [] = if is_space c then [] else c ∷ []
trim_step c (d ∷ t) = c ∷ d ∷ t

unfoldable pub trim_right : Text → Text
unfolding is_space
trim_right [] = []
trim_right (c ∷ t) = trim_step c (trim_right t)

abbrev pub skip_spaces : Text → Text
skip_spaces [] = []
skip_spaces (c ∷ t) = if is_space c then skip_spaces t else c ∷ t

-- A prefix, compared without regard to case; the rest of the text behind it.
unfoldable pub after_prefix : Text → Text → Option Text
unfolding to_lower
after_prefix [] t = some t
after_prefix (p ∷ ps) [] = none
after_prefix (p ∷ ps) (c ∷ t) =
    let rest = after_prefix ps t in if text_eq (to_lower (c ∷ [])) (p ∷ []) then rest else none

-- `line.replace(/from:\s*/i, "")`, at the first place where it fits; `strict` keeps the spaces.
unfoldable pub drop_keyword : Bool → Text → Text → Text
unfolding after_prefix
drop_keyword strict key [] = []
drop_keyword strict key (c ∷ t) =
    let rest = drop_keyword strict key t in
    elim (after_prefix key (c ∷ t)) [
      | none ↦ c ∷ rest
      | some r ↦ if strict then r else skip_spaces r
    ]

abbrev pub is_alnum : ℕ → Bool
is_alnum c = (leb b'0' c && leb c b'9') || (leb b'A' c && leb c b'Z') || (leb b'a' c && leb c b'z')

-- [^= \x00-\x1f]
abbrev pub is_value_char : ℕ → Bool
is_value_char c = not (c == b'=') && not (leb c 32)

unfoldable pub is_value : Text → Bool
is_value [] = true
is_value (c ∷ t) = is_value_char c && is_value t

-- [A-Za-z0-9\-]*(?:=[^= \x00-\x1f]+)?$
unfoldable pub is_param_tail : Text → Bool
unfolding is_value
is_param_tail [] = true
is_param_tail (c ∷ t) =
    if c == b'='
    then not (is_empty t) && is_value t
    else (is_alnum c || c == b'-') && is_param_tail t

unfoldable pub is_param : Text → Bool
unfolding is_param_tail
is_param [] = false
is_param (c ∷ t) = is_alnum c && is_param_tail t

-- One match of `chew_regexp`, the leftmost: what stands before it, and the parameter.
unfoldable pub chew : Text → Option (Text × Text)
unfolding is_param is_space
chew [] = none
chew (c ∷ t) =
    let rest = chew t in
    if is_space c && is_param (skip_spaces t)
    then some ([], skip_spaces t)
    else elim rest [ none ↦ none | some (l, p) ↦ some (c ∷ l, p) ]

-- The `while` loop: the line that is left, and the parameters in the order of the line. A match
-- shortens the line, so a fuel of its length and one is enough.
unfoldable pub chew_all : ℕ → Text → List Text → Text × List Text
unfolding chew
chew_all zero line params = (line, params)
chew_all (suc n) line params = elim (chew line) [
  | none ↦ (line, params)
  | some (l, p) ↦ chew_all n l (p ∷ params)
]

unfoldable pub has : (ℕ → Bool) → Text → Bool
has p [] = false
has p (c ∷ t) = p c || has p t

-- /\@.*\s/: some white space behind an `@`
unfoldable pub has_at_space : Text → Bool
unfolding has is_space
has_at_space [] = false
has_at_space (c ∷ t) = (c == b'@' && has is_space t) || has_at_space t

-- /^<.*>$/, where the dot takes no line terminator
unfoldable pub is_bracketed : Text → Bool
unfolding has
is_bracketed [] = false
is_bracketed (c ∷ t) =
    c == b'<'
    && elim (last? t) [ none ↦ false | some d ↦ d == b'>' ]
    && not (has (λ d. d == 10 || d == 13) t)

-- /^(postmaster|abuse)$/i
unfoldable pub is_local_name : Text → Bool
unfolding to_lower
is_local_name t = text_eq (to_lower t) (text "postmaster") || text_eq (to_lower t) (text "abuse")

-- The address is checked, and may be put in brackets.
unfoldable pub check_address : Kind → Text → List Text → Parsed
unfolding has_at_space has is_bracketed is_local_name is_space
check_address mail line params =
    if is_empty line
    then ok (text "<>" ∷ [])
    else if has_at_space line
    then err in_parameters
    else ok (line ∷ params)
check_address rcpt line params =
    if has_at_space line
    then err in_parameters
    else if has is_space line
    then err in_parameters
    else if has (λ c. c == b'@') line
    then ok ((if is_bracketed line then line else (b'<' ∷ line) ++ (b'>' ∷ [])) ∷ params)
    else if is_local_name line
    then ok (line ∷ params)
    else err in_address

-- From the `shift` of the first parameter on.
unfoldable pub check_format : Kind → Bool → List Text → Parsed
unfolding check_address is_bracketed
check_format kind strict [] = if strict then err invalid_format else check_address kind [] []
check_format kind strict (line ∷ params) =
    if strict && not (is_bracketed line) then err invalid_format else check_address kind line params

abbrev pub keyword : Kind → Text
keyword mail = text "from:"
keyword rcpt = text "to:"

-- From the end of the loop on.
unfoldable pub finish : Kind → Bool → Text → List Text → Parsed
unfolding has_at_space check_format
finish kind strict line params =
    if is_empty line
    then check_format kind strict params
    else if has_at_space line
    then err in_parameters
    else check_format kind strict (line ∷ params)

-- `parse(type, line, strict)`
unfoldable pub parse : Kind → Text → Bool → Parsed
unfolding trim_right drop_keyword chew_all finish text
parse kind line strict =
    let l = drop_keyword strict (keyword kind) (trim_right line) in
    let (rest, params) = chew_all (suc (length l)) l [] in finish kind strict rest params
