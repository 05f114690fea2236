-- ===== src/Spf/Terms.antt =====
-- spf.js: a record, found among the TXT records of a domain and split into its terms. A term is in
-- lower case by then.
use haraka.Prelude.{
  ℕ, Bool, true, false, Option, none, some, [], ◌∷◌, ◌&&◌, ◌||◌, not, ◌==◌, leb, is_empty,
  if◌then◌else◌,
}
use haraka.Prelude.Text.{Text, text, text_eq}

-- The results of check_host.
pub data SpfResult : Type 0 where
  spf_none pass fail softfail neutral temperror permerror : SpfResult

-- `return_const`
unfoldable pub return_const : ℕ → SpfResult
return_const qualifier =
    if qualifier == b'+'
    then pass
    else if qualifier == b'-'
    then fail
    else if qualifier == b'~'
    then softfail
    else if qualifier == b'?'
    then neutral
    else permerror

abbrev pub is_digit : ℕ → Bool
is_digit c = leb b'0' c && leb c b'9'

-- The text behind \d*
unfoldable pub after_digits : Text → Text
after_digits [] = []
after_digits (c ∷ t) = let rest = after_digits t in if is_digit c then rest else c ∷ t

-- \d+$
unfoldable pub is_number : Text → Bool
unfolding after_digits
is_number [] = false
is_number (c ∷ t) = is_digit c && is_empty (after_digits t)

-- (?:\/\/\d+)?$
unfoldable pub is_cidr6 : Text → Bool
unfolding is_number
is_cidr6 [] = true
is_cidr6 (c ∷ []) = false
is_cidr6 (c ∷ d ∷ t) = c == b'/' && d == b'/' && is_number t

-- \/\d+(?:\/\/\d+)?$
unfoldable pub is_cidr : Text → Bool
unfolding after_digits is_cidr6
is_cidr [] = false
is_cidr (c ∷ []) = false
is_cidr (c ∷ d ∷ t) = c == b'/' && is_digit d && is_cidr6 (after_digits t)

-- [^\/ ]*, and what is behind it
unfoldable pub take_host : Text → Text × Text
take_host [] = ([], [])
take_host (c ∷ t) =
    let r = take_host t in if c == b'/' || c == b' ' then ([], c ∷ t) else (c ∷ r.0, r.1)

-- (?::[^\/ ]+(?:\/\d+(?:\/\/\d+)?)?)|\/\d+(?:\/\/\d+)?)$
unfoldable pub is_args : Text → Bool
unfolding take_host is_cidr
is_args [] = false
is_args (c ∷ t) =
    if c == b':'
    then (let r = take_host t in not (is_empty r.0) && (is_empty r.1 || is_cidr r.1))
    else is_cidr (c ∷ t)

pub data Mechanism : Type 0 where
  all a mx ptr ip4 ip6 include exists : Mechanism

-- The name of a mechanism, up to a colon or a slash.
unfoldable pub take_name : Text → Text × Text
take_name [] = ([], [])
take_name (c ∷ t) =
    let r = take_name t in if c == b':' || c == b'/' then ([], c ∷ t) else (c ∷ r.0, r.1)

-- The names without arguments, and those with.
unfoldable pub plain_mechanism : Text → Option Mechanism
unfolding text_eq text
plain_mechanism t =
    if text_eq t (text "all")
    then some all
    else if text_eq t (text "a")
    then some a
    else if text_eq t (text "mx")
    then some mx
    else if text_eq t (text "ptr")
    then some ptr
    else none

unfoldable pub mechanism_of : Text → Option Mechanism
unfolding text_eq text
mechanism_of t =
    if text_eq t (text "a")
    then some a
    else if text_eq t (text "mx")
    then some mx
    else if text_eq t (text "ptr")
    then some ptr
    else if text_eq t (text "ip4")
    then some ip4
    else if text_eq t (text "ip6")
    then some ip6
    else if text_eq t (text "include")
    then some include
    else if text_eq t (text "exists")
    then some exists
    else none

pub record Mech : Type 0 where
  pub qualifier : ℕ
  pub kind : Mechanism
  pub args : Option Text

abbrev pub is_qualifier : ℕ → Bool
is_qualifier c = c == b'-' || c == b'+' || c == b'~' || c == b'?'

abbrev pub with_args : ℕ → Text → Option Mechanism → Option Mech
with_args q args none = none
with_args q args (some k) =
    if is_args args then some (record { qualifier = q; kind = k; args = some args }) else none

abbrev pub without_args : ℕ → Option Mechanism → Option Mech
without_args q none = none
without_args q (some k) = some (record { qualifier = q; kind = k; args = none })

-- `mech_regexp1` and `mech_regexp2` behind the qualifier.
unfoldable pub mech_body : ℕ → Text → Option Mech
unfolding take_name plain_mechanism mechanism_of is_args
mech_body q t =
    let r = take_name t in
    if is_empty r.1
    then without_args q (plain_mechanism r.0)
    else with_args q r.1 (mechanism_of r.0)

unfoldable pub parse_mech : Text → Option Mech
unfolding mech_body
parse_mech [] = none
parse_mech (c ∷ t) = if is_qualifier c then mech_body c t else mech_body b'+' (c ∷ t)

pub data Modifier : Type 0 where
  redirect exp unknown : Modifier

-- [^ =]+ and what is behind it
unfoldable pub take_key : Text → Text × Text
take_key [] = ([], [])
take_key (c ∷ t) =
    let r = take_key t in if c == b' ' || c == b'=' then ([], c ∷ t) else (c ∷ r.0, r.1)

-- [a-z0-9._-]*$
unfoldable pub is_word : Text → Bool
is_word [] = true
is_word (c ∷ t) =
    ((leb b'a' c && leb c b'z') || is_digit c || c == b'.' || c == b'_' || c == b'-') && is_word t

abbrev pub modifier_of : Text → Modifier
modifier_of t =
    if text_eq t (text "redirect")
    then redirect
    else if text_eq t (text "exp")
    then exp
    else unknown

-- `mod_regexp`
unfoldable pub parse_mod : Text → Option (Modifier × Text)
unfolding take_key is_word text_eq text
parse_mod t = elim (take_key t).1 [
  | [] ↦ none
  | c ∷ value ↦
      if c == b'=' && not (is_empty (take_key t).0) && not (is_empty value) && is_word value
      then some (modifier_of (take_key t).0, value)
      else none
]
