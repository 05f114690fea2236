-- ===== src/Spf/Macros.antt =====
-- spf.js: `expand_macros`.
use haraka.Prelude.{
  ℕ, zero, suc, ◌+◌, ◌-◌, ◌*◌, Bool, false, Option, none, some, List, [], ◌∷◌, ◌++◌, ◌&&◌, ◌||◌,
  not, ◌==◌, is_empty, length, take, drop, if◌then◌else◌,
}
use haraka.Prelude.Text.{Text, text, starts_with, lower, split_on, join_on}
use haraka.Spf.Terms.{is_digit}

-- What the macros are of: the object's fields; `helo` is set in the first object only. The texts have
-- no `$`, which String.replace would read as a pattern.
pub record Sender : Type 0 where
  pub mail_from : Text
  pub domain : Text
  pub ip : Text
  pub is_ipv4 : Bool
  pub helo : Option Text

-- A match of /%{([slodipvh])((?:(?:\d+)?r?)?)?([-.+,/_=])?}/i
pub record Macro : Type 0 where
  pub letter : ℕ
  pub digits : Text
  pub reverse : Bool
  pub delimiter : ℕ
  pub matched : Text

abbrev one_of : ℕ → Text → Bool
one_of c [] = false
one_of c (d ∷ ds) = c == d || one_of c ds

unfoldable pub leading_digits : Text → Text
leading_digits [] = []
leading_digits (c ∷ t) = if is_digit c then c ∷ leading_digits t else []

-- The closing brace, `so_far` being what was matched.
unfoldable pub close : Text → Macro → Text → Option Macro
close so_far m [] = none
close so_far m (c ∷ t) =
    if c == b'}' then some (record m { matched = so_far ++ (c ∷ []) }) else none

unfoldable pub match_delimiter : Text → Macro → Text → Option Macro
unfolding close text
match_delimiter so_far m [] = none
match_delimiter so_far m (c ∷ t) =
    if one_of c (text "-.+,/_=")
    then close (so_far ++ (c ∷ [])) (record m { delimiter = c }) t
    else close so_far m (c ∷ t)

-- `r` in either case is matched, and only the small one is found by indexOf.
unfoldable pub match_reverse : Text → Macro → Text → Option Macro
unfolding match_delimiter lower
match_reverse so_far m [] = none
match_reverse so_far m (c ∷ t) =
    if lower c == b'r'
    then match_delimiter (so_far ++ (c ∷ [])) (record m { reverse = c == b'r' }) t
    else match_delimiter so_far m (c ∷ t)

unfoldable pub match_macro : Text → Option Macro
unfolding match_reverse leading_digits lower text
match_macro (p ∷ b ∷ l ∷ t) =
    let digits = leading_digits t in
    if p == b'%' && b == b'{' && one_of (lower l) (text "slodipvh")
    then match_reverse (p ∷ b ∷ l ∷ digits)
        (record { letter = l; digits = digits; reverse = false; delimiter = b'.'; matched = [] })
        (drop (length digits) t)
    else none
match_macro t = none

-- The first match from an index on.
unfoldable pub find_macro : ℕ → Text → Option (ℕ × Macro)
unfolding match_macro
find_macro i [] = none
find_macro i (c ∷ t) = elim (match_macro (c ∷ t)) [
  | none ↦ find_macro (i + 1) t
  | some m ↦ some (i, m)
]

abbrev second : List Text → Option Text
second [] = none
second (a ∷ []) = none
second (a ∷ b ∷ ws) = some b

abbrev first : List Text → Option Text
first [] = none
first (a ∷ ws) = some a

-- The switch; a letter in capitals leaves `replace` as it is.
unfoldable pub macro_value : Sender → ℕ → Option Text → Option Text
unfolding split_on text
macro_value x l replace =
    if l == b's'
    then some x.mail_from
    else if l == b'l'
    then first (split_on b'@' x.mail_from)
    else if l == b'o'
    then second (split_on b'@' x.mail_from)
    else if l == b'd'
    then some x.domain
    else if l == b'i'
    then some x.ip
    else if l == b'p'
    then some (text "unknown")
    else if l == b'v'
    then some (if x.is_ipv4 then text "in-addr" else text "ip6")
    else if l == b'h'
    then x.helo
    else replace

unfoldable pub number_of : ℕ → Text → ℕ
number_of acc [] = acc
number_of acc (c ∷ t) = number_of (acc * 10 + (c - 48)) t

abbrev reversed : List Text → List Text → List Text
reversed acc [] = acc
reversed acc (w ∷ ws) = reversed (w ∷ acc) ws

-- The transformers: the first labels are kept, and then their order is turned.
unfoldable pub transform : Macro → Text → Text
unfolding split_on number_of join_on
transform m v =
    if m.reverse || not (is_empty m.digits)
    then (let parts = split_on m.delimiter v in
        let kept = if is_empty m.digits then parts else take (number_of 0 m.digits) parts in
        join_on b'.' (if m.reverse then reversed [] kept else kept))
    else v

-- `str.replace(s, r)`
unfoldable pub replace_first : Text → Text → Text → Text
unfolding starts_with
replace_first s r [] = if is_empty s then r else []
replace_first s r (c ∷ t) =
    let rest = replace_first s r t in
    if starts_with s (c ∷ t) then r ++ drop (length s) (c ∷ t) else c ∷ rest

-- The text, the pattern's lastIndex, and the variable `replace`.
pub record Expansion : Type 0 where
  pub str : Text
  pub last_index : ℕ
  pub replace : Option Text

abbrev substitute : Macro → Option Text → Expansion → Expansion
unfolding transform replace_first
substitute m none e = record e { replace = none }
substitute m (some v) e = if is_empty v then record e { replace = some v } else record e {
  str = replace_first m.matched (transform m v) e.str;
  replace = some (transform m v);
}

unfoldable pub expand_one : Sender → ℕ → Macro → Expansion → Expansion
unfolding substitute macro_value
expand_one x i m e =
    substitute m (macro_value x m.letter e.replace) (record e { last_index = i + length m.matched })

-- The loop; none if the fuel does not suffice.
unfoldable pub expand_loop : Sender → ℕ → Expansion → Option Text
unfolding find_macro expand_one
expand_loop x zero e = none
expand_loop x (suc n) e = elim (find_macro e.last_index (drop e.last_index e.str)) [
  | none ↦ some e.str
  | some (i, m) ↦ expand_loop x n (expand_one x i m e)
]

abbrev pub new_expansion : Text → Expansion
new_expansion str = record { str = str; last_index = 0; replace = none }

-- `str.replace(/%c/g, r)`
unfoldable pub replace_all : ℕ → Text → Text → Text
replace_all d r [] = []
replace_all d r (c ∷ []) = c ∷ []
replace_all d r (c ∷ e ∷ t) =
    let here = replace_all d r t in
    let on = replace_all d r (e ∷ t) in if c == b'%' && e == d then r ++ here else c ∷ on

unfoldable pub expand_macros : Sender → ℕ → Text → Option Text
unfolding expand_loop replace_all text
expand_macros x n str = elim (expand_loop x n (new_expansion str)) [
  | none ↦ none
  | some t ↦ some (
      replace_all b'-' (text "%20") (replace_all b'_' (b' ' ∷ []) (replace_all b'%' (b'%' ∷ []) t)))
]
