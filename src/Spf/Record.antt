-- ===== src/Spf/Record.antt =====
-- spf.js: `check_host` up to the call chain: the record of a domain, and its terms.
use haraka.Prelude.{
  Bool, true, false, Option, none, some, List, [], ◌∷◌, ◌&&◌, ◌||◌, not, ◌==◌, is_empty,
  if◌then◌else◌,
}
use haraka.Prelude.Text.{Text, text, starts_with, to_lower, is_space, split_space}
use haraka.Spf.Terms.{
  Mechanism, all, a, mx, ptr, ip4, ip6, include, exists, Mech, parse_mech, Modifier, redirect, exp,
  unknown, parse_mod, take_host,
}

-- .+$ behind a space
abbrev pub is_line : Text → Bool
is_line [] = true
is_line (c ∷ t) = not (c == 10 || c == 13) && is_line t

-- /^(v=spf1(?:$|\s.+$))/i, behind its first six characters
abbrev pub is_rest_of_record : Text → Bool
is_rest_of_record [] = true
is_rest_of_record (c ∷ []) = false
is_rest_of_record (c ∷ d ∷ t) = is_space c && is_line (d ∷ t)

abbrev pub behind : Text → Text → Text
behind [] t = t
behind (p ∷ ps) [] = []
behind (p ∷ ps) (c ∷ t) = behind ps t

unfoldable pub is_spf_record : Text → Bool
unfolding starts_with text to_lower is_space
is_spf_record t =
    starts_with (text "v=spf1") (to_lower t) && is_rest_of_record (behind (text "v=spf1") t)

-- The text without the spaces at its start.
unfoldable pub trim_start : Text → Text
unfolding is_space
trim_start [] = []
trim_start (c ∷ t) = let rest = trim_start t in if is_space c then rest else c ∷ t

-- `.replace(/\s+/, ' ')`: the first spaces only.
unfoldable pub collapse_first : Text → Text
unfolding trim_start is_space
collapse_first [] = []
collapse_first (c ∷ t) =
    let rest = collapse_first t in if is_space c then b' ' ∷ trim_start t else c ∷ rest

pub data Found : Type 0 where
  no_record two_records : Found
  record_text : Text → Found

-- The loop over the TXT records.
unfoldable pub find_record : List Text → Found → Found
unfolding is_spf_record collapse_first to_lower
find_record [] f = f
find_record (t ∷ ts) f =
    let none_yet = find_record ts (record_text (to_lower (collapse_first t))) in
    let rest = find_record ts f in
    if is_spf_record t
    then (elim f [ no_record ↦ none_yet | two_records ↦ two_records | record_text _ ↦ two_records ])
    else rest

-- [^ ]+$
abbrev pub no_blank : Text → Bool
no_blank [] = true
no_blank (c ∷ t) = not (c == b' ') && no_blank t

abbrev pub is_mask : Text → Bool
is_mask t = not (is_empty t) && no_blank t

-- /^:([^\/ ]+)(?:\/([^ ]+))?$/, the group
unfoldable pub ip_of : Text → Option Text
unfolding take_host
ip_of [] = none
ip_of (c ∷ t) =
    let r = take_host t in
    if not (c == b':') || is_empty r.0 then none else (elim r.1 [
      | [] ↦ some r.0
      | d ∷ rest ↦ if d == b'/' && is_mask rest then some r.0 else none
    ])

-- /%[^{%+-]/
unfoldable pub has_bad_macro : Text → Bool
has_bad_macro [] = false
has_bad_macro (c ∷ []) = false
has_bad_macro (c ∷ d ∷ t) =
    (c == b'%' && not (d == b'{' || d == b'%' || d == b'+' || d == b'-')) || has_bad_macro (d ∷ t)

-- A term that is kept, a syntax error, or the exception of reading a group of a match that failed.
pub data Checked : Type 0 where
  kept : Mech → Checked
  invalid threw : Checked

-- The terms of a record: its mechanisms and its modifiers.
pub data Record : Type 0 where
  terms : List Mech → List (Modifier × Text) → Record
  syntax_error threw_up : Record

abbrev pub add_mech : Mech → Record → Record
add_mech m (terms ms mods) = terms (m ∷ ms) mods
add_mech m syntax_error = syntax_error
add_mech m threw_up = threw_up

-- An unknown modifier is skipped.
abbrev pub add_mod : Modifier × Text → Record → Record
add_mod (unknown, value) r = r
add_mod (redirect, value) (terms ms mods) = terms ms ((redirect, value) ∷ mods)
add_mod (exp, value) (terms ms mods) = terms ms ((exp, value) ∷ mods)
add_mod (redirect, value) syntax_error = syntax_error
add_mod (exp, value) syntax_error = syntax_error
add_mod (redirect, value) threw_up = threw_up
add_mod (exp, value) threw_up = threw_up

abbrev pub add_checked : Checked → Record → Record
add_checked (kept m) r = add_mech m r
add_checked invalid r = syntax_error
add_checked threw r = threw_up

-- The words behind the first.
abbrev pub rest_of : List Text → List Text
rest_of [] = []
rest_of (w ∷ ws) = ws

abbrev pub args_ip : Option Text → Option Text
unfolding ip_of
args_ip none = none
args_ip (some args) = ip_of args

-- `is_valid` is ipaddr.isValid, and `expand` is expand_macros, of the object that checks.
module _ (is_valid : Text → Bool) (expand : Text → Text) where
  unfoldable pub check_ip : Mech → Option Text → Checked
  check_ip m none = threw
  check_ip m (some ip) = if is_valid ip then kept m else invalid

  unfoldable pub check_macros : Mech → Option Text → Checked
  unfolding has_bad_macro
  check_macros m none = kept m
  check_macros m (some args) =
      if has_bad_macro args then invalid else kept (record m { args = some (expand args) })

  unfoldable pub check_mech : Mechanism → Mech → Checked
  unfolding check_ip check_macros ip_of
  check_mech ip4 m = check_ip m (args_ip m.args)
  check_mech ip6 m = check_ip m (args_ip m.args)
  check_mech all m = check_macros m m.args
  check_mech a m = check_macros m m.args
  check_mech mx m = check_macros m m.args
  check_mech ptr m = check_macros m m.args
  check_mech include m = check_macros m m.args
  check_mech exists m = check_macros m m.args

  unfoldable pub read_terms : List Text → Record
  unfolding parse_mech check_mech parse_mod
  read_terms [] = terms [] []
  read_terms (t ∷ ts) =
      let rest = read_terms ts in
      if is_empty t then rest else (elim (parse_mech t) [
        | some m ↦ add_checked (check_mech m.kind m) rest
        | none ↦ elim (parse_mod t) [ some md ↦ add_mod md rest | none ↦ syntax_error ]
      ])

  unfoldable pub read_record : Text → Record
  unfolding read_terms split_space
  read_record t = read_terms (rest_of (split_space t))
