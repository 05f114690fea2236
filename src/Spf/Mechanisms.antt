-- ===== src/Spf/Mechanisms.antt =====
-- spf.js: the mechanisms. The callbacks of one mechanism come in the order of the answers that are
-- listed, and the first call of `cb` counts.
use haraka.Prelude.{
  ℕ, Bool, true, false, Option, none, some, List, [], ◌∷◌, ◌++◌, ◌&&◌, ◌||◌, not, ◌==◌, ltb,
  is_empty, length, last?, drop, if◌then◌else◌,
}
use haraka.Prelude.Text.{Text, text_eq, to_lower}
use haraka.Spf.Terms.{
  SpfResult, spf_none, temperror, permerror, return_const, is_digit, after_digits, is_number,
  take_host,
}

-- `LIMIT`
abbrev pub lookup_limit : ℕ
lookup_limit = 10

-- What a query gives: no record (NOTFOUND, NODATA, NXDOMAIN), another error, or the answers.
pub data Answer (A : Type 0) : Type 0 where
  no_data failed : Answer A
  answers : List A → Answer A

-- The queries of one check, of the client's address: `resolve_ip` is resolve4 or resolve6, by its
-- version, `matches` is ipaddr's match of an address or range and a mask, none for an exception, and
-- `is_pattern` and `domain_matches` are what RegExp makes of a domain.
pub record World : Type 0 where
  pub ip : Text
  pub is_ipv4 : Bool
  pub resolve_txt : Text → Answer Text
  pub resolve : Text → Answer Text
  pub resolve_ip : Text → Answer Text
  pub resolve_mx : Text → Answer Text
  pub reverse : Answer Text
  pub matches : Text → Text → Option Bool
  pub is_of_version : Text → Option Bool
  pub is_pattern : Text → Bool
  pub domain_matches : Text → Text → Bool

abbrev pub has_name : Text → List Text → Bool
has_name x [] = false
has_name x (y ∷ ys) = text_eq y x || has_name x ys

-- The digits at the start.
unfoldable pub digits_of : Text → Text
digits_of [] = []
digits_of (c ∷ t) = let rest = digits_of t in if is_digit c then c ∷ rest else []

-- The masks of /\/(\d+)(?:\/\/(\d+))?$/: the second with its slashes, which mech_mx keeps.
pub record Masks : Type 0 where
  pub cidr4 : Text
  pub slashed6 : Text

abbrev pub is_slashed : Text → Bool
is_slashed [] = true
is_slashed (c ∷ []) = false
is_slashed (c ∷ d ∷ t) = c == b'/' && d == b'/' && is_number t

unfoldable pub masks_at : Text → Option Masks
unfolding digits_of after_digits is_number
masks_at t =
    if is_empty (digits_of t)
    then none
    else if is_slashed (after_digits t)
    then some (record { cidr4 = digits_of t; slashed6 = after_digits t })
    else none

unfoldable pub find_masks : Text → Option Masks
unfolding masks_at
find_masks [] = none
find_masks (c ∷ t) =
    let rest = find_masks t in
    if c == b'/' then (elim (masks_at t) [ none ↦ rest | some m ↦ some m ]) else rest

-- `cidr` of mech_a and of mech_mx; an empty text is no mask.
unfoldable pub mask_a : Bool → Text → Text
unfolding find_masks
mask_a is_ipv4 args = elim (find_masks args) [
  | none ↦ []
  | some m ↦ if is_ipv4 then m.cidr4 else drop 2 m.slashed6
]

unfoldable pub mask_mx : Bool → Text → Text
unfolding find_masks
mask_mx is_ipv4 args = elim (find_masks args) [
  | none ↦ []
  | some m ↦ if is_ipv4 then m.cidr4 else m.slashed6
]

-- /^:([^\/ ]+)/, or the domain that is checked
unfoldable pub domain_of : Text → Text → Text
unfolding take_host
domain_of domain [] = domain
domain_of domain (c ∷ t) =
    if c == b':' && not (is_empty (take_host t).0) then (take_host t).0 else domain

abbrev pub or_empty : Option Text → Text
or_empty none = []
or_empty (some t) = t

-- The result of a mechanism, or the exception of `ipaddr`.
pub data Outcome : Type 0 where
  returned : SpfResult → Outcome
  threw out_of_fuel : Outcome

module _ (w : World) where
  -- Does the client's address match one of these?
  unfoldable pub any_matches : SpfResult → Text → List Text → Outcome
  unfolding text_eq
  any_matches found cidr [] = returned spf_none
  any_matches found cidr (x ∷ xs) =
      let rest = any_matches found cidr xs in
      if is_empty cidr
      then (if text_eq x w.ip then returned found else rest)
      else (elim (w.matches x cidr) [ none ↦ threw | some b ↦ if b then returned found else rest ])

  abbrev pub of_answer : {A : Type 0} → (List A → Outcome) → Answer A → Outcome
  of_answer f no_data = returned spf_none
  of_answer f failed = returned temperror
  of_answer f (answers l) = f l

  unfoldable pub mech_all : ℕ → Outcome
  mech_all q = returned (return_const q)

  unfoldable pub mech_exists : ℕ → Text → Outcome
  mech_exists q args = of_answer (λ l. returned (return_const q)) (w.resolve (drop 1 args))

  unfoldable pub mech_a : ℕ → Text → Option Text → Outcome
  unfolding any_matches mask_a domain_of
  mech_a q domain args =
      of_answer (any_matches (return_const q) (mask_a w.is_ipv4 (or_empty args)))
        (w.resolve_ip (domain_of domain (or_empty args)))

  -- The answers for the hosts of an MX, and what comes behind the last one.
  unfoldable pub collect : (List Text → Outcome) → List Text → List Text → Outcome
  collect finish [] addresses = finish addresses
  collect finish (h ∷ hs) addresses = elim (w.resolve_ip h) [
    | no_data ↦ collect finish hs addresses
    | failed ↦ returned temperror
    | answers l ↦ collect finish hs (l ++ addresses)
  ]

  unfoldable pub mx_hosts : SpfResult → Text → List Text → Outcome
  unfolding collect any_matches
  mx_hosts found cidr hosts =
      if ltb lookup_limit (length hosts)
      then returned permerror
      else collect (any_matches found cidr) hosts []

  unfoldable pub mech_mx : ℕ → Text → Option Text → Outcome
  unfolding mx_hosts mask_mx domain_of
  mech_mx q domain args =
      of_answer (mx_hosts (return_const q) (mask_mx w.is_ipv4 (or_empty args)))
        (w.resolve_mx (domain_of domain (or_empty args)))

  -- The names that resolve back, `ptr` being the last name of all in each callback, as the loop's
  -- variable is one for all of them.
  unfoldable pub matched_names : Text → List Text → List Text
  unfolding text_eq to_lower
  matched_names ptr [] = []
  matched_names ptr (h ∷ hs) =
      let rest = matched_names ptr hs in
      elim (w.resolve_ip h) [
        | no_data ↦ rest
        | failed ↦ rest
        | answers l ↦ if has_name w.ip l then to_lower ptr ∷ rest else rest
      ]

  unfoldable pub any_name : SpfResult → Text → List Text → Outcome
  any_name found domain [] = returned spf_none
  any_name found domain (n ∷ ns) =
      let rest = any_name found domain ns in
      if w.domain_matches domain n then returned found else rest

  unfoldable pub ptr_names : SpfResult → Text → List Text → Outcome
  unfolding matched_names any_name
  ptr_names found domain ptrs =
      if ltb lookup_limit (length ptrs)
      then returned permerror
      else if is_empty ptrs
      then returned spf_none
      else if not (w.is_pattern domain)
      then returned permerror
      else any_name found domain (matched_names (or_empty (last? ptrs)) ptrs)

  unfoldable pub mech_ptr : ℕ → Text → Option Text → Outcome
  unfolding ptr_names domain_of
  mech_ptr q domain args = elim w.reverse [
    | no_data ↦ returned spf_none
    | failed ↦ returned spf_none
    | answers l ↦ ptr_names (return_const q) (domain_of domain (or_empty args)) l
  ]

  -- /^([^\/ ]+)(?:\/(\d+))?$/, and the mask that stands for none
  unfoldable pub range_of : Text → Option (Text × Text)
  unfolding take_host is_number
  range_of t =
      let r = take_host t in
      if is_empty r.0 then none else (elim r.1 [
        | [] ↦ some (r.0, if w.is_ipv4 then b'3' ∷ b'2' ∷ [] else b'1' ∷ b'2' ∷ b'8' ∷ [])
        | c ∷ mask ↦ if c == b'/' && is_number mask then some (r.0, mask) else none
      ])

  abbrev pub in_range : SpfResult → Text × Text → Outcome
  in_range found (range, mask) = elim (w.is_of_version range) [
    | none ↦ returned permerror
    | some b ↦
        if b
        then (elim (w.matches range mask) [
          | none ↦ returned permerror
          | some m ↦ if m then returned found else returned spf_none
        ])
        else returned spf_none
  ]

  -- Its exceptions are caught.
  unfoldable pub mech_ip : ℕ → Text → Outcome
  unfolding range_of
  mech_ip q args = elim (range_of (drop 1 args)) [
    | none ↦ returned spf_none
    | some r ↦ in_range (return_const q) r
  ]
