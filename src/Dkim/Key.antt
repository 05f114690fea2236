-- ===== src/Dkim/Key.antt =====
-- dkim.js: `DKIMObject.prototype.end`: what is verified, and the key's record.
use haraka.Prelude.{
  Bool, true, false, Option, none, some, List, [], ◌∷◌, ◌++◌, ◌&&◌, ◌||◌, not, ◌==◌, is_empty,
  if◌then◌else◌,
}
use haraka.Prelude.Text.{Text, text, text_eq, contains, split_on}
use haraka.Dkim.Canon.{header_canon_relaxed}
use haraka.Dkim.Object.{
  pass, tempfail, fail, invalid, Crypto, DkimObject, field, without_space, at_equals, result,
}

-- The last of some texts, and those before it.
unfoldable pub pop_last : List Text → Option (Text × List Text)
pop_last [] = none
pop_last (t ∷ ts) = elim (pop_last ts) [ none ↦ some (t, []) | some r ↦ some (r.0, t ∷ r.1) ]

-- `header_idx[name].pop()`
unfoldable pub pop_header : Text → List (Text × List Text) → Option (Text × List (Text × List Text))
unfolding pop_last text_eq
pop_header name [] = none
pop_header name ((n, hs) ∷ idx) =
    let rest = pop_header name idx in
    if text_eq n name
    then (elim (pop_last hs) [ none ↦ none | some r ↦ some (r.0, (n, r.1) ∷ idx) ])
    else (elim rest [ none ↦ none | some r ↦ some (r.0, (n, hs) ∷ r.1) ])

-- What the verifier is updated with for a header.
unfoldable pub canon_header : Text → Text → Text
unfolding text_eq text header_canon_relaxed
canon_header algorithm header =
    if text_eq algorithm (text "simple")
    then header
    else if text_eq algorithm (text "relaxed")
    then header_canon_relaxed header
    else []

-- The loop over the signed headers; the signature itself is left out.
unfoldable pub signed_text : Crypto → Text → Text → List Text → List (Text × List Text) → Text
unfolding pop_header canon_header text_eq text
signed_text k algorithm sig [] idx = []
signed_text k algorithm sig (h ∷ hs) idx = elim (pop_header h idx) [
  | none ↦ signed_text k algorithm sig hs idx
  | some r ↦
      let rest = signed_text k algorithm sig hs r.1 in
      if text_eq h (text "dkim-signature") && text_eq (k.md5 r.0) (k.md5 sig)
      then rest
      else canon_header algorithm r.0 ++ rest
]

unfoldable pub up_to_semicolon : Text → Text
up_to_semicolon [] = []
up_to_semicolon (c ∷ t) = let rest = up_to_semicolon t in if c == b';' then c ∷ t else rest

-- `.replace(/b=([^;]+)/, 'b=')`: the first that has a value.
unfoldable pub without_b : Text → Text
unfolding up_to_semicolon
without_b [] = []
without_b (c ∷ []) = c ∷ []
without_b (c ∷ d ∷ []) = c ∷ d ∷ []
without_b (c ∷ d ∷ e ∷ t) =
    let rest = without_b (d ∷ e ∷ t) in
    if c == b'b' && d == b'=' && not (e == b';') then c ∷ d ∷ up_to_semicolon (e ∷ t) else c ∷ rest

-- `.replace(/\r\n$/, '')`
unfoldable pub without_crlf : Text → Text
without_crlf [] = []
without_crlf (c ∷ []) = c ∷ []
without_crlf (c ∷ d ∷ []) = if c == 13 && d == 10 then [] else c ∷ d ∷ []
without_crlf (c ∷ d ∷ e ∷ t) = c ∷ without_crlf (d ∷ e ∷ t)

unfoldable pub own_signature : DkimObject → Text
unfolding without_b without_crlf header_canon_relaxed text_eq text
own_signature o = without_crlf (
    if text_eq o.headercanon (text "relaxed")
    then header_canon_relaxed (without_b o.sig)
    else without_b o.sig)

-- `end` up to the query: the answer at once, or what is to be verified.
unfoldable pub end_object : Crypto → DkimObject → DkimObject × Option Text
unfolding field signed_text own_signature result text text_eq
end_object k o =
    if o.run_cb
    then (o, none)
    else if text_eq (k.body_hash (field (text "a") o.fields) o.hashed) (field (text "bh") o.fields)
    then (
      o,
      some (signed_text k o.headercanon o.sig o.signed_headers o.header_idx ++ own_signature o),
    )
    else (result (some (text "body hash did not verify")) fail o, none)

-- What the query gives: no such record, another error, or the records.
pub data KeyAnswer : Type 0 where
  no_key unavailable timed_out : KeyAnswer
  records : List Text → KeyAnswer

-- `verify` is that of crypto under an algorithm, of a key that is put in PEM, none for an exception; `matches` is RegExp for the granularity `g` of a
-- record, at the start of the identity.
pub record Verifier : Type 0 where
  pub verify : Text → Text → Text → Text → Option Bool
  pub matches : Text → Text → Bool

abbrev pub first_of : List Text → Text
first_of [] = []
first_of (t ∷ ts) = t

-- `dns_fields`: those of the record before the defaults; a name without `=` has no value.
unfoldable pub dns_fields : List Text → List (Text × Text) → List (Text × Text)
unfolding at_equals split_on
dns_fields [] fs = fs
dns_fields (t ∷ ts) fs = elim (at_equals t) [
  | none ↦ if is_empty t then dns_fields ts fs else dns_fields ts ((t, []) ∷ fs)
  | some r ↦
      if is_empty r.0
      then dns_fields ts fs
      else dns_fields ts ((r.0, first_of (split_on b'=' r.1)) ∷ fs)
]

abbrev pub default_fields : List (Text × Text)
unfolding text
default_fields = (text "v", text "DKIM1") ∷ (text "k", text "rsa") ∷ (text "g", text "*") ∷ []

abbrev pub all_in : Text → List Text → Bool
unfolding contains
all_in a [] = true
all_in a (h ∷ hs) = contains h a && all_in a hs

unfoldable pub behind_at : Text → Text
behind_at [] = []
behind_at (c ∷ t) = let rest = behind_at t in if c == b'@' then t else rest

abbrev pub has_at : Text → Bool
has_at [] = false
has_at (c ∷ t) = c == b'@' || has_at t

-- The flag `s` wants the domain of `i` to be `d`.
unfoldable pub breaks_flag : List (Text × Text) → List Text → Bool
unfolding text_eq field behind_at text
breaks_flag fs [] = false
breaks_flag fs (f ∷ flags) =
    (text_eq f (text "s")
      && not (
          text_eq
            (if has_at (field (text "i") fs)
              then behind_at (field (text "i") fs)
              else field (text "i") fs)
            (field (text "d") fs)))
    || breaks_flag fs flags

-- The checks of a record's fields `ds`, for a signature with the fields `fs` and an identity.
unfoldable pub key_error : Verifier → Text → List (Text × Text) → List (Text × Text) → Option Text
unfolding field text text_eq split_on contains breaks_flag
key_error w identity fs ds =
    if not (text_eq (field (text "v") ds) (text "DKIM1"))
    then some (text "invalid version")
    else if is_empty (field (text "g") ds)
    then some (text "inapplicable key")
    else if not (text_eq (field (text "g") ds) (text "*"))
        && not (w.matches (field (text "g") ds) identity)
    then some (text "inapplicable key")
    else if not (is_empty (field (text "h") ds))
        && not (all_in (field (text "a") fs) (split_on b':' (field (text "h") ds)))
    then some (text "inappropriate hash algorithm")
    else if not (contains (field (text "k") ds) (field (text "a") fs))
    then some (text "inappropriate key type")
    else if not (is_empty (field (text "t") ds))
        && breaks_flag ((text "i", identity) ∷ fs) (split_on b':' (field (text "t") ds))
    then some (text "domain mismatch")
    else if is_empty (field (text "p") ds)
    then some (text "key revoked")
    else none

unfoldable pub verified : Verifier → Text → DkimObject → Text → DkimObject
unfolding field result text
verified w signed o p =
    elim (w.verify (field (text "a") o.fields) p (field (text "b") o.fields) signed) [
      | none ↦ result (some (text "verification error")) invalid o
      | some b ↦ result none (if b then pass else fail) o
    ]

-- The loop over the records: the first with `p=` decides.
unfoldable pub check_records : Verifier → Text → List Text → DkimObject → DkimObject
unfolding contains text dns_fields split_on without_space key_error verified result field
check_records w signed [] o = result (some (text "no key for signature")) invalid o
check_records w signed (r ∷ rs) o =
    let rest = check_records w signed rs o in
    if contains (text "p=") r
    then (let ds = dns_fields (split_on b';' (without_space r)) default_fields in
        elim (key_error w o.identity o.fields ds) [
          | some e ↦ result (some e) invalid o
          | none ↦ verified w signed o (field (text "p") ds)
        ])
    else rest

-- The answer of the query, or the timer, whichever comes first.
unfoldable pub on_key : Verifier → Text → KeyAnswer → DkimObject → DkimObject
unfolding check_records result text
on_key w signed no_key o = result (some (text "no key for signature")) invalid o
on_key w signed unavailable o = result (some (text "key unavailable")) tempfail o
on_key w signed timed_out o = result (some (text "DNS timeout")) tempfail o
on_key w signed (records rs) o = check_records w signed rs o
