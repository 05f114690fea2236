-- ===== src/Dkim/Object.antt =====
-- dkim.js: DKIMObject: the fields of a signature, the lines of the body, and what is signed.
use haraka.Prelude.{
  ◌-◌, Bool, true, false, Option, none, some, List, [], ◌∷◌, ◌++◌, ◌&&◌, ◌||◌, not, ◌==◌, is_empty,
  length, drop, map, if◌then◌else◌,
}
use haraka.Prelude.Text.{Text, text, text_eq, is_space, to_lower, split_on}
use haraka.Dkim.Canon.{pop, push, at_colon, line_canon_relaxed}

pub data Verdict : Type 0 where
  pass tempfail fail invalid no_verdict : Verdict

-- What the callback gets: the error's text, and the result with its identity.
pub record Answer : Type 0 where
  pub error : Option Text
  pub identity : Text
  pub verdict : Verdict

-- The hashes of crypto, the comparisons of a field with the time and with another, and `recode`, the
-- bytes of the text that is read of a buffer: `new Buffer(buf.toString('utf-8'))`.
pub record Crypto : Type 0 where
  pub recode : Text → Text
  pub md5 : Text → Text
  pub body_hash : Text → Text → Text
  pub is_later : Text → Bool
  pub is_past : Text → Bool
  pub is_before : Text → Text → Bool

-- The last field of a name counts, so the newest is first.
unfoldable pub field : Text → List (Text × Text) → Text
unfolding text_eq
field name [] = []
field name ((k, v) ∷ fs) = if text_eq k name then v else field name fs

-- `.replace(/\s+/g, '')`
unfoldable pub without_space : Text → Text
unfolding is_space
without_space [] = []
without_space (c ∷ t) = let rest = without_space t in if is_space c then rest else c ∷ rest

-- The text before the first `=`, and what is behind it.
unfoldable pub at_equals : Text → Option (Text × Text)
at_equals [] = none
at_equals (c ∷ t) =
    let rest = at_equals t in
    if c == b'=' then some ([], t) else (elim rest [ none ↦ none | some r ↦ some (c ∷ r.0, r.1) ])

-- /^([^= ]+)=((?:.|[\r\n])+)$/
unfoldable pub parse_field : Text → Option (Text × Text)
unfolding at_equals
parse_field t = elim (at_equals t) [
  | none ↦ none
  | some r ↦ if is_empty r.0 || is_empty r.1 then none else some r
]

-- The loop over the keys; none is a header parse error.
unfoldable pub read_fields : List Text → List (Text × Text) → Option (List (Text × Text))
unfolding parse_field
read_fields [] fs = some fs
read_fields (k ∷ ks) fs =
    let skipped = read_fields ks fs in
    if is_empty k
    then skipped
    else (elim (parse_field k) [ none ↦ none | some f ↦ read_fields ks (f ∷ fs) ])

-- A header that is a signature has a colon.
abbrev pub behind_colon : Text → Text
unfolding at_colon
behind_colon header = elim (at_colon header) [ none ↦ [] | some r ↦ r.1 ]

unfoldable pub has_text : Text → List Text → Bool
unfolding text_eq
has_text x [] = false
has_text x (y ∷ ys) = text_eq x y || has_text x ys

unfoldable pub signed_of : List (Text × Text) → List Text
unfolding field split_on to_lower text
signed_of fs = map to_lower (split_on b':' (field (text "h") fs))

-- The end of `i`, as long as `d`: `substr` of a start below zero takes the last characters.
unfoldable pub is_subdomain : Text → Text → Bool
unfolding text_eq
is_subdomain i d = text_eq (drop (length i - length d) i) d

-- The checks up to the domain of `i`; none is no error.
unfoldable pub early_error : List (Text × Text) → Option Text
unfolding field text text_eq has_text signed_of is_subdomain
early_error fs =
    if is_empty (field (text "v") fs)
    then some (text "missing version")
    else if not (text_eq (field (text "v") fs) (text "1"))
    then some (text "incompatible version")
    else if is_empty (field (text "a") fs)
    then some (text "missing algorithm")
    else if not (
        text_eq (field (text "a") fs) (text "rsa-sha1")
        || text_eq (field (text "a") fs) (text "rsa-sha256"))
    then some (text "invalid algorithm")
    else if is_empty (field (text "b") fs)
    then some (text "signature missing")
    else if is_empty (field (text "bh") fs)
    then some (text "body hash missing")
    else if is_empty (field (text "d") fs)
    then some (text "domain missing")
    else if is_empty (field (text "h") fs)
    then some (text "signed headers missing")
    else if not (has_text (text "from") (signed_of fs))
    then some (text "from field not signed")
    else if not (is_empty (field (text "i") fs))
        && not (is_subdomain (field (text "i") fs) (field (text "d") fs))
    then some (text "domain mismatch")
    else none

unfoldable pub identity_of : List (Text × Text) → Text
unfolding field text
identity_of fs =
    if is_empty (field (text "i") fs) then b'@' ∷ field (text "d") fs else field (text "i") fs

-- The checks behind `identity`.
unfoldable pub late_error : Crypto → List (Text × Text) → Option Text
unfolding field text text_eq
late_error k fs =
    if not (is_empty (field (text "q") fs)) && not (text_eq (field (text "q") fs) (text "dns/txt"))
    then some (text "unknown query method")
    else if not (is_empty (field (text "t") fs)) && k.is_later (field (text "t") fs)
    then some (text "bad creation date")
    else if not (is_empty (field (text "x") fs))
        && not (is_empty (field (text "t") fs))
        && k.is_before (field (text "x") fs) (field (text "t") fs)
    then some (text "invalid expiration date")
    else if not (is_empty (field (text "x") fs)) && k.is_past (field (text "x") fs)
    then some (text "signature expired")
    else none

-- The object; `hashed` is what `bh` was updated with, and `answers` what its callback was told.
pub record DkimObject : Type 0 where
  pub sig : Text
  pub fields : List (Text × Text)
  pub identity : Text
  pub headercanon : Text
  pub bodycanon : Text
  pub signed_headers : List Text
  pub header_idx : List (Text × List Text)
  pub line_buffer : List Text
  pub hashed : Text
  pub run_cb : Bool
  pub answers : List Answer

unfoldable pub result : Option Text → Verdict → DkimObject → DkimObject
result error v o = record o {
  run_cb = true;
  answers = o.answers ++ (record { error = error; identity = o.identity; verdict = v } ∷ []);
}

abbrev pub nth_or : Text → List Text → Text
nth_or default [] = default
nth_or default (t ∷ ts) = if is_empty t then default else t

abbrev pub tail_of : List Text → List Text
tail_of [] = []
tail_of (t ∷ ts) = ts

-- The object before the checks; without `c` both algorithms are simple.
unfoldable pub blank_object : Text → List (Text × List Text) → List (Text × Text) → DkimObject
unfolding field split_on text signed_of
blank_object header idx fs = record {
  sig = header;
  fields = fs;
  identity = text "unknown";
  headercanon = nth_or (text "simple") (split_on b'/' (field (text "c") fs));
  bodycanon = nth_or (text "simple") (tail_of (split_on b'/' (field (text "c") fs)));
  signed_headers = signed_of fs;
  header_idx = idx;
  line_buffer = [];
  hashed = [];
  run_cb = false;
  answers = [];
}

-- `new DKIMObject`
unfoldable pub new_object : Crypto → Text → List (Text × List Text) → DkimObject
unfolding read_fields split_on without_space blank_object early_error late_error identity_of result
    text
new_object k header idx =
    elim (read_fields (split_on b';' (without_space (behind_colon header))) []) [
      | none ↦ result (some (text "header parse error")) invalid (blank_object header idx [])
      | some fs ↦ elim (early_error fs) [
        | some e ↦ result (some e) invalid (blank_object header idx fs)
        | none ↦
            let o = record (blank_object header idx fs) { identity = identity_of fs } in
            elim (late_error k fs) [ some e ↦ result (some e) invalid o | none ↦ o ]
      ]
    ]

abbrev pub is_blank_line : Text → Bool
is_blank_line (c ∷ []) = c == 10
is_blank_line (c ∷ d ∷ []) = c == 13 && d == 10
is_blank_line t = false

-- `add_body_line`. The replacements of the relaxed algorithm are of ASCII, so they are done on the bytes
-- of the text that was read.
unfoldable pub add_body_line : Crypto → Text → DkimObject → DkimObject
unfolding pop push line_canon_relaxed text_eq text
add_body_line k line o =
    if o.run_cb
    then o
    else if is_blank_line line
    then record o { line_buffer = push line o.line_buffer }
    else if text_eq o.bodycanon (text "simple")
    then record o { hashed = o.hashed ++ pop line o.line_buffer; line_buffer = [] }
    else if text_eq o.bodycanon (text "relaxed")
    then record o {
      hashed = o.hashed ++ line_canon_relaxed (k.recode (pop line o.line_buffer));
      line_buffer = [];
    }
    else o
