-- ===== src/Header.antt =====
-- mailheader.js: the parsed header of a message, with the lines it was parsed from. The decoded
-- copy of the values (`headers_decoded`) is not modelled.
pub mod Edits
use haraka.Prelude.{
  ℕ, Bool, true, false, Option, none, some, List, [], ◌∷◌, ◌++◌, ◌&&◌, ◌||◌, length, take, not,
  if◌then◌else◌, ◌==◌, leb,
}
use haraka.Prelude.Text.{Text, text, text_eq, to_lower, is_space}

pub record Header : Type 0 where
  pub headers : List (Text × List Text)
  pub header_list : List Text

abbrev pub empty : Header
empty = record { headers = []; header_list = [] }

-- The names in lower case that every object has, so that `headers` has a value under them.
unfoldable pub is_inherited : Text → Bool
unfolding text text_eq
is_inherited key = text_eq key (text "constructor") || text_eq key (text "__proto__")

-- `headers[key] || []`, of a key that is not inherited.
unfoldable pub values : Text → List (Text × List Text) → List Text
values key [] = []
values key ((k, vs) ∷ m) = if text_eq k key then vs else values key m

-- Rewrites the values under a key, which is added at the end when it is missing.
unfoldable pub update :
    Text → (List Text → List Text) → List (Text × List Text) → List (Text × List Text)
update key f [] = (key, f []) ∷ []
update key f ((k, vs) ∷ m) = if text_eq k key then (k, f vs) ∷ m else (k, vs) ∷ update key f m

unfoldable pub delete : Text → List (Text × List Text) → List (Text × List Text)
delete key [] = []
delete key ((k, vs) ∷ m) = if text_eq k key then delete key m else (k, vs) ∷ delete key m

-- `get_all`
unfoldable pub get_all : Text → Header → List Text
unfolding values to_lower
get_all key h = values (to_lower key) h.headers

-- `_add_header(key, value, "push")` and `_add_header(key, value, "unshift")`
unfoldable pub push_header : Text → Text → Header → Header
unfolding update
push_header key value h = record h { headers = update key (λ vs. vs ++ value ∷ []) h.headers }

unfoldable pub unshift_header : Text → Text → Header → Header
unfolding update
unshift_header key value h = record h { headers = update key (λ vs. value ∷ vs) h.headers }

-- The test of `_remove_more`: the line begins with the key, whatever follows it.
unfoldable pub begins_with_key : Text → Text → Bool
begins_with_key key line = text_eq (to_lower (take (length key) line)) key

-- `_remove_more`: it removes the first line that fits and starts again from the top, so all go.
unfoldable pub remove_more : Text → List Text → List Text
unfolding begins_with_key
remove_more key [] = []
remove_more key (line ∷ rest) =
    if begins_with_key key line then remove_more key rest else line ∷ remove_more key rest

-- `remove`
unfoldable pub remove : Text → Header → Header
unfolding delete remove_more
remove key h =
    let k = to_lower key in
    record { headers = delete k h.headers; header_list = remove_more k h.header_list }

-- `value.replace(/(\r?\n)*$/, '')`: the line ends at the end of the value. The third argument is
-- what is left of the tail.
abbrev strip_step : ℕ → Text → Text → Text
strip_step c t (d ∷ s) = c ∷ d ∷ s
strip_step c [] [] = if c == 10 then [] else c ∷ []
strip_step c (d ∷ t) [] = if c == 10 || (c == 13 && d == 10) then [] else c ∷ []

unfoldable pub strip_line_ends : Text → Text
strip_line_ends [] = []
strip_line_ends (c ∷ t) = strip_step c t (strip_line_ends t)

-- `if (!key) key = 'X-Haraka-Blank'`
unfoldable pub or_blank : Text → Text
or_blank [] = text "X-Haraka-Blank"
or_blank (c ∷ key) = c ∷ key

unfoldable pub is_ascii : Text → Bool
is_ascii [] = true
is_ascii (c ∷ t) = leb c 127 && is_ascii t

-- A key of which toLowerCase is that of ASCII, and that is not inherited.
unfoldable pub is_own : Text → Bool
unfolding is_ascii is_inherited to_lower
is_own key = is_ascii key && not (is_inherited (to_lower key))

-- The value as it is stored: with no line ends behind it, and quoted-printable if it is not ASCII.
-- `encode` is haraka-utils' encode_qp with its soft line breaks taken out.
unfoldable pub stored_value : (Text → Text) → Text → Text
unfolding strip_line_ends is_ascii
stored_value encode value =
    let v = strip_line_ends value in
    if is_ascii v then v else text "=?UTF-8?q?" ++ (encode v ++ text "?=")

unfoldable pub header_line : Text → Text → Text
header_line key value = key ++ (text ": " ++ (value ++ 10 ∷ []))

-- `add`: in front
unfoldable pub add : (Text → Text) → Text → Text → Header → Header
unfolding or_blank stored_value unshift_header header_line
add encode key value h =
    let k = or_blank key in
    let v = stored_value encode value in
    let h' = unshift_header (to_lower k) v h in
    record h' { header_list = header_line k v ∷ h'.header_list }

-- `add_end`: at the end
unfoldable pub add_end : (Text → Text) → Text → Text → Header → Header
unfolding or_blank stored_value push_header header_line
add_end encode key value h =
    let k = or_blank key in
    let v = stored_value encode value in
    let h' = push_header (to_lower k) v h in
    record h' { header_list = h'.header_list ++ header_line k v ∷ [] }

-- /^[ \t]/
abbrev pub is_continuation : Text → Bool
is_continuation [] = false
is_continuation (c ∷ t) = c == 32 || c == 9

-- The first loop of `parse`: a continuation is joined to the last line of the list. With no line
-- before it the program writes to `header_list[-1]`, which no reader of the list sees.
abbrev join_last : Text → List Text → List Text
join_last line [] = []
join_last line (x ∷ []) = (x ++ line) ∷ []
join_last line (x ∷ y ∷ xs) = x ∷ join_last line (y ∷ xs)

unfoldable pub unfold_lines : List Text → List Text → List Text
unfold_lines list [] = list
unfold_lines list (line ∷ rest) =
    unfold_lines (if is_continuation line then join_last line list else list ++ line ∷ []) rest

abbrev skip_spaces : Text → Text
skip_spaces [] = []
skip_spaces (c ∷ t) = if is_space c then skip_spaces t else c ∷ t

-- /^([^\s:]*):\s*([\s\S]*)$/: the key and the value of a line
unfoldable pub split_line : Text → Option (Text × Text)
unfolding is_space
split_line [] = none
split_line (c ∷ t) =
    let rest = split_line t in
    if c == b':'
    then some ([], skip_spaces t)
    else if is_space c
    then none
    else elim rest [ none ↦ none | some (k, v) ↦ some (c ∷ k, v) ]

-- /^(?:([^\s:]*):\s*([\s\S]*)$|[ \t])/.test(line): a header, or its continuation
unfoldable pub is_header_line : Text → Bool
unfolding split_line
is_header_line line =
    is_continuation line || elim (split_line line) [ none ↦ false | some m ↦ true ]

-- The second loop of `parse`.
unfoldable pub index_lines : List Text → Header → Header
unfolding split_line push_header
index_lines [] h = h
index_lines (line ∷ rest) h =
    index_lines rest
      (elim (split_line line) [ none ↦ h | some (k, v) ↦ push_header (to_lower k) v h ])

-- `parse`
unfoldable pub parse : List Text → Header → Header
unfolding unfold_lines index_lines
parse lines h =
    let list = unfold_lines h.header_list lines in
    index_lines list (record h { header_list = list })
