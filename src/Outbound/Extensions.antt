-- ===== src/Outbound/Extensions.antt =====
-- outbound.js: `process_ehlo_data`'s loop: the extensions that a host announces in its reply to EHLO.
use haraka.Prelude.{
  Bool, true, false, Option, none, some, List, [], ◌∷◌, ◌&&◌, not, is_empty, leb, drop,
  if◌then◌else◌,
}
use haraka.Prelude.Text.{Text, text, text_eq, to_upper, is_space, starts_with, prepend}

-- smtp_properties: a value that is not there is `false`, `none` or no types.
pub record Properties : Type 0 where
  pub tls : Bool
  pub max_size : Option Text
  pub eightbitmime : Bool
  pub enh_status_codes : Bool
  pub auth : List Text

abbrev pub no_properties : Properties
no_properties = record {
  tls = false;
  max_size = none;
  eightbitmime = false;
  enh_status_codes = false;
  auth = [];
}

abbrev head_is_space : Text → Bool
unfolding is_space
head_is_space [] = false
head_is_space (c ∷ t) = is_space c

unfoldable skip_spaces : Text → Text
unfolding is_space
skip_spaces [] = []
skip_spaces (c ∷ t) = if is_space c then skip_spaces t else c ∷ t

unfoldable all_digits : Text → Bool
all_digits [] = true
all_digits (c ∷ t) = leb b'0' c && leb c b'9' && all_digits t

-- /^SIZE\s+(\d+)$/
unfoldable pub match_size : Text → Option Text
unfolding starts_with text skip_spaces all_digits
match_size r =
    let digits = skip_spaces (drop 4 r) in
    if starts_with (text "SIZE") r
      && head_is_space (drop 4 r)
      && not (is_empty digits)
      && all_digits digits
    then some digits
    else none

-- The last character of white space, where there is one before it.
unfoldable last_of_two : Text → Option Text
last_of_two [] = none
last_of_two (c ∷ []) = none
last_of_two (c ∷ d ∷ []) = some (d ∷ [])
last_of_two (c ∷ d ∷ e ∷ t) = last_of_two (d ∷ e ∷ t)

-- /^AUTH\s+(.+)$/ of a line without line ends: `\s+` leaves a character to `.+`.
unfoldable pub match_auth : Text → Option Text
unfolding starts_with text skip_spaces last_of_two
match_auth r =
    let rest = skip_spaces (drop 4 r) in
    if starts_with (text "AUTH") r && head_is_space (drop 4 r)
    then (if is_empty rest then last_of_two (drop 4 r) else some rest)
    else none

-- `t.split(/\s+/)`: the argument says whether the character before was white space.
unfoldable pub split_white : Bool → Text → List Text
unfolding is_space
split_white after [] = [] ∷ []
split_white after (c ∷ t) =
    let rest = split_white (is_space c) t in
    if is_space c then (if after then rest else [] ∷ rest) else prepend c rest

abbrev pub set_size : Option Text → Properties → Properties
set_size none p = p
set_size (some n) p = record p { max_size = some n }

abbrev pub set_auth : Option Text → Properties → Properties
unfolding split_white
set_auth none p = p
set_auth (some types) p = record p { auth = split_white false types }

-- A line of the reply.
unfoldable pub read_extension : Text → Properties → Properties
unfolding text_eq text to_upper match_size match_auth split_white
read_extension r p =
    if text_eq (to_upper r) (text "8BITMIME")
    then record p { eightbitmime = true }
    else if text_eq (to_upper r) (text "STARTTLS")
    then record p { tls = true }
    else if text_eq (to_upper r) (text "ENHANCEDSTATUSCODES")
    then record p { enh_status_codes = true }
    else set_auth (match_auth r) (set_size (match_size r) p)

unfoldable pub read_extensions : List Text → Properties → Properties
unfolding read_extension
read_extensions [] p = p
read_extensions (r ∷ rs) p = read_extensions rs (read_extension r p)
