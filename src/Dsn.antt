-- ===== src/Dsn.antt =====
-- dsn.js: enhanced status codes (RFC 3463). A code is the text of its digits.
pub mod Statuses
pub mod Classes
use haraka.Prelude.{
  ℕ, Bool, true, false, Option, none, some, List, [], ◌∷◌, ◌++◌, ◌&&◌, ◌||◌, ◌==◌, leb, get_elem?,
  is_empty, if◌then◌else◌,
}
use haraka.Prelude.Text.{Text, text}
use haraka.Dsn.Statuses.{
  enum_status_codes, Status, spec, auth_pass_transition_needed, auth_required, auth_succeeded,
  auth_temp_fail, bad_sender_ip, no_such_user, relaying_denied, temp_resolver_failed, too_many_hops,
}

abbrev pub is_digit : ℕ → Bool
is_digit c = leb b'0' c && leb c b'9'

-- /^[245]\d{2}/
unfoldable pub is_code : Text → Bool
is_code (a ∷ b ∷ c ∷ t) = (a == b'2' || a == b'4' || a == b'5') && is_digit b && is_digit c
is_code t = false

-- The `msg` of a status: none, a text, or an array.
pub data Reason : Type 0 where
  nothing : Reason
  one : Text → Reason
  many : List Text → Reason

pub record Dsn : Type 0 where
  pub code : Text
  pub msg : Reason
  pub cls : Option ℕ
  pub sub : ℕ
  pub det : ℕ
  pub default_msg : Text
  pub reply : List Text

-- The code that was given, if it is one; or else the default, or else 450.
abbrev pub default_code : Option Text → Text
default_code none = text "450"
default_code (some d) = d

unfoldable pub choose_code : Option Text → Option Text → Text
unfolding is_code text
choose_code none def = default_code def
choose_code (some c) def = if is_code c then c else default_code def

abbrev pub first_char : Text → Option ℕ
first_char [] = none
first_char (c ∷ t) = some c

abbrev pub or_empty : Option Text → Text
or_empty none = []
or_empty (some t) = t

unfoldable pub default_message : ℕ → ℕ → Text
unfolding enum_status_codes
default_message sub det = elim (get_elem? enum_status_codes sub) [
  | none ↦ []
  | some row ↦ or_empty (get_elem? row det)
]

-- `[cls, sub, det].join('.') + ' ' + m`; `show` is the language's String(n)
unfoldable pub status_line : (ℕ → Text) → Option ℕ → ℕ → ℕ → Text → Text
status_line show cls sub det m =
    elim cls [ none ↦ text "NaN" | some c ↦ c ∷ [] ]
    ++ (b'.' ∷ show sub)
    ++ (b'.' ∷ show det)
    ++ (b' ' ∷ m)

-- The loop over an array stops at its end, or at an empty text.
unfoldable pub status_lines : (Text → Text) → List Text → List Text
status_lines line [] = []
status_lines line ([] ∷ ms) = []
status_lines line ((c ∷ m) ∷ ms) = line (c ∷ m) ∷ status_lines line ms

-- What the loop leaves of the array.
unfoldable pub left_over : List Text → List Text
left_over [] = []
left_over ([] ∷ ms) = ms
left_over ((c ∷ m) ∷ ms) = left_over ms

abbrev pub or_default : Reason → Text → Text
or_default (one (c ∷ m)) d = c ∷ m
or_default m d = d

abbrev pub reply_of : (Text → Text) → Reason → Text → List Text
reply_of line (many ms) d = status_lines line ms
reply_of line m d = line (or_default m d) ∷ []

abbrev pub rest_of : Reason → Reason
rest_of (many ms) = many (left_over ms)
rest_of m = m

-- `new DSN(code, msg, def, subject, detail)`
unfoldable pub new_dsn : (ℕ → Text) → Option Text → Reason → Option Text → ℕ → ℕ → Dsn
unfolding choose_code default_message status_line status_lines left_over
new_dsn show code msg def sub det =
    let k = choose_code code def in
    let d = default_message sub det in
    record {
      code = k;
      msg = rest_of msg;
      cls = first_char k;
      sub = sub;
      det = det;
      default_msg = d;
      reply = reply_of (status_line show (first_char k) sub det) msg d;
    }

-- `create`
unfoldable pub create : (ℕ → Text) → Option Text → Reason → ℕ → ℕ → Dsn
unfolding new_dsn
create show code msg sub det = new_dsn show code msg none sub det

-- The message that a function puts in the place of none.
unfoldable pub usual_message : Status → Option Text
unfolding text
usual_message no_such_user = some (text "No such user")
usual_message temp_resolver_failed = some (text "Temporary address resolution failure")
usual_message too_many_hops = some (text "Too many hops")
usual_message bad_sender_ip = some (text "Bad sender IP")
usual_message relaying_denied = some (text "Relaying denied")
usual_message auth_succeeded = some (text "Authentication Succeeded")
usual_message auth_pass_transition_needed = some (text "A password transition is needed")
usual_message auth_temp_fail = some (text "Temporary authentication failure")
usual_message auth_required = some (text "Authentication required")
usual_message s = none

-- `msg || '...'`
abbrev pub or_usual : Reason → Option Text → Reason
or_usual nothing (some t) = one t
or_usual (one []) (some t) = one t
or_usual m t = m

-- `exports.<status>(msg, code)`
unfoldable pub dsn : (ℕ → Text) → Status → Reason → Option Text → Dsn
unfolding new_dsn spec usual_message
dsn show s msg code =
    let p = spec s in
    new_dsn show code (or_usual msg (usual_message s)) (some p.def) p.subject p.detail
