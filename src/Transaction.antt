-- ===== src/Transaction.antt =====
-- transaction.js: one message on its way in, from MAIL to the end of DATA. The message stream is the
-- list of the lines added to it; attachment hooks, the banner and body filters configure the body
-- parser, which `Env` stands for.
pub mod Data
use haraka.Prelude.{
  ℕ, ◌+◌, Bool, true, false, Option, none, some, List, [], ◌∷◌, ◌++◌, ◌&&◌, ◌||◌, not, length, take,
  drop, is_empty, if◌then◌else◌, ◌==◌, ltb,
}
use haraka.Prelude.Text.{Text}
use haraka.Env.{Env, Address}
use haraka.Header
use haraka.Header.{Header}

-- `rcpt_count` and `msg_count`
pub record Count : Type 0 where
  pub accept : ℕ
  pub tempfail : ℕ
  pub reject : ℕ

pub data Action : Type 0 where
  accept tempfail reject : Action

abbrev pub no_count : Count
no_count = record { accept = 0; tempfail = 0; reject = 0 }

-- `count[action]++`
unfoldable pub incr : Action → Count → Count
incr accept n = record n { accept = n.accept + 1 }
incr tempfail n = record n { tempfail = n.tempfail + 1 }
incr reject n = record n { reject = n.reject + 1 }

-- What is added to the transaction's result store.
pub data Result : Type 0 where
  from_pass : Text → Result
  from_fail : List Text → Result
  recipient : Text → Action → List Text → Result
  queue_pass queue_fail queue_msg : List Text → Result

pub record Transaction : Type 0 where
  pub uuid : Text
  pub mail_from : Option Address
  pub rcpt_to : List Address
  pub header_lines : List Text
  pub data_bytes : ℕ
  pub header_pos : ℕ
  pub found_hb_sep : Bool
  pub parse_body : Bool
  -- the lines given to the body parser; `none` is a body that is not made yet
  pub body : Option (List Text)
  pub header : Header
  pub message_stream : List Text
  pub discard_data : Bool
  pub resetting : Bool
  pub rcpt_count : Count
  pub authentication_results : List Text
  pub data_line_length_exceeded : Bool
  pub results : List Result

-- `new Transaction` and `createTransaction`
unfoldable pub create : Text → Transaction
create uuid = record {
  uuid = uuid;
  mail_from = none;
  rcpt_to = [];
  header_lines = [];
  data_bytes = 0;
  header_pos = 0;
  found_hb_sep = false;
  parse_body = false;
  body = none;
  header = Header.empty;
  message_stream = [];
  discard_data = false;
  resetting = false;
  rcpt_count = no_count;
  authentication_results = [];
  data_line_length_exceeded = false;
  results = [];
}

-- `ensure_body`
unfoldable pub ensure_body : Transaction → Transaction
ensure_body t = record t { body = elim t.body [ none ↦ some [] | some ls ↦ some ls ] }

abbrev pub body_lines : Transaction → List Text
body_lines t = elim t.body [ none ↦ [] | some ls ↦ ls ]

-- `if (!this.discard_data) this.message_stream.add_line(line)`
unfoldable pub add_line : Text → Transaction → Transaction
add_line line t =
    if t.discard_data then t else record t { message_stream = t.message_stream ++ line ∷ [] }

-- The line that ends the header: `\n`, or a line that begins with `\r\n`.
unfoldable pub is_separator : Text → Bool
is_separator [] = false
is_separator (c ∷ []) = c == 10
is_separator (c ∷ d ∷ t) = c == 10 || (c == 13 && d == 10)

-- `if (line[0] === 0x2E) line = line.slice(1)`
unfoldable pub strip_dot : Text → Text
strip_dot [] = []
strip_dot (c ∷ t) = if c == b'.' then t else c ∷ t

-- `.replace(/\r\n$/, '\n')`
unfoldable pub crlf_to_lf : Text → Text
crlf_to_lf [] = []
crlf_to_lf (c ∷ []) = c ∷ []
crlf_to_lf (c ∷ d ∷ []) = if c == 13 && d == 10 then 10 ∷ [] else c ∷ d ∷ []
crlf_to_lf (c ∷ d ∷ e ∷ t) = c ∷ crlf_to_lf (d ∷ e ∷ t)

-- Is this code a line terminator, after which /^/m matches?
abbrev pub ends_line : ℕ → Bool
ends_line c = c == 10 || c == 13

-- `.replace(/^\./gm, '..')`; the first argument says whether a line begins here.
unfoldable pub stuff_dots : Bool → Text → Text
stuff_dots b [] = []
stuff_dots b (c ∷ t) =
    let rest = stuff_dots (ends_line c) t in if b && c == b'.' then c ∷ c ∷ rest else c ∷ rest

-- `.replace(/\r?\n/gm, '\r\n')`
unfoldable pub lf_to_crlf : Text → Text
lf_to_crlf [] = []
lf_to_crlf (c ∷ []) = if c == 10 then 13 ∷ 10 ∷ [] else c ∷ []
lf_to_crlf (c ∷ d ∷ t) =
    let rest = lf_to_crlf (d ∷ t) in
    if c == 10 then 13 ∷ 10 ∷ rest else if c == 13 && d == 10 then rest else c ∷ rest

unfoldable pub restuff : Text → Text
unfolding stuff_dots lf_to_crlf
restuff t = lf_to_crlf (stuff_dots true t)

-- The end of the header, in `add_data`.
unfoldable pub end_header : Transaction → Transaction
unfolding ensure_body
end_header t =
    let t' = record t {
      header = Header.parse t.header_lines t.header;
      header_pos = length t.header_lines;
      found_hb_sep = true;
    } in
    if t.parse_body then ensure_body t' else t'

-- One more header line, in `add_data`.
unfoldable pub add_header_line : Text → Transaction → Transaction
unfolding strip_dot crlf_to_lf
add_header_line line t = record t {
  header_lines = t.header_lines ++ crlf_to_lf (strip_dot line) ∷ [];
}

-- A line behind the header, handed to the body parser; nothing is added while that holds it back.
unfoldable pub add_body_line : Env → Text → Transaction → Transaction
unfolding strip_dot crlf_to_lf add_line restuff
add_body_line env line t =
    let l = crlf_to_lf (strip_dot line) in
    let out = env.body_line (body_lines t) l in
    let t' = record t { body = some (body_lines t ++ l ∷ []) } in
    if is_empty out then t' else add_line (restuff out) t'

-- `add_data`
unfoldable pub add_data : Env → Text → Transaction → Transaction
unfolding is_separator end_header add_header_line add_line add_body_line strip_dot
add_data env line t =
    if t.header_pos == 0 && is_separator line
    then add_line line (end_header t)
    else if t.header_pos == 0
    then if ltb (length t.header_lines) env.max_header_lines
      then add_line (strip_dot line) (add_header_line line t)
      else add_line line t
    else if t.parse_body
    then add_body_line env line t
    else add_line line t

-- The loop of `end_data`: the index of the last line before the first that is no header line; the
-- counter `i` runs along, and `last` is `header_pos` so far.
unfoldable pub last_header_line : ℕ → ℕ → List Text → ℕ
last_header_line i last [] = last
last_header_line i last (line ∷ rest) =
    let next = last_header_line (i + 1) i rest in if Header.is_header_line line then next else last

-- The lines that a busted header left over, handed to the body parser; their output is dropped.
unfoldable pub feed_body : List Text → Transaction → Transaction
unfolding ensure_body
feed_body lines t = let t' = ensure_body t in record t' { body = some (body_lines t' ++ lines) }

-- The first `if` of `end_data`: no separator was seen.
unfoldable pub end_busted_header : Transaction → Transaction
unfolding last_header_line feed_body
end_busted_header t =
    let pos = last_header_line 0 0 t.header_lines in
    let lines = take (pos + 1) t.header_lines in
    let t' = record t {
      header_lines = lines;
      header = Header.parse lines t.header;
      header_pos = pos;
    } in
    if t.parse_body then feed_body (drop (pos + 1) t.header_lines) t' else t'

-- The second `if` of `end_data`: what the body parser still holds.
unfoldable pub flush_body : Env → Transaction → Transaction
unfolding add_line restuff
flush_body env t =
    let out = env.body_end (body_lines t) in if is_empty out then t else add_line (restuff out) t

-- `end_data`, up to the call of its callback
unfoldable pub end_data : Env → Transaction → Transaction
unfolding end_busted_header flush_body
end_data env t =
    let t' =
      if not t.found_hb_sep && not (is_empty t.header_lines) then end_busted_header t else t in
    if not (t'.header_pos == 0) && t'.parse_body then flush_body env t' else t'

-- `reset_headers`
unfoldable pub reset_headers : Transaction → Transaction
reset_headers t = record t { header_pos = length t.header.header_list }

-- `if (this.header_pos > 0) this.reset_headers()`
unfoldable pub reset_if_parsed : Transaction → Transaction
unfolding reset_headers
reset_if_parsed t = if ltb 0 t.header_pos then reset_headers t else t

unfoldable pub add_header : Env → Text → Text → Transaction → Transaction
unfolding reset_if_parsed
add_header env key value t =
    reset_if_parsed (record t { header = Header.add_end env.encode_qp key value t.header })

unfoldable pub add_leading_header : Env → Text → Text → Transaction → Transaction
unfolding reset_if_parsed
add_leading_header env key value t =
    reset_if_parsed (record t { header = Header.add env.encode_qp key value t.header })

unfoldable pub remove_header : Text → Transaction → Transaction
unfolding reset_if_parsed
remove_header key t = reset_if_parsed (record t { header = Header.remove key t.header })
