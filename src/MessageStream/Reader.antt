-- ===== src/MessageStream/Reader.antt =====
-- messagestream.js: the reading side, `pipe` from a stream that is complete to its last chunk. The
-- reader does not pause.
use haraka.Prelude.{
  ℕ, zero, suc, ◌+◌, ◌/◌, ◌%◌, ◌^◌, Bool, false, Option, none, some, List, [], ◌∷◌, ◌++◌, ◌&&◌,
  ◌||◌, not, length, take, drop, is_empty, if◌then◌else◌, ◌==◌, leb, map,
}
use haraka.Prelude.Text.{Text, text_eq}
use haraka.ChunkEmitter
use haraka.ChunkEmitter.{fill_all, finish, concat}
use haraka.MessageStream.Writer.{MessageStream, is_crlf}

-- The options of `pipe`. A `buffer_size` of 0 is unset, and so is an empty `line_endings`.
pub record Options : Type 0 where
  pub line_endings : Text
  pub dot_stuffing : Bool
  pub ending_dot : Bool
  pub clamd_style : Bool
  pub buffer_size : ℕ

abbrev pub crlf : Text
crlf = 13 ∷ 10 ∷ []

abbrev pub endings : Options → Text
endings o = if is_empty o.line_endings then crlf else o.line_endings

-- `.replace(/\r?\n/g, end)`
unfoldable pub replace_ends : Text → Text → Text
replace_ends end [] = []
replace_ends end (c ∷ []) = if c == 10 then end else c ∷ []
replace_ends end (c ∷ d ∷ t) =
    let rest = replace_ends end (d ∷ t) in
    if c == 10 then end ++ rest else if c == 13 && d == 10 then rest else c ∷ rest

-- The header lines and the marker behind them: strings, whose bytes `encode` gives, as `new Buffer` of
-- a string does.
unfoldable pub header_fills : (Text → Text) → Options → List Text → List Text
unfolding replace_ends
header_fills encode o [] = []
header_fills encode o (h ∷ hs) =
    map (λ l. encode (replace_ends (endings o) l)) (h ∷ hs) ++ encode (endings o) ∷ []

-- One of two dots is taken off, of a line of four bytes or more.
unfoldable pub unstuff : Text → Text
unstuff (c ∷ d ∷ t) = if leb 2 (length t) && c == b'.' && d == b'.' then d ∷ t else c ∷ d ∷ t
unstuff t = t

-- The last `\r\n` to `\n`
unfoldable pub strip_cr : Text → Text
strip_cr [] = []
strip_cr (c ∷ []) = c ∷ []
strip_cr (c ∷ d ∷ []) = if c == 13 && d == 10 then d ∷ [] else c ∷ d ∷ []
strip_cr (c ∷ d ∷ e ∷ t) = c ∷ strip_cr (d ∷ e ∷ t)

-- A line as it is read.
unfoldable pub read_line : Options → Text → Text
unfolding unstuff strip_cr text_eq
read_line o line =
    let l = if o.dot_stuffing then line else unstuff line in
    if text_eq (endings o) (10 ∷ []) then strip_cr l else l

-- The line that ends the header in the buffer.
unfoldable pub is_eoh : Text → Bool
unfolding text_eq
is_eoh line = is_crlf line || text_eq line (10 ∷ [])

module _ (index_of_lf : Text → Option ℕ) (o : Options) (headers_done : Bool) where
  -- `process_buf`: what is filled into the emitter, and `headers_found_eoh` at the end. The lines up
  -- to the end of the header are left out if the header was sent; each round takes a line.
  unfoldable pub process_lines : ℕ → Text → Bool → List Text × Bool
  unfolding read_line is_eoh
  process_lines zero buf eoh = (if is_empty buf then [] else buf ∷ [], eoh)
  process_lines (suc n) buf eoh = elim (index_of_lf buf) [
    | none ↦ (if is_empty buf then [] else buf ∷ [], eoh)
    | some i ↦
        let line = take (i + 1) buf in
        let skipped = headers_done && not eoh in
        let rest = process_lines n (drop (i + 1) buf) (if skipped then is_eoh line else eoh) in
        (if skipped then rest.0 else read_line o line ∷ rest.0, rest.1)
  ]

  unfoldable pub process_buf : Text → Bool → List Text × Bool
  unfolding process_lines
  process_buf buf = process_lines (suc (length buf)) buf

  -- A call of it for each buffer.
  unfoldable pub process_bufs : List Text → Bool → List Text
  unfolding process_buf
  process_bufs [] eoh = []
  process_bufs (b ∷ bs) eoh = let (fills, eoh') = process_buf b eoh in fills ++ process_bufs bs eoh'

-- The body: the queue, if it holds something, and otherwise the file, as `cut` reads it.
unfoldable pub body_buffers : (Text → List Text) → MessageStream → List Text
body_buffers cut s = if is_empty s.queue then cut (concat s.file) else s.queue

-- What is filled into the emitter of the reader.
unfoldable pub read_fills :
    (Text → Text)
    → (Text → Option ℕ)
    → (Text → List Text)
    → Options
    → List Text
    → MessageStream
    → List Text
unfolding header_fills process_bufs body_buffers
read_fills encode index_of_lf cut o headers s =
    header_fills encode o headers
    ++ (process_bufs index_of_lf o (not (is_empty headers)) (body_buffers cut s) false
        ++ (if o.ending_dot then encode (b'.' ∷ endings o) ∷ [] else []))

-- `buf.writeUInt32BE(n, 0)`
unfoldable pub be32 : ℕ → Text
be32 n = (n / 2 ^ 24 % 2 ^ 8) ∷ (n / 2 ^ 16 % 2 ^ 8) ∷ (n / 2 ^ 8 % 2 ^ 8) ∷ (n % 2 ^ 8) ∷ []

-- The frames of a reader of clamd's style: the length before each chunk, and an empty chunk last.
unfoldable pub frames : List Text → List Text
unfolding be32
frames [] = be32 0 ∷ []
frames (c ∷ cs) = (be32 (length c) ++ c) ∷ frames cs

-- `pipe`: the chunks that are emitted.
unfoldable pub pipe :
    (Text → Text)
    → (Text → Option ℕ)
    → (Text → List Text)
    → Options
    → List Text
    → MessageStream
    → List Text
unfolding read_fills fill_all finish frames
pipe encode index_of_lf cut o headers s =
    let (e, chunks) =
      fill_all (read_fills encode index_of_lf cut o headers s)
        (ChunkEmitter.create o.buffer_size) in
    let all = chunks ++ (finish e).1 in if o.clamd_style then frames all else all

-- `get_data`: the text that `buf += chunk` makes of the chunks, each of them decoded by itself.
unfoldable pub get_data :
    (Text → Text)
    → (Text → Text)
    → (Text → Option ℕ)
    → (Text → List Text)
    → Options
    → List Text
    → MessageStream
    → Text
unfolding pipe
get_data decode encode index_of_lf cut o headers s =
    concat (map decode (pipe encode index_of_lf cut o headers s))
