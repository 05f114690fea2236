-- ===== src/Outbound/Todo.antt =====
-- outbound.js: a file of the queue: the length of the todo, the todo's text and the message.
use haraka.Prelude.{
  ℕ, ◌+◌, ◌*◌, ◌^◌, true, false, Option, none, some, List, [], ◌∷◌, ◌++◌, ◌==◌, leb, length, take,
  drop, if◌then◌else◌,
}
use haraka.Prelude.Text.{Text}
use haraka.MessageStream.Writer.{MessageStream}
use haraka.MessageStream.Reader.{Options, crlf, be32, pipe}
use haraka.ChunkEmitter.{concat}

-- `build_todo`: what it writes, of the text of JSON.stringify in bytes.
unfoldable pub build_todo : Text → Text
unfolding be32
build_todo todo_str = be32 (length todo_str) ++ todo_str

-- The options of `process_delivery`: { line_endings: '\r\n', dot_stuffing: true, ending_dot: false }.
unfoldable pub file_options : ℕ → Options
file_options buffer_size = record {
  line_endings = crlf;
  dot_stuffing = true;
  ending_dot = false;
  clamd_style = false;
  buffer_size = buffer_size;
}

-- `process_delivery`: the bytes of the file, of the chunks that `pipe` writes behind the todo.
unfoldable pub process_delivery :
    (Text → Text)
    → (Text → Option ℕ)
    → (Text → List Text)
    → ℕ
    → List Text
    → Text
    → MessageStream
    → Text
unfolding build_todo file_options pipe
process_delivery encode index_of_lf cut buffer_size headers todo_str s =
    build_todo todo_str ++ concat (pipe encode index_of_lf cut (file_options buffer_size) headers s)

-- `read_todo`: the todo's text with `data_start`, an end before the right amount of data,
-- a range that createReadStream refuses (its end lies before its start), or less than the four bytes
-- that the code counts on.
pub data Todo : Type 0 where
  ready : Text → ℕ → Todo
  wrong_amount refused too_short : Todo

-- (buf[0] << 24) + ..., which is negative if the first byte is 128 or more: none.
unfoldable pub todo_length : ℕ → ℕ → ℕ → ℕ → Option ℕ
todo_length b0 b1 b2 b3 =
    if leb 128 b0 then none else some (b0 * 2 ^ 24 + b1 * 2 ^ 16 + b2 * 2 ^ 8 + b3)

unfoldable pub read_part : Text → Option ℕ → Todo
read_part rest none = refused
read_part rest (some n) =
    if n == 0
    then refused
    else (if length (take n rest) == n then ready (take n rest) (n + 4) else wrong_amount)

unfoldable pub read_todo : Text → Todo
unfolding todo_length read_part
read_todo (b0 ∷ b1 ∷ b2 ∷ b3 ∷ rest) = read_part rest (todo_length b0 b1 b2 b3)
read_todo [] = too_short
read_todo (_ ∷ []) = too_short
read_todo (_ ∷ _ ∷ []) = too_short
read_todo (_ ∷ _ ∷ _ ∷ []) = too_short

-- `data_stream`: the file from `data_start` on.
unfoldable pub data_stream : ℕ → Text → Text
data_stream data_start file = drop data_start file

-- `split_to_new_recipients`: what the streams and the rename do; the first error is told.
pub data Writing : Type 0 where
  all_written writer_failed reader_failed rename_failed : Writing

-- The item itself under another reference, the new file of the text of the todo with the new
-- recipients, or no file, and so many calls of `bounce` of the item.
pub data Split : Type 0 where
  same_item : Split
  new_file : Text → Split
  bounced : ℕ → Split

-- An error of the writer has two listeners, each of which bounces the item.
unfoldable pub split_file : Writing → Text → Split
split_file all_written file = new_file file
split_file writer_failed file = bounced 2
split_file reader_failed file = bounced 1
split_file rename_failed file = bounced 1

unfoldable pub split_to_new_recipients : Writing → ℕ → ℕ → Text → ℕ → Text → Split
unfolding build_todo data_stream split_file
split_to_new_recipients w recipients all new_todo data_start file =
    if recipients == all
    then same_item
    else split_file w (build_todo new_todo ++ data_stream data_start file)
