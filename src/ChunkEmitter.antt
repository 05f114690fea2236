-- ===== src/ChunkEmitter.antt =====
-- chunkemitter.js: a stream of buffers cut into chunks of one size. A state is returned with the
-- chunks that were emitted.
pub mod Copy
pub mod Stream
use haraka.Prelude.{
  ℕ, zero, suc, ◌+◌, ◌-◌, Bool, true, false, List, [], ◌∷◌, ◌++◌, if◌then◌else◌, ◌==◌, ltb, length,
  take, drop, is_empty, not,
}
use haraka.Prelude.Text.{Text}

-- The allocated buffer is kept as its first `pos` bytes.
pub record ChunkEmitter : Type 0 where
  pub buffer_size : ℕ
  pub allocated : Bool
  pub buf : Text
  pub bufs : List Text
  pub bufs_size : ℕ

-- `new ChunkEmitter(size)`; a size of 0 is 64 KB.
unfoldable pub create : ℕ → ChunkEmitter
create size = record {
  buffer_size = if size == 0 then 65536 else size;
  allocated = false;
  buf = [];
  bufs = [];
  bufs_size = 0;
}

abbrev pub pos : ChunkEmitter → ℕ
pos e = length e.buf

-- `Buffer.concat`
abbrev pub concat : List Text → Text
concat [] = []
concat (b ∷ bs) = b ++ concat bs

abbrev pub is_full : ChunkEmitter → Bool
is_full e = e.buffer_size - pos e == 0

-- What a round emits, and what stays in the buffer that it writes to.
unfoldable pub emitted : ChunkEmitter → List Text
emitted e = if is_full e then e.buf ∷ [] else []

unfoldable pub kept : ChunkEmitter → Text
kept e = if is_full e then [] else e.buf

-- The `while` loop of `fill`: a full buffer is emitted when more input comes, and as much is written
-- as there is room. Each round takes a byte or more, so the length of the input bounds them.
unfoldable pub copy : ℕ → Text → ChunkEmitter → ChunkEmitter × List Text
unfolding emitted kept
copy zero input e = (e, [])
copy (suc n) [] e = (e, [])
copy (suc n) (c ∷ input) e =
    let remaining = e.buffer_size - length (kept e) in
    let next = record e { buf = kept e ++ take remaining (c ∷ input) } in
    let rest = copy n (drop remaining (c ∷ input)) next in (rest.0, emitted e ++ rest.1)

abbrev pub copy_all : Text → ChunkEmitter → ChunkEmitter × List Text
copy_all input e = copy (length input) input e

-- `fill(input)`: no buffer is allocated until the inputs so far, and the last one twice, are more
-- than a buffer.
unfoldable pub fill : Text → ChunkEmitter → ChunkEmitter × List Text
unfolding copy
fill input e =
    let bufs = e.bufs ++ input ∷ [] in
    let size = e.bufs_size + length input in
    if e.allocated
    then copy_all input e
    else if ltb e.buffer_size (length input + size)
    then copy_all (concat bufs) (record e { allocated = true; bufs = []; bufs_size = 0 })
    else (record e { bufs = bufs; bufs_size = size }, [])

-- What `end()` emits: the inputs that were kept apart, or the part of the buffer that is used.
unfoldable pub last_chunks : ChunkEmitter → List Text
last_chunks e =
    if ltb 0 e.bufs_size then concat e.bufs ∷ [] else if ltb 0 (pos e) then e.buf ∷ [] else []

-- `end()`: the result says if something was emitted.
unfoldable pub finish : ChunkEmitter → ChunkEmitter × List Text × Bool
unfolding last_chunks
finish e = (
  record e { allocated = false; buf = []; bufs = []; bufs_size = 0 },
  last_chunks e,
  not (is_empty (last_chunks e)),
)

-- `fill` for each input.
unfoldable pub fill_all : List Text → ChunkEmitter → ChunkEmitter × List Text
unfolding fill
fill_all [] e = (e, [])
fill_all (i ∷ is) e = let (e', out) = fill i e in let (f, more) = fill_all is e' in (f, out ++ more)
