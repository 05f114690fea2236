-- ===== src/MessageStream/Writer.antt =====
-- messagestream.js: the writing side. A file is the list of the chunks written to it; the stream of
-- the file opens, fills up and drains at the events that say so, and the callers of `_write` by
-- setImmediate are counted.
use haraka.Prelude.{
  ℕ, ◌+◌, ◌-◌, Bool, true, false, Option, none, some, List, [], ◌∷◌, ◌++◌, ◌&&◌, ◌||◌, not, length,
  take, drop, is_empty, if◌then◌else◌, ◌==◌, ltb,
}
use haraka.Prelude.Text.{Text, text, text_eq, is_space}
use haraka.ChunkEmitter
use haraka.ChunkEmitter.{ChunkEmitter, fill, finish}

-- An entry of `idx`.
pub record Span : Type 0 where
  pub start : ℕ
  pub stop : Option ℕ

pub record MessageStream : Type 0 where
  pub write_ce : Option ChunkEmitter
  pub bytes_read : ℕ
  -- `state`: STATE_BODY, or STATE_HEADERS
  pub in_body : Bool
  pub idx : List (Text × Span)
  pub end_called : Bool
  pub end_callback : Bool
  -- the calls of it
  pub ended : ℕ
  pub buffered : ℕ
  pub queue : List Text
  pub max_data_inflight : ℕ
  -- `none` is -1
  pub buffer_max : Option ℕ
  pub spooling : Bool
  pub fd : Bool
  pub open_pending : Bool
  pub write_pending : Bool
  pub write_complete : Bool
  -- `listeners('data').length`
  pub has_reader : Bool
  pub file : List Text
  pub scheduled_writes : ℕ
  pub scheduled_reads : ℕ

-- `new MessageStream(config, id, headers)`
unfoldable pub create : Option ℕ → MessageStream
create spool_after = record {
  write_ce = none;
  bytes_read = 0;
  in_body = false;
  idx = [];
  end_called = false;
  end_callback = false;
  ended = 0;
  buffered = 0;
  queue = [];
  max_data_inflight = 0;
  buffer_max = spool_after;
  spooling = false;
  fd = false;
  open_pending = false;
  write_pending = false;
  write_complete = false;
  has_reader = false;
  file = [];
  scheduled_writes = 0;
  scheduled_reads = 0;
}

unfoldable pub has_key : Text → List (Text × Span) → Bool
unfolding text_eq
has_key key [] = false
has_key key ((k, s) ∷ m) = text_eq k key || has_key key m

unfoldable pub put : Text → Span → List (Text × Span) → List (Text × Span)
unfolding text_eq
put key span [] = (key, span) ∷ []
put key span ((k, s) ∷ m) = if text_eq k key then (k, span) ∷ m else (k, s) ∷ put key span m

-- `this.idx[key].end = n`, if the entry is there
unfoldable pub set_end : Text → ℕ → List (Text × Span) → List (Text × Span)
unfolding text_eq
set_end key n [] = []
set_end key n ((k, s) ∷ m) =
    if text_eq k key then (k, record s { stop = some n }) ∷ m else (k, s) ∷ set_end key n m

abbrev pub is_crlf : Text → Bool
is_crlf t = text_eq t (13 ∷ 10 ∷ [])

-- The end of the header, in `add_line`; `bytes_read` counts this line.
unfoldable pub index_header : Text → MessageStream → MessageStream
unfolding put text text_eq
index_header line s =
    if not s.in_body && is_crlf line
    then record s {
      idx =
          put (text "body") (record { start = s.bytes_read; stop = none })
            (put (text "headers") (record { start = 0; stop = some (s.bytes_read - length line) })
              s.idx);
      in_body = true;
    }
    else s

abbrev trim_step : ℕ → Text → Text
trim_step c [] = if is_space c then [] else c ∷ []
trim_step c (d ∷ t) = c ∷ d ∷ t

-- /\s*$/ taken off
unfoldable pub trim_end : Text → Text
unfolding is_space
trim_end [] = []
trim_end (c ∷ t) = trim_step c (trim_end t)

abbrev pub ends_in_dashes : Text → Bool
ends_in_dashes [] = false
ends_in_dashes (c ∷ []) = false
ends_in_dashes (c ∷ d ∷ []) = c == b'-' && d == b'-'
ends_in_dashes (c ∷ d ∷ e ∷ t) = ends_in_dashes (d ∷ e ∷ t)

abbrev pub begins_with_dashes : Text → Bool
begins_with_dashes (c ∷ d ∷ t) = c == b'-' && d == b'-'
begins_with_dashes t = false

-- A line that begins with `--`, in the body: the start of a part, or the end of the parts.
unfoldable pub index_boundary : Text → MessageStream → MessageStream
unfolding trim_end set_end has_key put
index_boundary line s =
    let boundary = trim_end (drop 2 line) in
    if ends_in_dashes (trim_end line)
    then record s { idx = set_end (take (length boundary - 2) boundary) s.bytes_read s.idx }
    else if has_key boundary s.idx
    then s
    else record s {
      idx = put boundary (record { start = s.bytes_read - length line; stop = none }) s.idx;
    }

-- The index that `add_line` builds.
unfoldable pub index_line : Text → MessageStream → MessageStream
unfolding index_header index_boundary
index_line line s =
    let s' = index_header line (record s { bytes_read = s.bytes_read + length line }) in
    if s'.in_body && ltb 4 (length line) && begins_with_dashes line
    then index_boundary line s'
    else s'

-- Have we completely finished writing all data?
abbrev pub is_finished : MessageStream → Bool
is_finished s = s.end_called && (not s.spooling || is_empty s.queue)

-- The data is there: the callback, and the reader that may wait.
unfoldable pub complete : MessageStream → MessageStream
complete s = record s {
  ended = if s.end_callback then s.ended + 1 else s.ended;
  scheduled_reads =
      if s.has_reader && not s.write_complete then s.scheduled_reads + 1 else s.scheduled_reads;
  write_complete = true;
}

-- `buffered > buffer_max`
abbrev pub over_limit : MessageStream → Bool
over_limit s = elim s.buffer_max [ none ↦ false | some n ↦ ltb n s.buffered ]

-- May the queue stay in memory?
abbrev pub in_memory : MessageStream → Bool
in_memory s = elim s.buffer_max [ none ↦ true | some n ↦ ltb s.buffered n && not s.spooling ]

-- The file is opened, unless it is being opened.
abbrev pub open_file : MessageStream → MessageStream
open_file s = record s { open_pending = true }

abbrev pub note_inflight : MessageStream → MessageStream
note_inflight s = record s {
  max_data_inflight =
      if ltb s.max_data_inflight s.buffered then s.buffered else s.max_data_inflight;
}

-- `write_ce`, which the first line creates
abbrev pub emitter : MessageStream → ChunkEmitter
emitter s = elim s.write_ce [ none ↦ ChunkEmitter.create 0 | some e ↦ e ]

-- What happens to the writing side: a line; the events 'open' and 'drain' of the file; the calls by
-- setImmediate.
pub data Event : Type 0 where
  added : Text → Event
  opened drained immediate : Event

module _ (accepts : List Text → Text → Bool) where
  -- A chunk of the queue goes to the file. `accepts` is what `ws.write` returns for it behind what
  -- the file has; `again` is the call of `_write` at the end.
  unfoldable pub send :
      (MessageStream → MessageStream) → Text → List Text → MessageStream → MessageStream
  send again chunk rest s =
      let s' = record s {
        queue = rest;
        buffered = s.buffered - length chunk;
        file = s.file ++ chunk ∷ [];
      } in
      if accepts s.file chunk
      then (if is_finished s' then again s' else s')
      else record s' { write_pending = true }

  -- `_write`, from where the queue has to go to the file.
  unfoldable pub spool : (MessageStream → MessageStream) → List Text → MessageStream → MessageStream
  unfolding send
  spool again [] s = s
  spool again (chunk ∷ rest) s = if s.fd then send again chunk rest s else open_file s

  -- `_write`, behind its test for operations that are pending.
  unfoldable pub write_queue : (MessageStream → MessageStream) → MessageStream → MessageStream
  unfolding complete spool
  write_queue again s =
      let s' = record s { spooling = s.spooling || over_limit s } in
      if is_finished s' then complete s' else if in_memory s' then s' else spool again s'.queue s'

  -- `_write()`, with the call of itself that it may make.
  unfoldable pub write_with : (MessageStream → MessageStream) → MessageStream → MessageStream
  unfolding write_queue
  write_with again s =
      let s' = note_inflight s in
      if s'.open_pending || s'.write_pending then s' else write_queue again s'

  -- `_write()`. It calls itself only to find the stream finished, so it does no further call.
  unfoldable pub write : MessageStream → MessageStream
  unfolding write_with
  write = write_with (write_with (λ s. s))

  -- `_write(data)`
  unfoldable pub write_chunk : Text → MessageStream → MessageStream
  unfolding write
  write_chunk chunk s =
      write (record s { buffered = s.buffered + length chunk; queue = s.queue ++ chunk ∷ [] })

  -- A call of it for each chunk that the emitter gives.
  unfoldable pub write_chunks : List Text → MessageStream → MessageStream
  unfolding write_chunk
  write_chunks [] s = s
  write_chunks (c ∷ cs) s = write_chunks cs (write_chunk c s)

  -- `add_line`
  unfoldable pub add_line : Text → MessageStream → MessageStream
  unfolding index_line write_chunks
  add_line line s =
      let (e, chunks) = fill line (emitter s) in
      write_chunks chunks (record (index_line line s) { write_ce = some e })

  -- `add_line_end(cb)`; it throws where no line was added.
  unfoldable pub add_line_end : Bool → MessageStream → Option MessageStream
  unfolding set_end write_chunks write text
  add_line_end cb s = elim s.write_ce [
    | none ↦ none
    | some e ↦
        let s' = record s {
          idx = set_end (text "body") s.bytes_read s.idx;
          end_called = true;
          end_callback = cb || s.end_callback;
        } in
        let (e', chunks, emitted) = finish e in
        let s'' = write_chunks chunks (record s' { write_ce = some e' }) in
        some (if emitted then s'' else write s'')
  ]

  unfoldable pub step : Event → MessageStream → MessageStream
  unfolding add_line write
  step (added l) s = add_line l s
  step opened s = record s {
    fd = true;
    open_pending = false;
    scheduled_writes = s.scheduled_writes + 1;
  }
  step drained s = record s { write_pending = false; scheduled_writes = s.scheduled_writes + 1 }
  step immediate s = write (record s { scheduled_writes = s.scheduled_writes - 1 })

  unfoldable pub run : List Event → MessageStream → MessageStream
  unfolding step
  run [] s = s
  run (e ∷ es) s = run es (step e s)
