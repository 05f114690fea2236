-- ===== src/MessageStream/Kept.antt =====
-- messagestream.js: no byte is lost or moved on its way to the queue and the file.
use mathlib.Core.List.{append_assoc, append-nil}
use haraka.Prelude.{
  ℕ, ◌+◌, ◌-◌, ◌≡◌, refl, sym, ◌∙◌, ap, Bool, Option, none, some, List, [], ◌∷◌, ◌++◌, length,
  arith, length-append,
}
use haraka.Prelude.Text.{Text}
use haraka.ChunkEmitter
use haraka.ChunkEmitter.{ChunkEmitter, concat, fill, finish}
use haraka.ChunkEmitter.Copy.{IsValid, pending}
use haraka.ChunkEmitter.Stream.{fill-Filled, create-IsValid}
use haraka.MessageStream.Writer.{
  MessageStream, create, index_header, index_boundary, index_line, write, write_chunks, emitter,
  add_line, Event, added, opened, drained, immediate, step, run,
}
use haraka.MessageStream.Written.{
  write-Written, Written, contents, if-Written, write_chunks-Written,
}

-- The stream has taken these bytes: they are in the file, the queue and the emitter, in this order.
pub record IsStream (input : Text) (s : MessageStream) : Type 0 where
  pub bytes : contents s ++ pending (emitter s) ≡ input
  pub counted : s.buffered ≡ length (concat s.queue)
  pub read : s.bytes_read ≡ length input
  pub valid : IsValid (emitter s)

pub create-IsStream : (spool_after : Option ℕ) → IsStream [] (create spool_after)
unfolding create ChunkEmitter.create
create-IsStream spool_after = record {
  bytes = refl;
  counted = refl;
  read = refl;
  valid = create-IsValid 0;
}

index_header-Written :
    {all : Text} {ce : Option ChunkEmitter} {n : ℕ} (l : Text) (s : MessageStream)
    → Written all ce n s
    → Written all ce n (index_header l s)
unfolding index_header
index_header-Written l s w =
    if-Written _ _ _
      (record { bytes = w.bytes; counted = w.counted; emitter = w.emitter; read = w.read }) w

index_boundary-Written :
    {all : Text} {ce : Option ChunkEmitter} {n : ℕ} (l : Text) (s : MessageStream)
    → Written all ce n s
    → Written all ce n (index_boundary l s)
unfolding index_boundary
index_boundary-Written l s w =
    if-Written _ _ _
      (record { bytes = w.bytes; counted = w.counted; emitter = w.emitter; read = w.read })
      (if-Written _ _ _ w
        (record { bytes = w.bytes; counted = w.counted; emitter = w.emitter; read = w.read }))

-- The index of a line does not touch the bytes.
index_line-Written :
    {all : Text} {ce : Option ChunkEmitter} {n : ℕ} (l : Text) (s : MessageStream)
    → Written all ce n s
    → Written all ce (n + length l) (index_line l s)
unfolding index_line
index_line-Written {all} {ce} {n} l s w =
    let t : MessageStream = record s { bytes_read = s.bytes_read + length l } in
    let v : Written all ce (n + length l) t = record {
      bytes = w.bytes;
      counted = w.counted;
      emitter = w.emitter;
      read = ap (λ (k : ℕ). k + length l) w.read;
    } in
    let h = index_header-Written l t v in
    if-Written _ _ _ (index_boundary-Written l (index_header l t) h) h

pub add_line-IsStream :
    (accepts : List Text → Text → Bool) (input l : Text) (s : MessageStream)
    → IsStream input s
    → IsStream (input ++ l) (add_line accepts l s)
unfolding add_line
add_line-IsStream accepts input l s i =
    let f = fill-Filled l (emitter s) i.valid in
    let (e, chunks) = fill l (emitter s) in
    let w : Written (contents s) s.write_ce s.bytes_read s = record {
      bytes = refl;
      counted = i.counted;
      emitter = refl;
      read = refl;
    } in
    let x = index_line-Written l s w in
    let t : MessageStream = record (index_line l s) { write_ce = some e } in
    let v : Written (contents s) (some e) (s.bytes_read + length l) t = record {
      bytes = x.bytes;
      counted = x.counted;
      emitter = refl;
      read = x.read;
    } in
    let r = write_chunks-Written accepts chunks t v in
    let em : emitter (write_chunks accepts chunks t) ≡ e =
      ap (λ o. elim o [ none ↦ ChunkEmitter.create 0 | some d ↦ d ]) r.emitter in
    record {
      bytes =
          ap (λ b. b ++ pending (emitter (write_chunks accepts chunks t))) r.bytes
          ∙ ap (λ d. (contents s ++ concat chunks) ++ pending d) em
          ∙ append_assoc (contents s) (concat chunks) (pending e)
          ∙ ap (λ b. contents s ++ b) f.bytes
          ∙ sym (append_assoc (contents s) (pending (emitter s)) l)
          ∙ ap (λ b. b ++ l) i.bytes;
      counted = r.counted;
      read = omega (arith, r.read, i.read, length-append input l);
      valid = rw em f.valid;
    }

-- The lines that are added.
abbrev pub lines_of : List Event → Text
lines_of [] = []
lines_of (added l ∷ es) = l ++ lines_of es
lines_of (opened ∷ es) = lines_of es
lines_of (drained ∷ es) = lines_of es
lines_of (immediate ∷ es) = lines_of es

write-IsStream :
    (accepts : List Text → Text → Bool) (input : Text) (s : MessageStream)
    → IsStream input s
    → IsStream input (write accepts s)
write-IsStream accepts input s i =
    let w : Written (contents s) s.write_ce s.bytes_read s = record {
      bytes = refl;
      counted = i.counted;
      emitter = refl;
      read = refl;
    } in
    let r = write-Written accepts s w in
    let em : emitter (write accepts s) ≡ emitter s =
      ap (λ o. elim o [ none ↦ ChunkEmitter.create 0 | some d ↦ d ]) r.emitter in
    record {
      bytes =
          ap (λ b. b ++ pending (emitter (write accepts s))) r.bytes
          ∙ ap (λ d. contents s ++ pending d) em
          ∙ i.bytes;
      counted = r.counted;
      read = r.read ∙ i.read;
      valid = rw em i.valid;
    }

-- Lines are added, the file opens and drains, and calls of `_write` come back, in any order: the
-- bytes of the lines are in the file, behind it in the queue, and behind that in the emitter; none is
-- lost, doubled or moved. `buffered` is what the queue holds, and `bytes_read` what was added.
pub run-IsStream :
    (accepts : List Text → Text → Bool) (input : Text) (es : List Event) (s : MessageStream)
    → IsStream input s
    → IsStream (input ++ lines_of es) (run accepts es s)
unfolding run step
run-IsStream accepts input [] s i = rw (append-nil input) i
run-IsStream accepts input (added l ∷ es) s i =
    rw (← append_assoc input l (lines_of es))
      (run-IsStream accepts (input ++ l) es _ (add_line-IsStream accepts input l s i))
run-IsStream accepts input (opened ∷ es) s i =
    run-IsStream accepts input es (step accepts opened s)
      (record { bytes = i.bytes; counted = i.counted; read = i.read; valid = i.valid })
run-IsStream accepts input (drained ∷ es) s i =
    run-IsStream accepts input es (step accepts drained s)
      (record { bytes = i.bytes; counted = i.counted; read = i.read; valid = i.valid })
run-IsStream accepts input (immediate ∷ es) s i =
    run-IsStream accepts input es (step accepts immediate s) (
      write-IsStream accepts input (record s { scheduled_writes = s.scheduled_writes - 1 })
        (record { bytes = i.bytes; counted = i.counted; read = i.read; valid = i.valid }))
