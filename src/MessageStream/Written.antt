-- ===== src/MessageStream/Written.antt =====
-- messagestream.js: what is written to a stream goes to the queue, the file and nowhere else.
use mathlib.Core.List.{append_assoc, append-nil}
use haraka.Prelude.{
  ℕ, ◌+◌, ◌-◌, ◌≡◌, refl, sym, ◌∙◌, ap, Bool, true, false, Option, List, [], ◌∷◌, ◌++◌, ◌||◌,
  length, if◌then◌else◌, arith, length-append,
}
use haraka.Prelude.Text.{Text}
use haraka.ChunkEmitter.{ChunkEmitter, concat}
use haraka.ChunkEmitter.Copy.{concat-append}
use haraka.MessageStream.Writer.{
  MessageStream, is_finished, in_memory, complete, over_limit, send, spool, write_queue, write_with,
  note_inflight, write, write_chunk, write_chunks,
}

-- What was written: the file, and behind it the queue.
abbrev pub contents : MessageStream → Text
contents s = concat s.file ++ concat s.queue

-- The contents are these bytes, and are counted; the emitter and the count of bytes are these.
pub record Written (all : Text) (ce : Option ChunkEmitter) (n : ℕ) (s : MessageStream)
    : Type 0 where
  pub bytes : contents s ≡ all
  pub counted : s.buffered ≡ length (concat s.queue)
  pub emitter : s.write_ce ≡ ce
  pub read : s.bytes_read ≡ n

pub if-Written :
    {all : Text} {ce : Option ChunkEmitter} {n : ℕ} (b : Bool) (s t : MessageStream)
    → Written all ce n s
    → Written all ce n t
    → Written all ce n (if b then s else t)
if-Written true s t h k = h
if-Written false s t h k = k

-- The first chunk of the queue is moved to the end of the file.
pub moved :
    (file rest : List Text) (chunk : Text)
    → concat (file ++ chunk ∷ []) ++ concat rest ≡ concat file ++ concat (chunk ∷ rest)
moved file rest chunk = simp (concat-append, append_assoc, append-nil)

-- A chunk is put behind the queue.
appended :
    (file queue : List Text) (c : Text)
    → concat file ++ concat (queue ++ c ∷ []) ≡ (concat file ++ concat queue) ++ c
appended file queue c = simp (concat-append, append_assoc, append-nil)

module _ {all : Text} {ce : Option ChunkEmitter} {n : ℕ} (accepts : List Text → Text → Bool) where
  complete-Written : (s : MessageStream) → Written all ce n s → Written all ce n (complete s)
  unfolding complete
  complete-Written s w = record {
    bytes = w.bytes;
    counted = w.counted;
    emitter = w.emitter;
    read = w.read;
  }

  send-Written :
      (again : MessageStream → MessageStream)
      → ((t : MessageStream) → Written all ce n t → Written all ce n (again t))
      → (chunk : Text) (rest : List Text) (s : MessageStream) → s.queue ≡ chunk ∷ rest
      → Written all ce n s
      → Written all ce n (send accepts again chunk rest s)
  unfolding send
  send-Written again k chunk rest s e w =
      let sent : MessageStream = record s {
        queue = rest;
        buffered = s.buffered - length chunk;
        file = s.file ++ chunk ∷ [];
      } in
      let v : Written all ce n sent = record {
        bytes = moved s.file rest chunk ∙ sym (ap (λ q. concat s.file ++ concat q) e) ∙ w.bytes;
        counted =
            omega
              (arith, w.counted, ap (λ q. length (concat q)) e, length-append chunk (concat rest));
        emitter = w.emitter;
        read = w.read;
      } in
      let held : Written all ce n (record sent { write_pending = true }) = record {
        bytes = v.bytes;
        counted = v.counted;
        emitter = v.emitter;
        read = v.read;
      } in
      if-Written (accepts s.file chunk) _ _ (if-Written (is_finished sent) _ _ (k sent v) v) held

  spool-Written :
      (again : MessageStream → MessageStream)
      → ((t : MessageStream) → Written all ce n t → Written all ce n (again t))
      → (q : List Text) (s : MessageStream) → s.queue ≡ q
      → Written all ce n s
      → Written all ce n (spool accepts again q s)
  unfolding spool
  spool-Written again k [] s e w = w
  spool-Written again k (chunk ∷ rest) s e w =
      if-Written s.fd _ _ (send-Written again k chunk rest s e w)
        (record { bytes = w.bytes; counted = w.counted; emitter = w.emitter; read = w.read })

  write_queue-Written :
      (again : MessageStream → MessageStream)
      → ((t : MessageStream) → Written all ce n t → Written all ce n (again t))
      → (s : MessageStream) → Written all ce n s
      → Written all ce n (write_queue accepts again s)
  unfolding write_queue
  write_queue-Written again k s w =
      let t : MessageStream = record s { spooling = s.spooling || over_limit s } in
      let v : Written all ce n t = record {
        bytes = w.bytes;
        counted = w.counted;
        emitter = w.emitter;
        read = w.read;
      } in
      if-Written (is_finished t) _ _ (complete-Written t v)
        (if-Written (in_memory t) _ _ v (spool-Written again k t.queue t refl v))

  write_with-Written :
      (again : MessageStream → MessageStream)
      → ((t : MessageStream) → Written all ce n t → Written all ce n (again t))
      → (s : MessageStream) → Written all ce n s
      → Written all ce n (write_with accepts again s)
  unfolding write_with
  write_with-Written again k s w =
      let v : Written all ce n (note_inflight s) = record {
        bytes = w.bytes;
        counted = w.counted;
        emitter = w.emitter;
        read = w.read;
      } in
      if-Written (s.open_pending || s.write_pending) _ _ v (write_queue-Written again k _ v)

  pub write-Written : (s : MessageStream) → Written all ce n s → Written all ce n (write accepts s)
  unfolding write
  write-Written = write_with-Written _ (write_with-Written _ (λ t w. w))

pub write_chunks-Written :
    {all : Text} {ce : Option ChunkEmitter} {n : ℕ} (accepts : List Text → Text → Bool)
    (cs : List Text) (s : MessageStream)
    → Written all ce n s
    → Written (all ++ concat cs) ce n (write_chunks accepts cs s)
unfolding write_chunks write_chunk
write_chunks-Written {all} accepts [] s w = record {
  bytes = w.bytes ∙ sym (append-nil all);
  counted = w.counted;
  emitter = w.emitter;
  read = w.read;
}
write_chunks-Written {all} {ce} {n} accepts (c ∷ cs) s w =
    let t : MessageStream = record s {
      buffered = s.buffered + length c;
      queue = s.queue ++ c ∷ [];
    } in
    let v : Written (all ++ c) ce n t = record {
      bytes = appended s.file s.queue c ∙ ap (λ b. b ++ c) w.bytes;
      counted = omega (
        arith,
        w.counted,
        ap length (concat-append s.queue (c ∷ [])),
        length-append (concat s.queue) (concat (c ∷ [])),
        ap length (append-nil c),
      );
      emitter = w.emitter;
      read = w.read;
    } in
    let r = write_chunks-Written accepts cs (write accepts t) (write-Written accepts t v) in
    record {
      bytes = r.bytes ∙ append_assoc all c (concat cs);
      counted = r.counted;
      emitter = r.emitter;
      read = r.read;
    }
