-- ===== src/MessageStream/Complete.antt =====
-- messagestream.js: a message that is complete, and read back.
use mathlib.Core.List.{append-nil}
use haraka.Prelude.{
  option-some, ℕ, ◌≡◌, refl, sym, ◌∙◌, ap, Bool, true, false, not, Option, none, some, List, [],
  ◌∷◌, ◌++◌, ◌||◌, is_empty, if◌then◌else◌, Option-cases, inl, inr,
}
use haraka.Prelude.Text.{Text, text}
use haraka.ChunkEmitter
use haraka.ChunkEmitter.{ChunkEmitter, concat, finish, last_chunks}
use haraka.ChunkEmitter.Copy.{IsValid, pending}
use haraka.ChunkEmitter.Stream.{finish-pending}
use haraka.MessageStream.Writer.{
  MessageStream, create, complete, set_end, write, write_chunks, emitter, add_line_end,
}
use haraka.MessageStream.Written.{contents, Written, write-Written, write_chunks-Written}
use haraka.MessageStream.Kept.{IsStream}

-- A stream that is kept in memory, before its end.
pub record IsFilling (s : MessageStream) : Type 0 where
  pub unlimited : s.buffer_max ≡ none
  pub memory : s.spooling ≡ false
  pub no_file : s.file ≡ []
  pub no_open : s.open_pending ≡ false
  pub no_write : s.write_pending ≡ false
  pub open_end : s.end_called ≡ false
  pub no_callback : s.end_callback ≡ false
  pub not_ended : s.ended ≡ 0

module _ (accepts : List Text → Text → Bool) where
  -- The end of such a stream.
  record IsDone (cb : Bool) (s : MessageStream) : Type 0 where
    no_file : s.file ≡ []
    complete : s.write_complete ≡ true
    once : s.ended ≡ (if cb then 1 else 0)

finish-last : (e : ChunkEmitter) → IsValid e → concat (last_chunks e) ≡ pending e
unfolding finish
finish-last e v = finish-pending e v

-- What `add_line_end` sets before it writes.
abbrev pub ending : Bool → ChunkEmitter → MessageStream → MessageStream
ending cb e s = record s {
  idx = set_end (text "body") s.bytes_read s.idx;
  end_called = true;
  end_callback = cb || s.end_callback;
  write_ce = some (finish e).0;
}

-- The last write: of the chunk that is left, or of nothing.
abbrev pub last_write : (List Text → Text → Bool) → List Text → MessageStream → MessageStream
last_write accepts [] s = write accepts s
last_write accepts (c ∷ cs) s = write_chunks accepts (c ∷ cs) s

module _ (accepts : List Text → Text → Bool) (cb : Bool) where
  two_ends :
      (cs : List Text) (s : MessageStream)
      → (if not (is_empty cs)
          then write_chunks accepts cs s
          else write accepts (write_chunks accepts cs s))
        ≡ last_write accepts cs s
  unfolding write_chunks
  two_ends [] s = refl
  two_ends (c ∷ cs) s = refl

  add_line_end-some :
      (e : ChunkEmitter) (s : MessageStream)
      → s.write_ce ≡ some e
      → add_line_end accepts cb s ≡ some (last_write accepts (last_chunks e) (ending cb e s))
  unfolding add_line_end finish
  add_line_end-some e s w =
      option-some (λ o. o ≡ some (last_write accepts (last_chunks e) (ending cb e s))) s.write_ce e
        _ _ w (ap some (two_ends (last_chunks e) (ending cb e s)))

  add_line_end-cases :
      (s t : MessageStream)
      → add_line_end accepts cb s ≡ some t
      → (e : ChunkEmitter) × (s.write_ce ≡ some e)
        × (t ≡ last_write accepts (last_chunks e) (ending cb e s))
  unfolding add_line_end
  add_line_end-cases s t h = elim (Option-cases s.write_ce) [
    | inl missing ↦ absurd (cc (option-none s missing, h))
    | inr (e, w) ↦ (e, w, cc (add_line_end-some e s w, h))
  ]
    where
      option-none : (s : MessageStream) → s.write_ce ≡ none → add_line_end accepts cb s ≡ none
      option-none s m = rw (m, add_line_end)

  last_write-Written :
      {all : Text} {ce : Option ChunkEmitter} {n : ℕ} (cs : List Text) (s : MessageStream)
      → Written all ce n s
      → Written (all ++ concat cs) ce n (last_write accepts cs s)
  last_write-Written {all} [] s w =
      let v = write-Written accepts s w in
      record {
        bytes = v.bytes ∙ sym (append-nil all);
        counted = v.counted;
        emitter = v.emitter;
        read = v.read;
      }
  last_write-Written (c ∷ cs) s w = write_chunks-Written accepts (c ∷ cs) s w

  -- At the end every byte that was added is in the file, and behind it in the queue.
  pub add_line_end-contents :
      (input : Text) (s t : MessageStream)
      → IsStream input s
      → add_line_end accepts cb s ≡ some t
      → contents t ≡ input
  add_line_end-contents input s t i h =
      let (e, w, l) = add_line_end-cases s t h in
      let em : emitter s ≡ e = ap (λ o. elim o [ none ↦ ChunkEmitter.create 0 | some d ↦ d ]) w in
      let start : Written (contents s) (some (finish e).0) s.bytes_read (ending cb e s) = record {
        bytes = refl;
        counted = i.counted;
        emitter = refl;
        read = refl;
      } in
      let v = last_write-Written (last_chunks e) (ending cb e s) start in
      ap contents l
      ∙ v.bytes
      ∙ ap (λ b. contents s ++ b) (finish-last e (rw em at i.valid) ∙ ap pending (sym em))
      ∙ i.bytes
