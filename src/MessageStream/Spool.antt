-- ===== src/MessageStream/Spool.antt =====
-- messagestream.js: a message that is spooled to a file.
use haraka.Prelude.{
  ℕ, ◌+◌, ◌≡◌, sym, ◌∙◌, ap, Bool, true, false, Option, some, List, [], ◌∷◌, ◌++◌, inl, arith,
}
use haraka.Prelude.Text.{Text}
use haraka.ChunkEmitter.{concat}
use haraka.MessageStream.Writer.{
  MessageStream, complete, send, spool, write_queue, write_with, write, Event, drained, immediate,
  step, run,
}
use haraka.MessageStream.Reader.{Options, pipe}
use haraka.MessageStream.Written.{contents, moved}
use haraka.MessageStream.Pipe.{IsRaw, pipe-contents}

-- The end is told, the file is open, and what is left has to go there. No write waits to be opened.
pub record IsSpooling (n : ℕ) (s : MessageStream) : Type 0 where
  pub limited : s.buffer_max ≡ some n
  pub spooling : s.spooling ≡ true
  pub opened : s.fd ≡ true
  pub no_open : s.open_pending ≡ false
  pub at_end : s.end_called ≡ true
  pub callback : s.end_callback ≡ true

-- The file drains, and the call of `_write` that this schedules comes, for each chunk of the queue
-- and once more.
abbrev pub rounds : List Text → List Event
rounds [] = drained ∷ immediate ∷ []
rounds (c ∷ q) = drained ∷ immediate ∷ rounds q

module _ (accepts : List Text → Text → Bool)
    (full : (f : List Text) (c : Text) → accepts f c ≡ false) (n : ℕ) where
  round_last :
      (s : MessageStream)
      → IsSpooling n s
      → s.queue ≡ []
      → let t = step accepts immediate (step accepts drained s) in
        (t.write_complete ≡ true) × (t.queue ≡ []) × (t.file ≡ s.file) × (t.ended ≡ s.ended + 1)
  unfolding step write write_with write_queue complete
  round_last s h e = ground arith

  round_next :
      (c : Text) (q : List Text) (s : MessageStream)
      → IsSpooling n s
      → s.queue ≡ c ∷ q
      → let t = step accepts immediate (step accepts drained s) in
        IsSpooling n t × (t.queue ≡ q) × (t.file ≡ s.file ++ c ∷ []) × (t.ended ≡ s.ended)
  unfolding step write write_with write_queue spool send
  round_next c q s h e = ground (arith, full s.file c)

  -- A stream whose end was told while it spools comes to its end: if the file refuses more after each
  -- write, as it does while its buffer is full, and drains each time, then the queue goes to the file
  -- chunk by chunk, in its order, the callback is called once, and the bytes that are piped to a reader
  -- that takes them as they are are those that the file and the queue held. (The stream has no list of
  -- header lines.)
  pub rounds_complete :
      (q : List Text) (s : MessageStream) (encode : Text → Text) (index_of_lf : Text → Option ℕ)
      (cut : Text → List Text) (o : Options)
      → IsSpooling n s
      → s.queue ≡ q
      → IsRaw o
      → ((b : Text) → concat (cut b) ≡ b)
      → let t = run accepts (rounds q) s in
        (t.write_complete ≡ true)
        × (t.queue ≡ [])
        × (t.ended ≡ s.ended + 1)
        × (concat (pipe encode index_of_lf cut o [] t) ≡ contents s)
  unfolding run
  rounds_complete [] s encode index_of_lf cut o h e r whole =
      let t = step accepts immediate (step accepts drained s) in
      let (done, empty, same, once) = round_last s h e in
      (
        done,
        empty,
        once,
        pipe-contents encode index_of_lf cut o t r whole (inl empty)
            ∙ ap (λ f. concat f ++ concat t.queue) same
            ∙ ap (λ x. concat s.file ++ concat x) (empty ∙ sym e),
      )
  rounds_complete (c ∷ q) s encode index_of_lf cut o h e r whole =
      let t = step accepts immediate (step accepts drained s) in
      let (g, next, file, same) = round_next c q s h e in
      let (done, empty, once, bytes) =
        rounds_complete q t encode index_of_lf cut o g next r whole in
      (
        done,
        empty,
        once ∙ ap (λ (k : ℕ). k + 1) same,
        bytes
            ∙ ap (λ f. concat f ++ concat t.queue) file
            ∙ ap (λ x. concat (s.file ++ c ∷ []) ++ concat x) next
            ∙ moved s.file q c
            ∙ ap (λ x. concat s.file ++ concat x) (sym e),
      )

-- The file is open and takes what it is given, the queue is empty, and the stream is not spooling.
pub record IsIdle (n : ℕ) (file : List Text) (s : MessageStream) : Type 0 where
  pub limit : s.buffer_max ≡ some n
  pub queue : s.queue ≡ []
  pub buffered : s.buffered ≡ 0
  pub spooling : s.spooling ≡ false
  pub fd : s.fd ≡ true
  pub no_open : s.open_pending ≡ false
  pub no_write : s.write_pending ≡ false
  pub open_end : s.end_called ≡ false
  pub written : s.file ≡ file
