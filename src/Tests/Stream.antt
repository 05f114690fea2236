-- ===== src/Tests/Stream.antt =====
-- The stream of a message at concrete inputs.
use mathlib.Core.List.{append-nil}
use haraka.Prelude.{ℕ, ◌≡◌, ◌+◌, refl, Bool, true, false, Option, none, some, List, [], ◌∷◌}
use haraka.Prelude.Text.{Text, text_eq}
use haraka.ChunkEmitter.{concat}
use haraka.MessageStream.Writer.{MessageStream, create, added, run, add_line_end, write_chunk}
use haraka.MessageStream.Reader.{Options, pipe}
use haraka.MessageStream.Kept.{IsStream, create-IsStream, run-IsStream}
use haraka.MessageStream.Written.{contents}
use haraka.MessageStream.Pipe.{IsRaw}
use haraka.MessageStream.Spool.{IsSpooling, rounds, rounds_complete}

abbrev takes : List Text → Text → Bool
takes f c = true

abbrev refuses : List Text → Text → Bool
refuses f c = false

abbrev no_lf : Text → Option ℕ
no_lf t = none

abbrev whole : Text → List Text
whole t = t ∷ []

abbrev raw : Options
raw = record {
  line_endings = [];
  dot_stuffing = true;
  ending_dot = false;
  clamd_style = false;
  buffer_size = 4;
}

raw-IsRaw : IsRaw raw
unfolding text_eq
raw-IsRaw = record { stuffed = refl; crlf = refl; no_dot = refl; no_frames = refl }

-- The bytes of a text in ASCII.
abbrev id_bytes : Text → Text
id_bytes t = t

abbrev stream : MessageStream
stream = create none

run-IsStream_example :
    IsStream (97 ∷ 10 ∷ 98 ∷ []) (run takes (added (97 ∷ 10 ∷ []) ∷ added (98 ∷ []) ∷ []) stream)
run-IsStream_example =
    run-IsStream takes [] (added (97 ∷ 10 ∷ []) ∷ added (98 ∷ []) ∷ []) stream
      (create-IsStream none)

abbrev or_stream : Option MessageStream → MessageStream
or_stream none = create none
or_stream (some s) = s

abbrev ended : MessageStream
ended = or_stream (add_line_end takes true (run takes (added (97 ∷ 10 ∷ []) ∷ []) (create none)))

abbrev spooling : MessageStream
spooling = record (create (some 0)) {
  spooling = true;
  fd = true;
  end_called = true;
  end_callback = true;
  file = (97 ∷ []) ∷ [];
  queue = (98 ∷ []) ∷ [];
  buffered = 1;
}

spooling-IsSpooling : IsSpooling 0 spooling
unfolding create
spooling-IsSpooling = record {
  limited = refl;
  spooling = refl;
  opened = refl;
  no_open = refl;
  at_end = refl;
  callback = refl;
}

rounds_complete_example :
    ((run refuses (rounds ((98 ∷ []) ∷ [])) spooling).write_complete ≡ true)
    × ((run refuses (rounds ((98 ∷ []) ∷ [])) spooling).queue ≡ [])
    × ((run refuses (rounds ((98 ∷ []) ∷ [])) spooling).ended ≡ spooling.ended + 1)
    × (concat (pipe id_bytes no_lf whole raw [] (run refuses (rounds ((98 ∷ []) ∷ [])) spooling))
        ≡ contents spooling)
rounds_complete_example =
    rounds_complete refuses (λ f c. refl) 0 ((98 ∷ []) ∷ []) spooling id_bytes no_lf whole raw
      spooling-IsSpooling refl raw-IsRaw append-nil

abbrev idle_stream : MessageStream
idle_stream = record (create (some 1)) { fd = true }

abbrev after_both : MessageStream
after_both =
    write_chunk takes (98 ∷ [])
      (record (write_chunk takes (97 ∷ []) idle_stream) { end_called = true })
