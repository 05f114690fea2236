-- ===== src/Outbound/TodoRoundTrip.antt =====
-- outbound.js: a file of the queue, written and read.
use haraka.Prelude.{ℕ, ◌+◌, ◌≡◌, ◌≢◌, length, ◌⊎◌}
use haraka.Prelude.Text.{Text}
use haraka.MessageStream.Writer.{MessageStream}
use haraka.Outbound.Todo.{
  ready, read_todo, data_stream, Writing, all_written, writer_failed, reader_failed, rename_failed,
  Split, same_item, new_file, bounced,
}

-- What a split is for: the item stays if it keeps all its recipients. Otherwise, if nothing fails, a
-- file is written that is read as the new todo, with the message behind it; and if the reader or the
-- rename fails the item is bounced once, and twice if the writer does.
abbrev pub SplitReads : Writing → ℕ → ℕ → Text → Text → Split → Type 0
SplitReads w recipients all new_todo message same_item = recipients ≡ all
SplitReads w recipients all new_todo message (new_file file) =
    (recipients ≢ all)
    × (w ≡ all_written)
    × (read_todo file ≡ ready new_todo (length new_todo + 4))
    × (data_stream (length new_todo + 4) file ≡ message)
SplitReads w recipients all new_todo message (bounced n) =
    (recipients ≢ all)
    × (((w ≡ writer_failed) × (n ≡ 2))
        ⊎ (((w ≡ reader_failed) × (n ≡ 1)) ⊎ ((w ≡ rename_failed) × (n ≡ 1))))
