-- ===== src/MessageStream/Pipe.antt =====
-- messagestream.js: what a reader gets.
use mathlib.Core.List.{append-nil}
use haraka.Prelude.{
  ℕ, zero, suc, ◌+◌, ◌≡◌, refl, sym, ◌∙◌, ap, Bool, true, false, Option, List, [], ◌∷◌, ◌++◌,
  length, take, drop, take-append-drop, is_empty, if◌then◌else◌, Option-cases, inl, inr, ◌⊎◌,
}
use haraka.Prelude.Text.{Text, text_eq}
use haraka.ChunkEmitter.{concat}
use haraka.ChunkEmitter.Copy.{concat-append}
use haraka.ChunkEmitter.Stream.{fill_all-finish}
use haraka.MessageStream.Writer.{MessageStream}
use haraka.MessageStream.Reader.{
  Options, endings, read_line, process_lines, process_buf, process_bufs, body_buffers, header_fills,
  read_fills, pipe,
}
use haraka.MessageStream.Written.{contents}

-- The options of a reader that takes the bytes as they are.
pub record IsRaw (o : Options) : Type 0 where
  pub stuffed : o.dot_stuffing ≡ true
  pub crlf : text_eq (endings o) (10 ∷ []) ≡ false
  pub no_dot : o.ending_dot ≡ false
  pub no_frames : o.clamd_style ≡ false

rest-bytes : (buf : Text) → concat (if is_empty buf then [] else buf ∷ []) ≡ buf
rest-bytes [] = refl
rest-bytes (c ∷ t) = append-nil (c ∷ t)

read_line-raw : (o : Options) (line : Text) → IsRaw o → read_line o line ≡ line
unfolding read_line
read_line-raw o line r = rw (r.stuffed, r.crlf)

process_lines-bytes :
    (index_of_lf : Text → Option ℕ) (o : Options) (n : ℕ) (buf : Text) (eoh : Bool)
    → IsRaw o
    → concat (process_lines index_of_lf o false n buf eoh).0 ≡ buf
unfolding process_lines
process_lines-bytes index_of_lf o zero buf eoh r = rest-bytes buf
process_lines-bytes index_of_lf o (suc n) buf eoh r = elim (Option-cases (index_of_lf buf)) [
  | inl e ↦ rw (e, process_lines) (rest-bytes buf)
  | inr (i, e) ↦
      rw (e, process_lines)
        (ap (λ l. l ++ concat (process_lines index_of_lf o false n (drop (i + 1) buf) eoh).0)
            (read_line-raw o (take (i + 1) buf) r)
          ∙ ap (λ t. take (i + 1) buf ++ t)
              (process_lines-bytes index_of_lf o n (drop (i + 1) buf) eoh r)
          ∙ take-append-drop (i + 1) buf)
]

process_bufs-bytes :
    (index_of_lf : Text → Option ℕ) (o : Options) (bufs : List Text) (eoh : Bool)
    → IsRaw o
    → concat (process_bufs index_of_lf o false bufs eoh) ≡ concat bufs
unfolding process_bufs process_buf
process_bufs-bytes index_of_lf o [] eoh r = refl
process_bufs-bytes index_of_lf o (b ∷ bs) eoh r =
    let p = process_buf index_of_lf o false b eoh in
    concat-append p.0 (process_bufs index_of_lf o false bs p.1)
    ∙ ap (λ t. t ++ concat (process_bufs index_of_lf o false bs p.1))
        (process_lines-bytes index_of_lf o (suc (length b)) b eoh r)
    ∙ ap (λ t. b ++ t) (process_bufs-bytes index_of_lf o bs p.1 r)

-- The bytes of the emitted chunks are those that were filled in.
pipe-fills :
    (encode : Text → Text) (index_of_lf : Text → Option ℕ) (cut : Text → List Text) (o : Options)
    (headers : List Text) (s : MessageStream)
    → o.clamd_style ≡ false
    → concat (pipe encode index_of_lf cut o headers s)
      ≡ concat (read_fills encode index_of_lf cut o headers s)
unfolding pipe
pipe-fills encode index_of_lf cut o headers s f =
    rw f (fill_all-finish o.buffer_size (read_fills encode index_of_lf cut o headers s)).0

-- A stream that has everything in one place.
pub one_place :
    (cut : Text → List Text) (s : MessageStream)
    → ((t : Text) → concat (cut t) ≡ t)
    → (s.queue ≡ []) ⊎ (s.file ≡ [])
    → concat (body_buffers cut s) ≡ contents s
unfolding body_buffers
one_place cut s whole (inl e) = rw e (whole (concat s.file) ∙ sym (append-nil (concat s.file)))
one_place cut s whole (inr e) =
    elim s.queue
      as (λ q. concat (if is_empty q then cut (concat s.file) else q) ≡ concat s.file ++ concat q) [
        | [] ↦ whole (concat s.file) ∙ sym (append-nil (concat s.file))
        | c ∷ q ↦ rw e refl
      ]

pub pipe-body :
    (encode : Text → Text) (index_of_lf : Text → Option ℕ) (cut : Text → List Text) (o : Options)
    (s : MessageStream)
    → IsRaw o
    → concat (pipe encode index_of_lf cut o [] s) ≡ concat (body_buffers cut s)
unfolding read_fills header_fills
pipe-body encode index_of_lf cut o s r =
    pipe-fills encode index_of_lf cut o [] s r.no_frames
    ∙ rw r.no_dot (
        ap concat (append-nil (process_bufs index_of_lf o false (body_buffers cut s) false))
        ∙ process_bufs-bytes index_of_lf o (body_buffers cut s) false r)

pub pipe-contents :
    (encode : Text → Text) (index_of_lf : Text → Option ℕ) (cut : Text → List Text) (o : Options)
    (s : MessageStream)
    → IsRaw o
    → ((t : Text) → concat (cut t) ≡ t)
    → (s.queue ≡ []) ⊎ (s.file ≡ [])
    → concat (pipe encode index_of_lf cut o [] s) ≡ contents s
pipe-contents encode index_of_lf cut o s r whole p =
    pipe-body encode index_of_lf cut o s r ∙ one_place cut s whole p
