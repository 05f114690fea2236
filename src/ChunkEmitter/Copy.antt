-- ===== src/ChunkEmitter/Copy.antt =====
-- chunkemitter.js: what the loop of `fill` copies, and the chunks that it emits.
use haraka.Prelude.{
  ℕ, zero, suc, ◌-◌, ◌≤◌, ◌<◌, ◌≡◌, refl, sym, ap, ◌∙◌, true, false, List, [], ◌∷◌, ◌++◌, length,
  take, drop, arith, length-append, length-take, length-drop, take-append-drop,
}
use mathlib.Core.List.{append-nil, append_assoc}
use haraka.Prelude.Text.{Text}
use haraka.ChunkEmitter.{ChunkEmitter, concat, copy, emitted, kept}

-- The bytes that are kept.
abbrev pub pending : ChunkEmitter → Text
pending e = concat e.bufs ++ e.buf

pub record IsValid (e : ChunkEmitter) : Type 0 where
  pub positive : 0 < e.buffer_size
  pub within : length e.buf ≤ e.buffer_size
  pub counted : e.bufs_size ≡ length (concat e.bufs)
  pub waiting : e.allocated ≡ false → e.buf ≡ []
  pub taken : e.allocated ≡ true → e.bufs ≡ []

-- Every chunk has this size.
abbrev pub AllSized : ℕ → List Text → Type 0
AllSized n [] = Unit
AllSized n (b ∷ bs) = (length b ≡ n) × AllSized n bs

-- What the loop promises: the bytes are kept, the chunks are full.
pub record Copied (input : Text) (e : ChunkEmitter) (r : ChunkEmitter × List Text) : Type 0 where
  pub bytes : concat r.1 ++ r.0.buf ≡ e.buf ++ input
  pub sized : AllSized e.buffer_size r.1
  pub same_size : r.0.buffer_size ≡ e.buffer_size
  pub same_bufs : r.0.bufs ≡ e.bufs
  pub same_count : r.0.bufs_size ≡ e.bufs_size
  pub same_mode : r.0.allocated ≡ e.allocated
  pub fits : length r.0.buf ≤ e.buffer_size

pub concat-append : (xs ys : List Text) → concat (xs ++ ys) ≡ concat xs ++ concat ys
concat-append [] ys = refl
concat-append (x ∷ xs) ys = simp (concat-append xs ys, append_assoc)

pub AllSized-append :
    (n : ℕ) (xs ys : List Text) → AllSized n xs → AllSized n ys → AllSized n (xs ++ ys)
AllSized-append n [] ys h g = g
AllSized-append n (x ∷ xs) ys h g = (h.0, AllSized-append n xs ys h.1 g)

emitted-kept : (e : ChunkEmitter) → concat (emitted e) ++ kept e ≡ e.buf
unfolding emitted kept
emitted-kept e = ground (arith, append-nil e.buf, append-nil (e.buf ++ []))

emitted-AllSized :
    (e : ChunkEmitter) → length e.buf ≤ e.buffer_size → AllSized e.buffer_size (emitted e)
unfolding emitted
emitted-AllSized e w = ground arith

kept-lt :
    (e : ChunkEmitter)
    → 0 < e.buffer_size
    → length e.buf ≤ e.buffer_size
    → length (kept e) < e.buffer_size
unfolding kept
kept-lt e p w = ground arith

pub copy-Copied :
    (n : ℕ) (input : Text) (e : ChunkEmitter)
    → length input ≤ n
    → 0 < e.buffer_size
    → length e.buf ≤ e.buffer_size
    → Copied input e (copy n input e)
unfolding copy
copy-Copied zero [] e h p w = ground (arith, append-nil e.buf)
copy-Copied zero (c ∷ input) e h p w = absurd (omega arith)
copy-Copied (suc n) [] e h p w = ground (arith, append-nil e.buf)
copy-Copied (suc n) (c ∷ input) e h p w =
    let r = e.buffer_size - length (kept e) in
    let next = record e { buf = kept e ++ take r (c ∷ input) } in
    let small = kept-lt e p w in
    let ih =
      copy-Copied n (drop r (c ∷ input)) next (omega (arith, length-drop r (c ∷ input))) p
        (omega (arith, length-append (kept e) (take r (c ∷ input)), length-take r (c ∷ input))) in
    record {
      bytes =
          simp (concat-append, append_assoc, ih.bytes, take-append-drop)
            (sym (append_assoc (concat (emitted e)) (kept e) (c ∷ input))
              ∙ ap (λ b. b ++ (c ∷ input)) (emitted-kept e));
      sized = AllSized-append _ _ _ (emitted-AllSized e w) ih.sized;
      same_size = ih.same_size;
      same_bufs = ih.same_bufs;
      same_count = ih.same_count;
      same_mode = ih.same_mode;
      fits = ih.fits;
    }
