-- ===== src/ChunkEmitter/Stream.antt =====
-- chunkemitter.js: the bytes that come out are those that went in, in full chunks.
use haraka.Prelude.{
  ℕ, ◌+◌, ◌<◌, ◌≡◌, refl, sym, ap, ◌∙◌, true, false, Bool, List, [], ◌∷◌, ◌++◌, ltb, length,
  if◌then◌else◌, arith, length-append, Bool-cases, ◌⊎◌, inl, inr,
}
use mathlib.Core.List.{append-nil, append_assoc}
use haraka.Prelude.Text.{Text}
use haraka.ChunkEmitter.{ChunkEmitter, create, concat, copy_all, fill, finish, fill_all}
use haraka.ChunkEmitter.Copy.{
  AllSized, AllSized-append, Copied, IsValid, concat-append, copy-Copied, pending,
}

-- What `fill` and its repetition promise.
pub record Filled (input : Text) (e : ChunkEmitter) (r : ChunkEmitter × List Text) : Type 0 where
  pub bytes : concat r.1 ++ pending r.0 ≡ pending e ++ input
  pub sized : AllSized e.buffer_size r.1
  pub same_size : r.0.buffer_size ≡ e.buffer_size
  pub valid : IsValid r.0

-- The inputs that were kept, with the new one.
concat_last : (bs : List Text) (input : Text) → concat (bs ++ input ∷ []) ≡ concat bs ++ input
concat_last bs input = simp (concat-append, append-nil)

kept_apart : (e : ChunkEmitter) → IsValid e → e.allocated ≡ false → concat e.bufs ≡ pending e
kept_apart e v n =
    sym (append-nil (concat e.bufs)) ∙ ap (λ b. concat e.bufs ++ b) (sym (v.waiting n))

created-pending : (size : ℕ) (t : Text) → pending (create size) ++ t ≡ t
unfolding create
created-pending size t = refl

-- From the loop to `fill`: no input is kept apart when a buffer is allocated.
Copied-Filled :
    (input : Text) (e d : ChunkEmitter) (all : Text)
    → d.bufs ≡ []
    → d.bufs_size ≡ 0
    → d.allocated ≡ true
    → d.buffer_size ≡ e.buffer_size
    → 0 < d.buffer_size
    → d.buf ++ all ≡ pending e ++ input
    → (r : ChunkEmitter × List Text) → Copied all d r
    → Filled input e r
Copied-Filled input e d all nb ns al sz p same r k = record {
  bytes = rw (k.same_bufs, nb) (k.bytes ∙ same);
  sized = rw sz at k.sized;
  same_size = k.same_size ∙ sz;
  valid = record {
    positive = omega (arith, k.same_size);
    within = omega (arith, k.fits, k.same_size);
    counted = rw (k.same_bufs, nb, k.same_count, ns);
    waiting = λ w. absurd (cc (k.same_mode));
    taken = λ t. k.same_bufs ∙ nb;
  };
}

if-Filled :
    (input : Text) (e : ChunkEmitter) (b : Bool) (x y : ChunkEmitter × List Text)
    → (b ≡ true → Filled input e x)
    → (b ≡ false → Filled input e y)
    → Filled input e (if b then x else y)
if-Filled input e true x y h g = h refl
if-Filled input e false x y h g = g refl

-- With a buffer allocated, the input is copied.
fill_allocated :
    (input : Text) (e : ChunkEmitter)
    → IsValid e
    → e.allocated ≡ true
    → Filled input e (copy_all input e)
fill_allocated input e v a =
    Copied-Filled input e e input (v.taken a)
      (v.counted ∙ ap (λ bs. length (concat bs)) (v.taken a)) a refl v.positive
      (ap (λ bs. (concat bs ++ e.buf) ++ input) (sym (v.taken a))) (copy_all input e)
      (copy-Copied (length input) input e (omega arith) v.positive v.within)

-- The inputs so far, copied to a new buffer.
fill_first :
    (input : Text) (e : ChunkEmitter)
    → IsValid e
    → e.allocated ≡ false
    → let all = concat (e.bufs ++ input ∷ []) in
      let d = record e { allocated = true; bufs = []; bufs_size = 0 } in
      Filled input e (copy_all all d)
fill_first input e v n =
    let all = concat (e.bufs ++ input ∷ []) in
    let d = record e { allocated = true; bufs = []; bufs_size = 0 } in
    Copied-Filled input e d all refl refl refl refl v.positive
      (ap (λ b. b ++ all) (v.waiting n)
        ∙ concat_last e.bufs input
        ∙ ap (λ b. b ++ input) (kept_apart e v n))
      (copy_all all d) (copy-Copied (length all) all d (omega arith) v.positive v.within)

fill_keep :
    (input : Text) (e : ChunkEmitter)
    → IsValid e
    → e.allocated ≡ false
    → Filled input e
        (record e { bufs = e.bufs ++ input ∷ []; bufs_size = e.bufs_size + length input }, [])
fill_keep input e v n = record {
  bytes =
      ap (λ b. concat (e.bufs ++ input ∷ []) ++ b) (v.waiting n)
      ∙ append-nil _
      ∙ concat_last e.bufs input
      ∙ ap (λ b. b ++ input) (kept_apart e v n);
  sized = tt;
  same_size = refl;
  valid = record {
    positive = v.positive;
    within = v.within;
    counted = omega (
      arith,
      v.counted,
      ap length (concat_last e.bufs input),
      length-append (concat e.bufs) input,
    );
    waiting = v.waiting;
    taken = λ t. absurd (cc (n));
  };
}

pub fill-Filled : (input : Text) (e : ChunkEmitter) → IsValid e → Filled input e (fill input e)
unfolding fill
fill-Filled input e v =
    if-Filled input e e.allocated _ _ (fill_allocated input e v)
      λ n. if-Filled input e _ _ _ (λ big. fill_first input e v n) (λ small. fill_keep input e v n)

pub create-IsValid : (size : ℕ) → IsValid (create size)
unfolding create
create-IsValid size = ground arith

-- What any number of inputs promise.
record Streamed (inputs : List Text) (e : ChunkEmitter) (r : ChunkEmitter × List Text)
    : Type 0 where
  bytes : concat r.1 ++ pending r.0 ≡ pending e ++ concat inputs
  sized : AllSized e.buffer_size r.1
  valid : IsValid r.0

fill_all-Streamed :
    (inputs : List Text) (e : ChunkEmitter) → IsValid e → Streamed inputs e (fill_all inputs e)
unfolding fill_all
fill_all-Streamed [] e v = record { bytes = sym (append-nil (pending e)); sized = tt; valid = v }
fill_all-Streamed (i ∷ is) e v =
    let f = fill-Filled i e v in
    let (d, out) = fill i e in
    let s = fill_all-Streamed is d f.valid in
    let (last, more) = fill_all is d in
    record {
      bytes =
          ap (λ b. b ++ pending last) (concat-append out more)
          ∙ append_assoc (concat out) (concat more) (pending last)
          ∙ ap (λ b. concat out ++ b) s.bytes
          ∙ sym (append_assoc (concat out) (pending d) (concat is))
          ∙ ap (λ b. b ++ concat is) f.bytes
          ∙ append_assoc (pending e) i (concat is);
      sized = AllSized-append _ _ _ f.sized (rw f.same_size at s.sized);
      valid = s.valid;
    }

length-nil : (t : Text) → length t ≡ 0 → t ≡ []
length-nil [] h = refl
length-nil (c ∷ t) h = absurd (omega arith)

last_chunks_lem :
    (bufs : List Text) (buf : Text) (size : ℕ)
    → size ≡ length (concat bufs)
    → (bufs ≡ []) ⊎ (buf ≡ [])
    → concat (if ltb 0 size then concat bufs ∷ [] else if ltb 0 (length buf) then buf ∷ [] else [])
      ≡ concat bufs ++ buf
last_chunks_lem bufs buf size c (inl e) =
    rw e (ground (arith, c, ap (λ bs. length (concat bs)) e, append-nil buf, length-nil buf))
last_chunks_lem bufs buf size c (inr e) =
    rw e (ground (arith, c, append-nil (concat bufs), length-nil (concat bufs)))

-- What `finish` emits is what is kept, in one chunk.
pub finish-pending : (e : ChunkEmitter) → IsValid e → concat (finish e).1 ≡ pending e
unfolding finish
finish-pending e v = elim (Bool-cases e.allocated) [
  | inl a ↦ last_chunks_lem e.bufs e.buf e.bufs_size v.counted (inl (v.taken a))
  | inr n ↦ last_chunks_lem e.bufs e.buf e.bufs_size v.counted (inr (v.waiting n))
]

-- A stream of any inputs, cut up and ended: the bytes that come out are those that went in, in their
-- order, and every chunk but the last has the size of the buffer.
pub fill_all-finish :
    (size : ℕ) (inputs : List Text)
    → let (e, chunks) = fill_all inputs (create size) in
      (concat (chunks ++ (finish e).1) ≡ concat inputs) × AllSized (create size).buffer_size chunks
fill_all-finish size inputs =
    let s = fill_all-Streamed inputs (create size) (create-IsValid size) in
    let (e, chunks) = fill_all inputs (create size) in
    (
      concat-append chunks (finish e).1
          ∙ ap (λ b. concat chunks ++ b) (finish-pending e s.valid)
          ∙ s.bytes
          ∙ created-pending size (concat inputs),
      s.sized,
    )
