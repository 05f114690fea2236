-- ===== src/Dkim/Writes.antt =====
-- dkim.js: it does not matter how a message is cut into the buffers that are written.
use mathlib.Core.List.{append_assoc, append-nil}
use haraka.Prelude.{
  ℕ, zero, suc, ◌+◌, ◌≡◌, ◌<◌, refl, sym, ap, ◌∙◌, true, false, Option, none, some, List, [], ◌∷◌,
  ◌++◌, ◌&&◌, ◌==◌, is_empty, length, take, drop, arith, if_all, length-drop,
}
use haraka.Prelude.Text.{Text}
use haraka.ChunkEmitter.{concat}
use haraka.Dkim.Canon.{pop, push}
use haraka.Dkim.Object.{Crypto, Answer, new_object, is_blank_line}
use haraka.Dkim.Body.{pop-concat}
use haraka.Dkim.Stream.{
  Parsed, After, returned, continued, handled, handle_line, with_crlf, read_lines, write,
  start_body, call, answered, indexed, signatures_of, on_answer, on_answers, new_objects,
  is_continuation,
}
use haraka.Dkim.Cuts.{append_cut, cut, first_lf, cut-none, cut-some, cut-append, after_first}

after_same :
    (x : After) (p q r q' r' : List Text × Parsed)
    → q ≡ q'
    → r ≡ r'
    → (elim x [ returned ↦ p | continued ↦ q | handled ↦ r ])
      ≡ (elim x [ returned ↦ p | continued ↦ q' | handled ↦ r' ])
after_same returned p q r q' r' e f = refl
after_same continued p q r q' r' e f = e
after_same handled p q r q' r' e f = f

module _ (k : Crypto) where
  -- Lines in turn, until the stream gives up; then nothing is kept for the buffer.
  unfoldable pub handle_lines : List Text → Text → Parsed → List Text × Parsed
  unfolding handle_line push with_crlf
  handle_lines [] rest s = (push rest [], s)
  handle_lines (l ∷ ls) rest s =
      let r = handle_line k (with_crlf l) s in
      elim r.1 [
        | returned ↦ ([], r.0)
        | continued ↦ handle_lines ls rest r.0
        | handled ↦ handle_lines ls rest r.0
      ]

  module _ (index_of_lf : Text → Option ℕ) (is_lf : (t : Text) → index_of_lf t ≡ first_lf t) where
    shorter :
        (n i : ℕ) (t : Text) → first_lf t ≡ some i → length t < suc n → length (drop (i + 1) t) < n
    shorter n i [] e h = unfold first_lf in cc
    shorter n i (c ∷ t) e h = omega (arith, length-drop (i + 1) (c ∷ t), h)

    -- A line, and the lines that are read behind it.
    abbrev behind_line : Text → Parsed → (Parsed → List Text × Parsed) → List Text × Parsed
    behind_line l s f =
        let r = handle_line k (with_crlf l) s in
        elim r.1 [ returned ↦ ([], r.0) | continued ↦ f r.0 | handled ↦ f r.0 ]

    read_lines-none :
        (n : ℕ) (t : Text) (s : Parsed)
        → index_of_lf t ≡ none
        → read_lines k index_of_lf (suc n) false t s ≡ (push t [], s)
    unfolding read_lines
    read_lines-none n t s e = rw (read_lines, e) refl

    read_lines-some :
        (n i : ℕ) (t : Text) (s : Parsed)
        → index_of_lf t ≡ some i
        → read_lines k index_of_lf (suc n) false t s
          ≡ behind_line (take (i + 1) t) s (read_lines k index_of_lf n false (drop (i + 1) t))
    unfolding read_lines
    read_lines-some n i t s e = rw (read_lines, e) refl

    handle_lines-cut :
        (t : Text) (s : Parsed) (r : List Text × Text)
        → cut t ≡ r
        → handle_lines (cut t).0 (cut t).1 s ≡ handle_lines r.0 r.1 s
    handle_lines-cut t s r e = ap (λ (q : List Text × Text). handle_lines q.0 q.1 s) e

    read_lines-cut :
        (n : ℕ) (t : Text) (s : Parsed)
        → length t < n
        → read_lines k index_of_lf n false t s ≡ handle_lines (cut t).0 (cut t).1 s
    unfolding handle_lines after_first
    read_lines-cut zero t s h = absurd (omega (arith, h))
    read_lines-cut (suc n) t s h = go (index_of_lf t) refl (λ u d l. read_lines-cut n u d l)
      where
        go :
            (o : Option ℕ)
            → index_of_lf t ≡ o
            → ((u : Text) (d : Parsed)
                → length u < n
                → read_lines k index_of_lf n false u d ≡ handle_lines (cut u).0 (cut u).1 d)
            → read_lines k index_of_lf (suc n) false t s ≡ handle_lines (cut t).0 (cut t).1 s
        go none e ih =
            read_lines-none n t s e
            ∙ sym (handle_lines-cut t s ([], t) (cut-none t (sym (is_lf t) ∙ e)))
        go (some i) e ih =
            let f : first_lf t ≡ some i = sym (is_lf t) ∙ e in
            let d = handle_line k (with_crlf (take (i + 1) t)) s in
            let same = ih (drop (i + 1) t) d.0 (shorter n i t f h) in
            read_lines-some n i t s e
            ∙ after_same d.1 ([], d.0) _ _ _ _ same same
            ∙ sym (handle_lines-cut t s (after_first t (i + 1)) (cut-some t i f))

  -- Whether a stream that goes on has given up: it returns only if it has.
  abbrev Facts : Parsed × After → Type 0
  Facts p = elim p.1 [
    | returned ↦ (p.0.in_body && p.0.no_signatures) ≡ true
    | continued ↦ p.0.no_signatures ≡ false
    | handled ↦ p.0.no_signatures ≡ false
  ]

  call-kept : (s : Parsed) → (call s).no_signatures ≡ s.no_signatures
  unfolding call
  call-kept s =
      if_all (λ (t : Parsed). t.no_signatures ≡ s.no_signatures) s.run_cb (λ e. refl) (λ e. refl)

  call-body : (s : Parsed) → (call s).in_body ≡ s.in_body
  unfolding call
  call-body s = if_all (λ (t : Parsed). t.in_body ≡ s.in_body) s.run_cb (λ e. refl) (λ e. refl)

  on_answer-kept : (a : Answer) (s : Parsed) → (on_answer a s).no_signatures ≡ s.no_signatures
  unfolding on_answer answered
  on_answer-kept a s =
      if_all (λ (t : Parsed). t.no_signatures ≡ s.no_signatures) ((answered a s).pending == 0)
        (λ e. call-kept (answered a s)) (λ e. refl)

  on_answers-kept :
      (l : List Answer) (s : Parsed) → (on_answers l s).no_signatures ≡ s.no_signatures
  unfolding on_answers
  on_answers-kept [] s = refl
  on_answers-kept (a ∷ l) s = on_answers-kept l (on_answer a s) ∙ on_answer-kept a s

  new_objects-kept :
      (hs : List Text) (s : Parsed) → (new_objects k hs s).no_signatures ≡ s.no_signatures
  unfolding new_objects
  new_objects-kept [] s = refl
  new_objects-kept (h ∷ hs) s =
      let o = new_object k h s.header_idx in
      new_objects-kept hs
        (on_answers o.answers (record s { dkim_objects = s.dkim_objects ++ (o ∷ []) }))
      ∙ on_answers-kept o.answers (record s { dkim_objects = s.dkim_objects ++ (o ∷ []) })

  start_body-Facts : (s : Parsed) → s.no_signatures ≡ false → Facts (start_body k s)
  unfolding start_body indexed
  start_body-Facts s h =
      if_all Facts (is_empty (signatures_of k (indexed k s)))
        (λ e.
          rw
            (
              call-body (record (indexed k s) { no_signatures = true }),
              call-kept (record (indexed k s) { no_signatures = true }),
            )
            refl)
        (λ e.
          new_objects-kept (signatures_of k (indexed k s))
            (record (indexed k s) { pending = length (signatures_of k (indexed k s)) })
          ∙ h)

  handle_line-Facts : (l : Text) (s : Parsed) → s.no_signatures ≡ false → Facts (handle_line k l s)
  unfolding handle_line
  handle_line-Facts l s h =
      if_all Facts s.in_body (λ e. h)
        (λ e.
          if_all Facts (is_blank_line l) (λ f. start_body-Facts s h)
            (λ f. if_all Facts (is_continuation l) (λ g. h) (λ g. h)))

  module _ (index_of_lf : Text → Option ℕ) (is_lf : (t : Text) → index_of_lf t ≡ first_lf t) where
    push-concat : (t : Text) → concat (push t []) ≡ t
    unfolding push
    push-concat [] = refl
    push-concat (c ∷ t) = append-nil (c ∷ t)

    write-lines :
        (b : Text) (bar : List Text) (s : Parsed)
        → s.no_signatures ≡ false
        → write k index_of_lf b (bar, s)
          ≡ handle_lines (cut (concat bar ++ b)).0 (cut (concat bar ++ b)).1 s
    unfolding write
    write-lines b bar s h =
        if_all
          (λ (r : List Text × Parsed).
            r ≡ handle_lines (cut (concat bar ++ b)).0 (cut (concat bar ++ b)).1 s)
          (s.in_body && s.no_signatures) (λ e. absurd (ground (arith, e, h)))
          (λ e.
            read_lines-cut index_of_lf is_lf (length (pop b bar) + 1) (pop b bar) s (omega arith)
            ∙ ap (λ t. handle_lines (cut t).0 (cut t).1 s) (pop-concat b bar))

    write-done :
        (b : Text) (bar : List Text) (s : Parsed)
        → (s.in_body && s.no_signatures) ≡ true
        → write k index_of_lf b (bar, s) ≡ (bar, s)
    unfolding write
    write-done b bar s h =
        if_all (λ (r : List Text × Parsed). r ≡ (bar, s)) (s.in_body && s.no_signatures) (λ e. refl)
          (λ e. absurd (ground (arith, e, h)))

    write-behind :
        (b : Text) (ls : List Text) (rest : Text) (s : Parsed)
        → s.no_signatures ≡ false
        → write k index_of_lf b (handle_lines ls rest s)
          ≡ handle_lines (ls ++ (cut (rest ++ b)).0) (cut (rest ++ b)).1 s
    unfolding handle_lines
    write-behind b [] rest s h =
        write-lines b (push rest []) s h
        ∙ ap (λ t. handle_lines (cut (t ++ b)).0 (cut (t ++ b)).1 s) (push-concat rest)
    write-behind b (l ∷ ls) rest s h =
        let r = handle_line k (with_crlf l) s in
        go r.0 r.1 (handle_line-Facts (with_crlf l) s h) (λ u e. write-behind b ls rest u e)
      where
        go :
            (u : Parsed) (x : After)
            → Facts (u, x)
            → ((u : Parsed)
                → u.no_signatures ≡ false
                → write k index_of_lf b (handle_lines ls rest u)
                  ≡ handle_lines (ls ++ (cut (rest ++ b)).0) (cut (rest ++ b)).1 u)
            → write k index_of_lf b (elim x [
              | returned ↦ ([], u)
              | continued ↦ handle_lines ls rest u
              | handled ↦ handle_lines ls rest u
            ])
              ≡ (elim x [
                | returned ↦ ([], u)
                | continued ↦ handle_lines (ls ++ (cut (rest ++ b)).0) (cut (rest ++ b)).1 u
                | handled ↦ handle_lines (ls ++ (cut (rest ++ b)).0) (cut (rest ++ b)).1 u
              ])
        go u returned f ih = write-done b [] u f
        go u continued f ih = ih u f
        go u handled f ih = ih u f

    -- Of a stream that has not given up for want of a signature, whatever waits in its buffer: two
    -- pieces of a message that are written in turn leave it as their text does that is written at once.
    -- (utils.indexOfLF gives the index of the first LF.)
    pub write-append :
        (a b : Text) (bar : List Text) (s : Parsed)
        → s.no_signatures ≡ false
        → write k index_of_lf b (write k index_of_lf a (bar, s))
          ≡ write k index_of_lf (a ++ b) (bar, s)
    unfolding append_cut
    write-append a b bar s h =
        let t = concat bar ++ a in
        ap (write k index_of_lf b) (write-lines a bar s h)
        ∙ write-behind b (cut t).0 (cut t).1 s h
        ∙ ap (λ (q : List Text × Text). handle_lines q.0 q.1 s) (sym (cut-append t b))
        ∙ ap (λ x. handle_lines (cut x).0 (cut x).1 s) (append_assoc (concat bar) a b)
        ∙ sym (write-lines (a ++ b) bar s h)
