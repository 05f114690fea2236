-- ===== src/Dkim/Body.antt =====
-- dkim.js: what of a body is hashed.
use mathlib.Core.List.{append_assoc, append-nil}
use haraka.Prelude.{
  ℕ, ◌≡◌, ◌≤◌, refl, sym, ap, ◌∙◌, Bool, true, false, List, [], ◌∷◌, ◌++◌, ◌&&◌, ◌||◌, ◌==◌,
  is_empty, map, Bool-cases, inl, inr, arith, if_all, if◌then◌else◌,
}
use haraka.Prelude.Text.{Text, text, text_eq}
use haraka.ChunkEmitter.{concat}
use haraka.ChunkEmitter.Copy.{concat-append}
use haraka.Dkim.Canon.{is_wsp, pop, push, strip_end, collapse, line_canon_relaxed}
use haraka.Dkim.Relaxed.{relaxed, line_canon_relaxed_lem}
use haraka.Dkim.Object.{Crypto, DkimObject, add_body_line, is_blank_line}

-- A body without the blank lines at its end.
unfoldable pub body_lines : List Text → List Text
body_lines [] = []
body_lines (l ∷ ls) =
    let rest = body_lines ls in if is_blank_line l && is_empty rest then [] else l ∷ rest

kept-relaxed :
    (c : ℕ) (l : Text) → is_wsp c ≡ false → line_canon_relaxed (c ∷ l) ≡ c ∷ line_canon_relaxed l
unfolding line_canon_relaxed strip_end collapse
kept-relaxed c l h = rw h (rw h refl)

lf-kept : (c : ℕ) → (c == 10) ≡ true → is_wsp c ≡ false
lf-kept c h = ground arith

cr-kept : (c : ℕ) → (c == 13) ≡ true → is_wsp c ≡ false
cr-kept c h = ground arith

-- A blank line in front stays as it is.
blank-relaxed :
    (b l : Text) → is_blank_line b ≡ true → line_canon_relaxed (b ++ l) ≡ b ++ line_canon_relaxed l
blank-relaxed [] l h = cc
blank-relaxed (c ∷ []) l h = kept-relaxed c l (lf-kept c h)
blank-relaxed (c ∷ d ∷ []) l h =
    kept-relaxed c (d ∷ l) (cr-kept c (ground arith))
    ∙ ap (λ x. c ∷ x) (kept-relaxed d l (lf-kept d (ground arith)))
blank-relaxed (c ∷ d ∷ e ∷ t) l h = cc

abbrev pub all_blank : List Text → Bool
all_blank [] = true
all_blank (b ∷ bs) = is_blank_line b && all_blank bs

all_blank-snoc :
    (bs : List Text) (b : Text)
    → all_blank bs ≡ true
    → is_blank_line b ≡ true
    → all_blank (bs ++ (b ∷ [])) ≡ true
all_blank-snoc [] b h k = rw k refl
all_blank-snoc (x ∷ bs) b h k = ground (arith, all_blank-snoc bs b)

pub pop-concat : (l : Text) (bs : List Text) → pop l bs ≡ concat bs ++ l
unfolding pop
pop-concat l [] = refl
pop-concat l (b ∷ bs) =
    concat-append (b ∷ bs) (l ∷ []) ∙ ap (λ x. concat (b ∷ bs) ++ x) (append-nil l)

-- Is the algorithm one of the two?
unfoldable pub is_known : Text → Bool
unfolding text_eq text
is_known w = text_eq w (text "simple") || text_eq w (text "relaxed")

module _ (k : Crypto) where
  -- The lines of a body, added in turn.
  unfoldable pub add_lines : List Text → DkimObject → DkimObject
  unfolding add_body_line
  add_lines [] o = o
  add_lines (l ∷ ls) o = add_lines ls (add_body_line k l o)

  -- What is done to a line under an algorithm.
  unfoldable pub canon_of : Text → Text → Text
  unfolding line_canon_relaxed text_eq text
  canon_of algorithm l =
      if text_eq algorithm (text "simple") then l else line_canon_relaxed (k.recode l)

  -- What is wanted of a line under an algorithm.
  unfoldable pub wanted : Text → Text → Text
  unfolding text_eq text relaxed
  wanted algorithm l = if text_eq algorithm (text "simple") then l else relaxed false (k.recode l)

  module _ (empty : k.recode [] ≡ [])
      (ascii : (c : ℕ) (t : Text) → c ≤ 127 → k.recode (c ∷ t) ≡ c ∷ k.recode t) where
    blank-recode : (b l : Text) → is_blank_line b ≡ true → k.recode (b ++ l) ≡ b ++ k.recode l
    blank-recode [] l h = cc
    blank-recode (c ∷ []) l h = ascii c l (ground arith)
    blank-recode (c ∷ d ∷ []) l h =
        ascii c (d ∷ l) (ground arith) ∙ ap (λ x. c ∷ x) (ascii d l (ground arith))
    blank-recode (c ∷ d ∷ e ∷ t) l h = cc

    blank-canon : (w b l : Text) → is_blank_line b ≡ true → canon_of w (b ++ l) ≡ b ++ canon_of w l
    unfolding canon_of
    blank-canon w b l h = elim (Bool-cases (text_eq w (text "simple"))) [
      | inl e ↦ rw e refl
      | inr e ↦ rw e (ap line_canon_relaxed (blank-recode b l h) ∙ blank-relaxed b (k.recode l) h)
    ]

    concat-canon :
        (w : Text) (bs : List Text) (l : Text)
        → all_blank bs ≡ true
        → canon_of w (concat bs ++ l) ≡ concat bs ++ canon_of w l
    concat-canon w [] l h = refl
    concat-canon w (b ∷ bs) l h =
        ap (canon_of w) (append_assoc b (concat bs) l)
        ∙ blank-canon w b (concat bs ++ l) (ground arith)
        ∙ ap (λ x. b ++ x) (concat-canon w bs l (ground arith))
        ∙ sym (append_assoc b (concat bs) (canon_of w l))

    canon-nil : (w : Text) → canon_of w [] ≡ []
    unfolding canon_of line_canon_relaxed strip_end collapse
    canon-nil w =
        if_all (λ (x : Text). x ≡ []) (text_eq w (text "simple")) (λ e. refl) (λ e. rw empty refl)

    blank-canon_line : (w b : Text) → is_blank_line b ≡ true → canon_of w b ≡ b
    blank-canon_line w b h =
        ap (canon_of w) (sym (append-nil b))
        ∙ blank-canon w b [] h
        ∙ ap (λ x. b ++ x) (canon-nil w)
        ∙ append-nil b

    canon-simple : (w l : Text) → text_eq w (text "simple") ≡ true → canon_of w l ≡ l
    unfolding canon_of
    canon-simple w l e = rw e refl

    canon-relaxed :
        (w l : Text)
        → text_eq w (text "simple") ≡ false
        → canon_of w l ≡ line_canon_relaxed (k.recode l)
    unfolding canon_of
    canon-relaxed w l e = rw e refl

    add_blank :
        (l : Text) (o : DkimObject)
        → o.run_cb ≡ false
        → is_blank_line l ≡ true
        → add_body_line k l o ≡ record o { line_buffer = o.line_buffer ++ (l ∷ []) }
    unfolding add_body_line push
    add_blank [] o r h = cc
    add_blank (c ∷ t) o r h =
        if_all (λ (d : DkimObject). d ≡ record o { line_buffer = o.line_buffer ++ ((c ∷ t) ∷ []) })
          o.run_cb (λ e. absurd (ground (arith, e, r)))
          (λ e.
            if_all
              (λ (d : DkimObject). d ≡ record o { line_buffer = o.line_buffer ++ ((c ∷ t) ∷ []) })
              (is_blank_line (c ∷ t)) (λ f. refl) (λ f. absurd (ground (arith, f, h))))

    add_text :
        (l : Text) (o : DkimObject)
        → o.run_cb ≡ false
        → is_blank_line l ≡ false
        → is_known o.bodycanon ≡ true
        → add_body_line k l o ≡ record o {
          hashed = o.hashed ++ canon_of o.bodycanon (pop l o.line_buffer);
          line_buffer = [];
        }
    unfolding add_body_line canon_of is_known
    add_text l o r h u =
        let w = o.bodycanon in
        let P : DkimObject → Type 0 = λ d.
          d
          ≡ record o { hashed = o.hashed ++ canon_of w (pop l o.line_buffer); line_buffer = [] } in
        let put : Text → DkimObject = λ x. record o { hashed = o.hashed ++ x; line_buffer = [] } in
        if_all P o.run_cb (λ e. absurd (ground (arith, e, r)))
          (λ e.
            if_all P (is_blank_line l) (λ f. absurd (ground (arith, f, h)))
              (λ f.
                if_all P (text_eq w (text "simple"))
                  (λ g. ap put (sym (canon-simple w (pop l o.line_buffer) g)))
                  (λ g.
                    if_all P (text_eq w (text "relaxed"))
                      (λ i. ap put (sym (canon-relaxed w (pop l o.line_buffer) g)))
                      (λ i. absurd (ground (arith, g, i, u))))))

    -- What the lines of a body leave to be hashed, behind the blank lines that wait.
    hash_of : Text → List Text → List Text → Text
    hash_of w bar ls = if is_empty ls then [] else concat bar ++ concat (map (canon_of w) ls)

    hash_of-text : (w : Text) (ls : List Text) → hash_of w [] ls ≡ concat (map (canon_of w) ls)
    unfolding hash_of
    hash_of-text w [] = refl
    hash_of-text w (l ∷ ls) = refl

    hash_of-blank :
        (w : Text) (bar ls : List Text) (l : Text)
        → is_blank_line l ≡ true
        → hash_of w (bar ++ (l ∷ [])) ls
          ≡ hash_of w bar (if is_blank_line l && is_empty ls then [] else l ∷ ls)
    unfolding hash_of
    hash_of-blank w bar [] l h = rw h refl
    hash_of-blank w bar (x ∷ ls) l h =
        let rest = concat (map (canon_of w) (x ∷ ls)) in
        rw h (
          ap (λ y. y ++ rest)
            (concat-append bar (l ∷ []) ∙ ap (λ y. concat bar ++ y) (append-nil l))
          ∙ append_assoc (concat bar) l rest
          ∙ ap (λ y. concat bar ++ (y ++ rest)) (sym (blank-canon_line w l h)))

    hash_of-line :
        (w : Text) (bar ls : List Text) (l : Text)
        → is_blank_line l ≡ false
        → hash_of w bar (if is_blank_line l && is_empty ls then [] else l ∷ ls)
          ≡ concat bar ++ (canon_of w l ++ concat (map (canon_of w) ls))
    unfolding hash_of
    hash_of-line w bar ls l h = rw h refl

    -- An object whose signature is not answered yet and asks for the simple or the relaxed algorithm hashes
    -- the lines that it is given less the blank ones at their end, each as its algorithm wants it, behind
    -- the blank lines that waited.
    add_lines-hash :
        (ls : List Text) (o : DkimObject)
        → o.run_cb ≡ false
        → is_known o.bodycanon ≡ true
        → all_blank o.line_buffer ≡ true
        → (add_lines ls o).hashed ≡ o.hashed ++ hash_of o.bodycanon o.line_buffer (body_lines ls)
    unfolding add_lines body_lines hash_of
    add_lines-hash [] o r u b = sym (append-nil o.hashed)
    add_lines-hash (l ∷ ls) o r u b = elim (Bool-cases (is_blank_line l)) [
      | inl e ↦
          ap (λ (d : DkimObject). (add_lines ls d).hashed) (add_blank l o r e)
          ∙ add_lines-hash ls (record o { line_buffer = o.line_buffer ++ (l ∷ []) }) r u
              (all_blank-snoc o.line_buffer l b e)
          ∙ ap (λ x. o.hashed ++ x) (hash_of-blank o.bodycanon o.line_buffer (body_lines ls) l e)
      | inr e ↦
          let w = o.bodycanon in
          ap (λ (d : DkimObject). (add_lines ls d).hashed) (add_text l o r e u)
          ∙ add_lines-hash ls
              (record o { hashed = o.hashed ++ canon_of w (pop l o.line_buffer); line_buffer = [] })
              r u refl
          ∙ ap (λ x. (o.hashed ++ canon_of w x) ++ hash_of w [] (body_lines ls))
              (pop-concat l o.line_buffer)
          ∙ ap (λ x. (o.hashed ++ x) ++ hash_of w [] (body_lines ls))
              (concat-canon w o.line_buffer l b)
          ∙ ap (λ x. (o.hashed ++ (concat o.line_buffer ++ canon_of w l)) ++ x)
              (hash_of-text w (body_lines ls))
          ∙ (simp append_assoc)
          ∙ ap (λ x. o.hashed ++ x) (sym (hash_of-line w o.line_buffer (body_lines ls) l e))
    ]

    canon-wanted : (w : Text) (ls : List Text) → map (canon_of w) ls ≡ map (wanted w) ls
    unfolding canon_of wanted
    canon-wanted w [] = refl
    canon-wanted w (l ∷ ls) =
        ap (λ x. x ∷ map (canon_of w) ls)
          (ap (λ x. if text_eq w (text "simple") then l else x)
            (line_canon_relaxed_lem (k.recode l)))
        ∙ ap (λ xs. wanted w l ∷ xs) (canon-wanted w ls)

    -- An object that was not answered yet, of the simple or the relaxed algorithm, with no lines waiting:
    -- it hashes the lines that it is given less the blank ones at their end, each as it is under the simple
    -- algorithm, and under the relaxed one as it is read, with one space for each run of white space but none
    -- before its end. (Reading a buffer as UTF-8 keeps bytes of ASCII at its start.)
    pub add_lines-body :
        (ls : List Text) (o : DkimObject)
        → o.run_cb ≡ false
        → is_known o.bodycanon ≡ true
        → o.line_buffer ≡ []
        → (add_lines ls o).hashed ≡ o.hashed ++ concat (map (wanted o.bodycanon) (body_lines ls))
    add_lines-body ls o r u b =
        add_lines-hash ls o r u (rw b refl)
        ∙ ap (λ bar. o.hashed ++ hash_of o.bodycanon bar (body_lines ls)) b
        ∙ ap (λ x. o.hashed ++ x) (hash_of-text o.bodycanon (body_lines ls))
        ∙ ap (λ x. o.hashed ++ concat x) (canon-wanted o.bodycanon (body_lines ls))
