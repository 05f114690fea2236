-- ===== src/Dkim/Canon.antt =====
-- dkim.js: the buffer of lines, and the canonicalisation of headers and of lines. A text is its bytes.
use haraka.Prelude.{
  ℕ, Bool, true, false, Option, none, some, List, [], ◌∷◌, ◌++◌, ◌&&◌, ◌||◌, ◌==◌, is_empty,
  if◌then◌else◌,
}
use haraka.Prelude.Text.{Text, is_space, to_lower}
use haraka.ChunkEmitter.{concat}

-- `Buf`; its length `blen` is that of what it holds.
unfoldable pub pop : Text → List Text → Text
pop buf [] = buf
pop buf (b ∷ bar) = concat ((b ∷ bar) ++ (buf ∷ []))

unfoldable pub push : Text → List Text → List Text
push buf bar = if is_empty buf then bar else bar ++ (buf ∷ [])

-- [\t ]
abbrev pub is_wsp : ℕ → Bool
is_wsp c = c == 9 || c == 32

-- \r?\n at the end
abbrev pub is_eol : Text → Bool
is_eol (c ∷ []) = c == 10
is_eol (c ∷ d ∷ []) = c == 13 && d == 10
is_eol t = false

unfoldable pub skip_wsp : Text → Text
skip_wsp [] = []
skip_wsp (c ∷ t) = let rest = skip_wsp t in if is_wsp c then rest else c ∷ t

-- `.replace(/[\t ]+(\r?\n)$/, '$1')`
unfoldable pub strip_end : Text → Text
unfolding skip_wsp
strip_end [] = []
strip_end (c ∷ t) =
    let rest = strip_end t in if is_wsp c && is_eol (skip_wsp t) then skip_wsp t else c ∷ rest

-- `.replace(/[\t ]+/g, ' ')`; the argument tells if the byte before was one of them.
unfoldable pub collapse : Bool → Text → Text
collapse after [] = []
collapse after (c ∷ t) =
    let in_run = collapse true t in
    let behind = collapse false t in
    if is_wsp c then (if after then in_run else 32 ∷ in_run) else c ∷ behind

-- `.replace(/\r\n([\t ]+)/g, '$1')`
unfoldable pub unfold_lines : Text → Text
unfold_lines [] = []
unfold_lines (c ∷ []) = c ∷ []
unfold_lines (c ∷ d ∷ []) = c ∷ d ∷ []
unfold_lines (c ∷ d ∷ e ∷ t) =
    let rest = unfold_lines (d ∷ e ∷ t) in
    let joined = unfold_lines (e ∷ t) in if c == 13 && d == 10 && is_wsp e then joined else c ∷ rest

-- The text before the first colon, and what is behind it.
unfoldable pub at_colon : Text → Option (Text × Text)
at_colon [] = none
at_colon (c ∷ t) =
    let rest = at_colon t in
    if c == b':' then some ([], t) else (elim rest [ none ↦ none | some r ↦ some (c ∷ r.0, r.1) ])

unfoldable pub skip_space : Text → Text
unfolding is_space
skip_space [] = []
skip_space (c ∷ t) = let rest = skip_space t in if is_space c then rest else c ∷ t

-- `header_canon_relaxed`
unfoldable pub header_canon_relaxed : Text → Text
unfolding at_colon to_lower skip_space unfold_lines collapse strip_end
header_canon_relaxed header = elim (at_colon header) [
  | none ↦ header
  | some r ↦
      if is_empty r.0
      then header
      else strip_end (collapse false (unfold_lines (to_lower r.0 ++ (b':' ∷ skip_space r.1))))
]

-- What is hashed of a line under the relaxed algorithm.
unfoldable pub line_canon_relaxed : Text → Text
unfolding strip_end collapse
line_canon_relaxed l = collapse false (strip_end l)
