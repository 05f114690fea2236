-- ===== src/Prelude/Text.antt =====
-- Text as the list of its character codes: a `binary` string of the program, or a buffer's bytes.
use Prim.Native.Nat.{ℕ, ◌+◌, ◌-◌}
use Prim.Native.Char.{code}
use Prim.Native.String.{String}
use mathlib.Core.Bool.{Bool, true, false, ◌&&◌, ◌||◌}
use mathlib.Core.Path.{◌≡◌, refl}
use mathlib.Core.List.{List, [], ◌∷◌, ◌++◌, map}
use native.Mathlib.Omega.{arith}
use haraka.Prelude.Tests.{leb, ◌==◌, if◌then◌else◌}

abbrev pub Text : Type 0
Text = List ℕ

-- The codes of a literal; shut, so that a proof does not spell the literal out.
unfoldable pub text : String → Text
text String.[] = []
text (String.◌∷◌ c s) = code c ∷ text s

unfoldable pub text_eq : Text → Text → Bool
text_eq [] [] = true
text_eq [] (y ∷ ys) = false
text_eq (x ∷ xs) [] = false
text_eq (x ∷ xs) (y ∷ ys) = x == y && text_eq xs ys

pub text_eq_refl : (t : Text) → text_eq t t ≡ true
unfolding text_eq
text_eq_refl [] = refl
text_eq_refl (c ∷ t) = ground (arith, text_eq_refl t)

pub text_eq-true : (s t : Text) → text_eq s t ≡ true → s ≡ t
unfolding text_eq
text_eq-true [] [] h = refl
text_eq-true [] (d ∷ t) h = cc
text_eq-true (c ∷ s) [] h = cc
text_eq-true (c ∷ s) (d ∷ t) h = ground (arith, text_eq-true s t)

unfoldable pub lower : ℕ → ℕ
lower c = if leb b'A' c && leb c b'Z' then c + 32 else c

unfoldable pub to_lower : Text → Text
unfolding lower
to_lower = map lower

unfoldable pub upper : ℕ → ℕ
upper c = if leb b'a' c && leb c b'z' then c - 32 else c

unfoldable pub to_upper : Text → Text
unfolding upper
to_upper = map upper

-- The class \s, as far as it lies in the codes below 256.
unfoldable pub is_space : ℕ → Bool
is_space c = (leb 9 c && leb c 13) || c == 32 || c == 160

-- /\S/.test(t)
unfoldable pub has_non_space : Text → Bool
unfolding is_space
has_non_space [] = false
has_non_space (c ∷ t) = if is_space c then has_non_space t else true

unfoldable pub starts_with : Text → Text → Bool
starts_with [] t = true
starts_with (p ∷ ps) [] = false
starts_with (p ∷ ps) (c ∷ t) = p == c && starts_with ps t

-- Does the text hold this one?
unfoldable pub contains : Text → Text → Bool
unfolding starts_with
contains p [] = starts_with p []
contains p (c ∷ t) = starts_with p (c ∷ t) || contains p t

-- The text up to the first space, and the rest from that space on.
unfoldable pub break_space : Text → Text × Text
break_space [] = ([], [])
break_space (c ∷ t) =
    let rest = break_space t in if c == 32 then ([], c ∷ t) else (c ∷ rest.0, rest.1)

-- A character in front of the first of some texts.
abbrev pub prepend : ℕ → List Text → List Text
prepend c [] = (c ∷ []) ∷ []
prepend c (w ∷ ws) = (c ∷ w) ∷ ws

-- `t.split(/ +/)`: the argument says whether the character before was a space.
unfoldable pub split_from : Bool → Text → List Text
split_from after [] = [] ∷ []
split_from after (c ∷ t) =
    let rest = split_from (c == 32) t in
    if c == 32 then (if after then rest else [] ∷ rest) else prepend c rest

-- `t.split(d)` of a character
unfoldable pub split_on : ℕ → Text → List Text
split_on d [] = [] ∷ []
split_on d (c ∷ t) = let rest = split_on d t in if c == d then [] ∷ rest else prepend c rest

-- `ws.join(d)` with a character
unfoldable pub join_on : ℕ → List Text → Text
join_on d [] = []
join_on d (w ∷ []) = w
join_on d (w ∷ v ∷ ws) = w ++ (d ∷ join_on d (v ∷ ws))

-- `t.split(' ')`
unfoldable pub split_space : Text → List Text
split_space [] = [] ∷ []
split_space (c ∷ t) = let rest = split_space t in if c == 32 then [] ∷ rest else prepend c rest
