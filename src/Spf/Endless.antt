-- ===== src/Spf/Endless.antt =====
-- spf.js: a sender whose address has macros: the loop of `expand_macros`.
use haraka.Prelude.{
  ℕ, zero, suc, ◌+◌, ◌≡◌, refl, sym, ap, ◌∙◌, Option, none, some, [], ◌∷◌, drop, false, arith,
}
use haraka.Prelude.Text.{Text, text, starts_with, lower, split_on}
use haraka.Spf.Macros.{
  Sender, Macro, macro_value, Expansion, find_macro, match_macro, match_reverse, match_delimiter,
  close, leading_digits, transform, replace_first, expand_one, expand_loop, expand_macros,
}

-- `%{l}`, so many times, in front of a text.
abbrev pub macros : ℕ → Text → Text
macros zero t = t
macros (suc k) t = b'%' ∷ b'{' ∷ b'l' ∷ b'}' ∷ macros k t

abbrev local : Macro
local = record {
  letter = b'l';
  digits = [];
  reverse = false;
  delimiter = b'.';
  matched = macros 1 [];
}

find_macro-macros : (i k : ℕ) (t : Text) → find_macro i (macros (suc k) t) ≡ some (i, local)
unfolding find_macro match_macro match_reverse match_delimiter close leading_digits lower text
find_macro-macros i k t = refl

-- The macros that were found, and their characters.
abbrev more : ℕ → ℕ → ℕ
more zero k = k
more (suc j) k = suc (more j k)

abbrev behind : ℕ → ℕ
behind zero = 0
behind (suc j) = suc (suc (suc (suc (behind j))))

more-suc : (j k : ℕ) → more j (suc k) ≡ suc (more j k)
more-suc zero k = refl
more-suc (suc j) k = ap suc (more-suc j k)

drop-macros : (j k : ℕ) (t : Text) → drop (behind j) (macros (more j k) t) ≡ macros k t
drop-macros zero k t = refl
drop-macros (suc j) k t = drop-macros j k t

expand_one-local :
    (x : Sender) (d tail : Text) (i l k : ℕ) (r : Option Text)
    → x.mail_from ≡ macros 3 (b'@' ∷ d)
    → expand_one x i local
        (record { str = b':' ∷ macros (suc k) tail; last_index = l; replace = r })
      ≡ record {
        str = b':' ∷ macros (suc (suc (suc k))) tail;
        last_index = i + 4;
        replace = some (macros 3 []);
      }
unfolding expand_one macro_value split_on transform replace_first starts_with text
expand_one-local x d tail i l k r m = rw m refl

-- After so many rounds: twice as many macros were written as were found.
abbrev after : ℕ → Text → Option Text → Expansion
after j tail r = record {
  str = b':' ∷ macros (more j (suc j)) tail;
  last_index = suc (behind j);
  replace = r;
}

expand_loop-found :
    (x : Sender) (n i : ℕ) (m : Macro) (e : Expansion)
    → find_macro e.last_index (drop e.last_index e.str) ≡ some (i, m)
    → expand_loop x (suc n) e ≡ expand_loop x n (expand_one x i m e)
unfolding expand_loop
expand_loop-found x n i m e h =
    ap (λ o. elim o [ none ↦ some e.str | some (j, l) ↦ expand_loop x n (expand_one x j l e) ]) h

module _ (x : Sender) (d tail : Text) (from : x.mail_from ≡ macros 3 (b'@' ∷ d)) where
  expand_one-after :
      (j l : ℕ) (r : Option Text)
      → expand_one x (suc (behind j)) local (record (after j tail r) { last_index = l })
        ≡ after (suc j) tail (some (macros 3 []))
  expand_one-after j l r =
      ap
        (λ k.
          expand_one x (suc (behind j)) local
            (record { str = b':' ∷ macros k tail; last_index = l; replace = r }))
        (more-suc j j)
      ∙ expand_one-local x d tail (suc (behind j)) l (more j j) r from
      ∙ ap
          (λ k. record {
            str = b':' ∷ macros k tail;
            last_index = suc (behind j) + 4;
            replace = some (macros 3 []);
          })
          (ap suc (ap suc (sym (more-suc j j)) ∙ sym (more-suc j (suc j))))
      ∙ ap
          (λ i. record {
            str = b':' ∷ macros (more (suc j) (suc (suc j))) tail;
            last_index = i;
            replace = some (macros 3 []);
          })
          (omega arith)

  expand_loop-after : (n j : ℕ) (r : Option Text) → expand_loop x n (after j tail r) ≡ none
  unfolding expand_loop
  expand_loop-after zero j r = refl
  expand_loop-after (suc n) j r =
      expand_loop-found x n (suc (behind j)) local (after j tail r) (
        ap (find_macro (suc (behind j))) (drop-macros j (suc j) tail)
        ∙ find_macro-macros (suc (behind j)) j tail)
      ∙ ap (expand_loop x n) (expand_one-after j (suc (behind j)) r)
      ∙ expand_loop-after n (suc j) (some (macros 3 []))

  -- Where the local part of the sender's address is `%{l}%{l}%{l}`, and a term has `%{l}` behind its
  -- colon: the loop that expands it runs out of any fuel, so it does not end.
  pub expand_macros-endless : (n : ℕ) → expand_macros x n (b':' ∷ macros 1 tail) ≡ none
  unfolding expand_macros expand_loop
  expand_macros-endless zero = refl
  expand_macros-endless (suc n) =
      let h =
        ap (expand_loop x n) (expand_one-after 0 0 none)
        ∙ expand_loop-after n 1 (some (macros 3 [])) in
      rw h refl
