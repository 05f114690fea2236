-- ===== src/Outbound/NameRoundTrip.antt =====
-- outbound.js: the names of the queue's files, written and read.
use haraka.Prelude.{
  ℕ, ◌>>=◌, ◌≡◌, refl, ◌∙◌, ap, Bool, true, false, some, [], ◌∷◌, ◌++◌, is_empty, Bool-cases, inl,
  inr, arith,
}
use haraka.Prelude.Text.{Text, text_eq_refl}
use haraka.Outbound.Names.{
  FileName, is_digit, take_digits, is_rest, take_field, take_last, field_of, last_of, parse_name,
  format_name, deferred_name, grab_name, fname, next_uniq, has_break,
}

abbrev pub AllDigits : Text → Type 0
AllDigits [] = Unit
AllDigits (c ∷ t) = (is_digit c ≡ true) × AllDigits t

-- Digits, one at least.
abbrev pub IsNumber : Text → Type 0
IsNumber t = (is_empty t ≡ false) × AllDigits t

abbrev begins_with_digit : Text → Bool
begins_with_digit [] = false
begins_with_digit (c ∷ t) = is_digit c

take_digits-append :
    (ds r : Text) → AllDigits ds → begins_with_digit r ≡ false → take_digits (ds ++ r) ≡ (ds, r)
unfolding take_digits
take_digits-append [] [] d e = refl
take_digits-append [] (c ∷ r) d e = rw e
take_digits-append (c ∷ ds) r d e = rw (d.0, take_digits-append ds r d.1 e)

take_digits-parts :
    (t : Text) → (t ≡ (take_digits t).0 ++ (take_digits t).1) × AllDigits (take_digits t).0
unfolding take_digits
take_digits-parts [] = (refl, tt)
take_digits-parts (c ∷ t) = elim (Bool-cases (is_digit c)) [
  | inl d ↦ let (e, a) = take_digits-parts t in rw d (ap (c ∷◌) e, (d, a))
  | inr n ↦ rw n (refl, tt)
]

-- A name that the queue can read.
pub record IsName (f : FileName) : Type 0 where
  pub time : IsNumber f.time
  pub attempts : IsNumber f.attempts
  pub pid : IsNumber f.pid
  pub rest : is_rest f.rest ≡ true

take_field-append : (ds r : Text) → IsNumber ds → take_field (ds ++ (b'_' ∷ r)) ≡ some (ds, r)
unfolding take_field
take_field-append [] r n = cc (n.0)
take_field-append (d ∷ ds) r n = ap field_of (take_digits-append (d ∷ ds) (b'_' ∷ r) n.1 refl)

rest-no_digit : (r : Text) → is_rest r ≡ true → begins_with_digit r ≡ false
unfolding is_rest
rest-no_digit [] h = refl
rest-no_digit (c ∷ t) h = ground arith

take_last-append :
    (ds r : Text) → IsNumber ds → is_rest r ≡ true → take_last (ds ++ r) ≡ some (ds, r)
unfolding take_last
take_last-append [] r n h = cc (n.0)
take_last-append (d ∷ ds) r n h =
    ap last_of (take_digits-append (d ∷ ds) r n.1 (rest-no_digit r h)) ∙ rw h refl

-- A name that is written is read as it was.
pub parse_name-format_name : (f : FileName) → IsName f → parse_name (format_name f) ≡ some f
unfolding parse_name format_name
parse_name-format_name f n =
    rw (take_field-append f.time (f.attempts ++ (b'_' ∷ (f.pid ++ f.rest))) n.time) (
      rw (take_field-append f.attempts (f.pid ++ f.rest) n.attempts)
        (rw (take_last-append f.pid f.rest n.pid n.rest) refl))

-- The name of a mail that is deferred is read as the new time and number of failures, and the
-- process and the rest as they were.
pub parse_name-deferred_name :
    (show : ℕ → Text)
    → ((n : ℕ) → IsNumber (show n))
    → (until num_failures : ℕ) (f : FileName) → IsName f
    → parse_name (deferred_name show until num_failures (format_name f))
      ≡ some (record f { time = show until; attempts = show num_failures })
unfolding deferred_name format_name
parse_name-deferred_name show numbers until k f n =
    rw (deferred_name, take_field-append f.time (f.attempts ++ (b'_' ∷ (f.pid ++ f.rest))) n.time)
      (rw (take_field-append f.attempts (f.pid ++ f.rest) n.attempts) (
        parse_name-format_name (record f { time = show until; attempts = show k })
          (record { time = numbers until; attempts = numbers k; pid = n.pid; rest = n.rest })))

-- A process that takes over the files of another takes those under its number, and the new name is
-- read as the old with the process's own number.
pub grab_name-reads :
    (show : ℕ → Text)
    → ((n : ℕ) → IsNumber (show n))
    → (my_pid : ℕ) (f : FileName) → IsName f
    → grab_name show my_pid f.pid (format_name f) >>= parse_name
      ≡ some (record f { pid = show my_pid })
unfolding grab_name
grab_name-reads show numbers my_pid f n =
    rw (grab_name, parse_name-format_name f n)
      (rw (text_eq_refl f.pid) (
        parse_name-format_name (record f { pid = show my_pid })
          (record { time = n.time; attempts = n.attempts; pid = numbers my_pid; rest = n.rest })))

number-rest :
    (ds t : Text) → IsNumber ds → has_break t ≡ false → is_rest (b'_' ∷ (ds ++ (b'.' ∷ t))) ≡ true
unfolding is_rest
number-rest ds t n hb = rw (take_digits-append ds (b'.' ∷ t) n.1 refl, n.0) (rw hb refl)

-- A name that `_fname` makes is read as its time, no attempt, and its process.
pub fname-parses :
    (show : ℕ → Text)
    → ((n : ℕ) → IsNumber (show n))
    → (time pid : ℕ) (host : Text) → has_break host ≡ false
    → (uniq : ℕ)
    → parse_name (fname show time pid host uniq).0
      ≡ some (record {
        time = show time;
        attempts = b'0' ∷ [];
        pid = show pid;
        rest = b'_' ∷ (show uniq ++ (b'.' ∷ host));
      })
unfolding fname next_uniq
fname-parses show numbers time pid host hb uniq = parse_name-format_name _ (record {
  time = numbers time;
  attempts = (refl, (refl, tt));
  pid = numbers pid;
  rest = number-rest (show uniq) host (numbers uniq) hb;
})
