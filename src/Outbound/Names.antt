-- ===== src/Outbound/Names.antt =====
-- outbound.js: the names of the queue's files, `$time_$attempts_$pid_$uniq.$host`.
use haraka.Prelude.{
  ℕ, ◌+◌, ◌-◌, Bool, false, Option, none, some, [], ◌∷◌, ◌++◌, ◌&&◌, ◌||◌, not, ◌==◌, ◌>>=◌, leb,
  is_empty, if◌then◌else◌,
}
use haraka.Prelude.Text.{Text, text_eq}

-- The groups of `fn_re`.
pub record FileName : Type 0 where
  pub time : Text
  pub attempts : Text
  pub pid : Text
  pub rest : Text

abbrev pub is_digit : ℕ → Bool
is_digit c = leb b'0' c && leb c b'9'

-- \d*, and what is behind it
unfoldable pub take_digits : Text → Text × Text
take_digits [] = ([], [])
take_digits (c ∷ t) = let r = take_digits t in if is_digit c then (c ∷ r.0, r.1) else ([], c ∷ t)

abbrev pub has_break : Text → Bool
has_break [] = false
has_break (c ∷ t) = c == 10 || c == 13 || has_break t

-- \..*$ behind digits
abbrev pub is_host_part : Text → Bool
is_host_part [] = false
is_host_part (c ∷ t) = c == b'.' && not (has_break t)

-- _\d+\..*$
unfoldable pub is_rest : Text → Bool
unfolding take_digits
is_rest [] = false
is_rest (c ∷ t) = c == b'_' && not (is_empty (take_digits t).0) && is_host_part (take_digits t).1

abbrev pub field_of : Text × Text → Option (Text × Text)
field_of ([], r) = none
field_of (d ∷ ds, []) = none
field_of (d ∷ ds, c ∷ r) = if c == b'_' then some (d ∷ ds, r) else none

-- (\d+)_
unfoldable pub take_field : Text → Option (Text × Text)
unfolding take_digits
take_field t = field_of (take_digits t)

abbrev pub last_of : Text × Text → Option (Text × Text)
last_of ([], r) = none
last_of (d ∷ ds, r) = if is_rest r then some (d ∷ ds, r) else none

-- (\d+)(_\d+\..*)$
unfoldable pub take_last : Text → Option (Text × Text)
unfolding take_digits is_rest
take_last t = last_of (take_digits t)

-- `fn_re.exec(name)`: /^(\d+)_(\d+)_(\d+)(_\d+\..*)$/
unfoldable pub parse_name : Text → Option FileName
unfolding take_field take_last
parse_name name = do
  (time, r) ← take_field name
  (attempts, q) ← take_field r
  (pid, rest) ← take_last q
  some (record { time = time; attempts = attempts; pid = pid; rest = rest })

unfoldable pub format_name : FileName → Text
format_name f = f.time ++ (b'_' ∷ (f.attempts ++ (b'_' ∷ (f.pid ++ f.rest))))

-- `MAX_UNIQ`
abbrev pub max_uniq : ℕ
max_uniq = 10000

-- `_next_uniq`: the number, and the next.
unfoldable pub next_uniq : ℕ → ℕ × ℕ
next_uniq uniq = (uniq, if leb max_uniq (uniq + 1) then 1 else uniq + 1)

-- `_fname`, at a time, in a process, on a host; `show` is the language's String(n).
unfoldable pub fname : (ℕ → Text) → ℕ → ℕ → Text → ℕ → Text × ℕ
unfolding next_uniq format_name
fname show time pid host uniq =
    let (n, next) = next_uniq uniq in
    (
      format_name (record {
        time = show time;
        attempts = b'0' ∷ [];
        pid = show pid;
        rest = b'_' ∷ (show n ++ (b'.' ∷ host));
      }),
      next,
    )

-- The name under the process that takes it over, in `load_queue_files`.
unfoldable pub grab_name : (ℕ → Text) → ℕ → Text → Text → Option Text
unfolding format_name
grab_name show my_pid pid name = elim (parse_name name) [
  | none ↦ none
  | some f ↦ if text_eq f.pid pid then some (format_name (record f { pid = show my_pid })) else none
]

-- `filename.replace(/^(\d+)_(\d+)_/, until + '_' + num_failures + '_')`
unfoldable pub deferred_name : (ℕ → Text) → ℕ → ℕ → Text → Text
deferred_name show until num_failures name = elim (take_field name) [
  | none ↦ name
  | some (time, r) ↦ elim (take_field r) [
    | none ↦ name
    | some (attempts, q) ↦ show until ++ (b'_' ∷ (show num_failures ++ (b'_' ∷ q)))
  ]
]

-- `good_file` of `load_queue_files`: a dot-file is removed, and a name that does not fit is left.
pub data Found : Type 0 where
  leftover unrecognized : Found
  good : FileName → Found

unfoldable pub good_file : Text → Found
unfolding parse_name
good_file [] = unrecognized
good_file (c ∷ t) =
    if c == b'.'
    then leftover
    else elim (parse_name (c ∷ t)) [ none ↦ unrecognized | some f ↦ good f ]

-- What becomes of a good file: `next_process <= cur_time` of two numbers, `parse_int` reading the text.
pub data Loading : Type 0 where
  at_once : Loading
  after_ms : ℕ → Loading

unfoldable pub load_file : (Text → ℕ) → ℕ → FileName → Loading
load_file parse_int cur_time f =
    if leb (parse_int f.time) cur_time then at_once else after_ms (parse_int f.time - cur_time)
