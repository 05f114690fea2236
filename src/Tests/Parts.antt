-- ===== src/Tests/Parts.antt =====
-- The parsers, the header, the timers, the hosts and the chunks at concrete inputs.
use haraka.Prelude.{
  ℕ, ◌+◌, ◌≡◌, ◌≢◌, refl, true, false, none, some, List, [], ◌∷◌, ◌++◌, zero, suc, arith, ltb,
}
use haraka.Prelude.Text.{Text, text, text_eq, to_lower}
use haraka.Header
use haraka.Header.{
  Header, is_own, get_all, remove, or_blank, stored_value, header_line, add as add_in_front,
  add_end,
}
use haraka.Header.Edits.{NoneBegins, remove_lem}
use haraka.Rfc1869.{chew, chew_all, rcpt, ok as accepted, parse as parse_args}
use haraka.Rfc1869.Recipient.{IsRecipient, parse-IsRecipient}
use haraka.Rfc1869.Chew.{chew_all_complete}
use haraka.TimerQueue.{Timer, add, fire, drain}
use haraka.TimerQueue.Order.{Sorted, Until, From, fire_lem}
use haraka.HostPool.{HostPool, is_alive}
use haraka.ChunkEmitter
use haraka.ChunkEmitter.{fill_all, finish, concat}
use haraka.ChunkEmitter.Copy.{AllSized}
use haraka.ChunkEmitter.Stream.{fill_all-finish}

-- `<a> S=1 B`
abbrev mail_line : Text
mail_line = 60 ∷ 97 ∷ 62 ∷ 32 ∷ 83 ∷ 61 ∷ 49 ∷ 32 ∷ 66 ∷ []

chew_all_test : chew_all 10 mail_line [] ≡ (60 ∷ 97 ∷ 62 ∷ [], (83 ∷ 61 ∷ 49 ∷ []) ∷ (66 ∷ []) ∷ [])
unfolding chew_all
chew_all_test = refl

chew_all_complete_example : chew (chew_all 10 mail_line []).0 ≡ none
chew_all_complete_example = chew_all_complete 10 mail_line [] (omega arith)

abbrev soon : Timer
soon = record { fire_time = 5; cb = some 1 }

abbrev late : Timer
late = record { fire_time = 9; cb = some 2 }

abbrev timers : List Timer
timers = soon ∷ late ∷ []

abbrev between : Timer
between = record { fire_time = 7; cb = some 3 }

abbrev three_timers : List Timer
three_timers = soon ∷ between ∷ late ∷ []

add_between : add 4 3 (some 3) timers ≡ some three_timers
unfolding add
add_between = refl

timers-Sorted : Sorted timers
timers-Sorted = ((omega arith, tt), (tt, tt))

fire_lem_example :
    (due : List Timer) × (timers ≡ due ++ (fire 6 timers).1)
    × ((fire 6 timers).0 ≡ drain due)
    × Until 6 due
    × From (6 + 1) (fire 6 timers).1
fire_lem_example = fire_lem 6 timers timers-Sorted

abbrev pool : HostPool
pool = record { hosts = 10 ∷ 20 ∷ 30 ∷ []; dead_hosts = ltb 10; last_i = 0 }

abbrev dead_pool : HostPool
dead_pool = record { hosts = 10 ∷ 20 ∷ []; dead_hosts = λ h. true; last_i = 1 }

all_marked : (j : ℕ) → is_alive dead_pool j ≡ false
unfolding is_alive
all_marked zero = refl
all_marked (suc zero) = refl
all_marked (suc (suc j)) = refl

abbrev inputs : List Text
inputs = (1 ∷ 2 ∷ 3 ∷ []) ∷ (4 ∷ []) ∷ (5 ∷ 6 ∷ []) ∷ []

fill_all_test : (fill_all inputs (ChunkEmitter.create 4)).1 ≡ (1 ∷ 2 ∷ 3 ∷ 4 ∷ []) ∷ []
unfolding fill_all ChunkEmitter.create
fill_all_test = refl

fill_all-finish_example :
    let (e, chunks) = fill_all inputs (ChunkEmitter.create 4) in
    (concat (chunks ++ (finish e).1) ≡ concat inputs)
    × AllSized (ChunkEmitter.create 4).buffer_size chunks
fill_all-finish_example = fill_all-finish 4 inputs

-- `A: x`, `Ab: y` and `B: z`, as they are parsed
abbrev three_headers : Header
three_headers =
    Header.parse
      ((65 ∷ 58 ∷ 32 ∷ 120 ∷ 10 ∷ [])
        ∷ (65 ∷ 98 ∷ 58 ∷ 32 ∷ 121 ∷ 10 ∷ [])
        ∷ (66 ∷ 58 ∷ 32 ∷ 122 ∷ 10 ∷ [])
        ∷ [])
      Header.empty

keys_differ : to_lower (65 ∷ []) ≢ to_lower (66 ∷ [])
unfolding to_lower
keys_differ = ground arith

new_keys_differ : to_lower (or_blank (65 ∷ [])) ≢ to_lower (66 ∷ [])
unfolding to_lower or_blank
new_keys_differ = ground arith

remove_lem_example :
    (get_all (65 ∷ []) (remove (65 ∷ []) three_headers) ≡ [])
    × NoneBegins (to_lower (65 ∷ [])) (remove (65 ∷ []) three_headers).header_list
    × (get_all (66 ∷ []) (remove (65 ∷ []) three_headers) ≡ get_all (66 ∷ []) three_headers)
unfolding is_own text
remove_lem_example = remove_lem (65 ∷ []) (66 ∷ []) three_headers refl refl keys_differ

-- `remove("A")` takes the line of `Ab` too.
remove_prefix_test :
    (remove (65 ∷ []) three_headers).header_list ≡ (66 ∷ 58 ∷ 32 ∷ 122 ∷ 10 ∷ []) ∷ []
unfolding remove to_lower Header.parse text_eq
remove_prefix_test = refl

-- `<a@b>`, which is accepted.
abbrev bracketed : Text
bracketed = b'<' ∷ 97 ∷ 64 ∷ 98 ∷ b'>' ∷ []

parse_bracketed_test : parse_args rcpt (text "TO:" ++ bracketed) true ≡ accepted (bracketed ∷ [])
unfolding parse_args text text_eq
parse_bracketed_test = refl

parse-IsRecipient_example : IsRecipient (parse_args rcpt (text "TO:" ++ bracketed) true)
parse-IsRecipient_example = parse-IsRecipient (text "TO:" ++ bracketed) true
