-- ===== src/Tests/Outgoing.antt =====
-- The outbound queue at concrete inputs.
use haraka.Prelude.{
  Bool, true, ℕ, zero, suc, ◌+◌, ◌≡◌, refl, false, Option, none, some, List, [], ◌∷◌, ◌++◌, map,
  ◌/◌, ◌==◌, arith,
}
use haraka.Prelude.Text.{Text}
use haraka.MessageStream.Writer.{MessageStream, create, added, run, add_line_end}
use haraka.Outbound.Names.{FileName, parse_name, format_name, deferred_name, take_digits, is_rest}
use haraka.Outbound.NameRoundTrip.{IsName, IsNumber, parse_name-deferred_name}
use haraka.Outbound.Todo.{ready as todo_ready}
use haraka.Outbound.Client.{sent, mail, rset, finished}
use haraka.Outbound.Recipients.{asked, deliver, forwarded-dropped}
use haraka.Outbound.Item.{
  cont, given, too_many_failures, hook_bounce, HmailItem, Todo, fail_rcpt, answered, denysoft,
  temp_fail, bounce_respond, ready as item_ready, create as new_item,
}
use haraka.Outbound.Retries.{fail_at, schedule, exhausted, removal, bounce_mail, bounce_respond-out}

-- As many zeros as the number, and one.
abbrev zeros : ℕ → Text
zeros zero = b'0' ∷ []
zeros (suc n) = b'0' ∷ zeros n

zeros-IsNumber : (n : ℕ) → IsNumber (zeros n)
zeros-IsNumber zero = (refl, (refl, tt))
zeros-IsNumber (suc n) = (refl, (refl, (zeros-IsNumber n).1))

-- `5_0_7_1.h`
abbrev file_name : FileName
file_name = record {
  time = b'5' ∷ [];
  attempts = b'0' ∷ [];
  pid = b'7' ∷ [];
  rest = b'_' ∷ b'1' ∷ b'.' ∷ b'h' ∷ [];
}

file_name-IsName : IsName file_name
unfolding is_rest take_digits
file_name-IsName = record {
  time = (refl, (refl, tt));
  attempts = (refl, (refl, tt));
  pid = (refl, (refl, tt));
  rest = refl;
}

parse_name-deferred_name_example :
    parse_name (deferred_name zeros 3 1 (format_name file_name))
    ≡ some (record file_name { time = zeros 3; attempts = zeros 1 })
parse_name-deferred_name_example =
    parse_name-deferred_name zeros zeros-IsNumber 3 1 file_name file_name-IsName

abbrev no_lf : Text → Option ℕ
no_lf t = none

abbrev whole : Text → List Text
whole t = t ∷ []

abbrev takes : List Text → Text → Bool
takes f c = true

abbrev id_bytes : Text → Text
id_bytes t = t

abbrev or_stream : Option MessageStream → MessageStream
or_stream none = create none
or_stream (some s) = s

-- A message of the line `a`.
abbrev message : MessageStream
message = or_stream (add_line_end takes true (run takes (added (97 ∷ 10 ∷ []) ∷ []) (create none)))

-- `{}`
abbrev braces : Text
braces = 123 ∷ 125 ∷ []

abbrev one_brace : Text
one_brace = 123 ∷ []

-- A server that accepts recipient 0, defers 1 and rejects the others.
abbrev codes : ℕ → ℕ
codes zero = 250
codes (suc zero) = 450
codes (suc (suc n)) = 550

codes-answer : (n : ℕ) → (codes n / 100 == 3) ≡ false
codes-answer zero = refl
codes-answer (suc zero) = refl
codes-answer (suc (suc n)) = refl

forwarded-dropped_example :
    (deliver {A = ℕ} (λ q. 251) (0 ∷ [])).out
    ≡ sent mail none ∷ (asked (0 ∷ []) ++ (sent rset none ∷ finished false [] [] [] ∷ []))
forwarded-dropped_example = forwarded-dropped 0 []

abbrev small_todo : Todo
small_todo = record {
  domain = 100 ∷ [];
  mail_from = 97 ∷ [];
  rcpt_to = record { address = 98 ∷ []; dsn_status = some (4, 2, 0); dsn_action = none } ∷ [];
}

abbrev exhausted_item : HmailItem
exhausted_item =
    temp_fail 3 (given [])
      (fail_at zeros 3 (given []) (10 ∷ 20 ∷ []) (item_ready small_todo (new_item [] 0)))

exhausted_example :
    (exhausted_item.out
      ≡ schedule zeros 3 (given []) 0 2 ++ (hook_bounce (too_many_failures (given [])) ∷ []))
    × (exhausted_item.todo
        ≡ some (record small_todo { rcpt_to = map fail_rcpt small_todo.rcpt_to }))
    × (exhausted_item.num_failures ≡ 3)
exhausted_example = exhausted zeros 3 (given []) (10 ∷ 20 ∷ []) [] small_todo (omega arith)

abbrev read_item : HmailItem
read_item = record (new_item [] 0) { todo = some small_todo }

one_reference : read_item.taken ≡ read_item.discards + 1
unfolding new_item
one_reference = omega arith

bounce_respond-out_example :
    (bounce_respond cont (answered denysoft) read_item).out
    ≡ read_item.out ++ (bounce_mail cont (answered denysoft) small_todo.mail_from ++ removal)
bounce_respond-out_example =
    bounce_respond-out cont (answered denysoft) read_item small_todo refl one_reference

abbrev shared_item : HmailItem
shared_item = record (new_item [] 0) { taken = 2 }

shared_lem : shared_item.discards + 2 ≡ shared_item.taken
unfolding new_item
shared_lem = omega arith
