-- ===== src/Tests/Session.antt =====
-- connection.js and transaction.js at concrete inputs.
use haraka.Prelude.{
  ℕ, ◌+◌, ◌-◌, ◌≡◌, refl, true, false, Option, none, some, List, [], ◌∷◌, length, is_empty, ltb,
}
use haraka.Prelude.Text.{Text, text, text_eq}
use haraka.Env.{Env, Address}
use haraka.Transaction.{Transaction, tempfail, create as create_transaction}
use haraka.Connection.Hooks.Message.{queue_respond}
use haraka.Connection.Laws.RcptOk.{verdict, rcpt_ok_respond-count}
use haraka.Connection.Hooks.Envelope.{rcpt_ok_respond}
use haraka.Transaction.{incr}
use haraka.Connection.Laws.Queue.{tally, counted, queue_respond-count}
use haraka.Connection.Types
use haraka.Connection.Types.{
  Connection, Retval, Message, absent, lines, denysoft, cmd, disconnecting, deny, cont, ReplyLine,
  Hook,
}
use haraka.Connection.Hooks.Envelope.{rcpt_respond}
use haraka.Connection.System.{Plugins, now, Event, input, answered, closed, immediate, run}
use haraka.Connection.Invariant.Core.{Inv}
use haraka.Connection.Invariant.Runs.{run_from_start}
use haraka.Connection.Laws.Flow.{idle}
use haraka.Connection.Laws.Verdicts.{rcpt_respond-IsRefused, IsRefused}

abbrev find_lf : Text → ℕ → Option ℕ
find_lf [] n = none
find_lf (c ∷ t) n =
    let rest = find_lf t (n - 1) in
    elim (ltb 0 n) [
      | false ↦ none
      | true ↦ elim (text_eq (c ∷ []) (10 ∷ [])) [
        | true ↦ some 0
        | false ↦ elim rest [ none ↦ none | some i ↦ some (i + 1) ]
      ]
    ]

-- Functions in the place of the packages: every text is an address, of IPv4.
abbrev host_env : Env
host_env = record {
  index_of_lf = find_lf;
  parse_address = λ t. some (record { format = t });
  is_valid_ipv4 = λ t. true;
  is_valid_ipv6 = is_empty;
  exceeds = λ t n. ltb n (length t);
  parse_int = length;
  error_text = λ t. t;
  encode_qp = λ t. t;
  body_line = λ before t. t;
  body_end = λ t. [];
  show_number = λ n. b'1' ∷ [];
  date = text "Thu";
  hostname = text "host";
  version = text "2";
  me = text "host";
  smtp_greeting = [];
  databytes = 0;
  strict_rfc1869 = false;
  max_received_count = 100;
  max_header_lines = 1000;
  internalcmd_key = [];
}

-- Plugins that change nothing and answer each hook with CONT at once.
abbrev agreeing : Plugins
agreeing = record { run = λ h c. c; answer = λ h c. now cont absent }

abbrev defaults : Types.Settings
defaults = record {
  banner_includes_uuid = false;
  deny_includes_uuid = none;
  header_hide_version = false;
  max_line_length = 0;
  max_data_line_length = 0;
  databytes = 0;
}

abbrev noop_line : Text
noop_line = b'N' ∷ b'O' ∷ b'O' ∷ b'P' ∷ 13 ∷ 10 ∷ []

abbrev session : List (Event host_env agreeing)
session = answered Types.connect cont absent ∷ input noop_line ∷ immediate ∷ closed ∷ []

run_from_start_example : Inv (run host_env agreeing 3 session (Types.create (text "A") defaults))
run_from_start_example =
    run_from_start host_env agreeing (λ h c i. i) 3 session (text "A") defaults
      (tt, (tt, (tt, (tt, tt))))

abbrev ann : Address
ann = record { format = text "<a>" }

abbrev bob : Address
bob = record { format = text "<b>" }

abbrev to_two : Transaction
to_two = record (create_transaction (text "A.1")) { rcpt_to = ann ∷ bob ∷ [] }

abbrev open_connection : Connection
open_connection = record (Types.create (text "A") defaults) {
  state = cmd;
  transaction = some to_two;
}

abbrev refused_connection : Connection
refused_connection = rcpt_respond idle denysoft absent open_connection

rcpt_respond-IsRefused_example :
    IsRefused (ann ∷ []) tempfail open_connection to_two refused_connection
unfolding Types.create create_transaction
rcpt_respond-IsRefused_example =
    rcpt_respond-IsRefused denysoft absent tempfail bob (ann ∷ []) to_two open_connection refl refl
      (record { alive = refl; writable = refl }) refl

abbrev nearly_full : Connection
nearly_full = record open_connection { max_bytes = 3 }

abbrev too_long : Text
too_long = 65 ∷ 66 ∷ 67 ∷ 13 ∷ 10 ∷ []

queue_respond-count_example :
    (queue_respond host_env idle cont absent open_connection).msg_count
    ≡ counted (tally cont) open_connection.msg_count
unfolding Types.create create_transaction
queue_respond-count_example =
    queue_respond-count host_env cont absent to_two open_connection refl
      (record { alive = refl; writable = refl })

rcpt_ok_respond-count_example :
    (rcpt_ok_respond idle denysoft absent open_connection).rcpt_count
    ≡ incr (verdict denysoft) open_connection.rcpt_count
unfolding Types.create create_transaction
rcpt_ok_respond-count_example =
    rcpt_ok_respond-count denysoft absent bob (ann ∷ []) to_two open_connection refl refl
      (record { alive = refl; writable = refl })
