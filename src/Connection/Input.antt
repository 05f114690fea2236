-- ===== src/Connection/Input.antt =====
-- connection.js: the input of the client, cut into lines and handed to the commands.
use haraka.Prelude.{
  ℕ, zero, suc, ◌+◌, ◌-◌, Bool, true, false, Option, none, some, [], ◌∷◌, ◌++◌, ◌&&◌, ◌||◌, not,
  is_empty, length, take, drop, if◌then◌else◌, ltb,
}
use haraka.Prelude.Text.{Text, text, text_eq, to_lower, to_upper, starts_with}
use haraka.Env.{Env}
use haraka.Rfc1869.{has}
use haraka.Transaction.{Transaction}
use haraka.Connection.Types
use haraka.Connection.Types.{
  State, cmd, looping, in_data, pause, pause_smtp, pause_data, disconnecting, disconnected,
  is_disconnecting, is_pause_data, is_data_mode, Connection, Calls,
}
use haraka.Connection.Reply.{respond, disconnect, nothing, throw}
use haraka.Connection.Hooks.Session.{say}
use haraka.Connection.Hooks.Envelope.{with_transaction}
use haraka.Connection.Commands.Session.{
  cmd_proxy, cmd_internalcmd, cmd_helo, cmd_ehlo, cmd_quit, cmd_rset, cmd_vrfy, cmd_noop, cmd_help,
}
use haraka.Connection.Commands.Envelope.{cmd_mail, cmd_rcpt}
use haraka.Connection.Commands.Body.{cmd_data, accumulate_data}
use haraka.Connection.Words.{
  proxy, internalcmd, helo, ehlo, quit, rset, vrfy, noop, help, mail, rcpt, data_word, returned,
  left, Command, Exit, command_words, drop_line_end, find_command, is_group_command, is_handshake,
  is_hello, is_pause, is_waiting, max_length, split_command,
}

module _ (env : Env) (calls : Calls) where
  -- The call of the method.
  unfoldable pub run_command : Command → Text → Connection → Connection
  run_command proxy line = cmd_proxy env calls line
  run_command internalcmd line = cmd_internalcmd env calls line
  run_command helo line = cmd_helo env calls line
  run_command ehlo line = cmd_ehlo env calls line
  run_command quit line = cmd_quit env calls line
  run_command rset line = cmd_rset env calls line
  run_command vrfy line = cmd_vrfy env calls
  run_command noop line = cmd_noop env calls
  run_command help line = cmd_help env calls
  run_command mail line = cmd_mail env calls line
  run_command rcpt line = cmd_rcpt env calls line
  run_command data_word line = cmd_data env calls line

  -- The `catch` around it.
  unfoldable pub catch_error : Connection → Connection
  catch_error c =
      if c.fault
      then respond calls 421 (say "Internal Server Error") (disconnect calls)
          (record c { fault = false })
      else c

  -- A line in STATE_CMD.
  unfoldable pub process_command : Connection → Connection
  unfolding split_command find_command command_words to_lower run_command catch_error
  process_command c = elim (split_command c.current_line) [
    | none ↦ calls.run_hooks (Types.unrecognized_command (c.current_line ∷ [])) c
    | some (word, remaining) ↦ elim (find_command (to_lower word) command_words) [
      | some k ↦ catch_error (run_command k remaining c)
      | none ↦ calls.run_hooks (Types.unrecognized_command (word ∷ remaining ∷ [])) c
    ]
  ]

  abbrev pub is_quit : Text → Bool
  is_quit line = text_eq (to_upper line) (text "QUIT")

  -- The line by the state.
  unfoldable pub process_state : State → Connection → Connection
  unfolding process_command text_eq to_upper
  process_state cmd c = process_command (record c { state = pause_smtp })
  process_state looping c =
      if is_quit c.current_line
      then cmd_quit env calls [] c
      else respond calls c.loop_code c.loop_msg nothing c
  process_state _ c = throw c

  -- Behind the tests on the state: 8-bit characters, and then the state.
  unfoldable pub process_text : Connection → Connection
  unfolding has is_handshake process_state
  process_text c =
      if has (ltb 127) c.current_line
      then (if is_handshake c.current_line
          then disconnect calls (
              respond calls 501 (say "SSL attempted over a non-SSL socket") nothing
                (record c { current_data = [] }))
          else respond calls 501 (say "Syntax error (8-bit characters not allowed)") nothing c)
      else process_state c.state c

  abbrev pub is_in_data : State → Bool
  is_in_data in_data = true
  is_in_data s = false

  -- `process_line`
  unfoldable pub process_line : Text → Connection → Connection
  unfolding drop_line_end process_text
  process_line line c =
      if is_disconnecting c.state
      then c
      else if is_in_data c.state
      then accumulate_data env calls line c
      else process_text (record c { current_line = drop_line_end line })

  abbrev pub reschedule : Connection → Connection
  reschedule c = record c { early_talker = true; scheduled = c.scheduled + 1 }

  -- The PROXY line, which is read before the greeting.
  abbrev pub take_proxy : Text → Connection → Connection
  take_proxy rest c = record c {
    proxy = record c.proxy { timer = false };
    state = cmd;
    current_data = rest;
  }

  -- A line that came too early: from a client that has not sent EHLO.
  unfoldable pub early_step : Text → Connection → Option Exit × Connection
  unfolding is_hello
  early_step line c =
      if c.proxy.allowed && is_hello line then (some returned, c) else (some left, reschedule c)

  -- The same, from a client that may send commands in groups.
  unfoldable pub group_step : Text → Text → Connection → Option Exit × Connection
  unfolding is_group_command
  group_step line rest c =
      if is_group_command line || is_empty rest
      then (some left, record c { pipelining = true })
      else (some left, reschedule c)

  -- A line while the connection waits for the plugins, or none.
  unfoldable pub line_step : Text → Text → Connection → Option Exit × Connection
  unfolding early_step group_step process_line
  line_step line rest c =
      if is_waiting c.state && not c.esmtp
      then early_step line c
      else if is_waiting c.state
      then group_step line rest c
      else (none, process_line line (record c { current_data = rest }))

  -- One round of the loop: a line of `n` characters stands at the front of the buffer. The result
  -- says whether the loop goes on, and how it ends otherwise.
  unfoldable pub input_step : ℕ → Connection → Option Exit × Connection
  unfolding process_line starts_with line_step
  input_step n c =
      let line = take n c.current_data in
      let rest = drop n c.current_data in
      if is_pause_data c.state
      then (some returned, c)
      else if is_pause c.state && c.proxy.allowed && starts_with (text "PROXY ") line
      then (none, process_line line (take_proxy rest c))
      else line_step line rest c

  -- The `while` loop, with the rounds it may make; an exception leaves it.
  unfoldable pub input_loop : ℕ → ℕ → Connection → Exit × Connection
  unfolding input_step
  input_loop zero max c = (left, c)
  input_loop (suc n) max c = elim (env.index_of_lf c.current_data max) [
    | none ↦ (left, c)
    | some offset ↦
        let r = input_step (offset + 1) c in
        elim r.0 [
          | some e ↦ (e, r.1)
          | none ↦ elim r.1.fault [ true ↦ (returned, r.1) | false ↦ input_loop n max r.1 ]
        ]
  ]

  -- A line that is too long, behind the loop.
  abbrev pub is_overlong : ℕ → Connection → Bool
  is_overlong max c =
      ltb max (length c.current_data)
      && elim (env.index_of_lf c.current_data max) [ none ↦ true | some i ↦ false ]

  abbrev pub flag_long_line : Transaction → Transaction
  flag_long_line t = record t { data_line_length_exceeded = true }

  -- A fold is put into an overlong line of the message.
  unfoldable pub fold_line : ℕ → Connection → Connection
  fold_line max c = with_transaction c λ t. calls.process_data (record c {
    transaction = some (flag_long_line t);
    current_data = take (max - 2) c.current_data ++ (13 ∷ 10 ∷ 32 ∷ drop (max - 2) c.current_data);
  })

  unfoldable pub check_overlong : ℕ → Connection → Connection
  unfolding fold_line
  check_overlong max c =
      if is_overlong max c
      then (if is_data_mode c.state
          then fold_line max c
          else respond calls 521 (say "Command line too long") (disconnect calls)
              (record c { client = record c.client { paused = true }; current_data = [] }))
      else c

  -- `_process_data`
  unfoldable pub process_buffer : ℕ → Connection → Connection
  unfolding input_loop check_overlong
  process_buffer rounds c =
      if is_disconnecting c.state
      then c
      else let max = max_length c in
        let r = input_loop rounds max c in
        elim r.0 [ returned ↦ r.1 | left ↦ check_overlong max r.1 ]

  -- `process_data`
  unfoldable pub process_data : Text → Connection → Connection
  process_data input c =
      if is_disconnecting c.state
      then c
      else calls.process_data (record c { current_data = c.current_data ++ input })
