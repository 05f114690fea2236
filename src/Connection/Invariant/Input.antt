-- ===== src/Connection/Invariant/Input.antt =====
-- The input of connection.js keeps the invariant.
use haraka.Prelude.{
  ℕ, zero, suc, ◌+◌, ◌≡◌, refl, Bool, true, false, none, some, Option, [], ◌∷◌, ◌&&◌, ◌||◌, not,
  if◌then◌else◌, is_empty, take, drop, ltb,
}
use haraka.Prelude.Text.{Text, starts_with, text, to_lower}
use haraka.Env.{Env}
use haraka.Rfc1869.{has}
use haraka.Connection.Types
use haraka.Connection.Types.{
  State, cmd, looping, in_data, pause, pause_smtp, is_disconnecting, is_pause_data, is_data_mode,
  Connection, Calls, Message,
}
use haraka.Connection.Reply.{nothing}
use haraka.Connection.Words.{
  Command, proxy, internalcmd, helo, ehlo, quit, rset, vrfy, noop, help, mail, rcpt, data_word,
  split_command, find_command, command_words, is_handshake, is_pause, is_waiting, is_hello,
  is_group_command, max_length, returned, left, Exit, drop_line_end,
}
use haraka.Connection.Input.{
  run_command, catch_error, process_command, process_state, process_text, process_line, input_step,
  input_loop, check_overlong, fold_line, process_buffer, process_data, is_in_data, is_quit,
  is_overlong, reschedule, take_proxy, early_step, group_step, line_step, flag_long_line,
}
use haraka.Connection.Commands.Session.{cmd_vrfy, cmd_noop, cmd_help}
use haraka.Connection.Invariant.Core.{
  Inv, Keeps, CallsKeep, respond-Keeps, disconnect-Keeps, nothing-Keeps, throw-Keeps, if-Inv,
  Option-elim-Inv,
}
use haraka.Connection.Invariant.Envelope.{with_counts-Inv, with_transaction-Inv}
use haraka.Connection.Invariant.Commands.{
  cmd_proxy-Keeps, cmd_internalcmd-Keeps, cmd_helo-Keeps, cmd_ehlo-Keeps, cmd_quit-Keeps,
  cmd_rset-Keeps, cmd_mail-Keeps, cmd_rcpt-Keeps,
}
use haraka.Connection.Invariant.Data.{cmd_data-Keeps, accumulate_data-Keeps}

-- Changes of fields that the invariant does not read.
pub alike :
    {c d : Connection}
    → Inv c
    → c.client.sent ≡ d.client.sent
    → c.prev_state ≡ d.prev_state
    → c.transaction ≡ d.transaction
    → c.rcpt_count ≡ d.rcpt_count
    → Inv d
alike h e f g i = record {
  replies = rw (← e) h.replies;
  resumable = rw (← f) h.resumable;
  counted = rw (← g, ← i) h.counted;
}

reschedule-Keeps : (env : Env) (calls : Calls) → Keeps (reschedule env calls)
reschedule-Keeps env calls c h = alike h refl refl refl refl

-- The rules for code that returns a connection behind a value.
if-second :
    {A : Type 0} (b : Bool) (x y : A × Connection) → Inv x.1 → Inv y.1 → Inv (if b then x else y).1
if-second true x y h g = h
if-second false x y h g = g

Option-second :
    {A B : Type 0} (o : Option A) (x : B × Connection) (f : A → B × Connection)
    → Inv x.1
    → ((a : A) → Inv (f a).1)
    → Inv (elim o as (λ a. B × Connection) [ none ↦ x | some a ↦ f a ]).1
Option-second none x f h g = h
Option-second (some a) x f h g = g a

-- What follows a round of the loop.
round-second :
    (o : Option Exit) (b : Bool) (d : Connection) (rest : Exit × Connection)
    → Inv d
    → Inv rest.1
    → Inv
        (elim o as (λ a. Exit × Connection) [
          | some e ↦ (e, d)
          | none ↦ elim b [ true ↦ (returned, d) | false ↦ rest ]
        ]).1
round-second none true d rest h g = h
round-second none false d rest h g = g
round-second (some e) b d rest h g = h

exit-Inv : (e : Exit) (x y : Connection) → Inv x → Inv y → Inv (elim e [ returned ↦ x | left ↦ y ])
exit-Inv returned x y h g = h
exit-Inv left x y h g = g

module _ (env : Env) {calls : Calls} (k : CallsKeep calls) where
  run_command-Keeps : (w : Command) (line : Text) → Keeps (run_command env calls w line)
  unfolding run_command cmd_vrfy cmd_noop cmd_help
  run_command-Keeps proxy line = cmd_proxy-Keeps env k line
  run_command-Keeps internalcmd line = cmd_internalcmd-Keeps env k line
  run_command-Keeps helo line = cmd_helo-Keeps env k line
  run_command-Keeps ehlo line = cmd_ehlo-Keeps env k line
  run_command-Keeps quit line = cmd_quit-Keeps env k line
  run_command-Keeps rset line = cmd_rset-Keeps env k line
  run_command-Keeps vrfy line = k.hooks Types.vrfy tt
  run_command-Keeps noop line = k.hooks Types.noop tt
  run_command-Keeps help line = respond-Keeps k 250 _ nothing nothing-Keeps
  run_command-Keeps mail line = cmd_mail-Keeps env k line
  run_command-Keeps rcpt line = cmd_rcpt-Keeps env k line
  run_command-Keeps data_word line = cmd_data-Keeps env k line

  catch_error-Keeps : Keeps (catch_error env calls)
  unfolding catch_error
  catch_error-Keeps c h =
      if-Inv c.fault _ _
        (respond-Keeps k 421 _ _ (disconnect-Keeps k) _ (alike h refl refl refl refl)) h

  process_command-Keeps : Keeps (process_command env calls)
  unfolding process_command
  process_command-Keeps c h =
      Option-elim-Inv (split_command c.current_line) _ _
        (k.hooks (Types.unrecognized_command (c.current_line ∷ [])) tt c h)
        λ r e.
          Option-elim-Inv (find_command (to_lower r.0) command_words) _ _
            (k.hooks (Types.unrecognized_command (r.0 ∷ r.1 ∷ [])) tt c h)
            λ w f. catch_error-Keeps _ (run_command-Keeps w r.1 c h)

  process_state-Keeps : (s : State) → Keeps (process_state env calls s)
  unfolding process_state
  process_state-Keeps cmd c h =
      process_command-Keeps (record c { state = pause_smtp }) (alike h refl refl refl refl)
  process_state-Keeps looping c h =
      if-Inv (is_quit env calls c.current_line) _ _ (cmd_quit-Keeps env k [] c h)
        (respond-Keeps k c.loop_code c.loop_msg nothing nothing-Keeps c h)
  process_state-Keeps _ c h = throw-Keeps c h

  process_text-Keeps : Keeps (process_text env calls)
  unfolding process_text
  process_text-Keeps c h =
      if-Inv (has (ltb 127) c.current_line) _ _
        (if-Inv (is_handshake c.current_line) _ _
          (disconnect-Keeps k _
            (respond-Keeps k 501 _ nothing nothing-Keeps _ (alike h refl refl refl refl)))
          (respond-Keeps k 501 _ nothing nothing-Keeps c h))
        (process_state-Keeps c.state c h)

  process_line-Keeps : (line : Text) → Keeps (process_line env calls line)
  unfolding process_line
  process_line-Keeps line c h = if-Inv (is_disconnecting c.state) _ _ h (
      if-Inv (is_in_data env calls c.state) _ _ (accumulate_data-Keeps env k line c h) (
        process_text-Keeps (record c { current_line = drop_line_end line })
          (alike h refl refl refl refl)))

  line_step-Inv :
      (line rest : Text) (c : Connection) → Inv c → Inv (line_step env calls line rest c).1
  unfolding line_step early_step group_step
  line_step-Inv line rest c h =
      let next = record c { current_data = rest } in
      let k' = process_line-Keeps line next (alike h refl refl refl refl) in
      let late = reschedule-Keeps env calls c h in
      let wait : Option Exit × Connection = (some returned, c) in
      let again : Option Exit × Connection = (some left, reschedule env calls c) in
      let group : Option Exit × Connection = (some left, record c { pipelining = true }) in
      let go : Option Exit × Connection = (none, process_line env calls line next) in
      if-second (is_waiting c.state && not c.esmtp) (early_step env calls line c)
        (if is_waiting c.state then group_step env calls line rest c else go)
        (if-second (c.proxy.allowed && is_hello line) wait again h late)
        (if-second (is_waiting c.state) (group_step env calls line rest c) go
          (if-second (is_group_command line || is_empty rest) group again
            (alike h refl refl refl refl) late)
          k')

  input_step-Inv : (n : ℕ) (c : Connection) → Inv c → Inv (input_step env calls n c).1
  unfolding input_step
  input_step-Inv n c h =
      let line = take n c.current_data in
      let rest = drop n c.current_data in
      let taken = take_proxy env calls rest c in
      let k' = process_line-Keeps line taken (alike h refl refl refl refl) in
      let early = is_pause c.state && c.proxy.allowed && starts_with (text "PROXY ") line in
      let x : Option Exit × Connection = (none, process_line env calls line taken) in
      let y = line_step env calls line rest c in
      if-second (is_pause_data c.state) (some returned, c) (if early then x else y) h
        (if-second early x y k' (line_step-Inv line rest c h))

  input_loop-Inv : (n max : ℕ) (c : Connection) → Inv c → Inv (input_loop env calls n max c).1
  unfolding input_loop
  input_loop-Inv zero max c h = h
  input_loop-Inv (suc n) max c h = Option-second (env.index_of_lf c.current_data max) _ _ h λ i.
      let r = input_step env calls (i + 1) c in
      let g = input_step-Inv (i + 1) c h in
      round-second r.0 r.1.fault r.1 (input_loop env calls n max r.1) g (input_loop-Inv n max r.1 g)

  fold_line-Keeps : (max : ℕ) → Keeps (fold_line env calls max)
  unfolding fold_line
  fold_line-Keeps max c h = with_transaction-Inv c _ h λ t e.
      k.input _
        (alike (with_counts-Inv c t (flag_long_line env calls t) h e refl) refl refl refl refl)

  check_overlong-Keeps : (max : ℕ) → Keeps (check_overlong env calls max)
  unfolding check_overlong
  check_overlong-Keeps max c h =
      if-Inv (is_overlong env calls max c) _ _
        (if-Inv (is_data_mode c.state) _ _ (fold_line-Keeps max c h)
          (respond-Keeps k 521 _ _ (disconnect-Keeps k) _ (alike h refl refl refl refl)))
        h

  pub process_buffer-Keeps : (n : ℕ) → Keeps (process_buffer env calls n)
  unfolding process_buffer
  process_buffer-Keeps n c h =
      let max = max_length c in
      if-Inv (is_disconnecting c.state) _ _ h (
        exit-Inv _ _ _ (input_loop-Inv n max c h)
          (check_overlong-Keeps max _ (input_loop-Inv n max c h)))

  pub process_data-Keeps : (input : Text) → Keeps (process_data env calls input)
  unfolding process_data
  process_data-Keeps input c h =
      if-Inv (is_disconnecting c.state) _ _ h (k.input _ (alike h refl refl refl refl))
