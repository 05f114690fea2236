-- ===== src/Connection/System.antt =====
-- connection.js with its calls tied together: the plugins answer a hook at once or later, and the
-- rest of the input is processed when a reply is written.
use haraka.Prelude.{ℕ, zero, suc, ◌-◌, true, List, [], ◌∷◌, if◌then◌else◌}
use haraka.Prelude.Text.{Text}
use haraka.Env.{Env}
use haraka.Connection.Types
use haraka.Connection.Types.{Retval, Message, Connection, Calls, Hook, is_disconnecting}
use haraka.Connection.Reply.{reset_transaction_respond, disconnect_respond, fail, respond, nothing}
use haraka.Connection.Hooks.Session
use haraka.Connection.Hooks.Session.{DnsAnswer, say}
use haraka.Connection.Hooks.Envelope
use haraka.Connection.Hooks.Message as Body
use haraka.Connection.Input.{process_buffer, process_data}

-- `object[hook + '_respond'](retval, msg, params)`. The answers of dns.reverse and of
-- outbound.send_email come later, as events. A hook that a plugin names has a handler of its own.
unfoldable pub dispatch : Env → Calls → Hook → Retval → Message → Connection → Connection
dispatch env calls Types.connect_init r m = Session.connect_init_respond env calls r m
dispatch env calls Types.lookup_rdns r m = Session.lookup_rdns_respond env calls nothing r m
dispatch env calls Types.connect r m = Session.connect_respond env calls r m
dispatch env calls Types.capabilities r m = Session.capabilities_respond env calls r m
dispatch env calls Types.quit r m = Session.quit_respond env calls r m
dispatch env calls Types.rset r m = Session.rset_respond env calls r m
dispatch env calls Types.vrfy r m = Session.vrfy_respond env calls r m
dispatch env calls Types.noop r m = Session.noop_respond env calls r m
dispatch env calls (Types.unrecognized_command line) r m =
    Session.unrecognized_command_respond env calls r m
dispatch env calls (Types.helo host) r m = Session.helo_respond env calls r m
dispatch env calls (Types.ehlo host) r m = Session.ehlo_respond env calls r m
dispatch env calls (Types.mail a ps) r m = Envelope.mail_respond calls r m
dispatch env calls (Types.rcpt a ps) r m = Envelope.rcpt_respond calls r m
dispatch env calls (Types.rcpt_ok a) r m = Envelope.rcpt_ok_respond calls r m
dispatch env calls Types.data_command r m = Body.data_respond env calls r m
dispatch env calls Types.data_post r m = Body.data_post_respond env calls r m
dispatch env calls Types.max_data_exceeded r m = Body.max_data_exceeded_respond env calls r m
dispatch env calls Types.queue r m = Body.queue_respond env calls r m
dispatch env calls Types.queue_outbound r m = Body.queue_outbound_respond env calls nothing r m
dispatch env calls (Types.queue_ok p) r m = Body.queue_ok_respond env calls p r m
dispatch env calls Types.disconnect_hook r m = disconnect_respond
dispatch env calls (Types.reset_transaction cb) r m = reset_transaction_respond cb
dispatch env calls (Types.named hook) r m = nothing

-- What the plugins of a hook do to the connection, and their answer, if it comes at once.
pub data Answer : Type 0 where
  later : Answer
  now : Retval → Message → Answer

pub record Plugins : Type 0 where
  pub run : Hook → Connection → Connection
  pub answer : Hook → Connection → Answer

module _ (env : Env) (plugins : Plugins) where
  -- `n` bounds the depth of the nested calls and the rounds of an input loop.
  unfoldable pub system : ℕ → Calls
  unfolding dispatch process_buffer
  system zero = record { process_data = nothing; run_hooks = λ h. nothing }
  system (suc n) =
      let calls = system n in
      record {
        process_data = process_buffer env calls n;
        run_hooks = λ h c. elim (plugins.answer h c) [
          | later ↦ plugins.run h c
          | now r m ↦ dispatch env calls h r m (plugins.run h c)
        ];
      }

  -- What happens to a connection from outside.
  pub data Event : Type 0 where
    input : Text → Event
    answered : Hook → Retval → Message → Event
    looked_up : DnsAnswer → Event
    sent : Retval → Message → Event
    immediate closed error timeout : Event

  -- The handlers of the socket's 'end' and 'close' events.
  unfoldable pub on_close : Calls → Connection → Connection
  on_close calls c =
      if is_disconnecting c.state
      then c
      else fail calls (record c { remote = record c.remote { closed = true } })

  -- The handler of its 'error' event.
  unfoldable pub on_error : Calls → Connection → Connection
  on_error calls c = if is_disconnecting c.state then c else fail calls c

  -- The handler of its 'timeout' event.
  unfoldable pub on_timeout : Calls → Connection → Connection
  on_timeout calls c =
      if is_disconnecting c.state then c else respond calls 421 (say "timeout") (fail calls) c

  unfoldable pub step : ℕ → Event → Connection → Connection
  unfolding system on_close on_error on_timeout
  step n (input t) c = process_data env (system n) t c
  step n (answered h r m) c = dispatch env (system n) h r m c
  step n (looked_up a) c = Session.rdns_response env (system n) a c
  step n (sent r m) c = Body.send_email_respond env (system n) r m c
  step n immediate c = (system n).process_data (record c { scheduled = c.scheduled - 1 })
  step n closed c = on_close (system n) c
  step n error c = on_error (system n) c
  step n timeout c = on_timeout (system n) c

  unfoldable pub run : ℕ → List Event → Connection → Connection
  unfolding step
  run n [] c = c
  run n (e ∷ es) c = run n es (step n e c)
