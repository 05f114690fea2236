-- ===== src/Connection/Invariant/Runs.antt =====
-- The invariant holds of every connection, after any events and with any plugins.
use haraka.Prelude.{ℕ, zero, suc, refl, List, [], ◌∷◌}
use haraka.Prelude.Text.{Text}
use haraka.Env.{Env}
use haraka.Connection.Types
use haraka.Connection.Types.{
  Retval, Message, Connection, Calls, Hook, Settings, create, is_disconnecting,
}
use haraka.Connection.System.{
  dispatch, Plugins, Answer, later, now, system, Event, input, answered, looked_up, sent, immediate,
  closed, error, timeout, on_close, on_error, on_timeout, step, run,
}
use haraka.Connection.Invariant.Core.{
  Inv, Keeps, HookKeeps, CallsKeep, respond-Keeps, fail-Keeps, nothing-Keeps, reset_respond-Keeps,
  disconnect_respond-Keeps, if-Inv,
}
use haraka.Connection.Invariant.Session.{
  connect_init-Keeps, rdns_response-Keeps, helo_respond-Keeps, ehlo_respond-Keeps,
  vrfy_respond-Keeps, noop_respond-Keeps, unrecognized-Keeps, connect_respond-Keeps,
  lookup_rdns-Keeps, capabilities_respond-Keeps, quit_respond-Keeps, rset_respond-Keeps,
}
use haraka.Connection.Invariant.Envelope.{
  mail_respond-Keeps, rcpt_respond-Keeps, rcpt_ok_respond-Keeps,
}
use haraka.Connection.Invariant.Message.{
  data_respond-Keeps, data_post_respond-Keeps, max_data-Keeps, send_email_respond-Keeps,
  queue_respond-Keeps, queue_outbound_respond-Keeps, queue_ok_respond-Keeps,
}
use haraka.Connection.Invariant.Input.{process_buffer-Keeps, process_data-Keeps, alike}

-- Each handler keeps the invariant, if the calls do that it makes.
pub dispatch-Keeps :
    (env : Env) (calls : Calls)
    → CallsKeep calls
    → (h : Hook) (r : Retval) (m : Message) → HookKeeps h
    → Keeps (dispatch env calls h r m)
unfolding dispatch
dispatch-Keeps env calls k Types.connect_init r m p = connect_init-Keeps env k r m
dispatch-Keeps env calls k Types.lookup_rdns r m p = lookup_rdns-Keeps env k _ nothing-Keeps r m
dispatch-Keeps env calls k Types.connect r m p = connect_respond-Keeps env k r m
dispatch-Keeps env calls k Types.capabilities r m p = capabilities_respond-Keeps env k r m
dispatch-Keeps env calls k Types.quit r m p = quit_respond-Keeps env k r m
dispatch-Keeps env calls k Types.rset r m p = rset_respond-Keeps env k r m
dispatch-Keeps env calls k Types.vrfy r m p = vrfy_respond-Keeps env k r m
dispatch-Keeps env calls k Types.noop r m p = noop_respond-Keeps env k r m
dispatch-Keeps env calls k (Types.unrecognized_command l) r m p = unrecognized-Keeps env k r m
dispatch-Keeps env calls k (Types.helo host) r m p = helo_respond-Keeps env k r m
dispatch-Keeps env calls k (Types.ehlo host) r m p = ehlo_respond-Keeps env k r m
dispatch-Keeps env calls k (Types.mail a ps) r m p = mail_respond-Keeps k r m
dispatch-Keeps env calls k (Types.rcpt a ps) r m p = rcpt_respond-Keeps k r m
dispatch-Keeps env calls k (Types.rcpt_ok a) r m p = rcpt_ok_respond-Keeps k r m
dispatch-Keeps env calls k Types.data_command r m p = data_respond-Keeps env k r m
dispatch-Keeps env calls k Types.data_post r m p = data_post_respond-Keeps env k r m
dispatch-Keeps env calls k Types.max_data_exceeded r m p = max_data-Keeps env k r m
dispatch-Keeps env calls k Types.queue r m p = queue_respond-Keeps env k r m
dispatch-Keeps env calls k Types.queue_outbound r m p =
    queue_outbound_respond-Keeps env k _ nothing-Keeps r m
dispatch-Keeps env calls k (Types.queue_ok q) r m p = queue_ok_respond-Keeps env k q r m
dispatch-Keeps env calls k Types.disconnect_hook r m p = disconnect_respond-Keeps
dispatch-Keeps env calls k (Types.reset_transaction cb) r m p = reset_respond-Keeps cb p
dispatch-Keeps env calls k (Types.named hook) r m p = nothing-Keeps

create-Inv : (uuid : Text) (settings : Settings) → Inv (create uuid settings)
unfolding create
create-Inv uuid settings = record { replies = tt; resumable = tt; counted = tt }

module _ (env : Env) (plugins : Plugins) (quiet : (h : Hook) → Keeps (plugins.run h)) where
  answer-Keeps :
      (calls : Calls)
      → CallsKeep calls
      → (h : Hook) (a : Answer) (c : Connection) → HookKeeps h
      → Inv c
      → Inv (elim a [ later ↦ c | now r m ↦ dispatch env calls h r m c ])
  answer-Keeps calls k h later c p i = i
  answer-Keeps calls k h (now r m) c p i = dispatch-Keeps env calls k h r m p c i

  system-CallsKeep : (n : ℕ) → CallsKeep (system env plugins n)
  unfolding system
  system-CallsKeep zero = record { input = nothing-Keeps; hooks = λ h p. nothing-Keeps }
  system-CallsKeep (suc n) =
      let k = system-CallsKeep n in
      record {
        input = process_buffer-Keeps env k n;
        hooks = λ h p c i.
            answer-Keeps (system env plugins n) k h (plugins.answer h c) (plugins.run h c) p
              (quiet h c i);
      }

  on_close-Keeps : (calls : Calls) → CallsKeep calls → Keeps (on_close env plugins calls)
  unfolding on_close
  on_close-Keeps calls k c h =
      if-Inv (is_disconnecting c.state) _ _ h (fail-Keeps k _ (alike h refl refl refl refl))

  on_error-Keeps : (calls : Calls) → CallsKeep calls → Keeps (on_error env plugins calls)
  unfolding on_error
  on_error-Keeps calls k c h = if-Inv (is_disconnecting c.state) _ _ h (fail-Keeps k c h)

  on_timeout-Keeps : (calls : Calls) → CallsKeep calls → Keeps (on_timeout env plugins calls)
  unfolding on_timeout
  on_timeout-Keeps calls k c h =
      if-Inv (is_disconnecting c.state) _ _ h (respond-Keeps k 421 _ _ (fail-Keeps k) c h)

  -- An answer to `reset_transaction` carries a continuation that keeps the invariant.
  abbrev pub EventKeeps : Event env plugins → Type 0
  EventKeeps (answered h r m) = HookKeeps h
  EventKeeps e = Unit

  step-Inv :
      (n : ℕ) (e : Event env plugins) (c : Connection)
      → EventKeeps e
      → Inv c
      → Inv (step env plugins n e c)
  unfolding step
  step-Inv n (input t) c p h = process_data-Keeps env (system-CallsKeep n) t c h
  step-Inv n (answered hk r m) c p h = dispatch-Keeps env _ (system-CallsKeep n) hk r m p c h
  step-Inv n (looked_up a) c p h = rdns_response-Keeps env (system-CallsKeep n) a c h
  step-Inv n (sent r m) c p h = send_email_respond-Keeps env (system-CallsKeep n) r m c h
  step-Inv n immediate c p h = (system-CallsKeep n).input _ (alike h refl refl refl refl)
  step-Inv n closed c p h = on_close-Keeps _ (system-CallsKeep n) c h
  step-Inv n error c p h = on_error-Keeps _ (system-CallsKeep n) c h
  step-Inv n timeout c p h = on_timeout-Keeps _ (system-CallsKeep n) c h

  abbrev pub EventsKeep : List (Event env plugins) → Type 0
  EventsKeep [] = Unit
  EventsKeep (e ∷ es) = EventKeeps e × EventsKeep es

  run-Inv :
      (n : ℕ) (es : List (Event env plugins)) (c : Connection)
      → EventsKeep es
      → Inv c
      → Inv (run env plugins n es c)
  unfolding run
  run-Inv n [] c p h = h
  run-Inv n (e ∷ es) c p h = run-Inv n es _ p.1 (step-Inv n e c p.0 h)

  -- Whatever the client sends and the plugins answer, in any order, every reply that a new connection
  -- writes is well formed: its lines have one code, and all but the last say that more follow; the
  -- state that `resume` goes back to is none of PAUSE_DATA, DISCONNECTING and DISCONNECTED; and
  -- the recipients that a transaction counts are counted in its connection. The plugins' own
  -- changes of the connection, and the continuations of hooks that are answered later, have to keep
  -- these three.
  pub run_from_start :
      (n : ℕ) (es : List (Event env plugins)) (uuid : Text) (settings : Settings)
      → EventsKeep es
      → Inv (run env plugins n es (create uuid settings))
  run_from_start n es uuid settings p = run-Inv n es _ p (create-Inv uuid settings)
