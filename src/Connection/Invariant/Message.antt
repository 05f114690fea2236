-- ===== src/Connection/Invariant/Message.antt =====
-- The handlers of connection.js on the message keep the invariant.
use haraka.Prelude.{◌≡◌, refl, if◌then◌else◌, Bool, true, false, arith}
use haraka.Prelude.Text.{Text}
use haraka.Env.{Env}
use haraka.Transaction.{
  Transaction, Action, accept, tempfail, reject, remove_header, add_leading_header, reset_if_parsed,
}
use haraka.Connection.Types.{
  in_data, Retval, ok, deny, denysoft, denydisconnect, denysoftdisconnect, Message, Connection,
  Calls, queue, queue_outbound, queue_ok,
}
use haraka.Connection.Reply.{nothing, reset_transaction_then}
use haraka.Connection.Hooks.Message.{
  count_message, auth_results, replace_auth_results, queue_message, end_message, end_session,
  data_respond, start_data, data_post_switch, data_post_respond, max_data_exceeded_respond,
  send_email_respond, deny_queue, queue_outbound_switch, queue_switch, with_queue_message,
  queue_outbound_respond, queue_respond, queue_ok_respond,
}
use haraka.Connection.Invariant.Core.{
  Keeps, CallsKeep, respond-Keeps, disconnect-Keeps, reset-Keeps, nothing-Keeps, resume-Keeps,
  Option-elim-Inv,
}
use haraka.Connection.Invariant.Envelope.{with_counts-Inv, with_transaction-Inv}

count_message-Keeps : (a : Action) → Keeps (count_message a)
unfolding count_message
count_message-Keeps a c h = assumption

state-Keeps : Keeps (λ c. record c { state = in_data })
state-Keeps c h = assumption

reset_if_parsed-counts : (t : Transaction) → (reset_if_parsed t).rcpt_count ≡ t.rcpt_count
unfolding reset_if_parsed
reset_if_parsed-counts t = ground arith

removed-counts : (key : Text) (t : Transaction) → (remove_header key t).rcpt_count ≡ t.rcpt_count
unfolding remove_header
removed-counts key t = reset_if_parsed-counts _

leading-counts :
    (env : Env) (key value : Text) (t : Transaction)
    → (add_leading_header env key value t).rcpt_count ≡ t.rcpt_count
unfolding add_leading_header
leading-counts env key value t = reset_if_parsed-counts _

replace-counts :
    (env : Env) (field : Text) (t : Transaction)
    → (replace_auth_results env field t).rcpt_count ≡ t.rcpt_count
unfolding replace_auth_results
replace-counts env field t = grind (arith, leading-counts, removed-counts)

queue-Keeps :
    {calls : Calls}
    → CallsKeep calls
    → (b : Bool) → Keeps (calls.run_hooks (if b then queue_outbound else queue))
queue-Keeps k true = k.hooks queue_outbound tt
queue-Keeps k false = k.hooks queue tt

module _ (env : Env) {calls : Calls} (k : CallsKeep calls) where
  drop-Keeps : Keeps (reset_transaction_then calls nothing)
  drop-Keeps = reset-Keeps k nothing nothing-Keeps

  end_message-Keeps : (a : Action) → Keeps (end_message env calls a)
  unfolding end_message
  end_message-Keeps a c h = reset-Keeps k _ resume-Keeps _ (count_message-Keeps a c h)

  end_session-Keeps : (a : Action) → Keeps (end_session env calls a)
  unfolding end_session
  end_session-Keeps a c h = disconnect-Keeps k _ (count_message-Keeps a c h)

  start_data-Keeps : Keeps (start_data env calls)
  start_data-Keeps c h =
      let h' = state-Keeps c h in with_transaction-Inv _ _ h' λ t e. with_counts-Inv _ t _ h' e refl

  pub data_respond-Keeps : (r : Retval) (m : Message) → Keeps (data_respond env calls r m)
  unfolding data_respond
  data_respond-Keeps deny m c h = respond-Keeps k 554 _ _ drop-Keeps c h
  data_respond-Keeps denydisconnect m c h = respond-Keeps k 554 _ _ (disconnect-Keeps k) c h
  data_respond-Keeps denysoft m c h = respond-Keeps k 451 _ _ drop-Keeps c h
  data_respond-Keeps denysoftdisconnect m c h = respond-Keeps k 451 _ _ (disconnect-Keeps k) c h
  data_respond-Keeps _ m c h = respond-Keeps k 354 _ _ start_data-Keeps c h

  data_post_switch-Keeps : (r : Retval) (m : Message) → Keeps (data_post_switch env calls r m)
  unfolding data_post_switch
  data_post_switch-Keeps deny m c h = respond-Keeps k 550 _ _ (end_message-Keeps reject) c h
  data_post_switch-Keeps denydisconnect m c h =
      respond-Keeps k 550 _ _ (end_session-Keeps reject) c h
  data_post_switch-Keeps denysoft m c h = respond-Keeps k 450 _ _ (end_message-Keeps tempfail) c h
  data_post_switch-Keeps denysoftdisconnect m c h =
      respond-Keeps k 450 _ _ (end_session-Keeps tempfail) c h
  data_post_switch-Keeps _ m c h = queue-Keeps k c.relaying c h

  pub data_post_respond-Keeps : (r : Retval) (m : Message) → Keeps (data_post_respond env calls r m)
  unfolding data_post_respond
  data_post_respond-Keeps r m c h = Option-elim-Inv c.transaction _ c h λ t e.
      data_post_switch-Keeps r m _
        (with_counts-Inv c t _ h e (replace-counts env (auth_results env c) t))

  pub max_data-Keeps : (r : Retval) (m : Message) → Keeps (max_data_exceeded_respond env calls r m)
  unfolding max_data_exceeded_respond
  max_data-Keeps r m c h = respond-Keeps k _ _ _ drop-Keeps c h

  pub send_email_respond-Keeps :
      (r : Retval) (m : Message) → Keeps (send_email_respond env calls r m)
  unfolding send_email_respond
  send_email_respond-Keeps ok m c h = k.hooks (queue_ok (queue_message ok m)) tt c h
  send_email_respond-Keeps deny m c h = respond-Keeps k 550 _ _ (end_message-Keeps reject) c h
  send_email_respond-Keeps _ m c h = respond-Keeps k 550 _ _ (end_message-Keeps reject) c h

  deny_queue-Keeps : (r : Retval) (m : Message) → Keeps (deny_queue env calls r m)
  unfolding deny_queue
  deny_queue-Keeps deny m c h = respond-Keeps k 550 _ _ (end_message-Keeps reject) c h
  deny_queue-Keeps denydisconnect m c h = respond-Keeps k 550 _ _ (end_session-Keeps reject) c h
  deny_queue-Keeps denysoft m c h = respond-Keeps k 450 _ _ (end_message-Keeps tempfail) c h
  deny_queue-Keeps denysoftdisconnect m c h =
      respond-Keeps k 450 _ _ (end_session-Keeps tempfail) c h
  deny_queue-Keeps _ m c h = h

  outbound_switch-Keeps :
      (send : Connection → Connection)
      → Keeps send
      → (r : Retval) (m : Message) → Keeps (queue_outbound_switch env calls send r m)
  unfolding queue_outbound_switch
  outbound_switch-Keeps send g ok m c h = k.hooks (queue_ok m) tt c h
  outbound_switch-Keeps send g deny m c h = deny_queue-Keeps deny m c h
  outbound_switch-Keeps send g denydisconnect m c h = deny_queue-Keeps denydisconnect m c h
  outbound_switch-Keeps send g denysoft m c h = deny_queue-Keeps denysoft m c h
  outbound_switch-Keeps send g denysoftdisconnect m c h = deny_queue-Keeps denysoftdisconnect m c h
  outbound_switch-Keeps send g _ m c h = g c h

  queue_switch-Keeps : (r : Retval) (m : Message) → Keeps (queue_switch env calls r m)
  unfolding queue_switch
  queue_switch-Keeps ok m c h = k.hooks (queue_ok m) tt c h
  queue_switch-Keeps deny m c h = deny_queue-Keeps deny m c h
  queue_switch-Keeps denydisconnect m c h = deny_queue-Keeps denydisconnect m c h
  queue_switch-Keeps denysoft m c h = deny_queue-Keeps denysoft m c h
  queue_switch-Keeps denysoftdisconnect m c h = deny_queue-Keeps denysoftdisconnect m c h
  queue_switch-Keeps _ m c h = respond-Keeps k 451 _ _ (end_message-Keeps tempfail) c h

  with_queue_message-Keeps :
      (switch : Retval → Message → Connection → Connection)
      → ((r : Retval) (m : Message) → Keeps (switch r m))
      → (r : Retval) (m : Message) → Keeps (with_queue_message env calls switch r m)
  unfolding with_queue_message
  with_queue_message-Keeps switch g r m c h =
      with_transaction-Inv c _ h λ t e. g r _ _ (with_counts-Inv c t _ h e refl)

  pub queue_outbound_respond-Keeps :
      (send : Connection → Connection)
      → Keeps send
      → (r : Retval) (m : Message) → Keeps (queue_outbound_respond env calls send r m)
  unfolding queue_outbound_respond
  queue_outbound_respond-Keeps send g = with_queue_message-Keeps _ (outbound_switch-Keeps send g)

  pub queue_respond-Keeps : (r : Retval) (m : Message) → Keeps (queue_respond env calls r m)
  unfolding queue_respond
  queue_respond-Keeps = with_queue_message-Keeps _ queue_switch-Keeps

  pub queue_ok_respond-Keeps :
      (p : Message) (r : Retval) (m : Message) → Keeps (queue_ok_respond env calls p r m)
  unfolding queue_ok_respond
  queue_ok_respond-Keeps p r m c h = respond-Keeps k 250 p _ (end_message-Keeps accept) c h
