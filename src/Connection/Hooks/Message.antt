-- ===== src/Connection/Hooks/Message.antt =====
-- connection.js: the handlers of the hooks on the message: DATA, the end of the data, and queueing.
use haraka.Prelude.{Bool, true, false, none, some, List, [], ◌∷◌, ◌++◌, if◌then◌else◌, is_empty}
use haraka.Prelude.Text.{Text, text}
use haraka.Env.{Env}
use haraka.Transaction.{
  Transaction, Action, accept, tempfail, reject, incr, Result, queue_pass, queue_fail, queue_msg,
  remove_header, add_leading_header,
}
use haraka.Connection.Types.{
  in_data, Retval, ok, deny, denysoft, denydisconnect, denysoftdisconnect, Message, absent, lines,
  array, dsn, Connection, Calls, queue, queue_outbound, queue_ok,
}
use haraka.Connection.Reply.{
  respond, disconnect, reset_transaction_then, resume, nothing, or_text, message_lines,
}
use haraka.Connection.Hooks.Envelope.{with_transaction, add_result}
use haraka.Connection.Hooks.Session.{say}

-- `msg_count[action]++`
unfoldable pub count_message : Action → Connection → Connection
unfolding incr
count_message action c = record c { msg_count = incr action c.msg_count }

-- `items.join('; ')`
unfoldable pub join : Text → List Text → Text
join sep [] = []
join sep (t ∷ []) = t
join sep (t ∷ u ∷ ts) = t ++ (sep ++ join sep (u ∷ ts))

abbrev pub transaction_results : Connection → List Text
transaction_results c = elim c.transaction [ none ↦ [] | some t ↦ t.authentication_results ]

-- `auth_results()`, with no message to store
unfoldable pub auth_results : Env → Connection → Text
unfolding join
auth_results env c =
    let found = c.authentication_results ++ transaction_results c in
    if is_empty found then [] else join (text "; ") (env.me ∷ found)

-- `auth_results(message)`: the message is stored in the transaction, or in the connection.
unfoldable pub store_auth_result : Text → Connection → Connection
store_auth_result message c = if is_empty message then c else elim c.transaction [
  | none ↦ record c { authentication_results = c.authentication_results ++ message ∷ [] }
  | some t ↦ record c {
    transaction =
        some (record t { authentication_results = t.authentication_results ++ message ∷ [] });
  }
]

-- The new header in front of the message, in place of the one that it may have.
unfoldable pub replace_auth_results : Env → Text → Transaction → Transaction
replace_auth_results env field t =
    if is_empty field
    then t
    else add_leading_header env (text "Authentication-Results") field
        (remove_header (text "Authentication-Results") t)

-- `queue_msg`
unfoldable pub queue_message : Retval → Message → Message
queue_message ok absent = say "Message Queued"
queue_message deny absent = say "Message denied"
queue_message denydisconnect absent = say "Message denied"
queue_message denysoft absent = say "Message denied temporarily"
queue_message denysoftdisconnect absent = say "Message denied temporarily"
queue_message _ msg = msg

-- `store_queue_result`
abbrev queue_result : Retval → List Text → Result
queue_result ok ms = queue_pass ms
queue_result deny ms = queue_fail ms
queue_result denydisconnect ms = queue_fail ms
queue_result denysoft ms = queue_fail ms
queue_result denysoftdisconnect ms = queue_fail ms
queue_result _ ms = queue_msg ms

abbrev pub append_last : List Text → Text → List Text
append_last [] t = t ∷ []
append_last (m ∷ []) t = (m ++ t) ∷ []
append_last (m ∷ n ∷ ms) t = m ∷ append_last (n ∷ ms) t

-- `msg + text`: an object that is no text or array is written "[object Object]".
unfoldable pub concat : Message → Text → Message
unfolding join
concat absent t = lines (t ∷ [])
concat (lines ms) t = lines (append_last ms t)
concat (array ms) t = lines ((join (text ",") ms ++ t) ∷ [])
concat (dsn k ms) t = lines ((text "[object Object]" ++ t) ∷ [])

abbrev uuid_suffix : Transaction → Text
uuid_suffix t = text " (" ++ (t.uuid ++ text ")")

module _ (env : Env) (calls : Calls) where
  abbrev reset : Connection → Connection
  reset = reset_transaction_then calls nothing

  -- The end of a message that the client may follow by another.
  unfoldable pub end_message : Action → Connection → Connection
  unfolding count_message
  end_message action c = reset_transaction_then calls resume (count_message action c)

  -- The end of a message and of the connection.
  unfoldable pub end_session : Action → Connection → Connection
  unfolding count_message
  end_session action c = disconnect calls (count_message action c)

  abbrev pub start_data : Connection → Connection
  start_data c =
      let d = record c { state = in_data } in
      with_transaction d λ t. record d { transaction = some (record t { data_bytes = 0 }) }

  -- `data_respond`
  unfoldable pub data_respond : Retval → Message → Connection → Connection
  data_respond deny msg c = respond calls 554 (or_text msg (text "Message denied")) reset c
  data_respond denydisconnect msg c =
      respond calls 554 (or_text msg (text "Message denied")) (disconnect calls) c
  data_respond denysoft msg c = respond calls 451 (or_text msg (text "Message denied")) reset c
  data_respond denysoftdisconnect msg c =
      respond calls 451 (or_text msg (text "Message denied")) (disconnect calls) c
  data_respond _ msg c = respond calls 354 (say "go ahead, make my day") start_data c

  -- The `switch` of `data_post_respond`
  unfoldable pub data_post_switch : Retval → Message → Connection → Connection
  unfolding end_message end_session
  data_post_switch deny msg c =
      respond calls 550 (or_text msg (text "Message denied")) (end_message reject) c
  data_post_switch denydisconnect msg c =
      respond calls 550 (or_text msg (text "Message denied")) (end_session reject) c
  data_post_switch denysoft msg c =
      respond calls 450 (or_text msg (text "Message denied temporarily")) (end_message tempfail) c
  data_post_switch denysoftdisconnect msg c =
      respond calls 450 (or_text msg (text "Message denied temporarily")) (end_session tempfail) c
  data_post_switch _ msg c = calls.run_hooks (if c.relaying then queue_outbound else queue) c

  -- `data_post_respond`
  unfoldable pub data_post_respond : Retval → Message → Connection → Connection
  unfolding auth_results replace_auth_results data_post_switch
  data_post_respond retval msg c = elim c.transaction [
    | none ↦ c
    | some t ↦
        data_post_switch retval msg
          (record c { transaction = some (replace_auth_results env (auth_results env c) t) })
  ]

  abbrev is_soft : Retval → Bool
  is_soft denysoft = true
  is_soft r = false

  -- `max_data_exceeded_respond`
  unfoldable pub max_data_exceeded_respond : Retval → Message → Connection → Connection
  max_data_exceeded_respond retval msg c =
      respond calls (if is_soft retval then 450 else 550) (say "Message too big!") reset c

  -- What outbound.send_email answers: the default message, then the `switch` of its callback. The
  -- default is `queue_msg`'s.
  unfoldable pub send_email_respond : Retval → Message → Connection → Connection
  unfolding queue_message end_message
  send_email_respond ok msg c = calls.run_hooks (queue_ok (queue_message ok msg)) c
  send_email_respond deny msg c = respond calls 550 (queue_message deny msg) (end_message reject) c
  send_email_respond r msg c =
      respond calls 550 (or_text (queue_message r msg) (text "Internal Server Error"))
        (end_message reject) c

  -- The denials that `queue_respond` and `queue_outbound_respond` have in common.
  unfoldable pub deny_queue : Retval → Message → Connection → Connection
  unfolding end_message end_session
  deny_queue deny msg c = respond calls 550 msg (end_message reject) c
  deny_queue denydisconnect msg c = respond calls 550 msg (end_session reject) c
  deny_queue denysoft msg c = respond calls 450 msg (end_message tempfail) c
  deny_queue denysoftdisconnect msg c = respond calls 450 msg (end_session tempfail) c
  deny_queue _ msg c = c

  -- `queue_outbound_respond`, behind its message; `send` is the call of outbound.send_email.
  unfoldable pub queue_outbound_switch :
      (Connection → Connection) → Retval → Message → Connection → Connection
  unfolding deny_queue
  queue_outbound_switch send ok msg c = calls.run_hooks (queue_ok msg) c
  queue_outbound_switch send deny msg c = deny_queue deny msg c
  queue_outbound_switch send denydisconnect msg c = deny_queue denydisconnect msg c
  queue_outbound_switch send denysoft msg c = deny_queue denysoft msg c
  queue_outbound_switch send denysoftdisconnect msg c = deny_queue denysoftdisconnect msg c
  queue_outbound_switch send _ msg c = send c

  -- The `switch` of `queue_respond`; its message is never empty behind the uuid.
  unfoldable pub queue_switch : Retval → Message → Connection → Connection
  unfolding deny_queue end_message
  queue_switch ok msg c = calls.run_hooks (queue_ok msg) c
  queue_switch deny msg c = deny_queue deny msg c
  queue_switch denydisconnect msg c = deny_queue denydisconnect msg c
  queue_switch denysoft msg c = deny_queue denysoft msg c
  queue_switch denysoftdisconnect msg c = deny_queue denysoftdisconnect msg c
  queue_switch _ msg c =
      respond calls 451 (or_text msg (text "Queuing declined or disabled, try later"))
        (end_message tempfail) c

  -- The start of both: the result is stored, and the uuid is put behind the message.
  unfoldable pub with_queue_message :
      (Retval → Message → Connection → Connection) → Retval → Message → Connection → Connection
  unfolding queue_message concat
  with_queue_message switch retval msg c = with_transaction c λ t.
      let m = queue_message retval msg in
      switch retval (concat m (uuid_suffix t))
        (record c { transaction = some (add_result (queue_result retval (message_lines m)) t) })

  -- `queue_outbound_respond`
  unfoldable pub queue_outbound_respond :
      (Connection → Connection) → Retval → Message → Connection → Connection
  unfolding with_queue_message queue_outbound_switch
  queue_outbound_respond send = with_queue_message (queue_outbound_switch send)

  -- `queue_respond`
  unfoldable pub queue_respond : Retval → Message → Connection → Connection
  unfolding with_queue_message queue_switch
  queue_respond = with_queue_message queue_switch

  -- `queue_ok_respond`; the message is the hook's parameter.
  unfoldable pub queue_ok_respond : Message → Retval → Message → Connection → Connection
  unfolding end_message
  queue_ok_respond params retval msg c = respond calls 250 params (end_message accept) c
