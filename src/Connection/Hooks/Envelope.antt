-- ===== src/Connection/Hooks/Envelope.antt =====
-- connection.js: the handlers of the hooks on the envelope, MAIL and RCPT.
use haraka.Prelude.{
  ◌+◌, ◌-◌, none, some, List, [], ◌∷◌, ◌++◌, if◌then◌else◌, ltb, length, take, drop, last?, init,
  String,
}
use haraka.Prelude.Text.{Text, text}
use haraka.Env.{Address}
use haraka.Transaction.{
  Transaction, Action, accept, tempfail, reject, incr, Result, from_pass, from_fail, recipient,
}
use haraka.Connection.Types.{
  Retval, cont, ok, deny, denysoft, denydisconnect, denysoftdisconnect, Message, absent, lines,
  array, dsn, Connection, Calls, rcpt_ok,
}
use haraka.Connection.Reply.{
  respond, disconnect, reset_transaction_then, nothing, or_text, message_lines, throw,
}

-- `addr.substr(1, addr.length - 2)`: without the brackets
unfoldable pub inner : Text → Text
inner t = take (length t - 2) (drop 1 t)

-- A use of `this.transaction`, which throws when there is none.
abbrev pub with_transaction : Connection → (Transaction → Connection) → Connection
with_transaction c f = elim c.transaction [ none ↦ throw c | some t ↦ f t ]

abbrev pub add_result : Result → Transaction → Transaction
add_result r t = record t { results = t.results ++ r ∷ [] }

-- The address in the results: only the null sender keeps its brackets.
abbrev pub sender_name : Address → Text
sender_name a = if ltb 2 (length a.format) then inner a.format else a.format

-- `store_results` of `mail_respond`
unfoldable pub store_sender : Action → Address → Message → Connection → Connection
unfolding inner
store_sender accept a msg c =
    with_transaction c
      λ t. record c { transaction = some (add_result (from_pass (sender_name a)) t) }
store_sender _ a msg c = with_transaction c λ t. record c {
  transaction =
      some (add_result (from_fail (message_lines msg)) (add_result (from_pass (sender_name a)) t));
}

-- The message in the results of a recipient; an acceptance has none.
unfoldable pub recipient_message : Action → Message → List Text
recipient_message accept msg = []
recipient_message _ msg = message_lines msg

-- `rcpt_incr`
unfoldable pub rcpt_incr : Action → Address → Message → Connection → Connection
unfolding incr inner recipient_message
rcpt_incr action a msg c = with_transaction c λ t. record c {
  transaction = some (
      add_result (recipient (inner a.format) action (recipient_message action msg))
        (record t { rcpt_count = incr action t.rcpt_count }));
  rcpt_count = incr action c.rcpt_count;
}

-- `self.transaction.rcpt_to.pop()`
unfoldable pub pop_rcpt : Connection → Connection
pop_rcpt c =
    with_transaction c λ t. record c { transaction = some (record t { rcpt_to = init t.rcpt_to }) }

-- A recipient is refused: it is counted, and taken off the list.
unfoldable pub refuse_rcpt : Action → Address → Message → Connection → Connection
unfolding rcpt_incr pop_rcpt
refuse_rcpt action a msg c = pop_rcpt (rcpt_incr action a msg c)

abbrev pub quote : String → Address → String → Text
quote before a after = text before ++ (a.format ++ text after)

module _ (calls : Calls) where
  abbrev pub store_then :
      Action → Address → Message → (Connection → Connection) → Connection → Connection
  store_then action a msg next c = next (store_sender action a msg c)

  -- `mail_respond`, for the sender of the transaction
  unfoldable pub mail_respond_to : Address → Retval → Message → Connection → Connection
  unfolding store_sender
  mail_respond_to a deny msg c =
      respond calls 550 (or_text msg (quote "sender " a " denied"))
        (store_then reject a msg (reset_transaction_then calls nothing)) c
  mail_respond_to a denydisconnect msg c =
      respond calls 550 (or_text msg (quote "sender " a " denied"))
        (store_then reject a msg (disconnect calls)) c
  mail_respond_to a denysoft msg c =
      respond calls 450 (or_text msg (quote "sender " a " denied"))
        (store_then tempfail a msg (reset_transaction_then calls nothing)) c
  mail_respond_to a denysoftdisconnect msg c =
      respond calls 450 (or_text msg (quote "sender " a " denied"))
        (store_then tempfail a msg (disconnect calls)) c
  mail_respond_to a _ msg c =
      respond calls 250 (or_text msg (quote "sender " a " OK")) nothing
        (store_sender accept a msg c)

  -- `mail_respond`
  unfoldable pub mail_respond : Retval → Message → Connection → Connection
  unfolding mail_respond_to
  mail_respond retval msg c = elim c.transaction [
    | none ↦ c
    | some t ↦ elim t.mail_from [ none ↦ throw c | some a ↦ mail_respond_to a retval msg c ]
  ]

  -- The last recipient; with an empty list `rcpt.format()` throws.
  abbrev pub with_last_rcpt : (Address → Connection → Connection) → Connection → Connection
  with_last_rcpt f c =
      with_transaction c λ t. elim (last? t.rcpt_to) [ none ↦ throw c | some a ↦ f a c ]

  -- The answers that both recipient handlers give to a denial.
  unfoldable pub deny_rcpt : Retval → Address → Message → Connection → Connection
  unfolding refuse_rcpt rcpt_incr
  deny_rcpt deny a msg c =
      respond calls 550 (or_text msg (quote "recipient " a " denied")) (refuse_rcpt reject a msg) c
  deny_rcpt denydisconnect a msg c =
      respond calls 550 (or_text msg (quote "recipient " a " denied"))
        (λ d. disconnect calls (rcpt_incr reject a msg d)) c
  deny_rcpt denysoft a msg c =
      respond calls 450 (or_text msg (quote "recipient " a " denied")) (refuse_rcpt tempfail a msg)
        c
  deny_rcpt denysoftdisconnect a msg c =
      respond calls 450 (or_text msg (quote "recipient " a " denied"))
        (λ d. disconnect calls (rcpt_incr tempfail a msg d)) c
  deny_rcpt _ a msg c = c

  -- `if (!msg) msg = this.last_rcpt_msg`
  abbrev pub or_last : Message → Connection → Message
  or_last absent c = c.last_rcpt_msg
  or_last (lines ms) c = lines ms
  or_last (array ms) c = array ms
  or_last (dsn k ms) c = dsn k ms

  -- The `switch` of `rcpt_ok_respond`
  unfoldable pub rcpt_ok_switch : Retval → Message → Address → Connection → Connection
  unfolding deny_rcpt rcpt_incr
  rcpt_ok_switch deny msg a c = deny_rcpt deny a msg c
  rcpt_ok_switch denydisconnect msg a c = deny_rcpt denydisconnect a msg c
  rcpt_ok_switch denysoft msg a c = deny_rcpt denysoft a msg c
  rcpt_ok_switch denysoftdisconnect msg a c = deny_rcpt denysoftdisconnect a msg c
  rcpt_ok_switch _ msg a c =
      respond calls 250 (or_text msg (quote "recipient " a " OK")) (rcpt_incr accept a msg) c

  abbrev pub count_error : Connection → Connection
  count_error c = record c { result_errors = c.result_errors + 1 }

  -- `rcpt_ok_respond`
  unfoldable pub rcpt_ok_respond : Retval → Message → Connection → Connection
  unfolding rcpt_ok_switch
  rcpt_ok_respond retval msg c = elim c.transaction [
    | none ↦ count_error c
    | some t ↦ with_last_rcpt (rcpt_ok_switch retval (or_last msg c)) c
  ]

  -- `if (retval === constants.cont && this.relaying) retval = constants.ok`
  abbrev pub relayed : Retval → Connection → Retval
  relayed cont c = if c.relaying then ok else cont
  relayed r c = r

  -- `rej_msg`
  abbrev pub not_relayed : Address → Message
  not_relayed a = lines (quote "I cannot deliver mail for " a "" ∷ [])

  -- The `switch` of `rcpt_respond`
  unfoldable pub rcpt_switch : Retval → Message → Address → Connection → Connection
  unfolding deny_rcpt refuse_rcpt
  rcpt_switch deny msg a c = deny_rcpt deny a msg c
  rcpt_switch denydisconnect msg a c = deny_rcpt denydisconnect a msg c
  rcpt_switch denysoft msg a c = deny_rcpt denysoft a msg c
  rcpt_switch denysoftdisconnect msg a c = deny_rcpt denysoftdisconnect a msg c
  rcpt_switch ok msg a c = calls.run_hooks (rcpt_ok a) (record c { last_rcpt_msg = msg })
  rcpt_switch _ msg a c = respond calls 550 (not_relayed a) (refuse_rcpt reject a (not_relayed a)) c

  -- `rcpt_respond`
  unfoldable pub rcpt_respond : Retval → Message → Connection → Connection
  unfolding rcpt_switch
  rcpt_respond retval msg c = elim c.transaction [
    | none ↦ count_error c
    | some t ↦ with_last_rcpt (rcpt_switch (relayed retval c) msg) c
  ]
