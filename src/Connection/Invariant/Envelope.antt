-- ===== src/Connection/Invariant/Envelope.antt =====
-- The handlers of MAIL and RCPT in connection.js keep the invariant.
use haraka.Prelude.{◌≡◌, some, last?, arith, refl}
use haraka.Env.{Address}
use haraka.Transaction.{Transaction, Action, accept, tempfail, reject, incr}
use haraka.Connection.Types.{
  Retval, ok, deny, denysoft, denydisconnect, denysoftdisconnect, Message, Connection, Calls,
  rcpt_ok,
}
use haraka.Connection.Reply.{throw, nothing, reset_transaction_then, disconnect}
use haraka.Connection.Hooks.Envelope.{
  with_transaction, store_sender, rcpt_incr, pop_rcpt, refuse_rcpt, mail_respond_to, mail_respond,
  deny_rcpt, rcpt_ok_switch, rcpt_ok_respond, rcpt_switch, rcpt_respond, with_last_rcpt, relayed,
  or_last, store_then, count_error, not_relayed,
}
use haraka.Connection.Invariant.Core.{
  Inv, Counted, Keeps, CallsKeep, respond-Keeps, disconnect-Keeps, reset-Keeps, nothing-Keeps,
  throw-Keeps, Option-elim-Inv,
}

-- A change of the transaction that leaves its counts alone.
pub with_counts-Inv :
    (c : Connection) (t t' : Transaction)
    → Inv c
    → c.transaction ≡ some t
    → t'.rcpt_count ≡ t.rcpt_count
    → Inv (record c { transaction = some t' })
with_counts-Inv c t t' h e f =
    let k : Counted (some t) c.rcpt_count = rw e at h.counted in ground arith

-- The rule for a use of the transaction.
pub with_transaction-Inv :
    (c : Connection) (f : Transaction → Connection)
    → Inv c
    → ((t : Transaction) → c.transaction ≡ some t → Inv (f t))
    → Inv (with_transaction c f)
with_transaction-Inv c f h g = Option-elim-Inv c.transaction f (throw c) (throw-Keeps c h) g

pub store_sender-Keeps : (a : Action) (s : Address) (m : Message) → Keeps (store_sender a s m)
unfolding store_sender
store_sender-Keeps accept s m c h = with_transaction-Inv c _ h λ t e. with_counts-Inv c t _ h e refl
store_sender-Keeps _ s m c h = with_transaction-Inv c _ h λ t e. with_counts-Inv c t _ h e refl

-- A recipient is counted in both places.
pub rcpt_incr-Keeps : (a : Action) (s : Address) (m : Message) → Keeps (rcpt_incr a s m)
unfolding rcpt_incr incr
rcpt_incr-Keeps accept s m c h = with_transaction-Inv c _ h λ t e.
    let k : Counted (some t) c.rcpt_count = rw e at h.counted in
    record { replies = h.replies; resumable = h.resumable; counted = omega arith }
rcpt_incr-Keeps _ s m c h = with_transaction-Inv c _ h λ t e.
    let k : Counted (some t) c.rcpt_count = rw e at h.counted in
    record { replies = h.replies; resumable = h.resumable; counted = omega arith }

pub pop_rcpt-Keeps : Keeps pop_rcpt
unfolding pop_rcpt
pop_rcpt-Keeps c h = with_transaction-Inv c _ h λ t e. with_counts-Inv c t _ h e refl

pub refuse_rcpt-Keeps : (a : Action) (s : Address) (m : Message) → Keeps (refuse_rcpt a s m)
unfolding refuse_rcpt
refuse_rcpt-Keeps a s m c h = pop_rcpt-Keeps _ (rcpt_incr-Keeps a s m c h)

count_error-Keeps : (calls : Calls) → Keeps (count_error calls)
count_error-Keeps calls c h = assumption

last_message-Keeps : (m : Message) → Keeps (λ c. record c { last_rcpt_msg = m })
last_message-Keeps m c h = assumption

module _ {calls : Calls} (k : CallsKeep calls) where
  store_then-Keeps :
      (a : Action) (s : Address) (m : Message) (next : Connection → Connection)
      → Keeps next
      → Keeps (store_then calls a s m next)
  store_then-Keeps a s m next g c h = g _ (store_sender-Keeps a s m c h)

  drop-Keeps : Keeps (reset_transaction_then calls nothing)
  drop-Keeps = reset-Keeps k nothing nothing-Keeps

  mail_respond_to-Keeps :
      (a : Address) (r : Retval) (m : Message) → Keeps (mail_respond_to calls a r m)
  unfolding mail_respond_to
  mail_respond_to-Keeps a deny m c h =
      respond-Keeps k 550 _ _ (store_then-Keeps reject a m _ drop-Keeps) c h
  mail_respond_to-Keeps a denydisconnect m c h =
      respond-Keeps k 550 _ _ (store_then-Keeps reject a m _ (disconnect-Keeps k)) c h
  mail_respond_to-Keeps a denysoft m c h =
      respond-Keeps k 450 _ _ (store_then-Keeps tempfail a m _ drop-Keeps) c h
  mail_respond_to-Keeps a denysoftdisconnect m c h =
      respond-Keeps k 450 _ _ (store_then-Keeps tempfail a m _ (disconnect-Keeps k)) c h
  mail_respond_to-Keeps a _ m c h =
      respond-Keeps k 250 _ nothing nothing-Keeps _ (store_sender-Keeps accept a m c h)

  pub mail_respond-Keeps : (r : Retval) (m : Message) → Keeps (mail_respond calls r m)
  unfolding mail_respond
  mail_respond-Keeps r m c h = Option-elim-Inv c.transaction _ c h λ t e.
      Option-elim-Inv t.mail_from _ (throw c) (throw-Keeps c h)
        λ a e'. mail_respond_to-Keeps a r m c h

  incr_disconnect-Keeps :
      (a : Action) (s : Address) (m : Message) → Keeps (λ d. disconnect calls (rcpt_incr a s m d))
  incr_disconnect-Keeps a s m c h = disconnect-Keeps k _ (rcpt_incr-Keeps a s m c h)

  deny_rcpt-Keeps : (r : Retval) (s : Address) (m : Message) → Keeps (deny_rcpt calls r s m)
  unfolding deny_rcpt
  deny_rcpt-Keeps deny s m c h = respond-Keeps k 550 _ _ (refuse_rcpt-Keeps reject s m) c h
  deny_rcpt-Keeps denydisconnect s m c h =
      respond-Keeps k 550 _ _ (incr_disconnect-Keeps reject s m) c h
  deny_rcpt-Keeps denysoft s m c h = respond-Keeps k 450 _ _ (refuse_rcpt-Keeps tempfail s m) c h
  deny_rcpt-Keeps denysoftdisconnect s m c h =
      respond-Keeps k 450 _ _ (incr_disconnect-Keeps tempfail s m) c h
  deny_rcpt-Keeps _ s m c h = h

  last_rcpt-Keeps :
      (f : Address → Connection → Connection)
      → ((a : Address) → Keeps (f a))
      → Keeps (with_last_rcpt calls f)
  last_rcpt-Keeps f g c h =
      with_transaction-Inv c _ h
        λ t e. Option-elim-Inv (last? t.rcpt_to) _ (throw c) (throw-Keeps c h) λ a e'. g a c h

  rcpt_ok_switch-Keeps :
      (r : Retval) (m : Message) (a : Address) → Keeps (rcpt_ok_switch calls r m a)
  unfolding rcpt_ok_switch
  rcpt_ok_switch-Keeps deny m a = deny_rcpt-Keeps deny a m
  rcpt_ok_switch-Keeps denydisconnect m a = deny_rcpt-Keeps denydisconnect a m
  rcpt_ok_switch-Keeps denysoft m a = deny_rcpt-Keeps denysoft a m
  rcpt_ok_switch-Keeps denysoftdisconnect m a = deny_rcpt-Keeps denysoftdisconnect a m
  rcpt_ok_switch-Keeps _ m a = respond-Keeps k 250 _ _ (rcpt_incr-Keeps accept a m)

  pub rcpt_ok_respond-Keeps : (r : Retval) (m : Message) → Keeps (rcpt_ok_respond calls r m)
  unfolding rcpt_ok_respond
  rcpt_ok_respond-Keeps r m c h =
      Option-elim-Inv c.transaction _ (count_error calls c) (count_error-Keeps calls c h)
        λ t e. last_rcpt-Keeps _ (rcpt_ok_switch-Keeps r (or_last calls m c)) c h

  rcpt_switch-Keeps : (r : Retval) (m : Message) (a : Address) → Keeps (rcpt_switch calls r m a)
  unfolding rcpt_switch
  rcpt_switch-Keeps deny m a c h = deny_rcpt-Keeps deny a m c h
  rcpt_switch-Keeps denydisconnect m a c h = deny_rcpt-Keeps denydisconnect a m c h
  rcpt_switch-Keeps denysoft m a c h = deny_rcpt-Keeps denysoft a m c h
  rcpt_switch-Keeps denysoftdisconnect m a c h = deny_rcpt-Keeps denysoftdisconnect a m c h
  rcpt_switch-Keeps ok m a c h = k.hooks (rcpt_ok a) tt _ (last_message-Keeps m c h)
  rcpt_switch-Keeps _ m a c h =
      respond-Keeps k 550 _ _ (refuse_rcpt-Keeps reject a (not_relayed calls a)) c h

  pub rcpt_respond-Keeps : (r : Retval) (m : Message) → Keeps (rcpt_respond calls r m)
  unfolding rcpt_respond
  rcpt_respond-Keeps r m c h =
      Option-elim-Inv c.transaction _ (count_error calls c) (count_error-Keeps calls c h)
        λ t e. last_rcpt-Keeps _ (rcpt_switch-Keeps (relayed calls r c) m) c h
