-- ===== src/Connection/Laws/Queue.antt =====
-- connection.js: how a message is counted by the answer of the queue plugins.
use haraka.Prelude.{option-some, ◌≡◌, refl, ◌∙◌, Option, none, some, ap, arith}
use haraka.Prelude.Text.{Text}
use haraka.Env.{Env}
use haraka.Transaction.{Transaction, Count, Action, tempfail, reject, incr}
use haraka.Connection.Types.{
  Connection, Retval, ok, deny, denysoft, denydisconnect, denysoftdisconnect, absent, lines, array,
  dsn, Message,
}
use haraka.Connection.Reply.{reset_transaction_then, disconnect, resume, pause_client}
use haraka.Connection.Hooks.Message.{
  end_message, end_session, count_message, deny_queue, concat, queue_switch, with_queue_message,
  queue_respond,
}
use haraka.Connection.Laws.Flow.{idle}
use haraka.Connection.Laws.Verdicts.{IsOpen, Alike, IsPresent, respond_after, or_text-IsPresent}

-- Every answer but OK and the two hard denials counts as a temporary failure.
abbrev pub tally : Retval → Option Action
tally ok = none
tally deny = some reject
tally denydisconnect = some reject
tally r = some tempfail

abbrev pub counted : Option Action → Count → Count
counted none n = n
counted (some a) n = incr a n

end_message-count :
    (env : Env) (a : Action) (d : Connection)
    → (end_message env idle a d).msg_count ≡ incr a d.msg_count
unfolding end_message count_message reset_transaction_then resume pause_client
end_message-count env a d = ground arith

end_session-count :
    (env : Env) (a : Action) (d : Connection)
    → (end_session env idle a d).msg_count ≡ incr a d.msg_count
unfolding end_session count_message disconnect reset_transaction_then pause_client
end_session-count env a d = ground arith

abbrev CountIs : Count → Connection → Type 0
CountIs n d = d.msg_count ≡ n

ended-Alike :
    (env : Env) (a : Action) (c d : Connection)
    → Alike c d
    → CountIs (incr a c.msg_count) (end_message env idle a d)
ended-Alike env a c d k = end_message-count env a d ∙ ap (incr a) k.msg_count

left-Alike :
    (env : Env) (a : Action) (c d : Connection)
    → Alike c d
    → CountIs (incr a c.msg_count) (end_session env idle a d)
left-Alike env a c d k = end_session-count env a d ∙ ap (incr a) k.msg_count

concat-IsPresent : (m : Message) (t : Text) → IsPresent (concat m t)
unfolding concat
concat-IsPresent absent t = tt
concat-IsPresent (lines ms) t = tt
concat-IsPresent (array ms) t = tt
concat-IsPresent (dsn k ms) t = tt

queue_switch-count :
    (env : Env) (r : Retval) (m : Message) (c : Connection)
    → IsPresent m
    → IsOpen c
    → CountIs (counted (tally r) c.msg_count) (queue_switch env idle r m c)
unfolding queue_switch deny_queue
queue_switch-count env ok m c p o = refl
queue_switch-count env deny m c p o =
    respond_after (CountIs _) 550 m _ c p o (ended-Alike env reject c)
queue_switch-count env denydisconnect m c p o =
    respond_after (CountIs _) 550 m _ c p o (left-Alike env reject c)
queue_switch-count env denysoft m c p o =
    respond_after (CountIs _) 450 m _ c p o (ended-Alike env tempfail c)
queue_switch-count env denysoftdisconnect m c p o =
    respond_after (CountIs _) 450 m _ c p o (left-Alike env tempfail c)
queue_switch-count env _ m c p o =
    respond_after (CountIs _) 451 _ _ c (or_text-IsPresent m _) o (ended-Alike env tempfail c)

-- The answer of the queue plugins, whatever it is, counts the message once: as reject for DENY and
-- DENYDISCONNECT, not yet for OK (that is left to queue_ok), and as tempfail otherwise, CONT included.
-- (There is a transaction, the socket is open, and nothing else happens meanwhile.)
pub queue_respond-count :
    (env : Env) (r : Retval) (m : Message) (t : Transaction) (c : Connection)
    → c.transaction ≡ some t
    → IsOpen c
    → (queue_respond env idle r m c).msg_count ≡ counted (tally r) c.msg_count
unfolding queue_respond with_queue_message
queue_respond-count env r m t c e o =
    option-some (CountIs (counted (tally r) c.msg_count)) c.transaction t _ _ e (
      queue_switch-count env r _ _ (concat-IsPresent _ _)
        (record { alive = o.alive; writable = o.writable }))
