-- ===== src/Connection/Laws/RcptOk.antt =====
-- connection.js: how a recipient is counted by the answer of the rcpt_ok plugins.
use haraka.Prelude.{
  option-some, ◌≡◌, ◌∙◌, some, List, [], ◌∷◌, ◌++◌, ap, arith, last?, last?-append,
}
use haraka.Env.{Address}
use haraka.Transaction.{Transaction, Count, Action, accept, tempfail, reject, incr}
use haraka.Connection.Types.{
  Connection, Retval, deny, denysoft, denydisconnect, denysoftdisconnect, Message,
}
use haraka.Connection.Reply.{reset_transaction_then, disconnect, pause_client}
use haraka.Connection.Hooks.Envelope.{
  rcpt_ok_respond, rcpt_ok_switch, deny_rcpt, refuse_rcpt, pop_rcpt, rcpt_incr,
}
use haraka.Connection.Laws.Flow.{idle}
use haraka.Connection.Laws.Verdicts.{IsOpen, Alike, respond_after, or_text-IsPresent}

abbrev pub verdict : Retval → Action
verdict deny = reject
verdict denydisconnect = reject
verdict denysoft = tempfail
verdict denysoftdisconnect = tempfail
verdict r = accept

abbrev CountIs : Count → Connection → Type 0
CountIs n d = d.rcpt_count ≡ n

accepted-Alike :
    (a : Action) (s : Address) (m : Message) (t : Transaction) (c d : Connection)
    → c.transaction ≡ some t
    → Alike c d
    → CountIs (incr a c.rcpt_count) (rcpt_incr a s m d)
unfolding rcpt_incr
accepted-Alike a s m t c d e k = ground (arith, k.transaction, k.rcpt_count)

refused-Alike :
    (a : Action) (s : Address) (m : Message) (t : Transaction) (c d : Connection)
    → c.transaction ≡ some t
    → Alike c d
    → CountIs (incr a c.rcpt_count) (refuse_rcpt a s m d)
unfolding refuse_rcpt pop_rcpt rcpt_incr
refused-Alike a s m t c d e k = ground (arith, k.transaction, k.rcpt_count)

disconnect-count : (d : Connection) → (disconnect idle d).rcpt_count ≡ d.rcpt_count
unfolding disconnect reset_transaction_then pause_client
disconnect-count d = ground arith

left-Alike :
    (a : Action) (s : Address) (m : Message) (t : Transaction) (c d : Connection)
    → c.transaction ≡ some t
    → Alike c d
    → CountIs (incr a c.rcpt_count) (disconnect idle (rcpt_incr a s m d))
left-Alike a s m t c d e k = disconnect-count (rcpt_incr a s m d) ∙ accepted-Alike a s m t c d e k

rcpt_ok_switch-count :
    (r : Retval) (m : Message) (s : Address) (t : Transaction) (c : Connection)
    → c.transaction ≡ some t
    → IsOpen c
    → CountIs (incr (verdict r) c.rcpt_count) (rcpt_ok_switch idle r m s c)
unfolding rcpt_ok_switch deny_rcpt
rcpt_ok_switch-count deny m s t c e o =
    respond_after (CountIs _) 550 _ _ c (or_text-IsPresent m _) o
      λ d. refused-Alike reject s m t c d e
rcpt_ok_switch-count denydisconnect m s t c e o =
    respond_after (CountIs _) 550 _ _ c (or_text-IsPresent m _) o λ d. left-Alike reject s m t c d e
rcpt_ok_switch-count denysoft m s t c e o =
    respond_after (CountIs _) 450 _ _ c (or_text-IsPresent m _) o
      λ d. refused-Alike tempfail s m t c d e
rcpt_ok_switch-count denysoftdisconnect m s t c e o =
    respond_after (CountIs _) 450 _ _ c (or_text-IsPresent m _) o
      λ d. left-Alike tempfail s m t c d e
rcpt_ok_switch-count _ m s t c e o =
    respond_after (CountIs _) 250 _ _ c (or_text-IsPresent m _) o
      λ d. accepted-Alike accept s m t c d e

-- The answer of the rcpt_ok plugins, whatever it is, counts the last recipient once: as reject for DENY
-- and DENYDISCONNECT, as tempfail for the soft denials, and as accept otherwise. (The socket is open,
-- and nothing else happens meanwhile.)
pub rcpt_ok_respond-count :
    (r : Retval) (m : Message) (a : Address) (rs : List Address) (t : Transaction) (c : Connection)
    → c.transaction ≡ some t
    → t.rcpt_to ≡ rs ++ a ∷ []
    → IsOpen c
    → (rcpt_ok_respond idle r m c).rcpt_count ≡ incr (verdict r) c.rcpt_count
unfolding rcpt_ok_respond
rcpt_ok_respond-count r m a rs t c e l o =
    let last : last? t.rcpt_to ≡ some a = ap last? l ∙ last?-append rs a in
    let n = incr (verdict r) c.rcpt_count in
    option-some (CountIs n) c.transaction t _ _ e (
      option-some (CountIs n) c.transaction t _ _ e
        (option-some (CountIs n) (last? t.rcpt_to) a _ _ last (rcpt_ok_switch-count r _ a t c e o)))
