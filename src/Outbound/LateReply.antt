-- ===== src/Outbound/LateReply.antt =====
-- outbound.js: a socket of the pool on which the reply to the RSET of the mail before is still to come.
use haraka.Prelude.{ℕ, ◌/◌, ◌≡◌, true, false, Option, some, List, [], ◌∷◌, ◌==◌, arith}
use mathlib.Core.Option.{map}
use haraka.Outbound.Client.{Talk, rcpt, proceed, refuse, refuse_rcpt, after_rcpt, next_recipient}
use haraka.Outbound.Client
use haraka.Outbound.Shake.{Config, send_command}
use haraka.Outbound.Handshake.{create, send_mail}
use haraka.Outbound.Conversation.{Conversation, start, talk_line, receive}

rejected-only :
    (code : ℕ)
    → (code / 100 == 5) ≡ true
    → ((code == 250) ≡ false) × (((code / 100 == 3) ≡ false) × ((code / 100 == 4) ≡ false))
rejected-only code h = ground arith

module _ {ℓ} {A : Type ℓ} (g : Config) where
  -- The last line of a reply, without a text.
  abbrev pub replied : List A → ℕ → Conversation A → Conversation A
  replied recipients code c = receive g recipients true (some (code, true, [])) c

  -- What is recorded of the recipients.
  abbrev pub recorded : Conversation A → Option (List A × List A)
  recorded c = map (λ t. (t.ok_recips, t.bounce_recips)) c.talk

  -- On a socket of the pool, whose reply of 250 to the RSET before comes behind MAIL, to a host that
  -- replies 250 to MAIL and a code of 5xx to the first of two recipients or more: the first is recorded
  -- as accepted, and the second, to whose RCPT there is no reply yet, as rejected. (The socket stays
  -- writable.)
  pub late_reply-shifts :
      (type : Option (List ℕ)) (r q : A) (rs : List A) (code : ℕ)
      → (code / 100 == 5) ≡ true
      → recorded (
          replied
            (r ∷ q ∷ rs)
            code
            (replied (r ∷ q ∷ rs) 250 (replied (r ∷ q ∷ rs) 250 (start g (r ∷ q ∷ rs) true type))))
        ≡ some (r ∷ [], q ∷ [])
  unfolding receive create send_mail send_command talk_line Client.reply proceed refuse refuse_rcpt
      after_rcpt next_recipient Client.send_command Client.create
  late_reply-shifts type r q [] code h =
      let (e2, (e3, e4)) = rejected-only code h in simp (h, e2, e3, e4)
  late_reply-shifts type r q (p ∷ rs) code h =
      let (e2, (e3, e4)) = rejected-only code h in simp (h, e2, e3, e4)
