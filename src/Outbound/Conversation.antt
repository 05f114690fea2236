-- ===== src/Outbound/Conversation.antt =====
-- outbound.js: `try_deliver_host_on_socket`, the whole of it: the handshake and, from MAIL on, the talk.
use haraka.Prelude.{ℕ, Bool, true, false, Option, none, some, List, ◌&&◌, if◌then◌else◌}
use haraka.Prelude.Text.{Text}
use haraka.Outbound.Client.{Talk, bounce, act, data_end}
use haraka.Outbound.Client
use haraka.Outbound.Shake.{Command, mail, Config, Shake}
use haraka.Outbound.Handshake.{create, on_line}

-- The variables up to MAIL, and from there on.
pub record Conversation {ℓ} (A : Type ℓ) : Type ℓ where
  pub shake : Shake
  pub talk : Option (Talk A)

abbrev pub is_mail : Command → Bool
is_mail mail = true
is_mail _ = false

module _ {ℓ} {A : Type ℓ} (g : Config) (recipients : List A) where
  -- `mail` is the command behind the last call of the handshake.
  abbrev pub enter : Shake → Conversation A
  enter s =
      if is_mail s.command && s.processing_mail
      then record { shake = s; talk = some (Client.create g.using_lmtp recipients) }
      else record { shake = s; talk = none }

  abbrev pub start : Bool → Option Text → Conversation A
  start pooled type = enter (create g true pooled type)

  -- A line, from MAIL on: of a reply only the last counts.
  unfoldable pub talk_line : Bool → Option (ℕ × Bool × Text) → Talk A → Talk A
  unfolding Client.reply
  talk_line writable none t =
      if t.processing_mail then record (act bounce t) { processing_mail = false } else t
  talk_line writable (some (code, is_last, rest)) t =
      if is_last then Client.reply writable code t else t

  unfoldable pub receive : Bool → Option (ℕ × Bool × Text) → Conversation A → Conversation A
  unfolding on_line talk_line
  receive writable l c = elim c.talk [
    | none ↦ enter (on_line g writable l c.shake)
    | some t ↦ record c { talk = some (talk_line writable l t) }
  ]

  unfoldable pub sent_all : Bool → Conversation A → Conversation A
  unfolding data_end
  sent_all writable c = elim c.talk [
    | none ↦ c
    | some t ↦ record c { talk = some (data_end writable t) }
  ]
