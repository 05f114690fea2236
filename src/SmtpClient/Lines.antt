-- ===== src/SmtpClient/Lines.antt =====
-- smtp_client.js: the socket's events.
use haraka.Prelude.{
  ℕ, zero, suc, Bool, true, false, Option, none, some, List, [], ◌∷◌, ◌++◌, ◌&&◌, ◌||◌, ◌==◌, leb,
  if◌then◌else◌,
}
use haraka.Prelude.Text.{Text}
use haraka.SmtpClient.State.{
  is_active, is_destroyed, Command, greeting, ehlo, helo, xclient, starttls, auth, mail, rcpt,
  data_command, dot, rset, quit, other, Client, upgraded, threw, act, destroy,
}
use haraka.SmtpClient.Listeners.{
  Config, emit_greeting, emit_capabilities, emit_command, emit_bad_code, emit_error,
  emit_connection_error,
}

pub record Reply : Type 0 where
  pub code : Text
  pub cont : ℕ
  pub msg : Text

abbrev pub is_digit : ℕ → Bool
is_digit c = leb b'0' c && leb c b'9'

-- (.*): up to the line's end
unfoldable pub up_to_end : Text → Text
up_to_end [] = []
up_to_end (c ∷ t) = let rest = up_to_end t in if c == 10 || c == 13 then [] else c ∷ rest

-- `smtp_regexp`
unfoldable pub parse_reply : Text → Option Reply
unfolding up_to_end
parse_reply (x ∷ y ∷ z ∷ c ∷ t) =
    if is_digit x && is_digit y && is_digit z && (c == b' ' || c == b'-')
    then some (record { code = x ∷ y ∷ z ∷ []; cont = c; msg = up_to_end t })
    else none
parse_reply t = none

abbrev pub starts_with_code : ℕ → Text → Bool
starts_with_code d [] = false
starts_with_code d (c ∷ code) = c == d

abbrev pub is_refusal : Text → Bool
is_refusal code = starts_with_code b'4' code || starts_with_code b'5' code

abbrev pub is_ehlo : Command → Bool
is_ehlo ehlo = true
is_ehlo cmd = false

abbrev pub is_xclient : Command → Bool
is_xclient xclient = true
is_xclient cmd = false

-- `client.response.join(' ')`
unfoldable pub join : List Text → Text
join [] = []
join (t ∷ []) = t
join (t ∷ u ∷ ts) = t ++ (b' ' ∷ join (u ∷ ts))

module _ (g : Config) where
  -- The switch over the command.
  unfoldable pub on_command : Command → Client → Client
  unfolding emit_greeting emit_command destroy
  on_command xclient c = emit_greeting g ehlo (record c { has_xclient = true })
  on_command starttls c = act upgraded c
  on_command greeting c = emit_greeting g ehlo (record c { connected = true })
  on_command ehlo c = emit_command g helo c
  on_command quit c = destroy c
  on_command other c = act threw c
  on_command helo c = emit_command g helo c
  on_command mail c = emit_command g mail c
  on_command rcpt c = emit_command g rcpt c
  on_command data_command c = emit_command g data_command c
  on_command dot c = emit_command g dot c
  on_command rset c = emit_command g rset c
  on_command auth c = emit_command g auth c

  -- What follows the listeners of 'bad_code'.
  unfoldable pub if_active : Client → Client
  unfolding on_command
  if_active c = if is_active c.state then on_command c.command c else c

  -- Behind the capabilities: a rejected XCLIENT, a refusal, or the switch.
  unfoldable pub on_code : Text → Client → Client
  unfolding on_command emit_bad_code join if_active
  on_code code c =
      if is_xclient c.command && starts_with_code b'5' code
      then on_command helo (record c { command = helo })
      else if is_refusal code
      then if_active (emit_bad_code g code (join c.response) c)
      else on_command c.command c

  unfoldable pub if_ehlo : Text → Client → Client
  unfolding on_code
  if_ehlo code c = if is_ehlo c.command then on_code code c else c

  -- The last line of a reply. `cont` is a space then, so it is never one of the two texts that are
  -- asked for a user and a password.
  unfoldable pub on_reply : Text → Client → Client
  unfolding on_code emit_greeting emit_capabilities if_ehlo
  on_reply code c =
      if is_ehlo c.command
      then (if starts_with_code b'5' code
          then emit_greeting g helo c
          else if_ehlo code (emit_capabilities g c))
      else on_code code c

  -- The handler of 'line'.
  unfoldable pub on_line : Text → Client → Client
  unfolding parse_reply on_reply emit_error
  on_line line c = elim (parse_reply line) [
    | none ↦ emit_error g c
    | some r ↦
        let d = record c { response = c.response ++ (r.msg ∷ []) } in
        if r.cont == b' ' then on_reply r.code d else d
  ]

  -- `closed(msg)`, told if the message is 'errored' or 'timed out': the state is destroyed after the
  -- switch, so 'error' is not emitted.
  unfoldable pub on_closed : Bool → Bool → Client → Client
  unfolding destroy emit_connection_error
  on_closed has_pool is_error c =
      if is_error then emit_connection_error g has_pool (destroy c) else destroy c

  -- `on_secured`, as often as it listens.
  unfoldable pub secure : ℕ → Client → Client
  unfolding emit_greeting
  secure zero c = c
  secure (suc n) c = secure n (emit_greeting g ehlo (record c { secured = true }))

-- What happens to a client: a line, an error or a timeout, the end of the socket, the end of the TLS
-- handshake, and the end of the sender's transaction.
pub data Event : Type 0 where
  line : Text → Event
  errored ended secured sender_lost : Event

module _ (g : Config) (has_pool : Bool) where
  -- The lines of a chunk come also after the client was destroyed; its socket is not secured then.
  unfoldable pub step : Event → Client → Client
  unfolding on_line on_closed secure
  step (line t) c = on_line g t c
  step errored c = on_closed g has_pool true c
  step ended c = on_closed g has_pool false c
  step secured c = if is_destroyed c.state then c else secure g c.on_secured c
  step sender_lost c = record c { sender_gone = true }

  unfoldable pub run : List Event → Client → Client
  unfolding step
  run [] c = c
  run (e ∷ es) c = run es (step e c)
