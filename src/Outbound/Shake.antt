-- ===== src/Outbound/Shake.antt =====
-- outbound.js: the variables of `try_deliver_host_on_socket` up to MAIL, and what it writes.
use haraka.Prelude.{ℕ, Bool, false, Option, none, some, List, [], ◌∷◌, ◌++◌, ◌||◌, if◌then◌else◌}
use haraka.Prelude.Text.{Text, text, text_eq}
use haraka.Outbound.Extensions.{Properties}

pub data Command : Type 0 where
  connect connect_lmtp ehlo lhlo helo starttls auth mail rset : Command

-- What the conversation does to the others: a command with its argument, a line that is not a command,
-- the socket's upgrade, and the calls for the whole mail. `unrecognized` is the bounce for a line that
-- is no reply.
pub data Action : Type 0 where
  wrote : Command → Option Text → Action
  wrote_text : Text → Action
  upgrade temp_fail bounce unrecognized try_next_host : Action

-- The configuration, the mail's sender, and what the MX says: a text that is empty is as one that is
-- not there. The functions are packages' and Node's.
pub record Config : Type 0 where
  pub no_tls_domain : Bool
  pub no_tls_host : Bool
  pub enable_tls : Bool
  pub using_lmtp : Bool
  pub bind_helo : Text
  pub mail_from : Text
  pub auth_user : Text
  pub auth_pass : Text
  pub base64 : Text → Text
  pub unbase64 : Text → Text
  pub hmac_md5_hex : Text → Text → Text

-- The variables of the function; `on_secure` counts the listeners of 'secure', and `auth_type` is mx's.
pub record Shake : Type 0 where
  pub command : Command
  pub response : List Text
  pub processing_mail : Bool
  pub secured : Bool
  pub authenticating : Bool
  pub authenticated : Bool
  pub smtp_properties : Properties
  pub on_secure : ℕ
  pub auth_type : Option Text
  pub out : List Action

abbrev pub act : Action → Shake → Shake
act a s = record s { out = s.out ++ (a ∷ []) }

-- Also at `error` and `close` of the socket.
abbrev pub next_host : Shake → Shake
next_host s =
    if s.processing_mail then record (act try_next_host s) { processing_mail = false } else s

-- `send_command`, if the socket is writable or not
unfoldable pub send_command : Bool → Command → Option Text → Shake → Shake
send_command writable cmd arg s =
    if writable
    then record (act (wrote cmd arg) s) {
      command = if s.authenticating then auth else cmd;
      response = [];
    }
    else next_host s

-- `send_command` with a line of the authentication, while `authenticating` is set.
unfoldable pub send_text : Bool → Text → Shake → Shake
send_text writable line s =
    if writable
    then record (act (wrote_text line) s) { command = auth; response = [] }
    else next_host s

unfoldable pub offers : Text → List Text → Bool
unfolding text_eq
offers type [] = false
offers type (o ∷ os) = text_eq o type || offers type os

-- The type that is picked where the MX has none: CRAM-MD5, then PLAIN, then LOGIN.
unfoldable pub pick_type : Option Text → List Text → Option Text
unfolding text text_eq
pick_type (some type) offered = some type
pick_type none offered =
    if offers (text "CRAM-MD5") offered
    then some (text "CRAM-MD5")
    else if offers (text "PLAIN") offered
    then some (text "PLAIN")
    else if offers (text "LOGIN") offered
    then some (text "LOGIN")
    else none
