-- ===== src/SmtpClient/State.antt =====
-- smtp_client.js: the client, its commands, and how it is released.
use haraka.Prelude.{ℕ, zero, Bool, true, false, Option, none, List, [], ◌∷◌, ◌++◌, if◌then◌else◌}
use haraka.Prelude.Text.{Text}
use haraka.Connection.Types.{Retval}

-- `STATE`
pub data State : Type 0 where
  idle active released destroyed : State

abbrev pub is_active : State → Bool
is_active active = true
is_active idle = false
is_active released = false
is_active destroyed = false

abbrev pub is_destroyed : State → Bool
is_destroyed destroyed = true
is_destroyed idle = false
is_destroyed active = false
is_destroyed released = false

-- `client.command`; `other` is any that is none of these.
pub data Command : Type 0 where
  greeting ehlo helo xclient starttls auth mail rcpt data_command dot rset quit other : Command

abbrev pub is_data : Command → Bool
is_data data_command = true
is_data c = false

-- What the client does to the others: a command with its data on the socket, the message on it, the
-- socket's upgrade, the answer to the hook (none is no value), the client given back to its pool or
-- destroyed by it, the host marked as dead, and an exception.
pub data Action : Type 0 where
  wrote : Command → Option Text → Action
  piped upgraded : Action
  told : Option Retval → List Text → Action
  pool_released pool_destroyed host_failed threw : Action

-- Who listens to the client's events: the plugin, or `release`, or no one but for connection-error.
pub data Phase : Type 0 where
  plugin releasing pooled : Phase

-- The client, with the variables of get_client_plugin and of hook_queue: `secured`, how often
-- `on_secured` listens, the index `rcpt`, and whether `next` is there. `sender_gone` tells that the
-- connection's transaction is.
pub record Client : Type 0 where
  pub state : State
  pub command : Command
  pub response : List Text
  pub connected : Bool
  pub authenticated : Bool
  pub has_xclient : Bool
  pub auth_capabilities : List Text
  pub secured : Bool
  pub on_secured : ℕ
  pub has_next : Bool
  pub phase : Phase
  pub rcpt : ℕ
  pub sender_gone : Bool
  pub out : List Action

abbrev pub act : Action → Client → Client
act a c = record c { out = c.out ++ (a ∷ []) }

-- `new SMTPClient`, as its pool gives it to the plugin.
abbrev pub new_client : Client
new_client = record {
  state = active;
  command = greeting;
  response = [];
  connected = false;
  authenticated = false;
  has_xclient = false;
  auth_capabilities = [];
  secured = false;
  on_secured = zero;
  has_next = true;
  phase = plugin;
  rcpt = zero;
  sender_gone = false;
  out = [];
}

unfoldable pub send_command : Command → Option Text → Client → Client
send_command cmd args c = record (act (wrote cmd args) c) { command = cmd; response = [] }

-- `piped` is the call of `pipe`; the chunks that it writes in time are not modelled.
unfoldable pub start_data : Client → Client
start_data c = record (act piped c) { response = []; command = dot }

-- The pool's `destroy` sets the state.
unfoldable pub destroy : Client → Client
destroy c = if is_destroyed c.state then c else record (act pool_destroyed c) { state = destroyed }

unfoldable pub release : Client → Client
unfolding destroy send_command
release c =
    if c.connected
    then (if is_data c.command
        then destroy c
        else if is_destroyed c.state
        then c
        else send_command rset none (record c { state = released; phase = releasing }))
    else destroy c

-- `call_next`
unfoldable pub call_next : Option Retval → List Text → Client → Client
call_next r msg c = if c.has_next then record (act (told r msg) c) { has_next = false } else c

-- `is_dead_sender`, with what is done if the sender is there.
unfoldable pub unless_dead : (Client → Client) → Client → Client
unfolding release
unless_dead f c = if c.sender_gone then release c else f c
