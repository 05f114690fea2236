-- ===== src/Connection/Types.antt =====
-- connection.js: the states of a connection, its record, and what it asks of the plugins.
use haraka.Prelude.{ℕ, Bool, true, false, Option, none, List, [], if◌then◌else◌, ◌==◌}
use haraka.Prelude.Text.{Text}
use haraka.Env.{Address}
use haraka.Transaction.{Transaction, Count, no_count}

-- `states`; STATE_LOOP is `looping`.
pub data State : Type 0 where
  cmd looping in_data pause pause_smtp pause_data disconnecting disconnected : State

-- `state >= states.STATE_DISCONNECTING`
abbrev pub is_disconnecting : State → Bool
is_disconnecting disconnecting = true
is_disconnecting disconnected = true
is_disconnecting s = false

abbrev pub is_disconnected : State → Bool
is_disconnected disconnected = true
is_disconnected s = false

abbrev pub is_looping : State → Bool
is_looping looping = true
is_looping s = false

abbrev pub is_pause_data : State → Bool
is_pause_data pause_data = true
is_pause_data s = false

-- `state === STATE_DATA || state === STATE_PAUSE_DATA`
abbrev pub is_data_mode : State → Bool
is_data_mode in_data = true
is_data_mode pause_data = true
is_data_mode s = false

-- A line of a reply: `code-` or, on the last line, `code `; then the uuid that a denial may carry.
pub record ReplyLine : Type 0 where
  pub code : ℕ
  pub more : Bool
  pub tag : Option Text
  pub body : Text

-- What is given as a message: nothing (or the empty text), a text by its lines, an array of texts,
-- or a DSN object.
pub data Message : Type 0 where
  absent : Message
  lines : List Text → Message
  array : List Text → Message
  dsn : ℕ → List Text → Message

pub record Local : Type 0 where
  pub ip : Text
  pub port : ℕ

pub record Remote : Type 0 where
  pub ip : Text
  pub port : ℕ
  pub host : Option Text
  pub info : Option Text
  pub closed : Bool

pub record Hello : Type 0 where
  pub host : Option Text
  pub verb : Option Text

pub record Proxy : Type 0 where
  pub allowed : Bool
  pub ip : Option Text
  pub type_name : Option Text
  pub timer : Bool

-- `notes.tls`: the cipher's version and name, and what the verification said.
pub record TlsNotes : Type 0 where
  pub version : Text
  pub name : Text
  pub verify : Text

-- The socket: what was written to it, and whether it still takes writes.
pub record Client : Type 0 where
  pub sent : List (List ReplyLine)
  pub writable : Bool
  pub paused : Bool
  pub ended : Bool

pub record Connection : Type 0 where
  pub client : Client
  pub here : Local
  pub remote : Remote
  pub hello : Hello
  pub proxy : Proxy
  pub tls_enabled : Bool
  pub notes_tls : Option TlsNotes
  pub authheader : Option Text
  pub authentication_results : List Text
  -- `null` and the empty buffer are the empty list
  pub current_data : Text
  pub current_line : Text
  pub state : State
  pub prev_state : Option State
  pub loop_code : ℕ
  pub loop_msg : Message
  pub uuid : Text
  pub transaction : Option Transaction
  pub tran_count : ℕ
  pub capabilities : List Text
  pub banner_includes_uuid : Bool
  pub deny_includes_uuid : Option ℕ
  pub header_hide_version : Bool
  pub early_talker : Bool
  pub pipelining : Bool
  pub relaying : Bool
  pub esmtp : Bool
  pub last_response : List ReplyLine
  pub last_reject : Option (ℕ × List Text)
  -- the plugins' queue of hooks, by their positions
  pub hooks_to_run : List ℕ
  pub max_bytes : ℕ
  pub totalbytes : ℕ
  pub rcpt_count : Count
  pub msg_count : Count
  pub max_line_length : ℕ
  pub max_data_line_length : ℕ
  pub errors : ℕ
  pub last_rcpt_msg : Message
  -- the commands that were sent to the master process
  pub to_master : List (List Text)
  -- errors that the program logs to the connection's result store
  pub result_errors : ℕ
  -- calls of `_process_data` that setImmediate will make
  pub scheduled : ℕ
  -- a TypeError was thrown, by a use of a missing transaction or message
  pub fault : Bool

-- The settings that the constructor reads; 0 is an unset length.
pub record Settings : Type 0 where
  pub banner_includes_uuid : Bool
  pub deny_includes_uuid : Option ℕ
  pub header_hide_version : Bool
  pub max_line_length : ℕ
  pub max_data_line_length : ℕ
  pub databytes : ℕ

-- `n || d` of a number
abbrev or_number : ℕ → ℕ → ℕ
or_number n d = if n == 0 then d else n

-- `Connection(client, server)`, up to setupClient.
unfoldable pub create : Text → Settings → Connection
create uuid settings = record {
  client = record { sent = []; writable = true; paused = false; ended = false };
  here = record { ip = []; port = 0 };
  remote = record { ip = []; port = 0; host = none; info = none; closed = false };
  hello = record { host = none; verb = none };
  proxy = record { allowed = false; ip = none; type_name = none; timer = false };
  tls_enabled = false;
  notes_tls = none;
  authheader = none;
  authentication_results = [];
  current_data = [];
  current_line = [];
  state = pause;
  prev_state = none;
  loop_code = 0;
  loop_msg = absent;
  uuid = uuid;
  transaction = none;
  tran_count = 0;
  capabilities = [];
  banner_includes_uuid = settings.banner_includes_uuid;
  deny_includes_uuid = settings.deny_includes_uuid;
  header_hide_version = settings.header_hide_version;
  early_talker = false;
  pipelining = false;
  relaying = false;
  esmtp = false;
  last_response = [];
  last_reject = none;
  hooks_to_run = [];
  max_bytes = settings.databytes;
  totalbytes = 0;
  rcpt_count = no_count;
  msg_count = no_count;
  max_line_length = or_number settings.max_line_length 512;
  max_data_line_length = or_number settings.max_data_line_length 992;
  errors = 0;
  last_rcpt_msg = absent;
  to_master = [];
  result_errors = 0;
  scheduled = 0;
  fault = false;
}

-- The answers of plugins (haraka-constants). `other` is any value with no name there.
pub data Retval : Type 0 where
  cont ok deny denysoft denydisconnect disconnect denysoftdisconnect next_hook other : Retval

-- A call of plugins.run_hooks by connection.js, with its parameters. The continuation that
-- `reset_transaction` passes on is the `cb` of its handler.
pub data Hook : Type 0 where
  connect_init lookup_rdns connect capabilities quit rset vrfy noop : Hook
  unrecognized_command : List Text → Hook
  helo ehlo : Text → Hook
  mail : Address → List (Text × Option Text) → Hook
  rcpt : Address → List (Text × Option Text) → Hook
  rcpt_ok : Address → Hook
  data_command data_post max_data_exceeded queue queue_outbound : Hook
  queue_ok : Message → Hook
  disconnect_hook : Hook
  reset_transaction : (Connection → Connection) → Hook
  named : Message → Hook

-- The calls that leave the connection and may come back to it: the rest of the input, and the
-- plugins, which answer at once or later.
pub record Calls : Type 0 where
  pub process_data : Connection → Connection
  pub run_hooks : Hook → Connection → Connection
