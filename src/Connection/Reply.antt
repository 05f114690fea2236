-- ===== src/Connection/Reply.antt =====
-- connection.js: respond, fail, disconnect, the transaction's reset, pause and resume. Each takes
-- the calls that leave the connection as a parameter.
use haraka.Prelude.{
  ℕ, ◌+◌, true, false, Option, none, some, List, [], ◌∷◌, ◌++◌, not, take, is_empty, if◌then◌else◌,
  ◌==◌, leb, ltb, ◌&&◌,
}
use haraka.Prelude.Text.{Text, has_non_space}
use haraka.Env.{Env}
use haraka.Transaction.{Transaction, create as create_transaction}
use haraka.Connection.Types.{
  cmd, pause_data, disconnecting, disconnected, looping, is_disconnecting, is_disconnected,
  is_looping, is_pause_data, ReplyLine, Message, absent, lines, array, dsn, Connection, Calls,
  disconnect_hook, reset_transaction,
}

-- `messages.filter(...)`
unfoldable pub non_blank : List Text → List Text
unfolding has_non_space
non_blank [] = []
non_blank (m ∷ ms) = if has_non_space m then m ∷ non_blank ms else non_blank ms

-- A DSN object brings its own code.
unfoldable pub reply_code : ℕ → Message → ℕ
reply_code code absent = code
reply_code code (lines ms) = code
reply_code code (array ms) = code
reply_code code (dsn k ms) = k

abbrev pub message_lines : Message → List Text
message_lines absent = []
message_lines (lines ms) = ms
message_lines (array ms) = ms
message_lines (dsn k ms) = ms

-- The lines of a reply: those that are not blank, or one space for an empty 334.
unfoldable pub reply_lines : ℕ → Message → List Text
unfolding non_blank
reply_lines code msg =
    let ms = non_blank (message_lines msg) in
    if code == 334 && is_empty ms then (32 ∷ []) ∷ [] else ms

-- The `while` loop of `respond`.
unfoldable pub format_reply : ℕ → Option Text → List Text → List ReplyLine
format_reply code tag [] = []
format_reply code tag (m ∷ ms) =
    record { code = code; more = not (is_empty ms); tag = tag; body = m } ∷ format_reply code tag ms

abbrev pub transaction_uuid : Connection → Text
transaction_uuid c = elim c.transaction [ none ↦ c.uuid | some t ↦ t.uuid ]

-- The uuid in a denial: whole, or cut to the length that is configured.
unfoldable pub deny_tag : ℕ → Connection → Option Text
deny_tag code c =
    if leb 400 code
    then elim c.deny_includes_uuid [
      | none ↦ none
      | some n ↦ some (if ltb 1 n then take n (transaction_uuid c) else transaction_uuid c)
    ]
    else none

unfoldable pub note_reject : ℕ → List Text → Connection → Connection
note_reject code ms c = if leb 400 code then record c { last_reject = some (code, ms) } else c

-- A use of what is not there: the handler throws.
abbrev pub throw : Connection → Connection
throw c = record c { fault = true }

-- `pause`
unfoldable pub pause_client : Connection → Connection
pause_client c = if is_disconnecting c.state then c else record c {
  client = record c.client { paused = true };
  prev_state = if is_pause_data c.state then c.prev_state else some c.state;
  state = pause_data;
}

-- `resume`
unfoldable pub resume : Connection → Connection
resume c = if is_disconnecting c.state then c else record c {
  client = record c.client { paused = false };
  state = elim c.prev_state [ none ↦ c.state | some s ↦ s ];
  prev_state = none;
  scheduled = c.scheduled + 1;
}

abbrev pub set_resetting : Transaction → Transaction
set_resetting t = record t { resetting = true }

-- `reset_transaction(cb)`
unfoldable pub reset_transaction_then : Calls → (Connection → Connection) → Connection → Connection
unfolding pause_client
reset_transaction_then calls cb c = elim c.transaction [
  | none ↦ cb c
  | some t ↦
      if t.resetting
      then cb (record c { transaction = none })
      else calls.run_hooks (reset_transaction cb)
          (record (pause_client c) { transaction = some (set_resetting t) })
]

abbrev pub nothing : Connection → Connection
nothing c = c

-- `disconnect`
unfoldable pub disconnect : Calls → Connection → Connection
unfolding reset_transaction_then
disconnect calls c =
    if is_disconnecting c.state
    then c
    else reset_transaction_then calls (calls.run_hooks disconnect_hook)
        (record c { state = disconnecting })

-- `fail`
unfoldable pub fail : Calls → Connection → Connection
unfolding disconnect
fail calls c = disconnect calls (record c { hooks_to_run = [] })

-- What `respond` changes when it writes.
unfoldable pub write_reply : List ReplyLine → Connection → Connection
write_reply reply c = record c {
  client = record c.client { sent = c.client.sent ++ reply ∷ [] };
  last_response = reply;
  state = if is_looping c.state then c.state else cmd;
}

-- The end of `respond`: its closure, then the commands that wait in the buffer.
abbrev pub then_process : Calls → Connection → Connection
then_process calls c = if c.fault then c else calls.process_data c

-- `respond`, with the code and the lines of the message.
unfoldable pub deliver : Calls → ℕ → List Text → (Connection → Connection) → Connection → Connection
unfolding deny_tag note_reject format_reply write_reply fail
deliver calls code ms func c =
    let c' = note_reject code ms c in
    if is_disconnected c.state
    then func c
    else if c.client.writable
    then then_process calls (func (write_reply (format_reply code (deny_tag code c) ms) c'))
    else fail calls c'

-- `respond(code, msg, func)`
unfoldable pub respond : Calls → ℕ → Message → (Connection → Connection) → Connection → Connection
unfolding reply_code reply_lines deliver
respond calls code absent func c = if is_disconnected c.state then func c else throw c
respond calls code msg func c =
    let k = reply_code code msg in deliver calls k (reply_lines k msg) func c

-- `msg || default`
abbrev pub or_text : Message → Text → Message
or_text absent d = lines (d ∷ [])
or_text (lines ms) d = lines ms
or_text (array ms) d = array ms
or_text (dsn k ms) d = dsn k ms

-- `loop_respond`
unfoldable pub loop_respond : Calls → ℕ → Message → Connection → Connection
unfolding respond
loop_respond calls code msg c =
    if is_disconnecting c.state
    then c
    else respond calls code msg nothing
        (record c { state = looping; loop_code = code; loop_msg = msg })

-- `reset_transaction_respond`
unfoldable pub reset_transaction_respond : (Connection → Connection) → Connection → Connection
unfolding resume
reset_transaction_respond cb c = resume (cb (record c { transaction = none }))

-- `tran_uuid` and `init_transaction(cb)`; the n-th transaction is named after the connection.
unfoldable pub start_transaction : Env → Connection → Connection
start_transaction env c =
    let n = c.tran_count + 1 in
    record c {
      tran_count = n;
      transaction = some (create_transaction (c.uuid ++ (b'.' ∷ env.show_number n)));
    }

unfoldable pub init_transaction : Calls → Env → (Connection → Connection) → Connection → Connection
unfolding start_transaction reset_transaction_then
init_transaction calls env cb = reset_transaction_then calls (λ c. cb (start_transaction env c))

-- `disconnect_respond`
unfoldable pub disconnect_respond : Connection → Connection
disconnect_respond c = record c { state = disconnected; client = record c.client { ended = true } }
