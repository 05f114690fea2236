-- ===== src/Lib.antt =====
-- Haraka, a mail server: receiving mail, and the queue that sends it. A client's lines arrive at a
-- connection (connection.js), which splits the input into lines, runs the command of each, and asks
-- the plugins; the handler of each hook (`..._respond`) acts on their answer, writes the reply and
-- goes on with the input. MAIL starts a transaction (transaction.js), whose DATA lines go to its
-- header (mailheader.js) and to the body. The body is kept in a message's stream (messagestream.js),
-- which spools it to a file when it is large and gives it to readers; both ends cut it into chunks
-- (chunkemitter.js). The queue (outbound.js) writes a message from such a stream to a file, tries to
-- deliver it to a server, and defers or bounces it with a status (dsn.js). The timers and the pool of
-- hosts are small parts that deliveries use. A plugin can forward a message to a backend in place of
-- the queue (smtp_client.js). A client's right to send for a domain is asked of its policy (spf.js),
-- and a message's signatures are checked as it is read (dkim.js).
--
-- The files, and what they model:
--   Connection/Types      connection.js: `states`, the record of a connection, the answers, the hooks
--   Connection/Reply      connection.js: respond, pause, resume, disconnect, the transaction's reset
--   Connection/Words, Input
--                         connection.js: process_data, _process_data, process_line
--   Connection/Commands   connection.js: cmd_proxy to cmd_data, accumulate_data, data_done,
--                         received_line and auth_results_clean
--   Connection/Hooks      connection.js: the handlers connect_init_respond to queue_ok_respond
--   Connection/System     connection.js: the socket's events; plugins.js: the call of a handler
--   Transaction           transaction.js
--   Header                mailheader.js
--   Rfc1869               rfc1869.js: `parse`
--   TimerQueue            timer_queue.js
--   HostPool              host_pool.js
--   ChunkEmitter          chunkemitter.js
--   MessageStream/Writer  messagestream.js: add_line, add_line_end, _write and the file's events
--   MessageStream/Reader  messagestream.js: _read, process_buf, pipe, get_data
--   Plugins               plugins.js: run_hooks, run_next_hook and its callback, the deny hook
--   DelayDeny             plugins/delay_deny.js
--   Dsn, Dsn/Statuses     dsn.js
--   Spf/Terms, Spf/Record spf.js: a domain's record, found and read
--   Spf/Macros            spf.js: expand_macros
--   Spf/Mechanisms        spf.js: mech_all to mech_ip
--   Spf/Check             spf.js: check_host and its call chain, mech_include, mod_redirect
--   SmtpClient/State      smtp_client.js: the client, its commands, release and destroy
--   SmtpClient/Listeners  smtp_client.js: get_client_plugin; plugins/queue/smtp_forward.js: hook_queue
--   SmtpClient/Lines      smtp_client.js: the socket's events
--   Dkim/Canon, Object    dkim.js: DKIMObject: its fields, the canonicalisation, the lines
--   Dkim/Stream           dkim.js: DKIMVerifyStream
--   Dkim/Key, Ending      dkim.js: DKIMObject's end and the record of the key; the stream's end
--   Outbound/Names        outbound.js: the names of the queue's files
--   Outbound/Todo         outbound.js: build_todo, process_delivery, read_todo, split_to_new_recipients
--   Outbound/Extensions   outbound.js: what a host announces in its reply to EHLO
--   Outbound/Shake, Handshake
--                         outbound.js: try_deliver_host_on_socket up to MAIL: STARTTLS and AUTH
--   Outbound/Client       outbound.js: try_deliver_host_on_socket, from MAIL on
--   Outbound/Conversation outbound.js: try_deliver_host_on_socket, the two together
--   Outbound/Sending      outbound.js: send_trans_email behind its hook
--   Outbound/Hosts        outbound.js: get_mx_respond, lookup_mx, found_mx, sort_mx, try_deliver,
--                         try_deliver_host
--   Outbound/Item         outbound.js: HMailItem's send, temp_fail, bounce, discard and their hooks
--   Env                   what these take from outside: the configuration, the clock, and packages
--   Prelude               shared names and lemmas; Prelude/Text has text as its character codes
-- Connection/Invariant and Connection/Laws, and the other children of the parts, are proofs about them;
-- Tests has runs at concrete inputs.
--
-- A function takes the state and returns the next. What is written to the socket, sent to the master
-- process, or left for setImmediate to call is kept in the state. A use of a missing transaction sets
-- `fault`, as the exception does that process_line catches. A handler takes the calls that leave it,
-- `Calls`: the rest of the input, and the hooks; `System.system` ties them together. The plugins may
-- change the connection and answer a hook at once or later, as an event; so do dns.reverse and
-- outbound.send_email. The chain of one hook is modelled apart, in Plugins: each call of a plugin is a
-- record of its own, and each callback, late or twice, an event. A stream's file is the list of the
-- chunks that were written to it; whether the file takes a chunk at once is a parameter, and so are
-- the search for a line's end and the cuts in which the file is read. Text is bytes: where the source
-- makes a buffer of a string or a string of a buffer, the conversion is a parameter (`encode` and
-- `decode` of a stream's reader, `recode` of a body line of dkim.js). A message that is piped to a
-- backend is one action, the call of pipe, and not its chunks; the lines of a chunk are taken also once
-- the client was destroyed. What a mail or a conversation of the queue does to the others is a list of
-- effects in its state.
--
-- Bounds: `system n` has calls nested to depth n, and n rounds of an input loop, after which the
-- calls do nothing; n is an argument, so a run is followed as far as one likes. The loop of
-- rfc1869.js has a fuel of the length of its line and one, since each round but the last shortens the
-- line; that of chunkemitter.js the length of its input, since each round takes a byte or more; that
-- of process_buf the length of its buffer and one, since each round takes a line. A check of a policy
-- has the depth of the records that it includes as its fuel; twelve are enough, since each counts a
-- lookup and ten end it. The loop of its macros has a fuel of its own, and no result where that runs
-- out; a check takes the expansion as an argument. The loop of dkim.js has the length of its buffer
-- and one, since each round takes a byte or more.
--
-- Not modelled: logging and timing; copies of properties under legacy names; the contents of the
-- connection's result store; the decoded values of a header; the parser of bodies, whose answers are
-- parameters; attachment hooks, banners and filters; TLS; loading plugins; pausing a reader and
-- errors of the stream's file; names that a plain object inherits, as `constructor`, as the key of a
-- header or the name of a host. Of the queue: JSON of a todo, which is a text here; pools of sockets;
-- fields of a report other than status and action; the text of a bounce. Of a client of a backend:
-- its pool, and what an earlier use of it left. Of signatures: cryptography. The other servers and
-- clients, and the other plugins.
pub mod Prelude
pub mod Header
pub mod Env
pub mod Rfc1869
pub mod Transaction
pub mod Plugins
pub mod Dsn
pub mod SmtpClient
pub mod Dkim
pub mod Spf
pub mod DelayDeny
pub mod Connection
pub mod TimerQueue
pub mod HostPool
pub mod Outbound
pub mod ChunkEmitter
pub mod MessageStream
pub mod Tests
