-- ===== src/Connection/Laws/Flow.antt =====
-- connection.js: pausing, replying and the size limit.
use haraka.Prelude.{ℕ, ◌+◌, ◌<◌, ◌≡◌, ◌≢◌, true, false, some, List, length, arith, ◌⊎◌, ◌↔◌}
use haraka.Prelude.Text.{Text, text_eq}
use haraka.Env.{Env}
use haraka.Transaction.{Transaction}
use haraka.Connection.Types.{
  Connection, Calls, cmd, disconnecting, is_disconnecting, is_pause_data, lines,
}
use haraka.Connection.Reply.{
  pause_client, resume, respond, deliver, nothing, write_reply, note_reject,
}
use haraka.Connection.Commands.Body.{
  accumulate_data, accumulate_line, over_limit, end_of_data, bare_end,
}
use haraka.Connection.Commands.Session.{proxy_valid, ProxyLine, both_ipv4, both_ipv6, tcp4, unknown}

-- The calls of a connection for which nothing else happens.
abbrev pub idle : Calls
idle = record { process_data = nothing; run_hooks = λ h c. c }

-- Once or twice paused, a connection that is neither paused nor ending resumes in the state that it
-- had, with its socket running and one more call of `_process_data` to come.
pub resume-pause_client :
    (c : Connection)
    → is_disconnecting c.state ≡ false
    → is_pause_data c.state ≡ false
    → let once = resume (pause_client c) in
      let twice = resume (pause_client (pause_client c)) in
      (once.state ≡ c.state)
      × (twice.state ≡ c.state)
      × (once.client.paused ≡ false)
      × (twice.client.paused ≡ false)
      × (once.scheduled ≡ c.scheduled + 1)
unfolding resume pause_client
resume-pause_client c h g = ground arith

-- A reply to a connection that is being disconnected, and whose socket still takes writes, puts it
-- back to the state in which commands are read.
pub respond_reopens :
    (code : ℕ) (ms : List Text) (c : Connection)
    → c.state ≡ disconnecting
    → c.client.writable ≡ true
    → c.fault ≡ false
    → (respond idle code (lines ms) nothing c).state ≡ cmd
unfolding respond deliver note_reject write_reply
respond_reopens code ms c h g f = ground arith

-- A line of the message that takes it over the size limit is counted and not stored: the header
-- lines and the stream of the message stay as they were, whatever else is called.
pub accumulate_data-over :
    (env : Env) (calls : Calls) (line : Text) (t : Transaction) (c : Connection)
    → c.transaction ≡ some t
    → text_eq line end_of_data ≡ false
    → text_eq line bare_end ≡ false
    → 0 < c.max_bytes
    → c.max_bytes < t.data_bytes + length line
    → accumulate_data env calls line c
      ≡ record c { transaction = some (record t { data_bytes = t.data_bytes + length line }) }
unfolding accumulate_data accumulate_line over_limit
accumulate_data-over env calls line t c e h g p q = ground arith

-- A PROXY line is taken exactly when its protocol is TCP4 or TCP6 and both its addresses are IPv6
-- addresses, or its protocol is TCP4 and both are IPv4 addresses: TCP4 admits IPv6 addresses too.
pub proxy_valid_iff :
    (env : Env) (p : ProxyLine)
    → (proxy_valid env p ≡ true) ↔ (
        ((p.proto ≢ unknown) × (both_ipv6 env p ≡ true))
        ⊎ ((p.proto ≡ tcp4) × (both_ipv4 env p ≡ true)))
unfolding proxy_valid
proxy_valid_iff env p = ground arith
