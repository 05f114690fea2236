-- ===== src/Connection/Hooks/Session.antt =====
-- connection.js: the handlers of the hooks on the session: connect, HELO, EHLO, QUIT, VRFY, NOOP,
-- RSET and unknown commands.
use haraka.Prelude.{
  ◌+◌, true, Option, none, some, List, [], ◌∷◌, ◌++◌, if◌then◌else◌, is_empty, String, ◌||◌,
}
use haraka.Prelude.Text.{Text, text, text_eq}
use haraka.Env.{Env}
use haraka.Connection.Types
use haraka.Connection.Types.{
  Retval, cont, ok, deny, denysoft, denydisconnect, denysoftdisconnect, next_hook, Message, absent,
  lines, array, Connection, Calls, named,
}
use haraka.Connection.Reply.{
  respond, loop_respond, disconnect, reset_transaction_then, nothing, or_text, message_lines,
}

abbrev pub say : String → Message
say t = lines (text t ∷ [])

abbrev pub set_host : Option Text → Connection → Connection
set_host h c = record c { remote = record c.remote { host = h } }

-- `remote.info || remote.host`
abbrev pub default_info : Connection → Connection
default_info c = record c {
  remote = record c.remote { info = elim c.remote.info [ none ↦ c.remote.host | some i ↦ some i ] };
}

-- `set('hello', 'verb', null); set('hello', 'host', null)`
abbrev pub forget_hello : Connection → Connection
forget_hello c = record c { hello = record { host = none; verb = none } }

-- What dns.reverse answers: an error that means no such name, another error, or the names.
pub data DnsAnswer : Type 0 where
  not_found failed : DnsAnswer
  domains : List Text → DnsAnswer

-- The name that `rdns_response` stores.
unfoldable pub rdns_name : DnsAnswer → Text
rdns_name not_found = text "NXDOMAIN"
rdns_name failed = text "DNSERROR"
rdns_name (domains []) = text "Unknown"
rdns_name (domains ([] ∷ ds)) = text "Unknown"
rdns_name (domains ((c ∷ d) ∷ ds)) = c ∷ d

-- The name in the greeting, unless the lookup failed.
unfoldable pub greeted_host : Connection → Text
greeted_host c = elim c.remote.host [
  | none ↦ []
  | some h ↦
      if is_empty h || text_eq h (text "DNSERROR") || text_eq h (text "NXDOMAIN")
      then []
      else h ++ 32 ∷ []
]

unfoldable pub hello_text : Env → Connection → Text
unfolding greeted_host
hello_text env c =
    env.me
    ++ (text " Hello "
        ++ (greeted_host c ++ ((b'[' ∷ c.remote.ip) ++ text "], Haraka is at your service.")))

-- The greeting of `connect_respond`.
unfoldable pub greeting : Env → Connection → Message
greeting env c =
    let tag = if c.banner_includes_uuid then text " (" ++ (c.uuid ++ text ")") else [] in
    elim env.smtp_greeting [
      | [] ↦ lines (
          (env.me
            ++ (text " ESMTP Haraka"
                ++ ((if c.header_hide_version then [] else 32 ∷ env.version)
                    ++ (text " ready" ++ tag))))
          ∷ [])
      | g ∷ gs ↦ array ((env.me ++ (text " ESMTP " ++ (g ++ tag))) ∷ gs)
    ]

module _ (env : Env) (calls : Calls) where
  abbrev hang_up : Connection → Connection
  hang_up = disconnect calls

  -- `connect_init_respond`
  unfoldable pub connect_init_respond : Retval → Message → Connection → Connection
  connect_init_respond retval msg = calls.run_hooks Types.lookup_rdns

  -- `rdns_response`
  unfoldable pub rdns_response : DnsAnswer → Connection → Connection
  unfolding rdns_name
  rdns_response answer c =
      calls.run_hooks Types.connect (default_info (set_host (some (rdns_name answer)) c))

  -- The name that a plugin gives: `msg || 'Unknown'`.
  abbrev pub given_name : Message → Text
  given_name msg = elim (message_lines (or_text msg (text "Unknown"))) [ [] ↦ [] | t ∷ ts ↦ t ]

  -- `lookup_rdns_respond`; `reverse` is the call of dns.reverse, whose answer goes to `rdns_response`.
  unfoldable pub lookup_rdns_respond :
      (Connection → Connection) → Retval → Message → Connection → Connection
  lookup_rdns_respond reverse ok msg c =
      calls.run_hooks Types.connect (default_info (set_host (some (given_name msg)) c))
  lookup_rdns_respond reverse deny msg c =
      loop_respond calls 554 (or_text msg (text "rDNS Lookup Failed")) c
  lookup_rdns_respond reverse denydisconnect msg c =
      respond calls 554 (or_text msg (text "rDNS Lookup Failed")) hang_up c
  lookup_rdns_respond reverse Types.disconnect msg c =
      respond calls 554 (or_text msg (text "rDNS Lookup Failed")) hang_up c
  lookup_rdns_respond reverse denysoft msg c =
      loop_respond calls 421 (or_text msg (text "rDNS Temporary Failure")) c
  lookup_rdns_respond reverse denysoftdisconnect msg c =
      respond calls 421 (or_text msg (text "rDNS Temporary Failure")) hang_up c
  lookup_rdns_respond reverse _ msg c = reverse c

  -- `unrecognized_command_respond`
  unfoldable pub unrecognized_command_respond : Retval → Message → Connection → Connection
  unrecognized_command_respond ok msg c = c
  unrecognized_command_respond next_hook msg c = calls.run_hooks (named msg) c
  unrecognized_command_respond deny msg c =
      respond calls 500 (or_text msg (text "Unrecognized command")) nothing c
  unrecognized_command_respond denydisconnect msg c =
      respond calls 521 (or_text msg (text "Unrecognized command")) hang_up c
  unrecognized_command_respond _ msg c =
      respond calls 500 (or_text msg (text "Unrecognized command")) nothing
        (record c { errors = c.errors + 1 })

  -- `connect_respond`
  unfoldable pub connect_respond : Retval → Message → Connection → Connection
  unfolding greeting
  connect_respond deny msg c =
      loop_respond calls 554 (or_text msg (text "Your mail is not welcome here")) c
  connect_respond denydisconnect msg c =
      respond calls 554 (or_text msg (text "Your mail is not welcome here")) hang_up c
  connect_respond Types.disconnect msg c =
      respond calls 554 (or_text msg (text "Your mail is not welcome here")) hang_up c
  connect_respond denysoft msg c = loop_respond calls 421 (or_text msg (text "Come back later")) c
  connect_respond denysoftdisconnect msg c =
      respond calls 421 (or_text msg (text "Come back later")) hang_up c
  connect_respond _ absent c = respond calls 220 (greeting env c) nothing c
  connect_respond _ msg c = respond calls 220 msg nothing c

  -- `helo_respond`
  unfoldable pub helo_respond : Retval → Message → Connection → Connection
  unfolding hello_text
  helo_respond deny msg c = respond calls 550 (or_text msg (text "HELO denied")) forget_hello c
  helo_respond denydisconnect msg c = respond calls 550 (or_text msg (text "HELO denied")) hang_up c
  helo_respond denysoft msg c = respond calls 450 (or_text msg (text "HELO denied")) forget_hello c
  helo_respond denysoftdisconnect msg c =
      respond calls 450 (or_text msg (text "HELO denied")) hang_up c
  helo_respond _ msg c = respond calls 250 (lines (hello_text env c ∷ [])) nothing c

  -- The capabilities of a server with no plugin.
  abbrev pub base_capabilities : Connection → List Text
  base_capabilities c =
      hello_text env c
      ∷ text "PIPELINING"
      ∷ text "8BITMIME"
      ∷ (text "SIZE " ++ env.show_number env.databytes)
      ∷ []

  -- `ehlo_respond`; the flag is set when the hook's call returns.
  unfoldable pub ehlo_respond : Retval → Message → Connection → Connection
  unfolding hello_text
  ehlo_respond deny msg c = respond calls 550 (or_text msg (text "EHLO denied")) forget_hello c
  ehlo_respond denydisconnect msg c = respond calls 550 (or_text msg (text "EHLO denied")) hang_up c
  ehlo_respond denysoft msg c = respond calls 450 (or_text msg (text "EHLO denied")) forget_hello c
  ehlo_respond denysoftdisconnect msg c =
      respond calls 450 (or_text msg (text "EHLO denied")) hang_up c
  ehlo_respond _ msg c =
      let c' =
        calls.run_hooks Types.capabilities (record c { capabilities = base_capabilities c }) in
      record c' { esmtp = true }

  -- `capabilities_respond`
  unfoldable pub capabilities_respond : Retval → Message → Connection → Connection
  capabilities_respond retval msg c = respond calls 250 (array c.capabilities) nothing c

  -- `quit_respond`
  unfoldable pub quit_respond : Retval → Message → Connection → Connection
  quit_respond retval msg c =
      respond calls 221 (or_text msg (env.me ++ text " closing connection. Have a jolly good day."))
        hang_up c

  -- `vrfy_respond`
  unfoldable pub vrfy_respond : Retval → Message → Connection → Connection
  vrfy_respond deny msg c =
      respond calls 550 (or_text msg (text "Access Denied")) (reset_transaction_then calls nothing)
        c
  vrfy_respond denydisconnect msg c =
      respond calls 550 (or_text msg (text "Access Denied")) hang_up c
  vrfy_respond denysoft msg c =
      respond calls 450 (or_text msg (text "Lookup Failed")) (reset_transaction_then calls nothing)
        c
  vrfy_respond denysoftdisconnect msg c =
      respond calls 450 (or_text msg (text "Lookup Failed")) hang_up c
  vrfy_respond ok msg c = respond calls 250 (or_text msg (text "User OK")) nothing c
  vrfy_respond _ msg c =
      respond calls 252 (say "Just try sending a mail and we'll see how it turns out...") nothing c

  -- `noop_respond`
  unfoldable pub noop_respond : Retval → Message → Connection → Connection
  noop_respond deny msg c = respond calls 500 (or_text msg (text "Stop wasting my time")) nothing c
  noop_respond denydisconnect msg c =
      respond calls 500 (or_text msg (text "Stop wasting my time")) hang_up c
  noop_respond _ msg c = respond calls 250 (say "OK") nothing c

  -- `rset_respond`
  unfoldable pub rset_respond : Retval → Message → Connection → Connection
  rset_respond retval msg c = respond calls 250 (say "OK") (reset_transaction_then calls nothing) c
