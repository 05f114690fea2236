-- ===== src/Connection/Invariant/Session.antt =====
-- The handlers of connection.js on the session keep the invariant.
use haraka.Prelude.{◌+◌, true, some, Option, List}
use haraka.Prelude.Text.{Text}
use haraka.Env.{Env}
use haraka.Connection.Types
use haraka.Connection.Types.{
  Retval, cont, ok, deny, denysoft, denydisconnect, denysoftdisconnect, next_hook, Message, absent,
  lines, array, dsn, Connection, Calls, named,
}
use haraka.Connection.Reply.{nothing, reset_transaction_then}
use haraka.Connection.Hooks.Session.{
  forget_hello, connect_init_respond, rdns_response, DnsAnswer, lookup_rdns_respond,
  unrecognized_command_respond, connect_respond, helo_respond, ehlo_respond, capabilities_respond,
  quit_respond, vrfy_respond, noop_respond, rset_respond, set_host, default_info, rdns_name,
  base_capabilities, given_name,
}
use haraka.Connection.Invariant.Core.{
  Keeps, CallsKeep, respond-Keeps, loop_respond-Keeps, disconnect-Keeps, reset-Keeps, nothing-Keeps,
}

forget-Keeps : Keeps forget_hello
forget-Keeps c h = assumption

named_host-Keeps : (t : Option Text) → Keeps (λ c. default_info (set_host t c))
named_host-Keeps t c h = assumption

capabilities-Keeps : (ts : List Text) → Keeps (λ c. record c { capabilities = ts })
capabilities-Keeps ts c h = assumption

esmtp-Keeps : Keeps (λ c. record c { esmtp = true })
esmtp-Keeps c h = assumption

errors-Keeps : Keeps (λ c. record c { errors = c.errors + 1 })
errors-Keeps c h = assumption

module _ (env : Env) {calls : Calls} (k : CallsKeep calls) where
  drop-Keeps : Keeps (reset_transaction_then calls nothing)
  drop-Keeps = reset-Keeps k nothing nothing-Keeps

  pub connect_init-Keeps : (r : Retval) (m : Message) → Keeps (connect_init_respond env calls r m)
  unfolding connect_init_respond
  connect_init-Keeps r m = k.hooks Types.lookup_rdns tt

  pub rdns_response-Keeps : (a : DnsAnswer) → Keeps (rdns_response env calls a)
  unfolding rdns_response
  rdns_response-Keeps a c h = k.hooks Types.connect tt _ (named_host-Keeps (some (rdns_name a)) c h)

  pub helo_respond-Keeps : (r : Retval) (m : Message) → Keeps (helo_respond env calls r m)
  unfolding helo_respond
  helo_respond-Keeps deny m c h = search (
    respond-Keeps k,
    loop_respond-Keeps k,
    forget-Keeps,
    nothing-Keeps,
    disconnect-Keeps k,
    drop-Keeps,
  )
  helo_respond-Keeps _ m c h = search (
    respond-Keeps k,
    loop_respond-Keeps k,
    forget-Keeps,
    nothing-Keeps,
    disconnect-Keeps k,
    drop-Keeps,
  )

  pub vrfy_respond-Keeps : (r : Retval) (m : Message) → Keeps (vrfy_respond env calls r m)
  unfolding vrfy_respond
  vrfy_respond-Keeps deny m c h = search (
    respond-Keeps k,
    loop_respond-Keeps k,
    forget-Keeps,
    nothing-Keeps,
    disconnect-Keeps k,
    drop-Keeps,
  )
  vrfy_respond-Keeps _ m c h = search (
    respond-Keeps k,
    loop_respond-Keeps k,
    forget-Keeps,
    nothing-Keeps,
    disconnect-Keeps k,
    drop-Keeps,
  )

  pub noop_respond-Keeps : (r : Retval) (m : Message) → Keeps (noop_respond env calls r m)
  unfolding noop_respond
  noop_respond-Keeps deny m c h = search (
    respond-Keeps k,
    loop_respond-Keeps k,
    forget-Keeps,
    nothing-Keeps,
    disconnect-Keeps k,
    drop-Keeps,
  )
  noop_respond-Keeps _ m c h = search (
    respond-Keeps k,
    loop_respond-Keeps k,
    forget-Keeps,
    nothing-Keeps,
    disconnect-Keeps k,
    drop-Keeps,
  )

  pub ehlo_respond-Keeps : (r : Retval) (m : Message) → Keeps (ehlo_respond env calls r m)
  unfolding ehlo_respond
  ehlo_respond-Keeps deny m c h = respond-Keeps k 550 _ _ forget-Keeps c h
  ehlo_respond-Keeps denydisconnect m c h = respond-Keeps k 550 _ _ (disconnect-Keeps k) c h
  ehlo_respond-Keeps denysoft m c h = respond-Keeps k 450 _ _ forget-Keeps c h
  ehlo_respond-Keeps denysoftdisconnect m c h = respond-Keeps k 450 _ _ (disconnect-Keeps k) c h
  ehlo_respond-Keeps _ m c h =
      esmtp-Keeps _
        (k.hooks Types.capabilities tt _ (capabilities-Keeps (base_capabilities env calls c) c h))

  pub unrecognized-Keeps :
      (r : Retval) (m : Message) → Keeps (unrecognized_command_respond env calls r m)
  unfolding unrecognized_command_respond
  unrecognized-Keeps ok m c h = h
  unrecognized-Keeps next_hook m c h = k.hooks (named m) tt c h
  unrecognized-Keeps deny m c h = respond-Keeps k 500 _ _ nothing-Keeps c h
  unrecognized-Keeps denydisconnect m c h = respond-Keeps k 521 _ _ (disconnect-Keeps k) c h
  unrecognized-Keeps _ m c h = respond-Keeps k 500 _ _ nothing-Keeps _ (errors-Keeps c h)

  pub connect_respond-Keeps : (r : Retval) (m : Message) → Keeps (connect_respond env calls r m)
  unfolding connect_respond
  connect_respond-Keeps deny m c h = search (loop_respond-Keeps k)
  connect_respond-Keeps denysoft m c h = search (loop_respond-Keeps k)
  connect_respond-Keeps denydisconnect m c h = search (respond-Keeps k, disconnect-Keeps k)
  connect_respond-Keeps denysoftdisconnect m c h = search (respond-Keeps k, disconnect-Keeps k)
  connect_respond-Keeps Types.disconnect m c h = search (respond-Keeps k, disconnect-Keeps k)
  connect_respond-Keeps _ absent c h = search (respond-Keeps k, nothing-Keeps)
  connect_respond-Keeps _ m c h = search (respond-Keeps k, nothing-Keeps)

  pub lookup_rdns-Keeps :
      (reverse : Connection → Connection)
      → Keeps reverse
      → (r : Retval) (m : Message) → Keeps (lookup_rdns_respond env calls reverse r m)
  unfolding lookup_rdns_respond
  lookup_rdns-Keeps reverse g ok m c h =
      k.hooks Types.connect tt _ (named_host-Keeps (some (given_name env calls m)) c h)
  lookup_rdns-Keeps reverse g deny m c h = search (loop_respond-Keeps k)
  lookup_rdns-Keeps reverse g denysoft m c h = search (loop_respond-Keeps k)
  lookup_rdns-Keeps reverse g denydisconnect m c h = search (respond-Keeps k, disconnect-Keeps k)
  lookup_rdns-Keeps reverse g denysoftdisconnect m c h =
      search (respond-Keeps k, disconnect-Keeps k)
  lookup_rdns-Keeps reverse g Types.disconnect m c h = search (respond-Keeps k, disconnect-Keeps k)
  lookup_rdns-Keeps reverse g _ m c h = g c h

  pub capabilities_respond-Keeps :
      (r : Retval) (m : Message) → Keeps (capabilities_respond env calls r m)
  unfolding capabilities_respond
  capabilities_respond-Keeps r m c h = respond-Keeps k 250 _ nothing nothing-Keeps c h

  pub quit_respond-Keeps : (r : Retval) (m : Message) → Keeps (quit_respond env calls r m)
  unfolding quit_respond
  quit_respond-Keeps r m c h = respond-Keeps k 221 _ _ (disconnect-Keeps k) c h

  pub rset_respond-Keeps : (r : Retval) (m : Message) → Keeps (rset_respond env calls r m)
  unfolding rset_respond
  rset_respond-Keeps r m c h = respond-Keeps k 250 _ _ drop-Keeps c h
