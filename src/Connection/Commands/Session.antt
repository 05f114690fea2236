-- ===== src/Connection/Commands/Session.antt =====
-- connection.js: PROXY, the internal command, HELO, EHLO, QUIT, RSET, VRFY, NOOP and HELP.
use haraka.Prelude.{
  Bool, true, false, Option, none, some, List, [], ◌∷◌, ◌++◌, ◌&&◌, ◌||◌, not, is_empty,
  if◌then◌else◌, leb, String,
}
use haraka.Prelude.Text.{
  Text, text, text_eq, is_space, contains, break_space, split_from, split_space,
}
use haraka.Env.{Env}
use haraka.Connection.Types
use haraka.Connection.Types.{Connection, Calls, Message, lines}
use haraka.Connection.Reply.{respond, disconnect, reset_transaction_then, nothing}
use haraka.Connection.Hooks.Session.{say}

-- The protocols of a PROXY line. A text that ends in one of the names is one.
pub data Protocol : Type 0 where
  tcp4 tcp6 unknown : Protocol

pub record ProxyLine : Type 0 where
  pub proto : Protocol
  pub src_ip : Text
  pub dst_ip : Text
  pub src_port : Text
  pub dst_port : Text

unfoldable pub protocol : Text → Option Protocol
unfolding text_eq text
protocol [] = none
protocol (c ∷ t) =
    let rest = protocol t in
    if text_eq (c ∷ t) (text "TCP4")
    then some tcp4
    else if text_eq (c ∷ t) (text "TCP6")
    then some tcp6
    else if text_eq (c ∷ t) (text "UNKNOWN")
    then some unknown
    else rest

unfoldable pub no_space : Text → Bool
unfolding is_space
no_space [] = true
no_space (c ∷ t) = not (is_space c) && no_space t

unfoldable pub all_digits : Text → Bool
all_digits [] = true
all_digits (c ∷ t) = leb b'0' c && leb c b'9' && all_digits t

-- Five fields, as the pattern has them.
unfoldable pub proxy_fields : Text → Text → Text → Text → Text → Option ProxyLine
unfolding protocol no_space all_digits
proxy_fields p s d sp dp =
    if not (is_empty s)
      && no_space s
      && not (is_empty d)
      && no_space d
      && not (is_empty sp)
      && all_digits sp
      && not (is_empty dp)
      && all_digits dp
    then elim (protocol p) [
      | none ↦ none
      | some proto ↦
          some (record { proto = proto; src_ip = s; dst_ip = d; src_port = sp; dst_port = dp })
    ]
    else none

-- /(TCP4|TCP6|UNKNOWN) (\S+) (\S+) (\d+) (\d+)$/: the last five fields of the line
unfoldable pub last_five : List Text → Option ProxyLine
unfolding proxy_fields
last_five (p ∷ s ∷ d ∷ sp ∷ dp ∷ []) = proxy_fields p s d sp dp
last_five (p ∷ s ∷ d ∷ sp ∷ dp ∷ e ∷ rest) = last_five (s ∷ d ∷ sp ∷ dp ∷ e ∷ rest)
last_five _ = none

unfoldable pub proxy_match : Text → Option ProxyLine
unfolding last_five split_space
proxy_match line = last_five (split_space line)

module _ (env : Env) where
  abbrev pub both_ipv4 : ProxyLine → Bool
  both_ipv4 p = env.is_valid_ipv4 p.src_ip && env.is_valid_ipv4 p.dst_ip

  abbrev pub both_ipv6 : ProxyLine → Bool
  both_ipv6 p = env.is_valid_ipv6 p.src_ip && env.is_valid_ipv6 p.dst_ip

  -- The `switch` on the protocol, whose first case falls through to the second.
  unfoldable pub proxy_valid : ProxyLine → Bool
  proxy_valid p = elim p.proto [
    | tcp4 ↦ both_ipv4 p || both_ipv6 p
    | tcp6 ↦ both_ipv6 p
    | unknown ↦ false
  ]

  -- The changes of `cmd_proxy`.
  unfoldable pub apply_proxy : ProxyLine → Connection → Connection
  apply_proxy p c = record c {
    proxy = record c.proxy { ip = some c.remote.ip; type_name = some (text "haproxy") };
    relaying = false;
    here = record { ip = p.dst_ip; port = env.parse_int p.dst_port };
    remote = record c.remote { ip = p.src_ip; port = env.parse_int p.src_port; host = none };
    hello = record c.hello { host = none };
  }

-- The word in front of the first space.
abbrev pub first_word : Text → Text
first_word line = (break_space line).0

unfoldable pub is_loopback : Text → Bool
is_loopback ip = text_eq ip (text "127.0.0.1") || text_eq ip (text "::1")

module _ (env : Env) (calls : Calls) where
  -- `this.respond(421, …); return this.disconnect();`
  abbrev pub refuse_proxy : Message → Connection → Connection
  refuse_proxy msg c = disconnect calls (respond calls 421 msg nothing c)

  -- `cmd_proxy`
  unfoldable pub cmd_proxy : Text → Connection → Connection
  unfolding proxy_match proxy_valid apply_proxy
  cmd_proxy line c =
      if c.proxy.allowed
      then elim (proxy_match line) [
        | none ↦ refuse_proxy (say "Invalid PROXY format") c
        | some p ↦
            if proxy_valid env p
            then reset_transaction_then calls
                (λ d. calls.run_hooks Types.connect_init (apply_proxy env p d)) c
            else refuse_proxy (say "Invalid PROXY format") c
      ]
      else refuse_proxy (lines ((text "PROXY not allowed from " ++ c.remote.ip) ∷ [])) c

  -- The command itself, behind the key.
  unfoldable pub send_command : List Text → Connection → Connection
  send_command [] c = respond calls 501 (say "No command given") nothing c
  send_command ([] ∷ args) c = respond calls 501 (say "No command given") nothing c
  send_command ((k ∷ name) ∷ args) c =
      respond calls 250 (say "Command sent for execution. Check Haraka logs for results.") nothing
        (record c { to_master = c.to_master ++ ((k ∷ name) ∷ args) ∷ [] })

  -- The key, if there is one, and the command.
  unfoldable pub check_key : List Text → Connection → Connection
  unfolding send_command contains
  check_key [] c = send_command [] c
  check_key (w ∷ ws) c =
      if contains (text "key:") w
      then (if text_eq w (text "key:" ++ env.internalcmd_key)
          then send_command ws c
          else respond calls 501 (say "Invalid internalcmd_key - check config") nothing c)
      else send_command (w ∷ ws) c

  -- `cmd_internalcmd`
  unfoldable pub cmd_internalcmd : Text → Connection → Connection
  unfolding check_key is_loopback split_from
  cmd_internalcmd line c =
      if is_loopback c.remote.ip
      then check_key (split_from false line) c
      else respond calls 501 (say "INTERNALCMD not allowed remotely") nothing c

  abbrev pub set_hello : String → Text → Connection → Connection
  set_hello verb host c = record c { hello = record { host = some host; verb = some (text verb) } }

  -- `cmd_helo`
  unfoldable pub cmd_helo : Text → Connection → Connection
  unfolding break_space
  cmd_helo line c =
      let host = first_word line in
      if is_empty host
      then respond calls 501 (say "HELO requires domain/address - see RFC-2821 4.1.1.1") nothing c
      else reset_transaction_then calls
          (λ d. calls.run_hooks (Types.helo host) (set_hello "HELO" host d)) c

  -- `cmd_ehlo`
  unfoldable pub cmd_ehlo : Text → Connection → Connection
  unfolding break_space
  cmd_ehlo line c =
      let host = first_word line in
      if is_empty host
      then respond calls 501 (say "EHLO requires domain/address - see RFC-2821 4.1.1.1") nothing c
      else reset_transaction_then calls
          (λ d. calls.run_hooks (Types.ehlo host) (set_hello "EHLO" host d)) c

  -- `cmd_quit`
  unfoldable pub cmd_quit : Text → Connection → Connection
  cmd_quit args c =
      if is_empty args
      then calls.run_hooks Types.quit c
      else respond calls 501 (say "Syntax error") nothing c

  -- `cmd_rset`
  unfoldable pub cmd_rset : Text → Connection → Connection
  cmd_rset args c =
      if is_empty args
      then calls.run_hooks Types.rset c
      else respond calls 501 (say "Syntax error") nothing c

  -- `cmd_vrfy`, `cmd_noop` and `cmd_help`
  unfoldable pub cmd_vrfy : Connection → Connection
  cmd_vrfy = calls.run_hooks Types.vrfy

  unfoldable pub cmd_noop : Connection → Connection
  cmd_noop = calls.run_hooks Types.noop

  unfoldable pub cmd_help : Connection → Connection
  cmd_help = respond calls 250 (say "Not implemented") nothing
