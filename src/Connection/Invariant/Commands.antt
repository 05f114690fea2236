-- ===== src/Connection/Invariant/Commands.antt =====
-- The commands of connection.js keep the invariant.
use haraka.Prelude.{ℕ, String, refl, List, ◌∷◌, [], is_empty, not, ◌&&◌}
use haraka.Prelude.Text.{Text, text_eq, contains}
use haraka.Env.{Env, Address}
use haraka.Rfc1869
use haraka.Connection.Types
use haraka.Connection.Types.{Connection, Calls, Hook, Message, cmd}
use haraka.Connection.Reply.{nothing, respond, reset_transaction_then}
use haraka.Connection.Commands.Session.{
  apply_proxy, cmd_proxy, proxy_match, proxy_valid, refuse_proxy, ProxyLine, cmd_internalcmd,
  check_key, send_command, is_loopback, cmd_helo, cmd_ehlo, set_hello, first_word, cmd_quit,
  cmd_rset,
}
use haraka.Connection.Commands.Envelope.{
  Params, begin_mail, mail_args, cmd_mail, rcpt_args, cmd_rcpt, parse_args, collect_params,
  parsing_failed, too_big, has_text, is_submission_port, has_sender,
}
use haraka.Connection.Invariant.Core.{
  Inv, Keeps, CallsKeep, respond-Keeps, disconnect-Keeps, reset-Keeps, init-Keeps, nothing-Keeps,
  if-Inv, Option-elim-Inv,
}
use haraka.Connection.Invariant.Envelope.{with_counts-Inv, with_transaction-Inv}

apply_proxy-Keeps : (env : Env) (p : ProxyLine) → Keeps (apply_proxy env p)
unfolding apply_proxy
apply_proxy-Keeps env p c h = assumption

to_master-Keeps : (m : List (List Text)) → Keeps (λ c. record c { to_master = m })
to_master-Keeps m c h = assumption

errors-Keeps : (n : ℕ) → Keeps (λ c. record c { errors = n })
errors-Keeps n c h = assumption

module _ (env : Env) {calls : Calls} (k : CallsKeep calls) where
  -- A reply with nothing behind it.
  say-Keeps : (code : ℕ) (m : Message) → Keeps (respond calls code m nothing)
  say-Keeps code m = respond-Keeps k code m nothing nothing-Keeps

  drop-Keeps : Keeps (reset_transaction_then calls nothing)
  drop-Keeps = reset-Keeps k nothing nothing-Keeps

  refuse_proxy-Keeps : (m : Message) → Keeps (refuse_proxy env calls m)
  refuse_proxy-Keeps m c h = disconnect-Keeps k _ (say-Keeps 421 m c h)

  accept_proxy-Keeps :
      (p : ProxyLine) → Keeps (λ d. calls.run_hooks Types.connect_init (apply_proxy env p d))
  accept_proxy-Keeps p c h = k.hooks Types.connect_init tt _ (apply_proxy-Keeps env p c h)

  pub cmd_proxy-Keeps : (line : Text) → Keeps (cmd_proxy env calls line)
  unfolding cmd_proxy
  cmd_proxy-Keeps line c h =
      if-Inv c.proxy.allowed _ _
        (Option-elim-Inv (proxy_match line) _ _ (refuse_proxy-Keeps _ c h) λ p e.
          if-Inv (proxy_valid env p) _ _ (reset-Keeps k _ (accept_proxy-Keeps p) c h)
            (refuse_proxy-Keeps _ c h))
        (refuse_proxy-Keeps _ c h)

  send_command-Keeps : (args : List Text) → Keeps (send_command env calls args)
  unfolding send_command
  send_command-Keeps [] c h = say-Keeps 501 _ c h
  send_command-Keeps ([] ∷ args) c h = say-Keeps 501 _ c h
  send_command-Keeps ((a ∷ w) ∷ args) c h = say-Keeps 250 _ _ (to_master-Keeps _ c h)

  check_key-Keeps : (args : List Text) → Keeps (check_key env calls args)
  unfolding check_key
  check_key-Keeps [] c h = send_command-Keeps [] c h
  check_key-Keeps (w ∷ ws) c h =
      if-Inv (contains _ w) _ _
        (if-Inv (text_eq w _) _ _ (send_command-Keeps ws c h) (say-Keeps 501 _ c h))
        (send_command-Keeps (w ∷ ws) c h)

  pub cmd_internalcmd-Keeps : (line : Text) → Keeps (cmd_internalcmd env calls line)
  unfolding cmd_internalcmd
  cmd_internalcmd-Keeps line c h =
      if-Inv (is_loopback c.remote.ip) _ _ (check_key-Keeps _ c h) (say-Keeps 501 _ c h)

  hello-Keeps :
      (verb : String) (hook : Hook) (host : Text)
      → ((c : Connection) → Inv c → Inv (calls.run_hooks hook c))
      → Keeps (λ d. calls.run_hooks hook (set_hello env calls verb host d))
  hello-Keeps verb hook host g c h =
      g _ (record { replies = h.replies; resumable = h.resumable; counted = h.counted })

  pub cmd_helo-Keeps : (line : Text) → Keeps (cmd_helo env calls line)
  unfolding cmd_helo
  cmd_helo-Keeps line c h = if-Inv (is_empty (first_word line)) _ _ (say-Keeps 501 _ c h) (
      reset-Keeps k _
        (hello-Keeps "HELO" (Types.helo (first_word line)) (first_word line) (k.hooks _ tt)) c h)

  pub cmd_ehlo-Keeps : (line : Text) → Keeps (cmd_ehlo env calls line)
  unfolding cmd_ehlo
  cmd_ehlo-Keeps line c h = if-Inv (is_empty (first_word line)) _ _ (say-Keeps 501 _ c h) (
      reset-Keeps k _
        (hello-Keeps "EHLO" (Types.ehlo (first_word line)) (first_word line) (k.hooks _ tt)) c h)

  pub cmd_quit-Keeps : (line : Text) → Keeps (cmd_quit env calls line)
  unfolding cmd_quit
  cmd_quit-Keeps line c h =
      if-Inv (is_empty line) _ _ (k.hooks Types.quit tt c h) (say-Keeps 501 _ c h)

  pub cmd_rset-Keeps : (line : Text) → Keeps (cmd_rset env calls line)
  unfolding cmd_rset
  cmd_rset-Keeps line c h =
      if-Inv (is_empty line) _ _ (k.hooks Types.rset tt c h) (say-Keeps 501 _ c h)

  parsing_failed-Keeps : (line : Text) → Keeps (parsing_failed env calls line)
  parsing_failed-Keeps line c h = say-Keeps 501 _ _ (errors-Keeps _ c h)

  begin_mail-Keeps : (a : Address) (ps : Params) → Keeps (begin_mail env calls a ps)
  unfolding begin_mail
  begin_mail-Keeps a ps c h =
      with_transaction-Inv c _ h
        λ t e. k.hooks (Types.mail a ps) tt _ (with_counts-Inv c t _ h e refl)

  mail_args-Keeps : (a : Address) (ps : Params) → Keeps (mail_args env calls a ps)
  unfolding mail_args
  mail_args-Keeps a ps c h = if-Inv (not c.esmtp && not (is_empty ps)) _ _ (say-Keeps 555 _ c h) (
      if-Inv (too_big env calls ps) _ _ (say-Keeps 550 _ c h)
        (init-Keeps k env _ (begin_mail-Keeps a ps) c h))

  pub cmd_mail-Keeps : (line : Text) → Keeps (cmd_mail env calls line)
  unfolding cmd_mail
  cmd_mail-Keeps line c h =
      if-Inv (not (has_text env calls c.hello.host)) _ _ (say-Keeps 503 _ _ (errors-Keeps _ c h)) (
        if-Inv (not c.relaying && is_submission_port env calls c) _ _
          (say-Keeps 550 _ _ (errors-Keeps _ c h))
          (Option-elim-Inv (parse_args env calls Rfc1869.mail line c) _ _
            (parsing_failed-Keeps line c h) λ r e. mail_args-Keeps r.0 (collect_params r.1 []) c h))

  rcpt_args-Keeps : (a : Address) (ps : Params) → Keeps (rcpt_args env calls a ps)
  unfolding rcpt_args
  rcpt_args-Keeps a ps c h = if-Inv (not c.esmtp && not (is_empty ps)) _ _ (say-Keeps 555 _ c h) (
      with_transaction-Inv c _ h
        λ t e. k.hooks (Types.rcpt a ps) tt _ (with_counts-Inv c t _ h e refl))

  pub cmd_rcpt-Keeps : (line : Text) → Keeps (cmd_rcpt env calls line)
  unfolding cmd_rcpt
  cmd_rcpt-Keeps line c h =
      if-Inv (not (has_sender env calls c)) _ _ (say-Keeps 503 _ _ (errors-Keeps _ c h)) (
        Option-elim-Inv (parse_args env calls Rfc1869.rcpt line c) _ _
          (parsing_failed-Keeps line c h) λ r e. rcpt_args-Keeps r.0 (collect_params r.1 []) c h)
