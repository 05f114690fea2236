-- ===== src/Connection/Commands/Envelope.antt =====
-- connection.js: MAIL and RCPT.
use haraka.Prelude.{
  ◌+◌, Bool, true, false, Option, none, some, List, [], ◌∷◌, ◌++◌, ◌&&◌, ◌||◌, not, is_empty,
  if◌then◌else◌, ◌==◌, ltb,
}
use haraka.Prelude.Text.{Text, text, text_eq, to_upper}
use haraka.Env.{Env, Address}
use haraka.Rfc1869
use haraka.Rfc1869.{Kind, Parsed, has}
use haraka.Transaction.{Transaction}
use haraka.Connection.Types
use haraka.Connection.Types.{Connection, Calls, array}
use haraka.Connection.Reply.{respond, init_transaction, nothing}
use haraka.Connection.Hooks.Session.{say}
use haraka.Connection.Hooks.Envelope.{with_transaction}

abbrev pub Params : Type 0
Params = List (Text × Option Text)

-- /^([^=]+)(?:=(.+))?$/: a key, and a value that is not empty and has no line terminator
unfoldable pub split_param : Text → Option (Text × Option Text)
unfolding has
split_param [] = none
split_param (c ∷ t) =
    let rest = split_param t in
    if c == b'=' then none else elim t [
      | [] ↦ some (c ∷ [], none)
      | d ∷ v ↦
          if d == b'='
          then (if is_empty v || has (λ e. e == 10 || e == 13) v
              then none
              else some (c ∷ [], some v))
          else elim rest [ none ↦ none | some (k, w) ↦ some (c ∷ k, w) ]
    ]

-- `params[key] = value`
unfoldable pub put_param : Text → Option Text → Params → Params
unfolding text_eq
put_param k v [] = (k, v) ∷ []
put_param k v ((j, w) ∷ ps) = if text_eq j k then (k, v) ∷ ps else (j, w) ∷ put_param k v ps

-- The loop over the parameters.
unfoldable pub collect_params : List Text → Params → Params
unfolding split_param put_param to_upper
collect_params [] ps = ps
collect_params (p ∷ rest) ps =
    collect_params rest
      (elim (split_param p) [ none ↦ ps | some (k, v) ↦ put_param (to_upper k) v ps ])

-- `params.SIZE`
unfoldable pub size_param : Params → Option Text
unfolding text_eq
size_param [] = none
size_param ((k, v) ∷ ps) = if text_eq k (text "SIZE") then v else size_param ps

module _ (env : Env) (calls : Calls) where
  -- The arguments of a command: the address and the parameters, or `none` for an exception.
  unfoldable pub parse_args : Kind → Text → Connection → Option (Address × List Text)
  parse_args kind line c = elim (Rfc1869.parse kind line (env.strict_rfc1869 && not c.relaying)) [
    | Parsed.err e ↦ none
    | Parsed.ok [] ↦ none
    | Parsed.ok (a ∷ ps) ↦ elim (env.parse_address a) [ none ↦ none | some addr ↦ some (addr, ps) ]
  ]

  abbrev pub count_error : Connection → Connection
  count_error c = record c { errors = c.errors + 1 }

  abbrev pub parsing_failed : Text → Connection → Connection
  parsing_failed line c =
      respond calls 501 (array (text "Command parsing failed" ∷ env.error_text line ∷ [])) nothing
        (count_error c)

  abbrev pub is_submission_port : Connection → Bool
  is_submission_port c = c.here.port == 587 || c.here.port == 465

  -- Is the size that the client declares above the limit?
  unfoldable pub too_big : Params → Bool
  unfolding size_param
  too_big params = elim (size_param params) [
    | none ↦ false
    | some v ↦ env.exceeds v 0 && ltb 0 env.databytes && env.exceeds v env.databytes
  ]

  abbrev pub set_sender : Address → Transaction → Transaction
  set_sender a t = record t { mail_from = some a }

  -- The new transaction, and its hook.
  unfoldable pub begin_mail : Address → Params → Connection → Connection
  begin_mail a params d =
      with_transaction d λ t.
        calls.run_hooks (Types.mail a params) (record d { transaction = some (set_sender a t) })

  -- `cmd_mail`, behind the parser
  unfoldable pub mail_args : Address → Params → Connection → Connection
  unfolding too_big begin_mail
  mail_args a params c =
      if not c.esmtp && not (is_empty params)
      then respond calls 555 (say "Invalid command parameters") nothing c
      else if too_big params
      then respond calls 550 (say "Message too big!") nothing c
      else init_transaction calls env (begin_mail a params) c

  abbrev pub has_text : Option Text → Bool
  has_text none = false
  has_text (some t) = not (is_empty t)

  -- `cmd_mail`
  unfoldable pub cmd_mail : Text → Connection → Connection
  unfolding parse_args collect_params mail_args
  cmd_mail line c =
      if not (has_text c.hello.host)
      then respond calls 503 (say "Use EHLO/HELO before MAIL") nothing (count_error c)
      else if not c.relaying && is_submission_port c
      then respond calls 550 (say "Authentication required") nothing (count_error c)
      else elim (parse_args Rfc1869.mail line c) [
        | none ↦ parsing_failed line c
        | some (a, ps) ↦ mail_args a (collect_params ps []) c
      ]

  abbrev pub has_sender : Connection → Bool
  has_sender c = elim c.transaction [
    | none ↦ false
    | some t ↦ elim t.mail_from [ none ↦ false | some a ↦ true ]
  ]

  abbrev pub add_rcpt : Address → Transaction → Transaction
  add_rcpt a t = record t { rcpt_to = t.rcpt_to ++ a ∷ [] }

  -- `cmd_rcpt`, behind the parser
  unfoldable pub rcpt_args : Address → Params → Connection → Connection
  rcpt_args a params c =
      if not c.esmtp && not (is_empty params)
      then respond calls 555 (say "Invalid command parameters") nothing c
      else with_transaction c λ t.
        calls.run_hooks (Types.rcpt a params) (record c { transaction = some (add_rcpt a t) })

  -- `cmd_rcpt`
  unfoldable pub cmd_rcpt : Text → Connection → Connection
  unfolding parse_args collect_params rcpt_args
  cmd_rcpt line c =
      if not (has_sender c)
      then respond calls 503 (say "Use MAIL before RCPT") nothing (count_error c)
      else elim (parse_args Rfc1869.rcpt line c) [
        | none ↦ parsing_failed line c
        | some (a, ps) ↦ rcpt_args a (collect_params ps []) c
      ]
