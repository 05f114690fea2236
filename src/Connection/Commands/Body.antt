-- ===== src/Connection/Commands/Body.antt =====
-- connection.js: DATA, the lines of the message, and its end.
use haraka.Prelude.{
  ℕ, ◌+◌, Bool, Option, none, some, List, [], ◌∷◌, ◌++◌, ◌&&◌, ◌||◌, not, is_empty, length,
  if◌then◌else◌, ltb,
}
use haraka.Prelude.Text.{Text, text, text_eq, starts_with}
use haraka.Env.{Env}
use haraka.Header
use haraka.Transaction.{Transaction, add_data, add_header, remove_header, end_data}
use haraka.Connection.Types
use haraka.Connection.Types.{Connection, Calls, TlsNotes, cmd}
use haraka.Connection.Reply.{respond, pause_client, reset_transaction_then, nothing}
use haraka.Connection.Hooks.Session.{say}
use haraka.Connection.Hooks.Envelope.{with_transaction}
use haraka.Connection.Hooks.Message.{auth_results}

abbrev pub text_or : Option Text → Text
text_or none = []
text_or (some t) = t

-- /^\r?\n\t?$/
abbrev pub is_line_end : Text → Bool
is_line_end t =
    text_eq t (10 ∷ [])
    || text_eq t (10 ∷ 9 ∷ [])
    || text_eq t (13 ∷ 10 ∷ [])
    || text_eq t (13 ∷ 10 ∷ 9 ∷ [])

-- `replace(/\r?\n\t?$/, '')`: one line end, and a tab behind it, at the end of the text.
unfoldable pub strip_fold : Text → Text
unfolding text_eq
strip_fold [] = []
strip_fold (c ∷ t) = let rest = strip_fold t in if is_line_end (c ∷ t) then [] else c ∷ rest

-- The protocol in the Received header, as in RFC 3848.
unfoldable pub smtp_name : Connection → Text
unfolding text_eq
smtp_name c =
    (elim c.hello.verb [
      | none ↦ text "SMTP"
      | some v ↦ if text_eq v (text "EHLO") then text "ESMTP" else text "SMTP"
    ])
    ++ ((if c.tls_enabled then text "S" else [])
        ++ elim c.authheader [ none ↦ [] | some a ↦ text "A" ])

-- `pieces.join('')`
abbrev all_of : List Text → Text
all_of [] = []
all_of (t ∷ ts) = t ++ all_of ts

abbrev pub tls_clause : Option TlsNotes → Text
tls_clause none = []
tls_clause (some n) = all_of (
    (10 ∷ 9 ∷ text "(version=")
    ∷ n.version
    ∷ text " cipher="
    ∷ n.name
    ∷ text " verify="
    ∷ n.verify
    ∷ text ")"
    ∷ [])

-- The remote host, unless its lookup failed.
unfoldable pub remote_clause : Option Text → Text
unfolding starts_with
remote_clause none = text "null "
remote_clause (some i) =
    if starts_with (text "DNSERROR") i || starts_with (text "NXDOMAIN") i then [] else i ++ 32 ∷ []

-- `received_line`
unfoldable pub received_line : Env → Connection → Transaction → Text
unfolding smtp_name remote_clause strip_fold
received_line env c t = all_of (
    text "from "
    ∷ text_or c.hello.host
    ∷ text " ("
    ∷ remote_clause c.remote.info
    ∷ (b'[' ∷ c.remote.ip)
    ∷ text "])"
    ∷ (10 ∷ 9 ∷ text "by ")
    ∷ env.me
    ∷ (if c.header_hide_version
        then []
        else all_of (text " (Haraka/" ∷ env.version ∷ text ")" ∷ []))
    ∷ text " with "
    ∷ smtp_name c
    ∷ text " id "
    ∷ t.uuid
    ∷ (10 ∷ 9 ∷ text "envelope-from ")
    ∷ (elim t.mail_from [ none ↦ [] | some a ↦ a.format ])
    ∷ (elim c.authheader [ none ↦ [] | some a ↦ 32 ∷ strip_fold a ])
    ∷ tls_clause c.notes_tls
    ∷ (59 ∷ 10 ∷ 9 ∷ env.date)
    ∷ [])

-- `.\r\n`
abbrev pub end_of_data : Text
end_of_data = b'.' ∷ 13 ∷ 10 ∷ []

-- `.\n`
abbrev pub bare_end : Text
bare_end = b'.' ∷ 10 ∷ []

-- Is this size above the limit? A limit of 0 is none.
unfoldable pub over_limit : ℕ → ℕ → Bool
over_limit max n = ltb 0 max && ltb max n

-- `auth_results_clean`: each old header is added under a new name; what is removed first is the
-- header that the old one's value names.
unfoldable pub clean_auth_results : Env → List Text → Transaction → Transaction
clean_auth_results env [] t = t
clean_auth_results env (v ∷ vs) t =
    clean_auth_results env vs
      (add_header env (text "Original-Authentication-Results") v (remove_header v t))

unfoldable pub auth_results_clean : Env → Transaction → Transaction
unfolding clean_auth_results
auth_results_clean env t =
    clean_auth_results env (Header.get_all (text "Authentication-Results") t.header) t

abbrev pub add_auth_results : Env → Text → Transaction → Transaction
add_auth_results env field t =
    if is_empty field then t else add_header env (text "Authentication-Results") field t

abbrev pub add_bytes : ℕ → Transaction → Transaction
add_bytes n t = record t { data_bytes = t.data_bytes + n }

module _ (env : Env) (calls : Calls) where
  -- The callback of `end_data`.
  unfoldable pub data_ended : Connection → Connection
  data_ended c = elim c.transaction [ none ↦ c | some t ↦ calls.run_hooks Types.data_post c ]

  -- The end of `data_done`: the headers, then the end of the stream.
  unfoldable pub finish_message : Transaction → Connection → Connection
  unfolding data_ended auth_results_clean auth_results
  finish_message t c =
      let t' = auth_results_clean env t in
      let field = auth_results env (record c { transaction = some t' }) in
      data_ended (record c { transaction = some (end_data env (add_auth_results env field t')) })

  -- `data_done`, for the transaction
  unfoldable pub message_done : Transaction → Connection → Connection
  unfolding over_limit finish_message
  message_done t c =
      if over_limit c.max_bytes t.data_bytes
      then calls.run_hooks Types.max_data_exceeded c
      else if ltb env.max_received_count (length (Header.get_all (text "received") t.header))
      then respond calls 550 (say "Too many received headers - possible mail loop")
          (reset_transaction_then calls nothing) c
      else finish_message t c

  -- `data_done`
  unfoldable pub data_done : Connection → Connection
  unfolding pause_client message_done
  data_done c =
      let c' = pause_client (record c { state = cmd }) in
      with_transaction c'
        λ t. message_done t (record c' { totalbytes = c'.totalbytes + t.data_bytes })

  -- `accumulate_data`, behind the count of the bytes
  unfoldable pub accumulate_line : Text → Transaction → Connection → Connection
  unfolding text_eq over_limit data_done
  accumulate_line line t c =
      if text_eq line end_of_data
      then data_done c
      else if text_eq line bare_end
      then respond calls 451 (say "Bare line-feed; see http://haraka.github.com/barelf.html")
          (reset_transaction_then calls nothing) c
      else if over_limit c.max_bytes t.data_bytes
      then c
      else record c { transaction = some (add_data env line t) }

  -- `accumulate_data`
  unfoldable pub accumulate_data : Text → Connection → Connection
  unfolding accumulate_line
  accumulate_data line c = with_transaction c λ t.
      let t' = add_bytes (length line) t in
      accumulate_line line t' (record c { transaction = some t' })

  abbrev pub received_data : Transaction → Connection → Text
  received_data t c = text "Received: " ++ (received_line env c t ++ 13 ∷ 10 ∷ [])

  -- `cmd_data`, behind its checks: the Received header, and the hook
  unfoldable pub begin_data : Transaction → Connection → Connection
  unfolding received_line accumulate_data
  begin_data t c = calls.run_hooks Types.data_command (accumulate_data (received_data t c) c)

  abbrev pub count_error : Connection → Connection
  count_error c = record c { errors = c.errors + 1 }

  -- `cmd_data`
  unfoldable pub cmd_data : Text → Connection → Connection
  unfolding begin_data
  cmd_data args c =
      if not (is_empty args)
      then respond calls 501 (say "Syntax error") nothing (count_error c)
      else elim c.transaction [
        | none ↦ respond calls 503 (say "MAIL required first") nothing (count_error c)
        | some t ↦
            if is_empty t.rcpt_to
            then (if c.pipelining
                then respond calls 554 (say "No valid recipients") nothing c
                else respond calls 503 (say "RCPT required first") nothing (count_error c))
            else begin_data t c
      ]
