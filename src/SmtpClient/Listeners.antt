-- ===== src/SmtpClient/Listeners.antt =====
-- The listeners: of `get_client_plugin` in smtp_client.js, and of hook_queue in
-- plugins/queue/smtp_forward.js.
use haraka.Prelude.{
  ℕ, zero, suc, ◌+◌, Bool, true, false, Option, none, some, List, [], ◌∷◌, ◌++◌, ◌&&◌, not, map,
  is_empty, ltb, ◌==◌, length, if◌then◌else◌,
}
use haraka.Prelude.Text.{Text, text, text_eq, to_lower, starts_with, split_space}
use haraka.Connection.Types.{Retval, ok, deny, denysoft}
use haraka.SmtpClient.State.{
  idle, is_destroyed, Command, helo, xclient, starttls, auth, mail, rcpt, data_command, dot, rset,
  plugin, releasing, pooled, Client, pool_released, host_failed, threw, act, send_command,
  start_data, destroy, release, call_next, unless_dead,
}

-- The configuration, and what the listeners read of the connection. `auth` is no value where none of
-- the three settings is; a text that is empty is as one that is not there. `in_no_tls_hosts` is
-- ip_in_list of the host or of the address.
pub record Config : Type 0 where
  pub has_auth : Bool
  pub auth_type : Option Text
  pub auth_user : Text
  pub auth_pass : Text
  pub enable_tls : Bool
  pub in_no_tls_hosts : Bool
  pub one_message_per_rcpt : Bool
  pub me : Text
  pub hello_host : Text
  pub remote_ip : Text
  pub mail_from : Text
  pub rcpt_to : List Text
  pub base64 : Text → Text

abbrev pub words_behind : List Text → List Text
words_behind [] = []
words_behind (w ∷ ws) = ws

module _ (g : Config) where
  abbrev pub on_greeting : Command → Client → Client
  on_greeting cmd c = send_command cmd (some (if c.has_xclient then g.hello_host else g.me)) c

  -- The 'greeting' and 'xclient' events.
  unfoldable pub emit_greeting : Command → Client → Client
  unfolding send_command
  emit_greeting cmd c = elim c.phase [ plugin ↦ on_greeting cmd c | releasing ↦ c | pooled ↦ c ]

  -- /^AUTH (.*)$/
  unfoldable pub read_auth : Text → Client → Client
  unfolding starts_with text split_space to_lower
  read_auth line c =
      if starts_with (text "AUTH ") line
      then record c { auth_capabilities = map to_lower (words_behind (split_space line)) }
      else c

  -- The loop of get_client_plugin's listener of 'capabilities'.
  unfoldable pub read_capabilities : List Text → Client → Client
  unfolding read_auth send_command starts_with text
  read_capabilities [] c = c
  read_capabilities (line ∷ lines) c =
      let rest = read_capabilities lines (read_auth line c) in
      if starts_with (text "XCLIENT") line && not c.has_xclient
      then send_command xclient (some (text "ADDR=" ++ g.remote_ip)) c
      else if starts_with (text "STARTTLS") line
          && not c.secured
          && (not g.in_no_tls_hosts && g.enable_tls)
      then send_command starttls none (record c { on_secured = c.on_secured + 1 })
      else rest

  -- smtp_forward's, where there is a user: `\0` is a zero.
  unfoldable pub forward_auth : Client → Client
  unfolding text text_eq send_command
  forward_auth c = if is_empty g.auth_user then c else (elim g.auth_type [
    | none ↦ c
    | some type ↦
        if text_eq type (text "plain")
        then send_command auth
            (some (text "PLAIN " ++ g.base64 (0 ∷ (g.auth_user ++ (0 ∷ g.auth_pass))))) c
        else if text_eq type (text "login")
        then send_command auth (some (text "LOGIN")) c
        else c
  ])

  unfoldable pub emit_capabilities : Client → Client
  unfolding read_capabilities forward_auth
  emit_capabilities c = elim c.phase [
    | plugin ↦ forward_auth (read_capabilities c.response c)
    | releasing ↦ c
    | pooled ↦ c
  ]

  abbrev pub send_mail : Client → Client
  send_mail = send_command mail (some (text "FROM:" ++ g.mail_from))

  abbrev pub is_member : Text → List Text → Bool
  is_member x [] = false
  is_member x (y ∷ ys) = if text_eq x y then true else is_member x ys

  -- PLAIN is the only type that is implemented; the others throw.
  unfoldable pub authenticate : Text → Client → Client
  unfolding text text_eq send_command
  authenticate type c =
      if is_member type c.auth_capabilities
        && text_eq type (text "plain")
        && not (is_empty g.auth_user)
        && not (is_empty g.auth_pass)
      then send_command auth
          (some
            (text "PLAIN " ++ g.base64 (g.auth_user ++ (0 ∷ (g.auth_user ++ (0 ∷ g.auth_pass))))))
          c
      else act threw c

  unfoldable pub on_helo : Client → Client
  unfolding unless_dead authenticate to_lower send_command text
  on_helo c =
      if not g.has_auth
      then unless_dead send_mail c
      else if c.authenticated
      then unless_dead send_mail c
      else (elim g.auth_type [ none ↦ c | some type ↦ authenticate (to_lower type) c ])

  unfoldable pub on_auth : Client → Client
  unfolding unless_dead send_command text
  on_auth = unless_dead (λ c. send_mail (record c { authenticated = true }))

  abbrev pub rcpt_at : ℕ → List Text → Option Text
  rcpt_at n [] = none
  rcpt_at zero (x ∷ xs) = some x
  rcpt_at (suc n) (x ∷ xs) = rcpt_at n xs

  -- `rcpt` is never more than the number of recipients, so it is equal to it when there is none at it.
  unfoldable pub send_rcpt : Client → Client
  unfolding unless_dead send_command text
  send_rcpt = unless_dead (λ c. elim (rcpt_at c.rcpt g.rcpt_to) [
    | none ↦ send_command data_command none c
    | some r ↦ record (send_command rcpt (some (text "TO:" ++ r)) c) { rcpt = c.rcpt + 1 }
  ])

  unfoldable pub on_rcpt : Client → Client
  unfolding send_rcpt send_command
  on_rcpt c = if g.one_message_per_rcpt then send_command data_command none c else send_rcpt c

  unfoldable pub on_data : Client → Client
  unfolding unless_dead start_data
  on_data = unless_dead start_data

  unfoldable pub on_dot : Client → Client
  unfolding unless_dead send_command call_next release
  on_dot = unless_dead (λ c.
      if ltb c.rcpt (length g.rcpt_to)
      then send_command rset none c
      else release (call_next (some ok) c.response c))

  unfoldable pub on_rset : Client → Client
  unfolding unless_dead send_command text
  on_rset = unless_dead send_mail

  abbrev pub verdict : Text → Retval
  verdict [] = denysoft
  verdict (d ∷ code) = if d == b'5' then deny else denysoft

  unfoldable pub on_bad_code : Text → Text → Client → Client
  unfolding unless_dead call_next release
  on_bad_code code msg = unless_dead (λ c. release (call_next (some (verdict code)) (msg ∷ []) c))

  -- `release`'s listener of 'rset'.
  unfoldable pub on_released : Client → Client
  on_released c =
      if is_destroyed c.state
      then c
      else record (act pool_released c) { state = idle; phase = pooled }

  -- The event that is named as the command.
  unfoldable pub emit_command : Command → Client → Client
  unfolding on_helo on_auth send_rcpt on_rcpt on_data on_dot on_rset on_released
  emit_command cmd c = elim c.phase [
    | plugin ↦ elim cmd [
      | helo ↦ on_helo c
      | auth ↦ on_auth c
      | mail ↦ send_rcpt c
      | rcpt ↦ on_rcpt c
      | data_command ↦ on_data c
      | dot ↦ on_dot c
      | rset ↦ on_rset c
      | other_command ↦ c
    ]
    | releasing ↦ elim cmd [ rset ↦ on_released c | other_command ↦ c ]
    | pooled ↦ c
  ]

  unfoldable pub emit_bad_code : Text → Text → Client → Client
  unfolding on_bad_code destroy
  emit_bad_code code msg c = elim c.phase [
    | plugin ↦ on_bad_code code msg c
    | releasing ↦ destroy c
    | pooled ↦ c
  ]

  -- 'error', which throws where no one listens; the client that goes on is destroyed.
  unfoldable pub emit_error : Client → Client
  unfolding call_next destroy
  emit_error c = elim c.phase [
    | plugin ↦ destroy (call_next none [] c)
    | releasing ↦ act threw c
    | pooled ↦ act threw c
  ]

  -- Where no pool of hosts is configured, no host is marked.
  unfoldable pub emit_connection_error : Bool → Client → Client
  unfolding call_next
  emit_connection_error has_pool c = call_next none [] (if has_pool then act host_failed c else c)
