-- ===== src/SmtpClient/Once/Listeners.antt =====
-- smtp_client.js, plugins/queue/smtp_forward.js: the listeners keep what is told once.
use haraka.Prelude.{
  ◌+◌, ◌≡◌, refl, true, Option, none, some, List, [], ◌∷◌, ◌++◌, ◌&&◌, not, arith, if_all,
  if◌then◌else◌, is_empty, ltb, length,
}
use haraka.Prelude.Text.{Text, text, text_eq, to_lower, starts_with}
use haraka.Connection.Types.{ok}
use haraka.SmtpClient.State.{
  is_destroyed, Command, helo, auth, mail, rcpt, data_command, dot, rset, Client, piped,
  pool_released, threw, send_command, start_data, release, call_next,
}
use haraka.SmtpClient.Listeners.{
  Config, emit_greeting, read_auth, read_capabilities, forward_auth, emit_capabilities, send_mail,
  authenticate, is_member, on_helo, on_auth, rcpt_at, send_rcpt, on_rcpt, on_data, on_dot, on_rset,
  on_bad_code, verdict, on_released, emit_command, emit_bad_code, emit_error,
}
use haraka.SmtpClient.Once.{
  Ready, Inv, Ready-Inv, act-Core, call_next-Core, destroy-Inv, release-Inv,
}
use haraka.SmtpClient.Once.Steps.{act-Ready, option_all, phase_all, send-Ready, unless_dead-Inv}

module _ (g : Config) where
  pub emit_greeting-Ready : (cmd : Command) (c : Client) → Ready c → Ready (emit_greeting g cmd c)
  unfolding emit_greeting
  emit_greeting-Ready cmd c h =
      phase_all Ready c.phase
        (λ p. send-Ready cmd (some (if c.has_xclient then g.hello_host else g.me)) c h (h.asked p))
        h h

  abbrev Asking : Client → Type 0
  Asking c = Ready c × (c.has_next ≡ true)

  send-Asking :
      (cmd : Command) (args : Option Text) (c : Client)
      → Asking c
      → Asking (send_command cmd args c)
  unfolding send_command
  send-Asking cmd args c (h, n) = (send-Ready cmd args c h n, n)

  read_auth-Asking : (l : Text) (c : Client) → Asking c → Asking (read_auth g l c)
  unfolding read_auth
  read_auth-Asking l c (h, n) =
      if_all Asking (starts_with (text "AUTH ") l)
        (λ e. (record { core = h.core; asked = h.asked }, n)) (λ e. (h, n))

  read_capabilities-Asking :
      (ls : List Text) (c : Client) → Asking c → Asking (read_capabilities g ls c)
  unfolding read_capabilities
  read_capabilities-Asking [] c a = a
  read_capabilities-Asking (l ∷ ls) c a =
      if_all Asking (starts_with (text "XCLIENT") l && not c.has_xclient) (λ e. send-Asking _ _ c a)
        (λ e.
          if_all Asking
            (starts_with (text "STARTTLS") l
              && not c.secured
              && (not g.in_no_tls_hosts && g.enable_tls))
            (λ f.
              send-Asking _ _ (record c { on_secured = c.on_secured + 1 })
                (record { core = a.0.core; asked = a.0.asked }, a.1))
            (λ f. read_capabilities-Asking ls (read_auth g l c) (read_auth-Asking l c a)))

  forward_auth-Ready : (c : Client) → Ready c → c.has_next ≡ true → Ready (forward_auth g c)
  unfolding forward_auth
  forward_auth-Ready c h n =
      if_all Ready (is_empty g.auth_user) (λ e. h)
        (λ e. option_all Ready g.auth_type h (λ type.
          if_all Ready (text_eq type (text "plain")) (λ f. send-Ready _ _ c h n)
            (λ f. if_all Ready (text_eq type (text "login")) (λ k. send-Ready _ _ c h n) (λ k. h))))

  pub emit_capabilities-Ready : (c : Client) → Ready c → Ready (emit_capabilities g c)
  unfolding emit_capabilities
  emit_capabilities-Ready c h =
      phase_all Ready c.phase
        (λ p.
          let r = read_capabilities-Asking c.response c (h, h.asked p) in
          forward_auth-Ready (read_capabilities g c.response c) r.0 r.1)
        h h

  send_mail-Inv : (c : Client) → Ready c → c.has_next ≡ true → Inv (send_mail g c)
  send_mail-Inv c h n =
      Ready-Inv (send_mail g c) (send-Ready mail (some (text "FROM:" ++ g.mail_from)) c h n)

  authenticate-Inv :
      (type : Text) (c : Client) → Ready c → c.has_next ≡ true → Inv (authenticate g type c)
  unfolding authenticate
  authenticate-Inv type c h n =
      if_all Inv
        (is_member g type c.auth_capabilities
          && text_eq type (text "plain")
          && not (is_empty g.auth_user)
          && not (is_empty g.auth_pass))
        (λ e. Ready-Inv _ (send-Ready _ _ c h n)) (λ e. Ready-Inv _ (act-Ready threw c h refl refl))

  on_helo-Inv : (c : Client) → Ready c → c.has_next ≡ true → Inv (on_helo g c)
  unfolding on_helo
  on_helo-Inv c h n =
      if_all Inv (not g.has_auth) (λ e. unless_dead-Inv (send_mail g) c h (send_mail-Inv c h n))
        (λ e.
          if_all Inv c.authenticated (λ f. unless_dead-Inv (send_mail g) c h (send_mail-Inv c h n))
            (λ f.
              option_all Inv g.auth_type (Ready-Inv c h)
                (λ type. authenticate-Inv (to_lower type) c h n)))

  on_auth-Inv : (c : Client) → Ready c → c.has_next ≡ true → Inv (on_auth g c)
  unfolding on_auth
  on_auth-Inv c h n =
      unless_dead-Inv (λ (d : Client). send_mail g (record d { authenticated = true })) c h
        (send_mail-Inv (record c { authenticated = true })
          (record { core = h.core; asked = h.asked }) n)

  send_rcpt-Inv : (c : Client) → Ready c → c.has_next ≡ true → Inv (send_rcpt g c)
  unfolding send_rcpt
  send_rcpt-Inv c h n =
      unless_dead-Inv
        (λ (d : Client). elim (rcpt_at g d.rcpt g.rcpt_to) [
          | none ↦ send_command data_command none d
          | some r ↦ record (send_command rcpt (some (text "TO:" ++ r)) d) { rcpt = d.rcpt + 1 }
        ])
        c h
        (option_all Inv (rcpt_at g c.rcpt g.rcpt_to)
          (Ready-Inv _ (send-Ready data_command none c h n))
          (λ r.
            let s = send-Ready rcpt (some (text "TO:" ++ r)) c h n in
            Ready-Inv _ (record { core = s.core; asked = s.asked })))

  on_rcpt-Inv : (c : Client) → Ready c → c.has_next ≡ true → Inv (on_rcpt g c)
  unfolding on_rcpt
  on_rcpt-Inv c h n =
      if_all Inv g.one_message_per_rcpt (λ e. Ready-Inv _ (send-Ready data_command none c h n))
        (λ e. send_rcpt-Inv c h n)

  on_data-Inv : (c : Client) → Ready c → c.has_next ≡ true → Inv (on_data g c)
  unfolding on_data start_data
  on_data-Inv c h n = unless_dead-Inv start_data c h (
      Ready-Inv _ (record {
        core = act-Core piped c.out c.has_next h.core refl (ground (arith, n));
        asked = h.asked;
      }))

  on_dot-Inv : (c : Client) → Ready c → c.has_next ≡ true → Inv (on_dot g c)
  unfolding on_dot
  on_dot-Inv c h n =
      unless_dead-Inv
        (λ (d : Client).
          if ltb d.rcpt (length g.rcpt_to)
          then send_command rset none d
          else release (call_next (some ok) d.response d))
        c h
        (if_all Inv (ltb c.rcpt (length g.rcpt_to)) (λ e. Ready-Inv _ (send-Ready rset none c h n))
          (λ e.
            release-Inv (call_next (some ok) c.response c)
              (call_next-Core (some ok) c.response c h.core)))

  on_rset-Inv : (c : Client) → Ready c → c.has_next ≡ true → Inv (on_rset g c)
  unfolding on_rset
  on_rset-Inv c h n = unless_dead-Inv (send_mail g) c h (send_mail-Inv c h n)

  on_bad_code-Inv : (code msg : Text) (c : Client) → Ready c → Inv (on_bad_code g code msg c)
  unfolding on_bad_code
  on_bad_code-Inv code msg c h =
      unless_dead-Inv (λ (d : Client). release (call_next (some (verdict g code)) (msg ∷ []) d)) c h
        (release-Inv (call_next (some (verdict g code)) (msg ∷ []) c)
          (call_next-Core (some (verdict g code)) (msg ∷ []) c h.core))

  on_released-Inv : (c : Client) → Ready c → Inv (on_released g c)
  unfolding on_released
  on_released-Inv c h =
      if_all Inv (is_destroyed c.state) (λ e. Ready-Inv c h)
        (λ e. record {
          core = act-Core pool_released c.out c.has_next h.core refl refl;
          asked = λ p. cc;
        })

  listener-Inv :
      (cmd : Command) (c : Client)
      → Ready c
      → c.has_next ≡ true
      → Inv (elim cmd [
        | helo ↦ on_helo g c
        | auth ↦ on_auth g c
        | mail ↦ send_rcpt g c
        | rcpt ↦ on_rcpt g c
        | data_command ↦ on_data g c
        | dot ↦ on_dot g c
        | rset ↦ on_rset g c
        | other_command ↦ c
      ])
  listener-Inv helo c h n = on_helo-Inv c h n
  listener-Inv auth c h n = on_auth-Inv c h n
  listener-Inv mail c h n = send_rcpt-Inv c h n
  listener-Inv rcpt c h n = on_rcpt-Inv c h n
  listener-Inv data_command c h n = on_data-Inv c h n
  listener-Inv dot c h n = on_dot-Inv c h n
  listener-Inv rset c h n = on_rset-Inv c h n
  listener-Inv cmd c h n = Ready-Inv c h

  rset_listener-Inv :
      (cmd : Command) (c : Client)
      → Ready c
      → Inv (elim cmd [ rset ↦ on_released g c | other_command ↦ c ])
  rset_listener-Inv rset c h = on_released-Inv c h
  rset_listener-Inv cmd c h = Ready-Inv c h

  pub emit_command-Inv : (cmd : Command) (c : Client) → Ready c → Inv (emit_command g cmd c)
  unfolding emit_command
  emit_command-Inv cmd c h =
      phase_all Inv c.phase (λ p. listener-Inv cmd c h (h.asked p)) (rset_listener-Inv cmd c h)
        (Ready-Inv c h)

  pub emit_bad_code-Inv :
      (code msg : Text) (c : Client) → Ready c → Inv (emit_bad_code g code msg c)
  unfolding emit_bad_code
  emit_bad_code-Inv code msg c h =
      phase_all Inv c.phase (λ p. on_bad_code-Inv code msg c h) (destroy-Inv c h.core)
        (Ready-Inv c h)

  pub emit_error-Inv : (c : Client) → Ready c → Inv (emit_error g c)
  unfolding emit_error
  emit_error-Inv c h =
      phase_all Inv c.phase
        (λ p. destroy-Inv (call_next none [] c) (call_next-Core none [] c h.core))
        (Ready-Inv _ (act-Ready threw c h refl refl)) (Ready-Inv _ (act-Ready threw c h refl refl))
