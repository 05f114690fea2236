-- ===== src/Outbound/Handshake.antt =====
-- outbound.js: `try_deliver_host_on_socket` up to MAIL: the greeting, EHLO, STARTTLS and AUTH.
use haraka.Prelude.{
  ℕ, zero, suc, ◌+◌, ◌/◌, Bool, true, false, Option, none, some, List, [], ◌∷◌, ◌++◌, ◌&&◌, not,
  ◌==◌, is_empty, if◌then◌else◌,
}
use haraka.Prelude.Text.{Text, text, text_eq, to_upper, join_on}
use haraka.Outbound.Extensions.{no_properties, read_extensions}
use haraka.Outbound.Shake.{
  Command, connect, connect_lmtp, ehlo, lhlo, helo, starttls, auth, mail, rset, Action, upgrade,
  temp_fail, bounce, unrecognized, Config, Shake, act, next_host, send_command, send_text, offers,
  pick_type,
}

module _ (g : Config) (writable : Bool) where
  unfoldable pub send_mail : Shake → Shake
  unfolding send_command text
  send_mail s = send_command writable mail (some (text "FROM:" ++ g.mail_from)) s

  -- On a new socket, or on one of the pool.
  unfoldable pub create : Bool → Option Text → Shake
  unfolding send_mail
  create pooled type =
      let s : Shake = record {
        command = if g.using_lmtp then connect_lmtp else connect;
        response = [];
        processing_mail = true;
        secured = false;
        authenticating = false;
        authenticated = false;
        smtp_properties = no_properties;
        on_secure = zero;
        auth_type = type;
        out = [];
      } in
      if pooled then send_mail s else s

  -- RSET, and the whole mail is deferred or bounced.
  unfoldable pub give_up : Action → Shake → Shake
  unfolding send_command
  give_up a s = act a (record (send_command writable rset none s) { processing_mail = false })

  -- The switch over the type, in capitals, which the host offers.
  unfoldable pub send_auth : Text → Shake → Shake
  unfolding send_command send_mail text text_eq
  send_auth type s =
      if text_eq type (text "PLAIN")
      then send_command writable auth
          (some
            (text "PLAIN " ++ g.base64 (g.auth_user ++ (0 ∷ (g.auth_user ++ (0 ∷ g.auth_pass))))))
          s
      else if text_eq type (text "LOGIN")
      then send_command writable auth (some (text "LOGIN")) (record s { authenticating = true })
      else if text_eq type (text "CRAM-MD5")
      then send_command writable auth (some (text "CRAM-MD5")) (record s { authenticating = true })
      else send_mail s

  -- Without a type, or with one that the host does not offer, the mail goes on without.
  unfoldable pub authenticate : Option Text → Shake → Shake
  unfolding send_auth send_mail offers to_upper
  authenticate none s = send_mail s
  authenticate (some type) s =
      if offers (to_upper type) s.smtp_properties.auth
      then send_auth (to_upper type) s
      else send_mail s

  -- After the loop of process_ehlo_data.
  unfoldable pub after_ehlo : Shake → Shake
  unfolding authenticate send_command send_mail pick_type
  after_ehlo s =
      if not g.no_tls_domain
        && (not g.no_tls_host && (s.smtp_properties.tls && (g.enable_tls && not s.secured)))
      then send_command writable starttls none (record s { on_secure = s.on_secure + 1 })
      else if not s.authenticated && (not (is_empty g.auth_user) && not (is_empty g.auth_pass))
      then (if is_empty s.smtp_properties.auth
          then send_mail s
          else (let type = pick_type s.auth_type s.smtp_properties.auth in
              authenticate type (record s { auth_type = type })))
      else send_mail s

  unfoldable pub process_ehlo_data : Shake → Shake
  unfolding after_ehlo read_extensions
  process_ehlo_data s =
      after_ehlo (record s { smtp_properties = read_extensions s.response s.smtp_properties })

  -- switch (command); behind MAIL the conversation goes on as a `Talk`.
  unfoldable pub proceed : Command → Shake → Shake
  unfolding process_ehlo_data send_command send_mail
  proceed connect s = send_command writable ehlo (some g.bind_helo) s
  proceed connect_lmtp s = send_command writable lhlo (some g.bind_helo) s
  proceed ehlo s = process_ehlo_data s
  proceed lhlo s = process_ehlo_data s
  proceed starttls s = act upgrade (record s { smtp_properties = no_properties })
  proceed auth s = send_mail (record s { authenticating = false; authenticated = true })
  proceed helo s = send_mail s
  proceed mail s = s
  proceed rset s = s

  abbrev pub cram_md5_response : Text → Text → Text → Text
  cram_md5_response username password challenge =
      g.base64 (username ++ (b' ' ∷ g.hmac_md5_hex password (g.unbase64 challenge)))

  -- A challenge, where `type` is in capitals.
  unfoldable pub answer_challenge : Text → Text → Shake → Shake
  unfolding text text_eq send_text give_up
  answer_challenge type resp s =
      if text_eq type (text "LOGIN")
      then (if text_eq resp (text "VXNlcm5hbWU6")
          then send_text writable (g.base64 g.auth_user) s
          else if text_eq resp (text "UGFzc3dvcmQ6")
          then send_text writable (g.base64 g.auth_pass) s
          else give_up temp_fail s)
      else if text_eq type (text "CRAM-MD5")
      then send_text writable (cram_md5_response g.auth_user g.auth_pass resp) s
      else give_up temp_fail s

  unfoldable pub on_challenge : Option Text → Shake → Shake
  unfolding answer_challenge join_on to_upper give_up
  on_challenge none s = give_up temp_fail s
  on_challenge (some type) s =
      if s.authenticating
      then answer_challenge (to_upper type) (join_on b' ' s.response) s
      else give_up temp_fail s

  unfoldable pub refused : Command → Shake → Shake
  unfolding send_command give_up
  refused ehlo s = send_command writable helo (some g.bind_helo) s
  refused _ s = give_up bounce s

  -- The last line of a reply.
  unfoldable pub reply : ℕ → Shake → Shake
  unfolding proceed give_up on_challenge refused
  reply code s =
      if code / 100 == 3
      then on_challenge s.auth_type s
      else if code / 100 == 4
      then give_up temp_fail (record s { authenticating = false })
      else if code / 100 == 5
      then refused s.command (record s { authenticating = false })
      else proceed s.command s

  -- A line: `none` is no reply, and else its code, if it is the last, and its text.
  unfoldable pub on_line : Option (ℕ × Bool × Text) → Shake → Shake
  unfolding reply
  on_line none s =
      if s.processing_mail then record (act unrecognized s) { processing_mail = false } else s
  on_line (some (code, is_last, rest)) s =
      if s.processing_mail
      then (let s' = record s { response = s.response ++ (rest ∷ []) } in
          if is_last then reply code s' else s')
      else s

  -- The listeners of 'secure', each of them.
  unfoldable pub emit_secure : ℕ → Shake → Shake
  unfolding send_command
  emit_secure zero s = s
  emit_secure (suc n) s = emit_secure n (
      send_command writable (if g.using_lmtp then lhlo else ehlo) (some g.bind_helo)
        (record s { secured = true }))

-- What comes over the socket; whether it is writable then is told.
pub data Event : Type 0 where
  line : Bool → Option (ℕ × Bool × Text) → Event
  secure : Bool → Event
  closed : Event

module _ (g : Config) where
  unfoldable pub step : Event → Shake → Shake
  unfolding on_line emit_secure
  step (line writable l) s = on_line g writable l s
  step (secure writable) s = emit_secure g writable s.on_secure s
  step closed s = next_host s

  unfoldable pub run : List Event → Shake → Shake
  unfolding step
  run [] s = s
  run (e ∷ es) s = run es (step e s)
