-- ===== src/Outbound/BehindTls/NoOffer.antt =====
-- outbound.js: the conversation up to MAIL behind a reply to EHLO that offers no STARTTLS.
use haraka.Prelude.{
  ℕ, ◌/◌, ◌≡◌, refl, Bool, true, false, Option, none, some, [], ◌∷◌, ◌++◌, ◌||◌, not, ◌==◌, if_all,
  arith,
}
use haraka.Prelude.Text.{Text, text, text_eq, to_upper, join_on}
use haraka.Outbound.Shake.{
  Command, ehlo, helo, auth, mail, rset, Action, temp_fail, bounce, Config, Shake, next_host,
  send_command, send_text, offers,
}
use haraka.Outbound.Handshake.{
  send_mail, give_up, send_auth, authenticate, answer_challenge, on_challenge, proceed, refused,
  reply, on_line,
}

abbrev pub is_late : Command → Bool
is_late helo = true
is_late auth = true
is_late mail = true
is_late rset = true
is_late _ = false

-- STARTTLS is not offered, and EHLO is not sent again.
pub record Open (s : Shake) : Type 0 where
  pub no_tls : s.smtp_properties.tls ≡ false
  pub late : (is_late s.command || not s.processing_mail) ≡ true

next_host-Open :
    (s : Shake) → s.smtp_properties.tls ≡ false → (next_host s).smtp_properties.tls ≡ false
next_host-Open s t =
    if_all (λ (u : Shake). u.smtp_properties.tls ≡ false) s.processing_mail (λ e. t) (λ e. t)

module _ (g : Config) (writable : Bool) where
  pub next_host-ends : (s : Shake) → (next_host s).processing_mail ≡ false
  next_host-ends s =
      if_all (λ (u : Shake). u.processing_mail ≡ false) s.processing_mail (λ e. refl) (λ e. e)

  pub next_host-Open' : (s : Shake) → s.smtp_properties.tls ≡ false → Open (next_host s)
  next_host-Open' s t = record {
    no_tls = next_host-Open s t;
    late = rw (next_host-ends s) (ground arith);
  }

  pub send_command-Open :
      (k : Command) (a : Option Text) (s : Shake)
      → is_late k ≡ true
      → s.smtp_properties.tls ≡ false
      → Open (send_command writable k a s)
  unfolding send_command
  send_command-Open k a s l t =
      if_all Open writable
        (λ e. record {
          no_tls = t;
          late =
              if_all (λ c. (is_late c || not s.processing_mail) ≡ true) s.authenticating (λ _. refl)
                (λ _. rw l refl);
        })
        (λ e. next_host-Open' s t)

  send_text-Open :
      (x : Text) (s : Shake) → s.smtp_properties.tls ≡ false → Open (send_text writable x s)
  unfolding send_text
  send_text-Open x s t =
      if_all Open writable (λ e. record { no_tls = t; late = refl }) (λ e. next_host-Open' s t)

  give_up-Open :
      (a : Action) (s : Shake) → s.smtp_properties.tls ≡ false → Open (give_up g writable a s)
  unfolding give_up
  give_up-Open a s t = record {
    no_tls = (send_command-Open rset none s refl t).no_tls;
    late = ground arith;
  }

  pub send_mail-Open : (s : Shake) → s.smtp_properties.tls ≡ false → Open (send_mail g writable s)
  unfolding send_mail
  send_mail-Open s t = send_command-Open mail _ s refl t

  send_auth-Open :
      (type : Text) (s : Shake) → s.smtp_properties.tls ≡ false → Open (send_auth g writable type s)
  unfolding send_auth
  send_auth-Open type s t =
      if_all Open (text_eq type (text "PLAIN")) (λ _. send_command-Open auth _ s refl t)
        (λ _.
          if_all Open (text_eq type (text "LOGIN"))
            (λ _. send_command-Open auth _ (record s { authenticating = true }) refl t)
            (λ _.
              if_all Open (text_eq type (text "CRAM-MD5"))
                (λ _. send_command-Open auth _ (record s { authenticating = true }) refl t)
                (λ _. send_mail-Open s t)))

  pub authenticate-Open :
      (type : Option Text) (s : Shake)
      → s.smtp_properties.tls ≡ false
      → Open (authenticate g writable type s)
  unfolding authenticate
  authenticate-Open none s t = send_mail-Open s t
  authenticate-Open (some type) s t =
      if_all Open (offers (to_upper type) s.smtp_properties.auth)
        (λ _. send_auth-Open (to_upper type) s t) (λ _. send_mail-Open s t)

  answer_challenge-Open :
      (type resp : Text) (s : Shake)
      → s.smtp_properties.tls ≡ false
      → Open (answer_challenge g writable type resp s)
  unfolding answer_challenge
  answer_challenge-Open type resp s t =
      if_all Open (text_eq type (text "LOGIN"))
        (λ _.
          if_all Open (text_eq resp (text "VXNlcm5hbWU6")) (λ _. send_text-Open _ s t)
            (λ _.
              if_all Open (text_eq resp (text "UGFzc3dvcmQ6")) (λ _. send_text-Open _ s t)
                (λ _. give_up-Open temp_fail s t)))
        (λ _.
          if_all Open (text_eq type (text "CRAM-MD5")) (λ _. send_text-Open _ s t)
            (λ _. give_up-Open temp_fail s t))

  on_challenge-Open :
      (type : Option Text) (s : Shake)
      → s.smtp_properties.tls ≡ false
      → Open (on_challenge g writable type s)
  unfolding on_challenge
  on_challenge-Open none s t = give_up-Open temp_fail s t
  on_challenge-Open (some type) s t =
      if_all Open s.authenticating
        (λ _. answer_challenge-Open (to_upper type) (join_on b' ' s.response) s t)
        (λ _. give_up-Open temp_fail s t)

  refused-Open :
      (k : Command) (s : Shake) → s.smtp_properties.tls ≡ false → Open (refused g writable k s)
  unfolding refused
  refused-Open ehlo s t = send_command-Open helo _ s refl t
  refused-Open _ s t = give_up-Open bounce s t

  proceed-Open :
      (k : Command) (s : Shake) → is_late k ≡ true → Open s → Open (proceed g writable k s)
  unfolding proceed
  proceed-Open auth s l h =
      send_mail-Open (record s { authenticating = false; authenticated = true }) h.no_tls
  proceed-Open helo s l h = send_mail-Open s h.no_tls
  proceed-Open mail s l h = h
  proceed-Open rset s l h = h
  proceed-Open _ s l h = absurd (cc)

  reply-Open :
      (code : ℕ) (s : Shake) → Open s → is_late s.command ≡ true → Open (reply g writable code s)
  unfolding reply
  reply-Open code s h l =
      if_all Open (code / 100 == 3) (λ _. on_challenge-Open s.auth_type s h.no_tls)
        (λ _.
          if_all Open (code / 100 == 4)
            (λ _. give_up-Open temp_fail (record s { authenticating = false }) h.no_tls)
            (λ _.
              if_all Open (code / 100 == 5)
                (λ _. refused-Open s.command (record s { authenticating = false }) h.no_tls)
                (λ _. proceed-Open s.command s l h)))

  pub on_line-Open :
      (l : Option (ℕ × Bool × Text)) (s : Shake) → Open s → Open (on_line g writable l s)
  unfolding on_line
  on_line-Open none s h =
      if_all Open s.processing_mail (λ _. record { no_tls = h.no_tls; late = ground arith })
        (λ _. h)
  on_line-Open (some (code, is_last, rest)) s h =
      if_all Open s.processing_mail
        (λ e.
          if_all Open is_last
            (λ _.
              let s' : Shake = record s { response = s.response ++ (rest ∷ []) } in
              reply-Open code s' (record { no_tls = h.no_tls; late = h.late })
                (let l = h.late in ground arith))
            (λ _. record { no_tls = h.no_tls; late = h.late }))
        (λ _. h)
