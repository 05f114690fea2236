-- ===== src/Outbound/BehindTls/BeforeOffer.antt =====
-- outbound.js: where the conversation up to MAIL can go from a place before the reply to EHLO.
use haraka.Prelude.{
  ℕ, ◌+◌, ◌/◌, ◌≡◌, refl, inl, inr, Bool, true, false, Option, none, some, [], ◌∷◌, ◌++◌, ◌&&◌, not,
  ◌==◌, is_empty, if_all, arith,
}
use haraka.Prelude.Text.{Text}
use haraka.Outbound.Shake.{
  Command, connect, connect_lmtp, ehlo, lhlo, helo, starttls, wrote, upgrade, temp_fail, bounce,
  unrecognized, try_next_host, Config, Shake, send_command,
}
use haraka.Outbound.Handshake.{after_ehlo, process_ehlo_data, proceed, refused, reply, on_line}
use haraka.Outbound.Secrets.{is_secret, free, free-act, Locked, give_up-Locked, on_challenge-Locked}
use haraka.Outbound.BehindTls.NoOffer.{
  is_late, Open, next_host-Open', next_host-ends, send_command-Open, send_mail-Open,
  authenticate-Open,
}

-- Before the reply to EHLO.
pub record Early (s : Shake) : Type 0 where
  pub clear : free s.out ≡ true
  pub not_authenticating : s.authenticating ≡ false
  pub no_tls : s.smtp_properties.tls ≡ false
  pub not_secured : s.secured ≡ false
  pub early : (is_late s.command) ≡ false

pub data Phase (s : Shake) : Type 0 where
  early : Early s → Phase s
  locked : Locked s → Phase s
  opened : Open s → Phase s

module _ (g : Config) (writable : Bool) where
  send_command-Early :
      (k : Command) (a : Option Text) (s : Shake)
      → Early s
      → is_secret (wrote k a) ≡ false
      → is_late k ≡ false
      → Phase (send_command writable k a s)
  unfolding send_command
  send_command-Early k a s h f l =
      if_all Phase writable
        (λ _. early (record {
          clear = free-act s.out (wrote k a) f h.clear;
          not_authenticating = h.not_authenticating;
          no_tls = h.no_tls;
          not_secured = h.not_secured;
          early =
              if_all (λ c. is_late c ≡ false) s.authenticating
                (λ t. let n = h.not_authenticating in absurd (cc)) (λ _. l);
        }))
        (λ _. opened (next_host-Open' g writable s h.no_tls))

  module _ (wanted : g.no_tls_domain ≡ false) (wanted' : g.no_tls_host ≡ false)
      (enabled : g.enable_tls ≡ true) where
    send_starttls-Locked :
        (s : Shake)
        → free s.out ≡ true
        → s.authenticating ≡ false
        → Locked (send_command writable starttls none s)
    unfolding send_command
    send_starttls-Locked s f n =
        if_all Locked writable
          (λ _. record {
            clear = free-act s.out (wrote starttls none) refl f;
            not_authenticating = n;
            waits =
                inl (if_all (λ c. c ≡ starttls) s.authenticating (λ t. absurd (cc)) (λ _. refl));
          })
          (λ _. record {
            clear =
                if_all (λ (u : Shake). free u.out ≡ true) s.processing_mail
                  (λ _. free-act s.out try_next_host refl f) (λ _. f);
            not_authenticating =
                if_all (λ (u : Shake). u.authenticating ≡ false) s.processing_mail (λ _. n)
                  (λ _. n);
            waits = inr (next_host-ends g writable s);
          })

    after_ehlo-Phase :
        (s : Shake)
        → free s.out ≡ true
        → s.authenticating ≡ false
        → s.secured ≡ false
        → Phase (after_ehlo g writable s)
    unfolding after_ehlo
    after_ehlo-Phase s f n u =
        if_all Phase
          (not g.no_tls_domain
            && (not g.no_tls_host && (s.smtp_properties.tls && (g.enable_tls && not s.secured))))
          (λ _. locked (send_starttls-Locked (record s { on_secure = s.on_secure + 1 }) f n))
          (λ e.
            let t : s.smtp_properties.tls ≡ false = ground arith in
            if_all Phase
              (not s.authenticated && (not (is_empty g.auth_user) && not (is_empty g.auth_pass)))
              (λ _.
                if_all Phase (is_empty s.smtp_properties.auth)
                  (λ _. opened (send_mail-Open g writable s t))
                  (λ _. opened (authenticate-Open g writable _ (record s { auth_type = _ }) t)))
              (λ _. opened (send_mail-Open g writable s t)))

    proceed-Early :
        (k : Command) (s : Shake)
        → is_late k ≡ false
        → Early s
        → s.command ≡ k
        → Phase (proceed g writable k s)
    unfolding proceed process_ehlo_data
    proceed-Early connect s l h c = send_command-Early ehlo _ s h refl refl
    proceed-Early connect_lmtp s l h c = send_command-Early lhlo _ s h refl refl
    proceed-Early ehlo s l h c =
        after_ehlo-Phase (record s { smtp_properties = _ }) h.clear h.not_authenticating
          h.not_secured
    proceed-Early lhlo s l h c =
        after_ehlo-Phase (record s { smtp_properties = _ }) h.clear h.not_authenticating
          h.not_secured
    proceed-Early starttls s l h c = locked (record {
      clear = free-act s.out upgrade refl h.clear;
      not_authenticating = h.not_authenticating;
      waits = inl c;
    })
    proceed-Early _ s l h c = absurd (cc)

    refused-Early : (k : Command) (s : Shake) → Early s → Phase (refused g writable k s)
    unfolding refused
    refused-Early ehlo s h = opened (send_command-Open g writable helo _ s refl h.no_tls)
    refused-Early _ s h =
        locked (give_up-Locked g writable bounce s refl h.clear h.not_authenticating)

    reply-Early : (code : ℕ) (s : Shake) → Early s → Phase (reply g writable code s)
    unfolding reply
    reply-Early code s h =
        if_all Phase (code / 100 == 3)
          (λ _. locked (on_challenge-Locked g writable s.auth_type s h.clear h.not_authenticating))
          (λ _.
            if_all Phase (code / 100 == 4)
              (λ _. locked (
                give_up-Locked g writable temp_fail (record s { authenticating = false }) refl
                  h.clear refl))
              (λ _.
                if_all Phase (code / 100 == 5)
                  (λ _.
                    refused-Early s.command (record s { authenticating = false })
                      (record {
                        clear = h.clear;
                        not_authenticating = refl;
                        no_tls = h.no_tls;
                        not_secured = h.not_secured;
                        early = h.early;
                      }))
                  (λ _. proceed-Early s.command s h.early h refl)))

    pub on_line-Early :
        (l : Option (ℕ × Bool × Text)) (s : Shake) → Early s → Phase (on_line g writable l s)
    unfolding on_line
    on_line-Early none s h =
        if_all Phase s.processing_mail
          (λ _. locked (record {
            clear = free-act s.out unrecognized refl h.clear;
            not_authenticating = h.not_authenticating;
            waits = inr refl;
          }))
          (λ _. early h)
    on_line-Early (some (code, is_last, rest)) s h =
        let s' : Shake = record s { response = s.response ++ (rest ∷ []) } in
        let h' : Early s' = record {
          clear = h.clear;
          not_authenticating = h.not_authenticating;
          no_tls = h.no_tls;
          not_secured = h.not_secured;
          early = h.early;
        } in
        if_all Phase s.processing_mail
          (λ _. if_all Phase is_last (λ _. reply-Early code s' h') (λ _. early h')) (λ _. early h)
