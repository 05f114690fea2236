-- ===== src/SmtpClient/Clear.antt =====
-- smtp_client.js and plugins/queue/smtp_forward.js: two listeners of one event, STARTTLS and AUTH.
use mathlib.Core.List.{append_assoc}
use haraka.Prelude.{
  ◌≡◌, refl, ap, ◌∙◌, Bool, true, false, none, some, List, [], ◌∷◌, ◌++◌, ◌&&◌, ◌||◌, not, arith,
  if_all, is_empty,
}
use haraka.Prelude.Text.{Text, text, text_eq, starts_with}
use haraka.SmtpClient.State.{
  starttls, auth, Phase, plugin, releasing, pooled, Client, Action, wrote, send_command,
}
use haraka.SmtpClient.Listeners.{
  Config, read_auth, read_capabilities, forward_auth, emit_capabilities,
}
use haraka.SmtpClient.Lines.{starts_with_code, is_ehlo, on_reply, if_ehlo}

-- A line that announces STARTTLS, and none before it that announces XCLIENT.
unfoldable pub offers_tls : List Text → Bool
unfolding starts_with text
offers_tls [] = false
offers_tls (l ∷ ls) =
    not (starts_with (text "XCLIENT") l) && (starts_with (text "STARTTLS") l || offers_tls ls)

module _ (g : Config) (tls : g.enable_tls ≡ true) (wanted : g.in_no_tls_hosts ≡ false) where
  read_auth-out :
      (l : Text) (c : Client)
      → ((read_auth g l c).out ≡ c.out) × ((read_auth g l c).secured ≡ c.secured)
  unfolding read_auth
  read_auth-out l c =
      if_all (λ (d : Client). (d.out ≡ c.out) × (d.secured ≡ c.secured))
        (starts_with (text "AUTH ") l) (λ e. (refl, refl)) (λ e. (refl, refl))

  read_capabilities-starttls :
      (ls : List Text) (c : Client)
      → offers_tls ls ≡ true
      → c.secured ≡ false
      → (read_capabilities g ls c).out ≡ c.out ++ (wrote starttls none ∷ [])
  unfolding offers_tls read_capabilities send_command
  read_capabilities-starttls [] c h s = cc
  read_capabilities-starttls (l ∷ ls) c h s =
      if_all Started (starts_with (text "XCLIENT") l && not c.has_xclient)
        (λ e. absurd (ground arith))
        (λ e.
          if_all Started
            (starts_with (text "STARTTLS") l
              && not c.secured
              && (not g.in_no_tls_hosts && g.enable_tls))
            (λ f. refl)
            (λ f.
              let r = read_auth-out l c in
              read_capabilities-starttls ls (read_auth g l c) (ground arith) (r.1 ∙ s)
              ∙ ap (λ x. x ++ (wrote starttls none ∷ [])) r.0))
    where
      Started : Client → Type 0
      Started d = d.out ≡ c.out ++ (wrote starttls none ∷ [])

  by_plugin :
      (p : Phase) (x y z : Client)
      → p ≡ plugin
      → elim p [ plugin ↦ x | releasing ↦ y | pooled ↦ z ] ≡ x
  by_plugin plugin x y z h = refl
  by_plugin releasing x y z h = cc
  by_plugin pooled x y z h = cc

  abbrev plain_auth : Action
  plain_auth =
      wrote auth (some (text "PLAIN " ++ g.base64 (0 ∷ (g.auth_user ++ (0 ∷ g.auth_pass)))))

  forward_auth-plain :
      (c : Client)
      → is_empty g.auth_user ≡ false
      → g.auth_type ≡ some (text "plain")
      → ((forward_auth g c).out ≡ c.out ++ (plain_auth ∷ []))
        × (is_ehlo (forward_auth g c).command ≡ false)
  unfolding forward_auth send_command text_eq text
  forward_auth-plain c u t = rw (u, t) (refl, refl)

  emit_capabilities-forward :
      (c : Client)
      → c.phase ≡ plugin
      → emit_capabilities g c ≡ forward_auth g (read_capabilities g c.response c)
  unfolding emit_capabilities
  emit_capabilities-forward c p = by_plugin c.phase _ c c p

  on_reply-forward :
      (code : Text) (c : Client)
      → is_ehlo c.command ≡ true
      → starts_with_code b'5' code ≡ false
      → is_ehlo (emit_capabilities g c).command ≡ false
      → on_reply g code c ≡ emit_capabilities g c
  unfolding on_reply if_ehlo
  on_reply-forward code c e f h = rw (e, f, h) refl

  -- A reply to EHLO, not of the class 5, that announces STARTTLS in a line with no XCLIENT before it,
  -- of a client that is not secured, where TLS is enabled for the host and a user is configured with the
  -- type plain: the client writes STARTTLS and then, at once, the user and the password.
  pub on_reply-in_clear :
      (code : Text) (c : Client)
      → is_ehlo c.command ≡ true
      → starts_with_code b'5' code ≡ false
      → c.phase ≡ plugin
      → c.secured ≡ false
      → offers_tls c.response ≡ true
      → is_empty g.auth_user ≡ false
      → g.auth_type ≡ some (text "plain")
      → (on_reply g code c).out ≡ c.out ++ (wrote starttls none ∷ plain_auth ∷ [])
  on_reply-in_clear code c e f p s o u t =
      let r = forward_auth-plain (read_capabilities g c.response c) u t in
      let q = emit_capabilities-forward c p in
      ap (λ (d : Client). d.out)
        (on_reply-forward code c e f (ap (λ (d : Client). is_ehlo d.command) q ∙ r.1) ∙ q)
      ∙ r.0
      ∙ ap (λ x. x ++ (plain_auth ∷ [])) (read_capabilities-starttls c.response c o s)
      ∙ append_assoc c.out (wrote starttls none ∷ []) (plain_auth ∷ [])
