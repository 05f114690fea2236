-- ===== src/Outbound/Whole.antt =====
-- outbound.js: a delivery from the greeting of a host to the end.
use mathlib.Core.List.{append_assoc}
use mathlib.Core.Path.{subst}
use mathlib.Core.Option.{map}
use haraka.Prelude.{
  ℕ, ◌≡◌, refl, sym, ap, ◌∙◌, Bool, true, false, Option, none, some, List, [], ◌∷◌, ◌++◌, ◌&&◌, not,
  is_empty, zero, if◌then◌else◌, if_all, arith,
}
use haraka.Prelude.Text.{Text, text}
use haraka.Outbound.Extensions.{no_properties, read_extensions}
use haraka.Outbound.Client.{Talk, sent, is_data, data_end}
use haraka.Outbound.Client
use haraka.Outbound.Shake.{ehlo, mail, wrote, Config, Shake, send_command}
use haraka.Outbound.Handshake.{
  on_line, after_ehlo, process_ehlo_data, proceed, send_mail, reply, create,
}
use haraka.Outbound.Conversation.{Conversation, start, talk_line, receive, sent_all}
use haraka.Outbound.Recipients.{
  Answers, answers, message, deliver, asked, ending, those, accepted, deferred, rejected,
  deliver-out,
}

module _ {ℓ} {A : Type ℓ} (g : Config) (recipients : List A) where
  -- A reply of 250 in these lines.
  unfoldable pub reply_lines : List Text → Conversation A → Conversation A
  unfolding receive
  reply_lines [] c = c
  reply_lines (r ∷ []) c = receive g recipients true (some (250, true, r)) c
  reply_lines (r ∷ q ∷ rs) c =
      reply_lines (q ∷ rs) (receive g recipients true (some (250, false, r)) c)

  abbrev greeted : Option Text → List Text → Shake
  greeted type lines = record {
    command = ehlo;
    response = lines;
    processing_mail = true;
    secured = false;
    authenticating = false;
    authenticated = false;
    smtp_properties = no_properties;
    on_secure = zero;
    auth_type = type;
    out = wrote ehlo (some g.bind_helo) ∷ [];
  }

  abbrev waiting : Option Text → List Text → Conversation A
  waiting type lines = record { shake = greeted type lines; talk = none }

  start-greeted :
      (type : Option Text) (hello : Text)
      → g.using_lmtp ≡ false
      → receive g recipients true (some (220, true, hello)) (start g recipients false type)
        ≡ waiting type []
  unfolding receive on_line reply proceed send_command create
  start-greeted type hello l = rw l refl

  receive-waiting :
      (type : Option Text) (lines : List Text) (r : Text)
      → receive g recipients true (some (250, false, r)) (waiting type lines)
        ≡ waiting type (lines ++ (r ∷ []))
  unfolding receive on_line
  receive-waiting type lines r = refl

  after_ehlo-plain :
      (s : Shake)
      → s.smtp_properties.tls ≡ false
      → is_empty g.auth_user ≡ true
      → after_ehlo g true s ≡ send_mail g true s
  unfolding after_ehlo
  after_ehlo-plain s t u =
      if_all (λ x. x ≡ send_mail g true s)
        (not g.no_tls_domain
          && (not g.no_tls_host && (s.smtp_properties.tls && (g.enable_tls && not s.secured))))
        (λ e. absurd (ground arith))
        (λ e.
          if_all (λ x. x ≡ send_mail g true s)
            (not s.authenticated && (not (is_empty g.auth_user) && not (is_empty g.auth_pass)))
            (λ f. absurd (ground arith)) (λ f. refl))

  -- The two commands, and the talk that begins.
  abbrev Entered : Conversation A → Type ℓ
  Entered c =
      (c.talk ≡ some (Client.create g.using_lmtp recipients))
      × (c.shake.out
          ≡ wrote ehlo (some g.bind_helo) ∷ wrote mail (some (text "FROM:" ++ g.mail_from)) ∷ [])

  receive-Entered :
      (type : Option Text) (lines : List Text) (r : Text)
      → (read_extensions (lines ++ (r ∷ [])) no_properties).tls ≡ false
      → is_empty g.auth_user ≡ true
      → Entered (receive g recipients true (some (250, true, r)) (waiting type lines))
  unfolding receive on_line reply proceed process_ehlo_data send_mail send_command
  receive-Entered type lines r t u =
      rw
        (after_ehlo-plain
          (record (greeted type (lines ++ (r ∷ []))) {
            smtp_properties = read_extensions (lines ++ (r ∷ [])) no_properties;
          })
          t u)
        (refl, refl)

  reply_lines-Entered :
      (type : Option Text) (lines : List Text) (r : Text) (rs : List Text)
      → (read_extensions (lines ++ (r ∷ rs)) no_properties).tls ≡ false
      → is_empty g.auth_user ≡ true
      → Entered (reply_lines (r ∷ rs) (waiting type lines))
  unfolding reply_lines
  reply_lines-Entered type lines r [] t u = receive-Entered type lines r t u
  reply_lines-Entered type lines r (q ∷ rs) t u =
      subst (λ c. Entered (reply_lines (q ∷ rs) c)) (sym (receive-waiting type lines r))
        (reply_lines-Entered type (lines ++ (r ∷ [])) q rs
          (ap (λ x. (read_extensions x no_properties).tls) (append_assoc lines (r ∷ []) (q ∷ rs))
            ∙ t)
          u)

  -- A reply for each recipient.
  unfoldable pub answer_all : (A → ℕ) → List A → Conversation A → Conversation A
  unfolding receive
  answer_all code [] c = c
  answer_all code (r ∷ rs) c =
      answer_all code rs (receive g recipients true (some (code r, true, [])) c)

  -- The message, where the host waits for it, between replies of 354 and 250.
  unfoldable pub hand_over : Conversation A → Conversation A
  unfolding receive sent_all
  hand_over c = elim c.talk [
    | none ↦ c
    | some t ↦
        if is_data t.command
        then receive g recipients true (some (250, true, []))
            (sent_all g recipients true (receive g recipients true (some (354, true, [])) c))
        else c
  ]

  abbrev talking : Shake → Talk A → Conversation A
  talking s t = record { shake = s; talk = some t }

  answer_all-talking :
      (code : A → ℕ) (rs : List A) (s : Shake) (t : Talk A)
      → answer_all code rs (talking s t) ≡ talking s (answers code rs t)
  unfolding answer_all answers receive talk_line
  answer_all-talking code [] s t = refl
  answer_all-talking code (r ∷ rs) s t = answer_all-talking code rs s (Client.reply true (code r) t)

  if-talking :
      (b : Bool) (s : Shake) (t u : Talk A)
      → (if b then talking s t else talking s u) ≡ talking s (if b then t else u)
  if-talking true s t u = refl
  if-talking false s t u = refl

  hand_over-talking : (s : Shake) (t : Talk A) → hand_over (talking s t) ≡ talking s (message t)
  unfolding hand_over message receive sent_all talk_line
  hand_over-talking s t = if-talking (is_data t.command) s _ t

  -- The replies behind that to EHLO: 250 to MAIL, a code for each RCPT, and those to the message.
  unfoldable pub after_hello : (A → ℕ) → Conversation A → Conversation A
  unfolding hand_over answer_all receive
  after_hello code c =
      hand_over (answer_all code recipients (receive g recipients true (some (250, true, [])) c))

  -- A host that greets with 220, replies 250 to EHLO in these lines, and 250 to MAIL, with its codes to
  -- RCPT, and takes the message.
  unfoldable pub converse : (A → ℕ) → Option Text → Text → List Text → Conversation A
  unfolding after_hello reply_lines receive
  converse code type hello exts = after_hello code (
      reply_lines exts
        (receive g recipients true (some (220, true, hello)) (start g recipients false type)))

  receive-talking :
      (s : Shake) (t : Talk A)
      → receive g recipients true (some (250, true, [])) (talking s t)
        ≡ talking s (Client.reply true 250 t)
  unfolding receive talk_line
  receive-talking s t = refl

  after_hello-talking :
      (code : A → ℕ) (s : Shake) (t : Talk A)
      → after_hello code (talking s t)
        ≡ talking s (message (answers code recipients (Client.reply true 250 t)))
  unfolding after_hello
  after_hello-talking code s t =
      ap (λ d. hand_over (answer_all code recipients d)) (receive-talking s t)
      ∙ ap hand_over (answer_all-talking code recipients s (Client.reply true 250 t))
      ∙ hand_over-talking s _

  converse-deliver :
      (code : A → ℕ) (type : Option Text) (hello e : Text) (es : List Text)
      → g.using_lmtp ≡ false
      → (read_extensions (e ∷ es) no_properties).tls ≡ false
      → is_empty g.auth_user ≡ true
      → (c : Conversation A) × (Entered c
          × (converse code type hello (e ∷ es)
              ≡ talking c.shake (
                  message (
                    answers code recipients
                      (Client.reply true 250 (Client.create g.using_lmtp recipients))))))
  unfolding converse
  converse-deliver code type hello e es l t u =
      let c = reply_lines (e ∷ es) (waiting type []) in
      let h : Entered c = reply_lines-Entered type [] e es t u in
      (
        c,
        (
          h,
          ap (λ d. after_hello code (reply_lines (e ∷ es) d)) (start-greeted type hello l)
              ∙ ap (λ o. after_hello code (record { shake = c.shake; talk = o })) h.0
              ∙ after_hello-talking code c.shake (Client.create g.using_lmtp recipients),
        ),
      )

-- On a new socket to a host that speaks SMTP, for which no user is configured, and which greets with
-- 220, replies 250 to EHLO in lines that announce no STARTTLS, and replies 250 to MAIL, some code but
-- 3xx to each RCPT, 354 to DATA and 250 at the end: EHLO and MAIL are written, and then the recipients
-- are asked about in turn; if none is accepted with 250 the work ends with RSET and without success, and
-- otherwise with the message and with success; the three lists are the recipients accepted with 250,
-- deferred with 4xx and rejected with 5xx, in their order. (The socket stays writable.)
pub converse-out {ℓ} :
    {A : Type ℓ} (g : Config) (code : A → ℕ) (type : Option Text) (hello e : Text) (es : List Text)
    (r : A) (rs : List A)
    → g.using_lmtp ≡ false
    → (read_extensions (e ∷ es) no_properties).tls ≡ false
    → is_empty g.auth_user ≡ true
    → Answers code
    → ((converse g (r ∷ rs) code type hello (e ∷ es)).shake.out
        ≡ wrote ehlo (some g.bind_helo) ∷ wrote mail (some (text "FROM:" ++ g.mail_from)) ∷ [])
      × (map (λ t. t.out) (converse g (r ∷ rs) code type hello (e ∷ es)).talk
          ≡ some (
              sent Client.mail none
              ∷ (asked (r ∷ rs)
                  ++ ending
                      (those (λ q. accepted (code q)) (r ∷ rs))
                      (those (λ q. deferred (code q)) (r ∷ rs))
                      (those (λ q. rejected (code q)) (r ∷ rs)))))
unfolding deliver
converse-out {A = A} g code type hello e es r rs l t u a =
    let (c, (h, q)) = converse-deliver g (r ∷ rs) code type hello e es l t u in
    (
      ap (λ (d : Conversation A). d.shake.out) q ∙ h.1,
      ap (λ (d : Conversation A). map (λ t. t.out) d.talk) q
          ∙ ap
              (λ b.
                some
                  (message
                    (answers code (r ∷ rs) (Client.reply true 250 (Client.create b (r ∷ rs))))).out)
              l
          ∙ ap some (deliver-out code a r rs),
    )
