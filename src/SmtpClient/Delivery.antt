-- ===== src/SmtpClient/Delivery.antt =====
-- smtp_client.js, plugins/queue/smtp_forward.js: a backend that accepts what it is told.
use haraka.Prelude.{
  ℕ, zero, suc, ◌+◌, ◌≡◌, refl, ap, ◌∙◌, Bool, true, false, none, some, List, [], ◌∷◌, ◌++◌, ◌||◌,
  map, arith, ltb, length,
}
use mathlib.Core.List.{append_assoc}
use haraka.Prelude.Text.{Text, text, starts_with}
use haraka.Connection.Types.{ok}
use haraka.SmtpClient.State.{
  idle, released, is_destroyed, Command, ehlo, mail, rcpt, data_command, dot, rset, releasing,
  pooled, Client, Action, wrote, piped, told, pool_released, send_command, start_data, release,
  call_next, unless_dead, new_client,
}
use haraka.SmtpClient.Listeners.{
  Config, emit_greeting, read_auth, read_capabilities, forward_auth, emit_capabilities, on_helo,
  rcpt_at, send_rcpt, on_rcpt, on_data, on_dot, on_released, emit_command,
}
use haraka.SmtpClient.Lines.{
  parse_reply, starts_with_code, is_refusal, is_ehlo, is_xclient, on_command, on_code, if_ehlo,
  on_reply, on_line, Event, line, step, run,
}

-- A line that is a whole reply, and no refusal.
pub record Accepts (t : Text) : Type 0 where
  pub code : Text
  pub msg : Text
  pub parsed : parse_reply t ≡ some (record { code = code; cont = b' '; msg = msg })
  pub no_refusal : is_refusal code ≡ false

abbrev pub AllAccept : List Text → Type 0
AllAccept [] = Unit
AllAccept (t ∷ ts) = Accepts t × AllAccept ts

-- What EHLO's reply announces that is acted on.
unfoldable pub announces : Text → Bool
unfolding starts_with text
announces msg =
    starts_with (text "XCLIENT") msg
    || starts_with (text "STARTTLS") msg
    || starts_with (text "AUTH ") msg

module _ (g : Config) where
  on_line-Accepts :
      (t : Text) (c : Client) (h : Accepts t)
      → is_ehlo c.command ≡ false
      → is_xclient c.command ≡ false
      → on_line g t c ≡ on_command g c.command (record c { response = c.response ++ (h.msg ∷ []) })
  unfolding on_line on_reply on_code
  on_line-Accepts t c h e x = rw (on_line, h.parsed, on_reply, e, on_code, x, h.no_refusal) refl

  -- A client that is connected, past EHLO.
  abbrev at : Command → ℕ → List Action → Client
  at cmd k out = record new_client { connected = true; command = cmd; rcpt = k; out = out }

  abbrev rcpt_to : Text → Action
  rcpt_to r = wrote rcpt (some (text "TO:" ++ r))

  run-line :
      (hp : Bool) (t : Text) (es : List Event) (c d : Client)
      → is_destroyed c.state ≡ false
      → on_line g t c ≡ d
      → run g hp (line t ∷ es) c ≡ run g hp es d
  unfolding run step
  run-line hp t es c d h e = rw e refl

  -- The replies to MAIL and to RCPT do the same.
  abbrev is_asking : Command → Bool
  is_asking mail = true
  is_asking rcpt = true
  is_asking cmd = false

  module _ (each : g.one_message_per_rcpt ≡ false) where
    asking-next :
        (cmd : Command) (t : Text) (k : ℕ) (out : List Action) (r : Text)
        → Accepts t
        → is_asking cmd ≡ true
        → rcpt_at g k g.rcpt_to ≡ some r
        → on_line g t (at cmd k out) ≡ at rcpt (k + 1) (out ++ (rcpt_to r ∷ []))
    unfolding on_command emit_command on_rcpt send_rcpt unless_dead send_command
    asking-next mail t k out r h i e = rw (on_line-Accepts t (at mail k out) h refl refl, e) refl
    asking-next rcpt t k out r h i e =
        rw (on_line-Accepts t (at rcpt k out) h refl refl, each, e) refl
    asking-next cmd t k out r h i e = cc

    asking-last :
        (cmd : Command) (t : Text) (k : ℕ) (out : List Action)
        → Accepts t
        → is_asking cmd ≡ true
        → rcpt_at g k g.rcpt_to ≡ none
        → on_line g t (at cmd k out) ≡ at data_command k (out ++ (wrote data_command none ∷ []))
    unfolding on_command emit_command on_rcpt send_rcpt unless_dead send_command
    asking-last mail t k out h i e = rw (on_line-Accepts t (at mail k out) h refl refl, e) refl
    asking-last rcpt t k out h i e =
        rw (on_line-Accepts t (at rcpt k out) h refl refl, each, e) refl
    asking-last cmd t k out h i e = cc

    -- The recipients from an index on.
    abbrev From : ℕ → List Text → Type 0
    From k rest = (i : ℕ) → rcpt_at g (i + k) g.rcpt_to ≡ rcpt_at g i rest

    at_start :
        (k : ℕ) (rest : List Text) → From k rest → rcpt_at g k g.rcpt_to ≡ rcpt_at g zero rest
    at_start k rest f = ap (λ j. rcpt_at g j g.rcpt_to) (omega arith) ∙ f zero

    From-tail : (k : ℕ) (r : Text) (rest : List Text) → From k (r ∷ rest) → From (k + 1) rest
    From-tail k r rest h i = ap (λ j. rcpt_at g j g.rcpt_to) (omega arith) ∙ h (suc i)

    run-rcpts :
        (hp : Bool) (es : List Event) (rest ts : List Text) (cmd : Command) (k : ℕ)
        (out : List Action)
        → AllAccept ts
        → length ts ≡ length rest + 1
        → is_asking cmd ≡ true
        → From k rest
        → run g hp (map line ts ++ es) (at cmd k out)
          ≡ run g hp es (
              at data_command
                (k + length rest)
                (out ++ (map rcpt_to rest ++ (wrote data_command none ∷ []))))
    run-rcpts hp es [] [] cmd k out a l i f = absurd (omega (arith, l))
    run-rcpts hp es [] (t ∷ []) cmd k out a l i f =
        run-line hp t es (at cmd k out) (at data_command k (out ++ (wrote data_command none ∷ [])))
          refl (asking-last cmd t k out a.0 i (at_start k [] f))
        ∙ ap (λ j. run g hp es (at data_command j (out ++ (wrote data_command none ∷ []))))
            (omega arith)
    run-rcpts hp es [] (t ∷ u ∷ ts) cmd k out a l i f = absurd (omega (arith, l))
    run-rcpts hp es (r ∷ rest) [] cmd k out a l i f = absurd (omega (arith, l))
    run-rcpts hp es (r ∷ rest) (t ∷ ts) cmd k out a l i f =
        run-line hp t (map line ts ++ es) (at cmd k out) (at rcpt (k + 1) (out ++ (rcpt_to r ∷ [])))
          refl (asking-next cmd t k out r a.0 i (at_start k (r ∷ rest) f))
        ∙ run-rcpts hp es rest ts rcpt (k + 1) (out ++ (rcpt_to r ∷ [])) a.1 (omega (arith, l)) refl
            (From-tail k r rest f)
        ∙ ap
            (λ j. run g hp es (
              at data_command j (
                (out ++ (rcpt_to r ∷ [])) ++ (map rcpt_to rest ++ (wrote data_command none ∷ [])))))
            (omega arith)
        ∙ ap (λ o. run g hp es (at data_command (k + length (r ∷ rest)) o))
            (append_assoc out (rcpt_to r ∷ []) _)

  abbrev greeted : List Text → List Action → Client
  greeted response out = record new_client {
    connected = true;
    command = ehlo;
    response = response;
    out = out;
  }

  greeting-line :
      (t : Text) → Accepts t → on_line g t new_client ≡ greeted [] (wrote ehlo (some g.me) ∷ [])
  unfolding on_command emit_greeting send_command
  greeting-line t h = on_line-Accepts t new_client h refl refl

  emit_capabilities-quiet :
      (msg : Text) (out : List Action)
      → g.auth_user ≡ []
      → announces msg ≡ false
      → emit_capabilities g (greeted (msg ∷ []) out) ≡ greeted (msg ∷ []) out
  unfolding emit_capabilities read_capabilities read_auth forward_auth announces
  emit_capabilities-quiet msg out f n =
      let x : starts_with (text "XCLIENT") msg ≡ false = ground arith in
      let y : starts_with (text "STARTTLS") msg ≡ false = ground arith in
      let z : starts_with (text "AUTH ") msg ≡ false = ground arith in rw (x, y, z, f) refl

  no_four : (code : Text) → is_refusal code ≡ false → starts_with_code b'4' code ≡ false
  no_four code h = ground arith

  no_five : (code : Text) → is_refusal code ≡ false → starts_with_code b'5' code ≡ false
  no_five code h = ground arith

  ehlo-line :
      (t : Text) (h : Accepts t) (out : List Action)
      → g.has_auth ≡ false
      → g.auth_user ≡ []
      → announces h.msg ≡ false
      → on_line g t (greeted [] out)
        ≡ at mail zero (out ++ (wrote mail (some (text "FROM:" ++ g.mail_from)) ∷ []))
  unfolding on_line on_reply on_code if_ehlo on_command emit_command on_helo unless_dead
      send_command
  ehlo-line t h out e f n =
      rw
        (
          on_line,
          h.parsed,
          on_reply,
          no_five h.code h.no_refusal,
          emit_capabilities-quiet h.msg out f n,
          no_four h.code h.no_refusal,
          e,
        )
        refl

  end-lines :
      (hp : Bool) (d o q : Text) (k : ℕ) (out : List Action) (hd : Accepts d) (ho : Accepts o)
      (hq : Accepts q)
      → ltb k (length g.rcpt_to) ≡ false
      → (run g hp (line d ∷ line o ∷ line q ∷ []) (at data_command k out)).out
        ≡ out ++ (piped ∷ told (some ok) (ho.msg ∷ []) ∷ wrote rset none ∷ pool_released ∷ [])
  unfolding on_command emit_command on_data on_dot on_released unless_dead start_data release
      call_next send_command run
  end-lines hp d o q k out hd ho hq l =
      let sent = out ++ (piped ∷ []) in
      let answered = (sent ++ (told (some ok) (ho.msg ∷ []) ∷ [])) ++ (wrote rset none ∷ []) in
      let over : Client = record (at rset k answered) {
        state = released;
        phase = releasing;
        has_next = false;
      } in
      ap (λ (c : Client). c.out)
        (run-line hp d (line o ∷ line q ∷ []) (at data_command k out) (at dot k sent) refl
            (rw (on_line-Accepts d (at data_command k out) hd refl refl) refl)
          ∙ run-line hp o (line q ∷ []) (at dot k sent) over refl
              (rw (on_line-Accepts o (at dot k sent) ho refl refl, l) refl)
          ∙ run-line hp q [] over
              (record over {
                state = idle;
                phase = pooled;
                response = hq.msg ∷ [];
                out = answered ++ (pool_released ∷ []);
              })
              refl (rw (on_line-Accepts q over hq refl refl) refl))
      ∙ simp append_assoc

  -- A backend that accepts all, with one line for each reply, and whose reply to EHLO announces none of
  -- XCLIENT, STARTTLS and AUTH: the new client writes EHLO, MAIL, RCPT for each recipient in its order,
  -- DATA and the message; then the hook is told OK with the last reply's text, once, and after RSET the
  -- client is given back to its pool. (No authentication is configured, nor a message per recipient.)
  pub run-accepted :
      (hp : Bool) (hello extended d o q : Text) (ts : List Text) (hh : Accepts hello)
      (he : Accepts extended) (hd : Accepts d) (ho : Accepts o) (hq : Accepts q)
      → AllAccept ts
      → length ts ≡ length g.rcpt_to + 1
      → announces he.msg ≡ false
      → g.one_message_per_rcpt ≡ false
      → g.has_auth ≡ false
      → g.auth_user ≡ []
      → (run g hp
          (line hello ∷ line extended ∷ (map line ts ++ (line d ∷ line o ∷ line q ∷ [])))
          new_client).out
        ≡ wrote ehlo (some g.me)
          ∷ wrote mail (some (text "FROM:" ++ g.mail_from))
          ∷ (map rcpt_to g.rcpt_to
              ++ (wrote data_command none
                  ∷ piped
                  ∷ told (some ok) (ho.msg ∷ [])
                  ∷ wrote rset none
                  ∷ pool_released
                  ∷ []))
  run-accepted hp hello extended d o q ts hh he hd ho hq a l n each e f =
      let last = line d ∷ line o ∷ line q ∷ [] in
      let out = wrote ehlo (some g.me) ∷ wrote mail (some (text "FROM:" ++ g.mail_from)) ∷ [] in
      let asked = out ++ (map rcpt_to g.rcpt_to ++ (wrote data_command none ∷ [])) in
      ap (λ (c : Client). c.out)
        (run-line hp hello (line extended ∷ (map line ts ++ last)) new_client
            (greeted [] (wrote ehlo (some g.me) ∷ [])) refl (greeting-line hello hh)
          ∙ run-line hp extended (map line ts ++ last) (greeted [] (wrote ehlo (some g.me) ∷ []))
              (at mail zero out) refl (ehlo-line extended he (wrote ehlo (some g.me) ∷ []) e f n)
          ∙ run-rcpts each hp last g.rcpt_to ts mail zero out a l refl
              (λ i. ap (λ j. rcpt_at g j g.rcpt_to) (omega arith)))
      ∙ end-lines hp d o q (zero + length g.rcpt_to) asked hd ho hq (ground arith)
      ∙ simp append_assoc
