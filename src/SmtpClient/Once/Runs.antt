-- ===== src/SmtpClient/Once/Runs.antt =====
-- smtp_client.js: whatever comes over the socket, the hook is answered once.
use haraka.Prelude.{
  ℕ, zero, suc, ◌≡◌, refl, Bool, true, false, none, some, List, [], ◌∷◌, ◌++◌, ◌&&◌, not, arith,
  if_all, if◌then◌else◌, ◌==◌,
}
use haraka.Prelude.Text.{Text}
use haraka.SmtpClient.State.{
  State, idle, active, released, destroyed, is_active, is_destroyed, Command, greeting, ehlo, helo,
  xclient, starttls, auth, mail, rcpt, data_command, dot, rset, quit, other, Client, upgraded,
  host_failed, threw, act, destroy, call_next,
}
use haraka.SmtpClient.Listeners.{
  Config, emit_capabilities, emit_bad_code, emit_error, emit_connection_error,
}
use haraka.SmtpClient.Lines.{
  parse_reply, starts_with_code, is_refusal, is_ehlo, is_xclient, join, on_command, if_active,
  on_code, if_ehlo, on_reply, on_line, on_closed, secure, Event, line, errored, ended, secured,
  sender_lost, step, run,
}
use haraka.SmtpClient.Once.{
  answers_once, is_answered, Core, Ready, Inv, Inv-Ready, Ready-Inv, act-Core, destroy-Core,
  call_next-Core, destroy-Inv, destroy-destroyed,
}
use haraka.SmtpClient.Once.Steps.{act-Ready}
use haraka.SmtpClient.Once.Listeners.{
  emit_greeting-Ready, emit_capabilities-Ready, emit_command-Inv, emit_bad_code-Inv, emit_error-Inv,
}

module _ (g : Config) where
  on_command-Inv : (cmd : Command) (c : Client) → Ready c → Inv (on_command g cmd c)
  unfolding on_command
  on_command-Inv xclient c h = Ready-Inv _ (
      emit_greeting-Ready g ehlo (record c { has_xclient = true })
        (record { core = h.core; asked = h.asked }))
  on_command-Inv greeting c h = Ready-Inv _ (
      emit_greeting-Ready g ehlo (record c { connected = true })
        (record { core = h.core; asked = h.asked }))
  on_command-Inv starttls c h = Ready-Inv _ (act-Ready upgraded c h refl refl)
  on_command-Inv other c h = Ready-Inv _ (act-Ready threw c h refl refl)
  on_command-Inv quit c h = destroy-Inv c h.core
  on_command-Inv ehlo c h = emit_command-Inv g helo c h
  on_command-Inv helo c h = emit_command-Inv g helo c h
  on_command-Inv mail c h = emit_command-Inv g mail c h
  on_command-Inv rcpt c h = emit_command-Inv g rcpt c h
  on_command-Inv data_command c h = emit_command-Inv g data_command c h
  on_command-Inv dot c h = emit_command-Inv g dot c h
  on_command-Inv rset c h = emit_command-Inv g rset c h
  on_command-Inv auth c h = emit_command-Inv g auth c h

  active-alive : (s : State) → is_active s ≡ true → is_destroyed s ≡ false
  active-alive active h = refl
  active-alive idle h = refl
  active-alive released h = refl
  active-alive destroyed h = cc

  if_active-Inv : (c : Client) → Inv c → Inv (if_active g c)
  unfolding if_active
  if_active-Inv c h =
      if_all Inv (is_active c.state)
        (λ e. on_command-Inv c.command c (Inv-Ready c h (active-alive c.state e))) (λ e. h)

  on_code-Inv : (code : Text) (c : Client) → Ready c → Inv (on_code g code c)
  unfolding on_code
  on_code-Inv code c h =
      if_all Inv (is_xclient c.command && starts_with_code b'5' code)
        (λ e.
          on_command-Inv helo (record c { command = helo })
            (record { core = h.core; asked = h.asked }))
        (λ e.
          if_all Inv (is_refusal code)
            (λ f.
              if_active-Inv (emit_bad_code g code (join c.response) c)
                (emit_bad_code-Inv g code (join c.response) c h))
            (λ f. on_command-Inv c.command c h))

  if_ehlo-Inv : (code : Text) (c : Client) → Ready c → Inv (if_ehlo g code c)
  unfolding if_ehlo
  if_ehlo-Inv code c h =
      if_all Inv (is_ehlo c.command) (λ e. on_code-Inv code c h) (λ e. Ready-Inv c h)

  on_reply-Inv : (code : Text) (c : Client) → Ready c → Inv (on_reply g code c)
  unfolding on_reply
  on_reply-Inv code c h =
      if_all Inv (is_ehlo c.command)
        (λ e.
          if_all Inv (starts_with_code b'5' code)
            (λ f. Ready-Inv _ (emit_greeting-Ready g helo c h))
            (λ f. if_ehlo-Inv code (emit_capabilities g c) (emit_capabilities-Ready g c h)))
        (λ e. on_code-Inv code c h)

  on_line-Inv : (t : Text) (c : Client) → Ready c → Inv (on_line g t c)
  unfolding on_line
  on_line-Inv t c h =
      elim (parse_reply t)
        as (λ q. Inv (elim q [
          | none ↦ emit_error g c
          | some r ↦
              let d = record c { response = c.response ++ (r.msg ∷ []) } in
              if r.cont == b' ' then on_reply g r.code d else d
        ])) [
          | none ↦ emit_error-Inv g c h
          | some r ↦
              let k : Ready (record c { response = c.response ++ (r.msg ∷ []) }) = record {
                core = h.core;
                asked = h.asked;
              } in
              if_all Inv (r.cont == b' ')
                (λ e. on_reply-Inv r.code (record c { response = c.response ++ (r.msg ∷ []) }) k)
                (λ e. Ready-Inv _ k)
        ]

  connection_error-Core :
      (has_pool : Bool) (c : Client)
      → Core c.out c.has_next
      → Core (emit_connection_error g has_pool c).out (emit_connection_error g has_pool c).has_next
  unfolding emit_connection_error
  connection_error-Core true c h =
      call_next-Core none [] (act host_failed c) (act-Core host_failed c.out c.has_next h refl refl)
  connection_error-Core false c h = call_next-Core none [] c h

  secure-Ready : (n : ℕ) (c : Client) → Ready c → Ready (secure g n c)
  unfolding secure
  secure-Ready zero c h = h
  secure-Ready (suc n) c h = secure-Ready n _ (
      emit_greeting-Ready g ehlo (record c { secured = true })
        (record { core = h.core; asked = h.asked }))

  connection_error-destroyed :
      (has_pool : Bool) (c : Client)
      → is_destroyed c.state ≡ true
      → is_destroyed (emit_connection_error g has_pool c).state ≡ true
  unfolding emit_connection_error call_next
  connection_error-destroyed true c h =
      if_all (λ (d : Client). is_destroyed d.state ≡ true) c.has_next (λ e. h) (λ e. h)
  connection_error-destroyed false c h =
      if_all (λ (d : Client). is_destroyed d.state ≡ true) c.has_next (λ e. h) (λ e. h)

  on_closed-Inv :
      (has_pool is_error : Bool) (c : Client) → Inv c → Inv (on_closed g has_pool is_error c)
  unfolding on_closed
  on_closed-Inv has_pool is_error c h =
      if_all Inv is_error
        (λ e. record {
          core = connection_error-Core has_pool (destroy c) (destroy-Core c h.core);
          asked = λ p n. absurd (
              ground
                (arith, n, connection_error-destroyed has_pool (destroy c) (destroy-destroyed c)));
        })
        (λ e. destroy-Inv c h.core)

  -- No line comes when the client was destroyed already.
  abbrev pub is_late : Event → Client → Bool
  is_late (line t) c = is_destroyed c.state
  is_late e c = false

  unfoldable pub none_late : (has_pool : Bool) → List Event → Client → Bool
  unfolding step
  none_late has_pool [] c = true
  none_late has_pool (e ∷ es) c = not (is_late e c) && none_late has_pool es (step g has_pool e c)

  step-Inv :
      (has_pool : Bool) (e : Event) (c : Client)
      → is_late e c ≡ false
      → Inv c
      → Inv (step g has_pool e c)
  unfolding step
  step-Inv has_pool (line t) c l h = on_line-Inv t c (Inv-Ready c h l)
  step-Inv has_pool errored c l h = on_closed-Inv has_pool true c h
  step-Inv has_pool ended c l h = on_closed-Inv has_pool false c h
  step-Inv has_pool secured c l h =
      if_all Inv (is_destroyed c.state) (λ e. h)
        (λ e. Ready-Inv _ (secure-Ready c.on_secured c (Inv-Ready c h e)))
  step-Inv has_pool sender_lost c l h = record { core = h.core; asked = h.asked }

  run-Inv :
      (has_pool : Bool) (es : List Event) (c : Client)
      → none_late has_pool es c ≡ true
      → Inv c
      → Inv (run g has_pool es c)
  unfolding run none_late
  run-Inv has_pool [] c l h = h
  run-Inv has_pool (e ∷ es) c l h =
      run-Inv has_pool es (step g has_pool e c) (ground arith)
        (step-Inv has_pool e c (ground arith) h)

  -- Of a client that a plugin gets, whatever comes over its socket and whenever the sender goes away:
  -- the hook is answered at most once, and after its answer no command is written but RSET, and no
  -- message is begun, if no line comes once the client was destroyed. (A message that was begun may go on
  -- behind the answer.)
  pub run-answers_once :
      (has_pool : Bool) (es : List Event) (c : Client)
      → c.out ≡ []
      → c.has_next ≡ true
      → none_late has_pool es c ≡ true
      → answers_once false (run g has_pool es c).out ≡ true
  run-answers_once has_pool es c e n l =
      (run-Inv has_pool es c l (record {
        core =
            rw (e, n)
              (record { once = unfold answers_once in refl; pending = unfold is_answered in refl });
        asked = λ p d. n;
      })).core.once
