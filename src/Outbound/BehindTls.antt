-- ===== src/Outbound/BehindTls.antt =====
-- outbound.js: where the conversation up to MAIL stands before the socket is secured.
mod NoOffer
mod BeforeOffer
use haraka.Prelude.{◌≡◌, refl, Bool, true, false, Option, List, [], ◌∷◌, ◌||◌, if_all, arith}
use haraka.Prelude.Text.{Text}
use haraka.Outbound.Shake.{Config, Shake}
use haraka.Outbound.Handshake.{create, Event, line, secure, closed, step, run}
use haraka.Outbound.Secrets.{free, Locked, next_host-Locked, on_line-Locked}
use haraka.Outbound.BehindTls.NoOffer.{is_late, next_host-Open', on_line-Open}
use haraka.Outbound.BehindTls.BeforeOffer.{Phase, early, locked, opened, on_line-Early}

-- Nothing of the events says that the socket is secured.
abbrev pub is_secure : Event → Bool
is_secure (secure w) = true
is_secure _ = false

abbrev pub secures : List Event → Bool
secures [] = false
secures (e ∷ es) = is_secure e || secures es

step-Locked :
    (g : Config) (e : Event) (s : Shake) → is_secure e ≡ false → Locked s → Locked (step g e s)
unfolding step
step-Locked g (line w l) s n h = on_line-Locked g w l s h
step-Locked g (secure w) s n h = absurd (cc)
step-Locked g closed s n h = next_host-Locked s h

run-Locked :
    (g : Config) (es : List Event) (s : Shake) → secures es ≡ false → Locked s → Locked (run g es s)
unfolding run
run-Locked g [] s n h = h
run-Locked g (e ∷ es) s n h =
    run-Locked g es (step g e s) (ground arith) (step-Locked g e s (ground arith) h)

module _ (g : Config) (wanted : g.no_tls_domain ≡ false) (wanted' : g.no_tls_host ≡ false)
    (enabled : g.enable_tls ≡ true) where
  step-Phase : (e : Event) (s : Shake) → is_secure e ≡ false → Phase s → Phase (step g e s)
  unfolding step
  step-Phase e s n (locked h) = locked (step-Locked g e s n h)
  step-Phase (line w l) s n (early h) = on_line-Early g w wanted wanted' enabled l s h
  step-Phase (line w l) s n (opened h) = opened (on_line-Open g w l s h)
  step-Phase (secure w) s n h = absurd (cc)
  step-Phase closed s n (early h) = opened (next_host-Open' g true s h.no_tls)
  step-Phase closed s n (opened h) = opened (next_host-Open' g true s h.no_tls)

  run-Phase : (es : List Event) (s : Shake) → secures es ≡ false → Phase s → Phase (run g es s)
  unfolding run
  run-Phase [] s n h = h
  run-Phase (e ∷ es) s n h =
      run-Phase es (step g e s) (ground arith) (step-Phase e s (ground arith) h)

  create-Phase : (type : Option Text) → Phase (create g true false type)
  unfolding create free
  create-Phase type = early (record {
    clear = refl;
    not_authenticating = refl;
    no_tls = refl;
    not_secured = refl;
    early = if_all (λ k. is_late k ≡ false) g.using_lmtp (λ _. refl) (λ _. refl);
  })

  offered-Locked : (s : Shake) → Phase s → s.smtp_properties.tls ≡ true → Locked s
  offered-Locked s (early h) t = let n = h.no_tls in absurd (cc)
  offered-Locked s (locked h) t = h
  offered-Locked s (opened h) t = let n = h.no_tls in absurd (cc)

  -- On a new socket to a host for which TLS is enabled, once the host has offered STARTTLS: until the
  -- socket is secured no line with the user or the password is written, whatever the host replies and
  -- whenever the socket is closed or no longer writable.
  pub run-no_secret :
      (type : Option Text) (es later : List Event)
      → secures es ≡ false
      → secures later ≡ false
      → (run g es (create g true false type)).smtp_properties.tls ≡ true
      → free (run g later (run g es (create g true false type))).out ≡ true
  run-no_secret type es later n m t =
      (run-Locked g later _ m (offered-Locked _ (run-Phase es _ n (create-Phase type)) t)).clear
