-- ===== src/Outbound/Secrets.antt =====
-- outbound.js: what is written to a host that offers STARTTLS, before the socket is secured.
use mathlib.Core.Path.{subst}
use haraka.Prelude.{
  ℕ, ◌/◌, ◌≡◌, refl, sym, ◌⊎◌, inl, inr, Bool, true, false, Option, none, some, List, [], ◌∷◌, ◌++◌,
  ◌&&◌, not, ◌==◌, if_all, arith,
}
use haraka.Prelude.Text.{Text}
use haraka.Outbound.Shake.{
  starttls, auth, rset, Action, wrote, wrote_text, upgrade, temp_fail, bounce, unrecognized,
  try_next_host, Config, Shake, next_host, send_command,
}
use haraka.Outbound.Handshake.{give_up, on_challenge, proceed, refused, reply, on_line}

-- Does it show the user or the password?
abbrev pub is_secret : Action → Bool
is_secret (wrote auth a) = true
is_secret (wrote_text t) = true
is_secret _ = false

unfoldable pub free : List Action → Bool
free [] = true
free (a ∷ os) = not (is_secret a) && free os

pub free-act :
    (os : List Action) (a : Action)
    → is_secret a ≡ false
    → free os ≡ true
    → free (os ++ (a ∷ [])) ≡ true
unfolding free
free-act [] a e h = rw e refl
free-act (b ∷ os) a e h = ground (arith, free-act os a e)

-- STARTTLS is written, or the work on the mail has ended.
pub record Locked (s : Shake) : Type 0 where
  pub clear : free s.out ≡ true
  pub not_authenticating : s.authenticating ≡ false
  pub waits : (s.command ≡ starttls) ⊎ (s.processing_mail ≡ false)

pub next_host-Locked : (s : Shake) → Locked s → Locked (next_host s)
next_host-Locked s h =
    if_all Locked s.processing_mail
      (λ e. record {
        clear = free-act s.out try_next_host refl h.clear;
        not_authenticating = h.not_authenticating;
        waits = inr refl;
      })
      (λ e. h)

module _ (g : Config) (writable : Bool) where
  pub give_up-Locked :
      (a : Action) (s : Shake)
      → is_secret a ≡ false
      → free s.out ≡ true
      → s.authenticating ≡ false
      → Locked (give_up g writable a s)
  unfolding give_up send_command
  give_up-Locked a s e f n = record {
    clear = free-act _ a e (
        if_all (λ (t : Shake). free t.out ≡ true) writable
          (λ _. free-act s.out (wrote rset none) refl f)
          (λ _.
            if_all (λ (t : Shake). free t.out ≡ true) s.processing_mail
              (λ _. free-act s.out try_next_host refl f) (λ _. f)));
    not_authenticating =
        if_all (λ (t : Shake). t.authenticating ≡ false) writable (λ _. n)
          (λ _.
            if_all (λ (t : Shake). t.authenticating ≡ false) s.processing_mail (λ _. n) (λ _. n));
    waits = inr refl;
  }

  pub on_challenge-Locked :
      (type : Option Text) (s : Shake)
      → free s.out ≡ true
      → s.authenticating ≡ false
      → Locked (on_challenge g writable type s)
  unfolding on_challenge
  on_challenge-Locked none s f n = give_up-Locked temp_fail s refl f n
  on_challenge-Locked (some type) s f n =
      if_all Locked s.authenticating (λ t. absurd (cc)) (λ _. give_up-Locked temp_fail s refl f n)

  reply-Locked :
      (code : ℕ) (s : Shake)
      → free s.out ≡ true
      → s.authenticating ≡ false
      → s.command ≡ starttls
      → Locked (reply g writable code s)
  unfolding reply proceed refused
  reply-Locked code s f n c =
      if_all Locked (code / 100 == 3) (λ e. on_challenge-Locked s.auth_type s f n)
        (λ e.
          if_all Locked (code / 100 == 4)
            (λ e'. give_up-Locked temp_fail (record s { authenticating = false }) refl f refl)
            (λ e'.
              if_all Locked (code / 100 == 5)
                (λ _.
                  subst (λ k. Locked (refused g writable k (record s { authenticating = false })))
                    (sym c)
                    (give_up-Locked bounce (record s { authenticating = false }) refl f refl))
                (λ _.
                  subst (λ k. Locked (proceed g writable k s)) (sym c)
                    (record {
                      clear = free-act s.out upgrade refl f;
                      not_authenticating = n;
                      waits = inl c;
                    }))))

  pub on_line-Locked :
      (l : Option (ℕ × Bool × Text)) (s : Shake) → Locked s → Locked (on_line g writable l s)
  unfolding on_line
  on_line-Locked none s h =
      if_all Locked s.processing_mail
        (λ e. record {
          clear = free-act s.out unrecognized refl h.clear;
          not_authenticating = h.not_authenticating;
          waits = inr refl;
        })
        (λ e. h)
  on_line-Locked (some (code, is_last, rest)) s h = elim h.waits [
    | inr e ↦ if_all Locked s.processing_mail (λ t. absurd (cc)) (λ _. h)
    | inl c ↦
        if_all Locked s.processing_mail
          (λ e.
            if_all Locked is_last
              (λ l.
                reply-Locked code (record s { response = s.response ++ (rest ∷ []) }) h.clear
                  h.not_authenticating c)
              (λ l. record {
                clear = h.clear;
                not_authenticating = h.not_authenticating;
                waits = inl c;
              }))
          (λ e. h)
  ]
