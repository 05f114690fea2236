-- ===== src/Outbound/Recipients.antt =====
-- outbound.js: the recipients that a server accepts, defers and rejects after RCPT, and the end of
-- the conversation.
use mathlib.Core.List.{append_assoc, append-nil}
use haraka.Prelude.{
  ℕ, ◌/◌, ◌≡◌, refl, sym, ap, ◌∙◌, Bool, true, false, none, some, List, [], ◌∷◌, ◌++◌, ◌==◌,
  if◌then◌else◌, Bool-cases, inl, inr, arith,
}
use haraka.Outbound.Client.{
  mail, rcpt, data_command, rset, is_data, dot, Action, sent, stream, finished, Talk, create,
  send_command, finish_processing_mail, next_recipient, after_recipients, after_rcpt, proceed,
  refuse_rcpt, refuse, reply, data_end,
}

abbrev pub accepted : ℕ → Bool
accepted code = code == 250

abbrev pub deferred : ℕ → Bool
deferred code = code / 100 == 4

abbrev pub rejected : ℕ → Bool
rejected code = code / 100 == 5

-- No code of the 300s.
abbrev pub Answers {ℓ} : {A : Type ℓ} → (A → ℕ) → Type ℓ
Answers {A = A} code = (r : A) → (code r / 100 == 3) ≡ false

deferred-not_accepted : (c : ℕ) → deferred c ≡ true → accepted c ≡ false
deferred-not_accepted c h = ground arith

deferred-not_rejected : (c : ℕ) → deferred c ≡ true → rejected c ≡ false
deferred-not_rejected c h = ground arith

rejected-not_accepted : (c : ℕ) → rejected c ≡ true → accepted c ≡ false
rejected-not_accepted c h = ground arith

module _ {ℓ} {A : Type ℓ} where
  abbrev pub one_if : Bool → A → List A
  one_if true r = r ∷ []
  one_if false r = []

  -- The elements that pass a test, in their order.
  abbrev pub those : (A → Bool) → List A → List A
  those test [] = []
  those test (r ∷ rs) = one_if (test r) r ++ those test rs

  -- Replies of a server, a code for each recipient, on a socket that stays writable.
  unfoldable pub answers : (A → ℕ) → List A → Talk A → Talk A
  unfolding reply
  answers code [] t = t
  answers code (r ∷ rs) t = answers code rs (reply true (code r) t)

  -- Behind RCPT for `r`, with `us` to come.
  abbrev pub asking : Bool → A → List A → List A → List A → List A → List (Action A) → Talk A
  asking lmtp r us ok fl bo out = record {
    command = rcpt;
    using_lmtp = lmtp;
    processing_mail = true;
    fp_called = false;
    unsent = us;
    last_recip = some r;
    lmtp_rcpt_idx = 0;
    ok_recips = ok;
    fail_recips = fl;
    bounce_recips = bo;
    out = out;
  }

  reply-asking :
      (lmtp : Bool) (c : ℕ) (r : A) (us ok fl bo : List A) (out : List (Action A))
      → (c / 100 == 3) ≡ false
      → reply true c (asking lmtp r us ok fl bo out)
        ≡ after_rcpt true (
            asking lmtp r us
              (ok ++ one_if (accepted c) r)
              (fl ++ one_if (deferred c) r)
              (bo ++ one_if (rejected c) r)
              out)
  unfolding reply proceed refuse refuse_rcpt
  reply-asking lmtp c r us ok fl bo out n3 = elim (Bool-cases (deferred c)) [
    | inl s ↦
        rw (n3, s)
          (rw (deferred-not_accepted c s, deferred-not_rejected c s)
            (rw (append-nil ok, append-nil bo) refl))
    | inr ns ↦ elim (Bool-cases (rejected c)) [
      | inl h ↦
          rw (n3, ns, h) (rw (rejected-not_accepted c h) (rw (append-nil ok, append-nil fl) refl))
      | inr nh ↦ elim (Bool-cases (accepted c)) [
        | inl a ↦ rw (n3, ns, nh, a) (rw (append-nil bo, append-nil fl) refl)
        | inr na ↦ rw (n3, ns, nh, na) (rw (append-nil ok, append-nil bo, append-nil fl) refl)
      ]
    ]
  ]

  abbrev final_of : A → List A → A
  final_of r [] = r
  final_of r (q ∷ rs) = final_of q rs

  -- RCPT for each.
  abbrev pub asked : List A → List (Action A)
  asked [] = []
  asked (r ∷ rs) = sent rcpt (some r) ∷ asked rs

  -- The end: nothing is sent where no recipient was accepted.
  abbrev pub ending : List A → List A → List A → List (Action A)
  ending [] fl bo = sent rset none ∷ finished false [] fl bo ∷ []
  ending (r ∷ rs) fl bo =
      sent data_command none
      ∷ stream
      ∷ sent dot none
      ∷ finished true (r ∷ rs) fl bo
      ∷ sent rset none
      ∷ []

  after_rcpt-asking :
      (lmtp : Bool) (r q : A) (us ok fl bo : List A) (out : List (Action A))
      → after_rcpt true (asking lmtp r (q ∷ us) ok fl bo out)
        ≡ asking lmtp q us ok fl bo (out ++ (sent rcpt (some q) ∷ []))
  unfolding after_rcpt next_recipient send_command
  after_rcpt-asking lmtp r q us ok fl bo out = refl

  after_rcpt-last :
      (lmtp : Bool) (r : A) (ok fl bo : List A) (out : List (Action A))
      → after_rcpt true (asking lmtp r [] ok fl bo out)
        ≡ after_recipients true (asking lmtp r [] ok fl bo out)
  unfolding after_rcpt
  after_rcpt-last lmtp r ok fl bo out = refl

  after_recipients-asking :
      (lmtp : Bool) (r : A) {ok ok' fl fl' bo bo' : List A} {out out' : List (Action A)}
      → ok ≡ ok'
      → fl ≡ fl'
      → bo ≡ bo'
      → out ≡ out'
      → after_recipients true (asking lmtp r [] ok fl bo out)
        ≡ after_recipients true (asking lmtp r [] ok' fl' bo' out')
  after_recipients-asking lmtp r a b c d = rw (a, b, c, d) refl

  -- The message, if the server waits for it: its replies are 354, and 250 at the end.
  unfoldable pub message : Talk A → Talk A
  unfolding reply data_end
  message t = if is_data t.command then reply true 250 (data_end true (reply true 354 t)) else t

  message-out :
      (r : A) (ok fl bo : List A) (out : List (Action A))
      → (message (after_recipients true (asking false r [] ok fl bo out))).out
        ≡ out ++ ending ok fl bo
  unfolding message reply proceed data_end finish_processing_mail send_command
  message-out r [] fl bo out = append_assoc out _ _
  message-out r (q ∷ ok) fl bo out = simp append_assoc

  mail-accepted :
      (r : A) (rs : List A)
      → reply true 250 (create false (r ∷ rs))
        ≡ asking false r rs [] [] [] (sent mail none ∷ sent rcpt (some r) ∷ [])
  unfolding reply proceed next_recipient send_command create
  mail-accepted r rs = refl

  -- A conversation with a server that replies 250 to MAIL, its codes to RCPT, 354 to DATA and 250 at
  -- the end.
  unfoldable pub deliver : (A → ℕ) → List A → Talk A
  unfolding answers create reply
  deliver code rs = message (answers code rs (reply true 250 (create false rs)))

  module _ (code : A → ℕ) (answered : Answers code) where
    answers-asking :
        (lmtp : Bool) (r : A) (rs ok fl bo : List A) (out : List (Action A))
        → answers code (r ∷ rs) (asking lmtp r rs ok fl bo out)
          ≡ after_recipients true (
              asking lmtp
                (final_of r rs)
                []
                (ok ++ those (λ q. accepted (code q)) (r ∷ rs))
                (fl ++ those (λ q. deferred (code q)) (r ∷ rs))
                (bo ++ those (λ q. rejected (code q)) (r ∷ rs))
                (out ++ asked rs))
    unfolding answers
    answers-asking lmtp r [] ok fl bo out =
        reply-asking lmtp (code r) r [] ok fl bo out (answered r)
        ∙ after_rcpt-last lmtp r _ _ _ out
        ∙ after_recipients-asking lmtp _ (ap (ok ++◌) (sym (append-nil _)))
            (ap (fl ++◌) (sym (append-nil _))) (ap (bo ++◌) (sym (append-nil _)))
            (sym (append-nil out))
    answers-asking lmtp r (q ∷ rs) ok fl bo out =
        ap (answers code (q ∷ rs)) (
          reply-asking lmtp (code r) r (q ∷ rs) ok fl bo out (answered r)
          ∙ after_rcpt-asking lmtp r q rs _ _ _ out)
        ∙ answers-asking lmtp q rs _ _ _ (out ++ (sent rcpt (some q) ∷ []))
        ∙ after_recipients-asking lmtp _ (append_assoc ok _ _) (append_assoc fl _ _)
            (append_assoc bo _ _) (append_assoc out _ (asked rs))

    -- A server that replies so, with no code of the 300s to RCPT, is asked about each recipient in
    -- turn. If it accepts none with 250, the conversation ends with RSET and without success, and
    -- otherwise with the message, and the three lists are the recipients that it accepted with 250,
    -- deferred with 4xx and rejected with 5xx, in their order.
    pub deliver-out :
        (r : A) (rs : List A)
        → (deliver code (r ∷ rs)).out
          ≡ sent mail none
            ∷ (asked (r ∷ rs)
                ++ ending
                    (those (λ q. accepted (code q)) (r ∷ rs))
                    (those (λ q. deferred (code q)) (r ∷ rs))
                    (those (λ q. rejected (code q)) (r ∷ rs)))
    unfolding deliver
    deliver-out r rs =
        ap (λ t. (message (answers code (r ∷ rs) t)).out) (mail-accepted r rs)
        ∙ ap (λ t. (message t).out)
            (answers-asking false r rs [] [] [] (sent mail none ∷ sent rcpt (some r) ∷ []))
        ∙ message-out (final_of r rs) _ _ _ (sent mail none ∷ sent rcpt (some r) ∷ asked rs)

  those-none : (test : A → Bool) → ((r : A) → test r ≡ false) → (rs : List A) → those test rs ≡ []
  those-none test fails [] = refl
  those-none test fails (r ∷ rs) = rw (fails r) (those-none test fails rs)

  -- A server that answers 251 (user not local; will forward) to each of one or more recipients: the
  -- work is finished with the three lists empty and no message sent.
  pub forwarded-dropped :
      (r : A) (rs : List A)
      → (deliver (λ q. 251) (r ∷ rs)).out
        ≡ sent mail none ∷ (asked (r ∷ rs) ++ (sent rset none ∷ finished false [] [] [] ∷ []))
  forwarded-dropped r rs =
      deliver-out (λ q. 251) (λ q. refl) r rs ∙ rw (those-none (λ q. false) (λ q. refl) rs) refl
