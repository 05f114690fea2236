-- ===== src/Outbound/Lmtp.antt =====
-- outbound.js: the replies at the end of a message under LMTP, one for each accepted recipient.
use haraka.Prelude.{
  ℕ, zero, suc, ◌+◌, ◌≡◌, ◌≢◌, refl, ap, ◌∙◌, true, false, none, List, [], ◌∷◌, ◌++◌, ◌==◌, length,
  ==_iff, Bool-cases, inl, inr, ◌/◌, arith,
}
use haraka.Outbound.Client.{
  dot_lmtp, Action, finished, Talk, refuse_lmtp, refuse, after_dot_lmtp, proceed,
  finish_processing_mail, reply,
}

abbrev pub all_250 : ℕ → List ℕ
all_250 zero = []
all_250 (suc n) = 250 ∷ all_250 n

equal : (a b : ℕ) → a ≡ b → (a == b) ≡ true
equal a b e = (==_iff a b).1 e

different : (a b : ℕ) → a ≢ b → (a == b) ≡ false
different a b e = ground arith

not_three : (c : ℕ) → (c / 100 == 4) ≡ true → (c / 100 == 3) ≡ false
not_three c h = ground arith

not_two : (c : ℕ) → (c / 100 == 4) ≡ true → (c / 100 == 2) ≡ false
not_two c h = ground arith

module _ {ℓ} {A : Type ℓ} where
  -- Replies of the server, by their codes.
  unfoldable pub replies : List ℕ → Talk A → Talk A
  unfolding reply
  replies [] t = t
  replies (c ∷ cs) t = replies cs (reply true c t)

  -- Behind the dot, with `ok` accepted at RCPT and `idx` of them accepted since.
  abbrev pub dotted : List A → ℕ → List (Action A) → Talk A
  dotted ok idx out = record {
    command = dot_lmtp;
    using_lmtp = true;
    processing_mail = true;
    fp_called = false;
    unsent = [];
    last_recip = none;
    lmtp_rcpt_idx = idx;
    ok_recips = ok;
    fail_recips = [];
    bounce_recips = [];
    out = out;
  }

  reply-dotted :
      (ok : List A) (idx : ℕ) (out : List (Action A))
      → idx + 1 ≢ length ok
      → reply true 250 (dotted ok idx out) ≡ dotted ok (idx + 1) out
  unfolding reply proceed after_dot_lmtp finish_processing_mail
  reply-dotted ok idx out ne = rw (different (idx + 1) (length ok) ne) refl

  -- With a 250 for each recipient that is left, the work is finished with all of them accepted.
  pub replies-all :
      (n : ℕ) (ok : List A) (idx : ℕ) (out : List (Action A))
      → idx + suc n ≡ length ok
      → (replies (all_250 (suc n)) (dotted ok idx out)).out ≡ out ++ (finished true ok [] [] ∷ [])
  unfolding replies reply proceed after_dot_lmtp finish_processing_mail
  replies-all zero ok idx out e = rw (equal (idx + 1) (length ok) (omega (arith, e))) refl
  replies-all (suc n) ok idx out e =
      ap (λ t. (replies (all_250 (suc n)) t).out) (reply-dotted ok idx out (omega (arith, e)))
      ∙ replies-all n ok (idx + 1) out (omega (arith, e))

  -- A reply of 4xx while two recipients or more are accepted: whichever of them the reply is for, by
  -- the number of those that have their 250, it is the first that is recorded as deferred, and the
  -- others stay accepted.
  pub deferred-first :
      (c idx : ℕ) (r q : A) (rs : List A) (out : List (Action A))
      → (c / 100 == 4) ≡ true
      → let t = reply true c (dotted (r ∷ q ∷ rs) idx out) in
        (t.ok_recips ≡ q ∷ rs) × (t.fail_recips ≡ r ∷ [])
  unfolding reply proceed refuse refuse_lmtp after_dot_lmtp finish_processing_mail
  deferred-first c idx r q rs out h = elim (Bool-cases (idx == length (q ∷ rs))) [
    | inl e ↦ rw (not_three c h, h, not_two c h) (rw e (refl, refl))
    | inr n ↦ rw (not_three c h, h, not_two c h) (rw n (refl, refl))
  ]
