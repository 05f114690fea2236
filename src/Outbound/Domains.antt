-- ===== src/Outbound/Domains.antt =====
-- outbound.js: the recipients that each domain's delivery has, and that a message is queued whole or
-- not at all.
use mathlib.Core.List.{append_assoc, append-nil}
use haraka.Prelude.{
  ℕ, suc, ◌+◌, ◌≡◌, refl, sym, ap, ◌∙◌, ◌⊎◌, Bool, true, false, Option, none, some, List, [], ◌∷◌,
  ◌++◌, length, if◌then◌else◌, Bool-cases, inl, inr, arith,
}
use haraka.Prelude.Text.{Text, text_eq, text_eq_refl, text_eq-true}
use haraka.Connection.Types.{Retval, ok, denysoft}
use haraka.Outbound.Recipients.{one_if, those}
use haraka.Outbound.Sending.{
  DomainRcpts, Queue, has_path, unlink_all, add_rcpt, by_domain, deliveries, process_deliveries,
  settle, send_trans_email,
}

module _ {ℓ} {A : Type ℓ} where
  -- The recipients of a domain: those of its delivery.
  abbrev pub rcpts_of : Text → List (DomainRcpts A) → List A
  rcpts_of d [] = []
  rcpts_of d (x ∷ m) = if text_eq x.domain d then x.rcpts else rcpts_of d m

  abbrev or_none : Option (List (DomainRcpts A)) → List (DomainRcpts A)
  or_none none = []
  or_none (some ds) = ds

text_eq-false : (s t u : Text) → text_eq s t ≡ false → text_eq s u ≡ true → text_eq t u ≡ false
text_eq-false s t u n e = elim (Bool-cases (text_eq t u)) [
  | inl y ↦ cc (n, e, text_eq-true t u y)
  | inr m ↦ m
]

module _ {ℓ} {A : Type ℓ} (host : A → Text) (inherited : Text → Bool)
    (key_order : List (DomainRcpts A) → List (DomainRcpts A)) where
  add_rcpt-rcpts_of :
      (d : Text) (r : A) (m : List (DomainRcpts A))
      → rcpts_of d (add_rcpt host inherited key_order r m)
        ≡ rcpts_of d m ++ one_if (text_eq (host r) d) r
  unfolding add_rcpt
  add_rcpt-rcpts_of d r [] = elim (Bool-cases (text_eq (host r) d)) [
    | inl e ↦ rw e refl
    | inr n ↦ rw n refl
  ]
  add_rcpt-rcpts_of d r (x ∷ m) = elim (Bool-cases (text_eq x.domain (host r))) [
    | inl same ↦ elim (Bool-cases (text_eq x.domain d)) [
      | inl e ↦
          rw (same, e, ap (λ k. text_eq k d) (sym (text_eq-true x.domain (host r) same)) ∙ e) refl
      | inr n ↦
          rw (same, n, ap (λ k. text_eq k d) (sym (text_eq-true x.domain (host r) same)) ∙ n)
            (sym (append-nil (rcpts_of d m)))
    ]
    | inr differs ↦ elim (Bool-cases (text_eq x.domain d)) [
      | inl e ↦
          rw (differs, e, text_eq-false x.domain (host r) d differs e) (sym (append-nil x.rcpts))
      | inr n ↦ rw (differs, n) (add_rcpt-rcpts_of d r m)
    ]
  ]

  by_domain-rcpts_of :
      (d : Text) (rs : List A) (m ds : List (DomainRcpts A))
      → by_domain host inherited key_order rs m ≡ some ds
      → rcpts_of d ds ≡ rcpts_of d m ++ those (λ r. text_eq (host r) d) rs
  unfolding by_domain
  by_domain-rcpts_of d [] m ds e =
      ap (rcpts_of d) (sym (ap or_none e)) ∙ sym (append-nil (rcpts_of d m))
  by_domain-rcpts_of d (r ∷ rs) m ds e = elim (Bool-cases (inherited (host r))) [
    | inl i ↦ cc (rw i at e)
    | inr n ↦
        by_domain-rcpts_of d rs (add_rcpt host inherited key_order r m) ds (rw n at e)
        ∙ ap (◌++ those (λ q. text_eq (host q) d) rs) (add_rcpt-rcpts_of d r m)
        ∙ append_assoc (rcpts_of d m) _ _
  ]

  -- Unless a host is a name that every object has, the recipients are put together by domain: the
  -- delivery of a domain, which there is if it has recipients, has those whose host it is, in their order.
  pub by_domain_lem :
      (d : Text) (rcpt_to : List A) (ds : List (DomainRcpts A))
      → by_domain host inherited key_order rcpt_to [] ≡ some ds
      → rcpts_of d ds ≡ those (λ r. text_eq (host r) d) rcpt_to
  by_domain_lem d rcpt_to ds e = by_domain-rcpts_of d rcpt_to [] ds e

has_path-mid : (before after : List Text) (f : Text) → has_path f (before ++ f ∷ after) ≡ true
unfolding has_path
has_path-mid [] after f = rw (text_eq_refl f) refl
has_path-mid (p ∷ before) after f = ground (arith, has_path-mid before after f)

unlink_all-append :
    (paths fs gs : List Text)
    → unlink_all paths (fs ++ gs) ≡ unlink_all paths fs ++ unlink_all paths gs
unfolding unlink_all
unlink_all-append paths [] gs = refl
unlink_all-append paths (f ∷ fs) gs = elim (Bool-cases (has_path f paths)) [
  | inl y ↦ rw y (unlink_all-append paths fs gs)
  | inr n ↦ rw n (ap (f ∷◌) (unlink_all-append paths fs gs))
]

unlink_all_self : (before after : List Text) → unlink_all (before ++ after) after ≡ []
unfolding unlink_all
unlink_all_self before [] = refl
unlink_all_self before (f ∷ after) = rw (has_path-mid before after f) (
    ap (λ l. unlink_all l after) (sym (append_assoc before (f ∷ []) after))
    ∙ unlink_all_self (before ++ f ∷ []) after)

-- How a message is queued: all its files are written and given to the delivery queue, or none is
-- given, and every file that the message wrote is removed.
abbrev pub WholeOrNone : ℕ → List Text → Queue → Retval × Queue → Type 0
WholeOrNone n paths q (answer, r) =
    ((answer ≡ ok)
      × (length paths ≡ n)
      × (r.files ≡ q.files ++ paths)
      × (r.delivery_queue ≡ q.delivery_queue ++ paths))
    ⊎ ((answer ≡ denysoft)
        × (r.files ≡ unlink_all paths q.files)
        × (r.delivery_queue ≡ q.delivery_queue))

settle-WholeOrNone :
    (n : ℕ) (p : List Text × Bool) (q : Queue)
    → (p.1 ≡ false → length p.0 ≡ n)
    → WholeOrNone n p.0 q (settle p q)
unfolding settle
settle-WholeOrNone n (paths, false) q l = inl (refl, l refl, refl, refl)
settle-WholeOrNone n (paths, true) q l = inr (
  refl,
  unlink_all-append paths q.files paths
      ∙ ap (unlink_all paths q.files ++◌) (unlink_all_self [] paths)
      ∙ append-nil _,
  refl,
)

module _ {ℓ} {A : Type ℓ} (host : A → Text) (inherited : Text → Bool)
    (key_order : List (DomainRcpts A) → List (DomainRcpts A)) where
  process_deliveries-length :
      (written : ℕ → Bool) (fname : ℕ → Text) (i : ℕ) (ds : List (DomainRcpts A))
      → (process_deliveries host inherited key_order written fname i ds).1 ≡ false
      → length (process_deliveries host inherited key_order written fname i ds).0 ≡ length ds
  unfolding process_deliveries
  process_deliveries-length written fname i [] e = refl
  process_deliveries-length written fname i (d ∷ ds) e = elim (Bool-cases (written i)) [
    | inl y ↦ rw y (ap suc (process_deliveries-length written fname (i + 1) ds (rw y at e)))
    | inr n ↦ cc (rw n at e)
  ]

  -- Whatever the recipients, unless one throws, and whichever file cannot be written: a message's
  -- deliveries are all queued, a file each, and the answer is ok; or none is, the answer is
  -- denysoft, and every file under the paths that were written is removed.
  pub send_trans_email-WholeOrNone :
      (always_split : Bool) (written : ℕ → Bool) (fname : ℕ → Text) (rcpt_to : List A) (q : Queue)
      (ds : List (DomainRcpts A))
      → deliveries host inherited key_order always_split rcpt_to ≡ some ds
      → let paths = (process_deliveries host inherited key_order written fname 1 ds).0 in
        (s : Retval × Queue) × (send_trans_email host inherited key_order always_split written fname
            rcpt_to q
          ≡ some s)
        × WholeOrNone (length ds) paths q s
  unfolding send_trans_email
  send_trans_email-WholeOrNone always_split written fname rcpt_to q ds e =
      let p = process_deliveries host inherited key_order written fname 1 ds in
      (
        settle p q,
        rw (send_trans_email, e) refl,
        settle-WholeOrNone (length ds) p q (process_deliveries-length written fname 1 ds),
      )
