-- ===== src/Outbound/Retries.antt =====
-- outbound.js: a mail that fails again and again, and the end of a bounce.
use mathlib.Core.List.{append_assoc, append-nil}
use haraka.Prelude.{
  if_all, ℕ, zero, suc, ◌+◌, ◌*◌, ◌^◌, ◌<◌, ◌≤◌, ◌≡◌, ◌≢◌, ==_iff, refl, sym, ap, ◌∙◌, true, false,
  Option, none, some, List, [], ◌∷◌, ◌++◌, ◌==◌, ◌&&◌, not, leb, last?, last?-append, map, length,
  is_empty, if◌then◌else◌, Bool-cases, inl, inr, arith,
}
use haraka.Prelude.Text.{Text}
use haraka.Outbound.Names.{deferred_name}
use haraka.Outbound.Item.{
  Verdict, cont, Reason, too_many_failures, Effect, next_cb, unlink, send_bounce, hook_bounce,
  hook_deferred, push_after, HmailItem, Todo, fail_rcpt, bounce, bounce_now, temp_fail,
  deferred_respond, requeue, discard, double_bounce, bounce_respond, convert_temp_failed_to_bounce,
  Bounced, not_populated, answered, is_deny, send_bounce_message, is_cont, act, ready, create,
}

-- The hook of a deferral that runs ends with CONT at the time `now`, and the file gets its new name.
unfoldable pub answer : (ℕ → Text) → ℕ → Option Effect → HmailItem → HmailItem
unfolding deferred_respond
answer show now none m = m
answer show now (some e) m = elim e [
  | hook_deferred seconds err ↦ deferred_respond show true now cont 0 seconds m
  | _ ↦ m
]

below : (max k : ℕ) → k < max → leb max k ≡ false
below max k h = ground arith

reached : (max k : ℕ) → k ≡ max → leb max k ≡ true
reached max k h = ground arith

equal : (a b : ℕ) → a ≡ b → (a == b) ≡ true
equal a b e = (==_iff a b).1 e

different : (a b : ℕ) → a ≢ b → (a == b) ≡ false
different a b e = ground arith

module _ (show : ℕ → Text) (max : ℕ) (err : Reason) where
  -- A deferral, and its hook.
  unfoldable pub fail_once : ℕ → HmailItem → HmailItem
  unfolding answer temp_fail
  fail_once now m = let m' = temp_fail max err m in answer show now (last? m'.out) m'

  -- Deferrals at these times.
  unfoldable pub fail_at : List ℕ → HmailItem → HmailItem
  unfolding fail_once
  fail_at [] m = m
  fail_at (now ∷ times) m = fail_at times (fail_once now m)

  -- The effects of deferrals, `i` deferrals before: the delay doubles each time.
  abbrev pub schedule : ℕ → ℕ → List Effect
  schedule i zero = []
  schedule i (suc n) =
      hook_deferred (2 ^ (i + 1 + 5)) err
      ∷ next_cb
      ∷ push_after (2 ^ (i + 1 + 5) * 1000)
      ∷ schedule (i + 1) n

  fail_once-below :
      (now : ℕ) (m : HmailItem)
      → m.num_failures + 1 < max
      → fail_once now m ≡ record m {
        filename =
            deferred_name show
              (now + 2 ^ (m.num_failures + 1 + 5) * 1000)
              (m.num_failures + 1)
              m.filename;
        num_failures = m.num_failures + 1;
        out = m.out ++ schedule m.num_failures 1;
      }
  unfolding fail_once temp_fail answer deferred_respond requeue
  fail_once-below now m lt = rw (below max (m.num_failures + 1) lt) (
      rw (last?-append m.out (hook_deferred (2 ^ (m.num_failures + 1 + 5)) err))
        (rw (append_assoc m.out _ _, append_assoc m.out _ _) refl))

  record Deferred (n : ℕ) (m m' : HmailItem) : Type 0 where
    out : m'.out ≡ m.out ++ schedule m.num_failures n
    count : m'.num_failures ≡ m.num_failures + n
    todo : m'.todo ≡ m.todo
    held : (m'.taken ≡ m.taken) × (m'.discards ≡ m.discards)

  fail_at-Deferred :
      (times : List ℕ) (m : HmailItem)
      → m.num_failures + length times < max
      → Deferred (length times) m (fail_at times m)
  unfolding fail_at
  fail_at-Deferred [] m lt = record {
    out = sym (append-nil m.out);
    count = omega arith;
    todo = refl;
    held = (refl, refl);
  }
  fail_at-Deferred (now ∷ times) m lt =
      let next = record m {
        filename =
            deferred_name show (now + 2 ^ (m.num_failures + 1 + 5) * 1000) (m.num_failures + 1)
              m.filename;
        num_failures = m.num_failures + 1;
        out = m.out ++ schedule m.num_failures 1;
      } in
      let d = fail_at-Deferred times next (omega (arith, lt)) in
      rw (fail_once-below now m (omega (arith, lt))) (record {
        out = d.out ∙ append_assoc m.out _ _;
        count = omega (arith, d.count);
        todo = d.todo;
        held = d.held;
      })

  temp_fail-last :
      (m : HmailItem) (t : Todo)
      → m.todo ≡ some t
      → m.num_failures + 1 ≡ max
      → ((temp_fail max err m).out ≡ m.out ++ (hook_bounce (too_many_failures err) ∷ []))
        × ((temp_fail max err m).todo ≡ some (record t { rcpt_to = map fail_rcpt t.rcpt_to }))
        × ((temp_fail max err m).num_failures ≡ m.num_failures + 1)
  unfolding temp_fail convert_temp_failed_to_bounce bounce bounce_now
  temp_fail-last m t td e =
      rw (reached max (m.num_failures + 1) e)
        (rw (convert_temp_failed_to_bounce, td) (refl, refl, refl))

  -- An item with its todo, as new, whose deferrals at these times are one fewer than the maximum:
  -- each goes to the hook with a delay of 2^6 seconds at first, and twice as many each time, ends the
  -- work and starts again after it. The next failure then bounces it, and all recipients have failed.
  pub exhausted :
      (times : List ℕ) (name : Text) (t : Todo)
      → length times + 1 ≡ max
      → let m = temp_fail max err (fail_at times (ready t (create name 0))) in
        (m.out ≡ schedule 0 (length times) ++ (hook_bounce (too_many_failures err) ∷ []))
        × (m.todo ≡ some (record t { rcpt_to = map fail_rcpt t.rcpt_to }))
        × (m.num_failures ≡ max)
  unfolding ready create
  exhausted times name t e =
      let new = ready t (create name 0) in
      let d = fail_at-Deferred times new (omega (arith, e)) in
      let (o, r, k) = temp_fail-last (fail_at times new) t d.todo (omega (arith, d.count, e)) in
      (
        o ∙ ap (◌++ (hook_bounce (too_many_failures err) ∷ [])) d.out,
        r,
        omega (arith, k, d.count, e),
      )

-- The end of an item: its file is removed and the work on it ends.
abbrev pub removal : List Effect
removal = unlink ∷ next_cb ∷ []

-- What `bounce_respond` does before that: nothing where a plugin keeps the bounce back, or the mail
-- was a bounce, or the message is not made.
abbrev pub sends : Bounced → List Effect
sends not_populated = []
sends (answered v) = send_bounce ∷ []

abbrev pub bounce_mail : Verdict → Bounced → Text → List Effect
bounce_mail v b user = if is_cont v && not (is_empty user) then sends b else []

discard-last : (m : HmailItem) → m.taken ≡ m.discards + 1 → (discard m).out ≡ m.out ++ removal
unfolding discard
discard-last m e = rw (equal m.taken (m.discards + 1) e) (append_assoc m.out _ _)

double_bounce-out : (m : HmailItem) → (double_bounce m).out ≡ m.out ++ removal
unfolding double_bounce
double_bounce-out m = append_assoc m.out _ _

send_bounce_message-out :
    (b : Bounced) (m : HmailItem)
    → m.taken ≡ m.discards + 1
    → (send_bounce_message b m).out ≡ m.out ++ (sends b ++ removal)
unfolding send_bounce_message
send_bounce_message-out not_populated m e = double_bounce-out m
send_bounce_message-out (answered v) m e =
    if_all (λ (d : HmailItem). d.out ≡ m.out ++ (send_bounce ∷ removal)) (is_deny v)
      (λ _. double_bounce-out (act send_bounce m) ∙ append_assoc m.out _ _)
      (λ _. discard-last (act send_bounce m) e ∙ append_assoc m.out _ _)

-- The answer to the hook of a bounce, of an item under its last reference: whatever it is, the file
-- is removed and the work ends, once each. Before that the message of the bounce is given to send_email,
-- once, if the hook goes on, the sender is not empty and the message is made, and else not. The mail is
-- removed also where send_email answers deny or denysoft, and so has queued nothing.
pub bounce_respond-out :
    (v : Verdict) (b : Bounced) (m : HmailItem) (t : Todo)
    → m.todo ≡ some t
    → m.taken ≡ m.discards + 1
    → (bounce_respond v b m).out ≡ m.out ++ (bounce_mail v b t.mail_from ++ removal)
unfolding bounce_respond
bounce_respond-out v b m t td e = elim (Bool-cases (is_cont v)) [
  | inl c ↦ elim (Bool-cases (is_empty t.mail_from)) [
    | inl null ↦ rw (bounce_respond, c, td) (rw null (double_bounce-out m))
    | inr user ↦ rw (bounce_respond, c, td) (rw user (send_bounce_message-out b m e))
  ]
  | inr n ↦ rw n (discard-last m e)
]

-- `discard`, some times.
unfoldable pub discard_times : ℕ → HmailItem → HmailItem
unfolding discard
discard_times zero m = m
discard_times (suc n) m = discard_times n (discard m)

discard-not_last :
    (m : HmailItem) → m.taken ≢ m.discards + 1 → discard m ≡ record m { discards = m.discards + 1 }
unfolding discard
discard-not_last m ne = rw (different m.taken (m.discards + 1) ne) refl

discarded : (m : HmailItem) → m.taken ≡ m.discards + 1 → (discard m).taken ≤ (discard m).discards
unfolding discard
discarded m e = rw (equal m.taken (m.discards + 1) e) (omega (arith, e))

discard_times-last :
    (n : ℕ) (m : HmailItem)
    → m.discards + suc n ≡ m.taken
    → ((discard_times (suc n) m).out ≡ m.out ++ removal)
      × ((discard_times (suc n) m).taken ≤ (discard_times (suc n) m).discards)
unfolding discard_times
discard_times-last zero m e = (discard-last m (omega (arith, e)), discarded m (omega (arith, e)))
discard_times-last (suc n) m e =
    rw (discard_times, discard-not_last m (omega (arith, e)))
      (discard_times-last n (record m { discards = m.discards + 1 }) (omega (arith, e)))

discard_times-past :
    (n : ℕ) (m : HmailItem) → m.taken ≤ m.discards → (discard_times n m).out ≡ m.out
unfolding discard_times
discard_times-past zero m le = refl
discard_times-past (suc n) m le =
    rw (discard_times, discard-not_last m (omega (arith, le)))
      (discard_times-past n (record m { discards = m.discards + 1 }) (omega (arith, le)))

-- As many discards as an item has references remove its file and end the work, once each, and
-- however many discards follow, no more is done.
pub discard_times-out :
    (n more : ℕ) (m : HmailItem)
    → m.discards + suc n ≡ m.taken
    → (discard_times more (discard_times (suc n) m)).out ≡ m.out ++ removal
discard_times-out n more m e =
    let (o, past) = discard_times-last n m e in
    discard_times-past more (discard_times (suc n) m) past ∙ o
