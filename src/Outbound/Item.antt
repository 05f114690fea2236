-- ===== src/Outbound/Item.antt =====
-- outbound.js: a mail of the queue, `HMailItem`, and what becomes of it: tried, deferred, bounced,
-- delivered, discarded.
use haraka.Prelude.{
  ℕ, ◌+◌, ◌*◌, ◌^◌, Bool, true, false, Option, none, some, List, [], ◌∷◌, ◌++◌, ◌==◌, leb, map,
  is_empty, if◌then◌else◌,
}
use haraka.Prelude.Text.{Text}
use haraka.Outbound.Names.{deferred_name}

-- What a plugin or the chain of a hook returns, as far as these handlers tell it apart.
pub data Verdict : Type 0 where
  cont ok deny denysoft delay other : Verdict

pub data DsnAction : Type 0 where
  delayed failed : DsnAction

-- A recipient, with the fields for its report; `dsn_status` is class, subject and detail.
pub record Rcpt : Type 0 where
  pub address : Text
  pub dsn_status : Option (ℕ × ℕ × ℕ)
  pub dsn_action : Option DsnAction

-- The part of the todo that is read here; `mail_from` is the user of that address, empty in a bounce.
pub record Todo : Type 0 where
  pub domain : Text
  pub mail_from : Text
  pub rcpt_to : List Rcpt

-- The reasons that are told apart: of a deferral, and of a bounce.
pub data Reason : Type 0 where
  given : Text → Reason
  too_many_failures : Reason → Reason
  requeue_error : Reason

-- What it does to the others.
pub data Effect : Type 0 where
  hook_send_email hook_delivered get_mx : Effect
  hook_bounce : Reason → Effect
  hook_deferred : ℕ → Reason → Effect
  next_cb unlink send_bounce threw : Effect
  push_after push_send_after : ℕ → Effect

-- What waits for `ready`.
pub data Waiting : Type 0 where
  to_send : Waiting
  to_bounce : Reason → Waiting

-- `refcount` is `taken` less `discards`, which can fall below 0.
pub record HmailItem : Type 0 where
  pub filename : Text
  pub num_failures : ℕ
  pub taken : ℕ
  pub discards : ℕ
  pub todo : Option Todo
  pub waiting : List Waiting
  pub bounce_error : Option Reason
  pub out : List Effect

-- `new HMailItem`, of a name that fits and its number of attempts.
unfoldable pub create : Text → ℕ → HmailItem
create filename attempts = record {
  filename = filename;
  num_failures = attempts;
  taken = 1;
  discards = 0;
  todo = none;
  waiting = [];
  bounce_error = none;
  out = [];
}

abbrev pub act : Effect → HmailItem → HmailItem
act e m = record m { out = m.out ++ (e ∷ []) }

-- `extend_rcpt_with_dsn`
unfoldable pub extend_rcpt_with_dsn : ℕ → ℕ → ℕ → Rcpt → Rcpt
extend_rcpt_with_dsn cls sub det r = record r {
  dsn_status = some (cls, sub, det);
  dsn_action = if cls == 4 then some delayed else (if cls == 5 then some failed else r.dsn_action);
}

-- `_bounce`, without the fields of `opts`
unfoldable pub bounce_now : Reason → HmailItem → HmailItem
bounce_now err m = act (hook_bounce err) (record m { bounce_error = some err })

unfoldable pub bounce : Reason → HmailItem → HmailItem
unfolding bounce_now
bounce err m = elim m.todo [
  | none ↦ record m { waiting = m.waiting ++ (to_bounce err ∷ []) }
  | some _ ↦ bounce_now err m
]

-- The status's first digit 4 becomes 5.
unfoldable pub fail_rcpt : Rcpt → Rcpt
fail_rcpt r = record r {
  dsn_action = some failed;
  dsn_status = elim r.dsn_status [
    | none ↦ none
    | some (cls, sub, det) ↦ some (if cls == 4 then 5 else cls, sub, det)
  ];
}

-- It reads `this.todo.rcpt_to`, also where no todo is read yet.
unfoldable pub convert_temp_failed_to_bounce : Reason → HmailItem → HmailItem
unfolding bounce fail_rcpt
convert_temp_failed_to_bounce err m = elim m.todo [
  | none ↦ act threw m
  | some t ↦ bounce err (record m { todo = some (record t { rcpt_to = map fail_rcpt t.rcpt_to }) })
]

-- `temp_fail`, `max` being `cfg.maxTempFailures`
unfoldable pub temp_fail : ℕ → Reason → HmailItem → HmailItem
unfolding convert_temp_failed_to_bounce
temp_fail max err m =
    let k = m.num_failures + 1 in
    let m' = record m { num_failures = k } in
    if leb max k
    then convert_temp_failed_to_bounce (too_many_failures err) m'
    else act (hook_deferred (2 ^ (k + 5)) err) m'

unfoldable pub discard : HmailItem → HmailItem
discard m =
    let m' = record m { discards = m.discards + 1 } in
    if m.taken == m.discards + 1 then act next_cb (act unlink m') else m'

unfoldable pub double_bounce : HmailItem → HmailItem
double_bounce m = act next_cb (act unlink m)

-- Behind `deferred_respond`'s first test, for `delay` in milliseconds at the time `now`: the file
-- gets its new name, if the system can give it.
unfoldable pub requeue : (ℕ → Text) → Bool → ℕ → ℕ → HmailItem → HmailItem
unfolding bounce deferred_name
requeue show renamed now ms m =
    if renamed
    then act (push_after ms) (
        act next_cb
          (record m { filename = deferred_name show (now + ms) m.num_failures m.filename }))
    else bounce requeue_error m

-- `deferred_respond`, of the delay in the hook's parameters and of `parseInt(msg)`, in seconds
unfoldable pub deferred_respond : (ℕ → Text) → Bool → ℕ → Verdict → ℕ → ℕ → HmailItem → HmailItem
unfolding requeue discard
deferred_respond show renamed now cont msg seconds m = requeue show renamed now (seconds * 1000) m
deferred_respond show renamed now denysoft msg seconds m = requeue show renamed now (msg * 1000) m
deferred_respond show renamed now ok msg seconds m = discard m
deferred_respond show renamed now deny msg seconds m = discard m
deferred_respond show renamed now delay msg seconds m = discard m
deferred_respond show renamed now other msg seconds m = discard m

-- The message of the bounce is not made, or `send_email` answers for it.
pub data Bounced : Type 0 where
  not_populated : Bounced
  answered : Verdict → Bounced

abbrev pub is_deny : Verdict → Bool
is_deny deny = true
is_deny v = false

unfoldable pub send_bounce_message : Bounced → HmailItem → HmailItem
unfolding double_bounce discard
send_bounce_message not_populated m = double_bounce m
send_bounce_message (answered v) m =
    if is_deny v then double_bounce (act send_bounce m) else discard (act send_bounce m)

abbrev pub is_cont : Verdict → Bool
is_cont cont = true
is_cont ok = false
is_cont deny = false
is_cont denysoft = false
is_cont delay = false
is_cont other = false

unfoldable pub bounce_respond : Verdict → Bounced → HmailItem → HmailItem
unfolding send_bounce_message discard double_bounce
bounce_respond v b m =
    if is_cont v
    then (elim m.todo [
      | none ↦ act threw m
      | some t ↦ if is_empty t.mail_from then double_bounce m else send_bounce_message b m
    ])
    else discard m

unfoldable pub delivered_respond : Verdict → HmailItem → HmailItem
unfolding discard
delivered_respond v m = discard m

-- `send` and `_send`; a disabled delivery tries again in a second.
unfoldable pub send : Bool → HmailItem → HmailItem
send disabled m = if disabled then act (push_send_after 1000) m else (elim m.todo [
  | none ↦ record m { waiting = m.waiting ++ (to_send ∷ []) }
  | some _ ↦ act hook_send_email m
])

unfoldable pub send_email_respond : Verdict → ℕ → HmailItem → HmailItem
send_email_respond delay seconds m = act (push_after (seconds * 1000)) (act next_cb m)
send_email_respond cont seconds m = act get_mx m
send_email_respond ok seconds m = act get_mx m
send_email_respond deny seconds m = act get_mx m
send_email_respond denysoft seconds m = act get_mx m
send_email_respond other seconds m = act get_mx m

abbrev pub wake : List Waiting → HmailItem → HmailItem
unfolding bounce_now
wake [] m = m
wake (to_send ∷ ws) m = wake ws (act hook_send_email m)
wake (to_bounce err ∷ ws) m = wake ws (bounce_now err m)

-- The todo is read: `ready` wakes what waits, in its order.
unfoldable pub ready : Todo → HmailItem → HmailItem
unfolding wake
ready t m = wake m.waiting (record m { todo = some t; waiting = [] })
