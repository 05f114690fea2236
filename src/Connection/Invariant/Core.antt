-- ===== src/Connection/Invariant/Core.antt =====
-- The invariant, and the low-level operations of connection.js that keep it.
use haraka.Prelude.{
  ℕ, ◌≤◌, ◌≡◌, refl, Bool, true, false, Option, none, some, List, [], ◌∷◌, ◌++◌, not, is_empty,
  arith, if◌then◌else◌,
}
use haraka.Prelude.Text.{Text}
use haraka.Env.{Env}
use haraka.Transaction.{Transaction, Count, create as create_transaction}
use haraka.Connection.Types.{
  State, looping, pause_data, disconnecting, disconnected, is_disconnected, ReplyLine, Message,
  absent, Connection, Calls, Hook, reset_transaction, disconnect_hook,
}
use haraka.Connection.Reply.{
  reply_lines, format_reply, pause_client, resume, set_resetting, reset_transaction_then,
  disconnect, fail, respond, write_reply, note_reject, reply_code, deny_tag, loop_respond, nothing,
  throw, deliver, then_process, reset_transaction_respond, start_transaction, init_transaction,
  disconnect_respond,
}

-- A reply as RFC 5321 has it: one code, and every line but the last says that more follow.
abbrev pub WellFormed : ℕ → List ReplyLine → Type 0
WellFormed code [] = Unit
WellFormed code (l ∷ ls) = (l.code ≡ code) × (l.more ≡ not (is_empty ls)) × WellFormed code ls

abbrev pub Replies : List (List ReplyLine) → Type 0
Replies [] = Unit
Replies (r ∷ rs) = ((code : ℕ) × WellFormed code r) × Replies rs

-- A state that `resume` may go back to: the client is not left paused, nor the end undone.
abbrev pub Resumable : Option State → Type 0
Resumable none = Unit
Resumable (some pause_data) = ⊥
Resumable (some disconnecting) = ⊥
Resumable (some disconnected) = ⊥
Resumable (some s) = Unit

-- The recipients counted in a transaction are counted in its connection.
abbrev pub Counted : Option Transaction → Count → Type 0
Counted none n = Unit
Counted (some t) n =
    (t.rcpt_count.accept ≤ n.accept)
    × (t.rcpt_count.tempfail ≤ n.tempfail)
    × (t.rcpt_count.reject ≤ n.reject)

pub record Inv (c : Connection) : Type 0 where
  pub replies : Replies c.client.sent
  pub resumable : Resumable c.prev_state
  pub counted : Counted c.transaction c.rcpt_count

abbrev pub Keeps : (Connection → Connection) → Type 0
Keeps f = (c : Connection) → Inv c → Inv (f c)

-- A continuation that a hook carries keeps the invariant.
abbrev pub HookKeeps : Hook → Type 0
HookKeeps (reset_transaction cb) = Keeps cb
HookKeeps h = Unit

pub record CallsKeep (calls : Calls) : Type 0 where
  pub input : Keeps calls.process_data
  pub hooks : (h : Hook) → HookKeeps h → Keeps (calls.run_hooks h)

pub format_reply-WellFormed :
    (code : ℕ) (tag : Option Text) (ms : List Text) → WellFormed code (format_reply code tag ms)
unfolding format_reply
format_reply-WellFormed code tag [] = tt
format_reply-WellFormed code tag (m ∷ ms) =
    (refl, is_empty-format m ms, format_reply-WellFormed code tag ms)
  where
    is_empty-format :
        (m : Text) (ms : List Text) → not (is_empty ms) ≡ not (is_empty (format_reply code tag ms))
    is_empty-format m [] = refl
    is_empty-format m (n ∷ ns) = refl

Replies-append :
    (rs : List (List ReplyLine)) (code : ℕ) (r : List ReplyLine)
    → WellFormed code r
    → Replies rs
    → Replies (rs ++ r ∷ [])
Replies-append [] code r w h = ((code, w), tt)
Replies-append (q ∷ rs) code r w h = (h.0, Replies-append rs code r w h.1)

pub nothing-Keeps : Keeps nothing
nothing-Keeps c h = h

pub throw-Keeps : Keeps throw
throw-Keeps c h = assumption

pub pause_client-Keeps : Keeps pause_client
unfolding pause_client
pause_client-Keeps c h = ground arith

pause_resetting-Inv :
    (c : Connection) (t : Transaction)
    → Inv c
    → c.transaction ≡ some t
    → Inv (record (pause_client c) { transaction = some (set_resetting t) })
unfolding pause_client
pause_resetting-Inv c t h e =
    let k : Counted (some t) c.rcpt_count = rw e at h.counted in ground arith

pub resume-Keeps : Keeps resume
unfolding resume
resume-Keeps c h = ground arith

-- The rule for a function that looks at the transaction first.
pub Option-elim-Inv :
    {A : Type 0} (o : Option A) (f : A → Connection) (d : Connection)
    → Inv d
    → ((a : A) → o ≡ some a → Inv (f a))
    → Inv (elim o [ none ↦ d | some a ↦ f a ])
Option-elim-Inv none f d h k = h
Option-elim-Inv (some a) f d h k = k a refl

pub if-Inv : (b : Bool) (x y : Connection) → Inv x → Inv y → Inv (if b then x else y)
if-Inv true x y h k = h
if-Inv false x y h k = k

pub write_reply-Keeps : (code : ℕ) (r : List ReplyLine) → WellFormed code r → Keeps (write_reply r)
unfolding write_reply
write_reply-Keeps code r w c h = record {
  replies = Replies-append c.client.sent code r w h.replies;
  resumable = h.resumable;
  counted = h.counted;
}

pub note_reject-Keeps : (code : ℕ) (ms : List Text) → Keeps (note_reject code ms)
unfolding note_reject
note_reject-Keeps code ms c h = ground arith

without_transaction : (c : Connection) → Inv c → Inv (record c { transaction = none })
without_transaction c h = record { replies = h.replies; resumable = h.resumable; counted = tt }

started : (env : Env) (c : Connection) → Inv c → Inv (start_transaction env c)
unfolding start_transaction create_transaction
started env c h = record { replies = h.replies; resumable = h.resumable; counted = omega arith }

module _ {calls : Calls} (k : CallsKeep calls) where
  pub reset-Keeps :
      (cb : Connection → Connection) → Keeps cb → Keeps (reset_transaction_then calls cb)
  unfolding reset_transaction_then
  reset-Keeps cb g c h = Option-elim-Inv c.transaction _ _ (g c h) (λ t e.
      if-Inv t.resetting _ _ (g _ (without_transaction c h))
        (k.hooks (reset_transaction cb) g _ (pause_resetting-Inv c t h e)))

  pub disconnect-Keeps : Keeps (disconnect calls)
  unfolding disconnect
  disconnect-Keeps c h =
      if-Inv _ _ _ h (
        reset-Keeps _ (k.hooks disconnect_hook tt) (record c { state = disconnecting })
          (assumption))

  pub fail-Keeps : Keeps (fail calls)
  unfolding fail
  fail-Keeps c h = disconnect-Keeps (record c { hooks_to_run = [] }) (assumption)

  deliver-Keeps :
      (code : ℕ) (ms : List Text) (func : Connection → Connection)
      → Keeps func
      → Keeps (deliver calls code ms func)
  unfolding deliver
  deliver-Keeps code ms func g c h =
      let c' = note_reject code ms c in
      let h' = note_reject-Keeps code ms c h in
      let reply = format_reply code (deny_tag code c) ms in
      let w =
        write_reply-Keeps code reply (format_reply-WellFormed code (deny_tag code c) ms) c' h' in
      let d = func (write_reply reply c') in
      let sent = if-Inv d.fault d (calls.process_data d) (g _ w) (k.input d (g _ w)) in
      if-Inv (is_disconnected c.state) (func c) _ (g c h)
        (if-Inv c.client.writable (then_process calls d) (fail calls c') sent (fail-Keeps c' h'))

  pub respond-Keeps :
      (code : ℕ) (msg : Message) (func : Connection → Connection)
      → Keeps func
      → Keeps (respond calls code msg func)
  unfolding respond
  respond-Keeps code absent func g c h =
      if-Inv (is_disconnected c.state) (func c) (throw c) (g c h) (throw-Keeps c h)
  respond-Keeps code msg func g c h =
      let k = reply_code code msg in deliver-Keeps k (reply_lines k msg) func g c h

  pub loop_respond-Keeps : (code : ℕ) (msg : Message) → Keeps (loop_respond calls code msg)
  unfolding loop_respond
  loop_respond-Keeps code msg c h = if-Inv _ _ _ h (
      respond-Keeps code msg nothing nothing-Keeps
        (record c { state = looping; loop_code = code; loop_msg = msg }) (assumption))

  pub init-Keeps :
      (env : Env) (cb : Connection → Connection) → Keeps cb → Keeps (init_transaction calls env cb)
  unfolding init_transaction
  init-Keeps env cb g = reset-Keeps _ (λ c h. g _ (started env c h))

pub reset_respond-Keeps :
    (cb : Connection → Connection) → Keeps cb → Keeps (reset_transaction_respond cb)
unfolding reset_transaction_respond
reset_respond-Keeps cb g c h = resume-Keeps _ (g _ (without_transaction c h))

pub disconnect_respond-Keeps : Keeps disconnect_respond
unfolding disconnect_respond
disconnect_respond-Keeps c h = assumption
