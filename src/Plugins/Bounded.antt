-- ===== src/Plugins/Bounded.antt =====
-- plugins.js: the calls that are not answered yet, and what may still be told.
use haraka.Prelude.{
  ℕ, zero, suc, ◌+◌, ◌≤◌, ◌≡◌, ap, ◌∙◌, Bool, true, false, Option, none, some, List, [], ◌∷◌, ◌++◌,
  ◌||◌, not, length, length-append, get_elem?, if◌then◌else◌, arith,
}
use haraka.Prelude.Text.{Text}
use haraka.Connection.Types.{Retval, cont}
use haraka.Plugins.{
  HookName, is_log, is_deny_hook, is_ok, Item, Call, Denial, Runner, change, cancel_call,
  mark_called, start_next, tell, run_denyfn, respond,
}

-- A call whose callback will be heard.
abbrev pub is_live : Call → Bool
is_live c = not (c.cancelled || c.called_once)

abbrev pub live : List Call → ℕ
live [] = 0
live (c ∷ cs) = (if is_live c then 1 else 0) + live cs

live-append : (cs ds : List Call) → live (cs ++ ds) ≡ live cs + live ds
live-append [] ds = omega arith
live-append (c ∷ cs) ds = omega (arith, live-append cs ds)

pub live-change_cancel : (i : ℕ) (cs : List Call) → live (change cancel_call i cs) ≤ live cs
unfolding change
live-change_cancel i [] = omega arith
live-change_cancel zero (c ∷ cs) = ground arith
live-change_cancel (suc i) (c ∷ cs) = omega (arith, live-change_cancel i cs)

pub live-change_mark :
    (i : ℕ) (cs : List Call) (c : Call)
    → get_elem? cs i ≡ some c
    → is_live c ≡ true
    → live (change mark_called i cs) + 1 ≡ live cs
unfolding change
live-change_mark i [] c e l = cc
live-change_mark zero (d ∷ cs) c e l = ground arith
live-change_mark (suc i) (d ∷ cs) c e l = omega (arith, live-change_mark i cs c e l)

-- The responses so far, and the calls that may still lead to one.
abbrev pub weight : Runner → ℕ
weight s = length s.responses + live s.calls

abbrev NoLogs : List Call → Type 0
NoLogs [] = Unit
NoLogs (c ∷ cs) = (is_log c.hook ≡ false) × NoLogs cs

NoLogs-append :
    (cs : List Call) (c : Call) → NoLogs cs → is_log c.hook ≡ false → NoLogs (cs ++ c ∷ [])
NoLogs-append [] c n e = (e, tt)
NoLogs-append (d ∷ cs) c n e = (n.0, NoLogs-append cs c n.1 e)

pub NoLogs-change :
    (f : Call → Call) (i : ℕ) (cs : List Call)
    → ((c : Call) → (f c).hook ≡ c.hook)
    → NoLogs cs
    → NoLogs (change f i cs)
unfolding change
NoLogs-change f i [] k n = tt
NoLogs-change f zero (c ∷ cs) k n = (ap is_log (k c) ∙ n.0, n.1)
NoLogs-change f (suc i) (c ∷ cs) k n = (n.0, NoLogs-change f i cs k n.1)

pub NoLogs-get :
    (i : ℕ) (cs : List Call) (c : Call)
    → NoLogs cs
    → get_elem? cs i ≡ some c
    → is_log c.hook ≡ false
NoLogs-get i [] c n e = cc
NoLogs-get zero (d ∷ cs) c n e = ground (arith, n.0)
NoLogs-get (suc i) (d ∷ cs) c n e = NoLogs-get i cs c n.1 e

abbrev NoLogDenial : Option Denial → Type 0
NoLogDenial none = Unit
NoLogDenial (some d) = is_log d.hook ≡ false

-- The hooks in use are none of the log's, and the weight is at most n.
pub record Bounded (n : ℕ) (s : Runner) : Type 0 where
  pub weight : weight s ≤ n
  pub calls : NoLogs s.calls
  pub denial : NoLogDenial s.deny_respond

pub start_next-Bounded :
    (n : ℕ) (hook : HookName) (params : Text) (item : Item) (rest : List Item) (s : Runner)
    → is_log hook ≡ false
    → Bounded n s
    → Bounded (n + 1) (start_next hook params item rest s)
unfolding start_next
start_next-Bounded n hook params item rest s l b = record {
  weight = omega (
    arith,
    b.weight,
    live-append s.calls (
        record { hook = hook; params = params; item = item; called_once = false; cancelled = false }
        ∷ []),
  );
  calls = NoLogs-append s.calls _ b.calls l;
  denial = b.denial;
}

tell-Bounded :
    (n : ℕ) (hook : HookName) (retval : Retval) (msg params : Text) (s : Runner)
    → Bounded n s
    → Bounded (n + 1) (tell hook retval msg params s)
unfolding tell
tell-Bounded n hook retval msg params s b = record {
  weight = omega (
    arith,
    b.weight,
    length-append s.responses
        (record { hook = hook; retval = retval; msg = msg; params = params } ∷ []),
  );
  calls = b.calls;
  denial = b.denial;
}

pub if-Bounded :
    (n : ℕ) (b : Bool) (s t : Runner) → Bounded n s → Bounded n t → Bounded n (if b then s else t)
if-Bounded n true s t h k = h
if-Bounded n false s t h k = k

grown : (n : ℕ) (s : Runner) → Bounded n s → Bounded (n + 1) s
grown n s b = record { weight = omega (arith, b.weight); calls = b.calls; denial = b.denial }

resumed-Bounded :
    (n : ℕ) (d : Denial) (q : List Item) (s : Runner)
    → is_log d.hook ≡ false
    → Bounded n s
    → Bounded (n + 1) (elim q [ [] ↦ s | item ∷ rest ↦ start_next d.hook d.params item rest s ])
resumed-Bounded n d [] s l b = grown n s b
resumed-Bounded n d (item ∷ rest) s l b = start_next-Bounded n d.hook d.params item rest s l b

run_denyfn-Bounded :
    (n : ℕ) (d : Denial) (retval : Retval) (msg : Text) (s : Runner)
    → is_log d.hook ≡ false
    → Bounded n s
    → Bounded (n + 1) (run_denyfn d retval msg s)
unfolding run_denyfn
run_denyfn-Bounded n d retval msg s l b =
    if-Bounded (n + 1) _ _ _ (resumed-Bounded n d s.saved_hooks_to_run s l b) (
      if-Bounded (n + 1) (is_deny_hook d.hook) _ _
        (record { weight = omega (arith, b.weight); calls = b.calls; denial = b.denial })
        (if-Bounded (n + 1) (is_ok retval) _ _ (tell-Bounded n d.hook cont msg d.params s b) (
          tell-Bounded n d.hook d.retval d.msg d.params
            (record s { saved_hooks_to_run = []; hooks_to_run = [] })
            (record { weight = b.weight; calls = b.calls; denial = b.denial }))))

denied-Bounded :
    (n : ℕ) (o : Option Denial) (retval : Retval) (msg : Text) (s : Runner)
    → NoLogDenial o
    → Bounded n s
    → Bounded
        (n + 1)
        (elim o [ none ↦ record s { thrown = true } | some d ↦ run_denyfn d retval msg s ])
denied-Bounded n none retval msg s l b = record {
  weight = omega (arith, b.weight);
  calls = b.calls;
  denial = b.denial;
}
denied-Bounded n (some d) retval msg s l b = run_denyfn-Bounded n d retval msg s l b

pub respond-Bounded :
    (n : ℕ) (hook : HookName) (retval : Retval) (msg params : Text) (s : Runner)
    → Bounded n s
    → Bounded (n + 1) (respond hook retval msg params s)
unfolding respond
respond-Bounded n hook retval msg params s b =
    if-Bounded (n + 1) (is_deny_hook hook) _ _
      (denied-Bounded n s.deny_respond retval msg s b.denial b)
      (tell-Bounded n hook retval msg params s b)
