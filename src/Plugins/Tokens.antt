-- ===== src/Plugins/Tokens.antt =====
-- plugins.js: every run of a hook's plugins is answered at most once.
use haraka.Prelude.{
  ℕ, suc, ◌+◌, ◌-◌, ◌≤◌, ◌≡◌, refl, true, false, Option, none, some, List, [], ◌∷◌, ◌&&◌, ◌||◌, not,
  length, get_elem?, is_empty, if◌then◌else◌, Bool-cases, Option-cases, inl, inr, arith,
}
use haraka.Prelude.Text.{Text, text}
use haraka.Connection.Types.{Retval, cont, denysoft}
use haraka.Plugins.{
  HookName, is_log, is_deny_hook, is_final, may_interrupt, deny_hook, Item, Call, Runner, idle,
  change, cancel_call, mark_called, cancel_current, run_next_hook, run_hooks, continue_with,
  callback, time_out, Event, start, called, timed_out, step, run,
}
use haraka.Plugins.Bounded.{
  Bounded, NoLogs-change, NoLogs-get, if-Bounded, is_live, live, live-change_cancel,
  live-change_mark, respond-Bounded, start_next-Bounded,
}

run_next_hook-Bounded :
    (n : ℕ) (hook : HookName) (params : Text) (q : List Item) (s : Runner)
    → is_log hook ≡ false
    → Bounded n s
    → Bounded (n + 1) (run_next_hook hook params q s)
unfolding run_next_hook
run_next_hook-Bounded n hook params [] s l b =
    respond-Bounded n hook cont [] params (record s { current_hook = none; hooks_to_run = [] })
      (record { weight = b.weight; calls = b.calls; denial = b.denial })
run_next_hook-Bounded n hook params (item ∷ rest) s l b =
    start_next-Bounded n hook params item rest s l b

cancelled-Bounded :
    (n : ℕ) (o : Option ℕ) (s : Runner)
    → Bounded n s
    → Bounded n (elim o [ none ↦ s | some i ↦ record s { calls = change cancel_call i s.calls } ])
cancelled-Bounded n none s b = b
cancelled-Bounded n (some i) s b = record {
  weight = omega (arith, b.weight, live-change_cancel i s.calls);
  calls = NoLogs-change cancel_call i s.calls (λ c. refl) b.calls;
  denial = b.denial;
}

cancel_current-Bounded : (n : ℕ) (s : Runner) → Bounded n s → Bounded n (cancel_current s)
unfolding cancel_current
cancel_current-Bounded n s b = cancelled-Bounded n s.current_hook s b

module _ (registered : HookName → List Item) where
  run_hooks-Bounded :
      (n : ℕ) (hook : HookName) (params : Text) (s : Runner)
      → is_log hook ≡ false
      → Bounded n s
      → Bounded (n + 1) (run_hooks registered hook params s)
  unfolding run_hooks
  run_hooks-Bounded n hook params s l b =
      let t = if is_final hook then cancel_current s else s in
      let k : Bounded n t = if-Bounded n (is_final hook) _ _ (cancel_current-Bounded n s b) b in
      let failed : Runner = record t { thrown = true } in
      let ready : Runner = record t {
        saved_hooks_to_run = if is_deny_hook hook then t.hooks_to_run else t.saved_hooks_to_run;
        hooks_to_run = registered hook;
      } in
      let f : Bounded (n + 1) failed = record {
        weight = omega (arith, k.weight);
        calls = k.calls;
        denial = k.denial;
      } in
      if-Bounded (n + 1) (not (may_interrupt hook) && not (is_empty t.hooks_to_run)) failed _ f (
        run_next_hook-Bounded n hook params (registered hook) ready l
          (record { weight = k.weight; calls = k.calls; denial = k.denial }))

  continue_with-Bounded :
      (n : ℕ) (c : Call) (retval : Retval) (msg : Text) (s : Runner)
      → is_log c.hook ≡ false
      → Bounded n s
      → Bounded (n + 1) (continue_with registered c retval msg s)
  unfolding continue_with
  continue_with-Bounded n c retval msg s l b =
      if-Bounded (n + 1) _ _ _ (run_next_hook-Bounded n c.hook c.params s.hooks_to_run s l b) (
        if-Bounded (n + 1) _ _ _
          (run_hooks-Bounded n deny_hook []
            (record s {
              deny_respond =
                  some (record { hook = c.hook; params = c.params; retval = retval; msg = msg });
            })
            refl (record { weight = b.weight; calls = b.calls; denial = l }))
          (respond-Bounded n c.hook retval msg c.params (record s { hooks_to_run = [] })
            (record { weight = b.weight; calls = b.calls; denial = b.denial })))

  heard-Bounded :
      (n i : ℕ) (c : Call) (retval : Retval) (msg : Text) (s : Runner)
      → get_elem? s.calls i ≡ some c
      → is_live c ≡ true
      → Bounded n s
      → Bounded n (
          continue_with registered c retval msg
            (record s { current_hook = none; calls = change mark_called i s.calls }))
  heard-Bounded n i c retval msg s e l b =
      let marked : Runner = record s {
        current_hook = none;
        calls = change mark_called i s.calls;
      } in
      let m : Bounded (n - 1) marked = record {
        weight = omega (arith, b.weight, live-change_mark i s.calls c e l);
        calls = NoLogs-change mark_called i s.calls (λ d. refl) b.calls;
        denial = b.denial;
      } in
      let r =
        continue_with-Bounded (n - 1) c retval msg marked (NoLogs-get i s.calls c b.calls e) m in
      record {
        weight = omega (arith, r.weight, b.weight, live-change_mark i s.calls c e l);
        calls = r.calls;
        denial = r.denial;
      }

  -- A callback is heard of a live call only, if its hook is not the log's.
  heard-is_live :
      (c : Call)
      → is_log c.hook ≡ false
      → (c.cancelled || (c.called_once && not (is_log c.hook))) ≡ false
      → is_live c ≡ true
  heard-is_live c l h = ground arith

  callback-Bounded :
      (n i : ℕ) (retval : Option Retval) (msg : Text) (s : Runner)
      → Bounded n s
      → Bounded n (callback registered i retval msg s)
  unfolding callback
  callback-Bounded n i retval msg s b = elim (Option-cases (get_elem? s.calls i)) [
    | inl e ↦ rw (e, callback) b
    | inr (c, e) ↦ elim (Bool-cases (c.cancelled || (c.called_once && not (is_log c.hook)))) [
      | inl deaf ↦
          rw (e, callback)
            (rw deaf (record { weight = b.weight; calls = b.calls; denial = b.denial }))
      | inr heard ↦
          rw (e, callback)
            (rw heard (
              heard-Bounded n i c _ msg s e
                (heard-is_live c (NoLogs-get i s.calls c b.calls e) heard) b))
    ]
  ]

  -- The runs of hooks that were asked for.
  abbrev pub starts : List (Event registered) → ℕ
  starts [] = 0
  starts (start hook params ∷ es) = suc (starts es)
  starts (called i retval msg ∷ es) = starts es
  starts (timed_out i ∷ es) = starts es

  -- None of them is of the log.
  abbrev pub NoLogEvents : List (Event registered) → Type 0
  NoLogEvents [] = Unit
  NoLogEvents (start hook params ∷ es) = (is_log hook ≡ false) × NoLogEvents es
  NoLogEvents (called i retval msg ∷ es) = NoLogEvents es
  NoLogEvents (timed_out i ∷ es) = NoLogEvents es

  run-Bounded :
      (n : ℕ) (es : List (Event registered)) (s : Runner)
      → NoLogEvents es
      → Bounded n s
      → Bounded (n + starts es) (run registered es s)
  unfolding run step time_out
  run-Bounded n [] s l b = record {
    weight = omega (arith, b.weight);
    calls = b.calls;
    denial = b.denial;
  }
  run-Bounded n (start hook params ∷ es) s l b =
      let r = run-Bounded (n + 1) es _ l.1 (run_hooks-Bounded n hook params s l.0 b) in
      record { weight = omega (arith, r.weight); calls = r.calls; denial = r.denial }
  run-Bounded n (called i retval msg ∷ es) s l b =
      run-Bounded n es _ l (callback-Bounded n i retval msg s b)
  run-Bounded n (timed_out i ∷ es) s l b =
      run-Bounded n es _ l (callback-Bounded n i (some denysoft) (text "plugin timeout") s b)

  -- Whatever the plugins do (call back once, again, late or never, or deny and are overridden), and
  -- whichever hooks are run across one another, cancelled or timed out: no more responses are given than
  -- hooks were run, and those still to come are no more than the calls that are not yet answered.
  -- (The hook of the log, whose callbacks are not counted, is apart.)
  pub responses-le-starts :
      (es : List (Event registered))
      → NoLogEvents es
      → let s = run registered es idle in length s.responses + live s.calls ≤ starts es
  responses-le-starts es l =
      let b = run-Bounded 0 es idle l (record { weight = omega arith; calls = tt; denial = tt }) in
      omega (arith, b.weight)
