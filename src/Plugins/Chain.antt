-- ===== src/Plugins/Chain.antt =====
-- plugins.js: the plugins of a hook, one after the other.
use mathlib.Core.List.{append_assoc, append-nil}
use haraka.Prelude.{
  ℕ, suc, ◌+◌, ◌≡◌, refl, sym, ap, ◌∙◌, false, none, some, List, [], ◌∷◌, ◌++◌, length,
  length-append, arith,
}
use haraka.Prelude.Text.{Text}
use haraka.Connection.Types.{Retval, cont}
use haraka.Plugins.{
  HookName, is_deny_hook, is_final, runs_all, is_cont, deny_hook, Item, Call, Runner, change,
  mark_called, start_next, run_next_hook, run_hooks, callback, Event, start, called, step, run,
}
use haraka.Plugins.Waiting.{fresh, Waits, length-mark_last, heard, goes_on, ends, runs_out}

module _ (registered : HookName → List Item) where
  -- CONT: the next plugin is called.
  next_waits :
      (hook : HookName) (params : Text) (item next : Item) (rest : List Item) (cs : List Call)
      (msg : Text) (s : Runner)
      → Waits hook params item (next ∷ rest) cs s
      → let t = callback registered (length cs) (some cont) msg s in
        let ds = change mark_called (length cs) s.calls in
        (length ds ≡ suc (length cs))
        × Waits hook params next rest ds t
        × (t.ran ≡ s.ran ++ next ∷ [])
        × (t.responses ≡ s.responses)
  unfolding start_next
  next_waits hook params item next rest cs msg s w =
      let marked : Runner = record s {
        current_hook = none;
        calls = change mark_called (length cs) s.calls;
      } in
      let e =
        heard registered hook params item (next ∷ rest) cs cont msg s w
        ∙ goes_on registered (fresh hook params item) next rest msg marked w.hooks in
      (
        ap (λ l. length (change mark_called (length cs) l)) w.calls
            ∙ length-mark_last cs (fresh hook params item)
            ∙ omega (arith, length-append cs (fresh hook params item ∷ [])),
        rw e (record { hooks = refl; calls = refl }),
        rw e,
        rw e,
      )

  -- The plugins before this one answer CONT, each in turn.
  abbrev pub conts : ℕ → List Item → List (Event registered)
  conts i [] = []
  conts i (b ∷ bs) = called i (some cont) [] ∷ conts (suc i) bs

  abbrev head : List Item → Item → Item
  head [] item = item
  head (b ∷ bs) item = b

  abbrev tail : List Item → Item → List Item → List Item
  tail [] item after = after
  tail (b ∷ bs) item after = bs ++ item ∷ after

  head-tail :
      (bs : List Item) (item : Item) (after : List Item)
      → bs ++ item ∷ after ≡ head bs item ∷ tail bs item after
  head-tail [] item after = refl
  head-tail (b ∷ bs) item after = refl

  run-append :
      (es fs : List (Event registered)) (s : Runner)
      → run registered (es ++ fs) s ≡ run registered fs (run registered es s)
  unfolding run
  run-append [] fs s = refl
  run-append (e ∷ es) fs s = run-append es fs (step registered e s)

  -- So the plugin itself is called, after each of these.
  record Reached (hook : HookName) (params : Text) (item : Item) (after : List Item) (n : ℕ)
      (s : Runner) (base : List Item) (t : Runner) : Type 0 where
    others : List Call
    place : length others ≡ n
    waits : Waits hook params item after others t
    ran : t.ran ≡ base ++ item ∷ []
    responses : t.responses ≡ s.responses

  walk :
      (hook : HookName) (params : Text) (before : List Item) (item : Item) (after : List Item)
      (cs : List Call) (i : ℕ) (base : List Item) (s : Runner)
      → i ≡ length cs
      → Waits hook params (head before item) (tail before item after) cs s
      → s.ran ≡ base ++ head before item ∷ []
      → Reached hook params item after
          (i + length before)
          s
          (base ++ before)
          (run registered (conts i before) s)
  unfolding run step
  walk hook params [] item after cs i base s e w r = record {
    others = cs;
    place = omega (arith, e);
    waits = w;
    ran = rw (append-nil base) r;
    responses = refl;
  }
  walk hook params (b ∷ bs) item after cs i base s e w r =
      let t = callback registered i (some cont) [] s in
      let w' : Waits hook params b (head bs item ∷ tail bs item after) cs s = record {
        hooks = w.hooks ∙ head-tail bs item after;
        calls = w.calls;
      } in
      let (place, waits, ran, same) =
        rw (← e) at (next_waits hook params b (head bs item) (tail bs item after) cs [] s w') in
      let ds = change mark_called i s.calls in
      let rest =
        walk hook params bs item after ds (suc i) (base ++ b ∷ []) t (sym place) waits
          (ran ∙ ap (λ (l : List Item). l ++ head bs item ∷ []) r) in
      record {
        others = rest.others;
        place = omega (arith, rest.place);
        waits = rest.waits;
        ran = rest.ran ∙ ap (λ (l : List Item). l ++ item ∷ []) (append_assoc base (b ∷ []) bs);
        responses = rest.responses ∙ same;
      }

  starts :
      (hook : HookName) (params : Text) (first : Item) (rest : List Item) (s : Runner)
      → registered hook ≡ first ∷ rest
      → s.hooks_to_run ≡ []
      → is_final hook ≡ false
      → let t = run_hooks registered hook params s in
        Waits hook params first rest s.calls t
        × (t.ran ≡ s.ran ++ first ∷ [])
        × (t.responses ≡ s.responses)
  unfolding run_hooks run_next_hook start_next
  starts hook params first rest s g e f = ground arith

  -- The run of a hook up to the call of this plugin.
  reached :
      (hook : HookName) (params : Text) (before : List Item) (item : Item) (after : List Item)
      (s : Runner)
      → registered hook ≡ before ++ item ∷ after
      → s.hooks_to_run ≡ []
      → is_final hook ≡ false
      → let n = length s.calls in
        Reached hook params item after
          (n + length before)
          s
          (s.ran ++ before)
          (run registered (start hook params ∷ conts n before) s)
  unfolding run step
  reached hook params before item after s g e f =
      let (w, ran, same) =
        starts hook params (head before item) (tail before item after) s
          (g ∙ head-tail before item after) e f in
      let r =
        walk hook params before item after s.calls (length s.calls) s.ran
          (run_hooks registered hook params s) refl w ran in
      record {
        others = r.others;
        place = r.place;
        waits = r.waits;
        ran = r.ran;
        responses = r.responses ∙ same;
      }

  -- The first plugin that does not answer CONT decides: those before it were called, each once and in
  -- their order, then this one, and none behind it; the handler of the hook is told its answer, once. A
  -- denial is told at once where no plugin has the hook `deny`. (The hook is none of `connect_init`,
  -- `disconnect`, `reset_transaction` and `deny`, and no other runs.)
  pub run-decided :
      (hook : HookName) (params : Text) (before : List Item) (item : Item) (after : List Item)
      (retval : Retval) (msg : Text) (s : Runner)
      → registered hook ≡ before ++ item ∷ after
      → s.hooks_to_run ≡ []
      → is_final hook ≡ false
      → is_deny_hook hook ≡ false
      → runs_all hook ≡ false
      → is_cont retval ≡ false
      → registered deny_hook ≡ []
      → let n = length s.calls in
        let t =
          run registered
            ((start hook params ∷ conts n before)
              ++ called (n + length before) (some retval) msg ∷ [])
            s in
        (t.ran ≡ (s.ran ++ before) ++ item ∷ [])
        × (t.hooks_to_run ≡ [])
        × (t.responses
            ≡ s.responses
              ++ record { hook = hook; retval = retval; msg = msg; params = params } ∷ [])
  unfolding run step
  run-decided hook params before item after retval msg s g e f d a c n =
      let r = reached hook params before item after s g e f in
      let u = run registered (start hook params ∷ conts (length s.calls) before) s in
      let marked : Runner = record u {
        current_hook = none;
        calls = change mark_called (length r.others) u.calls;
      } in
      let path =
        run-append (start hook params ∷ conts (length s.calls) before)
          (called (length s.calls + length before) (some retval) msg ∷ []) s
        ∙ ap (λ i. callback registered i (some retval) msg u) (sym r.place)
        ∙ heard registered hook params item after r.others retval msg u r.waits in
      let (ran, hooks, told) = ends registered (fresh hook params item) retval msg marked d a c n in
      rw path (
        ran ∙ r.ran,
        hooks,
        told
            ∙ ap
                (λ l. l ++ record { hook = hook; retval = retval; msg = msg; params = params } ∷ [])
                r.responses,
      )

  -- Where all plugins answer CONT, the last one after the others, each was called once and in its order,
  -- and the handler is told CONT, once.
  pub run-all_cont :
      (hook : HookName) (params : Text) (before : List Item) (item : Item) (msg : Text) (s : Runner)
      → registered hook ≡ before ++ item ∷ []
      → s.hooks_to_run ≡ []
      → is_final hook ≡ false
      → is_deny_hook hook ≡ false
      → let n = length s.calls in
        let t =
          run registered
            ((start hook params ∷ conts n before)
              ++ called (n + length before) (some cont) msg ∷ [])
            s in
        (t.ran ≡ s.ran ++ registered hook)
        × (t.hooks_to_run ≡ [])
        × (t.responses
            ≡ s.responses ++ record { hook = hook; retval = cont; msg = msg; params = params } ∷ [])
  unfolding run step
  run-all_cont hook params before item msg s g e f d =
      let r = reached hook params before item [] s g e f in
      let u = run registered (start hook params ∷ conts (length s.calls) before) s in
      let marked : Runner = record u {
        current_hook = none;
        calls = change mark_called (length r.others) u.calls;
      } in
      let path =
        run-append (start hook params ∷ conts (length s.calls) before)
          (called (length s.calls + length before) (some cont) msg ∷ []) s
        ∙ ap (λ i. callback registered i (some cont) msg u) (sym r.place)
        ∙ heard registered hook params item [] r.others cont msg u r.waits in
      let (ran, hooks, told) =
        runs_out registered (fresh hook params item) msg marked d r.waits.hooks in
      rw path (
        ran ∙ r.ran ∙ append_assoc s.ran before (item ∷ []) ∙ ap (λ l. s.ran ++ l) (sym g),
        hooks,
        told
            ∙ ap (λ l. l ++ record { hook = hook; retval = cont; msg = msg; params = params } ∷ [])
                r.responses,
      )
