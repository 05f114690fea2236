-- ===== src/Plugins/Overrides.antt =====
-- plugins.js: a denial that the hook `deny` takes back.
use haraka.Prelude.{
  suc, ◌≡◌, refl, sym, ap, ◌∙◌, true, false, none, some, List, [], ◌∷◌, ◌++◌, length, length-append,
  arith,
}
use haraka.Prelude.Text.{Text}
use haraka.Connection.Types.{Retval, ok}
use haraka.Plugins.{
  HookName, is_deny_hook, runs_all, is_init, deny_hook, Item, Call, Denial, Runner, change,
  mark_called, start_next, run_denyfn, respond, run_next_hook, run_hooks, continue_with, callback,
  is_deny_retval,
}
use haraka.Plugins.Waiting.{fresh, Waits, length-mark_last, heard}

module _ (registered : HookName → List Item) where
  denies :
      (c : Call) (retval : Retval) (msg : Text) (p : Item) (t : Runner)
      → is_deny_retval retval ≡ true
      → is_init c.hook ≡ false
      → runs_all c.hook ≡ false
      → registered deny_hook ≡ p ∷ []
      → let u = continue_with registered c retval msg t in
        Waits deny_hook [] p [] t.calls u
        × (u.saved_hooks_to_run ≡ t.hooks_to_run)
        × (u.deny_respond
            ≡ some (record { hook = c.hook; params = c.params; retval = retval; msg = msg }))
        × (u.ran ≡ t.ran ++ p ∷ [])
        × (u.responses ≡ t.responses)
  unfolding continue_with run_hooks run_next_hook start_next is_deny_retval
  denies c retval msg p t d i a n = ground arith

  takes_up :
      (c : Call) (msg : Text) (d : Denial) (next : Item) (rest : List Item) (t : Runner)
      → is_deny_hook c.hook ≡ true
      → t.hooks_to_run ≡ []
      → t.saved_hooks_to_run ≡ next ∷ rest
      → t.deny_respond ≡ some d
      → continue_with registered c ok msg t
        ≡ start_next d.hook d.params next rest (record t { hooks_to_run = [] })
  unfolding continue_with respond run_denyfn is_deny_retval
  takes_up c msg d next rest t b h s e = ground arith

  -- A denial that the plugin of the hook `deny` overrides by OK: the handler is told nothing, and the next
  -- plugin of the hook that was denied is called.
  pub denial-overridden :
      (hook : HookName) (params : Text) (item p next : Item) (rest : List Item) (cs : List Call)
      (retval : Retval) (msg reason : Text) (s : Runner)
      → Waits hook params item (next ∷ rest) cs s
      → is_deny_retval retval ≡ true
      → is_init hook ≡ false
      → runs_all hook ≡ false
      → registered deny_hook ≡ p ∷ []
      → let t = callback registered (length cs) (some retval) msg s in
        let u = callback registered (suc (length cs)) (some ok) reason t in
        (ds : List Call) × Waits hook params next rest ds u
        × (u.ran ≡ (s.ran ++ p ∷ []) ++ next ∷ [])
        × (u.responses ≡ s.responses)
  unfolding start_next
  denial-overridden hook params item p next rest cs retval msg reason s w d i a n =
      let t = callback registered (length cs) (some retval) msg s in
      let ds = change mark_called (length cs) s.calls in
      let marked : Runner = record s { current_hook = none; calls = ds } in
      let place : length ds ≡ suc (length cs) =
        ap (λ l. length (change mark_called (length cs) l)) w.calls
        ∙ length-mark_last cs (fresh hook params item)
        ∙ omega (arith, length-append cs (fresh hook params item ∷ [])) in
      let first = heard registered hook params item (next ∷ rest) cs retval msg s w in
      let (waits, saved, denial, ran, same) =
        rw (← first) at (denies (fresh hook params item) retval msg p marked d i a n) in
      let again : Runner = record t {
        current_hook = none;
        calls = change mark_called (length ds) t.calls;
      } in
      let c : Denial = record { hook = hook; params = params; retval = retval; msg = msg } in
      let path =
        ap (λ j. callback registered j (some ok) reason t) (sym place)
        ∙ heard registered deny_hook [] p [] ds ok reason t waits
        ∙ takes_up (fresh deny_hook [] p) reason c next rest again refl waits.hooks
            (saved ∙ w.hooks) denial in
      (
        change mark_called (length ds) t.calls,
        rw path (record { hooks = refl; calls = refl }),
        rw path (ap (λ (l : List Item). l ++ next ∷ []) ran),
        rw path same,
      )
