-- ===== src/Plugins/Waiting.antt =====
-- plugins.js: a plugin that is waited for, and what its callback leads to.
use haraka.Prelude.{
  suc, ◌≡◌, refl, ap, ◌∙◌, false, none, some, List, [], ◌∷◌, ◌++◌, length, get_elem?, arith,
}
use haraka.Prelude.Text.{Text}
use haraka.Connection.Types.{Retval, cont}
use haraka.Plugins.{
  HookName, is_deny_hook, runs_all, is_cont, deny_hook, Item, Call, Runner, change, mark_called,
  start_next, tell, run_denyfn, respond, run_next_hook, run_hooks, continue_with, callback,
}

-- The call that is made of the next plugin.
abbrev pub fresh : HookName → Text → Item → Call
fresh hook params item = record {
  hook = hook;
  params = params;
  item = item;
  called_once = false;
  cancelled = false;
}

-- A plugin of a hook was called and has not called back; `rest` is to come.
pub record Waits (hook : HookName) (params : Text) (item : Item) (rest : List Item) (cs : List Call)
    (s : Runner) : Type 0 where
  pub hooks : s.hooks_to_run ≡ rest
  pub calls : s.calls ≡ cs ++ fresh hook params item ∷ []

pub get_last : (cs : List Call) (c : Call) → get_elem? (cs ++ c ∷ []) (length cs) ≡ some c
get_last [] c = refl
get_last (d ∷ cs) c = get_last cs c

pub length-mark_last :
    (cs : List Call) (c : Call)
    → length (change mark_called (length cs) (cs ++ c ∷ [])) ≡ length (cs ++ c ∷ [])
unfolding change
length-mark_last [] c = refl
length-mark_last (d ∷ cs) c = ap suc (length-mark_last cs c)

-- What a callback of the plugin that is waited for leads to.
module _ (registered : HookName → List Item) where
  pub heard :
      (hook : HookName) (params : Text) (item : Item) (rest : List Item) (cs : List Call)
      (retval : Retval) (msg : Text) (s : Runner)
      → Waits hook params item rest cs s
      → callback registered (length cs) (some retval) msg s
        ≡ continue_with registered
            (fresh hook params item)
            retval
            msg
            (record s { current_hook = none; calls = change mark_called (length cs) s.calls })
  unfolding callback
  heard hook params item rest cs retval msg s w =
      let e : get_elem? s.calls (length cs) ≡ some (fresh hook params item) =
        ap (λ l. get_elem? l (length cs)) w.calls ∙ get_last cs (fresh hook params item) in
      rw (e, callback) refl

  pub goes_on :
      (c : Call) (next : Item) (rest : List Item) (msg : Text) (t : Runner)
      → t.hooks_to_run ≡ next ∷ rest
      → continue_with registered c cont msg t ≡ start_next c.hook c.params next rest t
  unfolding continue_with run_next_hook
  goes_on c next rest msg t e = ground arith

  pub ends :
      (c : Call) (retval : Retval) (msg : Text) (t : Runner)
      → is_deny_hook c.hook ≡ false
      → runs_all c.hook ≡ false
      → is_cont retval ≡ false
      → registered deny_hook ≡ []
      → let u = continue_with registered c retval msg t in
        (u.ran ≡ t.ran)
        × (u.hooks_to_run ≡ [])
        × (u.responses
            ≡ t.responses
              ++ record { hook = c.hook; retval = retval; msg = msg; params = c.params } ∷ [])
  unfolding continue_with run_hooks run_next_hook respond run_denyfn tell
  ends c retval msg t d r k n = ground arith

  pub runs_out :
      (c : Call) (msg : Text) (t : Runner)
      → is_deny_hook c.hook ≡ false
      → t.hooks_to_run ≡ []
      → let u = continue_with registered c cont msg t in
        (u.ran ≡ t.ran)
        × (u.hooks_to_run ≡ [])
        × (u.responses
            ≡ t.responses
              ++ record { hook = c.hook; retval = cont; msg = msg; params = c.params } ∷ [])
  unfolding continue_with respond tell
  runs_out c msg t d e = ground arith
