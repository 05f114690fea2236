-- ===== src/Plugins.antt =====
-- plugins.js: the chain of plugins of one hook. Each call of `run_next_hook` has variables of its own,
-- which its callback sees: such a call is a record in the list of calls, known by its place there. A
-- plugin calls back in the same breath or later, once, never, or again and again; each of these is an
-- event. What the handler of a hook is told is kept in a log; what it does next is an event too. Since
-- `states.DISCONNECTING` is undefined, `client_disconnected` is false of every object.
pub mod Bounded
pub mod Tokens
pub mod Waiting
pub mod Chain
pub mod Overrides
use haraka.Prelude.{
  ℕ, zero, suc, ◌+◌, Bool, true, false, Option, none, some, List, [], ◌∷◌, ◌++◌, ◌&&◌, ◌||◌, not,
  length, get_elem?, is_empty, if◌then◌else◌,
}
use haraka.Prelude.Text.{Text, text}
use haraka.Connection.Types.{Retval, cont, ok, deny, denysoft, denydisconnect, denysoftdisconnect}

-- The hooks that `run_hooks` and its callback tell apart; `init` has a name that begins with `init_`.
pub data HookName : Type 0 where
  reset_transaction disconnect connect_init deny_hook log : HookName
  init named : Text → HookName

-- /^(reset_transaction|disconnect)$/
abbrev pub is_final : HookName → Bool
is_final reset_transaction = true
is_final disconnect = true
is_final h = false

-- /^(reset_transaction|disconnect|deny|log)$/
abbrev pub may_interrupt : HookName → Bool
may_interrupt reset_transaction = true
may_interrupt disconnect = true
may_interrupt deny_hook = true
may_interrupt log = true
may_interrupt h = false

-- /^(connect_init|disconnect)$/
abbrev pub runs_all : HookName → Bool
runs_all connect_init = true
runs_all disconnect = true
runs_all h = false

-- `hook.substr(0, 5) === 'init_'`
abbrev pub is_init : HookName → Bool
is_init (init name) = true
is_init h = false

abbrev pub is_log : HookName → Bool
is_log log = true
is_log h = false

abbrev pub is_deny_hook : HookName → Bool
is_deny_hook deny_hook = true
is_deny_hook h = false

-- `is_deny_retval`
unfoldable pub is_deny_retval : Retval → Bool
is_deny_retval deny = true
is_deny_retval denysoft = true
is_deny_retval denydisconnect = true
is_deny_retval denysoftdisconnect = true
is_deny_retval r = false

abbrev pub is_cont : Retval → Bool
is_cont cont = true
is_cont r = false

abbrev pub is_ok : Retval → Bool
is_ok ok = true
is_ok r = false

-- A plugin, and its method.
pub record Item : Type 0 where
  pub plugin : Text
  pub method : Text

-- A call of `run_next_hook` that called a plugin.
pub record Call : Type 0 where
  pub hook : HookName
  pub params : Text
  pub item : Item
  pub called_once : Bool
  pub cancelled : Bool

-- The closure that `get_denyfn` makes.
pub record Denial : Type 0 where
  pub hook : HookName
  pub params : Text
  pub retval : Retval
  pub msg : Text

-- `object[hook + '_respond'](retval, msg, params)`
pub record Response : Type 0 where
  pub hook : HookName
  pub retval : Retval
  pub msg : Text
  pub params : Text

-- The object whose hooks are run.
pub record Runner : Type 0 where
  pub hooks_to_run : List Item
  pub saved_hooks_to_run : List Item
  pub current_hook : Option ℕ
  pub deny_respond : Option Denial
  pub calls : List Call
  -- the plugins that were called, in order
  pub ran : List Item
  pub responses : List Response
  -- "We are already running hooks", or a `deny_respond` that calls itself without end
  pub thrown : Bool

abbrev pub idle : Runner
idle = record {
  hooks_to_run = [];
  saved_hooks_to_run = [];
  current_hook = none;
  deny_respond = none;
  calls = [];
  ran = [];
  responses = [];
  thrown = false;
}

-- The call at this place is changed.
unfoldable pub change : (Call → Call) → ℕ → List Call → List Call
change f i [] = []
change f zero (c ∷ cs) = f c ∷ cs
change f (suc i) (c ∷ cs) = c ∷ change f i cs

abbrev pub cancel_call : Call → Call
cancel_call c = record c { cancelled = true }

abbrev pub mark_called : Call → Call
mark_called c = record c { called_once = true }

-- `object.current_hook[2]()`
unfoldable pub cancel_current : Runner → Runner
unfolding change
cancel_current s = elim s.current_hook [
  | none ↦ s
  | some i ↦ record s { calls = change cancel_call i s.calls }
]

-- `run_next_hook`, where a plugin is left: it is taken off and called.
unfoldable pub start_next : HookName → Text → Item → List Item → Runner → Runner
start_next hook params item rest s = record s {
  hooks_to_run = rest;
  current_hook = some (length s.calls);
  calls =
      s.calls
      ++ record {
        hook = hook;
        params = params;
        item = item;
        called_once = false;
        cancelled = false;
      }
        ∷ [];
  ran = s.ran ++ item ∷ [];
}

-- The handler of a hook, if that is not `deny`.
unfoldable pub tell : HookName → Retval → Text → Text → Runner → Runner
tell hook retval msg params s = record s {
  responses =
      s.responses ++ record { hook = hook; retval = retval; msg = msg; params = params } ∷ [];
}

-- The closure of `get_denyfn` for a hook, and what the `deny` plugins answered. For the hook `deny`
-- itself it calls itself without end. The saved list that is taken up again stays the same array, from
-- which more is taken; `run_hooks` writes it anew before it is read again.
unfoldable pub run_denyfn : Denial → Retval → Text → Runner → Runner
unfolding start_next tell
run_denyfn d retval msg s =
    if is_ok retval && not (is_empty s.saved_hooks_to_run)
    then elim s.saved_hooks_to_run [ [] ↦ s | item ∷ rest ↦ start_next d.hook d.params item rest s ]
    else if is_deny_hook d.hook
    then record s { thrown = true }
    else if is_ok retval
    then tell d.hook cont msg d.params s
    else tell d.hook d.retval d.msg d.params
        (record s { saved_hooks_to_run = []; hooks_to_run = [] })

-- `object[respond_method](retval, msg, params)`
unfoldable pub respond : HookName → Retval → Text → Text → Runner → Runner
unfolding run_denyfn tell
respond hook retval msg params s =
    if is_deny_hook hook
    then elim s.deny_respond [
      | none ↦ record s { thrown = true }
      | some d ↦ run_denyfn d retval msg s
    ]
    else tell hook retval msg params s

-- `run_next_hook`. With no plugin left its callback runs at once, with no answer.
unfoldable pub run_next_hook : HookName → Text → List Item → Runner → Runner
unfolding start_next respond
run_next_hook hook params [] s =
    respond hook cont [] params (record s { current_hook = none; hooks_to_run = [] })
run_next_hook hook params (item ∷ rest) s = start_next hook params item rest s

module _ (registered : HookName → List Item) where
  -- `run_hooks`
  unfoldable pub run_hooks : HookName → Text → Runner → Runner
  unfolding cancel_current run_next_hook
  run_hooks hook params s =
      let s' = if is_final hook then cancel_current s else s in
      if not (may_interrupt hook) && not (is_empty s'.hooks_to_run)
      then record s' { thrown = true }
      else run_next_hook hook params (registered hook) (record s' {
        saved_hooks_to_run = if is_deny_hook hook then s'.hooks_to_run else s'.saved_hooks_to_run;
        hooks_to_run = registered hook;
      })

  -- The callback, from the test of `hooks_to_run` on.
  unfoldable pub continue_with : Call → Retval → Text → Runner → Runner
  unfolding run_next_hook is_deny_retval run_hooks respond
  continue_with c retval msg s =
      if not (is_empty s.hooks_to_run) && (is_cont retval || runs_all c.hook)
      then run_next_hook c.hook c.params s.hooks_to_run s
      else if is_deny_retval retval && not (is_init c.hook)
      then run_hooks deny_hook [] (record s {
        deny_respond =
            some (record { hook = c.hook; params = c.params; retval = retval; msg = msg });
      })
      else respond c.hook retval msg c.params (record s { hooks_to_run = [] })

  -- The callback of a call; `none` stands for no answer.
  unfoldable pub callback : ℕ → Option Retval → Text → Runner → Runner
  unfolding change continue_with
  callback i retval msg s = elim (get_elem? s.calls i) [
    | none ↦ s
    | some c ↦
        let s' = record s { current_hook = none } in
        if c.cancelled || (c.called_once && not (is_log c.hook))
        then s'
        else continue_with c (elim retval [ none ↦ cont | some r ↦ r ]) msg
            (record s' { calls = change mark_called i s.calls })
  ]

  -- The timer of a call.
  unfoldable pub time_out : ℕ → Runner → Runner
  unfolding callback text
  time_out i s = callback i (some denysoft) (text "plugin timeout") s

  pub data Event : Type 0 where
    start : HookName → Text → Event
    called : ℕ → Option Retval → Text → Event
    timed_out : ℕ → Event

  unfoldable pub step : Event → Runner → Runner
  unfolding run_hooks callback time_out
  step (start hook params) s = run_hooks hook params s
  step (called i retval msg) s = callback i retval msg s
  step (timed_out i) s = time_out i s

  unfoldable pub run : List Event → Runner → Runner
  unfolding step
  run [] s = s
  run (e ∷ es) s = run es (step e s)
