-- ===== src/Tests/Hooks.antt =====
-- The chain of plugins, and the statuses, at concrete inputs.
use haraka.Prelude.{ℕ, ◌+◌, ◌≤◌, ◌≡◌, refl, false, none, some, List, [], ◌∷◌, ◌++◌, length}
use haraka.Prelude.Text.{Text, text, text_eq}
use haraka.Connection.Types.{cont, ok, deny}
use haraka.Plugins.{
  HookName, connect_init, deny_hook, named, Item, Call, Runner, Event, start, called, idle,
  callback, run,
}
use haraka.Plugins.Tokens.{responses-le-starts}
use haraka.Plugins.Bounded.{live}
use haraka.Plugins.Waiting.{Waits}
use haraka.Plugins.Chain.{conts, run-decided}
use haraka.Plugins.Overrides.{denial-overridden}
use haraka.Dsn.Statuses.{no_such_user}
use haraka.Dsn.{nothing, dsn, create as create_dsn}
use haraka.DelayDeny.{PiHook, rcpt, Params, Notes, Settings, is_left, is_listed, has_name}
use haraka.DelayDeny.Order.{AllOfRcpts, answers, rcpt_ok_all, deny_all, delayed_in_order}
use haraka.Dsn.Classes.{HasClass, dsn-is_code}

abbrev item : ℕ → Item
item n = record { plugin = n ∷ []; method = [] }

abbrev hook : HookName
hook = named (104 ∷ [])

-- Two plugins of every hook but `deny`.
abbrev two_plugins : HookName → List Item
two_plugins deny_hook = []
two_plugins h = item 1 ∷ item 2 ∷ []

-- The same, and one of `deny`.
abbrev with_deny : HookName → List Item
with_deny deny_hook = item 9 ∷ []
with_deny h = item 1 ∷ item 2 ∷ []

-- A hook is run, its first plugin calls back twice, and the second goes on.
abbrev twice : List (Event two_plugins)
twice = start hook [] ∷ called 0 none [] ∷ called 0 none [] ∷ called 1 none [] ∷ []

responses-le-starts_example :
    length (run two_plugins twice idle).responses + live (run two_plugins twice idle).calls ≤ 1
responses-le-starts_example = responses-le-starts two_plugins twice (refl, tt)

abbrev decided : Runner
decided =
    run two_plugins
      ((start hook [] ∷ conts two_plugins 0 (item 1 ∷ [])) ++ called 1 (some deny) [] ∷ []) idle

run-decided_example :
    (decided.ran ≡ ([] ++ item 1 ∷ []) ++ item 2 ∷ [])
    × (decided.hooks_to_run ≡ [])
    × (decided.responses ≡ [] ++ record { hook = hook; retval = deny; msg = []; params = [] } ∷ [])
run-decided_example =
    run-decided two_plugins hook [] (item 1 ∷ []) (item 2) [] deny [] idle refl refl refl refl refl
      refl refl

abbrev agreed : Runner
agreed =
    run two_plugins
      ((start hook [] ∷ conts two_plugins 0 (item 1 ∷ [])) ++ called 1 (some cont) [] ∷ []) idle

abbrev waiting : Runner
waiting = run with_deny (start hook [] ∷ []) idle

waiting-Waits : Waits hook [] (item 1) (item 2 ∷ []) [] waiting
unfolding run
waiting-Waits = record { hooks = refl; calls = refl }

abbrev overridden : Runner
overridden =
    callback with_deny 1 (some ok) (111 ∷ []) (callback with_deny 0 (some deny) (110 ∷ []) waiting)

denial-overridden_example :
    (ds : List Call) × Waits hook [] (item 2) [] ds overridden
    × (overridden.ran ≡ (waiting.ran ++ item 9 ∷ []) ++ item 2 ∷ [])
    × (overridden.responses ≡ waiting.responses)
unfolding haraka.Plugins.is_deny_retval
denial-overridden_example =
    denial-overridden with_deny hook [] (item 1) (item 9) (item 2) [] [] deny (110 ∷ []) (111 ∷ [])
      waiting waiting-Waits refl refl refl refl

abbrev shown : ℕ → Text
shown n = (48 + n) ∷ []

dsn-is_code_example :
    HasClass (dsn shown no_such_user nothing (some (text "999")))
    × HasClass (create_dsn shown (some (text "999")) nothing 1 1)
dsn-is_code_example = dsn-is_code shown no_such_user nothing (some (text "999")) 1 1

abbrev name_of : PiHook → Text
name_of h = []

abbrev all_delayed : Settings
all_delayed = record { included = []; excluded = [] }

-- A denial of a recipient by the plugin `a`.
abbrev rcpt_denial : Params
rcpt_denial = record {
  retval = deny;
  msg = 110 ∷ [];
  pi_name = 97 ∷ [];
  pi_function = [];
  pi_hook = rcpt;
}

abbrev no_notes : Notes
no_notes = record {
  relaying = false;
  connection_pre = [];
  connection_pre_fail = [];
  transaction_pre = [];
  transaction_pre_fail = [];
}

rcpt_denial_lem : AllOfRcpts name_of all_delayed (rcpt_denial ∷ [])
unfolding is_left is_listed text text_eq has_name
rcpt_denial_lem = (refl, refl, tt)

delayed_in_order_example :
    rcpt_ok_all (rcpt_denial ∷ []) (deny_all name_of all_delayed (rcpt_denial ∷ []) no_notes)
    ≡ answers (rcpt_denial ∷ [])
delayed_in_order_example =
    delayed_in_order name_of all_delayed (rcpt_denial ∷ []) no_notes rcpt_denial_lem refl refl refl
