-- ===== src/DelayDeny.antt =====
-- plugins/delay_deny.js: the denials before DATA are kept back until the recipients.
pub mod Order
use haraka.Prelude.{
  ℕ, ◌||◌, ◌&&◌, not, Bool, true, false, Option, none, some, List, [], ◌∷◌, ◌++◌, is_empty,
  if◌then◌else◌,
}
use haraka.Prelude.Text.{Text, text, text_eq}
use haraka.Connection.Types.{Retval, ok}

-- The hooks that `hook_deny` tells apart; their names are a parameter where a list has them.
pub data PiHook : Type 0 where
  lookup_rdns connect ehlo helo mail rcpt rcpt_ok data_hook data_post other : PiHook

-- `params` of the hook `deny`.
pub record Params : Type 0 where
  pub retval : Retval
  pub msg : Text
  pub pi_name : Text
  pub pi_function : Text
  pub pi_hook : PiHook

-- The notes: of the connection, and of the transaction. An array that is not there is empty; the
-- plugins that failed are keys, each once.
pub record Notes : Type 0 where
  pub relaying : Bool
  pub connection_pre : List Params
  pub connection_pre_fail : List Text
  pub transaction_pre : List Params
  pub transaction_pre_fail : List Text

-- What `next` is told: nothing, or a value with a message.
pub data Next : Type 0 where
  nothing override : Next
  told : Retval → Text → Next

-- `included_plugins` and `excluded_plugins`, split at /[;, ]+/; no setting is no list.
pub record Settings : Type 0 where
  pub included : List Text
  pub excluded : List Text

unfoldable pub has_name : Text → List Text → Bool
unfolding text_eq
has_name name [] = false
has_name name (n ∷ ns) = text_eq n name || has_name name ns

unfoldable pub add_key : Text → List Text → List Text
unfolding has_name
add_key name keys = if has_name name keys then keys else keys ++ (name ∷ [])

-- By the plugin, the plugin and the hook, or these and the function.
unfoldable pub is_listed : (PiHook → Text) → Params → List Text → Bool
unfolding has_name
is_listed name_of p l =
    has_name p.pi_name l
    || has_name (p.pi_name ++ (b':' ∷ name_of p.pi_hook)) l
    || has_name (p.pi_name ++ (b':' ∷ (name_of p.pi_hook ++ (b':' ∷ p.pi_function)))) l

unfoldable pub is_left : (PiHook → Text) → Settings → Params → Bool
unfolding text text_eq is_listed
is_left name_of s p =
    text_eq p.pi_name (text "delay_deny")
    || (if is_empty s.included
        then not (is_empty s.excluded) && is_listed name_of p s.excluded
        else not (is_listed name_of p s.included))

abbrev pub delay_connection : Params → Notes → Next × Notes
unfolding add_key
delay_connection p n = (
  override,
  record n {
    connection_pre = n.connection_pre ++ (p ∷ []);
    connection_pre_fail = add_key p.pi_name n.connection_pre_fail;
  },
)

abbrev pub delay_transaction : Params → Notes → Next × Notes
unfolding add_key
delay_transaction p n = (
  override,
  record n {
    transaction_pre = n.transaction_pre ++ (p ∷ []);
    transaction_pre_fail = add_key p.pi_name n.transaction_pre_fail;
  },
)

unfoldable pub delay : PiHook → Params → Notes → Next × Notes
unfolding delay_connection delay_transaction
delay lookup_rdns p n = delay_connection p n
delay connect p n = delay_connection p n
delay ehlo p n = delay_connection p n
delay helo p n = delay_connection p n
delay mail p n = delay_transaction p n
delay rcpt p n = delay_transaction p n
delay rcpt_ok p n = delay_transaction p n
delay data_hook p n = (nothing, n)
delay data_post p n = (nothing, n)
delay other p n = (nothing, n)

-- `hook_deny`
unfoldable pub hook_deny : (PiHook → Text) → Settings → Params → Notes → Next × Notes
unfolding is_left delay
hook_deny name_of s p n = if is_left name_of s p then (nothing, n) else delay p.pi_hook p n

abbrev pub is_rcpt_hook : PiHook → Bool
is_rcpt_hook rcpt = true
is_rcpt_hook rcpt_ok = true
is_rcpt_hook h = false

unfoldable pub apply_transaction : List Params → Notes → Next × Notes
apply_transaction [] n = (nothing, n)
apply_transaction (p ∷ ps) n =
    (told p.retval p.msg, if is_rcpt_hook p.pi_hook then record n { transaction_pre = ps } else n)

unfoldable pub apply_delayed : List Params → Notes → Next × Notes
unfolding apply_transaction
apply_delayed [] n = apply_transaction n.transaction_pre n
apply_delayed (p ∷ ps) n = (told p.retval p.msg, n)

-- `hook_rcpt_ok`
unfoldable pub hook_rcpt_ok : Notes → Next × Notes
unfolding apply_delayed
hook_rcpt_ok n = if n.relaying then (nothing, n) else apply_delayed n.connection_pre n

-- `hook_data`: what is in `fails`, of which the header is made if there is something in it. The names are
-- given to `apply` as the object and not as the arguments, so nothing is pushed.
unfoldable pub hook_data : Notes → List Text
hook_data n = []
