-- ===== src/DelayDeny/Order.antt =====
-- plugins/delay_deny.js: the delayed denials reach the recipients, in their order.
use mathlib.Core.List.{append_assoc, append-nil}
use haraka.Prelude.{◌≡◌, refl, sym, ap, ◌∙◌, true, false, List, [], ◌∷◌, ◌++◌}
use haraka.Prelude.Text.{Text}
use haraka.DelayDeny.{
  PiHook, rcpt, rcpt_ok, Params, Notes, Next, nothing, told, Settings, is_left, delay, hook_deny,
  is_rcpt_hook, apply_transaction, apply_delayed, hook_rcpt_ok,
}

-- The hook of each denial in turn.
unfoldable pub deny_all : (PiHook → Text) → Settings → List Params → Notes → Notes
unfolding hook_deny
deny_all name_of s [] n = n
deny_all name_of s (p ∷ ps) n = deny_all name_of s ps (hook_deny name_of s p n).1

-- The hook of each of some recipients, and what `next` was told.
unfoldable pub rcpt_ok_all : List Params → Notes → List Next
unfolding hook_rcpt_ok
rcpt_ok_all [] n = (hook_rcpt_ok n).0 ∷ []
rcpt_ok_all (p ∷ ps) n = (hook_rcpt_ok n).0 ∷ rcpt_ok_all ps (hook_rcpt_ok n).1

-- Denials of recipients that the settings do not leave alone.
abbrev pub AllOfRcpts : (PiHook → Text) → Settings → List Params → Type 0
AllOfRcpts name_of s [] = Unit
AllOfRcpts name_of s (p ∷ ps) =
    (is_left name_of s p ≡ false) × (is_rcpt_hook p.pi_hook ≡ true) × AllOfRcpts name_of s ps

abbrev pub answers : List Params → List Next
answers [] = nothing ∷ []
answers (p ∷ ps) = told p.retval p.msg ∷ answers ps

delay-transaction_pre :
    (h : PiHook) (p : Params) (n : Notes)
    → is_rcpt_hook h ≡ true
    → ((delay h p n).1.transaction_pre ≡ n.transaction_pre ++ (p ∷ []))
      × ((delay h p n).1.connection_pre ≡ n.connection_pre)
      × ((delay h p n).1.relaying ≡ n.relaying)
unfolding delay
delay-transaction_pre rcpt p n e = (refl, refl, refl)
delay-transaction_pre rcpt_ok p n e = (refl, refl, refl)
delay-transaction_pre h p n e = cc e

deny_all-transaction_pre :
    (name_of : PiHook → Text) (s : Settings) (ps : List Params) (n : Notes)
    → AllOfRcpts name_of s ps
    → ((deny_all name_of s ps n).transaction_pre ≡ n.transaction_pre ++ ps)
      × ((deny_all name_of s ps n).connection_pre ≡ n.connection_pre)
      × ((deny_all name_of s ps n).relaying ≡ n.relaying)
unfolding deny_all
deny_all-transaction_pre name_of s [] n a = (sym (append-nil n.transaction_pre), refl, refl)
deny_all-transaction_pre name_of s (p ∷ ps) n (left, of_rcpt, a) =
    let (t, c, r) = delay-transaction_pre p.pi_hook p n of_rcpt in
    let (t', c', r') = deny_all-transaction_pre name_of s ps (delay p.pi_hook p n).1 a in
    let e : hook_deny name_of s p n ≡ delay p.pi_hook p n = rw (hook_deny, left) refl in
    rw (deny_all, e)
      (t' ∙ ap (◌++ ps) t ∙ append_assoc n.transaction_pre (p ∷ []) ps, c' ∙ c, r' ∙ r)

abbrev AllRcptHooks : List Params → Type 0
AllRcptHooks [] = Unit
AllRcptHooks (p ∷ ps) = (is_rcpt_hook p.pi_hook ≡ true) × AllRcptHooks ps

of_rcpts :
    (name_of : PiHook → Text) (s : Settings) (ps : List Params)
    → AllOfRcpts name_of s ps
    → AllRcptHooks ps
of_rcpts name_of s [] a = tt
of_rcpts name_of s (p ∷ ps) (left, of_rcpt, a) = (of_rcpt, of_rcpts name_of s ps a)

rcpt_ok_all-answers :
    (ps : List Params) (n : Notes)
    → AllRcptHooks ps
    → n.relaying ≡ false
    → n.connection_pre ≡ []
    → n.transaction_pre ≡ ps
    → rcpt_ok_all ps n ≡ answers ps
unfolding rcpt_ok_all
rcpt_ok_all-answers [] n a r c t = rw (hook_rcpt_ok, r, apply_delayed, c, apply_transaction, t) refl
rcpt_ok_all-answers (p ∷ ps) n (h, a) r c t =
    let e : hook_rcpt_ok n ≡ (told p.retval p.msg, record n { transaction_pre = ps }) =
      rw (hook_rcpt_ok, r, apply_delayed, c, apply_transaction, t, h) refl in
    rw (e) (
      ap (told p.retval p.msg ∷◌)
        (rcpt_ok_all-answers ps (record n { transaction_pre = ps }) a r c refl))

-- Denials of recipients that the settings do not leave alone, of a client that may not relay, without a
-- denial of its connection or one that waits: the recipients that come to the hook `rcpt_ok` get them
-- in their order, one each, and the next one gets none.
pub delayed_in_order :
    (name_of : PiHook → Text) (s : Settings) (ps : List Params) (n : Notes)
    → AllOfRcpts name_of s ps
    → n.relaying ≡ false
    → n.connection_pre ≡ []
    → n.transaction_pre ≡ []
    → rcpt_ok_all ps (deny_all name_of s ps n) ≡ answers ps
delayed_in_order name_of s ps n a r c t =
    let (t', c', r') = deny_all-transaction_pre name_of s ps n a in
    rcpt_ok_all-answers ps (deny_all name_of s ps n) (of_rcpts name_of s ps a) (r' ∙ r) (c' ∙ c)
      (t' ∙ ap (◌++ ps) t)
