-- ===== src/Connection/Laws/Verdicts.antt =====
-- connection.js: what becomes of a recipient by the plugins' answer.
use mathlib.Core.Path.{subst}
use haraka.Prelude.{
  option-some, Bool-cases, inl, inr, ◌∙◌, ℕ, ◌≡◌, true, false, Bool, none, some, Option, List, [],
  ◌∷◌, ◌++◌, arith, ap, last?, init, init-append, last?-append, if◌then◌else◌,
}
use haraka.Prelude.Text.{Text}
use haraka.Env.{Address}
use haraka.Transaction.{Transaction, Count, Action, tempfail, reject, incr, no_count}
use haraka.Connection.Types.{
  Connection, Retval, cont, ok, deny, denysoft, denydisconnect, denysoftdisconnect, absent, Message,
  lines, array, dsn, is_disconnected,
}
use haraka.Connection.Reply.{
  respond, deliver, write_reply, note_reject, format_reply, deny_tag, or_text,
}
use haraka.Connection.Hooks.Envelope.{
  rcpt_respond, rcpt_switch, deny_rcpt, refuse_rcpt, pop_rcpt, rcpt_incr, relayed, not_relayed,
}
use haraka.Connection.Laws.Flow.{idle}

-- The recipients of the transaction.
abbrev pub rcpts : Connection → List Address
rcpts c = elim c.transaction [ none ↦ [] | some t ↦ t.rcpt_to ]

-- How the recipients of the transaction were answered.
abbrev pub rcpt_counts : Connection → Count
rcpt_counts c = elim c.transaction [ none ↦ no_count | some t ↦ t.rcpt_count ]

-- A recipient that is refused is the last of the list, and is taken off it.
refused :
    (a : Action) (s : Address) (m : Message) (c : Connection) (t : Transaction)
    → c.transaction ≡ some t
    → rcpts (refuse_rcpt a s m c) ≡ init t.rcpt_to
unfolding refuse_rcpt pop_rcpt rcpt_incr
refused a s m c t e = ground arith

abbrev pub IsPresent : Message → Type 0
IsPresent absent = ⊥
IsPresent m = Unit

pub or_text-IsPresent : (m : Message) (t : Text) → IsPresent (or_text m t)
or_text-IsPresent absent t = tt
or_text-IsPresent (lines ms) t = tt
or_text-IsPresent (array ms) t = tt
or_text-IsPresent (dsn k ms) t = tt

-- What `respond` hands to its closure, apart from the reply: the counts and the transaction.
pub record Alike (c d : Connection) : Type 0 where
  pub transaction : d.transaction ≡ c.transaction
  pub rcpt_count : d.rcpt_count ≡ c.rcpt_count
  pub msg_count : d.msg_count ≡ c.msg_count

written-Alike :
    (code k : ℕ) (tag : Option Text) (ms : List Text) (c : Connection)
    → Alike c (write_reply (format_reply k tag ms) (note_reject code ms c))
unfolding write_reply note_reject
written-Alike code k tag ms c = ground arith

if-both {ℓ} : {A : Type 0} (P : A → Type ℓ) (b : Bool) (x : A) → P x → P (if b then x else x)
if-both P true x h = h
if-both P false x h = h

if-first {ℓ} :
    {A : Type 0} (P : A → Type ℓ) (b : Bool) (x y : A) → b ≡ true → P x → P (if b then x else y)
if-first P true x y e h = h
if-first P false x y e h = cc

if-second {ℓ} :
    {A : Type 0} (P : A → Type ℓ) (b : Bool) (x y : A) → b ≡ false → P y → P (if b then x else y)
if-second P true x y e h = cc
if-second P false x y e h = h

-- To an open socket, `respond` writes, and then its closure runs.
pub record IsOpen (c : Connection) : Type 0 where
  pub alive : is_disconnected c.state ≡ false
  pub writable : c.client.writable ≡ true

deliver_after :
    (P : Connection → Type 0) (code : ℕ) (ms : List Text) (f : Connection → Connection)
    (c : Connection)
    → IsOpen c
    → ((d : Connection) → Alike c d → P (f d))
    → P (deliver idle code ms f c)
unfolding deliver
deliver_after P code ms f c o h =
    let d = write_reply (format_reply code (deny_tag code c) ms) (note_reject code ms c) in
    if-second P _ _ _ o.alive (
      if-first P _ _ _ o.writable
        (if-both P (f d).fault (f d) (h d (written-Alike code code (deny_tag code c) ms c))))

pub respond_after :
    (P : Connection → Type 0) (code : ℕ) (m : Message) (f : Connection → Connection)
    (c : Connection)
    → IsPresent m
    → IsOpen c
    → ((d : Connection) → Alike c d → P (f d))
    → P (respond idle code m f c)
unfolding respond
respond_after P code absent f c p o h = absurd p
respond_after P code m f c p o h = deliver_after P _ _ f c o h

-- The answers of the plugins by which a recipient is refused, and how it is counted.
abbrev pub refusal : Retval → Bool → Option Action
refusal deny relaying = some reject
refusal denysoft relaying = some tempfail
refusal denydisconnect relaying = none
refusal denysoftdisconnect relaying = none
refusal ok relaying = none
refusal cont relaying = if relaying then none else some reject
refusal r relaying = some reject

-- A recipient is off the list and is counted, in the connection and in the transaction.
pub record IsRefused (rs : List Address) (a : Action) (c : Connection) (t : Transaction)
    (d : Connection) : Type 0 where
  pub list : rcpts d ≡ rs
  pub count : d.rcpt_count ≡ incr a c.rcpt_count
  pub own_count : rcpt_counts d ≡ incr a t.rcpt_count

refuse_rcpt-IsRefused :
    (act : Action) (a : Address) (m : Message) (rs : List Address) (t : Transaction)
    (c d : Connection)
    → c.transaction ≡ some t
    → t.rcpt_to ≡ rs ++ a ∷ []
    → Alike c d
    → IsRefused rs act c t (refuse_rcpt act a m d)
unfolding refuse_rcpt pop_rcpt rcpt_incr
refuse_rcpt-IsRefused act a m rs t c d e l k =
    ground (arith, k.transaction, k.rcpt_count, ap init l, init-append rs a)

refuse_as :
    (b act : Action) (a : Address) (m : Message) (rs : List Address) (t : Transaction)
    (c : Connection)
    → c.transaction ≡ some t
    → t.rcpt_to ≡ rs ++ a ∷ []
    → some b ≡ some act
    → (d : Connection) → Alike c d
    → IsRefused rs act c t (refuse_rcpt b a m d)
refuse_as b act a m rs t c e l f d k =
    subst (λ (x : Action). IsRefused rs x c t (refuse_rcpt b a m d)) (cc)
      (refuse_rcpt-IsRefused b a m rs t c d e l k)

rcpt_switch-IsRefused :
    (r : Retval) (m : Message) (act : Action) (a : Address) (rs : List Address) (t : Transaction)
    (c : Connection)
    → c.transaction ≡ some t
    → t.rcpt_to ≡ rs ++ a ∷ []
    → IsOpen c
    → refusal r false ≡ some act
    → IsRefused rs act c t (rcpt_switch idle r m a c)
unfolding rcpt_switch deny_rcpt
rcpt_switch-IsRefused deny m act a rs t c e l o f =
    respond_after (IsRefused rs act c t) 550 _ _ c (or_text-IsPresent m _) o
      (refuse_as reject act a m rs t c e l f)
rcpt_switch-IsRefused denysoft m act a rs t c e l o f =
    respond_after (IsRefused rs act c t) 450 _ _ c (or_text-IsPresent m _) o
      (refuse_as tempfail act a m rs t c e l f)
rcpt_switch-IsRefused denydisconnect m act a rs t c e l o f = cc
rcpt_switch-IsRefused denysoftdisconnect m act a rs t c e l o f = cc
rcpt_switch-IsRefused ok m act a rs t c e l o f = cc
rcpt_switch-IsRefused _ m act a rs t c e l o f =
    respond_after (IsRefused rs act c t) 550 _ _ c tt o
      (refuse_as reject act a (not_relayed idle a) rs t c e l f)

relayed_switch :
    (r : Retval) (m : Message) (act : Action) (a : Address) (rs : List Address) (t : Transaction)
    (c : Connection)
    → c.transaction ≡ some t
    → t.rcpt_to ≡ rs ++ a ∷ []
    → IsOpen c
    → refusal r c.relaying ≡ some act
    → IsRefused rs act c t (rcpt_switch idle (relayed idle r c) m a c)
relayed_switch cont m act a rs t c e l o f = elim (Bool-cases c.relaying) [
  | inl relay ↦ let g : ◌≡◌ {A = Option Action} none (some act) = rw relay at f in cc
  | inr local ↦
      if-second (λ q. IsRefused rs act c t (rcpt_switch idle q m a c)) c.relaying ok cont local
        (rcpt_switch-IsRefused cont m act a rs t c e l o (rw local at f))
]
relayed_switch _ m act a rs t c e l o f = rcpt_switch-IsRefused _ m act a rs t c e l o f

-- A recipient that the plugins refuse, without ending the connection, is taken off the list of the
-- transaction, which is then as it was before RCPT, and is counted once: as tempfail for DENYSOFT and as
-- reject otherwise. CONT refuses unless the connection may relay. (The socket is open, and nothing
-- else happens meanwhile.)
pub rcpt_respond-IsRefused :
    (r : Retval) (m : Message) (act : Action) (a : Address) (rs : List Address) (t : Transaction)
    (c : Connection)
    → c.transaction ≡ some t
    → t.rcpt_to ≡ rs ++ a ∷ []
    → IsOpen c
    → refusal r c.relaying ≡ some act
    → IsRefused rs act c t (rcpt_respond idle r m c)
unfolding rcpt_respond
rcpt_respond-IsRefused r m act a rs t c e l o f =
    let P : Connection → Type 0 = IsRefused rs act c t in
    let last : last? t.rcpt_to ≡ some a = ap last? l ∙ last?-append rs a in
    option-some P c.transaction t _ _ e (
      option-some P c.transaction t _ _ e
        (option-some P (last? t.rcpt_to) a _ _ last (relayed_switch r m act a rs t c e l o f)))
