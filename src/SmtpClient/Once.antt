-- ===== src/SmtpClient/Once.antt =====
-- smtp_client.js: what is told to the hook, and what is written after it.
pub mod Steps
pub mod Listeners
pub mod Runs
use haraka.Prelude.{
  ℕ, zero, suc, ◌+◌, ◌≡◌, ◌≢◌, refl, Bool, true, false, Option, none, some, List, [], ◌∷◌, ◌++◌,
  ◌&&◌, ◌||◌, not, Bool-cases, inl, inr, arith, if_all, if◌then◌else◌,
}
use mathlib.Core.Path.{subst}
use haraka.Prelude.Text.{Text}
use haraka.Connection.Types.{Retval}
use haraka.SmtpClient.State.{
  State, idle, active, released, destroyed, is_destroyed, is_data, Command, greeting, ehlo, helo,
  xclient, starttls, auth, mail, rcpt, data_command, dot, rset, quit, other, Phase, plugin,
  releasing, pooled, Client, Action, wrote, piped, upgraded, told, pool_released, pool_destroyed,
  host_failed, threw, act, send_command, start_data, destroy, release, call_next, unless_dead,
}

abbrev is_rset : Command → Bool
is_rset rset = true
is_rset cmd = false

-- May this come, if the hook was answered already?
abbrev pub allowed : Bool → Action → Bool
allowed answered (wrote cmd args) = not answered || is_rset cmd
allowed answered piped = not answered
allowed answered (told r msg) = not answered
allowed answered a = true

abbrev pub is_told : Action → Bool
is_told (told r msg) = true
is_told a = false

-- At most one answer is told, and after it no command but RSET is written and no message is begun.
unfoldable pub answers_once : Bool → List Action → Bool
answers_once answered [] = true
answers_once answered (a ∷ l) = allowed answered a && answers_once (answered || is_told a) l

unfoldable pub is_answered : List Action → Bool
is_answered [] = false
is_answered (a ∷ l) = is_told a || is_answered l

or_assoc : (x y z : Bool) → ((x || y) || z) ≡ (x || (y || z))
or_assoc true y z = refl
or_assoc false y z = refl

is_answered-snoc :
    (l : List Action) (a : Action) → is_answered (l ++ (a ∷ [])) ≡ (is_answered l || is_told a)
unfolding is_answered
is_answered-snoc [] a = ground arith
is_answered-snoc (b ∷ l) a = rw (is_answered-snoc l a) (ground arith)

answers_once-snoc :
    (b : Bool) (l : List Action) (a : Action)
    → answers_once b l ≡ true
    → allowed (b || is_answered l) a ≡ true
    → answers_once b (l ++ (a ∷ [])) ≡ true
unfolding answers_once is_answered
answers_once-snoc b [] a h k = ground arith
answers_once-snoc b (x ∷ l) a h k =
    rw
      (answers_once-snoc (b || is_told x) l a (ground arith)
        (rw (or_assoc b (is_told x) (is_answered l)) k))
      (ground arith)

-- What is told and written so far is right, and `next` is there until it is told.
pub record Core (out : List Action) (has_next : Bool) : Type 0 where
  pub once : answers_once false out ≡ true
  pub pending : is_answered out ≡ not has_next

abbrev pub is_plugin : Phase → Bool
is_plugin plugin = true
is_plugin p = false

-- The plugin's listeners may be called; and between two events.
pub record Ready (c : Client) : Type 0 where
  pub core : Core c.out c.has_next
  pub asked : is_plugin c.phase ≡ true → c.has_next ≡ true

pub record Inv (c : Client) : Type 0 where
  pub core : Core c.out c.has_next
  pub asked : is_plugin c.phase ≡ true → is_destroyed c.state ≡ false → c.has_next ≡ true

pub Inv-Ready : (c : Client) → Inv c → is_destroyed c.state ≡ false → Ready c
Inv-Ready c h d = record { core = h.core; asked = λ p. h.asked p d }

pub Ready-Inv : (c : Client) → Ready c → Inv c
Ready-Inv c h = record { core = h.core; asked = λ p d. h.asked p }

pub act-Core :
    (a : Action) (out : List Action) (n : Bool)
    → Core out n
    → is_told a ≡ false
    → allowed (not n) a ≡ true
    → Core (out ++ (a ∷ [])) n
act-Core a out n h t k = record {
  once = answers_once-snoc false out a h.once (rw h.pending k);
  pending = rw (is_answered-snoc out a, t) (ground (arith, h.pending));
}

told-Core :
    (r : Option Retval) (msg : List Text) (out : List Action)
    → Core out true
    → Core (out ++ (told r msg ∷ [])) false
told-Core r msg out h = record {
  once = answers_once-snoc false out (told r msg) h.once (rw h.pending refl);
  pending = rw (is_answered-snoc out (told r msg)) (ground arith);
}

pub destroy-Core : (c : Client) → Core c.out c.has_next → Core (destroy c).out (destroy c).has_next
unfolding destroy
destroy-Core c h =
    if_all (λ (d : Client). Core d.out d.has_next) (is_destroyed c.state) (λ e. h)
      (λ e. act-Core pool_destroyed c.out c.has_next h refl refl)

pub call_next-Core :
    (r : Option Retval) (msg : List Text) (c : Client)
    → Core c.out c.has_next
    → Core (call_next r msg c).out (call_next r msg c).has_next
unfolding call_next
call_next-Core r msg c h =
    if_all (λ (d : Client). Core d.out d.has_next) c.has_next
      (λ e. told-Core r msg c.out (subst (Core c.out) e h)) (λ e. h)

pub destroy-destroyed : (c : Client) → is_destroyed (destroy c).state ≡ true
unfolding destroy
destroy-destroyed c = ground arith

pub destroy-Inv : (c : Client) → Core c.out c.has_next → Inv (destroy c)
destroy-Inv c h = record {
  core = destroy-Core c h;
  asked = λ p d. absurd (ground (arith, destroy-destroyed c));
}

sent-Inv :
    (c : Client)
    → Core c.out c.has_next
    → Inv (send_command rset none (record c { state = released; phase = releasing }))
unfolding send_command
sent-Inv c h = record {
  core = act-Core (wrote rset none) c.out c.has_next h refl (ground arith);
  asked = λ p. cc;
}

pub release-Inv : (c : Client) → Core c.out c.has_next → Inv (release c)
unfolding release
release-Inv c h =
    if_all Inv c.connected
      (λ e.
        if_all Inv (is_data c.command) (λ f. destroy-Inv c h)
          (λ f.
            if_all Inv (is_destroyed c.state)
              (λ d. record { core = h; asked = λ p n. absurd (ground (arith, d, n)) })
              (λ d. sent-Inv c h)))
      (λ e. destroy-Inv c h)
