-- ===== src/SmtpClient/Once/Steps.antt =====
-- smtp_client.js: the steps that listeners are made of.
use haraka.Prelude.{◌≡◌, refl, true, false, Option, none, some, not, arith, if_all}
use haraka.Prelude.Text.{Text}
use haraka.SmtpClient.State.{
  Command, Phase, plugin, releasing, pooled, Client, Action, wrote, act, send_command, unless_dead,
}
use haraka.SmtpClient.Once.{allowed, is_told, is_plugin, Ready, Inv, act-Core, release-Inv}

-- What each of those who listen does holds of what is done.
pub phase_all :
    (P : Client → Type 0) (p : Phase) {x y z : Client}
    → (is_plugin p ≡ true → P x)
    → P y
    → P z
    → P (elim p [ plugin ↦ x | releasing ↦ y | pooled ↦ z ])
phase_all P plugin h k l = h refl
phase_all P releasing h k l = k
phase_all P pooled h k l = l

pub option_all :
    (P : Client → Type 0) (o : Option Text) {x : Client} {f : Text → Client}
    → P x
    → ((t : Text) → P (f t))
    → P (elim o [ none ↦ x | some t ↦ f t ])
option_all P none h k = h
option_all P (some t) h k = k t

pub send-Ready :
    (cmd : Command) (args : Option Text) (c : Client)
    → Ready c
    → c.has_next ≡ true
    → Ready (send_command cmd args c)
unfolding send_command
send-Ready cmd args c h n = record {
  core = act-Core (wrote cmd args) c.out c.has_next h.core refl (ground (arith, n));
  asked = h.asked;
}

pub act-Ready :
    (a : Action) (c : Client)
    → Ready c
    → is_told a ≡ false
    → allowed (not c.has_next) a ≡ true
    → Ready (act a c)
act-Ready a c h t k = record { core = act-Core a c.out c.has_next h.core t k; asked = h.asked }

pub unless_dead-Inv :
    (f : Client → Client) (c : Client) → Ready c → Inv (f c) → Inv (unless_dead f c)
unfolding unless_dead
unless_dead-Inv f c h k = if_all Inv c.sender_gone (λ e. release-Inv c h.core) (λ e. k)
