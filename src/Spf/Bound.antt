-- ===== src/Spf/Bound.antt =====
-- spf.js: no check counts more lookups than one past the limit.
use haraka.Prelude.{ℕ, zero, suc, ◌+◌, ◌≤◌, Bool, false, List, [], ◌∷◌, Bool-cases, inl, inr, arith}
use haraka.Prelude.Text.{Text, to_lower}
use haraka.Spf.Terms.{
  SpfResult, spf_none, neutral, Mechanism, include, Mech, Modifier, redirect, exp, unknown,
}
use haraka.Spf.Mechanisms.{World, has_name, Outcome, returned, threw, out_of_fuel}
use haraka.Spf.Check.{
  Visit, mech_include, run_mech, run_mod, chain_step, behind_link, mod_chain, mech_chain,
  check_host,
}
use haraka.Spf.Limit.{check_host-all}

-- At most eleven lookups are counted after a step.
abbrev Counted : Outcome × Visit → Type 0
Counted p = p.1.count ≤ 11

module _ (w : World) (is_valid : Text → Bool) (expand : Bool → Text → Text → Text) where
  run_mech-Counted :
      (check : Text → Visit → Outcome × Visit) (domain : Text) (k : Mechanism) (m : Mech)
      (v : Visit)
      → v.count ≤ 10
      → Counted (run_mech w is_valid expand check domain k m v)
  unfolding run_mech mech_include
  run_mech-Counted check domain include m v h = ground arith
  run_mech-Counted check domain k m v h = omega arith

  chain_step-Counted :
      (r : SpfResult) (next : Visit → Outcome × Visit) (v : Visit)
      → v.count ≤ 11
      → (v.count ≤ 10 → Counted (next v))
      → Counted (chain_step w is_valid expand r next v)
  chain_step-Counted spf_none next v h k = ground arith
  chain_step-Counted r next v h k = ground arith

  behind_link-Counted :
      (next : SpfResult → Visit → Outcome × Visit) (p : Outcome × Visit)
      → Counted p
      → ((r : SpfResult) (u : Visit) → u.count ≤ 11 → Counted (next r u))
      → Counted (behind_link w is_valid expand next p)
  behind_link-Counted next (returned r, u) l h = h r u l
  behind_link-Counted next (threw, u) l h = l
  behind_link-Counted next (out_of_fuel, u) l h = l

  module _ (self : Text → Visit → Outcome × Visit)
      (bounded : (domain : Text) (u : Visit) → u.count ≤ 11 → Counted (self domain u)) where
    run_mod-Counted :
        (md : Modifier) (value : Text) (v : Visit)
        → v.count ≤ 10
        → Counted (run_mod w is_valid expand self md value v)
    unfolding run_mod
    run_mod-Counted redirect value v h = elim (Bool-cases (has_name value v.been_there)) [
      | inl e ↦ rw e (omega arith)
      | inr n ↦ rw n (
          bounded value (record { count = v.count + 1; been_there = value ∷ v.been_there })
            (omega arith))
    ]
    run_mod-Counted exp value v h = omega arith
    run_mod-Counted unknown value v h = omega arith

    mod_chain-Counted :
        (mods : List (Modifier × Text)) (r : SpfResult) (v : Visit)
        → v.count ≤ 11
        → Counted (mod_chain w is_valid expand self mods r v)
    unfolding mod_chain
    mod_chain-Counted [] r v h = chain_step-Counted r (λ u. (returned neutral, u)) v h (λ l. h)
    mod_chain-Counted ((md, value) ∷ mods) r v h =
        chain_step-Counted r
          (λ u.
            behind_link w is_valid expand (mod_chain w is_valid expand self mods)
              (run_mod w is_valid expand self md value u))
          v h
          (λ l.
            behind_link-Counted (mod_chain w is_valid expand self mods)
              (run_mod w is_valid expand self md value v) (run_mod-Counted md value v l)
              (λ q u k. mod_chain-Counted mods q u k))

    mech_chain-Counted :
        (sub : Text → Visit → Outcome × Visit) (domain : Text) (mods : List (Modifier × Text))
        (ms : List Mech) (r : SpfResult) (v : Visit)
        → v.count ≤ 11
        → Counted (mech_chain w is_valid expand sub self domain mods ms r v)
    unfolding mech_chain
    mech_chain-Counted sub domain mods [] r v h =
        chain_step-Counted r (mod_chain w is_valid expand self mods spf_none) v h
          (λ l. mod_chain-Counted mods spf_none v h)
    mech_chain-Counted sub domain mods (m ∷ ms) r v h =
        chain_step-Counted r
          (λ u.
            behind_link w is_valid expand (mech_chain w is_valid expand sub self domain mods ms)
              (run_mech w is_valid expand sub domain m.kind m u))
          v h
          (λ l.
            behind_link-Counted (mech_chain w is_valid expand sub self domain mods ms)
              (run_mech w is_valid expand sub domain m.kind m v)
              (run_mech-Counted sub domain m.kind m v l)
              (λ q u k. mech_chain-Counted sub domain mods ms q u k))

  -- A check that starts with at most eleven counted lookups, with any fuel, ends with at most eleven
  -- counted, whatever records the domains have, include and redirect to.
  pub check_host-count :
      (n : ℕ) (first : Bool) (domain : Text) (v : Visit)
      → v.count ≤ 11
      → (check_host w is_valid expand n first domain v).1.count ≤ 11
  check_host-count zero first domain v h = unfold check_host in h
  check_host-count (suc n) first domain v h =
      check_host-all w is_valid expand Counted n first domain v (λ o e. h)
        (λ ms mods.
          mech_chain-Counted (check_host w is_valid expand n first)
            (λ d u k. check_host-count n first d u k) (check_host w is_valid expand n false)
            (to_lower domain) mods ms spf_none v h)
