-- ===== src/Spf/Chain.antt =====
-- spf.js: each link of a chain ends, and counts its lookups up.
use haraka.Prelude.{ℕ, ◌+◌, ◌≤◌, Bool, Option, List, [], ◌∷◌, drop, Bool-cases, inl, inr, arith}
use haraka.Prelude.Text.{Text}
use haraka.Spf.Terms.{
  SpfResult, spf_none, neutral, Mechanism, include, Mech, Modifier, redirect, exp, unknown,
}
use haraka.Spf.Mechanisms.{World, has_name, or_empty, Outcome, returned, threw, out_of_fuel}
use haraka.Spf.Ending.{Ends, Ends-Holds, run_mech-all}
use haraka.Spf.Check.{
  Visit, included, of_included, mech_include, run_mech, run_mod, chain_step, behind_link, mod_chain,
  mech_chain,
}

module _ (w : World) where
  -- Fuelled from a count on: the check ends if it is called with that count or a larger one.
  abbrev pub EndsFrom : ℕ → (Text → Visit → Outcome × Visit) → Type 0
  EndsFrom c check = (domain : Text) (u : Visit) → c ≤ u.count → Ends (check domain u).0

  abbrev pub Grows : (Text → Visit → Outcome × Visit) → Type 0
  Grows check = (domain : Text) (u : Visit) → u.count ≤ (check domain u).1.count

module _ (w : World) (is_valid : Text → Bool) (expand : Bool → Text → Text → Text) where
  of_included-Ends : (o : Outcome) → Ends o → Ends (of_included w is_valid expand o)
  unfolding included
  of_included-Ends (returned r) h = cc
  of_included-Ends threw h = cc
  of_included-Ends out_of_fuel h = h

  mech_include-Ends :
      (c : ℕ) (check : Text → Visit → Outcome × Visit) (args : Text) (v : Visit)
      → EndsFrom w c check
      → c ≤ v.count + 1
      → Ends (mech_include w is_valid expand check args v).0
  unfolding mech_include
  mech_include-Ends c check args v h l = elim (Bool-cases (has_name (drop 1 args) v.been_there)) [
    | inl e ↦ rw e cc
    | inr n ↦ rw n (
        of_included-Ends _ (
          h (drop 1 args)
            (record v { count = v.count + 1; been_there = drop 1 args ∷ v.been_there }) l))
  ]

  run_mech-Ends :
      (c : ℕ) (check : Text → Visit → Outcome × Visit) (domain : Text) (k : Mechanism) (q : ℕ)
      (args : Option Text) (v : Visit)
      → EndsFrom w c check
      → c ≤ v.count + 1
      → Ends
          (run_mech w is_valid expand check domain k
            (record { qualifier = q; kind = k; args = args })
            v).0
  unfolding run_mech
  run_mech-Ends c check domain include q args v h l =
      mech_include-Ends c check (or_empty args) v h l
  run_mech-Ends c check domain k q args v h l =
      run_mech-all w Ends q (Ends-Holds q) is_valid expand check domain k args v (cc)

  run_mech-grows :
      (check : Text → Visit → Outcome × Visit) (domain : Text) (k : Mechanism) (m : Mech)
      (v : Visit)
      → v.count ≤ (run_mech w is_valid expand check domain k m v).1.count
  unfolding run_mech mech_include
  run_mech-grows check domain include m v = ground arith
  run_mech-grows check domain k m v = omega arith

  chain_step-Ends :
      (r : SpfResult) (next : Visit → Outcome × Visit) (v : Visit)
      → Ends (next v).0
      → Ends (chain_step w is_valid expand r next v).0
  chain_step-Ends spf_none next v h = ground arith
  chain_step-Ends r next v h = ground arith

  chain_step-grows :
      (r : SpfResult) (next : Visit → Outcome × Visit) (v : Visit)
      → v.count ≤ (next v).1.count
      → v.count ≤ (chain_step w is_valid expand r next v).1.count
  chain_step-grows spf_none next v h = ground arith
  chain_step-grows r next v h = ground arith

  behind_link-Ends :
      (c : ℕ) (next : SpfResult → Visit → Outcome × Visit) (p : Outcome × Visit)
      → Ends p.0
      → c ≤ p.1.count
      → ((r : SpfResult) (u : Visit) → c ≤ u.count → Ends (next r u).0)
      → Ends (behind_link w is_valid expand next p).0
  behind_link-Ends c next (returned r, u) e l h = h r u l
  behind_link-Ends c next (threw, u) e l h = cc
  behind_link-Ends c next (out_of_fuel, u) e l h = e

  behind_link-grows :
      (c : ℕ) (next : SpfResult → Visit → Outcome × Visit) (p : Outcome × Visit)
      → c ≤ p.1.count
      → ((r : SpfResult) (u : Visit) → u.count ≤ (next r u).1.count)
      → c ≤ (behind_link w is_valid expand next p).1.count
  behind_link-grows c next (returned r, u) l h = omega (arith, l, h r u)
  behind_link-grows c next (threw, u) l h = l
  behind_link-grows c next (out_of_fuel, u) l h = l

  module _ (self : Text → Visit → Outcome × Visit) (grows : Grows w self) where
    run_mod-grows :
        (md : Modifier) (value : Text) (v : Visit)
        → v.count ≤ (run_mod w is_valid expand self md value v).1.count
    unfolding run_mod
    run_mod-grows redirect value v = elim (Bool-cases (has_name value v.been_there)) [
      | inl e ↦ rw e (omega arith)
      | inr n ↦ rw n (
          omega (
            arith,
            grows value (record { count = v.count + 1; been_there = value ∷ v.been_there }),
          ))
    ]
    run_mod-grows exp value v = omega arith
    run_mod-grows unknown value v = omega arith

    mod_chain-grows :
        (mods : List (Modifier × Text)) (r : SpfResult) (v : Visit)
        → v.count ≤ (mod_chain w is_valid expand self mods r v).1.count
    unfolding mod_chain
    mod_chain-grows [] r v = chain_step-grows r (λ u. (returned neutral, u)) v (omega arith)
    mod_chain-grows ((md, value) ∷ mods) r v =
        chain_step-grows r
          (λ u.
            behind_link w is_valid expand (mod_chain w is_valid expand self mods)
              (run_mod w is_valid expand self md value u))
          v
          (behind_link-grows v.count (mod_chain w is_valid expand self mods)
            (run_mod w is_valid expand self md value v) (run_mod-grows md value v)
            (λ q u. mod_chain-grows mods q u))

    pub mech_chain-grows :
        (sub : Text → Visit → Outcome × Visit) (domain : Text) (mods : List (Modifier × Text))
        (ms : List Mech) (r : SpfResult) (v : Visit)
        → v.count ≤ (mech_chain w is_valid expand sub self domain mods ms r v).1.count
    unfolding mech_chain
    mech_chain-grows sub domain mods [] r v =
        chain_step-grows r (mod_chain w is_valid expand self mods spf_none) v
          (mod_chain-grows mods spf_none v)
    mech_chain-grows sub domain mods (m ∷ ms) r v =
        chain_step-grows r
          (λ u.
            behind_link w is_valid expand (mech_chain w is_valid expand sub self domain mods ms)
              (run_mech w is_valid expand sub domain m.kind m u))
          v
          (behind_link-grows v.count (mech_chain w is_valid expand sub self domain mods ms)
            (run_mech w is_valid expand sub domain m.kind m v)
            (run_mech-grows sub domain m.kind m v) (λ q u. mech_chain-grows sub domain mods ms q u))

  module _ (c : ℕ) (self : Text → Visit → Outcome × Visit) (ends : EndsFrom w c self)
      (grows : Grows w self) where
    run_mod-Ends :
        (md : Modifier) (value : Text) (v : Visit)
        → c ≤ v.count + 1
        → Ends (run_mod w is_valid expand self md value v).0
    unfolding run_mod
    run_mod-Ends redirect value v l = elim (Bool-cases (has_name value v.been_there)) [
      | inl e ↦ rw e cc
      | inr n ↦
          rw n (ends value (record { count = v.count + 1; been_there = value ∷ v.been_there }) l)
    ]
    run_mod-Ends exp value v l = cc
    run_mod-Ends unknown value v l = cc

    mod_chain-Ends :
        (mods : List (Modifier × Text)) (r : SpfResult) (v : Visit)
        → c ≤ v.count + 1
        → Ends (mod_chain w is_valid expand self mods r v).0
    unfolding mod_chain
    mod_chain-Ends [] r v l = chain_step-Ends r (λ u. (returned neutral, u)) v (cc)
    mod_chain-Ends ((md, value) ∷ mods) r v l =
        chain_step-Ends r
          (λ u.
            behind_link w is_valid expand (mod_chain w is_valid expand self mods)
              (run_mod w is_valid expand self md value u))
          v
          (behind_link-Ends v.count (mod_chain w is_valid expand self mods)
            (run_mod w is_valid expand self md value v) (run_mod-Ends md value v l)
            (run_mod-grows self grows md value v)
            (λ q u k. mod_chain-Ends mods q u (omega (arith, l, k))))

    module _ (sub : Text → Visit → Outcome × Visit) (sub_ends : EndsFrom w c sub) (domain : Text)
        (mods : List (Modifier × Text)) where
      pub mech_chain-Ends :
          (ms : List Mech) (r : SpfResult) (v : Visit)
          → c ≤ v.count + 1
          → Ends (mech_chain w is_valid expand sub self domain mods ms r v).0
      unfolding mech_chain
      mech_chain-Ends [] r v l =
          chain_step-Ends r (mod_chain w is_valid expand self mods spf_none) v
            (mod_chain-Ends mods spf_none v l)
      mech_chain-Ends (m ∷ ms) r v l =
          chain_step-Ends r
            (λ u.
              behind_link w is_valid expand (mech_chain w is_valid expand sub self domain mods ms)
                (run_mech w is_valid expand sub domain m.kind m u))
            v
            (behind_link-Ends v.count (mech_chain w is_valid expand sub self domain mods ms)
              (run_mech w is_valid expand sub domain m.kind m v)
              (run_mech-Ends c sub domain m.kind m.qualifier m.args v sub_ends l)
              (run_mech-grows sub domain m.kind m v)
              (λ q u k. mech_chain-Ends ms q u (omega (arith, l, k))))
