-- ===== src/Spf/NoPass.antt =====
-- spf.js: what a record of one's own can come to, when it trusts no other record.
use haraka.Prelude.{
  ℕ, zero, suc, ◌≡◌, ◌≢◌, refl, Bool, true, false, List, [], ◌∷◌, not, ◌==◌, ◌&&◌, ap, arith,
}
use haraka.Prelude.Text.{Text, to_lower}
use haraka.Spf.Terms.{
  return_const, SpfResult, spf_none, pass, neutral, Mechanism, include, Mech, Modifier, redirect,
  exp, unknown,
}
use haraka.Spf.Record.{no_record, record_text, find_record, terms, read_record}
use haraka.Spf.Mechanisms.{World, answers, Outcome, returned, threw, out_of_fuel}
use haraka.Spf.Ending.{Holds, run_mech-all}
use haraka.Spf.Check.{
  Visit, run_mech, run_mod, chain_step, behind_link, mod_chain, mech_chain, check_record,
  check_found, check_host,
}

-- Neither `+` nor another record's answer.
abbrev pub is_include : Mechanism → Bool
is_include include = true
is_include k = false

unfoldable pub trusts_none : List Mech → Bool
trusts_none [] = true
trusts_none (m ∷ ms) = not (m.qualifier == b'+') && not (is_include m.kind) && trusts_none ms

unfoldable pub has_no_redirect : List (Modifier × Text) → Bool
has_no_redirect [] = true
has_no_redirect ((redirect, t) ∷ mods) = false
has_no_redirect ((md, t) ∷ mods) = has_no_redirect mods

abbrev NoPass : Outcome → Type 0
NoPass o = o ≢ returned pass

return_const-pass : (q : ℕ) → not (q == b'+') ≡ true → return_const q ≢ pass
unfolding return_const
return_const-pass q e = ground arith

NoPass-Holds : (q : ℕ) → not (q == b'+') ≡ true → Holds NoPass q
NoPass-Holds q e = record {
  on_found = λ h. return_const-pass q e cc;
  on_none = cc;
  on_temp = cc;
  on_perm = cc;
  on_throw = cc;
}

not_include : (k : Mechanism) → not (is_include k) ≡ true → k ≢ include
not_include include h = cc
not_include k h = cc

module _ (w : World) (is_valid : Text → Bool) (expand : Bool → Text → Text → Text) where
  chain_step-NoPass :
      (r : SpfResult) (next : Visit → Outcome × Visit) (v : Visit)
      → r ≢ pass
      → NoPass (next v).0
      → NoPass (chain_step w is_valid expand r next v).0
  chain_step-NoPass spf_none next v e h = ground arith
  chain_step-NoPass r next v e h = ground arith

  behind_link-NoPass :
      (next : SpfResult → Visit → Outcome × Visit) (p : Outcome × Visit)
      → NoPass p.0
      → ((r : SpfResult) (u : Visit) → r ≢ pass → NoPass (next r u).0)
      → NoPass (behind_link w is_valid expand next p).0
  behind_link-NoPass next (returned r, u) e h = h r u (λ k. e (ap returned k))
  behind_link-NoPass next (threw, u) e h = cc
  behind_link-NoPass next (out_of_fuel, u) e h = cc

  mod_chain-NoPass :
      (self : Text → Visit → Outcome × Visit) (mods : List (Modifier × Text)) (r : SpfResult)
      (v : Visit)
      → has_no_redirect mods ≡ true
      → r ≢ pass
      → NoPass (mod_chain w is_valid expand self mods r v).0
  unfolding mod_chain has_no_redirect run_mod
  mod_chain-NoPass self [] r v h n = chain_step-NoPass r (λ u. (returned neutral, u)) v n (cc)
  mod_chain-NoPass self ((redirect, value) ∷ mods) r v h n = cc
  mod_chain-NoPass self ((exp, value) ∷ mods) r v h n =
      chain_step-NoPass r (mod_chain w is_valid expand self mods spf_none) v n
        (mod_chain-NoPass self mods spf_none v h (cc))
  mod_chain-NoPass self ((unknown, value) ∷ mods) r v h n =
      chain_step-NoPass r (mod_chain w is_valid expand self mods spf_none) v n
        (mod_chain-NoPass self mods spf_none v h (cc))

  mech_chain-NoPass :
      (sub self : Text → Visit → Outcome × Visit) (domain : Text) (mods : List (Modifier × Text))
      (ms : List Mech) (r : SpfResult) (v : Visit)
      → has_no_redirect mods ≡ true
      → trusts_none ms ≡ true
      → r ≢ pass
      → NoPass (mech_chain w is_valid expand sub self domain mods ms r v).0
  unfolding mech_chain trusts_none
  mech_chain-NoPass sub self domain mods [] r v hm h n =
      chain_step-NoPass r (mod_chain w is_valid expand self mods spf_none) v n
        (mod_chain-NoPass self mods spf_none v hm (cc))
  mech_chain-NoPass sub self domain mods (m ∷ ms) r v hm h n =
      chain_step-NoPass r
        (λ u.
          behind_link w is_valid expand (mech_chain w is_valid expand sub self domain mods ms)
            (run_mech w is_valid expand sub domain m.kind m u))
        v n
        (behind_link-NoPass (mech_chain w is_valid expand sub self domain mods ms)
          (run_mech w is_valid expand sub domain m.kind m v)
          (run_mech-all w NoPass m.qualifier (NoPass-Holds m.qualifier (ground arith)) is_valid
            expand sub domain m.kind m.args v (not_include m.kind (ground arith)))
          (λ q u k. mech_chain-NoPass sub self domain mods ms q u hm (ground arith) k))

  check_host_chain :
      (n : ℕ) (first : Bool) (domain : Text) (v : Visit) (txt : List Text) (t : Text)
      (ms : List Mech) (mods : List (Modifier × Text))
      → w.resolve_txt (to_lower domain) ≡ answers txt
      → find_record txt no_record ≡ record_text t
      → read_record is_valid (expand first (to_lower domain)) t ≡ terms ms mods
      → check_host w is_valid expand (suc n) first domain v
        ≡ mech_chain w is_valid expand
            (check_host w is_valid expand n false)
            (check_host w is_valid expand n first)
            (to_lower domain)
            mods
            ms
            spf_none
            v
  unfolding check_host check_found check_record
  check_host_chain n first domain v txt t ms mods e f g =
      rw (check_host, check_found, check_record, e, f, g) refl

  -- If a domain has one record, whose terms are read, and they have no mechanism with `+` or without a
  -- qualifier, no include and no redirect, its check does not pass, whatever the other queries give.
  pub check_host-NoPass :
      (n : ℕ) (first : Bool) (domain : Text) (v : Visit) (txt : List Text) (t : Text)
      (ms : List Mech) (mods : List (Modifier × Text))
      → w.resolve_txt (to_lower domain) ≡ answers txt
      → find_record txt no_record ≡ record_text t
      → read_record is_valid (expand first (to_lower domain)) t ≡ terms ms mods
      → trusts_none ms ≡ true
      → has_no_redirect mods ≡ true
      → (check_host w is_valid expand n first domain v).0 ≢ returned pass
  check_host-NoPass zero first domain v txt t ms mods e f g h k = unfold check_host in cc
  check_host-NoPass (suc n) first domain v txt t ms mods e f g h k =
      rw (check_host_chain n first domain v txt t ms mods e f g) (
        mech_chain-NoPass (check_host w is_valid expand n false)
          (check_host w is_valid expand n first) (to_lower domain) mods ms spf_none v k h (cc))
