-- ===== src/Spf/Limit.antt =====
-- spf.js: the limit on lookups bounds the depth of included and redirected records.
use haraka.Prelude.{
  ℕ, zero, suc, ◌+◌, ◌≤◌, ◌≡◌, ◌≢◌, refl, Bool, true, false, List, [], ◌∷◌, ltb, Bool-cases, inl,
  inr, arith,
}
use haraka.Prelude.Text.{Text, to_lower}
use haraka.Spf.Terms.{SpfResult, spf_none, temperror, permerror, Mech, Modifier}
use haraka.Spf.Record.{
  Found, no_record, two_records, record_text, find_record, Record, terms, syntax_error, threw_up,
  read_record,
}
use haraka.Spf.Mechanisms.{
  World, no_data, failed, answers, lookup_limit, Outcome, returned, threw, out_of_fuel,
}
use haraka.Spf.Ending.{Ends}
use haraka.Spf.Check.{Visit, mech_chain, check_record, check_found, check_host}
use haraka.Spf.Chain.{mech_chain-grows, mech_chain-Ends}

module _ (w : World) (is_valid : Text → Bool) (expand : Bool → Text → Text → Text) where
  mech_chain-limit :
      (sub self : Text → Visit → Outcome × Visit) (domain : Text) (mods : List (Modifier × Text))
      (ms : List Mech) (r : SpfResult) (v : Visit)
      → ltb lookup_limit v.count ≡ true
      → mech_chain w is_valid expand sub self domain mods ms r v ≡ (returned permerror, v)
  unfolding mech_chain
  mech_chain-limit sub self domain mods [] r v e = rw e refl
  mech_chain-limit sub self domain mods (m ∷ ms) r v e = rw e refl

  -- What holds of the answers at once and of the chain holds of the check.
  pub check_record-all {ℓ} :
      (P : Outcome × Visit → Type ℓ) (sub self : Text → Visit → Outcome × Visit) (domain : Text)
      (r : Record) (v : Visit)
      → ((o : Outcome) → Ends o → P (o, v))
      → ((ms : List Mech) (mods : List (Modifier × Text))
          → P (mech_chain w is_valid expand sub self domain mods ms spf_none v))
      → P (check_record w is_valid expand sub self domain r v)
  unfolding check_record
  check_record-all P sub self domain syntax_error v h k = h (returned permerror) (cc)
  check_record-all P sub self domain threw_up v h k = h threw (cc)
  check_record-all P sub self domain (terms ms mods) v h k = k ms mods

  pub check_found-all {ℓ} :
      (P : Outcome × Visit → Type ℓ) (sub self : Text → Visit → Outcome × Visit) (first : Bool)
      (domain : Text) (f : Found) (v : Visit)
      → ((o : Outcome) → Ends o → P (o, v))
      → ((ms : List Mech) (mods : List (Modifier × Text))
          → P (mech_chain w is_valid expand sub self domain mods ms spf_none v))
      → P (check_found w is_valid expand sub self first domain f v)
  unfolding check_found
  check_found-all P sub self first domain no_record v h k = h (returned spf_none) (cc)
  check_found-all P sub self first domain two_records v h k = h (returned permerror) (cc)
  check_found-all P sub self first domain (record_text t) v h k =
      check_record-all P sub self domain (read_record is_valid (expand first domain) t) v h k

  pub check_host-all {ℓ} :
      (P : Outcome × Visit → Type ℓ) (n : ℕ) (first : Bool) (domain : Text) (v : Visit)
      → ((o : Outcome) → Ends o → P (o, v))
      → ((ms : List Mech) (mods : List (Modifier × Text))
          → P (
              mech_chain w is_valid expand
                (check_host w is_valid expand n false)
                (check_host w is_valid expand n first)
                (to_lower domain)
                mods
                ms
                spf_none
                v))
      → P (check_host w is_valid expand (suc n) first domain v)
  unfolding check_host
  check_host-all P n first domain v h k =
      elim (w.resolve_txt (to_lower domain))
        as (λ q. P (elim q [
          | no_data ↦ (returned spf_none, v)
          | failed ↦ (returned temperror, v)
          | answers txt ↦
              check_found w is_valid expand (check_host w is_valid expand n false)
                (check_host w is_valid expand n first) first (to_lower domain)
                (find_record txt no_record) v
        ])) [
          | no_data ↦ h (returned spf_none) (cc)
          | failed ↦ h (returned temperror) (cc)
          | answers txt ↦
              check_found-all P (check_host w is_valid expand n false)
                (check_host w is_valid expand n first) first (to_lower domain)
                (find_record txt no_record) v h k
        ]

  check_host-grows :
      (n : ℕ) (first : Bool) (domain : Text) (v : Visit)
      → v.count ≤ (check_host w is_valid expand n first domain v).1.count
  check_host-grows zero first domain v = unfold check_host in omega arith
  check_host-grows (suc n) first domain v =
      check_host-all (λ p. v.count ≤ p.1.count) n first domain v (λ o e. omega arith)
        (λ ms mods.
          mech_chain-grows w is_valid expand (check_host w is_valid expand n first)
            (check_host-grows n first) (check_host w is_valid expand n false) (to_lower domain) mods
            ms spf_none v)

  -- With a fuel of twelve less the lookups that were counted before, but one at least, a check does not
  -- run out of it, whatever records the domains have and include.
  pub check_host-Ends :
      (n : ℕ) (first : Bool) (domain : Text) (v : Visit)
      → 12 ≤ n + v.count
      → 1 ≤ n
      → (check_host w is_valid expand n first domain v).0 ≢ out_of_fuel
  check_host-Ends zero first domain v l k = absurd (omega (arith, k))
  check_host-Ends (suc n) first domain v l k = elim (Bool-cases (ltb lookup_limit v.count)) [
    | inl e ↦
        check_host-all (λ p. Ends p.0) n first domain v (λ o h. h)
          (λ ms mods. rw (mech_chain-limit _ _ (to_lower domain) mods ms spf_none v e) (cc))
    | inr e ↦
        check_host-all (λ p. Ends p.0) n first domain v (λ o h. h)
          (λ ms mods.
            mech_chain-Ends w is_valid expand (v.count + 1) (check_host w is_valid expand n first)
              (λ d u g. check_host-Ends n first d u (omega (arith, l, g)) (ground arith))
              (check_host-grows n first) (check_host w is_valid expand n false)
              (λ d u g. check_host-Ends n false d u (omega (arith, l, g)) (ground arith))
              (to_lower domain) mods ms spf_none v (omega arith))
  ]
