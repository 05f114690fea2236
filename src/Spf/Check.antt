-- ===== src/Spf/Check.antt =====
-- spf.js: `check_host`: the chain of mechanisms and modifiers, and the records that are included.
use haraka.Prelude.{ℕ, zero, suc, ◌+◌, Bool, false, List, [], ◌∷◌, ltb, drop, if◌then◌else◌}
use haraka.Prelude.Text.{Text, to_lower}
use haraka.Spf.Terms.{
  SpfResult, spf_none, pass, fail, softfail, neutral, temperror, permerror, Mechanism, all, a, mx,
  ptr, ip4, ip6, include, exists, Mech, Modifier, redirect, exp, unknown,
}
use haraka.Spf.Record.{
  Found, no_record, two_records, record_text, find_record, Record, terms, syntax_error, threw_up,
  read_record,
}
use haraka.Spf.Mechanisms.{
  World, no_data, failed, answers, lookup_limit, has_name, or_empty, Outcome, returned, threw,
  out_of_fuel, mech_all, mech_exists, mech_a, mech_mx, mech_ptr, mech_ip,
}

-- What a check changes: its count of lookups, which is the object's own, and the domains that were
-- visited, which it shares with the objects for included records.
pub record Visit : Type 0 where
  pub count : ℕ
  pub been_there : List Text

abbrev pub new_visit : Visit
new_visit = record { count = 0; been_there = [] }

-- No domain is a name that every object has, as `constructor`, which `been_there` would hold from the
-- start. `is_valid` is ipaddr.isValid; `expand` is expand_macros, where that
-- ends, of the domain that is checked, and it is told if the object is the first, whose `helo` was set.
module _ (w : World) (is_valid : Text → Bool) (expand : Bool → Text → Text → Text) where
  abbrev pub counted : Visit → Visit
  counted v = record v { count = v.count + 1 }

  -- What an included record's result means.
  unfoldable pub included : SpfResult → SpfResult
  included pass = pass
  included fail = spf_none
  included softfail = spf_none
  included neutral = spf_none
  included temperror = temperror
  included spf_none = permerror
  included permerror = permerror

  abbrev pub of_included : Outcome → Outcome
  unfolding included
  of_included (returned r) = returned (included r)
  of_included threw = threw
  of_included out_of_fuel = out_of_fuel

  -- `mech_include`; `check` is check_host of a new object.
  unfoldable pub mech_include : (Text → Visit → Outcome × Visit) → Text → Visit → Outcome × Visit
  unfolding of_included
  mech_include check args v =
      let domain = drop 1 args in
      if has_name domain v.been_there
      then (returned spf_none, v)
      else (let r =
            check domain (record v { count = v.count + 1; been_there = domain ∷ v.been_there }) in
          (of_included r.0, record v { count = v.count + 1; been_there = r.1.been_there }))

  unfoldable pub run_mech :
      (Text → Visit → Outcome × Visit) → Text → Mechanism → Mech → Visit → Outcome × Visit
  unfolding mech_include
  run_mech check domain all m v = (mech_all w m.qualifier, v)
  run_mech check domain ip4 m v = (mech_ip w m.qualifier (or_empty m.args), v)
  run_mech check domain ip6 m v = (mech_ip w m.qualifier (or_empty m.args), v)
  run_mech check domain exists m v = (mech_exists w m.qualifier (or_empty m.args), counted v)
  run_mech check domain a m v = (mech_a w m.qualifier domain m.args, counted v)
  run_mech check domain mx m v = (mech_mx w m.qualifier domain m.args, counted v)
  run_mech check domain ptr m v = (mech_ptr w m.qualifier domain m.args, counted v)
  run_mech check domain include m v = mech_include check (or_empty m.args) v

  -- `mod_redirect` and `mod_exp`; `check` is check_host of the object itself.
  unfoldable pub run_mod :
      (Text → Visit → Outcome × Visit) → Modifier → Text → Visit → Outcome × Visit
  run_mod check redirect domain v =
      if has_name domain v.been_there
      then (returned spf_none, v)
      else check domain (record { count = v.count + 1; been_there = domain ∷ v.been_there })
  run_mod check exp value v = (returned spf_none, v)
  run_mod check unknown value v = (returned spf_none, v)

  -- A caller of a chain: the limit, then a result that decides, then `next`.
  abbrev pub chain_step : SpfResult → (Visit → Outcome × Visit) → Visit → Outcome × Visit
  chain_step r next v =
      if ltb lookup_limit v.count
      then (returned permerror, v)
      else (elim r [ spf_none ↦ next v | other ↦ (returned other, v) ])

  -- What follows a link of a chain; an exception ends it.
  abbrev pub behind_link : (SpfResult → Visit → Outcome × Visit) → Outcome × Visit → Outcome × Visit
  behind_link next (returned r, v) = next r v
  behind_link next (threw, v) = (threw, v)
  behind_link next (out_of_fuel, v) = (out_of_fuel, v)

  -- `mod_chain_caller`
  unfoldable pub mod_chain :
      (Text → Visit → Outcome × Visit)
      → List (Modifier × Text)
      → SpfResult
      → Visit
      → Outcome × Visit
  unfolding run_mod
  mod_chain check [] r v = chain_step r (λ u. (returned neutral, u)) v
  mod_chain check ((md, value) ∷ mods) r v =
      chain_step r (λ u. behind_link (mod_chain check mods) (run_mod check md value u)) v

  -- `mech_chain_caller`
  unfoldable pub mech_chain :
      (Text → Visit → Outcome × Visit)
      → (Text → Visit → Outcome × Visit)
      → Text
      → List (Modifier × Text)
      → List Mech
      → SpfResult
      → Visit
      → Outcome × Visit
  unfolding run_mech mod_chain
  mech_chain sub self domain mods [] r v = chain_step r (mod_chain self mods spf_none) v
  mech_chain sub self domain mods (m ∷ ms) r v =
      chain_step r
        (λ u. behind_link (mech_chain sub self domain mods ms) (run_mech sub domain m.kind m u)) v

  unfoldable pub check_record :
      (Text → Visit → Outcome × Visit)
      → (Text → Visit → Outcome × Visit)
      → Text
      → Record
      → Visit
      → Outcome × Visit
  unfolding mech_chain
  check_record sub self domain syntax_error v = (returned permerror, v)
  check_record sub self domain threw_up v = (threw, v)
  check_record sub self domain (terms ms mods) v = mech_chain sub self domain mods ms spf_none v

  unfoldable pub check_found :
      (Text → Visit → Outcome × Visit)
      → (Text → Visit → Outcome × Visit)
      → Bool
      → Text
      → Found
      → Visit
      → Outcome × Visit
  unfolding check_record read_record
  check_found sub self first domain no_record v = (returned spf_none, v)
  check_found sub self first domain two_records v = (returned permerror, v)
  check_found sub self first domain (record_text t) v =
      check_record sub self domain (read_record is_valid (expand first domain) t) v

  -- The fuel bounds the depth of included and redirected records.
  unfoldable pub check_host : ℕ → Bool → Text → Visit → Outcome × Visit
  unfolding check_found find_record to_lower
  check_host zero first domain v = (out_of_fuel, v)
  check_host (suc n) first domain v = elim (w.resolve_txt (to_lower domain)) [
    | no_data ↦ (returned spf_none, v)
    | failed ↦ (returned temperror, v)
    | answers txt ↦
        check_found (check_host n false) (check_host n first) first (to_lower domain)
          (find_record txt no_record) v
  ]
