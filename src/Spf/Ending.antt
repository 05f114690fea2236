-- ===== src/Spf/Ending.antt =====
-- spf.js: a mechanism comes to its end.
use haraka.Prelude.{ℕ, ◌≢◌, refl, Bool, Option, none, some, List, [], ◌∷◌, ◌++◌, last?, drop, arith}
use haraka.Prelude.Text.{Text}
use haraka.Spf.Terms.{
  return_const, spf_none, temperror, permerror, Mechanism, all, a, mx, ptr, ip4, ip6, include,
  exists,
}
use haraka.Spf.Mechanisms.{
  World, Answer, no_data, failed, answers, or_empty, Outcome, returned, threw, out_of_fuel,
  mech_all, mech_exists, mech_a, mech_mx, mech_ptr, mech_ip, range_of, any_matches, of_answer,
  collect, mx_hosts, any_name, ptr_names, matched_names, in_range, domain_of, mask_a, mask_mx,
}
use haraka.Spf.Check.{Visit, run_mech}

abbrev pub Ends : Outcome → Type 0
Ends o = o ≢ out_of_fuel

-- What a mechanism can come to: its own result, or one of the three that every mechanism has, or an
-- exception.
pub record Holds (P : Outcome → Type 0) (q : ℕ) : Type 0 where
  pub on_found : P (returned (return_const q))
  pub on_none : P (returned spf_none)
  pub on_temp : P (returned temperror)
  pub on_perm : P (returned permerror)
  pub on_throw : P threw

module _ (w : World) (P : Outcome → Type 0) (q : ℕ) (h : Holds P q) where
  any_matches-all : (cidr : Text) (l : List Text) → P (any_matches w (return_const q) cidr l)
  unfolding any_matches
  any_matches-all cidr [] = h.on_none
  any_matches-all cidr (x ∷ xs) = ground (arith, any_matches-all cidr xs, h.on_found, h.on_throw)

  collect-all :
      (finish : List Text → Outcome) (hosts addresses : List Text)
      → ((l : List Text) → P (finish l))
      → P (collect w finish hosts addresses)
  unfolding collect
  collect-all finish [] addresses k = k addresses
  collect-all finish (x ∷ xs) addresses k =
      elim (w.resolve_ip x)
        as (λ r. P (elim r [
          | no_data ↦ collect w finish xs addresses
          | failed ↦ returned temperror
          | answers l ↦ collect w finish xs (l ++ addresses)
        ])) [
          | no_data ↦ collect-all finish xs addresses k
          | failed ↦ h.on_temp
          | answers l ↦ collect-all finish xs (l ++ addresses) k
        ]

  any_name-all : (domain : Text) (l : List Text) → P (any_name w (return_const q) domain l)
  unfolding any_name
  any_name-all domain [] = h.on_none
  any_name-all domain (x ∷ xs) = ground (arith, any_name-all domain xs, h.on_found)

  mx_hosts-all : (cidr : Text) (l : List Text) → P (mx_hosts w (return_const q) cidr l)
  unfolding mx_hosts
  mx_hosts-all cidr l = ground (
    arith,
    h.on_perm,
    collect-all (any_matches w (return_const q) cidr) l [] (any_matches-all cidr),
  )

  ptr_names-all : (domain : Text) (l : List Text) → P (ptr_names w (return_const q) domain l)
  unfolding ptr_names
  ptr_names-all domain l =
      ground
        (arith, h.on_perm, h.on_none, any_name-all domain (matched_names w (or_empty (last? l)) l))

  of_answer-all :
      {A : Type 0} (f : List A → Outcome) (r : Answer A)
      → ((l : List A) → P (f l))
      → P (of_answer w f r)
  of_answer-all f no_data k = h.on_none
  of_answer-all f failed k = h.on_temp
  of_answer-all f (answers l) k = k l

  mech_ptr-all : (domain : Text) (args : Option Text) → P (mech_ptr w q domain args)
  unfolding mech_ptr
  mech_ptr-all domain args =
      elim w.reverse
        as (λ r. P (elim r [
          | no_data ↦ returned spf_none
          | failed ↦ returned spf_none
          | answers l ↦ ptr_names w (return_const q) (domain_of domain (or_empty args)) l
        ])) [
          | no_data ↦ h.on_none
          | failed ↦ h.on_none
          | answers l ↦ ptr_names-all (domain_of domain (or_empty args)) l
        ]

  mech_a-all : (domain : Text) (args : Option Text) → P (mech_a w q domain args)
  unfolding mech_a
  mech_a-all domain args =
      of_answer-all (any_matches w (return_const q) (mask_a w.is_ipv4 (or_empty args)))
        (w.resolve_ip (domain_of domain (or_empty args)))
        (any_matches-all (mask_a w.is_ipv4 (or_empty args)))

  mech_mx-all : (domain : Text) (args : Option Text) → P (mech_mx w q domain args)
  unfolding mech_mx
  mech_mx-all domain args =
      of_answer-all (mx_hosts w (return_const q) (mask_mx w.is_ipv4 (or_empty args)))
        (w.resolve_mx (domain_of domain (or_empty args)))
        (mx_hosts-all (mask_mx w.is_ipv4 (or_empty args)))

  in_range-all : (r : Text × Text) → P (in_range w (return_const q) r)
  in_range-all (range, mask) = ground (arith, h.on_perm, h.on_none, h.on_found)

  mech_ip-all : (args : Text) → P (mech_ip w q args)
  unfolding mech_ip
  mech_ip-all args =
      elim (range_of w (drop 1 args))
        as (λ o. P (elim o [ none ↦ returned spf_none | some r ↦ in_range w (return_const q) r ])) [
          | none ↦ h.on_none
          | some r ↦ in_range-all r
        ]

  -- Every mechanism but `include`, whatever it is asked.
  pub run_mech-all :
      (is_valid : Text → Bool) (expand : Bool → Text → Text → Text)
      (check : Text → Visit → Outcome × Visit) (domain : Text) (k : Mechanism) (args : Option Text)
      (v : Visit)
      → k ≢ include
      → P
          (run_mech w is_valid expand check domain k
            (record { qualifier = q; kind = k; args = args })
            v).0
  unfolding run_mech mech_all mech_exists
  run_mech-all is_valid expand check domain all args v n = h.on_found
  run_mech-all is_valid expand check domain ip4 args v n = mech_ip-all (or_empty args)
  run_mech-all is_valid expand check domain ip6 args v n = mech_ip-all (or_empty args)
  run_mech-all is_valid expand check domain exists args v n =
      of_answer-all (λ (l : List Text). returned (return_const q))
        (w.resolve (drop 1 (or_empty args))) (λ l. h.on_found)
  run_mech-all is_valid expand check domain a args v n = mech_a-all domain args
  run_mech-all is_valid expand check domain mx args v n = mech_mx-all domain args
  run_mech-all is_valid expand check domain ptr args v n = mech_ptr-all domain args
  run_mech-all is_valid expand check domain include args v n = absurd (n refl)

pub Ends-Holds : (q : ℕ) → Holds Ends q
Ends-Holds q = record { on_found = cc; on_none = cc; on_temp = cc; on_perm = cc; on_throw = cc }
