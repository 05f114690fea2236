-- ===== src/Tests/Policy.antt =====
-- Sender policy at concrete inputs.
use haraka.Prelude.{
  ◌≤◌, ◌≡◌, ◌≢◌, refl, Bool, true, false, none, some, [], ◌∷◌, if◌then◌else◌, arith,
}
use haraka.Prelude.Text.{Text, text, text_eq, to_lower}
use haraka.Spf.Terms.{return_const, all, ip4, is_number, fail, pass}
use haraka.Spf.Record.{find_record, read_record}
use haraka.Spf.Mechanisms.{
  World, Answer, no_data, answers, returned, threw, mech_a, mech_mx, mech_all, mech_ip, out_of_fuel,
}
use haraka.Spf.Macros.{Sender, expand_macros}
use haraka.Spf.Endless.{macros, expand_macros-endless}
use haraka.Spf.Check.{check_host, new_visit}
use haraka.Spf.Limit.{check_host-Ends}
use haraka.Spf.Bound.{check_host-count}
use haraka.Spf.NoPass.{trusts_none, has_no_redirect, check_host-NoPass}
use haraka.Spf.Throws.{check_host-threw}

-- A world in which only TXT records and addresses are answered: a.org includes b.org, which redirects to
-- a.org again.
abbrev txt_of : Text → Answer Text
txt_of domain =
    if text_eq domain (text "a.org")
    then answers (text "other" ∷ text "v=spf1 a/24 include:b.org -all" ∷ [])
    else if text_eq domain (text "b.org")
    then answers (text "v=spf1  ?mx redirect=a.org" ∷ [])
    else if text_eq domain (text "c.org")
    then answers (text "v=spf1 -ip4:192.0.2.0/24 ~all" ∷ [])
    else if text_eq domain (text "d.org")
    then answers (text "v=spf1 ip4/24 -all" ∷ [])
    else no_data

abbrev world : World
world = record {
  ip = text "192.0.2.7";
  is_ipv4 = true;
  resolve_txt = txt_of;
  resolve = λ t. no_data;
  resolve_ip = λ t. answers (text "198.51.100.1" ∷ []);
  resolve_mx = λ t. no_data;
  reverse = no_data;
  matches = λ x cidr. some (text_eq x (text "192.0.2.0"));
  is_of_version = λ x. some true;
  is_pattern = λ t. true;
  domain_matches = λ d n. false;
}

abbrev valid : Text → Bool
valid t = true

abbrev expand : Bool → Text → Text → Text
expand first domain t = t

test_include : (check_host world valid expand 12 true (text "a.org") new_visit).0 ≡ returned fail
unfolding check_host find_record read_record mech_a mech_mx mech_all return_const to_lower
test_include = refl

test_ip : (check_host world valid expand 1 true (text "c.org") new_visit).0 ≡ returned fail
unfolding check_host find_record read_record mech_ip return_const to_lower
test_ip = refl

check_host-Ends_example :
    (check_host world valid expand 12 true (text "a.org") new_visit).0 ≢ out_of_fuel
check_host-Ends_example =
    check_host-Ends world valid expand 12 true (text "a.org") new_visit (omega arith) (omega arith)

check_host-count_example :
    (check_host world valid expand 12 true (text "a.org") new_visit).1.count ≤ 11
check_host-count_example =
    check_host-count world valid expand 12 true (text "a.org") new_visit (omega arith)

check_host-NoPass_example :
    (check_host world valid expand 1 true (text "c.org") new_visit).0 ≢ returned pass
unfolding find_record read_record trusts_none has_no_redirect to_lower
check_host-NoPass_example =
    check_host-NoPass world valid expand 1 true (text "c.org") new_visit
      (text "v=spf1 -ip4:192.0.2.0/24 ~all" ∷ []) (text "v=spf1 -ip4:192.0.2.0/24 ~all")
      (record { qualifier = b'-'; kind = ip4; args = some (text ":192.0.2.0/24") }
        ∷ record { qualifier = b'~'; kind = all; args = none }
        ∷ [])
      [] refl refl refl refl refl

check_host-threw_example :
    check_host world valid expand 1 true (text "d.org") new_visit ≡ (threw, new_visit)
unfolding find_record is_number text_eq to_lower
check_host-threw_example =
    check_host-threw world valid expand 0 true (text "d.org") new_visit
      (text "v=spf1 ip4/24 -all" ∷ []) (text "24") (text "-all") refl refl refl

abbrev sender : Sender
unfolding text
sender = record {
  mail_from = macros 3 (64 ∷ text "a.org");
  domain = text "a.b.c";
  ip = text "192.0.2.1";
  is_ipv4 = true;
  helo = none;
}

-- The first labels are kept, before their order is turned; a macro without a value stays, and so does
-- one that the index has passed.
test_expand : expand_macros sender 9 (text ":%{d2r}.%{v}.%{h}%-") ≡ some (text ":b.a.%{v}.%{h}%20")
unfolding expand_macros text
test_expand = refl

expand_macros-endless_example : expand_macros sender 5 (58 ∷ macros 1 (text ".b.org")) ≡ none
unfolding text
expand_macros-endless_example = expand_macros-endless sender (text "a.org") (text ".b.org") refl 5
