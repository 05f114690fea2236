-- ===== src/Spf/Throws.antt =====
-- spf.js: the group that is read of a match that failed.
use haraka.Prelude.{
  ℕ, suc, ◌≡◌, refl, Bool, true, false, some, List, [], ◌∷◌, ◌++◌, ◌==◌, is_empty, arith, ap, ◌∙◌,
}
use haraka.Prelude.Text.{Text, text, split_space, to_lower}
use haraka.Spf.Terms.{
  ip4, parse_mech, mech_body, take_name, is_args, is_cidr, is_cidr6, is_number, is_digit,
  after_digits, mechanism_of,
}
use haraka.Spf.Record.{
  no_record, record_text, find_record, threw_up, read_record, rest_of, read_terms, check_mech,
  check_ip, ip_of,
}
use haraka.Spf.Mechanisms.{World, answers, threw}
use haraka.Spf.Check.{Visit, check_host, check_found, check_record}

digits_then : (c : ℕ) (t : Text) → is_empty (after_digits (c ∷ t)) ≡ true → is_digit c ≡ true
unfolding after_digits
digits_then c t h = ground arith

after_digits_tail :
    (c : ℕ) (t : Text) → is_empty (after_digits (c ∷ t)) ≡ true → is_empty (after_digits t) ≡ true
unfolding after_digits
after_digits_tail c t h = ground arith

digit_then : (c : ℕ) → is_digit c ≡ true → (c == 32) ≡ false
digit_then c h = ground arith

split_space-digits :
    (d more : Text)
    → is_empty (after_digits d) ≡ true
    → split_space (d ++ b' ' ∷ more) ≡ d ∷ split_space more
unfolding split_space
split_space-digits [] more h = refl
split_space-digits (c ∷ t) more h =
    rw (digit_then c (digits_then c t h), split_space-digits t more (after_digits_tail c t h)) refl

is_args-mask : (d : Text) → is_number d ≡ true → is_args (b'/' ∷ d) ≡ true
unfolding is_number is_args is_cidr is_cidr6
is_args-mask [] h = cc
is_args-mask (c ∷ t) h = ground arith

number_digits : (d : Text) → is_number d ≡ true → is_empty (after_digits d) ≡ true
unfolding is_number after_digits
number_digits [] h = refl
number_digits (c ∷ t) h = ground arith

module _ (is_valid : Text → Bool) (expand : Text → Text) where
  parse_mech-mask :
      (d : Text)
      → is_number d ≡ true
      → parse_mech (text "ip4/" ++ d)
        ≡ some (record { qualifier = b'+'; kind = ip4; args = some (b'/' ∷ d) })
  unfolding parse_mech mech_body take_name mechanism_of text
  parse_mech-mask d h = rw (is_args-mask d h) refl

  read_terms-mask :
      (d : Text) (ws : List Text)
      → is_number d ≡ true
      → read_terms is_valid expand ((text "ip4/" ++ d) ∷ ws) ≡ threw_up
  unfolding read_terms text check_mech check_ip ip_of
  read_terms-mask d ws h = rw (parse_mech-mask d h) refl

  split_space-record :
      (d more : Text)
      → is_number d ≡ true
      → split_space (text "v=spf1 ip4/" ++ d ++ b' ' ∷ more)
        ≡ text "v=spf1" ∷ (text "ip4/" ++ d) ∷ split_space more
  unfolding split_space text
  split_space-record d more h = rw (split_space-digits d more (number_digits d h)) refl

  read_record-mask :
      (d more : Text)
      → is_number d ≡ true
      → read_record is_valid expand (text "v=spf1 ip4/" ++ d ++ b' ' ∷ more) ≡ threw_up
  unfolding read_record
  read_record-mask d more h =
      ap (λ l. read_terms is_valid expand (rest_of l)) (split_space-record d more h)
      ∙ read_terms-mask d (split_space more) h

-- If the record of a domain starts with `v=spf1 ip4/` and a number, a space behind it, the check of
-- the domain throws, whatever follows, with any fuel but none.
pub check_host-threw :
    (w : World) (is_valid : Text → Bool) (expand : Bool → Text → Text → Text) (n : ℕ) (first : Bool)
    (domain : Text) (v : Visit) (txt : List Text) (d more : Text)
    → w.resolve_txt (to_lower domain) ≡ answers txt
    → find_record txt no_record ≡ record_text (text "v=spf1 ip4/" ++ d ++ b' ' ∷ more)
    → is_number d ≡ true
    → check_host w is_valid expand (suc n) first domain v ≡ (threw, v)
unfolding check_host
check_host-threw w is_valid expand n first domain v txt d more e f h =
    rw
      (
        check_host,
        check_found,
        check_record,
        e,
        f,
        read_record-mask is_valid (expand first (to_lower domain)) d more h,
      )
      refl
