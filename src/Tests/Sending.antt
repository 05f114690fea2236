-- ===== src/Tests/Sending.antt =====
-- The recipients by domain, and the hosts that are tried, at concrete inputs.
use haraka.Prelude.{
  ℕ, zero, suc, ◌+◌, ◌≡◌, refl, Bool, true, false, Option, none, some, List, [], ◌∷◌, length,
}
use haraka.Prelude.Text.{Text, text_eq}
use haraka.Connection.Types.{Retval}
use haraka.Outbound.Sending.{
  DomainRcpts, Queue, add_rcpt, by_domain, deliveries, process_deliveries, send_trans_email,
}
use haraka.Outbound.Domains.{WholeOrNone, send_trans_email-WholeOrNone}
use haraka.Outbound.Hosts.{Family, ipv4, Mx, try_deliver}
use haraka.Outbound.HostOrder.{candidates, connecting, attempts, attempts-connecting}

-- A recipient is a number, at a host of one letter.
abbrev host : ℕ → Text
host zero = 97 ∷ []
host (suc zero) = 98 ∷ []
host (suc (suc n)) = 97 ∷ []

abbrev not_inherited : Text → Bool
not_inherited t = false

abbrev kept : List (DomainRcpts ℕ) → List (DomainRcpts ℕ)
kept ds = ds

abbrev domains : List (DomainRcpts ℕ)
domains =
    record { domain = 97 ∷ []; rcpts = 0 ∷ 2 ∷ [] }
    ∷ record { domain = 98 ∷ []; rcpts = 1 ∷ [] }
    ∷ []

domains_lem : by_domain host not_inherited kept (0 ∷ 1 ∷ 2 ∷ []) [] ≡ some domains
unfolding by_domain add_rcpt text_eq
domains_lem = refl

deliveries_lem : deliveries host not_inherited kept false (0 ∷ 1 ∷ 2 ∷ []) ≡ some domains
unfolding deliveries by_domain add_rcpt text_eq
deliveries_lem = refl

-- The second file cannot be written.
abbrev first_only : ℕ → Bool
first_only zero = true
first_only (suc zero) = true
first_only (suc (suc n)) = false

abbrev path : ℕ → Text
path i = i ∷ []

abbrev queue : Queue
queue = record { files = (200 ∷ []) ∷ []; delivery_queue = [] }

send_trans_email-WholeOrNone_example :
    (s : Retval × Queue) × (send_trans_email host not_inherited kept false first_only path
        (0 ∷ 1 ∷ 2 ∷ [])
        queue
      ≡ some s)
    × WholeOrNone 2 (process_deliveries host not_inherited kept first_only path 1 domains).0 queue s
send_trans_email-WholeOrNone_example =
    send_trans_email-WholeOrNone host not_inherited kept false first_only path (0 ∷ 1 ∷ 2 ∷ [])
      queue domains deliveries_lem

abbrev mx : ℕ → Mx
mx n = record {
  exchange = n ∷ [];
  priority = 10;
  port = none;
  path = none;
  using_lmtp = false;
  family = ipv4;
}

abbrev not_ip : Text → Bool
not_ip t = false

abbrev two_addresses : Text → Family → Option (List Text)
two_addresses t f = some ((1 ∷ t) ∷ (2 ∷ t) ∷ [])

-- Only the second address of a host connects.
abbrev connects : Mx → Text → Bool
connects m [] = false
connects m (c ∷ t) = text_eq (c ∷ []) (2 ∷ [])

attempts-connecting_example :
    attempts not_ip two_addresses connects
      (length (candidates not_ip two_addresses connects (mx 1 ∷ mx 2 ∷ [])) + 0)
      (try_deliver not_ip two_addresses connects (mx 1 ∷ mx 2 ∷ []))
    ≡ connecting not_ip two_addresses connects
        (candidates not_ip two_addresses connects (mx 1 ∷ mx 2 ∷ []))
attempts-connecting_example = attempts-connecting not_ip two_addresses connects (mx 1 ∷ mx 2 ∷ []) 0

abbrev always : ℕ → Bool
always i = true
