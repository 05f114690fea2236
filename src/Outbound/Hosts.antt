-- ===== src/Outbound/Hosts.antt =====
-- outbound.js: the hosts of a domain, in the order in which they are tried.
use haraka.Prelude.{
  map, ℕ, ◌+◌, ◌==◌, ◌&&◌, Bool, false, Option, none, some, List, [], ◌∷◌, is_empty, if◌then◌else◌,
}
use haraka.Prelude.Text.{Text}
use haraka.Connection.Types.{Retval, ok, deny, denysoft}

pub data Family : Type 0 where
  ipv4 ipv6 : Family

-- Without `bind` and `bind_helo`, which try_deliver_host copies from the notes and the configuration.
pub record Mx : Type 0 where
  pub exchange : Text
  pub priority : ℕ
  pub port : Option ℕ
  pub path : Option Text
  pub using_lmtp : Bool
  pub family : Family

-- The loop of `sort_mx`, from the index i on: `coin i` is Math.round(Math.random()).
unfoldable pub shuffle : (ℕ → Bool) → ℕ → Mx → List Mx → List Mx
shuffle coin i x [] = x ∷ []
shuffle coin i x (y ∷ rest) =
    let swapped = y ∷ shuffle coin (i + 1) x rest in
    let kept = x ∷ shuffle coin (i + 1) y rest in
    if x.priority == y.priority && coin i then swapped else kept

unfoldable pub shuffle_all : (ℕ → Bool) → List Mx → List Mx
unfolding shuffle
shuffle_all coin [] = []
shuffle_all coin (x ∷ rest) = shuffle coin 0 x rest

-- `sort` is Array.sort by the priorities.
unfoldable pub sort_mx : (List Mx → List Mx) → (ℕ → Bool) → List Mx → List Mx
unfolding shuffle_all
sort_mx sort coin mx_list = shuffle_all coin (sort mx_list)

-- What the lookup of the MX records gives: an error by its code, or the records.
pub data Lookup : Type 0 where
  no_domain nomx other_error : Lookup
  found : List Mx → Lookup

-- What a query gives: an error by its code, or the records.
pub data Query (A : Type 0) : Type 0 where
  nodata notfound failed : Query A
  records : List A → Query A

-- A record of a host without an MX: { priority: 0, exchange: a }.
abbrev pub plain_mx : Text → Mx
plain_mx a = record {
  exchange = a;
  priority = 0;
  port = none;
  path = none;
  using_lmtp = false;
  family = ipv4;
}

-- `process_dns`, `next` being what comes when it returns 0.
unfoldable pub process_dns : {A : Type 0} → (A → Mx) → Lookup → Query A → Lookup
process_dns wrap_mx next nodata = next
process_dns wrap_mx next notfound = no_domain
process_dns wrap_mx next failed = other_error
process_dns wrap_mx next (records []) = next
process_dns wrap_mx next (records (a ∷ l)) = found (map wrap_mx (a ∷ l))

-- `lookup_mx`, of the answers of resolveMx and, where that is needed, of resolve.
unfoldable pub lookup_mx : Query Mx → Query Text → Lookup
unfolding process_dns
lookup_mx mxs addrs = process_dns (λ a. a) (process_dns plain_mx nomx addrs) mxs

pub data Reason : Type 0 where
  no_mx temporary_mx_error : Reason
  no_such_domain nowhere_to_deliver null_mx dns_failure tried_all : Reason

-- What becomes of the mail. On a socket the host is named, and what would be tried after it:
-- `hostlist` and `mxlist`.
pub data Delivery : Type 0 where
  bounce temp_fail : Reason → Delivery
  on_socket : Mx → Text → List Text → List Mx → Delivery

-- An MX record without a host.
unfoldable pub is_null_mx : List Mx → Bool
is_null_mx [] = false
is_null_mx (mx ∷ []) = mx.priority == 0 && is_empty mx.exchange
is_null_mx (mx ∷ my ∷ rest) = false

-- The duplicates for each family; a copy has no `path`.
unfoldable pub by_family : Bool → List Mx → List Mx
by_family ipv6_enabled [] = []
by_family ipv6_enabled (mx ∷ rest) =
    let others = by_family ipv6_enabled rest in
    if ipv6_enabled
    then record mx { path = none; family = ipv6 }
      ∷ record mx { path = none; family = ipv4 }
      ∷ others
    else record mx { family = ipv4 } ∷ others

-- `host = mx.path` if there is one.
abbrev pub target : Mx → Text → Text
target mx host = elim mx.path [ none ↦ host | some p ↦ if is_empty p then host else p ]

-- `is_ip` is net.isIP, `resolve` is dns.resolve, none for an error, and `connects` tells if
-- `get_client` gives a socket.
module _ (is_ip : Text → Bool) (resolve : Text → Family → Option (List Text))
    (connects : Mx → Text → Bool) where
  -- `try_deliver_host`, `next` being what `try_deliver` does then.
  unfoldable pub try_deliver_host : Delivery → Mx → List Text → List Mx → Delivery
  try_deliver_host next mx [] mxlist = next
  try_deliver_host next mx (host ∷ hostlist) mxlist =
      let later = try_deliver_host next mx hostlist mxlist in
      if connects mx (target mx host) then on_socket mx (target mx host) hostlist mxlist else later

  -- The addresses of an MX; there are none where the lookup fails.
  unfoldable pub addresses : Mx → List Text
  addresses mx =
      if is_ip mx.exchange
      then mx.exchange ∷ []
      else (elim (resolve mx.exchange mx.family) [ none ↦ [] | some l ↦ l ])

  unfoldable pub try_deliver : List Mx → Delivery
  unfolding try_deliver_host addresses
  try_deliver [] = temp_fail tried_all
  try_deliver (mx ∷ mxlist) = try_deliver_host (try_deliver mxlist) mx (addresses mx) mxlist

  -- The next attempt, after the socket of the last was lost.
  unfoldable pub try_next : Delivery → Delivery
  unfolding try_deliver_host try_deliver
  try_next (on_socket mx host hostlist mxlist) =
      try_deliver_host (try_deliver mxlist) mx hostlist mxlist
  try_next (bounce r) = bounce r
  try_next (temp_fail r) = temp_fail r

  unfoldable pub found_mx : (List Mx → List Mx) → (ℕ → Bool) → Bool → Lookup → Delivery
  unfolding sort_mx is_null_mx by_family try_deliver
  found_mx sort coin ipv6_enabled no_domain = bounce no_such_domain
  found_mx sort coin ipv6_enabled nomx = bounce nowhere_to_deliver
  found_mx sort coin ipv6_enabled other_error = temp_fail dns_failure
  found_mx sort coin ipv6_enabled (found mxs) =
      let mxlist = sort_mx sort coin mxs in
      if is_null_mx mxlist then bounce null_mx else try_deliver (by_family ipv6_enabled mxlist)

  -- `get_mx_respond`, of what a plugin gave with OK: the records, those of an object or a string being
  -- one.
  unfoldable pub get_mx_respond :
      (List Mx → List Mx) → (ℕ → Bool) → Bool → Lookup → Retval → List Mx → Delivery
  unfolding found_mx
  get_mx_respond sort coin ipv6_enabled looked_up ok mx = found_mx sort coin ipv6_enabled (found mx)
  get_mx_respond sort coin ipv6_enabled looked_up deny mx = bounce no_mx
  get_mx_respond sort coin ipv6_enabled looked_up denysoft mx = temp_fail temporary_mx_error
  get_mx_respond sort coin ipv6_enabled looked_up retval mx =
      found_mx sort coin ipv6_enabled looked_up
