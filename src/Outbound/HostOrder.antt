-- ===== src/Outbound/HostOrder.antt =====
-- outbound.js: which hosts are tried, and in which order.
use haraka.Prelude.{
  ℕ, zero, suc, ◌+◌, ◌≤◌, ◌≡◌, refl, sym, ap, ◌∙◌, Bool, Option, none, some, List, [], ◌∷◌, ◌++◌,
  ◌==◌, ◌&&◌, map, length, if◌then◌else◌, Bool-cases, inl, inr, arith,
}
use haraka.Prelude.Text.{Text}
use haraka.Outbound.Hosts.{
  Lookup, no_domain, nomx, other_error, found, Query, nodata, notfound, failed, records, plain_mx,
  process_dns, lookup_mx, Family, Mx, shuffle, shuffle_all, sort_mx, Delivery, bounce, temp_fail,
  on_socket, target, try_deliver_host, addresses, try_deliver, try_next, tried_all,
}

-- A host of an MX.
abbrev pub Candidate : Type 0
Candidate = Mx × Text

abbrev pub targets : Mx → List Text → List Candidate
targets mx [] = []
targets mx (h ∷ hs) = (mx, target mx h) ∷ targets mx hs

abbrev behind : Option (Candidate × List Candidate) → List Candidate
behind none = []
behind (some (c, cs)) = cs

module _ (is_ip : Text → Bool) (resolve : Text → Family → Option (List Text))
    (connects : Mx → Text → Bool) where
  -- All hosts, MX by MX.
  abbrev pub candidates : List Mx → List Candidate
  candidates [] = []
  candidates (mx ∷ mxs) = targets mx (addresses is_ip resolve connects mx) ++ candidates mxs

  -- The first that connects, and those behind it.
  abbrev pub first_of : List Candidate → Option (Candidate × List Candidate)
  first_of [] = none
  first_of ((mx, h) ∷ cs) = if connects mx h then some ((mx, h), cs) else first_of cs

  -- The host of the socket, and what would be tried after it.
  abbrev pub view : Delivery → Option (Candidate × List Candidate)
  view (on_socket mx h hs mxs) = some ((mx, h), targets mx hs ++ candidates mxs)
  view (bounce r) = none
  view (temp_fail r) = none

  -- Those that connect.
  abbrev pub connecting : List Candidate → List Candidate
  connecting [] = []
  connecting ((mx, h) ∷ cs) = if connects mx h then (mx, h) ∷ connecting cs else connecting cs

  try_deliver_host-view :
      (next : Delivery) (mx : Mx) (hs : List Text) (mxs : List Mx)
      → view next ≡ first_of (candidates mxs)
      → view (try_deliver_host is_ip resolve connects next mx hs mxs)
        ≡ first_of (targets mx hs ++ candidates mxs)
  unfolding try_deliver_host
  try_deliver_host-view next mx [] mxs e = e
  try_deliver_host-view next mx (h ∷ hs) mxs e = elim (Bool-cases (connects mx (target mx h))) [
    | inl c ↦ rw c refl
    | inr n ↦ rw n (try_deliver_host-view next mx hs mxs e)
  ]

  try_deliver-view :
      (mxs : List Mx) → view (try_deliver is_ip resolve connects mxs) ≡ first_of (candidates mxs)
  unfolding try_deliver
  try_deliver-view [] = refl
  try_deliver-view (mx ∷ mxs) =
      try_deliver_host-view (try_deliver is_ip resolve connects mxs) mx
        (addresses is_ip resolve connects mx) mxs (try_deliver-view mxs)

  try_next-view :
      (d : Delivery) (c : Candidate) (cs : List Candidate)
      → view d ≡ some (c, cs)
      → view (try_next is_ip resolve connects d) ≡ first_of cs
  unfolding try_next
  try_next-view (on_socket mx h hs mxs) c cs e =
      try_deliver_host-view (try_deliver is_ip resolve connects mxs) mx hs mxs
        (try_deliver-view mxs)
      ∙ ap first_of (ap behind e)
  try_next-view (bounce r) c cs e = cc e
  try_next-view (temp_fail r) c cs e = cc e

  -- The hosts on whose sockets the mail is tried, each socket being lost, for a number of rounds.
  unfoldable pub attempts : ℕ → Delivery → List Candidate
  unfolding try_next
  attempts zero d = []
  attempts (suc n) d =
      let rest = attempts n (try_next is_ip resolve connects d) in
      elim (view d) [ none ↦ [] | some (c, cs) ↦ c ∷ rest ]

  attempts-view :
      (n : ℕ) (cs : List Candidate) (d : Delivery)
      → length cs ≤ n
      → view d ≡ first_of cs
      → attempts n d ≡ connecting cs
  unfolding attempts
  attempts-view zero [] d l e = refl
  attempts-view (suc n) [] d l e = rw (attempts, e) refl
  attempts-view zero (c ∷ cs) d l e = ground arith
  attempts-view (suc n) ((mx, h) ∷ cs) d l e = elim (Bool-cases (connects mx h)) [
    | inl c ↦
        let v : view d ≡ some ((mx, h), cs) = e ∙ rw c refl in
        rw (attempts, v, c)
          (ap ((mx, h) ∷◌) (
            attempts-view n cs (try_next is_ip resolve connects d) (omega (arith, l))
              (try_next-view d (mx, h) cs v)))
    | inr lost ↦ rw lost (attempts-view (suc n) cs d (omega (arith, l)) (e ∙ rw lost refl))
  ]

  -- The hosts that are tried in turn, while the socket of each is lost, are the hosts of all MXs, in
  -- the order of the MXs and of the addresses of each, that connect; after as many rounds as there
  -- are hosts, or more, no more is tried.
  pub attempts-connecting :
      (mxs : List Mx) (more : ℕ)
      → attempts (length (candidates mxs) + more) (try_deliver is_ip resolve connects mxs)
        ≡ connecting (candidates mxs)
  attempts-connecting mxs more =
      attempts-view (length (candidates mxs) + more) (candidates mxs)
        (try_deliver is_ip resolve connects mxs) (omega arith) (try_deliver-view mxs)

  try_deliver_host-none :
      (next : Delivery) (mx : Mx) (hs : List Text) (mxs : List Mx) (cs : List Candidate)
      → connecting (targets mx hs ++ cs) ≡ []
      → (try_deliver_host is_ip resolve connects next mx hs mxs ≡ next) × (connecting cs ≡ [])
  unfolding try_deliver_host
  try_deliver_host-none next mx [] mxs cs e = (refl, e)
  try_deliver_host-none next mx (h ∷ hs) mxs cs e = elim (Bool-cases (connects mx (target mx h))) [
    | inl c ↦
        let f : (mx, target mx h) ∷ connecting (targets mx hs ++ cs) ≡ [] = sym (rw c refl) ∙ e in
        cc f
    | inr lost ↦ rw lost (try_deliver_host-none next mx hs mxs cs (sym (rw lost refl) ∙ e))
  ]

  -- Where no host connects, the mail is deferred.
  pub try_deliver-tried_all :
      (mxs : List Mx)
      → connecting (candidates mxs) ≡ []
      → try_deliver is_ip resolve connects mxs ≡ temp_fail tried_all
  unfolding try_deliver
  try_deliver-tried_all [] e = refl
  try_deliver-tried_all (mx ∷ mxs) e =
      let (same, rest) =
        try_deliver_host-none (try_deliver is_ip resolve connects mxs) mx
          (addresses is_ip resolve connects mx) mxs (candidates mxs) e in
      same ∙ try_deliver-tried_all mxs rest

shuffle-priority :
    (coin : ℕ → Bool) (i : ℕ) (x : Mx) (rest : List Mx)
    → map Mx.priority (shuffle coin i x rest) ≡ x.priority ∷ map Mx.priority rest
unfolding shuffle
shuffle-priority coin i x [] = refl
shuffle-priority coin i x (y ∷ rest) = elim (Bool-cases (x.priority == y.priority && coin i)) [
  | inl t ↦
      let e : x.priority ≡ y.priority = ground arith in
      rw t (rw (shuffle-priority coin (i + 1) x rest) (cc e))
  | inr n ↦ rw n (ap (x.priority ∷◌) (shuffle-priority coin (i + 1) y rest))
]

-- How many pass a test.
abbrev pub count : (Mx → Bool) → List Mx → ℕ
count test [] = 0
count test (x ∷ xs) = (if test x then 1 else 0) + count test xs

shuffle-count :
    (test : Mx → Bool) (coin : ℕ → Bool) (i : ℕ) (x : Mx) (rest : List Mx)
    → count test (shuffle coin i x rest) ≡ count test (x ∷ rest)
unfolding shuffle
shuffle-count test coin i x [] = refl
shuffle-count test coin i x (y ∷ rest) = elim (Bool-cases (x.priority == y.priority && coin i)) [
  | inl t ↦ rw t (omega (arith, shuffle-count test coin (i + 1) x rest))
  | inr n ↦ rw n (omega (arith, shuffle-count test coin (i + 1) y rest))
]

shuffle_all_lem :
    (coin : ℕ → Bool) (l : List Mx)
    → (map Mx.priority (shuffle_all coin l) ≡ map Mx.priority l)
      × ((test : Mx → Bool) → count test (shuffle_all coin l) ≡ count test l)
unfolding shuffle_all
shuffle_all_lem coin [] = (refl, λ test. refl)
shuffle_all_lem coin (x ∷ rest) =
    (shuffle-priority coin 0 x rest, λ test. shuffle-count test coin 0 x rest)

-- Behind the sort, the records are shuffled only among those of one priority: the priorities stand as
-- the sort left them, and the records are the same, each as often.
pub sort_mx_lem :
    (sort : List Mx → List Mx) (coin : ℕ → Bool) (mx_list : List Mx)
    → (map Mx.priority (sort_mx sort coin mx_list) ≡ map Mx.priority (sort mx_list))
      × ((test : Mx → Bool) → count test (sort_mx sort coin mx_list) ≡ count test (sort mx_list))
unfolding sort_mx
sort_mx_lem sort coin mx_list = shuffle_all_lem coin (sort mx_list)

abbrev HasRecords : Lookup → Type 0
HasRecords (found []) = ⊥
HasRecords (found (mx ∷ mxs)) = Unit
HasRecords no_domain = Unit
HasRecords nomx = Unit
HasRecords other_error = Unit

process_dns-HasRecords :
    {A : Type 0} (wrap_mx : A → Mx) (next : Lookup) (q : Query A)
    → HasRecords next
    → HasRecords (process_dns wrap_mx next q)
unfolding process_dns
process_dns-HasRecords wrap_mx next nodata h = h
process_dns-HasRecords wrap_mx next notfound h = tt
process_dns-HasRecords wrap_mx next failed h = tt
process_dns-HasRecords wrap_mx next (records []) h = h
process_dns-HasRecords wrap_mx next (records (a ∷ l)) h = tt

-- A lookup that succeeds has found a host.
lookup_mx-HasRecords : (mxs : Query Mx) (addrs : Query Text) → HasRecords (lookup_mx mxs addrs)
unfolding lookup_mx
lookup_mx-HasRecords mxs addrs =
    process_dns-HasRecords (λ a. a) _ mxs (process_dns-HasRecords plain_mx nomx addrs tt)
