-- ===== src/HostPool.antt =====
-- host_pool.js: a pool of hosts that are given out in turn, those marked dead left out. A host's key
-- `host:port` is its number; the mark is kept until a probe succeeds.
pub mod Choice
use haraka.Prelude.{
  ℕ, zero, suc, ◌+◌, ◌-◌, Bool, true, false, Option, none, some, List, [], ◌∷◌, if◌then◌else◌, ◌==◌,
  leb, length, get_elem?, not,
}

pub record HostPool : Type 0 where
  pub hosts : List ℕ
  pub dead_hosts : ℕ → Bool
  pub last_i : ℕ

abbrev pub mark : ℕ → Bool → (ℕ → Bool) → ℕ → Bool
mark key b f k = if k == key then b else f k

-- `failed`, and the callback of a probe that fails
unfoldable pub mark_dead : ℕ → HostPool → HostPool
mark_dead key p = record p { dead_hosts = mark key true p.dead_hosts }

-- The callback of a probe that succeeds
unfoldable pub mark_alive : ℕ → HostPool → HostPool
mark_alive key p = record p { dead_hosts = mark key false p.dead_hosts }

-- The host to begin with: the next one.
unfoldable pub first_index : HostPool → ℕ
first_index p = if leb (length p.hosts) (p.last_i + 1) then 0 else p.last_i + 1

-- The index of the i-th try.
unfoldable pub wrap : ℕ → ℕ → ℕ
wrap n j = if leb n j then j - n else j

-- Is there a host at this index, and is it not marked?
unfoldable pub is_alive : HostPool → ℕ → Bool
is_alive p j = elim (get_elem? p.hosts j) [ none ↦ false | some h ↦ not (p.dead_hosts h) ]

-- The `for` loop: `left` rounds remain, and `i` were made.
unfoldable pub find_alive : HostPool → ℕ → ℕ → Option ℕ
unfolding wrap is_alive first_index
find_alive p zero i = none
find_alive p (suc left) i =
    let j = wrap (length p.hosts) (i + first_index p) in
    let rest = find_alive p left (suc i) in if is_alive p j then some j else rest

-- With no host alive, the first is tried again.
abbrev pub or_first : HostPool → Option ℕ → ℕ
or_first p none = first_index p
or_first p (some j) = j

-- `get_host`: the host, and the pool with the index that was given out.
unfoldable pub get_host : HostPool → Option ℕ × HostPool
unfolding find_alive first_index
get_host p =
    let j = or_first p (find_alive p (length p.hosts) 0) in
    (get_elem? p.hosts j, record p { last_i = j })
