-- ===== src/HostPool/Choice.antt =====
-- host_pool.js: which host `get_host` gives out.
use haraka.Prelude.{
  ℕ, zero, suc, ◌+◌, ◌-◌, ◌≤◌, ◌<◌, ◌≡◌, refl, inl, inr, true, false, none, some, List, [], ◌∷◌,
  arith, ap, length, get_elem?, Bool-cases, Option-cases, sym, ◌==◌, ==_iff, leb,
}
use haraka.HostPool.{HostPool, first_index, wrap, is_alive, find_alive, get_host}

pub get_elem?-total {ℓ} :
    {A : Type ℓ} (xs : List A) (i : ℕ) → i < length xs → (x : A) × (get_elem? xs i ≡ some x)
get_elem?-total [] i h = elim h [ ]
get_elem?-total (x ∷ xs) zero h = (x, refl)
get_elem?-total (x ∷ xs) (suc i) h = get_elem?-total xs i (omega arith)

first_index-lt : (p : HostPool) → 0 < length p.hosts → first_index p < length p.hosts
unfolding first_index
first_index-lt p h = ground arith

-- Every index of the pool is tried: a round of the loop reaches it.
wrap_reaches : (n f j : ℕ) → f < n → j < n → (i : ℕ) × (i < n) × (wrap n (i + f) ≡ j)
unfolding wrap
wrap_reaches n f j h g = elim (Bool-cases (leb f j)) [
  | inl after ↦ (j - f, ground arith, ground arith)
  | inr before ↦ (j + n - f, ground arith, ground arith)
]

-- An index that the loop finds is alive.
find_alive-is_alive :
    (p : HostPool) (left i j : ℕ) → find_alive p left i ≡ some j → is_alive p j ≡ true
unfolding find_alive
find_alive-is_alive p zero i j e = cc
find_alive-is_alive p (suc left) i j e =
    elim (Bool-cases (is_alive p (wrap (length p.hosts) (i + first_index p)))) [
      | inl alive ↦ ground arith
      | inr dead ↦ find_alive-is_alive p left (suc i) j (rw dead at e)
    ]

-- When the loop finds none, every index that it tried is dead.
find_alive-none :
    (p : HostPool) (left i k : ℕ)
    → find_alive p left i ≡ none
    → i ≤ k
    → k < i + left
    → is_alive p (wrap (length p.hosts) (k + first_index p)) ≡ false
unfolding find_alive
find_alive-none p zero i k e h g = absurd (omega arith)
find_alive-none p (suc left) i k e h g =
    elim (Bool-cases (is_alive p (wrap (length p.hosts) (i + first_index p)))) [
      | inl alive ↦ ground arith
      | inr dead ↦ elim (Bool-cases (i == k)) [
        | inl same ↦ rw (sym ((==_iff i k).0 same)) dead
        | inr later ↦ find_alive-none p left (suc i) k (rw dead at e) (ground arith) (omega arith)
      ]
    ]

alive_index : (p : HostPool) (j : ℕ) → is_alive p j ≡ true → j < length p.hosts
unfolding is_alive
alive_index p j h = below p.hosts j (ground arith)
  where
    below : (xs : List ℕ) (j : ℕ) → (get_elem? xs j ≡ none → ⊥) → j < length xs
    below [] j h = absurd (h refl)
    below (x ∷ xs) zero h = omega arith
    below (x ∷ xs) (suc j) h = omega (arith, below xs j h)

-- While some host of the pool is not marked dead, `get_host` gives out one that is not marked, and
-- remembers its index.
pub get_host-alive :
    (p : HostPool) (k : ℕ)
    → is_alive p k ≡ true
    → let (h, p') = get_host p in
      (is_alive p p'.last_i ≡ true)
      × (h ≡ get_elem? p.hosts p'.last_i)
      × (p'.last_i < length p.hosts)
unfolding get_host
get_host-alive p k alive = elim (Option-cases (find_alive p (length p.hosts) 0)) [
  | inl nil ↦
      let below = alive_index p k alive in
      let (i, lt, e) =
        wrap_reaches (length p.hosts) (first_index p) k (first_index-lt p (omega arith)) below in
      let dead = find_alive-none p (length p.hosts) 0 i nil (omega arith) (omega arith) in
      absurd (cc (alive, dead, ap (is_alive p) e))
  | inr (j, found) ↦
      let live = find_alive-is_alive p (length p.hosts) 0 j found in
      rw found (live, refl, alive_index p j live)
]

-- With every host marked dead, `get_host` gives out the next host all the same: the pool fails
-- only if it has no host.
pub get_host-all_dead :
    (p : HostPool)
    → 0 < length p.hosts
    → ((j : ℕ) → is_alive p j ≡ false)
    → (h : ℕ) × ((get_host p).0 ≡ some h) × ((get_host p).1.last_i ≡ first_index p)
unfolding get_host
get_host-all_dead p h dead = elim (Option-cases (find_alive p (length p.hosts) 0)) [
  | inl nil ↦
      let (x, e) = get_elem?-total p.hosts (first_index p) (first_index-lt p h) in
      (x, rw nil e, rw nil)
  | inr (j, found) ↦ absurd (cc (find_alive-is_alive p (length p.hosts) 0 j found, dead j))
]
