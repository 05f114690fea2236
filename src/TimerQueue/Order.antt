-- ===== src/TimerQueue/Order.antt =====
-- timer_queue.js: the queue stays in order, and `fire` runs what is due.
use haraka.Prelude.{
  ℕ, ◌+◌, ◌≤◌, ◌≡◌, refl, true, false, some, Option, List, [], ◌∷◌, ◌++◌, leb, ltb, arith,
  Bool-cases, inl, inr,
}
use mathlib.Core.Path.{subst}
use haraka.Prelude.{Option-cases, tests, leb→le, ap}
use haraka.TimerQueue.{Timer, insert, add, fire, drain, goes_last}

-- Every timer fires at this time or before.
abbrev pub Until : ℕ → List Timer → Type 0
Until n [] = Unit
Until n (t ∷ q) = (t.fire_time ≤ n) × Until n q

-- Every timer of a queue fires at this time or later.
abbrev pub From : ℕ → List Timer → Type 0
From n [] = Unit
From n (t ∷ q) = (n ≤ t.fire_time) × From n q

abbrev pub Sorted : List Timer → Type 0
Sorted [] = Unit
Sorted (t ∷ q) = From t.fire_time q × Sorted q

From-le : (m n : ℕ) (q : List Timer) → m ≤ n → From n q → From m q
From-le m n [] h f = tt
From-le m n (t ∷ q) h f = (omega arith, From-le m n q h f.1)

From-append :
    (n : ℕ) (q : List Timer) (t : Timer) → n ≤ t.fire_time → From n q → From n (q ++ t ∷ [])
From-append n [] t h f = (h, tt)
From-append n (u ∷ q) t h f = (f.0, From-append n q t h f.1)

-- In a sorted queue whose last timer fires no later than `t`, none does.
goes_last-le :
    (t u : Timer) (q : List Timer)
    → Sorted (u ∷ q)
    → goes_last t.fire_time (u ∷ q) ≡ true
    → u.fire_time ≤ t.fire_time
goes_last-le t u [] s h = ground arith
goes_last-le t u (v ∷ q) s h = omega (arith, goes_last-le t v q s.1 h)

append-Sorted :
    (t : Timer) (q : List Timer) → Sorted q → goes_last t.fire_time q ≡ true → Sorted (q ++ t ∷ [])
append-Sorted t [] s h = (tt, tt)
append-Sorted t (u ∷ []) s h = ((goes_last-le t u [] s h, tt), (tt, tt))
append-Sorted t (u ∷ v ∷ q) s h = (
  From-append u.fire_time (v ∷ q) t (goes_last-le t u (v ∷ q) s h) s.0,
  append-Sorted t (v ∷ q) s.1 h,
)

some_eq : {x y : List Timer} → some x ≡ some y → x ≡ y
some_eq e = cc

From-insert :
    (n : ℕ) (t : Timer) (q r : List Timer)
    → n ≤ t.fire_time
    → From n q
    → insert t q ≡ some r
    → From n r
unfolding insert
From-insert n t [] r h f e = cc
From-insert n t (u ∷ q) r h f e = elim (Bool-cases (ltb t.fire_time u.fire_time)) [
  | inl later ↦
      let g : some (t ∷ u ∷ q) ≡ some r = rw later at e in subst (From n) (some_eq g) (h, f)
  | inr earlier ↦ elim (Option-cases (insert t q)) [
    | inl none_left ↦ ground arith
    | inr (s, found) ↦
        let k = From-insert n t q s h f.1 found in
        subst (From n) (some_eq {x = u ∷ s} {y = r} (ground arith)) (f.0, k)
  ]
]

insert-Sorted : (t : Timer) (q r : List Timer) → Sorted q → insert t q ≡ some r → Sorted r
unfolding insert
insert-Sorted t [] r s e = cc
insert-Sorted t (u ∷ q) r s e = elim (Bool-cases (ltb t.fire_time u.fire_time)) [
  | inl later ↦
      let g : some (t ∷ u ∷ q) ≡ some r = rw later at e in
      subst Sorted (some_eq g)
        ((omega tests, From-le t.fire_time u.fire_time q (omega tests) s.0), s)
  | inr earlier ↦ elim (Option-cases (insert t q)) [
    | inl none_left ↦ ground arith
    | inr (p, found) ↦
        let k = From-insert u.fire_time t q p (ground arith) s.0 found in
        let m = insert-Sorted t q p s.1 found in
        subst Sorted (some_eq {x = u ∷ p} {y = r} (ground arith)) (k, m)
  ]
]

-- In a queue that is in order, `add` keeps the order: whenever it gives a queue, that is in order.
pub add-Sorted :
    (now ms : ℕ) (cb : Option ℕ) (q r : List Timer) → Sorted q → add now ms cb q ≡ some r → Sorted r
unfolding add
add-Sorted now ms cb q r s e = elim (Bool-cases (goes_last (now + ms) q)) [
  | inl last ↦
      let g : some (q ++ new ∷ []) ≡ some r = rw last at e in
      subst Sorted (some_eq g) (append-Sorted new q s last)
  | inr inside ↦ insert-Sorted new q r s (rw inside at e)
]
  where
    new : Timer
    new = record { fire_time = now + ms; cb = cb }

insert-total :
    (t u : Timer) (q : List Timer)
    → goes_last t.fire_time (u ∷ q) ≡ false
    → (r : List Timer) × (insert t (u ∷ q) ≡ some r)
unfolding insert
insert-total t u [] h = (t ∷ u ∷ [], ground arith)
insert-total t u (v ∷ q) h = elim (Bool-cases (ltb t.fire_time u.fire_time)) [
  | inl later ↦ (t ∷ u ∷ v ∷ q, rw later)
  | inr earlier ↦ let (r, e) = insert-total t v q h in (u ∷ r, rw (earlier, e))
]

-- "Should never get here": `add` never throws, whatever the queue.
pub add-total :
    (now ms : ℕ) (cb : Option ℕ) (q : List Timer) → (r : List Timer) × (add now ms cb q ≡ some r)
unfolding add
add-total now ms cb [] = (record { fire_time = now + ms; cb = cb } ∷ [], refl)
add-total now ms cb (u ∷ q) = elim (Bool-cases (goes_last (now + ms) (u ∷ q))) [
  | inl last ↦ (u ∷ q ++ record { fire_time = now + ms; cb = cb } ∷ [], rw last)
  | inr inside ↦
      let (r, e) = insert-total (record { fire_time = now + ms; cb = cb }) u q inside in
      (r, rw inside e)
]

-- After `fire`, what is left of a queue in order is in order and due later than now; what it took
-- off stands before that, and was due.
pub fire_lem :
    (now : ℕ) (q : List Timer)
    → Sorted q
    → (due : List Timer) × (q ≡ due ++ (fire now q).1)
      × ((fire now q).0 ≡ drain due)
      × Until now due
      × From (now + 1) (fire now q).1
unfolding fire drain
fire_lem now [] s = ([], refl, refl, tt, tt)
fire_lem now (t ∷ q) s = elim (Bool-cases (leb t.fire_time now)) [
  | inl due ↦
      let (d, e, f, u, l) = fire_lem now q s.1 in
      (t ∷ d, rw due (ap (t ∷◌) e), rw (due, f), (leb→le _ _ due, u), rw due l)
  | inr late ↦ (
    [],
    rw late,
    rw late,
    tt,
    rw late (ground arith, From-le (now + 1) t.fire_time q (ground arith) s.0),
  )
]
