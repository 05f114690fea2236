-- ===== src/TimerQueue.antt =====
-- timer_queue.js: timers in the order of their times. The clock is an argument, and a callback is
-- known by a number; the callbacks' own calls of `add` come after the call that runs them.
pub mod Order
use haraka.Prelude.{
  ℕ, ◌+◌, Bool, true, false, Option, none, some, List, [], ◌∷◌, ◌++◌, if◌then◌else◌, leb, ltb,
  last?, length,
}

-- `TQTimer`; `cancel` clears the callback.
pub record Timer : Type 0 where
  pub fire_time : ℕ
  pub cb : Option ℕ

unfoldable pub cancel : Timer → Timer
cancel t = record t { cb = none }

-- The loop of `add`: before the first timer that fires later; `none` is its `throw`.
unfoldable pub insert : Timer → List Timer → Option (List Timer)
insert t [] = none
insert t (u ∷ q) =
    let rest = insert t q in
    if ltb t.fire_time u.fire_time
    then some (t ∷ u ∷ q)
    else elim rest [ none ↦ none | some r ↦ some (u ∷ r) ]

abbrev pub goes_last : ℕ → List Timer → Bool
goes_last time q = elim (last? q) [ none ↦ true | some u ↦ leb u.fire_time time ]

-- `add(ms, cb)`
unfoldable pub add : ℕ → ℕ → Option ℕ → List Timer → Option (List Timer)
unfolding insert
add now ms cb q =
    let t : Timer = record { fire_time = now + ms; cb = cb } in
    if goes_last t.fire_time q then some (q ++ t ∷ []) else insert t q

abbrev pub called : Option ℕ → List ℕ → List ℕ
called none ran = ran
called (some k) ran = k ∷ ran

-- `fire`: the callbacks that run, in order, and what is left of the queue.
unfoldable pub fire : ℕ → List Timer → List ℕ × List Timer
fire now [] = ([], [])
fire now (t ∷ q) =
    let rest = fire now q in
    if leb t.fire_time now then (called t.cb rest.0, rest.1) else ([], t ∷ q)

-- `drain`: every callback runs.
unfoldable pub drain : List Timer → List ℕ
drain [] = []
drain (t ∷ q) = called t.cb (drain q)
