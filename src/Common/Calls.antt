-- ===== src/Common/Calls.antt =====
-- Sequences of calls of a function that keeps an object in a global, which its first call makes.
use mathlib.Core.Path.{◌≡◌, refl}
use mathlib.Core.Option.{Option, none, some}
use mathlib.Core.List.{List, [], ◌∷◌}
use chipyard_fault_injection.Common.Results.{Fault, Result, ok, err, ◌>>=◌}

-- The states of an object from `s` on, one for each call.
abbrev pub states : {S X : Type 0} → (X → S → S) → S → List X → List S
states step s [] = []
states step s (x ∷ xs) = step x s ∷ states step (step x s) xs

abbrev pub last_of : {S : Type 0} → S → List S → S
last_of s [] = s
last_of s (t ∷ ts) = last_of t ts

abbrev pub each : {S Y : Type 0} → (S → Y) → List S → List Y
each out [] = []
each out (s ∷ ss) = out s ∷ each out ss

module _ {S X Y : Type 0} (tick : Option S → X → Result (S × Y)) where
  -- The object after the calls, and what they returned.
  pub calls : Option S → List X → Result (Option S × List Y)
  calls global [] = ok (global, [])
  calls global (x ∷ xs) = do (s, y) ← tick global x; (t, ys) ← calls (some s) xs; ok (t, y ∷ ys)

  module _ (step : X → S → S) (out : S → Y) where
    calls-some :
        ((s : S) (x : X) → tick (some s) x ≡ ok (step x s, out (step x s)))
        → (s : S) (xs : List X)
        → calls (some s) xs ≡ ok (some (last_of s (states step s xs)), each out (states step s xs))
    unfolding calls
    calls-some later s [] = refl
    calls-some later s (x ∷ xs) = rw (later s x, calls-some later (step x s) xs)

    -- An object that the first call makes as `made` is stepped by every call.
    pub calls_lem :
        (made : S) (x : X) (xs : List X)
        → tick none x ≡ ok (step x made, out (step x made))
        → ((s : S) (x : X) → tick (some s) x ≡ ok (step x s, out (step x s)))
        → calls none (x ∷ xs)
          ≡ ok (
            some (last_of made (states step made (x ∷ xs))),
            each out (states step made (x ∷ xs)),
          )
    unfolding calls
    calls_lem made x xs first later = rw (first, calls-some later (step x made) xs)

  -- Where the first call stops, so do the calls.
  pub calls-err :
      (x : X) (xs : List X) (fault : Fault)
      → tick none x ≡ err fault
      → calls none (x ∷ xs) ≡ err fault
  unfolding calls
  calls-err x xs fault stops = rw stops
