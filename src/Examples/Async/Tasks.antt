-- ===== src/Examples/Async/Tasks.antt =====
-- The tasks that run, and the steps that they have to go.
use zmqmessage.Base.{ℕ, zero, suc, ◌≤◌, ◌≡◌, refl, ap, List, [], ◌∷◌, map}
use zmqmessage.Bytes.{ℤ, pos, negsuc}
use zmqmessage.Examples.Async.{AsyncTask, task_step, decrement}

abbrev pub Natural : ℤ → Type 0
Natural (pos n) = Unit
Natural (negsuc n) = ⊥

abbrev pub Positive : ℤ → Type 0
Positive (pos zero) = ⊥
Positive (pos (suc n)) = Unit
Positive (negsuc n) = ⊥

-- All tasks have steps to go, none fewer than that.
abbrev pub AllNatural : List AsyncTask → Type 0
AllNatural [] = Unit
AllNatural (t ∷ ts) = Natural t.remaining_steps × AllNatural ts

abbrev pub AllPositive : List AsyncTask → Type 0
AllPositive [] = Unit
AllPositive (t ∷ ts) = Positive t.remaining_steps × AllPositive ts

abbrev pub ids_of : List AsyncTask → List ℤ
ids_of = map λ t. t.id

-- All tasks have a step to go, and no more than `n`.
abbrev pub Within : ℕ → ℤ → Type 0
Within n (pos zero) = ⊥
Within n (pos (suc k)) = suc k ≤ n
Within n (negsuc k) = ⊥

abbrev pub AllWithin : ℕ → List AsyncTask → Type 0
AllWithin n [] = Unit
AllWithin n (t ∷ ts) = Within n t.remaining_steps × AllWithin n ts

pub task_step-AllNatural : (ts : List AsyncTask) → AllPositive ts → AllNatural (map task_step ts)
unfolding task_step
task_step-AllNatural [] h = tt
task_step-AllNatural (t ∷ ts) (h, hs) = (decrements t.remaining_steps h, task_step-AllNatural ts hs)
  where
    decrements : (z : ℤ) → Positive z → Natural (decrement z)
    decrements (pos zero) h = absurd h
    decrements (pos (suc n)) h = tt
    decrements (negsuc n) h = absurd h

pub ids_of-task_step : (ts : List AsyncTask) → ids_of (map task_step ts) ≡ ids_of ts
unfolding task_step
ids_of-task_step [] = refl
ids_of-task_step (t ∷ ts) = ap (◌∷◌ t.id) (ids_of-task_step ts)
