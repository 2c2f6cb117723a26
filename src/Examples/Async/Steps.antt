-- ===== src/Examples/Async/Steps.antt =====
-- The steps that tasks have to go.
use native.Mathlib.Numerals.{add-one}
use zmqmessage.Base.{
  ℕ, zero, suc, ◌+◌, ◌-◌, ◌%◌, ◌≤◌, ◌≡◌, refl, sym, ap, List, [], ◌∷◌, ◌++◌, false, map, arith,
  if◌then◌else◌, subst, Bool-cases, inl, inr,
}
use zmqmessage.Zmq.{MsgApi, Dest, ok, threw, Done}
use zmqmessage.Bytes.{ℤ, pos, negsuc}
use zmqmessage.Examples.Async.{
  AsyncTask, Processor, max_task_steps, is_finished, task_step, decrement, answer, answered, keep,
  erase, finish_tasks, run_tasks,
}
use zmqmessage.Examples.Async.Tasks.{Positive, AllPositive, Within, AllWithin}

-- The tasks that go on.
abbrev pub unfinished : List AsyncTask → List AsyncTask
unfinished [] = []
unfinished (t ∷ ts) = if is_finished t.remaining_steps then unfinished ts else t ∷ unfinished ts

Within-Positive : (n : ℕ) (z : ℤ) → Within n z → Positive z
Within-Positive n (pos zero) h = h
Within-Positive n (pos (suc k)) h = tt
Within-Positive n (negsuc k) h = h

pub AllWithin-AllPositive : (n : ℕ) (ts : List AsyncTask) → AllWithin n ts → AllPositive ts
AllWithin-AllPositive n [] h = tt
AllWithin-AllPositive n (t ∷ ts) (h, hs) =
    (Within-Positive n t.remaining_steps h, AllWithin-AllPositive n ts hs)

pub AllWithin-append :
    (n : ℕ) (ts : List AsyncTask) (t : AsyncTask)
    → AllWithin n ts
    → Within n t.remaining_steps
    → AllWithin n (ts ++ t ∷ [])
AllWithin-append n [] t h k = (k, tt)
AllWithin-append n (s ∷ ts) t (h, hs) k = (h, AllWithin-append n ts t hs k)

Within-suc : (n k : ℕ) → k + 1 ≤ n → Within n (pos (k + 1))
Within-suc n k h = let h' : suc k ≤ n = omega (arith, h) in rw add-one h'

pub accepted-Within :
    (rand : ℕ) → Within (max_task_steps - 1) (pos (rand % (max_task_steps - 1) + 1))
accepted-Within rand = Within-suc 9 (rand % 9) (omega arith)

Within-step :
    (n : ℕ) (z : ℤ) → Within (suc n) z → is_finished (decrement z) ≡ false → Within n (decrement z)
Within-step n (pos zero) h e = absurd h
Within-step n (pos (suc zero)) h e = cc
Within-step n (pos (suc (suc k))) h e = omega arith
Within-step n (negsuc k) h e = absurd h

unfinished-AllWithin :
    (n : ℕ) (ts : List AsyncTask)
    → AllWithin (suc n) ts
    → AllWithin n (unfinished (map task_step ts))
unfolding task_step
unfinished-AllWithin n [] h = tt
unfinished-AllWithin n (t ∷ ts) (h, hs) =
    elim (Bool-cases (is_finished (decrement t.remaining_steps))) [
      | inl e ↦ simp e (unfinished-AllWithin n ts hs)
      | inr e ↦ simp e (Within-step n t.remaining_steps h e, unfinished-AllWithin n ts hs)
    ]

AllWithin-weaken : (n : ℕ) (ts : List AsyncTask) → AllWithin n ts → AllWithin (suc n) ts
AllWithin-weaken n [] h = tt
AllWithin-weaken n (t ∷ ts) (h, hs) = (weaken t.remaining_steps h, AllWithin-weaken n ts hs)
  where
    weaken : (z : ℤ) → Within n z → Within (suc n) z
    weaken (pos zero) h = h
    weaken (pos (suc k)) h = omega arith
    weaken (negsuc k) h = h

module _ {Msg : Type 0} (zmq : MsgApi Msg) (dst : Dest Msg) (show : ℤ → List ℕ) where
  -- Where no exception is thrown, exactly the tasks `us` are left.
  abbrev Left : List AsyncTask → Done × Processor Msg → Type 0
  Left us (ok _, r) = r.tasks ≡ us
  Left us (threw e, r) = Unit

  keep-Left :
      (us : List AsyncTask) (t : AsyncTask) (out : Done × Processor Msg)
      → Left us out
      → Left (t ∷ us) (keep zmq dst show t out)
  unfolding keep
  keep-Left us t (ok _, r) h = ap (◌∷◌ t) h
  keep-Left us t (threw e, r) h = tt

  erase-Left :
      (us ts : List AsyncTask) (t : AsyncTask) (out : Done × Processor Msg)
      (rest : Processor Msg → Done × Processor Msg)
      → ((r : Processor Msg) → Left us (rest r))
      → Left us (erase zmq dst show t ts out rest)
  unfolding erase
  erase-Left us ts t (ok _, r) rest h = h r
  erase-Left us ts t (threw e, r) rest h = tt

  finish_tasks-Left :
      (ts : List AsyncTask) (p : Processor Msg)
      → Left (unfinished ts) (finish_tasks zmq dst show ts p)
  unfolding finish_tasks
  finish_tasks-Left [] p = refl
  finish_tasks-Left (t ∷ ts) p = elim (Bool-cases (is_finished t.remaining_steps)) [
    | inl e ↦ simp e (
        erase-Left (unfinished ts) ts t (answered zmq dst show p (answer zmq dst show p.sent t.id))
          (finish_tasks zmq dst show ts) (finish_tasks-Left ts))
    | inr e ↦
        simp e
          (keep-Left (unfinished ts) t (finish_tasks zmq dst show ts p) (finish_tasks-Left ts p))
  ]

  -- The tasks that run are within `n` steps.
  abbrev pub Stepping : ℕ → Done × Processor Msg → Type 0
  Stepping n (ok _, r) = AllWithin n r.tasks
  Stepping n (threw e, r) = Unit

  -- A timeout brings every task one step on.
  pub run_tasks-Stepping :
      (n : ℕ) (p : Processor Msg)
      → AllWithin (suc n) p.tasks
      → Stepping n (run_tasks zmq dst show p)
  unfolding run_tasks
  run_tasks-Stepping n p h =
      within (finish_tasks zmq dst show (map task_step p.tasks) p)
        (finish_tasks-Left (map task_step p.tasks) p)
    where
      within :
          (out : Done × Processor Msg)
          → Left (unfinished (map task_step p.tasks)) out
          → Stepping n out
      within (ok _, r) e = subst (AllWithin n) (sym e) (unfinished-AllWithin n p.tasks h)
      within (threw e, r) h = tt

  pub run_tasks-Stepping_weak :
      (n : ℕ) (p : Processor Msg) → AllWithin n p.tasks → Stepping n (run_tasks zmq dst show p)
  run_tasks-Stepping_weak n p h = run_tasks-Stepping n p (AllWithin-weaken n p.tasks h)
