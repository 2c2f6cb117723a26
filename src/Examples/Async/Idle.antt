-- ===== src/Examples/Async/Idle.antt =====
-- What becomes of the tasks that run, and of new requests while answers wait.
use zmqmessage.Base.{
  ℕ, zero, suc, ◌-◌, ◌*◌, ◌≡◌, refl, ◌∙◌, inl, inr, List, [], ◌∷◌, Bool, true, false, map, arith,
  Bool-cases,
}
use zmqmessage.Zmq.{MsgApi, IsMsgApi, Dest, Source, Result, ok, threw, Done, zmq_error}
use zmqmessage.Bytes.{ℤ, pos, negsuc}
use zmqmessage.Tools.{init_msg}
use zmqmessage.Incoming.Counting.{Comes}
use zmqmessage.Examples.Async.{
  AsyncTask, Processor, Poll, timeout, ready, is_empty, max_task_steps, is_finished, task_step,
  answer, answered, scope_end, keep, erase, finish_tasks, run_tasks, goes_on, send_back, step,
}
use zmqmessage.Examples.Async.Tasks.{Within, AllWithin}
use zmqmessage.Examples.Async.Steps.{Stepping, run_tasks-Stepping}
use zmqmessage.Examples.Async.Round.{Sound, Outcome, step-Outcome}
use zmqmessage.Examples.Async.Run.{Reaches, Reaches-Sound}

none_within : (ts : List AsyncTask) → AllWithin 0 ts → ts ≡ []
none_within [] h = refl
none_within (t ∷ ts) (h, hs) = absurd (no_step t.remaining_steps h)
  where
    no_step : (z : ℤ) → ¬ Within 0 z
    no_step (pos zero) h = h
    no_step (pos (suc k)) h = elim h [ ]
    no_step (negsuc k) h = h

module _ {Msg : Type 0} (zmq : MsgApi Msg) (dst : Dest Msg) (show : ℤ → List ℕ) (src : Source Msg)
    (parse : Msg → Bool → ℤ) where
  after_timeout :
      Result Bool × Processor Msg
      → (Processor Msg → Result Bool × Processor Msg)
      → Result Bool × Processor Msg
  after_timeout (ok _, p) rest = rest p
  after_timeout (threw e, p) rest = (threw e, p)

  -- Timeouts of `zmq::poll` in a row.
  pub timeouts : ℕ → Processor Msg → Result Bool × Processor Msg
  unfolding after_timeout
  timeouts zero p = (ok true, p)
  timeouts (suc n) p = after_timeout (step zmq dst show src parse p timeout 0) (timeouts n)

  keep_calls :
      (t : AsyncTask) (out : Done × Processor Msg) → (keep zmq dst show t out).1.calls ≡ out.1.calls
  unfolding keep
  keep_calls t (r, p) = refl

  answered_calls :
      (p : Processor Msg) (out : Done × _) → (answered zmq dst show p out).1.calls ≡ p.calls
  unfolding answered scope_end
  answered_calls p (ok _, s) = ground arith
  answered_calls p (threw e, s) = refl

  erase_calls :
      (t : AsyncTask) (ts : List AsyncTask) (out : Done × Processor Msg)
      (rest : Processor Msg → Done × Processor Msg)
      → ((r : Processor Msg) → (rest r).1.calls ≡ r.calls)
      → (erase zmq dst show t ts out rest).1.calls ≡ out.1.calls
  unfolding erase
  erase_calls t ts (ok _, r) rest h = h r
  erase_calls t ts (threw e, r) rest h = refl

  finish_tasks_calls :
      (ts : List AsyncTask) (p : Processor Msg) → (finish_tasks zmq dst show ts p).1.calls ≡ p.calls
  unfolding finish_tasks
  finish_tasks_calls [] p = refl
  finish_tasks_calls (t ∷ ts) p = elim (Bool-cases (is_finished t.remaining_steps)) [
    | inl e ↦ simp e (
        erase_calls t ts (answered zmq dst show p (answer zmq dst show p.sent t.id))
          (finish_tasks zmq dst show ts) (finish_tasks_calls ts)
        ∙ answered_calls p (answer zmq dst show p.sent t.id))
    | inr e ↦ simp e (keep_calls t (finish_tasks zmq dst show ts p) ∙ finish_tasks_calls ts p)
  ]

  goes_on_calls : (out : Done × Processor Msg) → (goes_on zmq dst show out).1.calls ≡ out.1.calls
  goes_on_calls (ok _, p) = refl
  goes_on_calls (threw e, p) = refl

  send_back_calls :
      (p : Processor Msg) (queue : List _) → (send_back zmq dst show queue p).1.calls ≡ p.calls
  unfolding send_back
  send_back_calls p [] = refl
  send_back_calls p (q ∷ queue) = refl

  -- While an answer waits in the queue, a round of the task processor receives nothing from the
  -- request socket, whatever is reported and also if it throws.
  pub step_busy :
      (p : Processor Msg) (event : Poll) (rand : ℕ)
      → is_empty p.queue ≡ false
      → (step zmq dst show src parse p event rand).1.calls ≡ p.calls
  unfolding step run_tasks
  step_busy p timeout rand e =
      goes_on_calls (run_tasks zmq dst show p) ∙ finish_tasks_calls (map task_step p.tasks) p
  step_busy p (ready true readable writable) rand e = refl
  step_busy p (ready false readable true) rand e =
      goes_on_calls (send_back zmq dst show p.queue p) ∙ send_back_calls p p.queue
  step_busy p (ready false readable false) rand e = simp e

module _ {Msg : Type 0} (zmq : MsgApi Msg) (laws : IsMsgApi zmq) (dst : Dest Msg)
    (show : ℤ → List ℕ) (message : List ℕ → Msg)
    (makes : (bs : List ℕ) → init_msg zmq bs ≡ ok (message bs)) (src : Source Msg)
    (parse : Msg → Bool → ℤ) (requests : ℕ → Msg × Msg)
    (comes : (k : ℕ) → Comes src (k * 2) ((requests k).0 ∷ (requests k).1 ∷ [])) where
  -- No task runs, and all that were accepted are accounted for.
  abbrev pub Idle : Result Bool × Processor Msg → Type 0
  Idle (ok _, r) = (r.tasks ≡ []) × Sound zmq laws dst show message makes src parse requests comes r
  Idle (threw e, r) = e ≡ zmq_error

  -- A round keeps the books and brings the tasks one step on.
  abbrev Stepped : ℕ → Result Bool × Processor Msg → Type 0
  Stepped n (ok _, r) =
      AllWithin n r.tasks × Sound zmq laws dst show message makes src parse requests comes r
  Stepped n (threw e, r) = e ≡ zmq_error

  timeout-Stepped :
      (n : ℕ) (p : Processor Msg)
      → AllWithin (suc n) p.tasks
      → Sound zmq laws dst show message makes src parse requests comes p
      → Stepped n (step zmq dst show src parse p timeout 0)
  unfolding step
  timeout-Stepped n p w h =
      both (run_tasks zmq dst show p) (run_tasks-Stepping zmq dst show n p w)
        (step-Outcome zmq laws dst show message makes src parse requests comes p timeout 0 h tt)
    where
      both :
          (out : Done × Processor Msg)
          → Stepping zmq dst show n out
          → Outcome zmq laws dst show message makes src parse requests comes
              (goes_on zmq dst show out)
          → Stepped n (goes_on zmq dst show out)
      both (ok _, r) w k = (w, k)
      both (threw e, r) w k = k

  timeouts-Idle :
      (n : ℕ) (p : Processor Msg)
      → AllWithin n p.tasks
      → Sound zmq laws dst show message makes src parse requests comes p
      → Idle (timeouts zmq dst show src parse n p)
  unfolding timeouts
  timeouts-Idle zero p w h = (none_within p.tasks w, h)
  timeouts-Idle (suc n) p w h =
      after (step zmq dst show src parse p timeout 0) (timeout-Stepped n p w h) (timeouts-Idle n)
    where
      after :
          (out : Result Bool × Processor Msg)
          → Stepped n out
          → ((r : Processor Msg)
              → AllWithin n r.tasks
              → Sound zmq laws dst show message makes src parse requests comes r
              → Idle (timeouts zmq dst show src parse n r))
          → Idle (after_timeout zmq dst show src parse out (timeouts zmq dst show src parse n))
      after (ok _, r) (v, k) ih = unfold after_timeout in ih r v k
      after (threw e, r) k ih = unfold after_timeout in k

  -- From every state that rounds of the task processor lead to, under the same conditions,
  -- max_task_steps - 1 timeouts in a row end with zmq::error_t, or with no task running, so that
  -- all accepted tasks have an answer that waits or has been sent.
  pub Reaches-Idle :
      (p : Processor Msg)
      → Reaches zmq laws dst show message makes src parse requests comes p
      → Idle (timeouts zmq dst show src parse (max_task_steps - 1) p)
  Reaches-Idle p reach =
      let h = Reaches-Sound zmq laws dst show message makes src parse requests comes p reach in
      timeouts-Idle (max_task_steps - 1) p h.running h
