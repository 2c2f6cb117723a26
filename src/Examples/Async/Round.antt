-- ===== src/Examples/Async/Round.antt =====
-- One round of the task processor.
use mathlib.Core.List.Perm
use mathlib.Core.List.{Perm, perm_append_comm, perm_middle}
use zmqmessage.Base.{
  ℕ, zero, suc, ◌-◌, ◌*◌, ◌≡◌, refl, sym, ap, ◌∙◌, inl, inr, List, [], ◌∷◌, ◌++◌, Bool, true, false,
  ◌&&◌, arith, subst, append_assoc, map-append, Bool-cases,
}
use zmqmessage.Zmq.{MsgApi, IsMsgApi, Dest, Source, Result, ok, threw, Done, zmq_error}
use zmqmessage.Bytes.{ℤ}
use zmqmessage.Storage.{DynamicPartsStorage}
use zmqmessage.Sink.Trace.{frames}
use zmqmessage.Tools.{init_msg}
use zmqmessage.Incoming.Counting.{Comes}
use zmqmessage.Examples.Async.{
  AsyncTask, Processor, Poll, timeout, ready, is_empty, run_tasks, goes_on, send_back, accept_task,
  step, max_task_steps,
}
use zmqmessage.Examples.Async.Answer.{reply, SentBack, send_back-SentBack}
use zmqmessage.Examples.Async.Tasks.{AllWithin, ids_of}
use zmqmessage.Examples.Async.Accounts.{
  moves_last, replies-append, HoldAll, Accounts, Settled, run_tasks-Settled,
}
use zmqmessage.Examples.Async.Steps.{
  Stepping, AllWithin-AllPositive, AllWithin-append, accepted-Within, run_tasks-Stepping_weak,
}
use zmqmessage.Examples.Async.Accept.{accepted_task, accepted, accept_task_lem}

one_more_task :
    (i : ℤ) (is ts ws : List ℤ) → Perm is (ts ++ ws) → Perm (is ++ i ∷ []) ((ts ++ i ∷ []) ++ ws)
one_more_task i is ts ws h = Perm.trans (perm_append_comm is (i ∷ [])) (
    Perm.trans (Perm.cons i h) (
      Perm.trans (Perm.symm (perm_middle ts ws))
        (subst (Perm (ts ++ i ∷ ws)) (sym (append_assoc ts (i ∷ []) ws)) (Perm.refl _))))

-- ZMQ_POLLOUT is reported only where it was asked for: while answers wait.
abbrev pub Reports : {Msg : Type 0} → Processor Msg → Poll → Type 0
Reports p timeout = Unit
Reports p (ready stop readable writable) = writable ≡ true → is_empty p.queue ≡ false

module _ {Msg : Type 0} (zmq : MsgApi Msg) (laws : IsMsgApi zmq) (dst : Dest Msg)
    (show : ℤ → List ℕ) (message : List ℕ → Msg)
    (makes : (bs : List ℕ) → init_msg zmq bs ≡ ok (message bs)) (src : Source Msg)
    (parse : Msg → Bool → ℤ) (requests : ℕ → Msg × Msg)
    (comes : (k : ℕ) → Comes src (k * 2) ((requests k).0 ∷ (requests k).1 ∷ [])) where
  -- The tasks that the first requests ask for, in order.
  abbrev pub requested : ℕ → List ℤ
  requested zero = []
  requested (suc k) = requested k ++ parse (requests k).1 false ∷ []

  -- So many requests have been accepted, all of their tasks are accounted for, and those that run
  -- have a step to go and at most nine.
  pub record Sound (p : Processor Msg) : Type 0 where
    pub count : ℕ
    pub stands : p.calls ≡ count * 2
    pub accounts : Accounts zmq laws dst show message makes (requested count) p.tasks p
    pub running : AllWithin (max_task_steps - 1) p.tasks

  -- How a round ends.
  abbrev pub Outcome : Result Bool × Processor Msg → Type 0
  Outcome (ok _, r) = Sound r
  Outcome (threw e, r) = e ≡ zmq_error

  Settled-Outcome :
      (k : ℕ) (out : Done × Processor Msg)
      → Settled zmq laws dst show message makes (requested k) (k * 2) out
      → Stepping zmq dst show (max_task_steps - 1) out
      → Outcome (goes_on zmq dst show out)
  Settled-Outcome k (ok _, r) (a, h, c) w = record {
    count = k;
    stands = c;
    accounts = a;
    running = w;
  }
  Settled-Outcome k (threw e, r) h w = h

  run_tasks-Outcome :
      (p : Processor Msg) → Sound p → Outcome (goes_on zmq dst show (run_tasks zmq dst show p))
  run_tasks-Outcome p h =
      Settled-Outcome h.count _
        (subst
          (λ c.
            Settled zmq laws dst show message makes (requested h.count) c
              (run_tasks zmq dst show p))
          h.stands
          (run_tasks-Settled zmq laws dst show message makes (requested h.count) p
            (AllWithin-AllPositive (max_task_steps - 1) p.tasks h.running) h.accounts))
        (run_tasks-Stepping_weak zmq dst show (max_task_steps - 1) p h.running)

  accept_task-Outcome :
      (p : Processor Msg) (rand : ℕ)
      → Sound p
      → Outcome (goes_on zmq dst show (accept_task zmq dst show src parse p rand))
  accept_task-Outcome p rand h =
      let k = h.count in
      let a = h.accounts in
      let n = (requests k).1 in
      let t : AsyncTask = accepted_task zmq laws dst show src parse n rand in
      subst (λ out. Outcome (goes_on zmq dst show out))
        (sym (
          accept_task_lem zmq laws dst show src parse p rand (requests k).0 n
            (subst (λ c. Comes src c ((requests k).0 ∷ n ∷ [])) (sym h.stands) (comes k))))
        (record {
          count = suc k;
          stands = omega (arith, h.stands);
          accounts = record {
            waiting = a.waiting;
            given = a.given;
            on_wire = a.on_wire;
            in_queue = a.in_queue;
            balance =
                subst (λ is. Perm (requested (suc k)) (is ++ (a.waiting ++ a.given)))
                  (sym (map-append (λ (t : AsyncTask). t.id) p.tasks (t ∷ [])))
                  (one_more_task t.id (requested k) (ids_of p.tasks) (a.waiting ++ a.given)
                    a.balance);
          };
          running =
              AllWithin-append (max_task_steps - 1) p.tasks t h.running (accepted-Within rand);
        })

  SentBack-Outcome :
      (p : Processor Msg) (i : ℤ) (is : List ℤ) (queue : List (DynamicPartsStorage Msg))
      (h : Sound p) (out : Done × Processor Msg)
      → h.accounts.waiting ≡ i ∷ is
      → HoldAll zmq laws dst show message makes is queue
      → SentBack zmq laws dst show message makes
          (reply zmq laws dst show message makes i)
          queue
          p
          out
      → Outcome (goes_on zmq dst show out)
  SentBack-Outcome p i is queue h (ok _, r) e rest (ts, cs, qs, w) =
      let a = h.accounts in
      record {
        count = h.count;
        stands = cs ∙ h.stands;
        accounts = record {
          waiting = is;
          given = a.given ++ i ∷ [];
          on_wire =
              w
              ∙ ap (λ x. x ++ frames (reply zmq laws dst show message makes i)) a.on_wire
              ∙ sym (replies-append zmq laws dst show message makes a.given i);
          in_queue = subst (HoldAll zmq laws dst show message makes is) (sym qs) rest;
          balance =
              subst (λ us. Perm (requested h.count) (ids_of us ++ (is ++ (a.given ++ i ∷ []))))
                (sym ts)
                (Perm.trans
                  (subst (λ ws. Perm (requested h.count) (ids_of p.tasks ++ (ws ++ a.given))) e
                    a.balance)
                  (Perm.append_left (ids_of p.tasks) (moves_last i [] is a.given)));
        };
        running = subst (AllWithin (max_task_steps - 1)) (sym ts) h.running;
      }
  SentBack-Outcome p i is queue h (threw e, r) w rest z = z

  send_back-Outcome :
      (p : Processor Msg) (h : Sound p)
      → (waiting : List ℤ) → h.accounts.waiting ≡ waiting
      → (queue : List (DynamicPartsStorage Msg)) → p.queue ≡ queue
      → HoldAll zmq laws dst show message makes waiting queue
      → is_empty queue ≡ false
      → Outcome (goes_on zmq dst show (send_back zmq dst show queue p))
  send_back-Outcome p h [] e [] q holds some_wait = cc
  send_back-Outcome p h [] e (x ∷ queue) q holds some_wait = absurd holds
  send_back-Outcome p h (i ∷ is) e [] q holds some_wait = cc
  send_back-Outcome p h (i ∷ is) e (x ∷ queue) q (hold, rest) some_wait =
      SentBack-Outcome p i is queue h _ e rest (
        send_back-SentBack zmq laws dst show message makes (reply zmq laws dst show message makes i)
          x queue p hold)

  -- A round of the task processor from a state in which every task is accounted for, under the same
  -- conditions, keeps this or ends with zmq::error_t: no assertion fails, nothing undefined is done
  -- and a request is never refused.
  pub step-Outcome :
      (p : Processor Msg) (event : Poll) (rand : ℕ)
      → Sound p
      → Reports p event
      → Outcome (step zmq dst show src parse p event rand)
  unfolding step
  step-Outcome p timeout rand h r = run_tasks-Outcome p h
  step-Outcome p (ready true readable writable) rand h r = h
  step-Outcome p (ready false readable true) rand h r =
      send_back-Outcome p h h.accounts.waiting refl p.queue refl h.accounts.in_queue (r refl)
  step-Outcome p (ready false readable false) rand h r =
      elim (Bool-cases (is_empty p.queue && readable)) [
        | inl e ↦ simp e (accept_task-Outcome p rand h)
        | inr e ↦ simp e h
      ]

  -- Where no answer waits and only a request is reported, its task is accepted.
  pub step_accepts :
      (p : Processor Msg) (rand k : ℕ)
      → is_empty p.queue ≡ true
      → p.calls ≡ k * 2
      → step zmq dst show src parse p (ready false true false) rand
        ≡ (ok true, accepted zmq laws dst show src parse p (requests k).1 rand)
  unfolding step
  step_accepts p rand k e c = simp e (
      ap (goes_on zmq dst show) (
        accept_task_lem zmq laws dst show src parse p rand (requests k).0 (requests k).1
          (subst (λ d. Comes src d ((requests k).0 ∷ (requests k).1 ∷ [])) (sym c) (comes k))))
