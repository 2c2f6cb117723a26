-- ===== src/Examples/Async/Accounts.antt =====
-- The books of the task processor: every task is running, or its answer waits, or its answer has
-- been given.
use mathlib.Core.List.Perm
use mathlib.Core.List.{Perm, perm_append_comm, perm_middle}
use zmqmessage.Base.{
  ℕ, zero, suc, ◌≡◌, refl, sym, ap, ◌∙◌, inl, inr, List, [], ◌∷◌, ◌++◌, some, Bool, map, subst,
  append-nil, append_assoc,
}
use zmqmessage.Zmq.{MsgApi, IsMsgApi, Dest, ok, threw, Done, done, zmq_error}
use zmqmessage.Bytes.{ℤ, pos, negsuc}
use zmqmessage.Storage.{DynamicPartsStorage}
use zmqmessage.Sink.Trace.{wire, frames}
use zmqmessage.Sink.Run.{Holds}
use zmqmessage.Tools.{init_msg}
use zmqmessage.Examples.Async.{
  AsyncTask, Processor, task_step, answer, answered, keep, erase, finish_tasks, run_tasks,
}
use zmqmessage.Examples.Async.Answer.{reply, Answered, answer-Kept, answered-Answered}
use zmqmessage.Examples.Async.Tasks.{
  Natural, Positive, AllNatural, AllPositive, ids_of, task_step-AllNatural, ids_of-task_step,
}

-- Moving one task to the end, and one into the middle.
pub moves_last :
    (i : ℤ) (ts ws gs : List ℤ) → Perm (i ∷ (ts ++ (ws ++ gs))) (ts ++ (ws ++ (gs ++ i ∷ [])))
moves_last i ts ws gs =
    subst (Perm (i ∷ (ts ++ (ws ++ gs))))
      (append_assoc ts (ws ++ gs) (i ∷ []) ∙ ap (λ x. ts ++ x) (append_assoc ws gs (i ∷ [])))
      (perm_append_comm (i ∷ []) (ts ++ (ws ++ gs)))

module _ {Msg : Type 0} (zmq : MsgApi Msg) (laws : IsMsgApi zmq) (dst : Dest Msg)
    (show : ℤ → List ℕ) (message : List ℕ → Msg)
    (makes : (bs : List ℕ) → init_msg zmq bs ≡ ok (message bs)) where
  -- The answers to some tasks, one whole multipart message after the other.
  abbrev pub replies : List ℤ → List (Msg × Bool)
  replies [] = []
  replies (i ∷ is) = frames (reply zmq laws dst show message makes i) ++ replies is

  pub replies-append :
      (is : List ℤ) (i : ℤ)
      → replies (is ++ i ∷ []) ≡ replies is ++ frames (reply zmq laws dst show message makes i)
  replies-append [] i = append-nil _
  replies-append (j ∷ is) i =
      ap (λ w. frames (reply zmq laws dst show message makes j) ++ w) (replies-append is i)
      ∙ sym (append_assoc (frames (reply zmq laws dst show message makes j)) (replies is) _)

  -- Each queue holds the answer to one task.
  abbrev pub HoldAll : List ℤ → List (DynamicPartsStorage Msg) → Type 0
  HoldAll [] [] = Unit
  HoldAll [] (q ∷ qs) = ⊥
  HoldAll (i ∷ is) [] = ⊥
  HoldAll (i ∷ is) (q ∷ qs) =
      Holds (reply zmq laws dst show message makes i) (some q) × HoldAll is qs

  -- Of the tasks `ids`, those of `ts` run, the answers to `waiting` are in the queue and those to
  -- `given` have gone over the wire.
  pub record Accounts (ids : List ℤ) (ts : List AsyncTask) (p : Processor Msg) : Type 0 where
    pub waiting : List ℤ
    pub given : List ℤ
    pub on_wire : wire p.sent ≡ replies given
    pub in_queue : HoldAll waiting p.queue
    pub balance : Perm ids (ids_of ts ++ (waiting ++ given))

  -- What has been settled: the books are right, and all tasks have steps to go.
  abbrev pub Settled : List ℤ → ℕ → Done × Processor Msg → Type 0
  Settled ids calls (ok _, r) = Accounts ids r.tasks r × AllPositive r.tasks × (r.calls ≡ calls)
  Settled ids calls (threw e, r) = e ≡ zmq_error

  keep-Settled :
      (ids rest_ids : List ℤ) (calls : ℕ) (t : AsyncTask) (out : Done × Processor Msg)
      → Positive t.remaining_steps
      → Perm ids (t.id ∷ rest_ids)
      → Settled rest_ids calls out
      → Settled ids calls (keep zmq dst show t out)
  unfolding keep
  keep-Settled ids rest_ids calls t (ok _, r) steps perm (a, all, c) = (
    record {
      waiting = a.waiting;
      given = a.given;
      on_wire = a.on_wire;
      in_queue = a.in_queue;
      balance = Perm.trans perm (Perm.cons t.id a.balance);
    },
    (steps, all),
    c,
  )
  keep-Settled ids rest_ids calls t (threw e, r) steps perm h = h

  -- One task less runs once its answer is given or waits.
  Answered-Accounts :
      (ids : List ℤ) (t : AsyncTask) (ts : List AsyncTask) (p r : Processor Msg)
      → Accounts ids (t ∷ ts) p
      → Answered zmq laws dst show message makes t.id p (done, r)
      → Accounts ids ts r
  Answered-Accounts ids t ts p r a (k, c, inl (w, q)) = record {
    waiting = a.waiting;
    given = a.given ++ t.id ∷ [];
    on_wire =
        w
        ∙ ap (λ x. x ++ frames (reply zmq laws dst show message makes t.id)) a.on_wire
        ∙ sym (replies-append a.given t.id);
    in_queue = subst (HoldAll a.waiting) (sym q) a.in_queue;
    balance = Perm.trans a.balance (moves_last t.id (ids_of ts) a.waiting a.given);
  }
  Answered-Accounts ids t ts p r a (k, c, inr (w, (queue, q, h))) = record {
    waiting = t.id ∷ a.waiting;
    given = a.given;
    on_wire = w ∙ a.on_wire;
    in_queue = subst (HoldAll (t.id ∷ a.waiting)) (sym q) (h, a.in_queue);
    balance = Perm.trans a.balance (Perm.symm (perm_middle (ids_of ts) (a.waiting ++ a.given)));
  }

  erase-Settled :
      (ids : List ℤ) (t : AsyncTask) (ts : List AsyncTask) (p : Processor Msg)
      (out : Done × Processor Msg) (rest : Processor Msg → Done × Processor Msg)
      → Accounts ids (t ∷ ts) p
      → Answered zmq laws dst show message makes t.id p out
      → ((r : Processor Msg) → Accounts ids ts r → Settled ids r.calls (rest r))
      → Settled ids p.calls (erase zmq dst show t ts out rest)
  unfolding erase
  erase-Settled ids t ts p (ok _, r) rest a h ih =
      subst (λ c. Settled ids c (rest r)) h.1 (ih r (Answered-Accounts ids t ts p r a h))
  erase-Settled ids t ts p (threw e, r) rest a h ih = h

  finish_tasks-Settled :
      (ts : List AsyncTask) (ids : List ℤ) (p : Processor Msg)
      → AllNatural ts
      → Accounts ids ts p
      → Settled ids p.calls (finish_tasks zmq dst show ts p)
  unfolding finish_tasks
  finish_tasks-Settled [] ids p n a = (
    record {
      waiting = a.waiting;
      given = a.given;
      on_wire = a.on_wire;
      in_queue = a.in_queue;
      balance = a.balance;
    },
    tt,
    refl,
  )
  finish_tasks-Settled (t ∷ ts) ids p (n, ns) a =
      by_steps t.remaining_steps refl n (λ js r b. finish_tasks-Settled ts js r ns b)
    where
      by_steps :
          (z : ℤ)
          → t.remaining_steps ≡ z
          → Natural z
          → ((js : List ℤ) (r : Processor Msg)
              → Accounts js ts r
              → Settled js r.calls (finish_tasks zmq dst show ts r))
          → Settled ids p.calls (finish_tasks zmq dst show (t ∷ ts) p)
      by_steps (pos zero) e m ih =
          let out = answered zmq dst show p (answer zmq dst show p.sent t.id) in
          let erases : finish_tasks zmq dst show (t ∷ ts) p
              ≡ erase zmq dst show t ts out (finish_tasks zmq dst show ts) =
            simp (e, finish_tasks) in
          subst (Settled ids p.calls) (sym erases) (
            erase-Settled ids t ts p out (finish_tasks zmq dst show ts) a
              (answered-Answered zmq laws dst show message makes t.id p _
                (answer-Kept zmq laws dst show message makes p.sent t.id))
              (ih ids))
      by_steps (pos (suc k)) e m ih =
          let keeps : finish_tasks zmq dst show (t ∷ ts) p
              ≡ keep zmq dst show t (finish_tasks zmq dst show ts p) =
            simp (e, finish_tasks) in
          let others = ids_of ts ++ (a.waiting ++ a.given) in
          subst (Settled ids p.calls) (sym keeps) (
            keep-Settled ids others p.calls t _ (subst Positive (sym e) tt) a.balance (
              ih others p (record {
                waiting = a.waiting;
                given = a.given;
                on_wire = a.on_wire;
                in_queue = a.in_queue;
                balance = Perm.refl others;
              })))
      by_steps (negsuc k) e m ih = absurd m

  pub run_tasks-Settled :
      (ids : List ℤ) (p : Processor Msg)
      → AllPositive p.tasks
      → Accounts ids p.tasks p
      → Settled ids p.calls (run_tasks zmq dst show p)
  unfolding run_tasks
  run_tasks-Settled ids p h a =
      finish_tasks-Settled (map task_step p.tasks) ids p (task_step-AllNatural p.tasks h) (record {
        waiting = a.waiting;
        given = a.given;
        on_wire = a.on_wire;
        in_queue = a.in_queue;
        balance =
            subst (λ is. Perm ids (is ++ (a.waiting ++ a.given))) (sym (ids_of-task_step p.tasks))
              a.balance;
      })
