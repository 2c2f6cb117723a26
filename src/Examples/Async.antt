-- ===== src/Examples/Async.antt =====
-- examples/zasync.cpp: the thread that processes tasks in steps, accepts new ones only while no
-- answer waits, and sends the answers, at once or later. An exception ends the thread. Printing
-- and the setting up of sockets are left out.
pub mod Answer
pub mod Tasks
pub mod Accounts
pub mod Accept
pub mod Steps
pub mod Round
pub mod Run
pub mod Idle
use zmqmessage.Base.{
  ℕ, zero, suc, ◌+◌, ◌-◌, ◌%◌, ◌≡◌, List, [], ◌∷◌, ◌++◌, Option, none, some, Bool, true, false,
  ◌&&◌, if◌then◌else◌, bit_or, map,
}
use zmqmessage.Zmq.{MsgApi, Event, Dest, Source, Result, ok, threw, Done, done, undefined}
use zmqmessage.Bytes.{ℤ, pos, negsuc}
use zmqmessage.Part.{Part}
use zmqmessage.Options.{nonblock, cache_on_block}
use zmqmessage.Storage.{DynamicPartsStorage, dynamic_make, dynamic_parts, default_capacity}
use zmqmessage.Storage.Interface.{dynamic_storage}
use zmqmessage.Sink.{Sink, sink_make, flush, is_queued, detach, sink_destroy}
use zmqmessage.Inserting.{insert_value}
use zmqmessage.Multipart.{send}
use zmqmessage.Incoming.{Incoming, incoming_make, receive_parts, extract}

abbrev pub max_task_steps : ℕ
max_task_steps = 10

pub record AsyncTask : Type 0 where
  pub id : ℤ
  pub remaining_steps : ℤ

abbrev pub decrement : ℤ → ℤ
decrement (pos zero) = negsuc 0
decrement (pos (suc n)) = pos n
decrement (negsuc n) = negsuc (suc n)

abbrev pub is_finished : ℤ → Bool
is_finished (pos zero) = true
is_finished (pos (suc n)) = false
is_finished (negsuc n) = false

unfoldable pub task_step : AsyncTask → AsyncTask
task_step task = record task { remaining_steps = decrement task.remaining_steps }

-- The tasks, the queue of detached answers with its back first, what `s_res` has seen and where
-- `s_req` stands.
pub record Processor (Msg : Type 0) : Type 0 where
  pub tasks : List AsyncTask
  pub queue : List (DynamicPartsStorage Msg)
  pub sent : List (Event Msg)
  pub calls : ℕ

-- How `zmq::poll` ends: by its timeout, or with the events that it reports for the stop signal,
-- ZMQ_POLLIN for `s_req` and ZMQ_POLLOUT for `s_res`.
pub data Poll : Type 0 where
  timeout : Poll
  ready : Bool → Bool → Bool → Poll

-- "finished"
abbrev pub finished : List ℕ
finished = 102 ∷ 105 ∷ 110 ∷ 105 ∷ 115 ∷ 104 ∷ 101 ∷ 100 ∷ []

abbrev pub is_empty : {A : Type 0} → List A → Bool
is_empty [] = true
is_empty (x ∷ xs) = false

module _ {Msg : Type 0} (zmq : MsgApi Msg) (dst : Dest Msg) (show : ℤ → List ℕ) where
  -- `s_res`, after what it has seen before this message.
  abbrev pub behind : List (Event Msg) → Dest Msg
  behind sent history m flags = dst (history ++ sent) m flags

  abbrev pub egress : Sink Msg
  egress = sink_make zmq (bit_or cache_on_block nonblock) false none

  unfoldable pub chained : Done × Sink Msg → (Sink Msg → Done × Sink Msg) → Done × Sink Msg
  chained (ok _, s) rest = rest s
  chained (threw e, s) rest = (threw e, s)

  -- `egress << "finished" << task.id << Flush`
  unfoldable pub answer : List (Event Msg) → ℤ → Done × Sink Msg
  unfolding chained
  answer sent id =
      chained (insert_value zmq (behind sent) (λ text binary. text) egress finished) (λ s.
        chained (insert_value zmq (behind sent) (λ i binary. show i) s id)
          (flush zmq (behind sent)))

  abbrev pub enqueue :
      Option (DynamicPartsStorage Msg)
      → List (DynamicPartsStorage Msg)
      → List (DynamicPartsStorage Msg)
  enqueue none queue = queue
  enqueue (some q) queue = q ∷ queue

  -- The end of the scope of `egress`.
  scope_end : Processor Msg → Sink Msg → Processor Msg
  scope_end p s = record p { sent = (sink_destroy zmq (behind p.sent) s).trace ++ p.sent }

  -- What follows the flush, with the destructor of `egress`.
  pub answered : Processor Msg → Done × Sink Msg → Done × Processor Msg
  unfolding scope_end
  answered p (ok _, s) =
      let (queue, s') = detach s in
      if is_queued s
      then (done, record (scope_end p s') { queue = enqueue queue p.queue })
      else (done, scope_end p s)
  answered p (threw e, s) = (threw e, scope_end p s)

  keep : AsyncTask → Done × Processor Msg → Done × Processor Msg
  keep task (r, p) = (r, record p { tasks = task ∷ p.tasks })

  -- After an answer: the task is erased, unless an exception came before.
  erase :
      AsyncTask
      → List AsyncTask
      → Done × Processor Msg
      → (Processor Msg → Done × Processor Msg)
      → Done × Processor Msg
  erase task ts (ok _, p) rest = rest p
  erase task ts (threw e, p) rest = (threw e, record p { tasks = task ∷ ts })

  -- The loop of `run_tasks` over the tasks that are left.
  pub finish_tasks : List AsyncTask → Processor Msg → Done × Processor Msg
  unfolding answered answer keep erase
  finish_tasks [] p = (done, record p { tasks = [] })
  finish_tasks (task ∷ ts) p =
      let rest = finish_tasks ts in
      if is_finished task.remaining_steps
      then erase task ts (answered p (answer p.sent task.id)) rest
      else keep task (rest p)

  -- `run_tasks`
  unfoldable pub run_tasks : Processor Msg → Done × Processor Msg
  unfolding finish_tasks task_step
  run_tasks p = finish_tasks (map task_step p.tasks) p

  abbrev pub goes_on : Done × Processor Msg → Result Bool × Processor Msg
  goes_on (ok _, p) = (ok true, p)
  goes_on (threw e, p) = (threw e, p)

  -- The branch of ZMQ_POLLOUT: the back of the queue is sent.
  pub send_back : List (DynamicPartsStorage Msg) → Processor Msg → Done × Processor Msg
  send_back [] p = (threw undefined, p)
  send_back (q ∷ queue) p =
      let (r, parts, sent) = send zmq dst p.sent (dynamic_parts q) true false in
      (r, record p { queue = queue; sent = sent })

  module _ (src : Source Msg) (parse : Msg → Bool → ℤ) where
    -- `ingress >> tmp >> task.id`, and the new task.
    push_task :
        Processor Msg → ℕ → Result ℤ × Incoming Msg (DynamicPartsStorage Msg) → Done × Processor Msg
    push_task p rand (ok id, s) = (
      done,
      record p {
        tasks =
            p.tasks
            ++ record { id = id; remaining_steps = pos (rand % (max_task_steps - 1) + 1) } ∷ [];
        calls = s.calls;
      },
    )
    push_task p rand (threw e, s) = (threw e, record p { calls = s.calls })

    read_type :
        Processor Msg
        → ℕ
        → Result (List ℕ) × Incoming Msg (DynamicPartsStorage Msg)
        → Done × Processor Msg
    unfolding push_task
    read_type p rand (ok text, s) = push_task p rand (extract (dynamic_storage zmq) parse s)
    read_type p rand (threw e, s) = (threw e, record p { calls = s.calls })

    read_task :
        Processor Msg → ℕ → Done × Incoming Msg (DynamicPartsStorage Msg) → Done × Processor Msg
    unfolding read_type
    read_task p rand (ok _, s) =
        read_type p rand (extract (dynamic_storage zmq) (λ m binary. zmq.bytes m) s)
    read_task p rand (threw e, s) = (threw e, record p { calls = s.calls })

    -- The branch of ZMQ_POLLIN: a new task is received.
    pub accept_task : Processor Msg → ℕ → Done × Processor Msg
    unfolding read_task
    accept_task p rand = read_task p rand (
        receive_parts (dynamic_storage zmq) src
          (incoming_make (dynamic_make zmq default_capacity) p.calls) 2 true)

    -- One round of `async_task_processor`: whether there is another one.
    pub step : Processor Msg → Poll → ℕ → Result Bool × Processor Msg
    unfolding run_tasks send_back accept_task
    step p timeout rand = goes_on (run_tasks p)
    step p (ready true readable writable) rand = (ok false, p)
    step p (ready false readable writable) rand =
        if writable
        then goes_on (send_back p.queue p)
        else if is_empty p.queue && readable
        then goes_on (accept_task p rand)
        else (ok true, p)
