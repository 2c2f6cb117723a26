-- ===== src/Tests/Tasks.antt =====
-- The task processor, with one task that has been accepted.
use zmqmessage.Base.{
  ℕ, ◌+◌, ◌*◌, ◌%◌, ◌≡◌, refl, List, [], ◌∷◌, Bool, true, false, none, ◌==◌, arith,
}
use zmqmessage.Zmq.{Source, arrives, ok}
use zmqmessage.Bytes.{ℤ, pos, negsuc}
use zmqmessage.Options.{has_option}
use zmqmessage.Sink.{sink_make}
use zmqmessage.Sink.Delivery.{send_all}
use zmqmessage.Sink.Kept.{Kept, send_all-Kept}
use zmqmessage.Tools.{init_msg}
use zmqmessage.Incoming.Counting.{Comes}
use zmqmessage.Examples.Async.{Processor, timeout, ready, step}
use zmqmessage.Examples.Async.Accept.{accepted}
use zmqmessage.Examples.Async.Round.{Sound, Outcome, step_accepts, step-Outcome}
use zmqmessage.Examples.Async.Run.{start, Reaches, starts, rounds, Reaches-Sound}
use zmqmessage.Examples.Async.Idle.{Idle, timeouts, Reaches-Idle}
use zmqmessage.Tests.Samples.{
  Bytes, bytes_api, bytes_api-IsMsgApi, full_socket, three_parts, full_block,
}

-- Under CACHE_ON_BLOCK, to a socket that would block.
send_all-Kept_example :
    Kept
      ((1 ∷ 2 ∷ []) ∷ [] ∷ (3 ∷ []) ∷ [])
      (send_all bytes_api full_socket three_parts (sink_make bytes_api 2 false none))
unfolding has_option
send_all-Kept_example =
    send_all-Kept bytes_api bytes_api-IsMsgApi full_socket 2 false none three_parts refl
      (refl, (refl, (refl, tt))) (omega arith) (omega arith)

-- Requests of two parts, each a byte that tells which call gives it.
abbrev request_source : Source Bytes
request_source = record { recv = λ calls. arrives (calls ∷ []); rcvmore = λ calls. calls % 2 == 1 }

abbrev requests : ℕ → Bytes × Bytes
requests k = ((k * 2) ∷ [], (k * 2 + 1) ∷ [])

requests_come : (k : ℕ) → Comes request_source (k * 2) ((requests k).0 ∷ (requests k).1 ∷ [])
requests_come k = (refl, ground arith, (refl, ground arith))

abbrev first_byte : Bytes → Bool → ℤ
first_byte [] binary = pos 0
first_byte (b ∷ bs) binary = pos b

abbrev digits : ℤ → List ℕ
digits (pos n) = n ∷ []
digits (negsuc n) = 45 ∷ n ∷ []

all_made : (bs : List ℕ) → init_msg bytes_api bs ≡ ok bs
unfolding init_msg
all_made bs = refl

abbrev idle_thread : Processor Bytes
idle_thread =
    start bytes_api bytes_api-IsMsgApi full_socket digits (λ bs. bs) all_made request_source
      first_byte requests requests_come

-- The first request has been accepted.
abbrev one_task : Processor Bytes
one_task =
    accepted bytes_api bytes_api-IsMsgApi full_socket digits request_source first_byte idle_thread
      (1 ∷ []) 4

one_task-Reaches :
    Reaches bytes_api bytes_api-IsMsgApi full_socket digits
      (λ bs. bs)
      all_made
      request_source
      first_byte
      requests
      requests_come
      one_task
one_task-Reaches =
    rounds idle_thread (ready false true false) 4 one_task starts (λ e. cc)
      (step_accepts bytes_api bytes_api-IsMsgApi full_socket digits (λ bs. bs) all_made
        request_source first_byte requests requests_come idle_thread 4 0 refl refl)

Reaches-Sound_example :
    Sound bytes_api bytes_api-IsMsgApi full_socket digits
      (λ bs. bs)
      all_made
      request_source
      first_byte
      requests
      requests_come
      one_task
Reaches-Sound_example =
    Reaches-Sound bytes_api bytes_api-IsMsgApi full_socket digits (λ bs. bs) all_made request_source
      first_byte requests requests_come one_task one_task-Reaches

one_task-Sound :
    Sound bytes_api bytes_api-IsMsgApi full_socket digits
      (λ bs. bs)
      all_made
      request_source
      first_byte
      requests
      requests_come
      one_task
one_task-Sound =
    Reaches-Sound bytes_api bytes_api-IsMsgApi full_socket digits (λ bs. bs) all_made request_source
      first_byte requests requests_come one_task one_task-Reaches

step-Outcome_example :
    Outcome bytes_api bytes_api-IsMsgApi full_socket digits
      (λ bs. bs)
      all_made
      request_source
      first_byte
      requests
      requests_come
      (step bytes_api full_socket digits request_source first_byte one_task timeout 0)
step-Outcome_example =
    step-Outcome bytes_api bytes_api-IsMsgApi full_socket digits (λ bs. bs) all_made request_source
      first_byte requests requests_come one_task timeout 0 one_task-Sound tt

Reaches-Idle_example :
    Idle bytes_api bytes_api-IsMsgApi full_socket digits
      (λ bs. bs)
      all_made
      request_source
      first_byte
      requests
      requests_come
      (timeouts bytes_api full_socket digits request_source first_byte 9 one_task)
Reaches-Idle_example =
    Reaches-Idle bytes_api bytes_api-IsMsgApi full_socket digits (λ bs. bs) all_made request_source
      first_byte requests requests_come one_task one_task-Reaches

-- An answer waits.
abbrev busy : Processor Bytes
busy = record { tasks = []; queue = full_block ∷ []; sent = []; calls = 2 }
