-- ===== src/Tests/Dispatch.antt =====
-- The threads of zbisort: a request for the worker of numbers and a "STOP".
use zmqmessage.Base.{ℕ, ◌≡◌, refl, List, [], ◌∷◌, ltb, ◌==◌, if◌then◌else◌, arith}
use zmqmessage.Zmq.{arrives, ok}
use zmqmessage.Bytes.{ℤ}
use zmqmessage.Tools.{init_msg}
use zmqmessage.Examples.Bisort.{Link, Socket, Relayer, int_mode, stop_mode, some_addition, rounds}
use zmqmessage.Examples.Bisort.Serve.{Worker, socket_of}
use zmqmessage.Examples.Bisort.Session.{Job, Attended, rounds-Attended}
use zmqmessage.Tests.Samples.{
  Bytes, bytes_api, bytes_api-IsMsgApi, open_socket, three_source, three_messages,
}
use zmqmessage.Tests.Comparing.{plain_memcmp, plain_memcmp-IsMemcmp}

-- "INT" with two numbers, then "STOP".
abbrev requested : ℕ → Bytes
requested calls = if calls == 0 then int_mode else if calls == 3 then stop_mode else calls ∷ []

abbrev main_link : Link Bytes
main_link = record {
  dst = open_socket;
  src = record { recv = λ calls. arrives (requested calls); rcvmore = λ calls. ltb calls 3 };
}

abbrev worker_link : Link Bytes
worker_link = record { dst = open_socket; src = three_source }

abbrev unused : Socket Bytes
unused = record { trace = []; calls = 0 }

abbrev relayer : Relayer Bytes
relayer = record { relay = unused; s = unused; i = unused }

abbrev show_number : ℤ → List ℕ
show_number z = 51 ∷ 56 ∷ []

abbrev addition : Worker → Bytes
addition Worker.int = 51 ∷ 56 ∷ []
addition Worker.string = some_addition

abbrev number_job : Job Bytes
number_job = record {
  worker = Worker.int;
  mode = int_mode;
  request = (1 ∷ []) ∷ (2 ∷ []) ∷ [];
  answer = three_messages;
}

abbrev text_of : Worker → List ℕ
text_of Worker.int = show_number (ℤ.pos 38)
text_of Worker.string = some_addition

made : (w : Worker) → init_msg bytes_api (text_of w) ≡ ok (addition w)
unfolding init_msg
made Worker.int = refl
made Worker.string = refl

made_stop : init_msg bytes_api stop_mode ≡ ok stop_mode
unfolding init_msg
made_stop = refl

-- No socket was used before.
calls_zero : (w : Worker) → 0 ≡ (socket_of w relayer).calls
calls_zero Worker.int = refl
calls_zero Worker.string = refl

rounds-Attended_example :
    Attended bytes_api bytes_api-IsMsgApi main_link worker_link worker_link plain_memcmp
      plain_memcmp-IsMemcmp show_number addition stop_mode made made_stop
      (number_job ∷ [])
      relayer
      (rounds bytes_api main_link worker_link worker_link plain_memcmp show_number 2 4 relayer)
rounds-Attended_example =
    rounds-Attended bytes_api bytes_api-IsMsgApi main_link worker_link worker_link plain_memcmp
      plain_memcmp-IsMemcmp show_number addition stop_mode made made_stop 4 (number_job ∷ [])
      relayer 0 (λ w. 0) refl calls_zero
      (
        refl,
        omega arith,
        omega arith,
        omega arith,
        omega arith,
        omega arith,
        (refl, refl, (refl, refl, (refl, refl))),
        (refl, refl, (refl, refl, (refl, refl))),
        (stop_mode, refl, (refl, refl)),
      )
