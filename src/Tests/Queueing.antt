-- ===== src/Tests/Queueing.antt =====
-- The worker of zqueue: the first request comes to a fresh worker.
use zmqmessage.Base.{ℕ, ◌+◌, ◌*◌, ◌%◌, [], ◌∷◌, none, ◌==◌}
use zmqmessage.Zmq.{Source, arrives}
use zmqmessage.Examples.Queue.{QueueWorker}
use zmqmessage.Tests.Samples.{Bytes}

abbrev main_source : Source Bytes
main_source = record { recv = λ calls. arrives (calls ∷ []); rcvmore = λ calls. calls % 2 == 1 }

abbrev requested : ℕ → Bytes × Bytes
requested k = ((k * 2) ∷ [], (k * 2 + 1) ∷ [])

abbrev fresh_worker : QueueWorker Bytes
fresh_worker = record { queue = none; trace = []; calls = 0 }
