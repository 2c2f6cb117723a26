-- ===== src/Examples/Queue/Round.antt =====
-- A round of the thread `worker`, whatever `zmq::poll` reports.
use zmqmessage.Base.{ℕ, zero, suc, ◌*◌, ◌≡◌, ◌⊎◌, List, [], ◌∷◌, ◌++◌, none, Bool, true, false}
use zmqmessage.Zmq.{MsgApi, IsMsgApi, Dest, Source, Result, ok, threw, zmq_error}
use zmqmessage.Part.{Part}
use zmqmessage.Sink.Trace.{wire, frames}
use zmqmessage.Sink.Run.{Holds}
use zmqmessage.Tools.{init_msg}
use zmqmessage.Incoming.Counting.{Comes}
use zmqmessage.Examples.Queue.{QueueWorker, Polled, response}

module _ {Msg : Type 0} (zmq : MsgApi Msg) (laws : IsMsgApi zmq) (dst : Dest Msg) (src : Source Msg)
    (r : Msg) (made : init_msg zmq response ≡ ok r) (requests : ℕ → Msg × Msg)
    (comes : (k : ℕ) → Comes src (k * 2) ((requests k).0 ∷ (requests k).1 ∷ [])) where
  -- The answer to a request.
  abbrev pub reply : ℕ → List Msg
  reply k = r ∷ (requests k).1 ∷ []

  -- The answers to the first requests on the wire.
  abbrev pub replies : ℕ → List (Msg × Bool)
  replies zero = []
  replies (suc k) = replies k ++ frames (reply k)

  -- The answers to the first `n` requests, each whole and in order, have gone out, or all but the
  -- last, which waits.
  abbrev pub Given : ℕ → QueueWorker Msg → Type 0
  Given n w =
      (wire w.trace ≡ replies n) × (w.queue ≡ none)
      ⊎ ((k : ℕ) × (n ≡ suc k) × (wire w.trace ≡ replies k) × Holds (reply k) w.queue)

  abbrev pub Sound : QueueWorker Msg → Type 0
  Sound w = (n : ℕ) × (w.calls ≡ n * 2) × Given n w

  -- ZMQ_POLLOUT is reported only while an answer waits, and ZMQ_POLLIN alone only while none does.
  abbrev pub Reports : QueueWorker Msg → Polled → Type 0
  Reports w Polled.stopped = Unit
  Reports w (Polled.events true readable) = ¬ (w.queue ≡ none)
  Reports w (Polled.events false true) = w.queue ≡ none
  Reports w (Polled.events false false) = Unit

  abbrev pub Outcome : Result Bool × QueueWorker Msg → Type 0
  Outcome (ok again, w) = Sound w
  Outcome (threw e, w) = e ≡ zmq_error
