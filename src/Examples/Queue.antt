-- ===== src/Examples/Queue.antt =====
-- examples/zqueue.cpp: the thread `worker`, the loop that answers a request at once or, where the send would
-- block, keeps the answer and sends it when the socket can take it. An exception ends the thread.
-- Printing, the setting up of sockets and the main thread are left out.
pub mod Answering
pub mod Keeping
pub mod Round
use zmqmessage.Base.{
  ℕ, List, [], ◌∷◌, ◌++◌, Option, none, some, Bool, true, false, if◌then◌else◌, bit_or,
}
use zmqmessage.Zmq.{
  MsgApi, Event, Dest, Source, Result, ok, threw, Done, done, undefined, assert_failed,
}
use zmqmessage.Part.{Part}
use zmqmessage.Options.{nonblock, cache_on_block}
use zmqmessage.Storage.{DynamicPartsStorage, dynamic_make, dynamic_parts, default_capacity}
use zmqmessage.Storage.Interface.{dynamic_storage}
use zmqmessage.Sink.{Sink, sink_make, flush, is_queued, detach, sink_destroy}
use zmqmessage.Inserting.{insert_value, insert_part, PartRef}
use zmqmessage.Multipart.{at, send}
use zmqmessage.Incoming.{Incoming, incoming_make, receive_parts}

-- The answer that waits, what `s` has sent, the latest first, and how often it was received from.
pub record QueueWorker (Msg : Type 0) : Type 0 where
  pub queue : Option (DynamicPartsStorage Msg)
  pub trace : List (Event Msg)
  pub calls : ℕ

-- What `zmq::poll` reports: the stop signal, or ZMQ_POLLOUT and ZMQ_POLLIN of `s`.
pub data Polled : Type 0 where
  stopped : Polled
  events : Bool → Bool → Polled

-- "response"
abbrev pub response : List ℕ
response = 114 ∷ 101 ∷ 115 ∷ 112 ∷ 111 ∷ 110 ∷ 115 ∷ 101 ∷ []

module _ {Msg : Type 0} (zmq : MsgApi Msg) (dst : Dest Msg) (src : Source Msg) where
  -- `s`, after what it has sent before this message.
  abbrev pub behind : QueueWorker Msg → Dest Msg
  behind w history m flags = dst (history ++ w.trace) m flags

  -- `egress`, with the parts of `ingress`.
  abbrev pub egress : List (Part Msg) → Sink Msg
  egress parts = sink_make zmq (bit_or cache_on_block nonblock) false (some parts)

  unfoldable pub chained : Done × Sink Msg → (Sink Msg → Done × Sink Msg) → Done × Sink Msg
  chained (ok _, s) rest = rest s
  chained (threw e, s) rest = (threw e, s)

  unfoldable pub unless_threw : Result (Part Msg) → Sink Msg → Done × Sink Msg → Done × Sink Msg
  unless_threw (threw e) s inserted = (threw e, s)
  unless_threw (ok p) s inserted = inserted

  -- `<< ingress[1]`
  unfoldable pub insert_second : Dest Msg → List (Part Msg) → Sink Msg → Done × Sink Msg
  unfolding unless_threw
  insert_second d parts s =
      unless_threw (at parts 1) s (insert_part zmq d s (PartRef.in_incoming 1))

  -- `egress << "response" << ingress[1] << Flush`
  unfoldable pub respond : Dest Msg → List (Part Msg) → Done × Sink Msg
  unfolding chained insert_second
  respond d parts =
      chained (insert_value zmq d (λ text binary. text) (egress parts) response)
        (λ s. chained (insert_second d parts s) (flush zmq d))

  -- The end of the scope of `egress`.
  unfoldable pub scope_end : QueueWorker Msg → Sink Msg → QueueWorker Msg
  scope_end w s = record w { trace = (sink_destroy zmq (behind w) s).trace ++ w.trace }

  -- `assert(!queue.get()); queue.reset(egress.detach())`
  unfoldable pub keep_queue :
      Option (DynamicPartsStorage Msg) → QueueWorker Msg → Sink Msg → Result Bool × QueueWorker Msg
  unfolding scope_end
  keep_queue (some q) w s = (threw assert_failed, scope_end w s)
  keep_queue none w s =
      let (queue, s') = detach s in (ok true, record (scope_end w s') { queue = queue })

  -- What follows the flush.
  unfoldable pub responded : QueueWorker Msg → Done × Sink Msg → Result Bool × QueueWorker Msg
  unfolding keep_queue scope_end
  responded w (threw e, s) = (threw e, scope_end w s)
  responded w (ok _, s) = if is_queued s then keep_queue w.queue w s else (ok true, scope_end w s)

  -- What follows `ingress.receive (2, true)`.
  unfoldable pub requested :
      QueueWorker Msg
      → Done × Incoming Msg (DynamicPartsStorage Msg)
      → Result Bool × QueueWorker Msg
  unfolding responded respond
  requested w (threw e, s) = (threw e, record w { calls = s.calls })
  requested w (ok _, s) =
      responded (record w { calls = s.calls }) (respond (behind w) (dynamic_parts s.store))

  -- The branch for ZMQ_POLLIN.
  unfoldable pub answer_request : QueueWorker Msg → Result Bool × QueueWorker Msg
  unfolding requested
  answer_request w = requested w (
      receive_parts (dynamic_storage zmq) src
        (incoming_make (dynamic_make zmq default_capacity) w.calls) 2 true)

  -- The branch for ZMQ_POLLOUT; `*queue.get()` where there is none is undefined. The queue is gone
  -- after an exception too, which ends the thread.
  unfoldable pub send_queue : QueueWorker Msg → Result Bool × QueueWorker Msg
  send_queue w = elim w.queue [
    | none ↦ (threw undefined, w)
    | some q ↦
        let (r, qs, trace) = send zmq dst w.trace (dynamic_parts q) true false in
        (elim r [ ok _ ↦ ok true | threw e ↦ threw e ], record w { queue = none; trace = trace })
  ]

  -- A round: whether there is another one.
  unfoldable pub queue_round : Polled → QueueWorker Msg → Result Bool × QueueWorker Msg
  unfolding answer_request send_queue
  queue_round Polled.stopped w = (ok false, w)
  queue_round (Polled.events true readable) w = send_queue w
  queue_round (Polled.events false true) w = answer_request w
  queue_round (Polled.events false false) w = (ok true, w)
