-- ===== src/Tests/Sending.antt =====
-- Part.hpp, and the class Sink and `send` of Multipart.hpp.
use zmqmessage.Base.{◌≡◌, refl, [], ◌∷◌, none, some, true, false, arith}
use zmqmessage.Zmq.{done}
use zmqmessage.Part.{move, make, mark_invalid, msgs}
use zmqmessage.Options.{has_option}
use mathlib.Core.Option
use zmqmessage.Storage.{dynamic_next, dynamic_make, dynamic_set, dynamic_parts}
use zmqmessage.Sink.{Sink, State, sink_make, send_owned, flush, is_dropping}
use zmqmessage.Sink.Trace.{wire, frames}
use zmqmessage.Sink.Insert.{Step, send_owned-Step}
use zmqmessage.Sink.Flush.{Flushed, flush-Flushed}
use zmqmessage.Sink.Delivery.{
  send_all, insert_all, Delivered, send_all-Delivered, always_accepts, send_all-Whole,
}
use zmqmessage.Multipart.{send}
use zmqmessage.Multipart.Send.{Sent, send-Sent}
use zmqmessage.Tests.Samples.{
  Bytes, bytes_api, bytes_api-IsMsgApi, open_socket, full_socket, part, three_parts, first_sink,
}

send_all-Delivered_example :
    Delivered bytes_api bytes_api-IsMsgApi open_socket
      (msgs three_parts)
      (send_all bytes_api open_socket three_parts (sink_make bytes_api 0 true none))
send_all-Delivered_example =
    send_all-Delivered bytes_api bytes_api-IsMsgApi open_socket 0 true none three_parts
      (refl, (refl, (refl, tt))) (omega arith)

send_all-Whole_example :
    ((send_all bytes_api always_accepts three_parts (sink_make bytes_api 3 true none)).0 ≡ done)
    × (wire
          (send_all bytes_api always_accepts three_parts (sink_make bytes_api 3 true none)).1.trace
        ≡ frames (msgs three_parts))
unfolding has_option
send_all-Whole_example =
    send_all-Whole bytes_api bytes_api-IsMsgApi 3 true none three_parts refl
      (refl, (refl, (refl, tt))) (omega arith)

flush-Flushed_example : Flushed ((1 ∷ []) ∷ []) first_sink (flush bytes_api open_socket first_sink)
flush-Flushed_example =
    flush-Flushed bytes_api bytes_api-IsMsgApi open_socket ((1 ∷ []) ∷ []) first_sink
      (refl, refl, refl)

send_owned-Step_example :
    Step
      ((1 ∷ []) ∷ [])
      first_sink
      (part (2 ∷ []))
      (send_owned bytes_api open_socket first_sink (part (2 ∷ [])))
send_owned-Step_example =
    send_owned-Step bytes_api bytes_api-IsMsgApi open_socket ((1 ∷ []) ∷ []) first_sink
      (part (2 ∷ [])) refl (omega arith) (refl, refl, refl)

abbrev queueing_sink : Sink Bytes
queueing_sink = record first_sink {
  outgoing_queue = some (dynamic_make bytes_api 10);
  state = State.queueing;
}

send-Sent_example :
    Sent bytes_api open_socket three_parts [] (send bytes_api open_socket [] three_parts false true)
send-Sent_example = send-Sent bytes_api open_socket [] three_parts false true

-- `send_owned` of three parts and `flush`: the flags on the wire.
three_parts-wire :
    wire (send_all bytes_api open_socket three_parts (sink_make bytes_api 0 true none)).1.trace
    ≡ (1 ∷ 2 ∷ [], true) ∷ ([], true) ∷ (3 ∷ [], false) ∷ []
unfolding send_all insert_all send_owned flush is_dropping sink_make make move has_option
    mark_invalid
three_parts-wire = refl

-- A socket that would block, under CACHE_ON_BLOCK: nothing is sent and the sink is queued.
three_parts_queued :
    let (r, t) = send_all bytes_api full_socket three_parts (sink_make bytes_api 3 true none) in
    (r ≡ done)
    × (wire t.trace ≡ [])
    × (Option.map dynamic_parts t.outgoing_queue ≡ some three_parts)
unfolding send_all insert_all send_owned flush is_dropping sink_make make move has_option
    mark_invalid dynamic_next dynamic_make dynamic_set dynamic_parts
three_parts_queued = (refl, refl, refl)
