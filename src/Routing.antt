-- ===== src/Routing.antt =====
-- include/zmqmessage/Routing.hpp, and `receive_routing` of
-- include/zmqmessage/ZmqMessageFullImpl.hpp over any storage. SimpleRouting receives nothing.
pub mod Envelope
pub mod Request
pub mod Reply
use zmqmessage.Base.{
  ℕ, zero, suc, List, [], Option, none, some, Bool, true, false, not, if◌then◌else◌, ◌==◌,
  get_elem?, length,
}
use zmqmessage.Zmq.{MsgApi, Source, Result, ok, threw, Done, done, message_format, undefined}
use zmqmessage.Part.{Part}
use zmqmessage.Storage.{Next, slot, null, overrun}
use zmqmessage.Storage.Interface.{PartsStorage}
use zmqmessage.Tools.{recv_msg, has_more}

module _ {Msg S : Type 0} (zmq : MsgApi Msg) (ps : PartsStorage Msg S) (src : Source Msg) where
  -- `recv_msg(sock, part->msg())` for part `i`: the message, the storage and where the source is.
  routing_into : ℕ → Option (Part Msg) → S → ℕ → Result Msg × S × ℕ
  routing_into i none store calls = (threw undefined, store, calls)
  routing_into i (some p) store calls =
      let (r, calls') = recv_msg src calls in
      elim r [
        | ok m ↦ (ok m, ps.put store i (record p { msg = m }), calls')
        | threw e ↦ (threw e, store, calls')
      ]

  -- One part of the routing.
  routing_part : Next S → S → ℕ → Result Msg × S × ℕ
  unfolding routing_into
  routing_part null store calls = (threw message_format, store, calls)
  routing_part overrun store calls = (threw undefined, store, calls)
  routing_part (slot i t) store calls = routing_into i (get_elem? (ps.parts t) i) t calls

  -- The tests after it: the empty part ends the routing, and no other may be the last.
  after_routing_part : Result Msg × S × ℕ → (S → ℕ → Option (Done × S × ℕ)) → Option (Done × S × ℕ)
  after_routing_part (threw e, store, calls) rest = some (threw e, store, calls)
  after_routing_part (ok m, store, calls) rest =
      if length (zmq.bytes m) == 0
      then some (done, store, calls)
      else if not (has_more src calls)
      then some (threw message_format, store, calls)
      else rest store calls

  -- The loop, with fuel; none where it runs out.
  routing_loop : ℕ → S → ℕ → Option (Done × S × ℕ)
  unfolding after_routing_part routing_part
  routing_loop zero store calls = none
  routing_loop (suc fuel) store calls =
      after_routing_part (routing_part (ps.next store) store calls) (routing_loop fuel)

  -- `receive_routing`; a routing that was received before is kept.
  pub receive_routing : ℕ → S → ℕ → Option (Done × S × ℕ)
  unfolding routing_loop
  receive_routing fuel store calls =
      if not (length (ps.parts store) == 0)
      then some (done, store, calls)
      else routing_loop fuel store calls
