-- ===== src/Inserting.antt =====
-- The ways into a Sink: its operators <<, send_incoming_messages and relay_from (Sink.hpp,
-- ZmqMessageFullImpl.hpp, ZmqMessageTemplateImpl.hpp), RawMessage.hpp, Manip.hpp and the
-- constructors of Outgoing.hpp with send_routing.
pub mod Relaying
pub mod Response
pub mod Value
pub mod Iterator
pub mod Counted
pub mod Range
pub mod Passing
use zmqmessage.Base.{
  ℕ, zero, suc, ◌+◌, ◌-◌, List, [], ◌∷◌, Option, none, some, Bool, true, false, if◌then◌else◌,
  get_elem?, set, length, min,
}
use zmqmessage.Zmq.{MsgApi, Dest, Source, Result, ok, threw, Done, done, zmq_error, undefined}
use zmqmessage.Part.{Part, make, move_msg}
use zmqmessage.Options.{has_option, copy_incoming, binary_mode, with_binary, with_text}
use zmqmessage.Multipart.{at}
use zmqmessage.Tools.{init_msg, recv_msg, has_more}
use zmqmessage.Sink.{Sink, sink_make, send_owned, send_one, add_pending_routing_part}

-- The argument of `operator<<(Part&)`, by its address: a part of the incoming message, or another.
pub data PartRef (Msg : Type 0) : Type 0 where
  in_incoming : ℕ → PartRef Msg
  elsewhere : Part Msg → PartRef Msg

-- `RawMessage`: the bytes of the region, and whether it has a deleter.
pub record RawMessage : Type 0 where
  pub region : List ℕ
  pub deleter : Bool

module _ {Msg : Type 0} (zmq : MsgApi Msg) where
  -- `set_binary` and `set_text`
  unfoldable pub set_binary : Sink Msg → Sink Msg
  set_binary s = record s { options = with_binary s.options }

  unfoldable pub set_text : Sink Msg → Sink Msg
  set_text s = record s { options = with_text s.options }

  module _ (dst : Dest Msg) where
    -- What is left of a part of incoming_ that was passed.
    put_back : Option (List (Part Msg)) → ℕ → Done × Sink Msg × Part Msg → Done × Sink Msg
    put_back none i (r, s, p) = (r, s)
    put_back (some parts) i (r, s, p) = (r, record s { incoming = some (set parts i p) })

    incoming_part : Option (List (Part Msg)) → ℕ → Option (Part Msg)
    incoming_part none i = none
    incoming_part (some parts) i = get_elem? parts i

    -- `operator<<(Part&)`; what is left of a part from elsewhere is dropped here.
    pub insert_part : Sink Msg → PartRef Msg → Done × Sink Msg
    unfolding put_back incoming_part
    insert_part s (elsewhere p) = let (r, t, _) = send_one zmq dst s p false in (r, t)
    insert_part s (in_incoming i) = elim (incoming_part s.incoming i) [
      | none ↦ (threw undefined, s)
      | some p ↦ put_back s.incoming i (send_one zmq dst s p (has_option s.options copy_incoming))
    ]

    insert_made : Sink Msg → Result Msg → Done × Sink Msg
    insert_made s (threw e) = (threw e, s)
    insert_made s (ok m) =
        let (r, t, _) = send_owned zmq dst s (record { msg = m; valid = true }) in (r, t)

    -- `operator<<(const RawMessage&)`
    -- The exception is zmq::error_t, which Part.hpp means by error_t.
    pub insert_raw : Sink Msg → RawMessage → Done × Sink Msg
    unfolding insert_made
    insert_raw s m = insert_made s (
        if m.deleter
        then elim (zmq.init_data m.region) [ none ↦ threw zmq_error | some d ↦ ok d ]
        else init_msg zmq m.region)

    -- `operator<<(const T&)`, with the bytes that `init_msg` makes of the value in either mode.
    pub insert_value : {T : Type 0} → (T → Bool → List ℕ) → Sink Msg → T → Done × Sink Msg
    unfolding insert_made
    insert_value encode s t =
        insert_made s (init_msg zmq (encode t (has_option s.options binary_mode)))

    -- `operator<<(MsgPtr)`: a null pointer sends a null message.
    pub insert_msg : Sink Msg → Option Msg → Done × Sink Msg
    insert_msg s m =
        let part : Part Msg = elim m [
          | none ↦ make zmq true
          | some source ↦ (move_msg zmq (make zmq true) source).0
        ] in
        let (r, t, _) = send_owned zmq dst s part in (r, t)

    -- `NullMessage`
    pub null_message : Sink Msg → Done × Sink Msg
    unfolding insert_part
    null_message s = insert_part s (elsewhere (make zmq true))

    and_next :
        ℕ
        → List (Part Msg)
        → Done × Sink Msg × Part Msg
        → (Sink Msg → List (Part Msg) → Done × Sink Msg × List (Part Msg))
        → Done × Sink Msg × List (Part Msg)
    and_next i parts (threw e, s, p) rest = (threw e, s, set parts i p)
    and_next i parts (ok _, s, p) rest = rest s (set parts i p)

    -- The loop of `send_incoming_messages` with the rounds left: the parts after it too.
    pub send_range : Bool → ℕ → ℕ → Sink Msg → List (Part Msg) → Done × Sink Msg × List (Part Msg)
    unfolding and_next
    send_range copy zero i s parts = (done, s, parts)
    send_range copy (suc left) i s parts = elim (at parts i) [
      | threw e ↦ (threw e, s, parts)
      | ok p ↦
          and_next i parts (send_one zmq dst s p copy) (λ t qs. send_range copy left (i + 1) t qs)
    ]

    -- `send_incoming_messages(multipart, copy, idx_from, idx_to)`
    pub send_incoming_messages :
        Sink Msg → List (Part Msg) → Bool → ℕ → ℕ → Done × Sink Msg × List (Part Msg)
    unfolding send_range
    send_incoming_messages s parts copy from to =
        send_range copy (min to (length parts) - from) from s parts

    -- `send_incoming_messages(idx_from, idx_to)`, of incoming_.
    pub send_incoming : Sink Msg → ℕ → ℕ → Done × Sink Msg
    unfolding send_incoming_messages
    send_incoming s from to = elim s.incoming [
      | none ↦ (done, s)
      | some parts ↦
          let (r, t, qs) =
            send_incoming_messages s parts (has_option s.options copy_incoming) from to in
          (r, record t { incoming = some qs })
    ]

    relayed :
        Done × Sink Msg × Part Msg
        → (Sink Msg → Option (Done × Sink Msg × ℕ))
        → ℕ
        → Option (Done × Sink Msg × ℕ)
    relayed (ok _, s, _) rest calls = rest s
    relayed (threw e, s, _) rest calls = some (threw e, s, calls)

    -- The part that was received goes to `send_owned`.
    relay_received :
        Result Msg × ℕ
        → Sink Msg
        → (ℕ → Sink Msg → Option (Done × Sink Msg × ℕ))
        → Option (Done × Sink Msg × ℕ)
    unfolding relayed
    relay_received (ok m, calls) s rest =
        relayed (send_owned zmq dst s (record { msg = m; valid = true })) (rest calls) calls
    relay_received (threw e, calls) s rest = some (threw e, s, calls)

    -- The loop of `relay_from`, with fuel. Of the observers only the sink's own is modelled here.
    relay_loop : Source Msg → ℕ → Bool → ℕ → Sink Msg → Option (Done × Sink Msg × ℕ)
    unfolding relay_received
    relay_loop src zero more calls s = none
    relay_loop src (suc fuel) more calls s =
        let rest = relay_loop src fuel in
        if more
        then relay_received (recv_msg src calls) s (λ calls' t. rest (has_more src calls') calls' t)
        else some (done, s, calls)

    -- `relay_from(relay_src)`
    pub relay_from : Source Msg → ℕ → ℕ → Sink Msg → Option (Done × Sink Msg × ℕ)
    unfolding relay_loop
    relay_from src fuel calls s = relay_loop src fuel (has_more src calls) calls s

    next_routing :
        List (Part Msg)
        → Done × Sink Msg × Part Msg
        → (Sink Msg → Done × Sink Msg × List (Part Msg))
        → Done × Sink Msg × List (Part Msg)
    next_routing ps (ok _, s, p') rest = let (r, t, qs) = rest s in (r, t, p' ∷ qs)
    next_routing ps (threw e, s, p') rest = (threw e, s, p' ∷ ps)

    -- `Outgoing<XRouting>::send_routing(routing, num)` for num > 0, on the parts of the routing.
    routing_parts : Bool → List (Part Msg) → Sink Msg → Done × Sink Msg × List (Part Msg)
    unfolding next_routing
    routing_parts copy [] s = (done, s, [])
    routing_parts copy (p ∷ ps) s =
        next_routing ps (send_one zmq dst (add_pending_routing_part s) p copy)
          (routing_parts copy ps)

    pub send_routing_x : List (Part Msg) → Sink Msg → Done × Sink Msg × List (Part Msg)
    unfolding routing_parts
    send_routing_x [] s =
        let (r, t, _) = send_one zmq dst (add_pending_routing_part s) (make zmq true) false in
        (r, t, [])
    send_routing_x (p ∷ ps) s = routing_parts (has_option s.options copy_incoming) (p ∷ ps) s

    -- `Outgoing<SimpleRouting>::send_routing`
    pub send_routing_simple : List (Part Msg) → Sink Msg → Done × Sink Msg × List (Part Msg)
    send_routing_simple ps s = (done, s, ps)

    -- The constructor of `Outgoing<XRouting>` for a response to an incoming message with this
    -- routing (none for the other constructors); the routing after it.
    pub outgoing_x :
        ℕ → Bool → Option (List (Part Msg)) → List (Part Msg) → Done × Sink Msg × List (Part Msg)
    unfolding send_routing_x
    outgoing_x options observer incoming routing =
        send_routing_x routing (sink_make zmq options observer incoming)
