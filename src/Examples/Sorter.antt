-- ===== src/Examples/Sorter.antt =====
-- The thread `sorter` of examples/zbisort.cpp and of examples/zsort.cpp, which receives values,
-- sorts them and sends them back. In zbisort.cpp it is a template on the type of the values; in
-- zsort.cpp it is the same for strings. `std::sort` is a parameter. Its socket is a source and a
-- destination; printing is left out.
pub mod Sorted
use zmqmessage.Base.{
  ℕ, suc, List, [], ◌∷◌, Option, none, some, Bool, true, false, if◌then◌else◌, ◌==◌, length,
}
use zmqmessage.Zmq.{MsgApi, Event, Dest, Source, Result, ok, threw, Done, done}
use zmqmessage.Part.{Part}
use zmqmessage.Storage.{DynamicPartsStorage, dynamic_make, dynamic_parts, default_capacity}
use zmqmessage.Storage.Interface.{dynamic_storage}
use zmqmessage.Sink.{Sink, sink_make, flush, sink_destroy}
use zmqmessage.Inserting.Iterator.{copy_values}
use zmqmessage.Multipart.{Conversion, copy_parts}
use zmqmessage.Incoming.{Incoming, size, incoming_make, receive_all_parts}

-- `get<std::string>`, and `std::string()`.
abbrev pub strings : {Msg : Type 0} → MsgApi Msg → Conversion Msg (List ℕ)
strings zmq = record { convert = λ m binary. zmq.bytes m; default = [] }

-- The values of a type `T`: `get<T>` with `T()`, and the bytes that `init_msg` makes of a value.
module _ {Msg T : Type 0} (zmq : MsgApi Msg) (dst : Dest Msg) (src : Source Msg)
    (values : Conversion Msg T) (encode : T → Bool → List ℕ) (sort : List T → List T) where
  pub flushed : Done × Sink Msg → Done × Sink Msg
  flushed (ok _, s) = flush zmq dst s
  flushed (threw e, s) = (threw e, s)

  -- `egress`, the copying of `sort_area` to it, and its flush.
  pub respond : List T → Done × Sink Msg
  unfolding flushed
  respond sort_area = flushed (copy_values zmq dst encode sort_area (sink_make zmq 0 false none))

  next_round : Done → Result Bool
  next_round (ok _) = ok true
  next_round (threw e) = threw e

  -- What follows the copying to `sort_area`, with the destructor of `egress`.
  pub sorted : Option (Result (List T)) → ℕ → Option (Result Bool × List (Event Msg) × ℕ)
  unfolding respond next_round
  sorted none calls = none
  sorted (some (threw e)) calls = some (threw e, [], calls)
  sorted (some (ok sort_area)) calls =
      let (r, t) = respond (sort sort_area) in
      some (next_round r, (sink_destroy zmq dst t).trace, calls)

  -- What follows `receive_all`; a message of one part ends the thread.
  pub received :
      ℕ
      → Option (Done × Incoming Msg (DynamicPartsStorage Msg))
      → Option (Result Bool × List (Event Msg) × ℕ)
  unfolding sorted
  received fuel none = none
  received fuel (some (threw e, s)) = some (threw e, [], s.calls)
  received fuel (some (ok _, s)) =
      let parts = dynamic_parts s.store in
      if size (dynamic_storage zmq) s == 1
      then some (ok false, [], s.calls)
      else sorted (copy_parts values fuel 0 false parts) s.calls

  -- One round of `sorter`, with fuel for its loops: whether there is another one, what the socket
  -- has seen, and where it stands.
  pub round : ℕ → ℕ → Option (Result Bool × List (Event Msg) × ℕ)
  unfolding received
  round fuel calls = received fuel (
      receive_all_parts (dynamic_storage zmq) src fuel
        (incoming_make (dynamic_make zmq default_capacity) calls) 0)

-- One round of `sorter` in zsort.cpp.
unfoldable pub sort_strings :
    {Msg : Type 0}
    → MsgApi Msg
    → Dest Msg
    → Source Msg
    → (List (List ℕ) → List (List ℕ))
    → ℕ
    → ℕ
    → Option (Result Bool × List (Event Msg) × ℕ)
unfolding round
sort_strings zmq dst src sort = round zmq dst src (strings zmq) (λ word binary. word) sort
