-- ===== src/Inserting/Value.antt =====
-- `operator<<` of a value.
use zmqmessage.Base.{ℕ, ◌≡◌, refl, List, Bool, true}
use zmqmessage.Zmq.{MsgApi, Dest, ok}
use zmqmessage.Options.{has_option, binary_mode}
use zmqmessage.Tools.{init_msg}
use zmqmessage.Sink.{Sink, send_owned}
use zmqmessage.Inserting.{insert_value, insert_made}

-- A value that makes a message is inserted as an owned part of it.
pub insert_value-send_owned :
    {Msg T : Type 0} (zmq : MsgApi Msg) (dst : Dest Msg) (encode : T → Bool → List ℕ) (s : Sink Msg)
    (t : T) (m : Msg)
    → init_msg zmq (encode t (has_option s.options binary_mode)) ≡ ok m
    → insert_value zmq dst encode s t ≡ (
      (send_owned zmq dst s (record { msg = m; valid = true })).0,
      (send_owned zmq dst s (record { msg = m; valid = true })).1,
    )
unfolding insert_value insert_made
insert_value-send_owned zmq dst encode s t m e = rw e refl
