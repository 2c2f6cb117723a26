-- ===== src/Zmq.antt =====
-- What the library uses of libzmq and of zmq.hpp (neither is part of the repository): the message
-- calls as a record of functions, and a socket as its answers to calls. Nothing here is a
-- definition of theirs: what is proved over these records holds for every libzmq that fits the
-- laws of `IsMsgApi`, and for every behaviour of a socket.
use zmqmessage.Base.{ℕ, ◌≡◌, List, [], Option, some, Bool, length}

-- How `socket_t::send` and `socket_t::recv` end: they return true, they return false (EAGAIN), or
-- they throw `zmq::error_t`.
pub data Answer : Type 0 where
  accepted would_block failed : Answer

-- The values of zmq.h that the code passes on.
abbrev pub zmq_noblock : ℕ
zmq_noblock = 1

abbrev pub zmq_sndmore : ℕ
zmq_sndmore = 2

-- A message is a value; a call gives the values after it. `zmq_msg_init_size` and
-- `zmq_msg_init_data` may fail; `zmq_msg_init` is documented never to.
pub record MsgApi (Msg : Type 0) : Type 0 where
  pub init : Msg
  pub init_size : ℕ → Option Msg
  pub init_data : List ℕ → Option Msg
  -- The message after `memcpy` into its `data ()`.
  pub fill : Msg → List ℕ → Msg
  -- The destination after `zmq_msg_copy (dst, src)`.
  pub copy : Msg → Msg → Msg
  -- Destination and source after `zmq_msg_move (dst, src)`.
  pub move : Msg → Msg → Msg × Msg
  -- The message after `socket_t::send` has ended.
  pub after_send : Answer → Msg → Msg
  -- The bytes from `data ()`, `size ()` of them.
  pub bytes : Msg → List ℕ

-- The documented behaviour on which the library relies.
pub record IsMsgApi {Msg : Type 0} (zmq : MsgApi Msg) : Type 0 where
  pub bytes-init : zmq.bytes zmq.init ≡ []
  pub copy_takes : (d s : Msg) → zmq.copy d s ≡ s
  pub move_takes : (d s : Msg) → (zmq.move d s).0 ≡ s
  pub move_leaves : (d s : Msg) → (zmq.move d s).1 ≡ zmq.init
  pub length-init_size : (n : ℕ) (m : Msg) → zmq.init_size n ≡ some m → length (zmq.bytes m) ≡ n
  pub bytes-fill :
      (m : Msg) (bs : List ℕ) → length (zmq.bytes m) ≡ length bs → zmq.bytes (zmq.fill m bs) ≡ bs
  pub block_keeps : (m : Msg) → zmq.after_send Answer.would_block m ≡ m

-- What a destination socket and the send observer have seen; `sends` has the answer.
pub data Event (Msg : Type 0) : Type 0 where
  sends : Msg → ℕ → Answer → Event Msg
  on_send_part : Msg → Event Msg
  on_flush : Event Msg

-- A destination socket: its answer to a call with a message and flags, after all that it has seen,
-- the latest first. Peers, threads and queue limits show in the answers only.
abbrev pub Dest : Type 0 → Type 0
Dest Msg = List (Event Msg) → Msg → ℕ → Answer

-- How a call ends: by a return, by an exception, by a failed assertion, by undefined behaviour or
-- by std::unexpected.
pub data Error : Type 0 where
  zmq_error no_such_part message_format assert_failed undefined unexpected : Error

pub data Result (A : Type 0) : Type 0 where
  ok : A → Result A
  threw : Error → Result A

abbrev pub Done : Type 0
Done = Result (Unit {0})

abbrev pub done : Done
done = ok tt

-- How a call of `socket_t::recv` ends: with a message, by false (EAGAIN), or by zmq::error_t.
pub data Arrival (Msg : Type 0) : Type 0 where
  arrives : Msg → Arrival Msg
  nothing broken : Arrival Msg

-- A source socket: its answer to the call of `recv` that `calls` calls went before, and the
-- ZMQ_RCVMORE option after that many calls.
pub record Source (Msg : Type 0) : Type 0 where
  pub recv : ℕ → Arrival Msg
  pub rcvmore : ℕ → Bool

-- What a receive observer has been told, the latest first.
abbrev pub Observed : Type 0 → Type 0
Observed Msg = List (Msg × Bool)
