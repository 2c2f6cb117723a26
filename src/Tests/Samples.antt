-- ===== src/Tests/Samples.antt =====
-- Concrete message functions and sockets for the tests: a message is its bytes.
use zmqmessage.Base.{
  ◌≡◌, length, length-replicate, subst, if◌then◌else◌, ℕ, refl, List, [], ◌∷◌, some, replicate,
  true, false, none, ltb,
}
use zmqmessage.Zmq.{MsgApi, IsMsgApi, Answer, accepted, would_block, failed, Dest, Source, arrives}
use zmqmessage.Part.{Part}
use zmqmessage.Storage.{DynamicPartsStorage}
use zmqmessage.Sink.{Sink, State}

abbrev pub Bytes : Type 0
Bytes = List ℕ

abbrev pub after_send : Answer → Bytes → Bytes
after_send accepted m = []
after_send would_block m = m
after_send failed m = m

abbrev pub bytes_api : MsgApi Bytes
bytes_api = record {
  init = [];
  init_size = λ n. some (replicate n 0);
  init_data = some;
  fill = λ m bs. bs;
  copy = λ d s. s;
  move = λ d s. (s, []);
  after_send = after_send;
  bytes = λ m. m;
}

length-some : (n : ℕ) (m : Bytes) → some (replicate n 0) ≡ some m → length m ≡ n
length-some n m e =
    let e' : replicate n 0 ≡ m = cc in subst (λ x. length x ≡ n) e' (length-replicate n 0)

pub bytes_api-IsMsgApi : IsMsgApi bytes_api
bytes_api-IsMsgApi = record {
  bytes-init = refl;
  copy_takes = λ d s. refl;
  move_takes = λ d s. refl;
  move_leaves = λ d s. refl;
  length-init_size = λ n m e. length-some n m e;
  bytes-fill = λ m bs e. refl;
  block_keeps = λ m. refl;
}

-- Sockets that accept every part, or would block on every one.
abbrev pub open_socket : Dest Bytes
open_socket history m flags = accepted

abbrev pub full_socket : Dest Bytes
full_socket history m flags = would_block

abbrev pub part : Bytes → Part Bytes
part bs = record { msg = bs; valid = true }

abbrev pub three_parts : List (Part Bytes)
three_parts = part (1 ∷ 2 ∷ []) ∷ part [] ∷ part (3 ∷ []) ∷ []

-- A sink with one part cached, with no options and no observer.
abbrev pub first_sink : Sink Bytes
first_sink = record {
  trace = [];
  options = 0;
  send_observer = false;
  incoming = none;
  outgoing_queue = none;
  cached = part (1 ∷ []);
  state = State.not_sent;
  pending_routing_parts = 0;
}

-- A block of one place that is taken.
abbrev pub full_block : DynamicPartsStorage Bytes
full_block = record { parts = some (some (part (5 ∷ [])) ∷ []); capacity = 1; size = 1 }

-- A source from which a message of three parts comes.
abbrev pub three_source : Source Bytes
three_source = record { recv = λ calls. arrives (calls ∷ []); rcvmore = λ calls. ltb calls 3 }

abbrev pub three_messages : List Bytes
three_messages = (0 ∷ []) ∷ (1 ∷ []) ∷ (2 ∷ []) ∷ []

-- A source from which two addresses, the delimiter and a part come.
abbrev pub address_source : Source Bytes
address_source = record {
  recv = λ calls. arrives (if ltb calls 2 then calls ∷ [] else []);
  rcvmore = λ calls. ltb calls 4;
}
