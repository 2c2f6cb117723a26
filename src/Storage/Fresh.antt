-- ===== src/Storage/Fresh.antt =====
-- The dynamic storage of a fresh Incoming.
use zmqmessage.Base.{◌≡◌, refl, [], arith}
use zmqmessage.Zmq.{MsgApi, IsMsgApi}
use zmqmessage.Storage.{dynamic_make, dynamic_parts, default_capacity}
use zmqmessage.Storage.Growth.{dynamic_make-IsStorage}
use zmqmessage.Storage.Interface.{IsOpen}

module _ {Msg : Type 0} (zmq : MsgApi Msg) (laws : IsMsgApi zmq) where
  pub dynamic_make-IsOpen : IsOpen (dynamic_make zmq default_capacity)
  unfolding dynamic_make
  dynamic_make-IsOpen = record {
    storage = dynamic_make-IsStorage zmq laws default_capacity;
    owns = λ e. cc;
    nonempty = omega arith;
    bounded = omega arith;
  }

  pub dynamic_parts-dynamic_make : dynamic_parts (dynamic_make zmq default_capacity) ≡ []
  unfolding dynamic_make dynamic_parts
  dynamic_parts-dynamic_make = refl
