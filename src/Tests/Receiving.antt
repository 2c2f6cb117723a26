-- ===== src/Tests/Receiving.antt =====
-- Incoming.hpp and Routing.hpp.
use zmqmessage.Base.{inl, inr, ◌++◌, refl, [], ◌∷◌, true, false, arith}
use zmqmessage.Storage.{StackPartsStorage}
use zmqmessage.Storage.Interface.{stack_storage, IsStack, stack_storage-IsPartsStorage}
use zmqmessage.Incoming.{Incoming, size, receive_parts, receive_all_parts, receive_up_to}
use zmqmessage.Incoming.Counting.{Counted, receive_parts-Counted}
use zmqmessage.Incoming.Everything.{Complete, receive_all-Complete}
use zmqmessage.Incoming.UpTo.{Limited, receive_up_to-Limited}
use zmqmessage.Incoming.Tail.{fetch_tail, drop_tail}
use zmqmessage.Incoming.Tail.Drop.{Dropped, drop_tail-Dropped}
use zmqmessage.Incoming.Tail.Fetch.{Fetched, joined, fetch_tail-Fetched}
use zmqmessage.Routing.{receive_routing}
use zmqmessage.Routing.Envelope.{Routed, ending, receive_routing-Routed}
use zmqmessage.Tests.Samples.{Bytes, part, three_source, three_messages, bytes_api, address_source}

-- Room for four parts, none taken.
abbrev pub empty_stack : StackPartsStorage Bytes
empty_stack = record { parts = part [] ∷ part [] ∷ part [] ∷ part [] ∷ []; size = 0 }

pub empty_stack-IsStack : IsStack 4 empty_stack
empty_stack-IsStack = record {
  within = omega arith;
  array = refl;
  fresh = (refl, (refl, (refl, (refl, tt))));
}

abbrev pub fresh_incoming : Incoming Bytes (StackPartsStorage Bytes)
fresh_incoming = record {
  store = empty_stack;
  calls = 0;
  is_terminal = false;
  cur_extract_idx = 0;
  binary_mode = false;
  receive_observer = true;
  observed = [];
}

-- Two parts asked for of a message of three.
receive_parts-Counted_example :
    Counted stack_storage
      (IsStack 4)
      4
      (stack_storage-IsPartsStorage 4)
      three_source
      2
      three_messages
      true
      fresh_incoming
      (receive_parts stack_storage three_source fresh_incoming 2 true)
unfolding size
receive_parts-Counted_example =
    receive_parts-Counted stack_storage (IsStack 4) 4 (stack_storage-IsPartsStorage 4) three_source
      2 true three_messages fresh_incoming (omega arith) empty_stack-IsStack (omega arith)
      (refl, refl, (refl, refl, (refl, refl)))

-- All of a message of three, one at least.
receive_all-Complete_example :
    Complete stack_storage
      (IsStack 4)
      4
      (stack_storage-IsPartsStorage 4)
      three_source
      three_messages
      fresh_incoming
      (receive_all_parts stack_storage three_source 4 fresh_incoming 1)
unfolding size
receive_all-Complete_example =
    receive_all-Complete stack_storage (IsStack 4) 4 (stack_storage-IsPartsStorage 4) three_source 4
      1 three_messages fresh_incoming (omega arith) (omega arith) refl empty_stack-IsStack
      (omega arith) (refl, refl, (refl, refl, (refl, refl)))

-- Two addresses and the delimiter.
receive_routing-Routed_example :
    Routed bytes_api stack_storage
      (IsStack 4)
      4
      (stack_storage-IsPartsStorage 4)
      address_source
      (ending bytes_api stack_storage
        (IsStack 4)
        4
        (stack_storage-IsPartsStorage 4)
        address_source
        [])
      (((0 ∷ []) ∷ (1 ∷ []) ∷ []) ++ [] ∷ [])
      empty_stack
      0
      (receive_routing bytes_api stack_storage address_source 3 empty_stack 0)
receive_routing-Routed_example =
    receive_routing-Routed bytes_api stack_storage (IsStack 4) 4 (stack_storage-IsPartsStorage 4)
      address_source 3 ((0 ∷ []) ∷ (1 ∷ []) ∷ []) [] empty_stack 0 (omega arith) empty_stack-IsStack
      refl (omega arith) (refl, omega arith, refl, (refl, omega arith, refl, (refl, inl refl)))

-- One part has been received, and a message of three comes behind it.
abbrev begun_incoming : Incoming Bytes (StackPartsStorage Bytes)
begun_incoming = record fresh_incoming {
  store = record { parts = part (8 ∷ []) ∷ part [] ∷ []; size = 1 };
}

fetch_tail-Fetched_example :
    Fetched bytes_api stack_storage three_source 4
      (((7 ∷ []) ++ 8 ∷ []) ++ joined bytes_api stack_storage three_source (9 ∷ []) three_messages)
      3
      begun_incoming
      (fetch_tail stack_storage three_source bytes_api 4 begun_incoming (7 ∷ []) (9 ∷ []))
unfolding size
fetch_tail-Fetched_example =
    fetch_tail-Fetched bytes_api stack_storage three_source 4 (9 ∷ []) (7 ∷ []) (part (8 ∷ []))
      three_messages begun_incoming (omega arith) (omega arith) refl refl refl
      (refl, refl, (refl, refl, (refl, refl)))

drop_tail-Dropped_example :
    Dropped stack_storage three_source 3 3 begun_incoming
      (drop_tail stack_storage three_source 4 begun_incoming)
unfolding size
drop_tail-Dropped_example =
    drop_tail-Dropped stack_storage three_source 4 three_messages begun_incoming (omega arith)
      (omega arith) refl (inr (omega arith, refl)) (refl, refl, (refl, refl, (refl, refl)))

-- One part at least, two at most, of a message of three.
receive_up_to-Limited_example :
    Limited stack_storage
      (IsStack 4)
      4
      (stack_storage-IsPartsStorage 4)
      three_source
      2
      three_messages
      fresh_incoming
      (receive_up_to stack_storage three_source fresh_incoming 1 2)
unfolding size
receive_up_to-Limited_example =
    receive_up_to-Limited stack_storage (IsStack 4) 4 (stack_storage-IsPartsStorage 4) three_source
      1 2 three_messages fresh_incoming (omega arith) refl empty_stack-IsStack (omega arith)
      (refl, refl, (refl, refl, (refl, refl)))
