-- ===== src/Tests/Storing.antt =====
-- PartsStorage.hpp and the access to the parts of a Multipart.
use zmqmessage.Base.{
  List, ℕ, ◌^◌, ◌≡◌, ◌≢◌, ◌⊎◌, refl, [], ◌∷◌, ◌++◌, none, some, true, false, arith, get_elem?,
  length,
}
use zmqmessage.Zmq.{ok, threw, no_such_part}
use zmqmessage.Part.{Part, held}
use zmqmessage.Storage.{slot, StackPartsStorage, DynamicPartsStorage, dynamic_next, dynamic_parts}
use zmqmessage.Storage.Growth.{Extends, dynamic_next-Extends}
use zmqmessage.Storage.Interface.{
  stack_storage, dynamic_storage, IsPartsStorage, IsStack, IsFixedStorage,
  stack_storage-IsFixedStorage, IsOpen, dynamic_storage-IsPartsStorage,
}
use zmqmessage.Sink.Trace.{wire, frames}
use zmqmessage.Sink.Queue.{IsQueue}
use zmqmessage.Sink.Delivery.{always_accepts}
use zmqmessage.Multipart.{has_part, at, release, Conversion, copy_parts, send}
use zmqmessage.Multipart.Access.{at-has_part, release_lem}
use zmqmessage.Multipart.Iteration.{contents_of, copy_parts_lem}
use zmqmessage.Multipart.Send.{send_queue_whole}
use zmqmessage.Tests.Samples.{Bytes, bytes_api, bytes_api-IsMsgApi, part, three_parts, full_block}

full_block-owns : full_block.parts ≢ none
full_block-owns e = cc

-- The next part of a full block: the block grows.
dynamic_next-Extends_example :
    (t : DynamicPartsStorage Bytes) × (dynamic_next bytes_api full_block ≡ slot 1 t)
    × Extends bytes_api bytes_api-IsMsgApi full_block t
dynamic_next-Extends_example =
    dynamic_next-Extends bytes_api bytes_api-IsMsgApi full_block (record { block = (refl, refl) })
      full_block-owns (omega arith) (omega arith)

stack_storage-IsFixedStorage_example :
    IsFixedStorage {Msg = Bytes} {S = StackPartsStorage Bytes} stack_storage (IsStack 3) 3
stack_storage-IsFixedStorage_example = stack_storage-IsFixedStorage 3

dynamic_storage-IsPartsStorage_example : IsPartsStorage (dynamic_storage bytes_api) IsOpen (2 ^ 61)
dynamic_storage-IsPartsStorage_example = dynamic_storage-IsPartsStorage bytes_api bytes_api-IsMsgApi

at-has_part_example :
    (has_part three_parts 1 ≡ ok true)
      × ((p : Part Bytes) × (get_elem? three_parts 1 ≡ some p)
          × (p.valid ≡ true)
          × (at three_parts 1 ≡ ok p))
    ⊎ (has_part three_parts 1 ≡ ok false) × (at three_parts 1 ≡ threw no_such_part)
at-has_part_example = at-has_part three_parts 1

release_lem_example :
    (held (release bytes_api three_parts 0).0 ≡ (1 ∷ 2 ∷ []) ∷ [])
    × (has_part (release bytes_api three_parts 0).1 0 ≡ ok false)
    × (length (release bytes_api three_parts 0).1 ≡ 3)
    × ((j : ℕ) → 0 ≢ j → get_elem? (release bytes_api three_parts 0).1 j ≡ get_elem? three_parts j)
release_lem_example =
    release_lem bytes_api bytes_api-IsMsgApi three_parts 0 (part (1 ∷ 2 ∷ [])) refl (omega arith)

-- The length of a part, and 9 for one that is not there.
abbrev size_of : Conversion Bytes ℕ
size_of = record { convert = λ m b. length m; default = 9 }

-- The second part was given away.
abbrev two_owned : List (Part Bytes)
two_owned = part (1 ∷ []) ∷ record { msg = []; valid = false } ∷ part (3 ∷ []) ∷ []

copy_parts_lem_example :
    copy_parts size_of 4 5 true two_owned ≡ some (contents_of size_of true two_owned)
copy_parts_lem_example = copy_parts_lem size_of 5 true two_owned

-- A queue of one part.
full_block-IsQueue : IsQueue full_block
full_block-IsQueue = record {
  storage = record { block = (refl, refl) };
  owns = full_block-owns;
  nonempty = omega arith;
  bounded = omega arith;
}

send_queue_whole_example :
    let (r, qs, t) = send bytes_api always_accepts [] (dynamic_parts full_block) false false in
    (r ≡ ok tt) × (wire t ≡ wire {Msg = Bytes} [] ++ frames ((5 ∷ []) ∷ []))
unfolding dynamic_parts
send_queue_whole_example =
    send_queue_whole bytes_api full_block ((5 ∷ []) ∷ []) [] false false
      (full_block-IsQueue, refl, refl)
