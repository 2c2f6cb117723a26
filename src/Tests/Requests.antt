-- ===== src/Tests/Requests.antt =====
-- The routing of a request and the response to it.
use zmqmessage.Base.{inl, ◌++◌, refl, [], ◌∷◌, true, none, arith}
use zmqmessage.Storage.Interface.{stack_storage, IsStack, stack_storage-IsPartsStorage}
use zmqmessage.Incoming.{size}
use zmqmessage.Routing.{receive_routing}
use zmqmessage.Routing.Request.{receive_x, Requested, receive_x-Requested}
use zmqmessage.Routing.Reply.{Replied, reply-Replied}
use zmqmessage.Tests.Samples.{bytes_api, bytes_api-IsMsgApi, open_socket, address_source}
use zmqmessage.Tests.Receiving.{empty_stack, empty_stack-IsStack, fresh_incoming}

-- Two addresses, the delimiter, and one part, which is the last.
receive_x-Requested_example :
    Requested bytes_api stack_storage
      (IsStack 4)
      4
      (stack_storage-IsPartsStorage 4)
      stack_storage
      (IsStack 4)
      4
      (stack_storage-IsPartsStorage 4)
      address_source
      (((0 ∷ []) ∷ (1 ∷ []) ∷ []) ++ [] ∷ [])
      1
      ([] ∷ [])
      true
      empty_stack
      fresh_incoming
      (receive_x bytes_api stack_storage stack_storage address_source 3 empty_stack fresh_incoming 1
        true)
unfolding size
receive_x-Requested_example =
    receive_x-Requested bytes_api stack_storage (IsStack 4) 4 (stack_storage-IsPartsStorage 4)
      stack_storage (IsStack 4) 4 (stack_storage-IsPartsStorage 4) address_source 3
      ((0 ∷ []) ∷ (1 ∷ []) ∷ []) [] empty_stack 1 true ([] ∷ []) fresh_incoming (omega arith)
      empty_stack-IsStack refl (omega arith)
      (refl, omega arith, refl, (refl, omega arith, refl, (refl, inl refl))) refl (omega arith)
      empty_stack-IsStack (omega arith) (refl, refl)

-- Under CACHE_ON_BLOCK and COPY_INCOMING.
reply-Replied_example :
    Replied bytes_api bytes_api-IsMsgApi open_socket stack_storage
      (IsStack 4)
      4
      (stack_storage-IsPartsStorage 4)
      address_source
      (((0 ∷ []) ∷ (1 ∷ []) ∷ []) ++ [] ∷ [])
      10
      true
      none
      (receive_routing bytes_api stack_storage address_source 3 empty_stack 0)
reply-Replied_example =
    reply-Replied bytes_api bytes_api-IsMsgApi open_socket stack_storage (IsStack 4) 4
      (stack_storage-IsPartsStorage 4) address_source 3 ((0 ∷ []) ∷ (1 ∷ []) ∷ []) [] empty_stack 0
      10 true none (omega arith) empty_stack-IsStack refl (omega arith) (omega arith)
      (refl, omega arith, refl, (refl, omega arith, refl, (refl, inl refl))) refl
