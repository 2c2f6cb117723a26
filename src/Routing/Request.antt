-- ===== src/Routing/Request.antt =====
-- `receive` and `receive_all` of an Incoming with XRouting: the routing is received first.
use mathlib.Core.Option
use zmqmessage.Base.{
  ℕ, ◌+◌, ◌≤◌, ◌<◌, ◌≡◌, sym, List, [], ◌∷◌, ◌++◌, Option, none, some, Bool, length, subst,
}
use zmqmessage.Zmq.{MsgApi, Source, ok, threw, Done, done}
use zmqmessage.Storage.Interface.{PartsStorage, IsPartsStorage, contents}
use zmqmessage.Incoming.{Incoming, size, receive_parts, receive_all_parts}
use zmqmessage.Incoming.Counting.{Comes, singles, Counted, receive_parts-Counted}
use zmqmessage.Routing.{receive_routing}
use zmqmessage.Routing.Envelope.{Leads, Routed, receive_routing-done}

module _ {Msg R S : Type 0} (zmq : MsgApi Msg) (rps : PartsStorage Msg R) (ps : PartsStorage Msg S)
    (src : Source Msg) where
  -- What follows `receive_routing (src_)`.
  routed :
      Incoming Msg S
      → (Incoming Msg S → Option (Done × Incoming Msg S))
      → Option (Done × R × ℕ)
      → Option (Done × R × Incoming Msg S)
  routed s run none = none
  routed s run (some (threw e, routing, calls)) =
      some (threw e, routing, record s { calls = calls })
  routed s run (some (ok _, routing, calls)) =
      Option.map (λ out. (out.0, routing, out.1)) (run (record s { calls = calls }))

  -- `receive(parts, …, check_terminal)`
  pub receive_x : ℕ → R → Incoming Msg S → ℕ → Bool → Option (Done × R × Incoming Msg S)
  unfolding routed
  receive_x fuel routing s parts check =
      routed s (λ t. some (receive_parts ps src t parts check))
        (receive_routing zmq rps src fuel routing s.calls)

  -- `receive_all(min_parts, …)`
  pub receive_all_x : ℕ → R → Incoming Msg S → ℕ → Option (Done × R × Incoming Msg S)
  unfolding routed
  receive_all_x fuel routing s min_parts =
      routed s (λ t. receive_all_parts ps src fuel t min_parts)
        (receive_routing zmq rps src fuel routing s.calls)

module _ {Msg R S : Type 0} (zmq : MsgApi Msg) (rps : PartsStorage Msg R) (RInv : R → Type 0)
    (rbound : ℕ) (rlaws : IsPartsStorage rps RInv rbound) (ps : PartsStorage Msg S)
    (Inv : S → Type 0) (bound : ℕ) (laws : IsPartsStorage ps Inv bound) (src : Source Msg) where
  -- The routing `es` and, after it, parts of `ms` have been received.
  abbrev pub Requested :
      List Msg
      → ℕ
      → List Msg
      → Bool
      → R
      → Incoming Msg S
      → Option (Done × R × Incoming Msg S)
      → Type 0
  Requested es parts ms check routing s none = ⊥
  Requested es parts ms check routing s (some (r, routing', t)) =
      RInv routing'
      × (contents rps routing' ≡ contents rps routing ++ singles es)
      × Counted ps Inv bound laws src parts ms check (record s { calls = s.calls + length es })
          (r, t)

  routed-Requested :
      (es : List Msg) (parts : ℕ) (ms : List Msg) (check : Bool) (routing : R) (s : Incoming Msg S)
      (out : Option (Done × R × ℕ))
      → 0 < parts
      → Inv s.store
      → size ps s + parts ≤ bound
      → Comes src (s.calls + length es) ms
      → Routed zmq rps RInv rbound rlaws src done es routing s.calls out
      → Requested es parts ms check routing s
          (routed zmq rps ps src s (λ t. some (receive_parts ps src t parts check)) out)
  unfolding routed size
  routed-Requested es parts ms check routing s none pos inv room c h = h
  routed-Requested es parts ms check routing s (some (threw e, r, calls)) pos inv room c h =
      absurd (cc h.0)
  routed-Requested es parts ms check routing s (some (ok _, r, calls)) pos inv room c (d, i, k, n) =
      (
        i,
        k,
        subst
            (λ m.
              Counted ps Inv bound laws src parts ms check
                (record s { calls = s.calls + length es })
                (receive_parts ps src (record s { calls = m }) parts check))
            (sym n)
            (receive_parts-Counted ps Inv bound laws src parts check ms
              (record s { calls = s.calls + length es }) pos inv room c),
      )

  -- Receiving a message of an X endpoint, where a routing of non-empty parts and an empty one comes
  -- and then `ms`, into storages with room: fuel for one round more than the routing has non-empty
  -- parts is enough; the routing is stored in order, and the outcome on the message itself is that
  -- of receiving from `ms` alone: the result that its number of parts calls for, and the parts
  -- received stored in order behind the earlier ones.
  pub receive_x-Requested :
      (fuel : ℕ) (es : List Msg) (last : Msg) (routing : R) (parts : ℕ) (check : Bool)
      (ms : List Msg) (s : Incoming Msg S)
      → length es < fuel
      → RInv routing
      → length (rps.parts routing) ≡ 0
      → length es < rbound
      → Leads zmq src s.calls es last
      → length (zmq.bytes last) ≡ 0
      → 0 < parts
      → Inv s.store
      → size ps s + parts ≤ bound
      → Comes src (s.calls + length (es ++ last ∷ [])) ms
      → Requested
          (es ++ last ∷ [])
          parts
          ms
          check
          routing
          s
          (receive_x zmq rps ps src fuel routing s parts check)
  unfolding receive_x
  receive_x-Requested fuel es last routing parts check ms s f ri empty small l z pos inv room c =
      routed-Requested (es ++ last ∷ []) parts ms check routing s _ pos inv room c (
        receive_routing-done zmq rps RInv rbound rlaws src fuel es last routing s.calls f ri empty
          small l z)
