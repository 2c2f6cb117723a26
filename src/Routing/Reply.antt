-- ===== src/Routing/Reply.antt =====
-- A response goes back along the routing that was received with the request.
use zmqmessage.Base.{
  ℕ, ◌^◌, ◌≤◌, ◌<◌, ◌≡◌, refl, ap, ◌∙◌, List, [], ◌∷◌, ◌++◌, Option, none, some, Bool, arith,
  length, map, subst, length-append, length-map,
}
use zmqmessage.Zmq.{MsgApi, IsMsgApi, Source, Dest, Done, done}
use zmqmessage.Part.{Part, held, msgs}
use zmqmessage.Options.{has_option, copy_incoming}
use zmqmessage.Storage.Interface.{PartsStorage, IsPartsStorage, contents}
use zmqmessage.Incoming.Counting.{singles}
use zmqmessage.Incoming.Joining.{singles-AllValid}
use zmqmessage.Inserting.{outgoing_x}
use zmqmessage.Inserting.Response.{Led, envelope, outgoing_x-Led}
use zmqmessage.Routing.{receive_routing}
use zmqmessage.Routing.Envelope.{Leads, Routed, receive_routing-done}

module _ {Msg R : Type 0} (zmq : MsgApi Msg) (laws : IsMsgApi zmq) (dst : Dest Msg)
    (rps : PartsStorage Msg R) (RInv : R → Type 0) (rbound : ℕ)
    (rlaws : IsPartsStorage rps RInv rbound) (src : Source Msg) where
  -- The response that is constructed from the routing that was received.
  abbrev pub Replied :
      List Msg → ℕ → Bool → Option (List (Part Msg)) → Option (Done × R × ℕ) → Type 0
  Replied es options observer incoming none = ⊥
  Replied es options observer incoming (some (r, routing, calls)) =
      (r ≡ done)
      × Led zmq laws dst (has_option options copy_incoming) es (rps.parts routing)
          (outgoing_x zmq dst options observer incoming (rps.parts routing))

  not_empty :
      (ps : List (Part Msg)) (es : List Msg)
      → 0 < length ps
      → msgs ps ≡ es
      → envelope zmq laws dst ps ≡ es
  not_empty [] es h e = elim h [ ]
  not_empty (p ∷ ps) es h e = e

  Routed-Replied :
      (es : List Msg) (options : ℕ) (observer : Bool) (incoming : Option (List (Part Msg)))
      (routing : R) (c : ℕ) (out : Option (Done × R × ℕ))
      → 0 < length es
      → length es ≤ 2 ^ 61
      → length (rps.parts routing) ≡ 0
      → Routed zmq rps RInv rbound rlaws src done es routing c out
      → Replied es options observer incoming out
  Routed-Replied es options observer incoming routing c none pos small empty h = h
  Routed-Replied es options observer incoming routing c (some (r, t, c')) pos small empty
        (d, i, k, n) =
      let (valid, e) =
        singles-AllValid (rps.parts t) es (k ∙ ap (λ v. v ++ singles es) (nothing_held empty)) in
      let count : length (rps.parts t) ≡ length es =
        omega (arith, ap length e, length-map {0, 0} (λ (p : Part Msg). p.msg) (rps.parts t)) in
      (
        d,
        subst
            (λ ms.
              Led zmq laws dst (has_option options copy_incoming) ms (rps.parts t)
                (outgoing_x zmq dst options observer incoming (rps.parts t)))
            (not_empty (rps.parts t) es (omega (arith, count)) e)
            (outgoing_x-Led zmq laws dst options observer incoming (rps.parts t) valid
              (omega (arith, count))),
      )
    where
      nothing_held : length (rps.parts routing) ≡ 0 → contents rps routing ≡ []
      nothing_held h = none_of (rps.parts routing) h
        where
          none_of : (ps : List (Part Msg)) → length ps ≡ 0 → map held ps ≡ []
          none_of [] h = refl
          none_of (p ∷ ps) h = absurd (omega arith)

  -- Where a routing comes, non-empty parts and then an empty one, receiving it into an empty
  -- storage with room for it returns, and constructing an Outgoing from the parts that the storage
  -- then holds leads with the same messages in the same order: if the constructor returns, the sink
  -- has taken exactly them; if it throws, the exception is zmq::error_t. The routing has at most 2
  -- ^ 61 parts, and fuel for one round more than it has non-empty parts is enough.
  pub reply-Replied :
      (fuel : ℕ) (es : List Msg) (last : Msg) (routing : R) (c options : ℕ) (observer : Bool)
      (incoming : Option (List (Part Msg)))
      → length es < fuel
      → RInv routing
      → length (rps.parts routing) ≡ 0
      → length es < rbound
      → length es < 2 ^ 61
      → Leads zmq src c es last
      → length (zmq.bytes last) ≡ 0
      → Replied
          (es ++ last ∷ [])
          options
          observer
          incoming
          (receive_routing zmq rps src fuel routing c)
  reply-Replied fuel es last routing c options observer incoming f ri empty small few l z =
      Routed-Replied (es ++ last ∷ []) options observer incoming routing c _
        (omega (arith, length-append es (last ∷ []))) (omega (arith, length-append es (last ∷ [])))
        empty
        (receive_routing-done zmq rps RInv rbound rlaws src fuel es last routing c f ri empty small
          l z)
