-- ===== src/Inserting/Response.antt =====
-- The routing that a constructor of `Outgoing<XRouting>` sends first.
use zmqmessage.Base.{
  ℕ, ◌+◌, ◌^◌, ◌≤◌, ◌≡◌, refl, List, [], ◌∷◌, ◌++◌, Option, Bool, true, false, arith, length,
  append_assoc, append-nil, subst, length-append, ap₂,
}
use zmqmessage.Zmq.{MsgApi, IsMsgApi, Dest, ok, threw, Done, Error, zmq_error}
use zmqmessage.Part.{Part, make, msgs, AllValid}
use zmqmessage.Options.{has_option, copy_incoming}
use zmqmessage.Sink.{Sink, sink_make, add_pending_routing_part}
use zmqmessage.Sink.Run.{IsRun}
use zmqmessage.Sink.Insert.{StepOne, send_one-StepOne, add_pending-IsRun}
use zmqmessage.Sink.Delivery.{sink_make-IsRun}
use zmqmessage.Inserting.{outgoing_x, send_routing_x, routing_parts, next_routing}

module _ {Msg : Type 0} (zmq : MsgApi Msg) (laws : IsMsgApi zmq) (dst : Dest Msg) where
  -- What is left of the routing: all of it, if it was copied.
  abbrev Left : Bool → List (Part Msg) → List (Part Msg) → Type 0
  Left true ps qs = qs ≡ ps
  Left false ps qs = length qs ≡ length ps

  -- How the sending of a routing ends, where the sink has taken `ms` with it.
  abbrev pub Led : Bool → List Msg → List (Part Msg) → Done × Sink Msg × List (Part Msg) → Type 0
  Led copy ms ps (ok _, t, qs) = IsRun ms t × Left copy ps qs
  Led copy ms ps (threw e, t, qs) = (e ≡ zmq_error) × Left copy ps qs

  Left-head :
      (copy : Bool) (p : Part Msg) (ps qs : List (Part Msg)) (p' : Part Msg)
      → (copy ≡ true → p' ≡ p)
      → Left copy ps qs
      → Left copy (p ∷ ps) (p' ∷ qs)
  Left-head true p ps qs p' h l = ap₂ ◌∷◌ (h refl) l
  Left-head false p ps qs p' h l = omega (arith, l)

  Left-refl : (copy : Bool) (ps : List (Part Msg)) → Left copy ps ps
  Left-refl true ps = refl
  Left-refl false ps = refl

  -- What a step says of the part and of the sink.
  Kept-of :
      (copy : Bool) (ns : List Msg) (s t : Sink Msg) (p p' : Part Msg) (r : Done)
      → StepOne zmq laws dst copy ns s p (r, t, p')
      → copy ≡ true
      → p' ≡ p
  Kept-of true ns s t p p' (ok _) h e = h.1
  Kept-of true ns s t p p' (threw _) h e = h.2
  Kept-of false ns s t p p' r h e = cc

  IsRun-of :
      (copy : Bool) (ns : List Msg) (s t : Sink Msg) (p p' : Part Msg) (u : Unit {0})
      → StepOne zmq laws dst copy ns s p (ok u, t, p')
      → IsRun (ns ++ p.msg ∷ []) t
  IsRun-of true ns s t p p' u h = h.0
  IsRun-of false ns s t p p' u h = h.0

  error_of :
      (copy : Bool) (ns : List Msg) (s t : Sink Msg) (p p' : Part Msg) (e : Error)
      → StepOne zmq laws dst copy ns s p (threw e, t, p')
      → e ≡ zmq_error
  error_of true ns s t p p' e h = h.0
  error_of false ns s t p p' e h = h.0

  cons-Led :
      (copy : Bool) (ms : List Msg) (p p' : Part Msg) (ps : List (Part Msg))
      (out : Done × Sink Msg × List (Part Msg))
      → (copy ≡ true → p' ≡ p)
      → Led copy ms ps out
      → Led copy ms (p ∷ ps) (out.0, out.1, p' ∷ out.2)
  cons-Led copy ms p p' ps (ok _, t, qs) h (run, l) = (run, Left-head copy p ps qs p' h l)
  cons-Led copy ms p p' ps (threw e, t, qs) h (z, l) = (z, Left-head copy p ps qs p' h l)

  next_routing-Led :
      (copy : Bool) (ns : List Msg) (s : Sink Msg) (p : Part Msg) (ps : List (Part Msg))
      (ms : List Msg) (out : Done × Sink Msg × Part Msg)
      (rest : Sink Msg → Done × Sink Msg × List (Part Msg))
      → StepOne zmq laws dst copy ns s p out
      → ((t : Sink Msg) → IsRun (ns ++ p.msg ∷ []) t → Led copy ms ps (rest t))
      → Led copy ms (p ∷ ps) (next_routing zmq dst ps out rest)
  unfolding next_routing
  next_routing-Led copy ns s p ps ms (ok u, t, p') rest h k =
      cons-Led copy ms p p' ps (rest t) (Kept-of copy ns s t p p' (ok u) h)
        (k t (IsRun-of copy ns s t p p' u h))
  next_routing-Led copy ns s p ps ms (threw e, t, p') rest h k = (
    error_of copy ns s t p p' e h,
    Left-head copy p ps ps p' (Kept-of copy ns s t p p' (threw e) h) (Left-refl copy ps),
  )

  routing_parts-Led :
      (copy : Bool) (ns : List Msg) (ps : List (Part Msg)) (s : Sink Msg)
      → AllValid ps
      → length ns + length ps ≤ 2 ^ 61
      → IsRun ns s
      → Led copy (ns ++ msgs ps) ps (routing_parts zmq dst copy ps s)
  unfolding routing_parts
  routing_parts-Led copy ns [] s v small run = (rw (append-nil ns) run, Left-refl copy [])
  routing_parts-Led copy ns (p ∷ ps) s v small run =
      next_routing-Led copy ns (add_pending_routing_part s) p ps (ns ++ p.msg ∷ msgs ps) _ _
        (send_one-StepOne zmq laws dst copy ns (add_pending_routing_part s) p v.0 (omega arith)
          (add_pending-IsRun ns s run))
        (λ t k.
          subst (λ ks. Led copy ks ps (routing_parts zmq dst copy ps t))
            (append_assoc ns (p.msg ∷ []) (msgs ps))
            (routing_parts-Led copy (ns ++ p.msg ∷ []) ps t v.1
              (omega (arith, length-append {0} ns (p.msg ∷ []))) k))

  -- The messages of an envelope: those of the routing, or one empty message if there is none.
  abbrev pub envelope : List (Part Msg) → List Msg
  envelope [] = zmq.init ∷ []
  envelope (p ∷ ps) = msgs (p ∷ ps)

  null-Led :
      (copy : Bool) (s : Sink Msg) (out : Done × Sink Msg × Part Msg)
      → StepOne zmq laws dst false [] s (make zmq true) out
      → Led copy (zmq.init ∷ []) [] (out.0, out.1, [])
  unfolding make
  null-Led copy s (ok _, t, p') h = (h.0, Left-refl copy [])
  null-Led copy s (threw e, t, p') h = (h.0, Left-refl copy [])

  -- Constructing an Outgoing for an X endpoint with a routing of at most 2 ^ 61 owned parts: if the
  -- constructor returns, the sink has taken the parts of the routing, in order and nothing else, or
  -- one empty message if there is no routing; if it throws, the exception is zmq::error_t. With
  -- COPY_INCOMING, the routing is as it was; without, it has as many parts as before.
  pub outgoing_x-Led :
      (options : ℕ) (observer : Bool) (incoming : Option (List (Part Msg)))
      (routing : List (Part Msg))
      → AllValid routing
      → length routing ≤ 2 ^ 61
      → Led
          (has_option options copy_incoming)
          (envelope routing)
          routing
          (outgoing_x zmq dst options observer incoming routing)
  unfolding outgoing_x send_routing_x sink_make make
  outgoing_x-Led options observer incoming [] v small =
      null-Led (has_option options copy_incoming)
        (add_pending_routing_part (sink_make zmq options observer incoming)) _
        (send_one-StepOne zmq laws dst false []
          (add_pending_routing_part (sink_make zmq options observer incoming)) (make zmq true) refl
          (omega arith)
          (add_pending-IsRun [] (sink_make zmq options observer incoming)
            (sink_make-IsRun zmq laws dst options observer incoming)))
  outgoing_x-Led options observer incoming (p ∷ ps) v small =
      routing_parts-Led (has_option options copy_incoming) [] (p ∷ ps)
        (sink_make zmq options observer incoming) v (omega arith)
        (sink_make-IsRun zmq laws dst options observer incoming)
