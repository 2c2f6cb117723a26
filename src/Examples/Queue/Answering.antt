-- ===== src/Examples/Queue/Answering.antt =====
-- What a round of the thread `worker` does to the answers.
use zmqmessage.Base.{
  ℕ, ◌+◌, ◌^◌, ◌≡◌, refl, sym, ap, ◌∙◌, List, [], ◌∷◌, ◌++◌, none, some, true, false, arith, length,
  map, get_elem?, subst, bit_or,
}
use zmqmessage.Zmq.{MsgApi, IsMsgApi, Dest, Source, ok, threw, Done, done}
use zmqmessage.Part.{Part, held}
use zmqmessage.Options.{has_option, copy_incoming, cache_on_block, nonblock}
use zmqmessage.Storage.{DynamicPartsStorage, dynamic_make, dynamic_parts, default_capacity}
use zmqmessage.Storage.Interface.{dynamic_storage, IsOpen, dynamic_storage-IsPartsStorage}
use zmqmessage.Storage.Fresh.{dynamic_make-IsOpen, dynamic_parts-dynamic_make}
use zmqmessage.Sink.{Sink, sink_make, send_owned, flush, is_dropping}
use zmqmessage.Sink.Run.{IsRun}
use zmqmessage.Sink.Insert.{Step, send_owned-Step}
use zmqmessage.Sink.Delivery.{sink_make-IsRun}
use zmqmessage.Sink.Modes.{NoDrop, send_owned-NoDrop, send_owned_incoming}
use zmqmessage.Sink.Kept.{Kept, flush-Kept, not_dropping}
use zmqmessage.Tools.{init_msg}
use zmqmessage.Inserting.{insert_part, PartRef}
use zmqmessage.Inserting.Value.{insert_value-send_owned}
use zmqmessage.Inserting.Passing.{InsertedFrom, insert_part-InsertedFrom, insert_part-NoDrop}
use zmqmessage.Multipart.Access.{at-owned}
use zmqmessage.Incoming.{Incoming, size, incoming_make, receive_parts}
use zmqmessage.Incoming.Counting.{Comes, singles, Counted, receive_parts-Counted}
use zmqmessage.Incoming.Joining.{singles-AllValid}
use zmqmessage.Examples.Queue.{
  QueueWorker, response, behind, egress, chained, unless_threw, insert_second, respond, requested,
  answer_request,
}
use zmqmessage.Examples.Queue.Keeping.{RespondedTo, responded-RespondedTo}

module _ {Msg : Type 0} (zmq : MsgApi Msg) (laws : IsMsgApi zmq) (dst : Dest Msg) (src : Source Msg)
    (r : Msg) (made : init_msg zmq response ≡ ok r) where
  insert_second-insert_part :
      (d : Dest Msg) (parts : List (Part Msg)) (q : Part Msg) (s : Sink Msg)
      → get_elem? parts 1 ≡ some q
      → 1 + 1 ≡ length parts
      → q.valid ≡ true
      → insert_second zmq dst src d parts s ≡ insert_part zmq d s (PartRef.in_incoming 1)
  unfolding insert_second unless_threw
  insert_second-insert_part d parts q s e n v =
      ap (λ a. unless_threw zmq dst src a s (insert_part zmq d s (PartRef.in_incoming 1)))
        (at-owned parts 1 q e (omega (arith, n)) v)

  abbrev fresh : ℕ → Incoming Msg (DynamicPartsStorage Msg)
  fresh calls = incoming_make (dynamic_make zmq default_capacity) calls

  -- The flush, after the second insertion into `s`.
  second-Kept :
      (d : Dest Msg) (parts : List (Part Msg)) (q : Part Msg) (s : Sink Msg)
      → get_elem? parts 1 ≡ some q
      → 1 + 1 ≡ length parts
      → q.valid ≡ true
      → s.incoming ≡ some parts
      → NoDrop zmq d s
      → IsRun (r ∷ []) s
      → Kept
          (r ∷ q.msg ∷ [])
          (chained zmq dst src (insert_second zmq dst src d parts s) (flush zmq d))
  second-Kept d parts q s e n v inc plain run =
      subst (λ w. Kept (r ∷ q.msg ∷ []) (chained zmq dst src w (flush zmq d)))
        (sym (insert_second-insert_part d parts q s e n v))
        (after (insert_part zmq d s (PartRef.in_incoming 1))
          (insert_part-NoDrop zmq laws d s parts 1 q inc e plain)
          (insert_part-InsertedFrom zmq laws d (r ∷ []) s parts 1 q inc e v (omega arith) run))
    where
      after :
          (out : Done × Sink Msg)
          → NoDrop zmq d out.1
          → InsertedFrom zmq laws d (has_option s.options copy_incoming) (r ∷ []) parts 1 q out
          → Kept (r ∷ q.msg ∷ []) (chained zmq dst src out (flush zmq d))
      after (ok _, t) nd (run', rest) =
          unfold chained in
          flush-Kept zmq laws d (r ∷ q.msg ∷ []) t (omega arith) (not_dropping zmq laws d t nd.1)
            run'
      after (threw z, t) nd (h, same) = unfold chained in h

  respond-Kept :
      (d : Dest Msg) (parts : List (Part Msg)) (q : Part Msg)
      → get_elem? parts 1 ≡ some q
      → 1 + 1 ≡ length parts
      → q.valid ≡ true
      → Kept (r ∷ q.msg ∷ []) (respond zmq dst src d parts)
  unfolding respond sink_make has_option is_dropping
  respond-Kept d parts q e n v =
      let s : Sink Msg = egress zmq dst src parts in
      let p : Part Msg = record { msg = r; valid = true } in
      subst
        (λ w. Kept (r ∷ q.msg ∷ []) (
          chained zmq dst src w
            (λ t. chained zmq dst src (insert_second zmq dst src d parts t) (flush zmq d))))
        (sym (insert_value-send_owned zmq d (λ text binary. text) s response r made))
        (after (send_owned zmq d s p) (send_owned_incoming zmq d s p)
          (send_owned-NoDrop zmq d s p (refl, refl))
          (send_owned-Step zmq laws d [] s p refl (omega arith)
            (sink_make-IsRun zmq laws d (bit_or cache_on_block nonblock) false (some parts))))
    where
      after :
          (out : Done × Sink Msg × Part Msg)
          → out.1.incoming ≡ some parts
          → NoDrop zmq d out.1
          → Step [] (egress zmq dst src parts) (record { msg = r; valid = true }) out
          → Kept (r ∷ q.msg ∷ []) (
              chained zmq dst src
                (out.0, out.1)
                (λ t. chained zmq dst src (insert_second zmq dst src d parts t) (flush zmq d)))
      after (ok _, t, x) inc nd (run, rest) =
          unfold chained in second-Kept d parts q t e n v inc nd run
      after (threw z, t, x) inc nd h = unfold chained in h.0

  two_parts :
      (ps : List (Part Msg)) (a b : Msg)
      → map held ps ≡ singles (a ∷ b ∷ [])
      → (q : Part Msg) × (get_elem? ps 1 ≡ some q)
        × (1 + 1 ≡ length ps)
        × (q.valid ≡ true)
        × (q.msg ≡ b)
  two_parts [] a b h = cc
  two_parts (p ∷ []) a b h = cc
  two_parts (p ∷ q ∷ []) a b h =
      let ((v, (w, _)), e) = singles-AllValid (p ∷ q ∷ []) (a ∷ b ∷ []) h in (q, refl, refl, w, cc)
  two_parts (p ∷ q ∷ o ∷ ps) a b h = cc

  -- A worker that keeps no answer and receives a request of two parts `a` and `b` answers it with
  -- "response" and `b`: either it keeps nothing and these two messages have gone out behind all it
  -- sent before, the last one without the flag that more follows, or nothing has been sent and it
  -- keeps them, in this order; or the round ends in a zmq error, the only exception. It goes on to
  -- another round unless there was one, and has called recv twice.
  pub answer_request-RespondedTo :
      (w : QueueWorker Msg) (a b : Msg)
      → w.queue ≡ none
      → Comes src w.calls (a ∷ b ∷ [])
      → RespondedTo zmq laws dst src (r ∷ b ∷ []) w (w.calls + 2) (answer_request zmq dst src w)
  unfolding answer_request incoming_make size
  answer_request-RespondedTo w a b n c =
      after (receive_parts (dynamic_storage zmq) src (fresh w.calls) 2 true) (
        receive_parts-Counted (dynamic_storage zmq) IsOpen (2 ^ 61)
          (dynamic_storage-IsPartsStorage zmq laws) src 2 true (a ∷ b ∷ []) (fresh w.calls)
          (omega arith) (dynamic_make-IsOpen zmq laws)
          (omega (arith, ap length (dynamic_parts-dynamic_make zmq laws))) c)
    where
      after :
          (out : Done × Incoming Msg (DynamicPartsStorage Msg))
          → Counted
              (dynamic_storage zmq)
              IsOpen
              (2 ^ 61)
              (dynamic_storage-IsPartsStorage zmq laws)
              src
              2
              (a ∷ b ∷ [])
              true
              (fresh w.calls)
              out
          → RespondedTo zmq laws dst src (r ∷ b ∷ []) w (w.calls + 2) (requested zmq dst src w out)
      after (ok _, s) (d, z, k) =
          let parts : map held (dynamic_parts s.store) ≡ singles (a ∷ b ∷ []) =
            k.adds
            ∙ ap (λ ps. map held ps ++ singles (a ∷ b ∷ []))
                (dynamic_parts-dynamic_make zmq laws) in
          let (q, e, len, v, m) = two_parts (dynamic_parts s.store) a b parts in
          let u : QueueWorker Msg = record w { calls = s.calls } in
          subst
            (λ x. RespondedTo zmq laws dst src (r ∷ b ∷ []) w x (requested zmq dst src w (done, s)))
            k.calls
            (unfold requested in
              responded-RespondedTo zmq laws dst src u (r ∷ b ∷ [])
                (respond zmq dst src (behind zmq dst src w) (dynamic_parts s.store)) n
                (subst
                  (λ x.
                    Kept (r ∷ x ∷ [])
                      (respond zmq dst src (behind zmq dst src w) (dynamic_parts s.store)))
                  m (respond-Kept (behind zmq dst src w) (dynamic_parts s.store) q e len v)))
      after (threw e, s) (d, z, k) = cc
