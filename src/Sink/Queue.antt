-- ===== src/Sink/Queue.antt =====
-- `add_to_queue`: the outgoing queue takes every part at its end.
use zmqmessage.Base.{
  ℕ, suc, ◌+◌, ◌*◌, ◌^◌, ◌≤◌, ◌<◌, ◌≡◌, refl, sym, ap, ◌∙◌, List, [], ◌∷◌, ◌++◌, Option, none, some,
  map, arith, length, set, ◌≢◌, append_assoc, append-nil, ap₂, get_elem?-lt,
}
use zmqmessage.Zmq.{MsgApi, IsMsgApi, done}
use zmqmessage.Part.{Part, move, held, held_all}
use zmqmessage.Part.Ownership.{move_transfers}
use zmqmessage.Storage.{DynamicPartsStorage, dynamic_parts, dynamic_set, dynamic_make, IsStorage}
use zmqmessage.Storage.Growth.{Extends, dynamic_next-Extends, dynamic_make-IsStorage}
use zmqmessage.Storage.Access.{length-dynamic_parts, dynamic_set_lem, owns_of_size}
use zmqmessage.Sink.{Sink, add_to_queue, queue_slot}

module _ {Msg : Type 0} where
  -- The parts' messages only depend on what each part owns.
  flat : List (List Msg) → List Msg
  flat [] = []
  flat (v ∷ vs) = v ++ flat vs

  held_all-flat : (ps : List (Part Msg)) → held_all ps ≡ flat (map held ps)
  unfolding flat
  held_all-flat [] = refl
  held_all-flat (p ∷ ps) = ap (◌++◌ (held p)) (held_all-flat ps)

  flat-append : (vs ws : List (List Msg)) → flat (vs ++ ws) ≡ flat vs ++ flat ws
  unfolding flat
  flat-append [] ws = refl
  flat-append (v ∷ vs) ws = rw (flat-append vs ws) (sym (append_assoc v (flat vs) (flat ws)))

  -- Replacing the last part.
  held_all-set_last :
      (ps : List (Part Msg)) (vs : List (List Msg)) (m : Msg) (p : Part Msg)
      → map held ps ≡ vs ++ (m ∷ []) ∷ []
      → held_all (set ps (length vs) p) ≡ flat vs ++ held p
  unfolding flat
  held_all-set_last [] [] m p h = cc
  held_all-set_last [] (v ∷ vs) m p h = cc
  held_all-set_last (q ∷ []) [] m p h = append-nil (held p)
  held_all-set_last (q ∷ r ∷ ps) [] m p h = cc
  held_all-set_last (q ∷ ps) (v ∷ vs) m p h =
      let hq : held q ≡ v = cc in
      let ht : map held ps ≡ vs ++ (m ∷ []) ∷ [] = cc in
      rw (hq, held_all-set_last ps vs m p ht) (sym (append_assoc v (flat vs) (held p)))

  length-map-held : (ps : List (Part Msg)) → length (map held ps) ≡ length ps
  length-map-held [] = refl
  length-map-held (p ∷ ps) = ap suc (length-map-held ps)

  -- A queue that can grow.
  pub record IsQueue (q : DynamicPartsStorage Msg) : Type 0 where
    pub storage : IsStorage q
    pub owns : q.parts ≢ none
    pub nonempty : 0 < q.capacity
    pub bounded : q.capacity ≤ 10 + q.size * 2

  pub queued : Option (DynamicPartsStorage Msg) → List Msg
  queued none = []
  queued (some q) = held_all (dynamic_parts q)

module _ {Msg : Type 0} (zmq : MsgApi Msg) (ok : IsMsgApi zmq) where
  pub dynamic_make-IsQueue : (n : ℕ) → 0 < n → n ≤ 10 → IsQueue (dynamic_make zmq n)
  unfolding dynamic_make
  dynamic_make-IsQueue n pos le = record {
    storage = dynamic_make-IsStorage zmq ok n;
    owns = λ e. cc;
    nonempty = pos;
    bounded = omega arith;
  }

  pub dynamic_make-held_all :
      (n : ℕ)
      → ((dynamic_make zmq n).size ≡ 0) × (held_all (dynamic_parts (dynamic_make zmq n)) ≡ [])
  unfolding dynamic_make dynamic_parts
  dynamic_make-held_all n = (refl, refl)

  -- Writing the part that `next()` has given, by a move.
  write_last :
      (q t : DynamicPartsStorage Msg) (target p : Part Msg)
      → IsQueue q
      → Extends zmq ok q t
      → (held_all (dynamic_parts (dynamic_set t q.size (move zmq target p).0))
          ≡ held_all (dynamic_parts q) ++ held p)
        × IsQueue (dynamic_set t q.size (move zmq target p).0)
  unfolding dynamic_set
  write_last q t target p inv x =
      let to : Part Msg = (move zmq target p).0 in
      let w = dynamic_set_lem t q.size to x.kept (omega (arith, x.counted)) in
      let at : length (map held (dynamic_parts q)) ≡ q.size =
        length-map-held (dynamic_parts q) ∙ length-dynamic_parts q inv.storage in
      (
        ap held_all w.1
            ∙ ap (λ n. held_all (set (dynamic_parts t) n to)) (sym at)
            ∙ held_all-set_last (dynamic_parts t) (map held (dynamic_parts q)) zmq.init to
                x.appended
            ∙ ap₂ ◌++◌ (sym (held_all-flat (dynamic_parts q))) (move_transfers zmq ok target p).0,
        record {
          storage = w.0;
          owns = owns_of_size _ w.0 (omega (arith, x.counted));
          nonempty = omega (arith, x.not_less, inv.nonempty);
          bounded = omega (arith, x.at_most_doubled, x.counted, inv.bounded);
        },
      )

  -- Taking a part into a queue of fewer than 2 ^ 61 parts succeeds: its message is the last of the
  -- queue, those before it stay, and the part that was passed owns nothing any more.
  pub add_to_queue_lem :
      (s : Sink Msg) (p : Part Msg) (q : DynamicPartsStorage Msg)
      → s.outgoing_queue ≡ some q
      → IsQueue q
      → q.size < 2 ^ 61
      → (r : DynamicPartsStorage Msg) × (p' : Part Msg) × (add_to_queue zmq s p
          ≡ (done, record s { outgoing_queue = some r }, p'))
        × (held_all (dynamic_parts r) ≡ held_all (dynamic_parts q) ++ held p)
        × IsQueue r
        × (r.size ≡ suc q.size)
        × (held p' ≡ [])
  unfolding add_to_queue
  add_to_queue_lem s p q e inv small =
      let (t, next, x) =
        dynamic_next-Extends zmq ok q inv.storage inv.owns inv.nonempty
          (omega (arith, inv.bounded)) in
      let (target, found) =
        get_elem?-lt (dynamic_parts t) q.size
          (omega (arith, x.counted, length-dynamic_parts t x.kept)) in
      let w = write_last q t target p inv x in
      (
        dynamic_set t q.size (move zmq target p).0,
        (move zmq target p).1,
        rw (e, add_to_queue, next, queue_slot, found),
        w.0,
        w.1,
        unfold dynamic_set in omega (arith, x.counted),
        (move_transfers zmq ok target p).1,
      )
