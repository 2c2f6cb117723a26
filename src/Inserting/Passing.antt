-- ===== src/Inserting/Passing.antt =====
-- `operator<<` of a part of the incoming message.
use zmqmessage.Base.{
  ℕ, ◌^◌, ◌<◌, ◌≡◌, refl, sym, ap, ◌∙◌, ◌⊎◌, List, [], ◌∷◌, ◌++◌, some, Bool, true, false, length,
  get_elem?, set, subst,
}
use zmqmessage.Zmq.{MsgApi, IsMsgApi, Dest, ok, threw, Done, zmq_error}
use zmqmessage.Part.{Part, held}
use zmqmessage.Options.{has_option, copy_incoming}
use zmqmessage.Multipart.Holding.{set_same}
use zmqmessage.Sink.Modes.{NoDrop, send_one-NoDrop}
use zmqmessage.Sink.{Sink, State, send_one, is_dropping}
use zmqmessage.Sink.Run.{IsRun, IsRunIn}
use zmqmessage.Sink.Insert.{StepOne, send_one-StepOne}
use zmqmessage.Inserting.{PartRef, insert_part, put_back, incoming_part}

module _ {Msg : Type 0} (zmq : MsgApi Msg) (laws : IsMsgApi zmq) (dst : Dest Msg) where
  -- What is left of a part that was passed: the part itself where it was copied, and otherwise a
  -- part that owns nothing, unless the sink is dropping.
  abbrev pub Leaves : Bool → Part Msg → Sink Msg → Part Msg → Type 0
  Leaves true p t x = x ≡ p
  Leaves false p t x = (held x ≡ []) ⊎ (t.state ≡ State.dropping)

  -- How inserting part `i` of `parts`, which is `p`, ends.
  abbrev pub InsertedFrom :
      Bool → List Msg → List (Part Msg) → ℕ → Part Msg → Done × Sink Msg → Type 0
  InsertedFrom copying ns parts i p (ok _, t) =
      IsRun (ns ++ p.msg ∷ []) t
      × ((x : Part Msg) × (t.incoming ≡ some (set parts i x)) × Leaves copying p t x)
  InsertedFrom copying ns parts i p (threw e, t) = (e ≡ zmq_error) × (t.incoming ≡ some parts)

  -- The incoming message does not bear on what the sink has taken.
  with_incoming :
      (st : State) (ms : List Msg) (s : Sink Msg) (parts : List (Part Msg))
      → IsRunIn st ms s
      → IsRunIn st ms (record s { incoming = some parts })
  with_incoming State.not_sent ms s parts h = h
  with_incoming State.sending ms s parts h = h
  with_incoming State.queueing ms s parts h = h
  with_incoming State.dropping ms s parts h = h
  with_incoming State.flushed ms s parts h = h

  put_back-InsertedFrom :
      (copying : Bool) (ns : List Msg) (parts : List (Part Msg)) (i : ℕ) (s : Sink Msg)
      (p : Part Msg) (out : Done × Sink Msg × Part Msg)
      → get_elem? parts i ≡ some p
      → StepOne zmq laws dst copying ns s p out
      → InsertedFrom copying ns parts i p (put_back zmq dst (some parts) i out)
  unfolding put_back
  put_back-InsertedFrom true ns parts i s p (ok _, t, x) e (run, k) =
      (with_incoming t.state (ns ++ p.msg ∷ []) t (set parts i x) run, (x, refl, k))
  put_back-InsertedFrom false ns parts i s p (ok _, t, x) e (run, k) =
      (with_incoming t.state (ns ++ p.msg ∷ []) t (set parts i x) run, (x, refl, k))
  put_back-InsertedFrom true ns parts i s p (threw z, t, x) e (h, w, k) =
      (h, ap some (ap (set parts i) k ∙ set_same parts i p e))
  put_back-InsertedFrom false ns parts i s p (threw z, t, x) e (h, w, k) =
      (h, ap some (ap (set parts i) k ∙ set_same parts i p e))

  part_step :
      (s : Sink Msg) (parts : List (Part Msg)) (i : ℕ) (p : Part Msg)
      → s.incoming ≡ some parts
      → get_elem? parts i ≡ some p
      → insert_part zmq dst s (PartRef.in_incoming i)
        ≡ put_back zmq dst
            (some parts)
            i
            (send_one zmq dst s p (has_option s.options copy_incoming))
  unfolding insert_part incoming_part
  part_step s parts i p e g = simp (e, g, insert_part, incoming_part)

  -- Inserting an owned part of the incoming message by operator<<(Part&) into a sink that has taken
  -- fewer than 2 ^ 61 parts either adds its message behind those, and the part stays in the
  -- incoming message as it was if COPY_INCOMING is set, and otherwise owns nothing there any more
  -- unless the sink is dropping; or throws zmq::error_t and leaves the incoming message as it was.
  pub insert_part-InsertedFrom :
      (ns : List Msg) (s : Sink Msg) (parts : List (Part Msg)) (i : ℕ) (p : Part Msg)
      → s.incoming ≡ some parts
      → get_elem? parts i ≡ some p
      → p.valid ≡ true
      → length ns < 2 ^ 61
      → IsRun ns s
      → InsertedFrom
          (has_option s.options copy_incoming)
          ns
          parts
          i
          p
          (insert_part zmq dst s (PartRef.in_incoming i))
  insert_part-InsertedFrom ns s parts i p e g v small run =
      let copying = has_option s.options copy_incoming in
      subst (InsertedFrom copying ns parts i p) (sym (part_step s parts i p e g)) (
        put_back-InsertedFrom copying ns parts i s p _ g
          (send_one-StepOne zmq laws dst copying ns s p v small run))

  put_back-NoDrop :
      (parts : List (Part Msg)) (i : ℕ) (out : Done × Sink Msg × Part Msg)
      → NoDrop zmq dst out.1
      → NoDrop zmq dst (put_back zmq dst (some parts) i out).1
  unfolding put_back is_dropping
  put_back-NoDrop parts i (r, s, p) h = h

  pub insert_part-NoDrop :
      (s : Sink Msg) (parts : List (Part Msg)) (i : ℕ) (p : Part Msg)
      → s.incoming ≡ some parts
      → get_elem? parts i ≡ some p
      → NoDrop zmq dst s
      → NoDrop zmq dst (insert_part zmq dst s (PartRef.in_incoming i)).1
  insert_part-NoDrop s parts i p e g h =
      subst (λ (out : Done × Sink Msg). NoDrop zmq dst out.1) (sym (part_step s parts i p e g))
        (put_back-NoDrop parts i _
          (send_one-NoDrop zmq dst s p (has_option s.options copy_incoming) h))
