-- ===== src/Sink/Delivery.antt =====
-- A whole outgoing message: a fresh sink, the insertions, and the flush.
use zmqmessage.Base.{
  ℕ, ◌+◌, ◌^◌, ◌<◌, ◌≡◌, refl, sym, ap, ◌∙◌, ◌⊎◌, inl, inr, List, [], ◌∷◌, ◌++◌, Option, Bool, true,
  false, arith, if◌then◌else◌, length, Bool-cases, subst, append-nil, append_assoc, length-append,
}
use zmqmessage.Zmq.{MsgApi, IsMsgApi, Dest, accepted, ok, threw, Done, done, zmq_error}
use zmqmessage.Part.{Part, make, msgs, AllValid}
use zmqmessage.Options.{has_option, emulate_block_sends}
use zmqmessage.Sink.{Sink, State, sink_make, send_owned, flush, is_dropping}
use zmqmessage.Sink.Trace.{wire, frames, frames_of_more, has_sndmore-get_send_flags}
use zmqmessage.Sink.Run.{IsRunIn, IsRun}
use zmqmessage.Sink.Insert.{Step, send_owned-Step}
use zmqmessage.Sink.Flush.{Flushed, Ended, flush-Flushed}

module _ {Msg : Type 0} (zmq : MsgApi Msg) (dst : Dest Msg) where
  abbrev pub and_then : (Sink Msg → Done × Sink Msg) → Done × Sink Msg × Part Msg → Done × Sink Msg
  and_then rest (ok _, s, _) = rest s
  and_then rest (threw e, s, _) = (threw e, s)

  -- `out << p << q << …`, up to the first exception.
  unfoldable pub insert_all : List (Part Msg) → Sink Msg → Done × Sink Msg
  insert_all [] s = (done, s)
  insert_all (p ∷ ps) s = and_then (insert_all ps) (send_owned zmq dst s p)

  abbrev pub and_flush : Done × Sink Msg → Done × Sink Msg
  and_flush (ok _, s) = flush zmq dst s
  and_flush (threw e, s) = (threw e, s)

  -- … `<< Flush`
  unfoldable pub send_all : List (Part Msg) → Sink Msg → Done × Sink Msg
  unfolding insert_all
  send_all ps s = and_flush (insert_all ps s)

module _ {Msg : Type 0} (zmq : MsgApi Msg) (laws : IsMsgApi zmq) (dst : Dest Msg) where
  abbrev pub Ran : List Msg → Done × Sink Msg → Type 0
  Ran ms (ok _, t) = IsRun ms t
  Ran ms (threw e, t) = e ≡ zmq_error

  pub insert_all-Ran :
      (ps : List (Part Msg)) (ms : List Msg) (s : Sink Msg)
      → AllValid ps
      → length ms + length ps < 2 ^ 61
      → IsRun ms s
      → Ran (ms ++ msgs ps) (insert_all zmq dst ps s)
  unfolding insert_all
  insert_all-Ran [] ms s v small run = rw (append-nil ms) run
  insert_all-Ran (p ∷ ps) ms s v small run =
      after (send_owned zmq dst s p) (send_owned-Step zmq laws dst ms s p v.0 (omega arith) run)
        (λ t r.
          insert_all-Ran ps (ms ++ p.msg ∷ []) t v.1 (omega (arith, length-append ms (p.msg ∷ [])))
            r)
    where
      after :
          (out : Done × Sink Msg × Part Msg)
          → Step ms s p out
          → ((t : Sink Msg)
              → IsRun (ms ++ p.msg ∷ []) t
              → Ran ((ms ++ p.msg ∷ []) ++ msgs ps) (insert_all zmq dst ps t))
          → Ran (ms ++ p.msg ∷ msgs ps) (and_then zmq dst (insert_all zmq dst ps) out)
      after (ok _, t, p') h rest =
          subst (λ ns. Ran ns (insert_all zmq dst ps t)) (append_assoc ms (p.msg ∷ []) (msgs ps))
            (rest t h.0)
      after (threw e, t, p') h rest = h.0

  -- A fresh sink has taken nothing.
  pub sink_make-IsRun :
      (options : ℕ) (observer : Bool) (incoming : Option (List (Part Msg)))
      → IsRun [] (sink_make zmq options observer incoming)
  unfolding sink_make make
  sink_make-IsRun options observer incoming = (refl, refl, refl)

  -- How sending a whole message may end.
  abbrev pub Delivered : List Msg → Done × Sink Msg → Type 0
  Delivered ms (ok _, t) =
      (t.state ≡ State.dropping) × (wire t.trace ≡ [])
      ⊎ (t.state ≡ State.flushed) × (t.cached.valid ≡ false) × Ended ms t
  Delivered ms (threw e, t) = e ≡ zmq_error

  and_flush-Delivered :
      (ms : List Msg) (out : Done × Sink Msg) → Ran ms out → Delivered ms (and_flush zmq dst out)
  and_flush-Delivered ms (ok _, s) run =
      ended (flush zmq dst s) (flush-Flushed zmq laws dst ms s run)
    where
      ended : (out : Done × Sink Msg) → Flushed ms s out → Delivered ms out
      ended (ok _, t) (inl (d, e)) = inl (rw e d, rw e (subst (λ r. IsRunIn r ms s) d run).0)
      ended (ok _, t) (inr h) = inr h
      ended (threw e, t) h = h.0
  and_flush-Delivered ms (threw e, s) run = run

  -- Sending fewer than 2 ^ 61 owned parts through a fresh sink and flushing it is all or nothing,
  -- for every option and every destination: either zmq::error_t is thrown, or the parts have gone
  -- over the wire in order as one whole multipart message, or all of them are in the outgoing queue
  -- in order and none was sent, or all were dropped and none was sent.
  pub send_all-Delivered :
      (options : ℕ) (observer : Bool) (incoming : Option (List (Part Msg))) (ps : List (Part Msg))
      → AllValid ps
      → length ps < 2 ^ 61
      → Delivered (msgs ps) (send_all zmq dst ps (sink_make zmq options observer incoming))
  unfolding send_all
  send_all-Delivered options observer incoming ps v small = and_flush-Delivered (msgs ps) _ (
      insert_all-Ran ps [] (sink_make zmq options observer incoming) v (omega arith)
        (sink_make-IsRun options observer incoming))

-- A socket that accepts every part.
abbrev pub always_accepts : {Msg : Type 0} → Dest Msg
always_accepts history m flags = accepted

module _ {Msg : Type 0} (zmq : MsgApi Msg) (laws : IsMsgApi zmq) where
  -- The sink neither queues nor drops, and does not emulate blocking.
  abbrev IsGoing : Sink Msg → Type 0
  IsGoing s =
      ((s.state ≡ State.not_sent) ⊎ (s.state ≡ State.sending))
      × (has_option s.options emulate_block_sends ≡ false)

  send_owned-IsGoing :
      (s : Sink Msg) (p : Part Msg)
      → IsGoing s
      → ((send_owned zmq always_accepts s p).0 ≡ done)
        × IsGoing (send_owned zmq always_accepts s p).1
  unfolding send_owned
  send_owned-IsGoing s p h = ground arith

  flush-IsGoing :
      (s : Sink Msg)
      → IsGoing s
      → ((flush zmq always_accepts s).0 ≡ done)
        × (wire (flush zmq always_accepts s).1.trace
            ≡ (if s.cached.valid then wire s.trace ++ (s.cached.msg, false) ∷ [] else wire s.trace))
  unfolding flush is_dropping
  flush-IsGoing s h = ground (arith, has_sndmore-get_send_flags s true)

  -- How the messages lie with the destination once all is well.
  abbrev Whole : List Msg → Done × Sink Msg → Type 0
  Whole ms (r, t) = (r ≡ done) × (wire t.trace ≡ frames ms)

  going_wire :
      (ms : List Msg) (s : Sink Msg) (st : State)
      → s.state ≡ st
      → IsGoing s
      → IsRunIn st ms s
      → (if s.cached.valid then wire s.trace ++ (s.cached.msg, false) ∷ [] else wire s.trace)
        ≡ frames ms
  going_wire ms s State.not_sent e g (w, q, h) = elim (Bool-cases s.cached.valid) [
    | inl v ↦ let one : s.cached.msg ∷ [] ≡ ms = ground arith in simp (v, w) (ap frames one)
    | inr v ↦ let no_part : [] ≡ ms = ground arith in simp (v, w) (ap frames no_part)
  ]
  going_wire ms s State.sending e g (q, v, w) =
      simp v (frames_of_more (wire s.trace) ms s.cached.msg w)
  going_wire ms s State.queueing e g h = ground arith
  going_wire ms s State.dropping e g h = ground arith
  going_wire ms s State.flushed e g h = absurd h

  send_rest-Whole :
      (ps : List (Part Msg)) (ms : List Msg) (s : Sink Msg)
      → AllValid ps
      → length ms + length ps < 2 ^ 61
      → IsGoing s
      → IsRun ms s
      → Whole (ms ++ msgs ps) (and_flush zmq always_accepts (insert_all zmq always_accepts ps s))
  unfolding insert_all
  send_rest-Whole [] ms s v small g run =
      let f = flush-IsGoing s g in
      (f.0, f.1 ∙ going_wire ms s s.state refl g run ∙ ap frames (sym (append-nil ms)))
  send_rest-Whole (p ∷ ps) ms s v small g run =
      after (send_owned zmq always_accepts s p) (send_owned-IsGoing s p g)
        (send_owned-Step zmq laws always_accepts ms s p v.0 (omega arith) run)
        (λ t k r.
          send_rest-Whole ps (ms ++ p.msg ∷ []) t v.1 (omega (arith, length-append ms (p.msg ∷ [])))
            k r)
    where
      after :
          (out : Done × Sink Msg × Part Msg)
          → (out.0 ≡ done) × IsGoing out.1
          → Step ms s p out
          → ((t : Sink Msg)
              → IsGoing t
              → IsRun (ms ++ p.msg ∷ []) t
              → Whole
                  ((ms ++ p.msg ∷ []) ++ msgs ps)
                  (and_flush zmq always_accepts (insert_all zmq always_accepts ps t)))
          → Whole (ms ++ p.msg ∷ msgs ps) (
              and_flush zmq always_accepts
                (and_then zmq always_accepts (insert_all zmq always_accepts ps) out))
      after (ok _, t, p') (d, k) h rest =
          subst (λ ns. Whole ns (and_flush zmq always_accepts (insert_all zmq always_accepts ps t)))
            (append_assoc ms (p.msg ∷ []) (msgs ps)) (rest t k h.0)
      after (threw e, t, p') (d, k) h rest = cc

  -- With a destination that accepts every part, and without EMULATE_BLOCK_SENDS, sending fewer than
  -- 2 ^ 61 owned parts through a fresh sink and flushing it returns with no exception, and the wire
  -- has exactly these messages in order, ZMQ_SNDMORE set on every one but the last.
  pub send_all-Whole :
      (options : ℕ) (observer : Bool) (incoming : Option (List (Part Msg))) (ps : List (Part Msg))
      → has_option options emulate_block_sends ≡ false
      → AllValid ps
      → length ps < 2 ^ 61
      → ((send_all zmq always_accepts ps (sink_make zmq options observer incoming)).0 ≡ done)
        × (wire (send_all zmq always_accepts ps (sink_make zmq options observer incoming)).1.trace
            ≡ frames (msgs ps))
  unfolding send_all sink_make
  send_all-Whole options observer incoming ps e v small =
      send_rest-Whole ps [] (sink_make zmq options observer incoming) v (omega arith) (inl refl, e)
        (sink_make-IsRun zmq laws always_accepts options observer incoming)
