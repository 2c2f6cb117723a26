-- ===== src/Sink/Flush.antt =====
-- `flush`: the last part, and the end of the message.
use zmqmessage.Base.{
  ◌≡◌, ◌≢◌, refl, sym, ◌∙◌, ◌⊎◌, inl, inr, List, [], ◌∷◌, Option, none, Bool, true, false, arith,
  if◌then◌else◌, Bool-cases, subst, append-nil,
}
use zmqmessage.Zmq.{
  MsgApi, IsMsgApi, Dest, Result, ok, threw, Done, done, zmq_error, on_flush, Event,
}
use zmqmessage.Part.{mark_invalid}
use zmqmessage.Storage.{DynamicPartsStorage}
use zmqmessage.Sink.{
  Sink, State, flush, flush_cached, flush_rest, flush_end, try_send_first_cached, is_dropping,
  is_flushed, flush_first, flush_active,
}
use zmqmessage.Sink.Trace.{wire, frames, frames_of_more, Strict, do_send_one-Strict}
use zmqmessage.Sink.Run.{Holds, IsRunIn, IsRun}
use zmqmessage.Sink.First.{First, try_send_first_cached-First}

not_flushed : (st : State) → st ≢ State.flushed → is_flushed st ≡ false
not_flushed State.flushed h = absurd (h refl)
not_flushed _ h = refl

module _ {Msg : Type 0} where
  -- Where the messages are once the sink is flushed: all of them went over the wire as one whole
  -- multipart message; or all are in the queue; or all have been dropped.
  abbrev pub EndedAt : List Msg → List (Msg × Bool) → Option (DynamicPartsStorage Msg) → Type 0
  EndedAt ms w queue =
      (w ≡ frames ms) × (queue ≡ none) ⊎ (w ≡ []) × Holds ms queue ⊎ (w ≡ []) × (queue ≡ none)

  abbrev pub Ended : List Msg → Sink Msg → Type 0
  Ended ms t = EndedAt ms (wire t.trace) t.outgoing_queue

  abbrev pub Flushed : List Msg → Sink Msg → Done × Sink Msg → Type 0
  Flushed ms s (ok _, t) =
      (s.state ≡ State.dropping) × (t ≡ s)
      ⊎ (t.state ≡ State.flushed) × (t.cached.valid ≡ false) × Ended ms t
  Flushed ms s (threw e, t) = (e ≡ zmq_error) × (wire t.trace ≡ wire s.trace)

  pub wire-flush : (b : Bool) (t : List (Event Msg)) → wire (if b then on_flush ∷ t else t) ≡ wire t
  wire-flush true t = refl
  wire-flush false t = refl

module _ {Msg : Type 0} (zmq : MsgApi Msg) (laws : IsMsgApi zmq) (dst : Dest Msg) where
  flush_end-Flushed :
      (ms : List Msg) (s t : Sink Msg)
      → t.state ≢ State.flushed
      → t.cached.valid ≡ false
      → Ended ms t
      → Flushed ms s (flush_end zmq dst t)
  unfolding flush_end
  flush_end-Flushed ms s t ne v h = simp (not_flushed t.state ne) (
      inr (
        refl,
        v,
        subst (λ w. EndedAt ms w t.outgoing_queue) (sym (wire-flush t.send_observer t.trace)) h,
      ))

  flush_rest-Flushed :
      (ms : List Msg) (s t : Sink Msg)
      → t.state ≢ State.flushed
      → Ended ms t
      → Flushed ms s (flush_rest zmq dst (done, t))
  unfolding flush_rest mark_invalid
  flush_rest-Flushed ms s t ne h =
      flush_end-Flushed ms s (record t { cached = mark_invalid zmq t.cached }) ne refl h

  -- The branches of `flush`.
  First-Flushed :
      (s : Sink Msg) (out : Result Bool × Sink Msg)
      → wire s.trace ≡ []
      → First zmq laws dst s.cached.msg true out
      → Flushed (s.cached.msg ∷ []) s (flush_rest zmq dst (flush_first zmq dst out))
  unfolding flush_first flush_rest
  First-Flushed s (ok true, t) w (st, w', q, c) =
      flush_rest-Flushed (s.cached.msg ∷ []) s t (λ e. cc) (inl (w', q))
  First-Flushed s (ok false, t) w (inl (st, h)) =
      flush_rest-Flushed (s.cached.msg ∷ []) s t (λ e. cc) (inr (inl (h.0, h.2)))
  First-Flushed s (ok false, t) w (inr (st, h)) =
      flush_rest-Flushed (s.cached.msg ∷ []) s t (λ e. cc) (inr (inr h))
  First-Flushed s (threw e, t) w (z, w') = (z, w' ∙ sym w)

  sending-Flushed :
      (ms : List Msg) (s : Sink Msg) (out : Done × Sink Msg)
      → s.state ≡ State.sending
      → IsRunIn State.sending ms s
      → Strict zmq dst s true out
      → Flushed ms s (flush_rest zmq dst out)
  unfolding flush_rest
  sending-Flushed ms s (ok _, t) st (q, c, w) sent =
      flush_rest-Flushed ms s t
        (λ e. let d : State.sending ≡ State.flushed = sym (sent.rest.state ∙ st) ∙ e in cc)
        (inl (
          sent.crosses ∙ frames_of_more (wire s.trace) ms s.cached.msg w,
          sent.rest.outgoing_queue ∙ q,
        ))
  sending-Flushed ms s (threw e, t) st h (z, inl sent) =
      (z, sent.crosses ∙ append-nil (wire s.trace))
  sending-Flushed ms s (threw e, t) st h (z, inr sent) =
      (z, sent.crosses ∙ append-nil (wire s.trace))

  not_sent-Flushed :
      (ms : List Msg) (s : Sink Msg)
      → s.state ≡ State.not_sent
      → s.cached.valid ≡ true
      → IsRunIn State.not_sent ms s
      → Flushed ms s (flush_rest zmq dst (flush_cached zmq dst State.not_sent s))
  unfolding flush_cached
  not_sent-Flushed ms s st v (w, q, h) =
      let one : s.cached.msg ∷ [] ≡ ms = ground arith in
      subst
        (λ ns.
          Flushed ns s
            (flush_rest zmq dst (flush_first zmq dst (try_send_first_cached zmq dst s true))))
        one
        (First-Flushed s _ w (
          try_send_first_cached-First zmq laws dst s true st
            (record { unsent = w; no_queue = q; valid = v })))

  cached-Flushed :
      (ms : List Msg) (s : Sink Msg) (st : State)
      → s.state ≡ st
      → s.cached.valid ≡ true
      → st ≢ State.dropping
      → IsRunIn st ms s
      → Flushed ms s (flush_rest zmq dst (flush_cached zmq dst st s))
  unfolding flush_cached
  cached-Flushed ms s State.not_sent e v d h = not_sent-Flushed ms s e v h
  cached-Flushed ms s State.sending e v d h =
      sending-Flushed ms s _ e h (do_send_one-Strict zmq dst s true)
  cached-Flushed ms s State.queueing e v d h = let c : s.cached.valid ≡ false = h.1 in cc
  cached-Flushed ms s State.dropping e v d h = absurd (d refl)
  cached-Flushed ms s State.flushed e v d h = absurd h

  -- A flush with nothing cached.
  bare-Flushed :
      (ms : List Msg) (s : Sink Msg) (st : State)
      → s.state ≡ st
      → s.cached.valid ≡ false
      → st ≢ State.dropping
      → IsRunIn st ms s
      → Flushed ms s (flush_end zmq dst s)
  bare-Flushed ms s State.not_sent e v d (w, q, h) =
      let no_part : ms ≡ [] = ground arith in
      flush_end-Flushed ms s s (λ f. let z : State.not_sent ≡ State.flushed = sym e ∙ f in cc) v
        (inl (rw no_part w, q))
  bare-Flushed ms s State.sending e v d (q, c, w) = cc
  bare-Flushed ms s State.queueing e v d (w, c, h) =
      flush_end-Flushed ms s s (λ f. let z : State.queueing ≡ State.flushed = sym e ∙ f in cc) v
        (inr (inl (w, h)))
  bare-Flushed ms s State.dropping e v d h = absurd (d refl)
  bare-Flushed ms s State.flushed e v d h = absurd h

  dropping_iff :
      (s : Sink Msg)
      → (is_dropping s ≡ true) × (s.state ≡ State.dropping)
        ⊎ (is_dropping s ≡ false) × (s.state ≢ State.dropping)
  unfolding is_dropping
  dropping_iff s = ground arith

  flush_active-Flushed :
      (ms : List Msg) (s : Sink Msg)
      → s.state ≢ State.dropping
      → IsRun ms s
      → Flushed ms s (flush_active zmq dst s)
  unfolding flush_active
  flush_active-Flushed ms s d run = elim (Bool-cases s.cached.valid) [
    | inl v ↦
        subst (Flushed ms s) (sym (simp (v, flush_active)))
          (cached-Flushed ms s s.state refl v d run)
    | inr v ↦
        subst (Flushed ms s) (sym (simp (v, flush_active))) (bare-Flushed ms s s.state refl v d run)
  ]

  -- Flushing a sink that has taken `ms`: if flush returns, a sink that was dropping is as it was,
  -- and any other is FLUSHED, with no part cached, and the messages have gone over the wire as one
  -- whole multipart message (ZMQ_SNDMORE on every part but the last), or are all in the queue with
  -- nothing sent, or are all dropped with nothing sent; if it throws, the exception is zmq::error_t
  -- and nothing more has crossed.
  pub flush-Flushed : (ms : List Msg) (s : Sink Msg) → IsRun ms s → Flushed ms s (flush zmq dst s)
  unfolding flush
  flush-Flushed ms s run = elim (dropping_iff s) [
    | inl (b, d) ↦ subst (Flushed ms s) (sym (stays b)) (inl (d, refl))
    | inr (b, d) ↦ subst (Flushed ms s) (sym (acts b)) (flush_active-Flushed ms s d run)
  ]
    where
      stays : is_dropping s ≡ true → flush zmq dst s ≡ (done, s)
      stays b = simp (b, flush)

      acts : is_dropping s ≡ false → flush zmq dst s ≡ flush_active zmq dst s
      acts b = simp (b, flush)
