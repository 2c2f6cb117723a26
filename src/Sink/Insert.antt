-- ===== src/Sink/Insert.antt =====
-- `send_owned`: one more part.
use zmqmessage.Base.{
  ◌+◌, ◌^◌, ◌<◌, ◌≡◌, refl, sym, ap, ◌∙◌, ◌⊎◌, inl, inr, List, [], ◌∷◌, ◌++◌, some, Bool, true,
  false, arith, length, Bool-cases, subst, append-nil, Option-cases, length-append, map-append,
}
use zmqmessage.Zmq.{MsgApi, IsMsgApi, Dest, Result, ok, threw, Done, done, zmq_error}
use zmqmessage.Part.{Part, make, copy, held}
use zmqmessage.Part.Ownership.{move_valid}
use zmqmessage.Storage.{DynamicPartsStorage}
use zmqmessage.Sink.{
  Sink, State, cache, after_try, after_send_one, send_owned_in, send_owned, add_to_queue,
  do_send_one, try_send_first_cached, send_one, add_pending_routing_part,
}
use zmqmessage.Sink.Trace.{wire, Strict, do_send_one-Strict}
use zmqmessage.Sink.Queue.{add_to_queue_lem}
use zmqmessage.Sink.Run.{Holds, IsRunIn, IsRun}
use zmqmessage.Sink.First.{First, try_send_first_cached-First}

module _ {Msg : Type 0} where
  IsRun-at :
      (ms : List Msg) (t : Sink Msg) (st : State) → t.state ≡ st → IsRunIn st ms t → IsRun ms t
  IsRun-at ms t st e h = subst (λ r. IsRunIn r ms t) (sym e) h

  -- How the insertion of an owned part into a sink that has taken `ms` ends: the sink has taken
  -- one more, and the caller's part has given its message away unless the sink is dropping; or
  -- zmq::error_t is thrown, nothing more has crossed and the caller's part is as it was.
  abbrev pub Step : List Msg → Sink Msg → Part Msg → Done × Sink Msg × Part Msg → Type 0
  Step ms s p (ok _, t, p') =
      IsRun (ms ++ p.msg ∷ []) t × ((held p' ≡ []) ⊎ (t.state ≡ State.dropping))
  Step ms s p (threw e, t, p') = (e ≡ zmq_error) × (wire t.trace ≡ wire s.trace) × (p' ≡ p)

module _ {Msg : Type 0} (zmq : MsgApi Msg) (laws : IsMsgApi zmq) (dst : Dest Msg) where
  cache_valid :
      (s : Sink Msg) (p : Part Msg)
      → p.valid ≡ true
      → cache zmq dst s p
        ≡ (done, record s { cached = p }, record { msg = zmq.init; valid = false })
  unfolding cache
  cache_valid s p v = rw (move_valid zmq laws s.cached p v)

  cache-Step :
      (ms : List Msg) (r s : Sink Msg) (p : Part Msg)
      → p.valid ≡ true
      → (st : State) → s.state ≡ st
      → IsRunIn st (ms ++ p.msg ∷ []) (record s { cached = p })
      → Step ms r p (cache zmq dst s p)
  cache-Step ms r s p v st e h =
      subst (Step ms r p) (sym (cache_valid s p v)) (IsRun-at _ _ st e h, inl refl)

  queue_part-Step :
      (ms : List Msg) (r s : Sink Msg) (p : Part Msg) (q : DynamicPartsStorage Msg)
      → p.valid ≡ true
      → length ms < 2 ^ 61
      → s.state ≡ State.queueing
      → wire s.trace ≡ []
      → s.cached.valid ≡ false
      → s.outgoing_queue ≡ some q
      → Holds ms (some q)
      → Step ms r p (add_to_queue zmq s p)
  queue_part-Step ms r s p q v small st w c e (inv, size, contents) =
      let (t, p', taken, contents', inv', size', left) =
        add_to_queue_lem zmq laws s p q e inv (omega (arith, size)) in
      rw taken (
        IsRun-at _ _ State.queueing st (
          w,
          c,
          (
            inv',
            omega (arith, size, size', length-append ms (p.msg ∷ [])),
            rw (contents', contents, v),
          ),
        ),
        inl left,
      )

  -- The branches of the switch.
  queueing-Step :
      (ms : List Msg) (s : Sink Msg) (p : Part Msg)
      → p.valid ≡ true
      → length ms < 2 ^ 61
      → s.state ≡ State.queueing
      → IsRunIn State.queueing ms s
      → Step ms s p (send_owned_in zmq dst State.queueing s p)
  unfolding send_owned_in
  queueing-Step ms s p v small st (w, c, h) = elim (Option-cases s.outgoing_queue) [
    | inl e ↦ absurd (subst (Holds ms) e h)
    | inr (q, e) ↦
        subst (Step ms s p) (sym (in_queueing e))
          (queue_part-Step ms s s p q v small st w c e (subst (Holds ms) e h))
  ]
    where
      in_queueing :
          {q : DynamicPartsStorage Msg}
          → s.outgoing_queue ≡ some q
          → send_owned_in zmq dst State.queueing s p ≡ add_to_queue zmq s p
      in_queueing e = simp (e, send_owned_in)

  after_send_one-Step :
      (ms : List Msg) (s : Sink Msg) (p : Part Msg) (out : Done × Sink Msg)
      → p.valid ≡ true
      → s.state ≡ State.sending
      → IsRunIn State.sending ms s
      → Strict zmq dst s false out
      → Step ms s p (after_send_one zmq dst out p)
  unfolding after_send_one
  after_send_one-Step ms s p (ok _, t) v st (q, c, w) sent =
      cache-Step ms s t p v State.sending (sent.rest.state ∙ st)
        (sent.rest.outgoing_queue ∙ q, v, rw (sent.crosses, w, map-append) refl)
  after_send_one-Step ms s p (threw e, t) v st h (z, inl sent) =
      (z, rw sent.crosses (append-nil (wire s.trace)), refl)
  after_send_one-Step ms s p (threw e, t) v st h (z, inr sent) =
      (z, rw sent.crosses (append-nil (wire s.trace)), refl)

  sending-Step :
      (ms : List Msg) (s : Sink Msg) (p : Part Msg)
      → p.valid ≡ true
      → s.state ≡ State.sending
      → IsRunIn State.sending ms s
      → Step ms s p (send_owned_in zmq dst State.sending s p)
  unfolding send_owned_in
  sending-Step ms s p v st h =
      subst (Step ms s p) (sym in_sending)
        (after_send_one-Step ms s p _ v st h (do_send_one-Strict zmq dst s false))
    where
      in_sending :
          send_owned_in zmq dst State.sending s p
          ≡ after_send_one zmq dst (do_send_one zmq dst s false) p
      in_sending = simp (h.1, send_owned_in)

  after_try-Step :
      (s : Sink Msg) (p : Part Msg) (out : Result Bool × Sink Msg)
      → p.valid ≡ true
      → wire s.trace ≡ []
      → First zmq laws dst s.cached.msg false out
      → Step (s.cached.msg ∷ []) s p (after_try zmq dst out p)
  unfolding after_try
  after_try-Step s p (ok true, t) v w (st, w', q, c) =
      cache-Step (s.cached.msg ∷ []) s t p v State.sending st (q, v, rw w' refl)
  after_try-Step s p (ok false, t) v w (inl (st, h)) = elim (Option-cases t.outgoing_queue) [
    | inl e ↦ absurd (subst (Holds (s.cached.msg ∷ [])) e h.2)
    | inr (q, e) ↦ simp st (
        queue_part-Step (s.cached.msg ∷ []) s t p q v (omega arith) st h.0 h.1 e
          (subst (Holds (s.cached.msg ∷ [])) e h.2))
  ]
  after_try-Step s p (ok false, t) v w (inr (st, h)) = simp st (h, inr refl)
  after_try-Step s p (threw e, t) v w (z, w') = (z, w' ∙ sym w, refl)

  not_sent-Step :
      (ms : List Msg) (s : Sink Msg) (p : Part Msg)
      → p.valid ≡ true
      → s.state ≡ State.not_sent
      → IsRunIn State.not_sent ms s
      → Step ms s p (send_owned_in zmq dst State.not_sent s p)
  unfolding send_owned_in
  not_sent-Step ms s p v st (w, q, h) = elim (Bool-cases s.cached.valid) [
    | inl c ↦ subst (Step ms s p) (sym (tries c)) (
        subst (λ ns. Step ns s p (after_try zmq dst (try_send_first_cached zmq dst s false) p))
          (one c)
          (after_try-Step s p _ v w (
            try_send_first_cached-First zmq laws dst s false st
              (record { unsent = w; no_queue = q; valid = c }))))
    | inr c ↦ subst (Step ms s p) (sym (caches c)) (
        cache-Step ms s s p v State.not_sent st
          (w, q, rw v (ap (λ ns. ns ++ p.msg ∷ []) (none_yet c))))
  ]
    where
      one : s.cached.valid ≡ true → s.cached.msg ∷ [] ≡ ms
      one c = ground arith

      none_yet : s.cached.valid ≡ false → [] ≡ ms
      none_yet c = ground arith

      tries :
          s.cached.valid ≡ true
          → send_owned_in zmq dst State.not_sent s p
            ≡ after_try zmq dst (try_send_first_cached zmq dst s false) p
      tries c = simp (c, send_owned_in)

      caches : s.cached.valid ≡ false → send_owned_in zmq dst State.not_sent s p ≡ cache zmq dst s p
      caches c = simp (c, send_owned_in)

  -- Inserting an owned part, of fewer than 2 ^ 61 before it, keeps the contract of the sink, in
  -- every state but FLUSHED: if send_owned returns, the sink has taken the part behind those that
  -- it had (so it waits as the last, all before it having crossed in order with ZMQ_SNDMORE, or all
  -- are in the queue in order and none has crossed, or all are dropped); if it throws, the
  -- exception is zmq::error_t, nothing more has crossed, and the caller still owns its part. So no
  -- assertion of the sink fails.
  pub send_owned-Step :
      (ms : List Msg) (s : Sink Msg) (p : Part Msg)
      → p.valid ≡ true
      → length ms < 2 ^ 61
      → IsRun ms s
      → Step ms s p (send_owned zmq dst s p)
  unfolding send_owned
  send_owned-Step ms s p v small run = by_state s.state refl run
    where
      by_state :
          (st : State) → s.state ≡ st → IsRunIn st ms s → Step ms s p (send_owned_in zmq dst st s p)
      by_state State.not_sent e h = not_sent-Step ms s p v e h
      by_state State.sending e h = sending-Step ms s p v e h
      by_state State.queueing e h = queueing-Step ms s p v small e h
      by_state State.dropping e h = (IsRun-at (ms ++ p.msg ∷ []) s State.dropping e h, inr e)
      by_state State.flushed e h = absurd h

  -- A copy of an owned part is an owned part with the same message.
  copy_valid : (p : Part Msg) → p.valid ≡ true → copy zmq (make zmq true) p ≡ p
  unfolding copy make
  copy_valid p v = ground (arith, laws.copy_takes zmq.init p.msg)

  -- `send_one` as `send_owned`; with use_copy the caller's part stays as it is in every case.
  abbrev pub StepOne : Bool → List Msg → Sink Msg → Part Msg → Done × Sink Msg × Part Msg → Type 0
  StepOne true ms s p (ok _, t, p') = IsRun (ms ++ p.msg ∷ []) t × (p' ≡ p)
  StepOne true ms s p (threw e, t, p') = (e ≡ zmq_error) × (wire t.trace ≡ wire s.trace) × (p' ≡ p)
  StepOne false ms s p out = Step ms s p out

  keep_part :
      (ms : List Msg) (s : Sink Msg) (p : Part Msg) (out : Done × Sink Msg × Part Msg)
      → Step ms s p out
      → StepOne true ms s p (out.0, out.1, p)
  keep_part ms s p (ok _, t, q) h = (h.0, refl)
  keep_part ms s p (threw e, t, q) h = (h.0, h.1, refl)

  -- Inserting a part by `send_one`, of fewer than 2 ^ 61 before it, keeps the contract of the sink
  -- as `send_owned` does; with use_copy set, the caller keeps its part as it was, whether the call
  -- returns or throws.
  pub send_one-StepOne :
      (copying : Bool) (ms : List Msg) (s : Sink Msg) (p : Part Msg)
      → p.valid ≡ true
      → length ms < 2 ^ 61
      → IsRun ms s
      → StepOne copying ms s p (send_one zmq dst s p copying)
  unfolding send_one
  send_one-StepOne true ms s p v small run =
      rw (copy_valid p v) (keep_part ms s p _ (send_owned-Step ms s p v small run))
  send_one-StepOne false ms s p v small run = send_owned-Step ms s p v small run

module _ {Msg : Type 0} where
  -- Counting a routing part is no change of the contract.
  pub add_pending-IsRun :
      (ms : List Msg) (s : Sink Msg) → IsRun ms s → IsRun ms (add_pending_routing_part s)
  unfolding add_pending_routing_part
  add_pending-IsRun ms s run = same s.state run
    where
      same :
          (st : State)
          → IsRunIn st ms s
          → IsRunIn st ms (record s { pending_routing_parts = s.pending_routing_parts + 1 })
      same State.not_sent h = h
      same State.sending h = h
      same State.queueing h = h
      same State.dropping h = h
      same State.flushed h = absurd h
