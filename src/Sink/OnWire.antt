-- ===== src/Sink/OnWire.antt =====
-- Without CACHE_ON_BLOCK a message is not queued either.
use zmqmessage.Base.{
  Bool, true, [], ◌∷◌, ◌≢◌, sym, ◌∙◌, arith, subst, ℕ, ◌^◌, ◌≤◌, ◌<◌, ◌≡◌, refl, inl, inr, List,
  Option, Bool, false, length,
}
use zmqmessage.Zmq.{done, Result, MsgApi, IsMsgApi, Dest, ok, threw, Done, zmq_error}
use zmqmessage.Part.{Part, msgs, AllValid}
use zmqmessage.Options.{has_option, drop_on_block, cache_on_block}
use zmqmessage.Sink.{
  Sink, State, sink_make, flush, flush_first, flush_rest, flush_active, flush_cached,
  try_send_first_cached, is_dropping,
}
use zmqmessage.Sink.Flush.{flush-Flushed}
use zmqmessage.Sink.First.{First, try_send_first_cached-First}
use zmqmessage.Sink.Run.{IsRun, IsRunIn}
use zmqmessage.Sink.Trace.{wire, frames}
use zmqmessage.Sink.Modes.{NoDrop, NoQueue, send_owned-NoQueue, flush-NoQueue}
use zmqmessage.Sink.Delivery.{insert_all, and_flush, send_all}
use zmqmessage.Sink.Kept.{
  Kept, Holds-some, not_dropping, not_dropping_at, Lost, Lost-wire, wire-flush_rest, Kept-of,
  sending_stays, not_nil, insert_all_keeps, send_all-Kept,
}

module _ {Msg : Type 0} (zmq : MsgApi Msg) (laws : IsMsgApi zmq) (dst : Dest Msg) where
  and_flush-NoQueue :
      (out : Done × Sink Msg) → NoQueue zmq dst out.1 → NoQueue zmq dst (and_flush zmq dst out).1
  and_flush-NoQueue (ok _, s) h = flush-NoQueue zmq dst s h
  and_flush-NoQueue (threw e, s) h = h

  send_all-NoQueue :
      (ps : List (Part Msg)) (s : Sink Msg)
      → NoQueue zmq dst s
      → NoQueue zmq dst (send_all zmq dst ps s).1
  unfolding send_all
  send_all-NoQueue ps s h =
      and_flush-NoQueue (insert_all zmq dst ps s)
        (insert_all_keeps zmq laws dst (NoQueue zmq dst) (send_owned-NoQueue zmq dst) ps s h)

  sink_make-NoQueue :
      (options : ℕ) (observer : Bool) (incoming : Option (List (Part Msg)))
      → has_option options cache_on_block ≡ false
      → NoQueue zmq dst (sink_make zmq options observer incoming)
  unfolding sink_make
  sink_make-NoQueue options observer incoming c = (c, refl)

  -- The message is flushed, and on the wire.
  abbrev pub OnWire : List Msg → Done × Sink Msg → Type 0
  OnWire ms (ok _, t) =
      (t.state ≡ State.flushed) × (t.cached.valid ≡ false) × (wire t.trace ≡ frames ms)
  OnWire ms (threw e, t) = e ≡ zmq_error

  Kept-OnWire :
      (ms : List Msg) (out : Done × Sink Msg) → Kept ms out → NoQueue zmq dst out.1 → OnWire ms out
  Kept-OnWire ms (ok _, t) (f, v, inl (w, q)) n = (f, v, w)
  Kept-OnWire ms (ok _, t) (f, v, inr (w, h)) (c, n) =
      absurd (Holds-some zmq laws dst ms t.outgoing_queue h n)
  Kept-OnWire ms (threw e, t) k n = k

  first-NoDrop :
      (s : Sink Msg) (last : Bool)
      → NoDrop zmq dst s
      → NoDrop zmq dst (try_send_first_cached zmq dst s last).1
  unfolding try_send_first_cached is_dropping
  first-NoDrop s last h = ground arith

  first-NoQueue :
      (s : Sink Msg) (last : Bool)
      → NoQueue zmq dst s
      → NoQueue zmq dst (try_send_first_cached zmq dst s last).1
  unfolding try_send_first_cached
  first-NoQueue s last h = ground arith

  -- A single part that is sent by flush is not lost.
  sends_single :
      (m : Msg) (out : Result Bool × Sink Msg)
      → First zmq laws dst m true out
      → NoDrop zmq dst out.1
      → NoQueue zmq dst out.1
      → ¬ Lost (flush_rest zmq dst (flush_first zmq dst out))
  unfolding flush_first
  sends_single m (ok true, t) (st, w, q, v) d n l =
      not_nil [] (m, false)
        (sym w
          ∙ sym (wire-flush_rest zmq laws dst t)
          ∙ Lost-wire zmq laws dst (flush_rest zmq dst (done, t)) l)
  sends_single m (ok false, t) (inl (st, h)) d (c, n) l =
      Holds-some zmq laws dst (m ∷ []) t.outgoing_queue h.2 n
  sends_single m (ok false, t) (inr (st, h)) d n l = not_dropping zmq laws dst t d.1 st
  sends_single m (threw e, t) h d n l = unfold flush_rest in l

  not_sent-flush :
      (s : Sink Msg)
      → s.state ≡ State.not_sent
      → s.cached.valid ≡ true
      → flush zmq dst s
        ≡ flush_rest zmq dst (flush_first zmq dst (try_send_first_cached zmq dst s true))
  unfolding flush flush_active flush_cached is_dropping
  not_sent-flush s e v = simp (not_dropping_at zmq laws dst s State.not_sent e (λ d. cc), e, v)

  stays_at :
      (ms : List Msg) (s : Sink Msg) (st : State)
      → s.state ≡ st
      → 1 ≤ length ms
      → st ≢ State.dropping
      → NoDrop zmq dst s
      → NoQueue zmq dst s
      → IsRunIn st ms s
      → ¬ Lost (flush zmq dst s)
  stays_at ms s State.not_sent e long d nd nq (w, q, h) l =
      let v : s.cached.valid ≡ true = ground arith in
      sends_single s.cached.msg (try_send_first_cached zmq dst s true)
        (try_send_first_cached-First zmq laws dst s true e
          (record { unsent = w; no_queue = q; valid = v }))
        (first-NoDrop s true nd) (first-NoQueue s true nq) (subst Lost (not_sent-flush s e v) l)
  stays_at ms s State.sending e long d nd nq h l = sending_stays zmq laws dst s e h.1 l
  stays_at ms s State.queueing e long d nd (c, n) h l =
      Holds-some zmq laws dst ms s.outgoing_queue h.2 n
  stays_at ms s State.dropping e long d nd nq h l = d refl
  stays_at ms s State.flushed e long d nd nq h l = h

  -- Flushing puts all that the sink has taken on the wire, where nothing may be queued or dropped.
  pub flush-OnWire :
      (ms : List Msg) (s : Sink Msg)
      → 1 ≤ length ms
      → NoDrop zmq dst s
      → NoQueue zmq dst s
      → IsRun ms s
      → OnWire ms (flush zmq dst s)
  flush-OnWire ms s long d q run =
      let alive = not_dropping zmq laws dst s d.1 in
      Kept-OnWire ms (flush zmq dst s)
        (Kept-of ms s _ alive (flush-Flushed zmq laws dst ms s run)
          (stays_at ms s s.state refl long alive d q run))
        (flush-NoQueue zmq dst s q)

  -- Where nothing may be queued or dropped, a message that is sent without an exception is on the
  -- wire.
  pub send_all_wire :
      (options : ℕ) (observer : Bool) (incoming : Option (List (Part Msg))) (ps : List (Part Msg))
      → has_option options drop_on_block ≡ false
      → has_option options cache_on_block ≡ false
      → AllValid ps
      → 2 ≤ length (msgs ps)
      → length ps < 2 ^ 61
      → OnWire (msgs ps) (send_all zmq dst ps (sink_make zmq options observer incoming))
  send_all_wire options observer incoming ps o c v long small =
      Kept-OnWire (msgs ps) _
        (send_all-Kept zmq laws dst options observer incoming ps o v long small)
        (send_all-NoQueue ps (sink_make zmq options observer incoming)
          (sink_make-NoQueue options observer incoming c))
