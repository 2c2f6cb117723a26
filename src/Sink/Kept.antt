-- ===== src/Sink/Kept.antt =====
-- Without DROP_ON_BLOCK a message is not lost.
use zmqmessage.Base.{
  ℕ, ◌^◌, ◌≤◌, ◌<◌, ◌≡◌, ◌≢◌, refl, sym, ◌∙◌, ◌⊎◌, inl, inr, List, [], ◌∷◌, ◌++◌, Option, none,
  some, Bool, true, false, arith, length, Bool-cases, subst,
}
use zmqmessage.Zmq.{MsgApi, IsMsgApi, Dest, ok, threw, Done, done, zmq_error}
use zmqmessage.Part.{Part, msgs, AllValid}
use zmqmessage.Options.{has_option, drop_on_block}
use zmqmessage.Sink.{
  Sink, State, sink_make, send_owned, flush, flush_cached, flush_rest, flush_end, flush_active,
  is_dropping, is_flushed, do_send_one, sink_destroy,
}
use zmqmessage.Sink.Trace.{wire, frames, Strict, do_send_one-Strict}
use zmqmessage.Sink.Run.{Holds, IsRunIn, IsRun}
use zmqmessage.Sink.Flush.{Flushed, flush-Flushed, wire-flush}
use zmqmessage.Sink.Modes.{NoDrop, send_owned-NoDrop}
use zmqmessage.Sink.Delivery.{
  insert_all, and_then, and_flush, send_all, Ran, insert_all-Ran, sink_make-IsRun,
}

pub not_nil : {A : Type 0} (w : List A) (x : A) → ¬ (w ++ x ∷ [] ≡ [])
not_nil [] x h = cc
not_nil (v ∷ w) x h = cc

module _ {Msg : Type 0} where
  -- The message is flushed, and is on the wire or in the queue.
  abbrev pub Kept : List Msg → Done × Sink Msg → Type 0
  Kept ms (ok _, t) =
      (t.state ≡ State.flushed)
      × (t.cached.valid ≡ false)
      × ((wire t.trace ≡ frames ms) × (t.outgoing_queue ≡ none)
          ⊎ (wire t.trace ≡ []) × Holds ms t.outgoing_queue)
  Kept ms (threw e, t) = e ≡ zmq_error

  abbrev pub Lost : Done × Sink Msg → Type 0
  Lost (ok _, t) = (wire t.trace ≡ []) × (t.outgoing_queue ≡ none)
  Lost (threw e, t) = ⊥

  pub Kept-of :
      (ms : List Msg) (s : Sink Msg) (out : Done × Sink Msg)
      → s.state ≢ State.dropping
      → Flushed ms s out
      → ¬ Lost out
      → Kept ms out
  Kept-of ms s (ok _, t) d (inl (e, h)) l = absurd (d e)
  Kept-of ms s (ok _, t) d (inr (f, v, inl h)) l = (f, v, inl h)
  Kept-of ms s (ok _, t) d (inr (f, v, inr (inl h))) l = (f, v, inr h)
  Kept-of ms s (ok _, t) d (inr (f, v, inr (inr h))) l = absurd (l h)
  Kept-of ms s (threw e, t) d h l = h.0

module _ {Msg : Type 0} (zmq : MsgApi Msg) (laws : IsMsgApi zmq) (dst : Dest Msg) where
  pub wire-flush_rest : (t : Sink Msg) → wire (flush_rest zmq dst (done, t)).1.trace ≡ wire t.trace
  unfolding flush_rest flush_end
  wire-flush_rest t = elim (Bool-cases (is_flushed t.state)) [
    | inl f ↦ simp f
    | inr f ↦ simp f (wire-flush t.send_observer t.trace)
  ]

  pub Lost-wire : (out : Done × Sink Msg) → Lost out → wire out.1.trace ≡ []
  Lost-wire (ok _, t) h = h.0
  Lost-wire (threw e, t) h = absurd h

  Lost-queue : (out : Done × Sink Msg) → Lost out → out.1.outgoing_queue ≡ none
  Lost-queue (ok _, t) h = h.1
  Lost-queue (threw e, t) h = absurd h

  Strict-stays :
      (s : Sink Msg) (out : Done × Sink Msg)
      → Strict zmq dst s true out
      → ¬ Lost (flush_rest zmq dst out)
  unfolding flush_rest
  Strict-stays s (ok _, t) sent l =
      not_nil (wire s.trace) (s.cached.msg, false)
        (sym sent.crosses ∙ sym (wire-flush_rest t) ∙ Lost-wire _ l)
  Strict-stays s (threw e, t) sent l = l

  pub not_dropping_at :
      (s : Sink Msg) (st : State) → s.state ≡ st → st ≢ State.dropping → is_dropping s ≡ false
  unfolding is_dropping
  not_dropping_at s State.not_sent e d = ground arith
  not_dropping_at s State.sending e d = ground arith
  not_dropping_at s State.queueing e d = ground arith
  not_dropping_at s State.dropping e d = absurd (d refl)
  not_dropping_at s State.flushed e d = ground arith

  sending_flush :
      (s : Sink Msg)
      → s.state ≡ State.sending
      → s.cached.valid ≡ true
      → flush zmq dst s ≡ flush_rest zmq dst (do_send_one zmq dst s true)
  unfolding flush flush_active flush_cached is_dropping
  sending_flush s e v = simp (not_dropping_at s State.sending e (λ d. cc), e, v)

  queueing_flush :
      (s : Sink Msg)
      → s.state ≡ State.queueing
      → s.cached.valid ≡ false
      → (flush zmq dst s).1.outgoing_queue ≡ s.outgoing_queue
  unfolding flush flush_active flush_end is_dropping
  queueing_flush s e v = ground arith

  pub sending_stays :
      (s : Sink Msg) → s.state ≡ State.sending → s.cached.valid ≡ true → ¬ Lost (flush zmq dst s)
  sending_stays s e v l =
      Strict-stays s _ (do_send_one-Strict zmq dst s true) (subst Lost (sending_flush s e v) l)

  pub Holds-some : (ms : List Msg) (queue : Option _) → Holds ms queue → ¬ (queue ≡ none)
  Holds-some ms none h e = h
  Holds-some ms (some q) h e = cc

  flush-stays :
      (ms : List Msg) (s : Sink Msg) (st : State)
      → s.state ≡ st
      → 2 ≤ length ms
      → st ≢ State.dropping
      → IsRunIn st ms s
      → ¬ Lost (flush zmq dst s)
  flush-stays ms s State.not_sent e long d (w, q, h) l = ground arith
  flush-stays ms s State.sending e long d (q, v, w) l = sending_stays s e v l
  flush-stays ms s State.queueing e long d (w, v, h) l =
      Holds-some ms s.outgoing_queue h (sym (queueing_flush s e v) ∙ Lost-queue _ l)
  flush-stays ms s State.dropping e long d h l = d refl
  flush-stays ms s State.flushed e long d h l = h

  pub flush-Kept :
      (ms : List Msg) (s : Sink Msg)
      → 2 ≤ length ms
      → s.state ≢ State.dropping
      → IsRun ms s
      → Kept ms (flush zmq dst s)
  flush-Kept ms s long d run =
      Kept-of ms s _ d (flush-Flushed zmq laws dst ms s run)
        (flush-stays ms s s.state refl long d run)

  -- What every insertion keeps.
  pub insert_all_keeps :
      (P : Sink Msg → Type 0)
      → ((s : Sink Msg) (p : Part Msg) → P s → P (send_owned zmq dst s p).1)
      → (ps : List (Part Msg)) (s : Sink Msg) → P s
      → P (insert_all zmq dst ps s).1
  unfolding insert_all
  insert_all_keeps P step [] s h = h
  insert_all_keeps P step (p ∷ ps) s h =
      after (send_owned zmq dst s p) (step s p h) (insert_all_keeps P step ps)
    where
      after :
          (out : Done × Sink Msg × Part Msg)
          → P out.1
          → ((t : Sink Msg) → P t → P (insert_all zmq dst ps t).1)
          → P (and_then zmq dst (insert_all zmq dst ps) out).1
      after (ok _, t, q) k ih = ih t k
      after (threw e, t, q) k ih = k

  pub not_dropping : (s : Sink Msg) → is_dropping s ≡ false → s.state ≢ State.dropping
  unfolding is_dropping
  not_dropping s h e = ground arith

  and_flush-Kept :
      (ms : List Msg) (out : Done × Sink Msg)
      → 2 ≤ length ms
      → NoDrop zmq dst out.1
      → Ran zmq laws dst ms out
      → Kept ms (and_flush zmq dst out)
  and_flush-Kept ms (ok _, s) long d run = flush-Kept ms s long (not_dropping s d.1) run
  and_flush-Kept ms (threw e, s) long d run = run

  -- Without DROP_ON_BLOCK no message is lost: sending between 2 and 2 ^ 61 - 1 owned parts through
  -- a fresh sink and flushing it ends with zmq::error_t, or with the sink flushed and either all
  -- parts on the wire as one whole multipart message and no queue, or none on the wire and all in
  -- the queue, in order.
  pub send_all-Kept :
      (options : ℕ) (observer : Bool) (incoming : Option (List (Part Msg))) (ps : List (Part Msg))
      → has_option options drop_on_block ≡ false
      → AllValid ps
      → 2 ≤ length (msgs ps)
      → length ps < 2 ^ 61
      → Kept (msgs ps) (send_all zmq dst ps (sink_make zmq options observer incoming))
  unfolding send_all sink_make is_dropping
  send_all-Kept options observer incoming ps o v long small =
      and_flush-Kept (msgs ps) (insert_all zmq dst ps (sink_make zmq options observer incoming))
        long
        (insert_all_keeps (NoDrop zmq dst) (send_owned-NoDrop zmq dst) ps
          (sink_make zmq options observer incoming) (o, refl))
        (insert_all-Ran zmq laws dst ps [] (sink_make zmq options observer incoming) v (omega arith)
          (sink_make-IsRun zmq laws dst options observer incoming))

  -- The destructor of a flushed sink sends nothing.
  pub sink_destroy-flush :
      (s : Sink Msg) → s.state ≡ State.flushed → s.cached.valid ≡ false → sink_destroy zmq dst s ≡ s
  unfolding sink_destroy flush flush_active flush_end is_dropping
  sink_destroy-flush s e v = ground arith
