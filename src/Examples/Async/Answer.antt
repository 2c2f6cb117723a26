-- ===== src/Examples/Async/Answer.antt =====
-- What one answer of the task processor comes to.
use zmqmessage.Base.{
  ℕ, ◌≡◌, refl, sym, ap, ◌∙◌, ◌⊎◌, inl, inr, List, [], ◌∷◌, ◌++◌, Option, none, some, Bool, true,
  false, arith, subst, append-nil,
}
use zmqmessage.Zmq.{MsgApi, IsMsgApi, Event, Dest, ok, threw, Done, done, zmq_error}
use zmqmessage.Bytes.{ℤ}
use zmqmessage.Part.{Part}
use zmqmessage.Options.{has_option}
use zmqmessage.Storage.{DynamicPartsStorage, dynamic_parts}
use zmqmessage.Sink.{Sink, State, send_owned, flush, is_queued, detach}
use zmqmessage.Sink.Trace.{wire, frames, wire-append}
use zmqmessage.Sink.Run.{Holds}
use zmqmessage.Sink.Delivery.{insert_all, and_then, and_flush, send_all}
use zmqmessage.Sink.Kept.{Kept, send_all-Kept, sink_destroy-flush}
use zmqmessage.Tools.{init_msg}
use zmqmessage.Inserting.{insert_value}
use zmqmessage.Inserting.Value.{insert_value-send_owned}
use zmqmessage.Multipart.{send}
use zmqmessage.Multipart.Send.{Sent, send-Sent, msgs-Holds, AllValid-Holds, Sent-zmq_error}
use zmqmessage.Examples.Async.{
  Processor, finished, behind, egress, chained, answer, scope_end, answered, send_back,
}

module _ {Msg : Type 0} (zmq : MsgApi Msg) (laws : IsMsgApi zmq) (dst : Dest Msg)
    (show : ℤ → List ℕ) (message : List ℕ → Msg)
    (makes : (bs : List ℕ) → init_msg zmq bs ≡ ok (message bs)) where
  -- The messages of the answer to a task.
  abbrev pub reply : ℤ → List Msg
  reply id = message finished ∷ message (show id) ∷ []

  abbrev reply_part : List ℕ → Part Msg
  reply_part bs = record { msg = message bs; valid = true }

  flushes :
      (d : Dest Msg) (out : Done × Sink Msg × Part Msg)
      → chained zmq dst show (out.0, out.1) (flush zmq d)
        ≡ and_flush zmq d (and_then zmq d (insert_all zmq d []) out)
  unfolding chained insert_all
  flushes d (ok _, s, p) = refl
  flushes d (threw e, s, p) = refl

  inserts_id :
      (d : Dest Msg) (id : ℤ) (out : Done × Sink Msg × Part Msg)
      → chained zmq dst show
          (out.0, out.1)
          (λ s. chained zmq dst show (insert_value zmq d (λ i binary. show i) s id) (flush zmq d))
        ≡ and_flush zmq d (and_then zmq d (insert_all zmq d (reply_part (show id) ∷ [])) out)
  unfolding chained insert_all
  inserts_id d id (ok _, s, p) =
      ap (λ w. chained zmq dst show w (flush zmq d))
        (insert_value-send_owned zmq d (λ i binary. show i) s id (message (show id))
          (makes (show id)))
      ∙ flushes d (send_owned zmq d s (reply_part (show id)))
  inserts_id d id (threw e, s, p) = refl

  answer-send_all :
      (sent : List (Event Msg)) (id : ℤ)
      → answer zmq dst show sent id
        ≡ send_all zmq
            (behind zmq dst show sent)
            (reply_part finished ∷ reply_part (show id) ∷ [])
            (egress zmq dst show)
  unfolding answer chained send_all insert_all
  answer-send_all sent id =
      let d : Dest Msg = behind zmq dst show sent in
      ap
        (λ w.
          chained zmq dst show w (λ s.
            chained zmq dst show (insert_value zmq d (λ i binary. show i) s id) (flush zmq d)))
        (insert_value-send_owned zmq d (λ text binary. text) (egress zmq dst show) finished
          (message finished) (makes finished))
      ∙ inserts_id d id (send_owned zmq d (egress zmq dst show) (reply_part finished))

  pub answer-Kept :
      (sent : List (Event Msg)) (id : ℤ) → Kept (reply id) (answer zmq dst show sent id)
  unfolding has_option
  answer-Kept sent id = subst (Kept (reply id)) (sym (answer-send_all sent id)) (
      send_all-Kept zmq laws (behind zmq dst show sent) _ false none
        (reply_part finished ∷ reply_part (show id) ∷ []) refl (refl, (refl, tt)) (omega arith)
        (omega arith))

  -- The answer to `id` has gone to `s_res` behind all others, or waits at the back of the queue.
  abbrev pub Answered : ℤ → Processor Msg → Done × Processor Msg → Type 0
  Answered id p (ok _, r) =
      (r.tasks ≡ p.tasks)
      × (r.calls ≡ p.calls)
      × ((wire r.sent ≡ wire p.sent ++ frames (reply id)) × (r.queue ≡ p.queue)
          ⊎ (wire r.sent ≡ wire p.sent)
            × ((q : DynamicPartsStorage Msg) × (r.queue ≡ q ∷ p.queue) × Holds (reply id) (some q)))
  Answered id p (threw e, r) = e ≡ zmq_error

  scope_wire :
      (p : Processor Msg) (s : Sink Msg)
      → s.state ≡ State.flushed
      → s.cached.valid ≡ false
      → (w : List (Msg × Bool)) → wire s.trace ≡ w
      → wire (scope_end zmq dst show p s).sent ≡ wire p.sent ++ w
  unfolding scope_end
  scope_wire p s f v w e =
      ap (λ (t : Sink Msg). wire (t.trace ++ p.sent))
        (sink_destroy-flush zmq laws (behind zmq dst show p.sent) s f v)
      ∙ wire-append s.trace p.sent
      ∙ ap (λ x. wire p.sent ++ x) e

  not_queued :
      (p : Processor Msg) (s : Sink Msg)
      → s.outgoing_queue ≡ none
      → answered zmq dst show p (done, s) ≡ (done, scope_end zmq dst show p s)
  unfolding answered is_queued detach
  not_queued p s e = simp e

  queued :
      (p : Processor Msg) (s : Sink Msg) (q : DynamicPartsStorage Msg)
      → s.outgoing_queue ≡ some q
      → answered zmq dst show p (done, s) ≡ (
        done,
        record (scope_end zmq dst show p (record s { outgoing_queue = none })) {
          queue = q ∷ p.queue;
        },
      )
  unfolding answered is_queued detach
  queued p s q e = simp e

  pub answered-Answered :
      (id : ℤ) (p : Processor Msg) (out : Done × Sink Msg)
      → Kept (reply id) out
      → Answered id p (answered zmq dst show p out)
  unfolding answered scope_end
  answered-Answered id p (ok _, s) (f, v, inl (w, q)) =
      subst (Answered id p) (sym (not_queued p s q))
        (refl, refl, inl (scope_wire p s f v (frames (reply id)) w, refl))
  answered-Answered id p (ok _, s) (f, v, inr (w, h)) =
      let (q, e, h') = some_of s.outgoing_queue h in
      let s' : Sink Msg = record s { outgoing_queue = none } in
      subst (Answered id p) (sym (queued p s q e))
        (refl, refl, inr (scope_wire p s' f v [] w ∙ append-nil (wire p.sent), (q, refl, h')))
    where
      some_of :
          (queue : Option (DynamicPartsStorage Msg))
          → Holds (reply id) queue
          → (q : DynamicPartsStorage Msg) × (queue ≡ some q) × Holds (reply id) (some q)
      some_of none h = absurd h
      some_of (some q) h = (q, refl, h)
  answered-Answered id p (threw e, s) k = k

  -- The back of the queue has gone to `s_res`.
  abbrev pub SentBack :
      List Msg → List (DynamicPartsStorage Msg) → Processor Msg → Done × Processor Msg → Type 0
  SentBack ms queue p (ok _, r) =
      (r.tasks ≡ p.tasks)
      × (r.calls ≡ p.calls)
      × (r.queue ≡ queue)
      × (wire r.sent ≡ wire p.sent ++ frames ms)
  SentBack ms queue p (threw e, r) = e ≡ zmq_error

  pub send_back-SentBack :
      (ms : List Msg) (q : DynamicPartsStorage Msg) (queue : List (DynamicPartsStorage Msg))
      (p : Processor Msg)
      → Holds ms (some q)
      → SentBack ms queue p (send_back zmq dst show (q ∷ queue) p)
  unfolding send_back
  send_back-SentBack ms q queue p h =
      after (send zmq dst p.sent (dynamic_parts q) true false)
        (send-Sent zmq dst p.sent (dynamic_parts q) true false)
    where
      after :
          (out : Done × List (Part Msg) × List (Event Msg))
          → Sent zmq dst (dynamic_parts q) p.sent out
          → SentBack ms queue p (out.0, record p { queue = queue; sent = out.2 })
      after (ok _, qs, t) (v, w) =
          (refl, refl, refl, w ∙ ap (λ ns. wire p.sent ++ frames ns) (msgs-Holds q ms h))
      after (threw e, qs, t) z =
          Sent-zmq_error zmq dst (dynamic_parts q) e qs p.sent t (AllValid-Holds q ms h) z
