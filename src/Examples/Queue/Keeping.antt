-- ===== src/Examples/Queue/Keeping.antt =====
-- What follows the answer of a round of the thread `worker`: it is kept or has gone out.
use zmqmessage.Base.{
  ℕ, ◌≡◌, refl, sym, ap, ◌∙◌, ◌⊎◌, inl, inr, List, [], ◌++◌, Option, none, some, Bool, true, false,
  subst, append-nil,
}
use zmqmessage.Zmq.{MsgApi, IsMsgApi, Dest, Source, Result, ok, threw, Done, done, zmq_error}
use zmqmessage.Storage.{DynamicPartsStorage}
use zmqmessage.Sink.{Sink, State, is_queued, detach}
use zmqmessage.Sink.Trace.{wire, frames, wire-append}
use zmqmessage.Sink.Run.{Holds}
use zmqmessage.Sink.Kept.{Kept, sink_destroy-flush}
use zmqmessage.Examples.Queue.{QueueWorker, behind, scope_end, keep_queue, responded}

module _ {Msg : Type 0} (zmq : MsgApi Msg) (laws : IsMsgApi zmq) (dst : Dest Msg)
    (src : Source Msg) where
  -- The answer to a request has gone out behind the others, or waits.
  abbrev pub RespondedTo : List Msg → QueueWorker Msg → ℕ → Result Bool × QueueWorker Msg → Type 0
  RespondedTo ms w c (ok again, u) =
      (again ≡ true)
      × (u.calls ≡ c)
      × ((wire u.trace ≡ wire w.trace ++ frames ms) × (u.queue ≡ none)
          ⊎ (wire u.trace ≡ wire w.trace) × Holds ms u.queue)
  RespondedTo ms w c (threw e, u) = e ≡ zmq_error

  scope-wire :
      (w : QueueWorker Msg) (s : Sink Msg) (v : List (Msg × Bool))
      → s.state ≡ State.flushed
      → s.cached.valid ≡ false
      → wire s.trace ≡ v
      → wire (scope_end zmq dst src w s).trace ≡ wire w.trace ++ v
  unfolding scope_end
  scope-wire w s v f c e =
      ap (λ (t : Sink Msg). wire (t.trace ++ w.trace))
        (sink_destroy-flush zmq laws (behind zmq dst src w) s f c)
      ∙ wire-append s.trace w.trace
      ∙ ap (λ x. wire w.trace ++ x) e

  keep_none :
      (w : QueueWorker Msg) (s : Sink Msg)
      → w.queue ≡ none
      → keep_queue zmq dst src w.queue w s ≡ (
        ok true,
        record (scope_end zmq dst src w (record s { outgoing_queue = none })) {
          queue = s.outgoing_queue;
        },
      )
  unfolding keep_queue detach
  keep_none w s e = ap (λ o. keep_queue zmq dst src o w s) e

  passed_on :
      (w : QueueWorker Msg) (s : Sink Msg)
      → s.outgoing_queue ≡ none
      → responded zmq dst src w (done, s) ≡ (ok true, scope_end zmq dst src w s)
  unfolding responded is_queued
  passed_on w s e = simp e

  kept_back :
      (w : QueueWorker Msg) (s : Sink Msg) (q : DynamicPartsStorage Msg)
      → w.queue ≡ none
      → s.outgoing_queue ≡ some q
      → responded zmq dst src w (done, s) ≡ (
        ok true,
        record (scope_end zmq dst src w (record s { outgoing_queue = none })) { queue = some q },
      )
  unfolding responded is_queued
  kept_back w s q n e = simp e (
      keep_none w s n
      ∙ ap
          (λ x. (
            ok true,
            record (scope_end zmq dst src w (record s { outgoing_queue = none })) { queue = x },
          ))
          e)

  pub responded-RespondedTo :
      (w : QueueWorker Msg) (ms : List Msg) (out : Done × Sink Msg)
      → w.queue ≡ none
      → Kept ms out
      → RespondedTo ms w w.calls (responded zmq dst src w out)
  unfolding scope_end
  responded-RespondedTo w ms (threw e, s) n k = unfold responded in k
  responded-RespondedTo w ms (ok _, s) n (f, c, inl (e, q)) =
      subst (RespondedTo ms w w.calls) (sym (passed_on w s q))
        (refl, refl, inl (scope-wire w s (frames ms) f c e, n))
  responded-RespondedTo w ms (ok _, s) n (f, c, inr (e, h)) = waits s.outgoing_queue refl h
    where
      waits :
          (o : Option (DynamicPartsStorage Msg))
          → s.outgoing_queue ≡ o
          → Holds ms o
          → RespondedTo ms w w.calls (responded zmq dst src w (done, s))
      waits none q h = absurd h
      waits (some x) q h = subst (RespondedTo ms w w.calls) (sym (kept_back w s x n q)) (
        refl,
        refl,
        inr (
          scope-wire w (record s { outgoing_queue = none }) [] f c e ∙ append-nil (wire w.trace),
          h,
        ),
      )
