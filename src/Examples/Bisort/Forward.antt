-- ===== src/Examples/Bisort/Forward.antt =====
-- What relaying a request to a worker and its answer back come to.
use zmqmessage.Base.{
  ℕ, ◌+◌, ◌^◌, ◌<◌, ◌≡◌, refl, sym, ap, ◌∙◌, inl, List, [], ◌∷◌, ◌++◌, Option, none, some, true,
  false, arith, length, subst, length-append,
}
use zmqmessage.Zmq.{MsgApi, IsMsgApi, Event, Dest, Source, Result, ok, threw, Done, done, zmq_error}
use zmqmessage.Part.{Part}
use zmqmessage.Options.{has_option}
use zmqmessage.Sink.{Sink, sink_make, send_owned, is_dropping}
use zmqmessage.Sink.Trace.{wire, frames, wire-append}
use zmqmessage.Sink.Run.{IsRun}
use zmqmessage.Sink.Insert.{Step, send_owned-Step}
use zmqmessage.Sink.Delivery.{sink_make-IsRun}
use zmqmessage.Sink.Modes.{Plain, send_owned-Plain}
use zmqmessage.Sink.Kept.{sink_destroy-flush}
use zmqmessage.Sink.OnWire.{OnWire, flush-OnWire}
use zmqmessage.Tools.{init_msg}
use zmqmessage.Tools.Relay.{Relayed, relay_raw-Relayed}
use zmqmessage.Incoming.Counting.{Comes}
use zmqmessage.Inserting.{insert_value}
use zmqmessage.Inserting.Value.{insert_value-send_owned}
use zmqmessage.Inserting.Relaying.{RelayedInto, relay_from-RelayedInto, Keeps, relay_from-Keeps}
use zmqmessage.Examples.Bisort.{
  Link, Socket, behind, to_worker, scope_end, then_flush, added, resent, answered, forward,
}

module _ {Msg : Type 0} (zmq : MsgApi Msg) (laws : IsMsgApi zmq) where
  pub to_worker-Plain : (dst : Dest Msg) → Plain zmq dst (to_worker zmq)
  unfolding sink_make has_option is_dropping
  to_worker-Plain dst = ((refl, refl), (refl, refl))

  -- The end of the scope of a sink that is flushed.
  pub scope_end-wire :
      (link : Link Msg) (w : Socket Msg) (t : Sink Msg) (ms : List Msg)
      → OnWire zmq laws (behind zmq link w) ms (done, t)
      → wire (scope_end zmq link w t).trace ≡ wire w.trace ++ frames ms
  unfolding scope_end
  scope_end-wire link w t ms (f, v, e) =
      ap (λ (u : Sink Msg). wire (u.trace ++ w.trace))
        (sink_destroy-flush zmq laws (behind zmq link w) t f v)
      ∙ wire-append t.trace w.trace
      ∙ ap (λ x. wire w.trace ++ x) e

  pub scope_end_calls :
      (link : Link Msg) (w : Socket Msg) (t : Sink Msg) → (scope_end zmq link w t).calls ≡ w.calls
  unfolding scope_end
  scope_end_calls link w t = refl

  -- Inserting one more value and flushing.
  pub then_flush-OnWire :
      (dst : Dest Msg) (ms : List Msg) (t : Sink Msg) (text : List ℕ) (a : Msg)
      → init_msg zmq text ≡ ok a
      → length ms < 2 ^ 61
      → Plain zmq dst t
      → IsRun ms t
      → OnWire zmq laws dst
          (ms ++ a ∷ [])
          (then_flush zmq dst (insert_value zmq dst (λ text binary. text) t text))
  then_flush-OnWire dst ms t text a e small plain run =
      let p : Part Msg = record { msg = a; valid = true } in
      subst (λ w. OnWire zmq laws dst (ms ++ a ∷ []) (then_flush zmq dst w))
        (sym (insert_value-send_owned zmq dst (λ text binary. text) t text a e))
        (after (send_owned zmq dst t p) (send_owned-Plain zmq dst t p plain)
          (send_owned-Step zmq laws dst ms t p refl small run))
    where
      after :
          (out : Done × Sink Msg × Part Msg)
          → Plain zmq dst out.1
          → Step ms t (record { msg = a; valid = true }) out
          → OnWire zmq laws dst (ms ++ a ∷ []) (then_flush zmq dst (out.0, out.1))
      after (ok _, u, q) (d, n) (run', g) =
          unfold then_flush in
          flush-OnWire zmq laws dst (ms ++ a ∷ []) u (omega (arith, length-append {0} ms (a ∷ [])))
            d n run'
      after (threw z, u, q) k (zmq_threw, same, left) = unfold then_flush in zmq_threw

  -- The sink has taken the request and the addition, and flushed them.
  abbrev Added : Dest Msg → List Msg → ℕ → Option (Done × Sink Msg × ℕ) → Type 0
  Added dst ms c none = ⊥
  Added dst ms c (some (ok _, t, c')) = OnWire zmq laws dst ms (done, t) × (c' ≡ c)
  Added dst ms c (some (threw e, t, c')) = e ≡ zmq_error

  Added-of :
      (dst : Dest Msg) (ms : List Msg) (c c' : ℕ) (out : Done × Sink Msg)
      → OnWire zmq laws dst ms out
      → c' ≡ c
      → Added dst ms c (some (out.0, out.1, c'))
  Added-of dst ms c c' (ok _, t) h e = (h, e)
  Added-of dst ms c c' (threw z, t) h e = h

  added-Added :
      (src : Source Msg) (dst : Dest Msg) (ms : List Msg) (c : ℕ) (text : List ℕ) (a : Msg)
      (out : Option (Done × Sink Msg × ℕ))
      → init_msg zmq text ≡ ok a
      → length ms < 2 ^ 61
      → Keeps zmq laws dst src (Plain zmq dst) out
      → RelayedInto zmq laws dst src [] ms c out
      → Added dst (ms ++ a ∷ []) (c + length ms) (added zmq dst text out)
  unfolding added
  added-Added src dst ms c text a none e small k h = h
  added-Added src dst ms c text a (some (ok _, t, c')) e small k (run, n) =
      Added-of dst (ms ++ a ∷ []) (c + length ms) c' _
        (then_flush-OnWire dst ms t text a e small k run) n
  added-Added src dst ms c text a (some (threw z, t, c')) e small k h = h

  -- How the relaying of a request, as `ms` with the addition, and of the answer `ns` ends, where
  -- the request has `n` parts.
  abbrev pub Forwarded :
      ℕ
      → List Msg
      → List Msg
      → Socket Msg
      → Socket Msg
      → Option (Done × Socket Msg × Socket Msg)
      → Type 0
  Forwarded n ms ns r w none = ⊥
  Forwarded n ms ns r w (some (ok _, r', w')) =
      (r'.calls ≡ r.calls + n)
      × (w'.calls ≡ w.calls + length ns)
      × (wire w'.trace ≡ wire w.trace ++ frames ms)
      × (wire r'.trace ≡ wire r.trace ++ frames ns)
  Forwarded n ms ns r w (some (threw e, r', w')) = e ≡ zmq_error

  resent-Forwarded :
      (relay worker : Link Msg) (n : ℕ) (ms ns : List Msg) (r r0 w : Socket Msg) (t : Sink Msg)
      (out : Option (Result ℕ × List (Event Msg) × ℕ))
      → r.calls ≡ r0.calls + n
      → wire r.trace ≡ wire r0.trace
      → OnWire zmq laws (behind zmq worker w) ms (done, t)
      → Relayed zmq worker.src relay.dst 0 ns r.trace w.calls out
      → Forwarded n ms ns r0 w (resent zmq worker r w t out)
  unfolding resent
  resent-Forwarded relay worker n ms ns r r0 w t none c same sent h = h
  resent-Forwarded relay worker n ms ns r r0 w t (some (ok k, trace, calls)) c same sent (a, b, e) =
      (c, b, scope_end-wire worker w t ms sent, e ∙ ap (λ x. x ++ frames ns) same)
  resent-Forwarded relay worker n ms ns r r0 w t (some (threw z, trace, calls)) c same sent h = h.0

  answered-Forwarded :
      (relay worker : Link Msg) (fuel n : ℕ) (ms ns : List Msg) (r w : Socket Msg)
      (out : Option (Done × Sink Msg × ℕ))
      → length ns < fuel
      → length ns < 2 ^ 31
      → Comes worker.src w.calls ns
      → Added (behind zmq worker w) ms (r.calls + n) out
      → Forwarded n ms ns r w (answered zmq relay fuel worker r w out)
  unfolding answered
  answered-Forwarded relay worker fuel n ms ns r w none f b c h = h
  answered-Forwarded relay worker fuel n ms ns r w (some (ok _, t, calls)) f b c (sent, e) =
      resent-Forwarded relay worker n ms ns (record r { calls = calls }) r w t _ e refl sent
        (relay_raw-Relayed zmq worker.src relay.dst fuel false ns r.trace w.calls f b (inl refl) c)
  answered-Forwarded relay worker fuel n ms ns r w (some (threw z, t, calls)) f b c h = h

  pub forward-Forwarded :
      (relay worker : Link Msg) (fuel : ℕ) (ms ns : List Msg) (r w : Socket Msg) (text : List ℕ)
      (a : Msg)
      → length ms < fuel
      → length ns < fuel
      → length ns < 2 ^ 31
      → length ms < 2 ^ 61
      → init_msg zmq text ≡ ok a
      → relay.src.rcvmore r.calls ≡ true
      → Comes relay.src r.calls ms
      → Comes worker.src w.calls ns
      → Forwarded (length ms) (ms ++ a ∷ []) ns r w (forward zmq relay fuel worker text r w)
  unfolding forward
  forward-Forwarded relay worker fuel ms ns r w text a f g b small e more c d =
      let dst : Dest Msg = behind zmq worker w in
      answered-Forwarded relay worker fuel (length ms) (ms ++ a ∷ []) ns r w _ g b d (
        added-Added relay.src dst ms r.calls text a _ e small
          (relay_from-Keeps zmq laws dst relay.src (Plain zmq dst) (send_owned-Plain zmq dst) fuel
            r.calls (to_worker zmq) (to_worker-Plain dst))
          (relay_from-RelayedInto zmq laws dst relay.src fuel [] ms r.calls (to_worker zmq) f
            (omega arith) more c (sink_make-IsRun zmq laws dst 0 false none)))
