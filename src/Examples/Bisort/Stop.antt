-- ===== src/Examples/Bisort/Stop.antt =====
-- The "STOP" that ends the thread `relay`.
use zmqmessage.Base.{ℕ, ◌≡◌, refl, List, [], ◌∷◌, ◌++◌, none, Bool, false, arith}
use zmqmessage.Zmq.{MsgApi, IsMsgApi, Dest, Result, ok, threw, Done, zmq_error}
use zmqmessage.Bytes.{ℤ, IsMemcmp}
use zmqmessage.Sink.{Sink}
use zmqmessage.Sink.Trace.{wire, frames}
use zmqmessage.Sink.OnWire.{OnWire}
use zmqmessage.Sink.Delivery.{sink_make-IsRun}
use zmqmessage.Tools.{init_msg}
use zmqmessage.Inserting.{insert_value}
use zmqmessage.Examples.Bisort.{
  Link, Socket, Relayer, stop_mode, behind, to_worker, scope_end, then_flush, send_stop,
  stop_string, stop,
}
use zmqmessage.Examples.Bisort.Forward.{scope_end-wire, then_flush-OnWire, to_worker-Plain}
use zmqmessage.Examples.Bisort.Serve.{Worker, socket_of}

pub each_worker : (P : Worker → Type 0) → P Worker.int → P Worker.string → (w : Worker) → P w
each_worker P h k Worker.int = h
each_worker P h k Worker.string = k

module _ {Msg : Type 0} (zmq : MsgApi Msg) (laws : IsMsgApi zmq) (relay : Link Msg) where
  -- The part `x`, alone, has gone to a worker, unless the exception is zmq::error_t.
  abbrev Told : Msg → Socket Msg → Done × Socket Msg → Type 0
  Told x w (ok _, v) = wire v.trace ≡ wire w.trace ++ frames (x ∷ [])
  Told x w (threw e, v) = e ≡ zmq_error

  send_stop-Told :
      (worker : Link Msg) (w : Socket Msg) (x : Msg)
      → init_msg zmq stop_mode ≡ ok x
      → Told x w (send_stop zmq relay worker w)
  unfolding send_stop
  send_stop-Told worker w x e =
      let dst : Dest Msg = behind zmq worker w in
      after
        (then_flush zmq dst (insert_value zmq dst (λ text binary. text) (to_worker zmq) stop_mode))
        (then_flush-OnWire zmq laws dst [] (to_worker zmq) stop_mode x e (omega arith)
          (to_worker-Plain zmq laws dst) (sink_make-IsRun zmq laws dst 0 false none))
    where
      after :
          (out : Done × Sink Msg)
          → OnWire zmq laws (behind zmq worker w) (x ∷ []) out
          → Told x w (out.0, scope_end zmq worker w out.1)
      after (ok _, t) h = scope_end-wire zmq laws worker w t (x ∷ []) h
      after (threw e, t) h = h

  module _ (s i : Link Msg) (memcmp : List ℕ → List ℕ → ℕ → ℤ) (law : IsMemcmp memcmp)
      (show : ℤ → List ℕ) where
    -- Both workers have been told to stop.
    abbrev pub Stopped : Msg → Relayer Msg → Result Bool × Relayer Msg → Type 0
    Stopped x p (ok again, q) =
        (again ≡ false)
        × (q.relay ≡ p.relay)
        × ((worker : Worker)
            → wire (socket_of worker q).trace ≡ wire (socket_of worker p).trace ++ frames (x ∷ []))
    Stopped x p (threw e, q) = e ≡ zmq_error

    stop_string-Stopped :
        (p : Relayer Msg) (x : Msg) (out : Done × Socket Msg)
        → init_msg zmq stop_mode ≡ ok x
        → Told x p.i out
        → Stopped x p (stop_string zmq relay s i memcmp show (out.0, record p { i = out.1 }))
    unfolding stop_string
    stop_string-Stopped p x (threw z, v) e h = h
    stop_string-Stopped p x (ok _, v) e h =
        last (send_stop zmq relay s p.s) (send_stop-Told s p.s x e)
      where
        last :
            (out : Done × Socket Msg)
            → Told x p.s out
            → Stopped x p
                (elim out.0 [ ok _ ↦ ok false | threw e ↦ threw e ], record p { i = v; s = out.1 })
        last (ok _, u) k = (
          refl,
          refl,
          each_worker
              (λ worker.
                wire (socket_of worker (record p { i = v; s = u })).trace
                ≡ wire (socket_of worker p).trace ++ frames (x ∷ []))
              h k,
        )
        last (threw z, u) k = k

    pub stop-Stopped :
        (p : Relayer Msg) (x : Msg)
        → init_msg zmq stop_mode ≡ ok x
        → Stopped x p (stop zmq relay s i memcmp show p)
    unfolding stop
    stop-Stopped p x e =
        stop_string-Stopped p x (send_stop zmq relay i p.i) e (send_stop-Told i p.i x e)
