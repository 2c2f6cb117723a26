-- ===== src/Examples/Bisort/Session.antt =====
-- All rounds of the thread `relay`, up to the "STOP" that ends it.
use zmqmessage.Base.{
  ℕ, suc, ◌+◌, ◌^◌, ◌<◌, ◌≤◌, ◌≡◌, sym, ap, ◌∙◌, List, [], ◌∷◌, ◌++◌, Option, none, some, Bool,
  true, false, arith, length, subst, append_assoc, append-nil,
}
use zmqmessage.Zmq.{MsgApi, IsMsgApi, Result, ok, threw, Done, zmq_error}
use zmqmessage.Bytes.{ℤ, IsMemcmp}
use zmqmessage.Sink.Trace.{wire, frames}
use zmqmessage.Tools.{init_msg}
use zmqmessage.Incoming.Counting.{Comes}
use zmqmessage.Examples.Bisort.{Link, Socket, Relayer, stop_mode, goes_on, rounds}
use zmqmessage.Examples.Bisort.Mode.{mode_read, dispatch-stop, serve-dispatch}
use zmqmessage.Examples.Bisort.Serve.{
  Worker, mode_of, socket_of, other_of, link_of, addition_of, Served, serve-Served,
}
use zmqmessage.Examples.Bisort.Stop.{each_worker, Stopped, stop-Stopped}

-- A request with its worker and the answer that comes from there.
pub record Job (Msg : Type 0) : Type 0 where
  pub worker : Worker
  pub mode : Msg
  pub request : List Msg
  pub answer : List Msg

-- `xs` where the two workers are the same.
abbrev only : {A : Type 0} → Worker → Worker → List A → List A
only Worker.int Worker.int xs = xs
only Worker.int Worker.string xs = []
only Worker.string Worker.int xs = []
only Worker.string Worker.string xs = xs

-- What the main thread and a worker get, `a` being the additions.
abbrev pub answers : {Msg : Type 0} → List (Job Msg) → List (Msg × Bool)
answers [] = []
answers (j ∷ js) = frames j.answer ++ answers js

abbrev pub requests : {Msg : Type 0} → (Worker → Msg) → Worker → List (Job Msg) → List (Msg × Bool)
requests a worker [] = []
requests a worker (j ∷ js) =
    only worker j.worker (frames (j.request ++ a worker ∷ [])) ++ requests a worker js

-- What one request changes for each worker.
module _ {Msg : Type 0} (p q : Relayer Msg) where
  calls_by :
      (k : Worker) (ns : List Msg) (at : Worker → ℕ)
      → (socket_of k q).calls ≡ (socket_of k p).calls + length ns
      → other_of k q ≡ other_of k p
      → ((w : Worker) → at w ≡ (socket_of w p).calls)
      → (w : Worker) → at w + length (only w k ns) ≡ (socket_of w q).calls
  calls_by Worker.int ns at c o e Worker.int = omega (arith, c, e Worker.int)
  calls_by Worker.int ns at c o e Worker.string =
      omega (arith, ap (λ (x : Socket Msg). x.calls) o, e Worker.string)
  calls_by Worker.string ns at c o e Worker.string = omega (arith, c, e Worker.string)
  calls_by Worker.string ns at c o e Worker.int =
      omega (arith, ap (λ (x : Socket Msg). x.calls) o, e Worker.int)

  wire_by :
      (k : Worker) (fs : Worker → List (Msg × Bool))
      → wire (socket_of k q).trace ≡ wire (socket_of k p).trace ++ fs k
      → other_of k q ≡ other_of k p
      → (w : Worker) → wire (socket_of w q).trace ≡ wire (socket_of w p).trace ++ only w k (fs w)
  wire_by Worker.int fs h o Worker.int = h
  wire_by Worker.int fs h o Worker.string =
      ap (λ (x : Socket Msg). wire x.trace) o ∙ sym (append-nil (wire p.s.trace))
  wire_by Worker.string fs h o Worker.string = h
  wire_by Worker.string fs h o Worker.int =
      ap (λ (x : Socket Msg). wire x.trace) o ∙ sym (append-nil (wire p.i.trace))

module _ {Msg : Type 0} (zmq : MsgApi Msg) (laws : IsMsgApi zmq) (relay s i : Link Msg)
    (memcmp : List ℕ → List ℕ → ℕ → ℤ) (law : IsMemcmp memcmp) (show : ℤ → List ℕ) where
  -- The requests `js` come from the main thread, then a "STOP", and the answers to them come from
  -- the workers, where the sockets stand as in `p`; no message has as many parts as the fuel.
  abbrev pub ComesAll : ℕ → List (Job Msg) → (ℕ × (Worker → ℕ)) → Type 0
  ComesAll fuel [] (c, at) =
      (mode : Msg) × (zmq.bytes mode ≡ stop_mode) × Comes relay.src c (mode ∷ [])
  ComesAll fuel (j ∷ js) (c, at) =
      (zmq.bytes j.mode ≡ mode_of j.worker)
      × (1 ≤ length j.request)
      × (length j.request < fuel)
      × (length j.answer < fuel)
      × (length j.answer < 2 ^ 31)
      × (length j.request < 2 ^ 61)
      × Comes relay.src c (j.mode ∷ j.request)
      × Comes (link_of zmq laws relay s i memcmp law show j.worker).src (at j.worker) j.answer
      × ComesAll fuel js
          (c + 1 + length j.request, λ worker. at worker + length (only worker j.worker j.answer))

  module _ (a : Worker → Msg) (x : Msg)
      (makes : (w : Worker)
        → init_msg zmq (addition_of zmq laws relay s i memcmp law show w) ≡ ok (a w))
      (makes_stop : init_msg zmq stop_mode ≡ ok x) where
    -- Every request has gone to its worker with the addition, every answer to the main thread,
    -- and both workers have been told to stop.
    abbrev pub Attended : List (Job Msg) → Relayer Msg → Option (Done × Relayer Msg) → Type 0
    Attended js p none = ⊥
    Attended js p (some (ok _, q)) =
        (wire q.relay.trace ≡ wire p.relay.trace ++ answers js)
        × ((worker : Worker)
            → wire (socket_of worker q).trace
              ≡ wire (socket_of worker p).trace ++ requests a worker js ++ frames (x ∷ []))
    Attended js p (some (threw e, q)) = e ≡ zmq_error

    finishes :
        (p : Relayer Msg) (rest : Relayer Msg → Option (Done × Relayer Msg))
        (out : Result Bool × Relayer Msg)
        → Stopped zmq laws relay s i memcmp law show x (mode_read p) out
        → Attended [] p (goes_on zmq relay s i memcmp show rest (some out))
    unfolding goes_on
    finishes p rest (ok true, q) (n, r, h) = cc
    finishes p rest (ok false, q) (n, r, h) = (
      ap (λ (v : Socket Msg). wire v.trace) r ∙ sym (append-nil (wire p.relay.trace)),
      each_worker
          (λ worker.
            wire (socket_of worker q).trace
            ≡ wire (socket_of worker p).trace ++ requests a worker [] ++ frames (x ∷ []))
          (h Worker.int ∙ ap (λ v. v ++ frames (x ∷ [])) (sym (append-nil (wire p.i.trace))))
          (h Worker.string ∙ ap (λ v. v ++ frames (x ∷ [])) (sym (append-nil (wire p.s.trace)))),
    )
    finishes p rest (threw z, q) h = h

    -- One request before the others.
    attends :
        (j : Job Msg) (js : List (Job Msg)) (p q : Relayer Msg) (out : Option (Done × Relayer Msg))
        → wire q.relay.trace ≡ wire p.relay.trace ++ frames j.answer
        → ((w : Worker)
            → wire (socket_of w q).trace
              ≡ wire (socket_of w p).trace ++ only w j.worker (frames (j.request ++ a w ∷ [])))
        → Attended js q out
        → Attended (j ∷ js) p out
    attends j js p q none h k n = n
    attends j js p q (some (ok _, r)) h k (m, n) = (
      m
          ∙ ap (λ v. v ++ answers js) h
          ∙ append_assoc (wire p.relay.trace) (frames j.answer) (answers js),
      λ w.
          let own = only w j.worker (frames (j.request ++ a w ∷ [])) in
          n w
          ∙ ap (λ v. v ++ requests a w js ++ frames (x ∷ [])) (k w)
          ∙ ap (λ v. v ++ frames (x ∷ []))
              (append_assoc (wire (socket_of w p).trace) own (requests a w js)),
    )
    attends j js p q (some (threw z, r)) h k n = n

    continues :
        (j : Job Msg) (js : List (Job Msg)) (p : Relayer Msg)
        (rest : Relayer Msg → Option (Done × Relayer Msg))
        (out : Option (Result Bool × Relayer Msg))
        → Served zmq laws relay s i memcmp law show j.worker j.request (a j.worker) j.answer p out
        → ((q : Relayer Msg)
            → Served zmq laws relay s i memcmp law show j.worker j.request
                (a j.worker)
                j.answer
                p
                (some (ok true, q))
            → Attended js q (rest q))
        → Attended (j ∷ js) p (goes_on zmq relay s i memcmp show rest out)
    unfolding goes_on
    continues j js p rest none h ih = h
    continues j js p rest (some (ok true, q)) (e, c, d, f, g, o) ih =
        attends j js p q (rest q) g (wire_by p q j.worker (λ w. frames (j.request ++ a w ∷ [])) f o)
          (ih q (e, c, d, f, g, o))
    continues j js p rest (some (ok false, q)) (e, c, d, f, g, o) ih = cc
    continues j js p rest (some (threw z, q)) h ih = h

    -- Where requests with the mode INT or STRING come one after the other, each of at least one and
    -- fewer than 2 ^ 61 parts after the mode, then a STOP, and an answer of fewer than 2 ^ 31 parts
    -- to each request comes from its worker, the relay thread ends, with one round for each request
    -- and one for the STOP, and fuel for one round more than any request or answer has parts:
    -- either zmq::error_t is thrown; or each worker has got its own requests, in order, each as one
    -- whole message with the addition as its last part, and behind them the stop message, and the
    -- main thread has got all answers, in order and whole.
    pub rounds-Attended :
        (fuel : ℕ) (js : List (Job Msg)) (p : Relayer Msg) (c : ℕ) (at : Worker → ℕ)
        → c ≡ p.relay.calls
        → ((w : Worker) → at w ≡ (socket_of w p).calls)
        → ComesAll fuel js (c, at)
        → Attended js p (rounds zmq relay s i memcmp show (suc (length js)) fuel p)
    unfolding rounds
    rounds-Attended fuel [] p c at e f (mode, k, arrives) =
        let from_here = subst (λ d. Comes relay.src d (mode ∷ [])) e arrives in
        let none_left = rounds zmq relay s i memcmp show 0 fuel in
        let stops =
          serve-dispatch zmq laws relay s i memcmp law show fuel p mode [] from_here
          ∙ dispatch-stop zmq laws relay s i memcmp law show fuel
              (record { region = zmq.bytes mode }) (mode_read p) k in
        subst (λ o. Attended [] p (goes_on zmq relay s i memcmp show none_left o)) (sym stops)
          (finishes p none_left _
            (stop-Stopped zmq laws relay s i memcmp law show (mode_read p) x makes_stop))
    rounds-Attended fuel (j ∷ js) p c at e f (mode, some_part, m, n, b, small, come, answer, more) =
        continues j js p (rounds zmq relay s i memcmp show (suc (length js)) fuel) _
          (serve-Served zmq laws relay s i memcmp law show j.worker fuel p j.mode j.request
            (a j.worker) j.answer mode some_part m n b small (makes j.worker)
            (subst (λ d. Comes relay.src d (j.mode ∷ j.request)) e come)
            (subst (λ d. Comes (link_of zmq laws relay s i memcmp law show j.worker).src d j.answer)
              (f j.worker) answer))
          (λ q h.
            rounds-Attended fuel js q _ _ (sym (h.1 ∙ ap (λ d. d + 1 + length j.request) (sym e)))
              (calls_by p q j.worker j.answer at h.2 h.5 f) more)
