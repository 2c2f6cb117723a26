-- ===== src/Examples/Bisort/Serve.antt =====
-- One round of the thread `relay`.
use zmqmessage.Base.{
  ℕ, ◌+◌, ◌^◌, ◌<◌, ◌≤◌, ◌≡◌, refl, sym, List, [], ◌∷◌, ◌++◌, Option, none, some, Bool, true, arith,
  length, subst,
}
use zmqmessage.Zmq.{MsgApi, IsMsgApi, Result, ok, threw, Done, zmq_error}
use zmqmessage.Bytes.{ℤ, pos, IsMemcmp}
use zmqmessage.Sink.Trace.{wire, frames}
use zmqmessage.Tools.{init_msg}
use zmqmessage.Incoming.Counting.{Comes}
use zmqmessage.Examples.Bisort.{
  Link, Socket, Relayer, int_mode, string_mode, some_addition, dispatch, serve, int_branch,
  string_branch, next_round,
}
use zmqmessage.Examples.Bisort.Forward.{Forwarded, forward-Forwarded}
use zmqmessage.Examples.Bisort.Mode.{dispatch_int, dispatch_string, mode_read, serve-dispatch}

-- The two workers.
pub data Worker : Type 0 where
  int string : Worker

abbrev pub mode_of : Worker → List ℕ
mode_of Worker.int = int_mode
mode_of Worker.string = string_mode

abbrev pub socket_of : {Msg : Type 0} → Worker → Relayer Msg → Socket Msg
socket_of Worker.int p = p.i
socket_of Worker.string p = p.s

abbrev pub other_of : {Msg : Type 0} → Worker → Relayer Msg → Socket Msg
other_of Worker.int p = p.s
other_of Worker.string p = p.i

module _ {Msg : Type 0} (zmq : MsgApi Msg) (laws : IsMsgApi zmq) (relay s i : Link Msg)
    (memcmp : List ℕ → List ℕ → ℕ → ℤ) (law : IsMemcmp memcmp) (show : ℤ → List ℕ) where
  abbrev pub link_of : Worker → Link Msg
  link_of Worker.int = i
  link_of Worker.string = s

  abbrev pub addition_of : Worker → List ℕ
  addition_of Worker.int = show (pos 38)
  addition_of Worker.string = some_addition

  -- The request `ms` has gone to the worker with the addition `a`, and its answer `ns` to the main
  -- thread.
  abbrev pub Served :
      Worker → List Msg → Msg → List Msg → Relayer Msg → Option (Result Bool × Relayer Msg) → Type 0
  Served worker ms a ns p none = ⊥
  Served worker ms a ns p (some (ok again, q)) =
      (again ≡ true)
      × (q.relay.calls ≡ p.relay.calls + 1 + length ms)
      × ((socket_of worker q).calls ≡ (socket_of worker p).calls + length ns)
      × (wire (socket_of worker q).trace ≡ wire (socket_of worker p).trace ++ frames (ms ++ a ∷ []))
      × (wire q.relay.trace ≡ wire p.relay.trace ++ frames ns)
      × (other_of worker q ≡ other_of worker p)
  Served worker ms a ns p (some (threw e, q)) = e ≡ zmq_error

  int_branch-Served :
      (ms : List Msg) (a : Msg) (ns : List Msg) (p : Relayer Msg)
      (out : Option (Done × Socket Msg × Socket Msg))
      → Forwarded zmq laws (length ms) (ms ++ a ∷ []) ns (mode_read p).relay p.i out
      → Served Worker.int ms a ns p (int_branch zmq (mode_read p) out)
  unfolding int_branch next_round
  int_branch-Served ms a ns p none h = h
  int_branch-Served ms a ns p (some (ok _, r, w)) (c, d, e, f) = (refl, c, d, e, f, refl)
  int_branch-Served ms a ns p (some (threw z, r, w)) h = h

  string_branch-Served :
      (ms : List Msg) (a : Msg) (ns : List Msg) (p : Relayer Msg)
      (out : Option (Done × Socket Msg × Socket Msg))
      → Forwarded zmq laws (length ms) (ms ++ a ∷ []) ns (mode_read p).relay p.s out
      → Served Worker.string ms a ns p (string_branch zmq (mode_read p) out)
  unfolding string_branch next_round
  string_branch-Served ms a ns p none h = h
  string_branch-Served ms a ns p (some (ok _, r, w)) (c, d, e, f) = (refl, c, d, e, f, refl)
  string_branch-Served ms a ns p (some (threw z, r, w)) h = h

  dispatch-Served :
      (worker : Worker) (fuel : ℕ) (p : Relayer Msg) (mode : Msg) (ms : List Msg) (a : Msg)
      (ns : List Msg)
      → zmq.bytes mode ≡ mode_of worker
      → length ms < fuel
      → length ns < fuel
      → length ns < 2 ^ 31
      → length ms < 2 ^ 61
      → init_msg zmq (addition_of worker) ≡ ok a
      → relay.src.rcvmore (p.relay.calls + 1) ≡ true
      → Comes relay.src (p.relay.calls + 1) ms
      → Comes (link_of worker).src (socket_of worker p).calls ns
      → Served worker ms a ns p (
          dispatch zmq relay s i memcmp show fuel
            (record { region = zmq.bytes mode })
            (mode_read p))
  dispatch-Served Worker.int fuel p mode ms a ns e f g b small made more c d =
      subst (Served Worker.int ms a ns p)
        (sym (dispatch_int zmq laws relay s i memcmp law show fuel _ (mode_read p) e))
        (int_branch-Served ms a ns p _ (
          forward-Forwarded zmq laws relay i fuel ms ns (mode_read p).relay p.i (show (pos 38)) a f
            g b small made more c d))
  dispatch-Served Worker.string fuel p mode ms a ns e f g b small made more c d =
      subst (Served Worker.string ms a ns p)
        (sym (dispatch_string zmq laws relay s i memcmp law show fuel _ (mode_read p) e))
        (string_branch-Served ms a ns p _ (
          forward-Forwarded zmq laws relay s fuel ms ns (mode_read p).relay p.s some_addition a f g
            b small made more c d))

  pub serve-Served :
      (worker : Worker) (fuel : ℕ) (p : Relayer Msg) (mode : Msg) (ms : List Msg) (a : Msg)
      (ns : List Msg)
      → zmq.bytes mode ≡ mode_of worker
      → 1 ≤ length ms
      → length ms < fuel
      → length ns < fuel
      → length ns < 2 ^ 31
      → length ms < 2 ^ 61
      → init_msg zmq (addition_of worker) ≡ ok a
      → Comes relay.src p.relay.calls (mode ∷ ms)
      → Comes (link_of worker).src (socket_of worker p).calls ns
      → Served worker ms a ns p (serve zmq relay s i memcmp show fuel p)
  serve-Served worker fuel p mode [] a ns e some_part f g b small made c d = absurd (omega arith)
  serve-Served worker fuel p mode (m ∷ ms) a ns e some_part f g b small made (arr, more, c) d =
      subst (Served worker (m ∷ ms) a ns p)
        (sym
          (serve-dispatch zmq laws relay s i memcmp law show fuel p mode (m ∷ ms) (arr, more, c)))
        (dispatch-Served worker fuel p mode (m ∷ ms) a ns e f g b small made more c d)
