-- ===== src/Examples/Bisort.antt =====
-- examples/zbisort.cpp: the thread `relay`, which reads the mode of a request, relays the rest of
-- the request with an addition to one of two workers, and relays the answer back. The workers are
-- the thread `sorter` of Examples.Sorter. An exception ends the thread. Printing, the setting up of
-- sockets and threads, and the main thread are left out.
pub mod Forward
pub mod Mode
pub mod Serve
pub mod Stop
pub mod Session
use zmqmessage.Base.{
  ℕ, zero, suc, List, [], ◌∷◌, ◌++◌, Option, none, some, Bool, true, false, if◌then◌else◌,
}
use zmqmessage.Zmq.{MsgApi, Event, Dest, Source, Result, ok, threw, Done, done, assert_failed}
use zmqmessage.Bytes.{ℤ, pos}
use zmqmessage.Storage.{DynamicPartsStorage, dynamic_make, default_capacity}
use zmqmessage.Storage.Interface.{dynamic_storage}
use zmqmessage.Sink.{Sink, sink_make, flush, sink_destroy}
use zmqmessage.Inserting.{insert_value, relay_from}
use zmqmessage.Incoming.{Incoming, incoming_make, receive_parts, extract}
use zmqmessage.Tools.{relay_raw}
use zmqmessage.Examples.StringFace.{StringFace, equals}

-- "INT", "STRING", "STOP" and "some addition"
abbrev pub int_mode : List ℕ
int_mode = 73 ∷ 78 ∷ 84 ∷ []

abbrev pub string_mode : List ℕ
string_mode = 83 ∷ 84 ∷ 82 ∷ 73 ∷ 78 ∷ 71 ∷ []

abbrev pub stop_mode : List ℕ
stop_mode = 83 ∷ 84 ∷ 79 ∷ 80 ∷ []

abbrev pub some_addition : List ℕ
some_addition = 115 ∷ 111 ∷ 109 ∷ 101 ∷ 32 ∷ 97 ∷ 100 ∷ 100 ∷ 105 ∷ 116 ∷ 105 ∷ 111 ∷ 110 ∷ []

-- What the peer of a socket does: it takes parts, and messages come from it.
pub record Link (Msg : Type 0) : Type 0 where
  pub dst : Dest Msg
  pub src : Source Msg

-- What a socket has sent, the latest first, and how often it was received from.
pub record Socket (Msg : Type 0) : Type 0 where
  pub trace : List (Event Msg)
  pub calls : ℕ

-- The sockets `relay`, `s` and `i`.
pub record Relayer (Msg : Type 0) : Type 0 where
  pub relay : Socket Msg
  pub s : Socket Msg
  pub i : Socket Msg

module _ {Msg : Type 0} (zmq : MsgApi Msg) where
  -- A peer, after what it was sent before this message.
  abbrev pub behind : Link Msg → Socket Msg → Dest Msg
  behind link w history m flags = link.dst (history ++ w.trace) m flags

  abbrev pub to_worker : Sink Msg
  to_worker = sink_make zmq 0 false none

  -- The end of the scope of an Outgoing.
  unfoldable pub scope_end : Link Msg → Socket Msg → Sink Msg → Socket Msg
  scope_end link w t = record w { trace = (sink_destroy zmq (behind link w) t).trace ++ w.trace }

  unfoldable pub then_flush : Dest Msg → Done × Sink Msg → Done × Sink Msg
  then_flush dst (ok _, t) = flush zmq dst t
  then_flush dst (threw e, t) = (threw e, t)

  -- `<< addition << Flush`, after relay_from.
  unfoldable pub added :
      Dest Msg → List ℕ → Option (Done × Sink Msg × ℕ) → Option (Done × Sink Msg × ℕ)
  unfolding then_flush
  added dst addition none = none
  added dst addition (some (threw e, t, calls)) = some (threw e, t, calls)
  added dst addition (some (ok _, t, calls)) =
      let (r, u) = then_flush dst (insert_value zmq dst (λ text binary. text) t addition) in
      some (r, u, calls)

  -- The two sockets after relay_raw and the end of the scope.
  unfoldable pub resent :
      Link Msg
      → Socket Msg
      → Socket Msg
      → Sink Msg
      → Option (Result ℕ × List (Event Msg) × ℕ)
      → Option (Done × Socket Msg × Socket Msg)
  unfolding scope_end
  resent worker r w t none = none
  resent worker r w t (some (ok n, trace, calls)) =
      some (done, record r { trace = trace }, record (scope_end worker w t) { calls = calls })
  resent worker r w t (some (threw e, trace, calls)) =
      some (threw e, record r { trace = trace }, record (scope_end worker w t) { calls = calls })

  -- Whether there is another round.
  unfoldable pub next_round : Done → Result Bool
  next_round (ok _) = ok true
  next_round (threw e) = threw e

  unfoldable pub int_branch :
      Relayer Msg → Option (Done × Socket Msg × Socket Msg) → Option (Result Bool × Relayer Msg)
  unfolding next_round
  int_branch p none = none
  int_branch p (some (r, relay, w)) = some (next_round r, record p { relay = relay; i = w })

  unfoldable pub string_branch :
      Relayer Msg → Option (Done × Socket Msg × Socket Msg) → Option (Result Bool × Relayer Msg)
  unfolding next_round
  string_branch p none = none
  string_branch p (some (r, relay, w)) = some (next_round r, record p { relay = relay; s = w })

  module _ (relay : Link Msg) where
    -- The answer of the worker goes to the main thread.
    unfoldable pub answered :
        ℕ
        → Link Msg
        → Socket Msg
        → Socket Msg
        → Option (Done × Sink Msg × ℕ)
        → Option (Done × Socket Msg × Socket Msg)
    unfolding resent scope_end
    answered fuel worker r w none = none
    answered fuel worker r w (some (threw e, t, calls)) =
        some (threw e, record r { calls = calls }, scope_end worker w t)
    answered fuel worker r w (some (ok _, t, calls)) =
        resent worker (record r { calls = calls }) w t
          (relay_raw zmq worker.src relay.dst fuel false r.trace w.calls)

    -- The branches for "INT" and "STRING", with fuel for each loop: the socket `relay` and that of
    -- the worker after it.
    unfoldable pub forward :
        ℕ → Link Msg → List ℕ → Socket Msg → Socket Msg → Option (Done × Socket Msg × Socket Msg)
    unfolding answered added
    forward fuel worker addition r w =
        let dst : Dest Msg = behind worker w in
        answered fuel worker r w
          (added dst addition (relay_from zmq dst relay.src fuel r.calls to_worker))

    -- `to_stop << stop_mode << Flush`
    unfoldable pub send_stop : Link Msg → Socket Msg → Done × Socket Msg
    unfolding then_flush scope_end
    send_stop worker w =
        let dst : Dest Msg = behind worker w in
        let (r, t) =
          then_flush dst (insert_value zmq dst (λ text binary. text) to_worker stop_mode) in
        (r, scope_end worker w t)

    module _ (s i : Link Msg) (memcmp : List ℕ → List ℕ → ℕ → ℤ) (show : ℤ → List ℕ) where
      stop_string : Done × Relayer Msg → Result Bool × Relayer Msg
      unfolding send_stop
      stop_string (threw e, p) = (threw e, p)
      stop_string (ok _, p) =
          let (r, w) = send_stop s p.s in
          (elim r [ ok _ ↦ ok false | threw e ↦ threw e ], record p { s = w })

      -- The branch for "STOP".
      unfoldable pub stop : Relayer Msg → Result Bool × Relayer Msg
      unfolding send_stop stop_string
      stop p = let (r, w) = send_stop i p.i in stop_string (r, record p { i = w })

      -- The choice by the mode.
      unfoldable pub dispatch : ℕ → StringFace → Relayer Msg → Option (Result Bool × Relayer Msg)
      unfolding int_branch string_branch forward stop
      dispatch fuel mode p =
          if equals memcmp mode int_mode
          then int_branch p (forward fuel i (show (pos 38)) p.relay p.i)
          else if equals memcmp mode string_mode
          then string_branch p (forward fuel s some_addition p.relay p.s)
          else if equals memcmp mode stop_mode
          then some (stop p)
          else some (threw assert_failed, p)

      -- After `ingress >> mode`.
      unfoldable pub with_mode :
          ℕ
          → Relayer Msg
          → Result (List ℕ) × Incoming Msg (DynamicPartsStorage Msg)
          → Option (Result Bool × Relayer Msg)
      unfolding dispatch
      with_mode fuel p (ok text, ingress) =
          dispatch fuel (record { region = text })
            (record p { relay = record { trace = p.relay.trace; calls = ingress.calls } })
      with_mode fuel p (threw e, ingress) =
          some
            (threw e, record p { relay = record { trace = p.relay.trace; calls = ingress.calls } })

      -- After `ingress.receive (1, false)`.
      unfoldable pub read_mode :
          ℕ
          → Relayer Msg
          → Done × Incoming Msg (DynamicPartsStorage Msg)
          → Option (Result Bool × Relayer Msg)
      unfolding with_mode
      read_mode fuel p (ok _, ingress) =
          with_mode fuel p (extract (dynamic_storage zmq) (λ m binary. zmq.bytes m) ingress)
      read_mode fuel p (threw e, ingress) =
          some
            (threw e, record p { relay = record { trace = p.relay.trace; calls = ingress.calls } })

      -- One round of the thread.
      unfoldable pub serve : ℕ → Relayer Msg → Option (Result Bool × Relayer Msg)
      unfolding read_mode
      serve fuel p = read_mode fuel p (
          receive_parts (dynamic_storage zmq) relay.src
            (incoming_make (dynamic_make zmq default_capacity) p.relay.calls) 1 false)

      goes_on :
          (Relayer Msg → Option (Done × Relayer Msg))
          → Option (Result Bool × Relayer Msg)
          → Option (Done × Relayer Msg)
      goes_on rest none = none
      goes_on rest (some (ok true, p)) = rest p
      goes_on rest (some (ok false, p)) = some (done, p)
      goes_on rest (some (threw e, p)) = some (threw e, p)

      -- The rounds, at most so many; none where there are more.
      unfoldable pub rounds : ℕ → ℕ → Relayer Msg → Option (Done × Relayer Msg)
      unfolding goes_on serve
      rounds zero fuel p = none
      rounds (suc left) fuel p = goes_on (rounds left fuel) (serve fuel p)
