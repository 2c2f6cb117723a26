-- ===== src/Incoming/Tail.antt =====
-- The rest of a message that is not kept part by part: `fetch_tail` and `drop_tail`.
pub mod Loose
pub mod Fetch
pub mod Drop
use zmqmessage.Base.{
  ℕ, zero, suc, ◌+◌, ◌-◌, ◌^◌, List, [], ◌∷◌, ◌++◌, Option, none, some, Bool, true, false, not,
  ◌&&◌, if◌then◌else◌, ltb, leb, ◌==◌, get_elem?, length,
}
use zmqmessage.Zmq.{MsgApi, Source, Result, ok, threw, assert_failed, undefined, zmq_error}
use zmqmessage.Part.{Part}
use zmqmessage.Storage.Interface.{PartsStorage}
use zmqmessage.Tools.{recv_msg, try_recv_msg, has_more}
use zmqmessage.Incoming.{Incoming, size, observe}

module _ {Msg S : Type 0} (ps : PartsStorage Msg S) (src : Source Msg) where
  loose_received : Result Msg × ℕ → Incoming Msg S → Result (Msg × Bool) × Incoming Msg S
  unfolding observe
  loose_received (ok m, calls) s =
      let s' = record s { calls = calls } in
      (ok (m, (observe ps src m s').0), (observe ps src m s').1)
  loose_received (threw e, calls) s = (threw e, record s { calls = calls })

  -- One more part for a buffer that is not kept: its message and whether there is more.
  pub receive_loose : Incoming Msg S → Result (Msg × Bool) × Incoming Msg S
  unfolding loose_received
  receive_loose s = loose_received (recv_msg src s.calls) s

  -- `++num_messages` on an int, and the rounds to come; an overflow is undefined.
  pub tail_counted :
      {A : Type 0}
      → ℕ
      → Incoming Msg S
      → (ℕ → Option (Result A × Incoming Msg S))
      → Option (Result A × Incoming Msg S)
  tail_counted n s rest = if ltb (n + 1) (2 ^ 31) then rest (n + 1) else some (threw undefined, s)

  fetch_next :
      {A : Type 0}
      → Result (Msg × Bool) × Incoming Msg S
      → (Msg → Bool → Incoming Msg S → Option (Result A × Incoming Msg S))
      → Option (Result A × Incoming Msg S)
  fetch_next (ok (m, more), t) rest = rest m more t
  fetch_next (threw e, t) rest = some (threw e, t)

  -- The loop of `fetch_tail`, on the bytes of `area`, the count and `more`, with fuel.
  pub fetch_loop :
      MsgApi Msg
      → ℕ
      → List ℕ
      → List ℕ
      → ℕ
      → Bool
      → Incoming Msg S
      → Option (Result (ℕ × List ℕ) × Incoming Msg S)
  unfolding receive_loose fetch_next tail_counted
  fetch_loop zmq zero delimiter area n more s = none
  fetch_loop zmq (suc fuel) delimiter area n more s =
      let rest = fetch_loop zmq fuel delimiter in
      if more
      then fetch_next (receive_loose s)
          (λ m more' t. tail_counted n t (λ k. rest ((area ++ delimiter) ++ zmq.bytes m) k more' t))
      else some (ok (n, area), s)

  fetch_last :
      MsgApi Msg
      → ℕ
      → List ℕ
      → Option (Part Msg)
      → List ℕ
      → Incoming Msg S
      → Option (Result (ℕ × List ℕ) × Incoming Msg S)
  unfolding fetch_loop
  fetch_last zmq fuel delimiter none area s = some (threw assert_failed, s)
  fetch_last zmq fuel delimiter (some p) area s =
      let area' = area ++ zmq.bytes p.msg in
      if s.is_terminal
      then some (ok (1, area'), s)
      else fetch_loop zmq fuel delimiter area' 1 (has_more src s.calls) s

  -- `fetch_tail(area, delimiter)`: the count and the area after it.
  pub fetch_tail :
      MsgApi Msg
      → ℕ
      → Incoming Msg S
      → List ℕ
      → List ℕ
      → Option (Result (ℕ × List ℕ) × Incoming Msg S)
  unfolding fetch_last size
  fetch_tail zmq fuel s area delimiter =
      fetch_last zmq fuel delimiter (get_elem? (ps.parts s.store) (size ps s - 1)) area s

  -- The loop of `drop_tail`.
  pub drop_loop : ℕ → ℕ → Bool → Incoming Msg S → Option (Result ℕ × Incoming Msg S)
  unfolding receive_loose fetch_next tail_counted
  drop_loop zero n more s = none
  drop_loop (suc fuel) n more s =
      let rest = drop_loop fuel in
      if more
      then fetch_next (receive_loose s) (λ m more' t. tail_counted n t (λ k. rest k more' t))
      else some (ok n, s)

  -- `drop_tail` where nothing has been received: one attempt without blocking.
  drop_first : ℕ → Result (Option Msg) × ℕ → Incoming Msg S → Option (Result ℕ × Incoming Msg S)
  unfolding drop_loop observe
  drop_first fuel (ok none, calls) s = some (ok 0, record s { calls = calls })
  drop_first fuel (threw e, calls) s = some (threw e, record s { calls = calls })
  drop_first fuel (ok (some m), calls) s =
      let s' = record s { calls = calls } in
      drop_loop fuel 1 (observe ps src m s').0 (observe ps src m s').1

  -- `drop_tail`: the number of messages dropped.
  pub drop_tail : ℕ → Incoming Msg S → Option (Result ℕ × Incoming Msg S)
  unfolding drop_first drop_loop size
  drop_tail fuel s =
      if s.is_terminal
      then some (ok 0, s)
      else if size ps s == 0
      then drop_first fuel (try_recv_msg src s.calls) s
      else drop_loop fuel 0 (has_more src s.calls) s
