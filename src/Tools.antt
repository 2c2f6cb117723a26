-- ===== src/Tools.antt =====
-- The calls on sockets of include/ZmqTools.hpp and of include/zmqmessage/ZmqToolsFullImpl.hpp.
pub mod Relay
pub mod Text
pub mod Compare
use zmqmessage.Base.{
  ℕ, zero, suc, ◌+◌, ◌^◌, ◌≡◌, ltb, List, [], ◌∷◌, Option, none, some, Bool, true, false,
  if◌then◌else◌, length,
}
use zmqmessage.Zmq.{
  Answer, accepted, would_block, failed, MsgApi, Event, sends, Dest, zmq_sndmore, Arrival, arrives,
  nothing, broken, Source, Result, ok, threw, Done, done, zmq_error, undefined,
}

-- `recv_msg` and `try_recv_msg` with the number of calls so far: how the call ends, and the new
-- number. none is a call that would block.
pub try_recv_msg : {Msg : Type 0} → Source Msg → ℕ → Result (Option Msg) × ℕ
try_recv_msg src calls = elim (src.recv calls) [
  | arrives m ↦ (ok (some m), calls + 1)
  | nothing ↦ (ok none, calls + 1)
  | broken ↦ (threw zmq_error, calls + 1)
]

unfoldable pub recv_msg : {Msg : Type 0} → Source Msg → ℕ → Result Msg × ℕ
recv_msg src calls = elim (src.recv calls) [
  | arrives m ↦ (ok m, calls + 1)
  | nothing ↦ (threw zmq_error, calls + 1)
  | broken ↦ (threw zmq_error, calls + 1)
]

-- `has_more`; `getsockopt` of ZMQ_RCVMORE on an open socket is taken not to fail.
unfoldable pub has_more : {Msg : Type 0} → Source Msg → ℕ → Bool
has_more src calls = src.rcvmore calls

pub recv_msg-arrives :
    {Msg : Type 0} (src : Source Msg) (calls : ℕ) (m : Msg)
    → src.recv calls ≡ arrives m
    → recv_msg src calls ≡ (ok m, calls + 1)
unfolding recv_msg
recv_msg-arrives src calls m e = simp (e, recv_msg)

pub try_recv_msg-arrives :
    {Msg : Type 0} (src : Source Msg) (calls : ℕ) (m : Msg)
    → src.recv calls ≡ arrives m
    → try_recv_msg src calls ≡ (ok (some m), calls + 1)
unfolding try_recv_msg
try_recv_msg-arrives src calls m e = simp (e, try_recv_msg)

module _ {Msg : Type 0} (zmq : MsgApi Msg) (src : Source Msg) (dst : Dest Msg) where
  -- `src.recv(&cur_part)`, whose result is not read: what cur_part is then; none is an exception.
  raw_part : Arrival Msg → Option Msg
  raw_part (arrives m) = some m
  raw_part nothing = some zmq.init
  raw_part broken = none

  -- `++relayed` on an int, and the rounds to come; an overflow is undefined.
  counted :
      ℕ
      → List (Event Msg)
      → ℕ
      → (ℕ → Option (Result ℕ × List (Event Msg) × ℕ))
      → Option (Result ℕ × List (Event Msg) × ℕ)
  counted n trace calls rest =
      if ltb (n + 1) (2 ^ 31) then rest (n + 1) else some (threw undefined, trace, calls)

  -- `send_msg`, and the rounds to come.
  raw_sent :
      Answer
      → List (Event Msg)
      → ℕ
      → (List (Event Msg) → Option (Result ℕ × List (Event Msg) × ℕ))
      → Option (Result ℕ × List (Event Msg) × ℕ)
  raw_sent accepted trace calls rest = rest trace
  raw_sent would_block trace calls rest = some (threw zmq_error, trace, calls)
  raw_sent failed trace calls rest = some (threw zmq_error, trace, calls)

  -- The loop of `relay_raw`, with fuel; none where it runs out.
  raw_loop : ℕ → Bool → ℕ → List (Event Msg) → ℕ → Option (Result ℕ × List (Event Msg) × ℕ)
  unfolding raw_part raw_sent counted has_more
  raw_loop zero more relayed trace calls = none
  raw_loop (suc fuel) more relayed trace calls =
      let rest = raw_loop fuel (has_more src (calls + 1)) in
      if more
      then elim (raw_part (src.recv calls)) [
        | none ↦ some (threw zmq_error, trace, calls + 1)
        | some m ↦
            let flag = if has_more src (calls + 1) then zmq_sndmore else 0 in
            let answer = dst trace m flag in
            raw_sent answer (sends m flag answer ∷ trace) (calls + 1)
              (λ trace'. counted relayed trace' (calls + 1) (λ n. rest n trace' (calls + 1)))
      ]
      else some (ok relayed, trace, calls)

  -- `relay_raw(src, dst, check_first_part)`: the number of parts, the trace of the destination and
  -- where the source is.
  pub relay_raw : ℕ → Bool → List (Event Msg) → ℕ → Option (Result ℕ × List (Event Msg) × ℕ)
  unfolding raw_loop
  relay_raw fuel check_first_part trace calls =
      raw_loop fuel (if check_first_part then has_more src calls else true) 0 trace calls

-- `init_msg(ptr, sz, msg)`: `rebuild` and `memcpy`.
unfoldable pub init_msg : {Msg : Type 0} → MsgApi Msg → List ℕ → Result Msg
init_msg zmq bs = elim (zmq.init_size (length bs)) [
  | none ↦ threw zmq_error
  | some m ↦ ok (zmq.fill m bs)
]
