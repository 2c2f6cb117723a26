-- ===== src/Incoming.antt =====
-- The class Incoming: include/zmqmessage/Incoming.hpp with its members in
-- include/zmqmessage/ZmqMessageTemplateImpl.hpp. Error texts and logging are left out, so the names
-- of parts, which only error texts use, are too.
pub mod Receive
pub mod Counting
pub mod Joining
pub mod Everything
pub mod UpTo
pub mod Tail
pub mod Extract
use zmqmessage.Base.{
  ℕ, zero, suc, ◌+◌, ◌-◌, List, [], ◌∷◌, ◌++◌, Option, none, some, Bool, true, false, not, ◌&&◌,
  if◌then◌else◌, ltb, leb, ◌==◌, get_elem?, length,
}
use zmqmessage.Zmq.{
  MsgApi, Source, Observed, Error, Result, ok, threw, Done, done, message_format, assert_failed,
  undefined, zmq_error,
}
use zmqmessage.Part.{Part}
use zmqmessage.Storage.{Next, slot, null, overrun}
use zmqmessage.Storage.Interface.{PartsStorage}
use zmqmessage.Multipart.{check_has_part, at}
use zmqmessage.Tools.{recv_msg, has_more}

-- `calls` is where src_ stands; `observed` is what receive_observer_ has been told.
pub record Incoming (Msg S : Type 0) : Type 0 where
  pub store : S
  pub calls : ℕ
  pub is_terminal : Bool
  pub cur_extract_idx : ℕ
  pub binary_mode : Bool
  pub receive_observer : Bool
  pub observed : Observed Msg

module _ {Msg S : Type 0} where
  -- `Incoming(sock, arg)`, on a storage that was made with `arg`.
  unfoldable pub incoming_make : S → ℕ → Incoming Msg S
  incoming_make store calls = record {
    store = store;
    calls = calls;
    is_terminal = false;
    cur_extract_idx = 0;
    binary_mode = false;
    receive_observer = false;
    observed = [];
  }

  -- `set_receive_observer`
  pub set_receive_observer : Incoming Msg S → Bool → Incoming Msg S
  set_receive_observer s observer = record s { receive_observer = observer }

  -- `check_is_terminal`
  pub check_is_terminal : Incoming Msg S → Done
  check_is_terminal s = if not s.is_terminal then threw message_format else done

  -- `set_binary` and `set_text`
  unfoldable pub set_binary : Incoming Msg S → Incoming Msg S
  set_binary s = record s { binary_mode = true }

  unfoldable pub set_text : Incoming Msg S → Incoming Msg S
  set_text s = record s { binary_mode = false }

module _ {Msg S : Type 0} (ps : PartsStorage Msg S) where
  unfoldable pub size : Incoming Msg S → ℕ
  size s = length (ps.parts s.store)

  -- `validate`
  pub validate : Incoming Msg S → ℕ → Bool → Done
  unfolding size
  validate s expected strict =
      if ltb (size s) expected
      then threw message_format
      else if strict && ltb expected (size s)
      then threw message_format
      else done

  -- What `operator>>` and `Skip` share: the check, and the index.
  extracted : Done → Incoming Msg S → Done × Incoming Msg S
  extracted (ok _) s = (done, record s { cur_extract_idx = s.cur_extract_idx + 1 })
  extracted (threw e) s = (threw e, s)

  -- `Skip`
  pub skip : Incoming Msg S → Done × Incoming Msg S
  unfolding extracted
  skip s = extracted (check_has_part (ps.parts s.store) s.cur_extract_idx) s

  extract_value :
      {T : Type 0}
      → (Msg → Bool → T)
      → Result (Part Msg)
      → Incoming Msg S
      → Result T × Incoming Msg S
  extract_value get (ok p) s =
      (ok (get p.msg s.binary_mode), record s { cur_extract_idx = s.cur_extract_idx + 1 })
  extract_value get (threw e) s = (threw e, s)

  -- `operator>>`, with `get` of ZmqTools.hpp, or the copying of the message, as `get`.
  pub extract : {T : Type 0} → (Msg → Bool → T) → Incoming Msg S → Result T × Incoming Msg S
  unfolding extract_value
  extract get s = extract_value get (at (ps.parts s.store) s.cur_extract_idx) s

  module _ (src : Source Msg) where
    -- What follows `recv_msg` in `do_receive_msg`: `has_more` and the observer.
    observe : Msg → Incoming Msg S → Bool × Incoming Msg S
    observe m s =
        let more = has_more src s.calls in
        (more, if s.receive_observer then record s { observed = (m, more) ∷ s.observed } else s)

    received_into : ℕ → Part Msg → Result Msg × ℕ → Incoming Msg S → Result Bool × Incoming Msg S
    unfolding observe
    received_into i p (ok m, calls) s =
        let s' = record s { store = ps.put s.store i (record p { msg = m }); calls = calls } in
        (ok (observe m s').0, (observe m s').1)
    received_into i p (threw e, calls) s = (threw e, record s { calls = calls })

    -- `do_receive_msg` on part `i`.
    do_receive_msg : ℕ → Option (Part Msg) → Incoming Msg S → Result Bool × Incoming Msg S
    unfolding received_into
    do_receive_msg i none s = (threw undefined, s)
    do_receive_msg i (some p) s =
        if p.valid then received_into i p (recv_msg src s.calls) s else (threw assert_failed, s)

    into_next : Next S → Incoming Msg S → Result Bool × Incoming Msg S
    unfolding do_receive_msg
    into_next null s = (threw message_format, s)
    into_next overrun s = (threw undefined, s)
    into_next (slot i store) s =
        do_receive_msg i (get_elem? (ps.parts store) i) (record s { store = store })

    -- `receive_one`: whether there is more.
    pub receive_one : Incoming Msg S → Result Bool × Incoming Msg S
    unfolding into_next
    receive_one s = into_next (ps.next s.store) s

    -- The tests after `receive_one` in round `i` of `receive`, and the rounds to come.
    after_part :
        ℕ
        → Bool
        → ℕ
        → (Incoming Msg S → Done × Incoming Msg S)
        → Result Bool × Incoming Msg S
        → Done × Incoming Msg S
    after_part parts check i rest (threw e, s) = (threw e, s)
    after_part parts check i rest (ok more, s) =
        if ltb i (parts - 1) && not more
        then (threw message_format, record s { is_terminal = true })
        else if (i == parts - 1) && more
        then (if check
            then (threw message_format, record s { is_terminal = false })
            else rest (record s { is_terminal = false }))
        else if (i == parts - 1) && not more
        then rest (record s { is_terminal = true })
        else rest s

    -- The rounds i, …, parts - 1, `left` of them.
    receive_loop : ℕ → Bool → ℕ → ℕ → Incoming Msg S → Done × Incoming Msg S
    unfolding after_part receive_one
    receive_loop parts check zero i s = (done, s)
    receive_loop parts check (suc left) i s =
        after_part parts check i (receive_loop parts check left (i + 1)) (receive_one s)

    -- `receive` after `receive_routing`.
    pub receive_parts : Incoming Msg S → ℕ → Bool → Done × Incoming Msg S
    unfolding receive_loop
    receive_parts s parts check = receive_loop parts check parts 0 s

    -- `is_terminal_ = !receive_one()`
    after_more :
        (Incoming Msg S → Option (Done × Incoming Msg S))
        → Result Bool × Incoming Msg S
        → Option (Done × Incoming Msg S)
    after_more rest (ok more, s) = rest (record s { is_terminal = not more })
    after_more rest (threw e, s) = some (threw e, s)

    -- The loop of `receive_all`, with fuel; none where it runs out.
    all_loop : ℕ → Incoming Msg S → Option (Done × Incoming Msg S)
    unfolding after_more receive_one
    all_loop zero s = none
    all_loop (suc fuel) s =
        let next = after_more (all_loop fuel) (receive_one s) in
        if s.is_terminal then some (done, s) else next

    then_all : ℕ → Done × Incoming Msg S → Option (Done × Incoming Msg S)
    unfolding all_loop
    then_all fuel (ok _, s) = all_loop fuel s
    then_all fuel (threw e, s) = some (threw e, s)

    -- `receive_all(min_parts, …)`
    pub receive_all_parts : ℕ → Incoming Msg S → ℕ → Option (Done × Incoming Msg S)
    unfolding receive_parts then_all
    receive_all_parts fuel s min_parts = then_all fuel (receive_parts s min_parts false)

    -- The loop of `receive_up_to`, with the rounds left.
    up_to_loop : ℕ → Incoming Msg S → Done × Incoming Msg S
    unfolding receive_one
    up_to_loop zero s = (done, s)
    up_to_loop (suc left) s =
        let rest = up_to_loop left in
        if s.is_terminal
        then (done, s)
        else (let (r, t) = receive_one s in
            elim r [
              | ok more ↦ rest (record t { is_terminal = not more })
              | threw e ↦ (threw e, t)
            ])

    then_up_to : ℕ → Done × Incoming Msg S → Done × Incoming Msg S
    unfolding up_to_loop
    then_up_to left (ok _, s) = up_to_loop left s
    then_up_to left (threw e, s) = (threw e, s)

    -- `receive_up_to(min_parts, …, max_parts)`
    pub receive_up_to : Incoming Msg S → ℕ → ℕ → Done × Incoming Msg S
    unfolding receive_parts then_up_to
    receive_up_to s min_parts max_parts =
        then_up_to (max_parts - min_parts) (receive_parts s min_parts false)
