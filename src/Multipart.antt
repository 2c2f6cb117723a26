-- ===== src/Multipart.antt =====
-- include/zmqmessage/Multipart.hpp with its members in include/zmqmessage/ZmqMessageFullImpl.hpp
-- and ZmqMessageTemplateImpl.hpp. A Multipart is the parts [0, size) of some storage.
pub mod Holding
pub mod Iteration
pub mod Access
pub mod Send
use zmqmessage.Base.{
  ℕ, zero, suc, ◌+◌, ◌-◌, List, [], ◌∷◌, Option, none, some, Bool, true, false, not, ◌&&◌, ◌||◌,
  if◌then◌else◌, ltb, leb, ◌==◌, get_elem?, set, length, bit_or,
}
use zmqmessage.Zmq.{
  Answer, accepted, would_block, failed, MsgApi, Event, sends, on_send_part, on_flush, Dest,
  zmq_sndmore, zmq_noblock, Result, ok, threw, Done, done, no_such_part, undefined, unexpected,
  zmq_error,
}
use zmqmessage.Part.{Part, make, copy_construct, move}

-- The second test of `check_has_part`.
if_valid : Result Bool → Done
if_valid (ok valid) = if valid then done else threw no_such_part
if_valid (threw e) = threw e

module _ {Msg : Type 0} where
  -- `parts[n].valid()`; reading outside the parts is undefined.
  part_valid : List (Part Msg) → ℕ → Result Bool
  part_valid parts n = elim (get_elem? parts n) [ none ↦ threw undefined | some p ↦ ok p.valid ]

  pub check_has_part : List (Part Msg) → ℕ → Done
  unfolding if_valid part_valid
  check_has_part parts n =
      if leb (length parts) n then threw no_such_part else if_valid (part_valid parts n)

  -- `has_part`
  pub has_part : List (Part Msg) → ℕ → Result Bool
  unfolding part_valid
  has_part parts n = if ltb n (length parts) then part_valid parts n else ok false

  get_part : List (Part Msg) → ℕ → Result (Part Msg)
  get_part parts n = elim (get_elem? parts n) [ none ↦ threw undefined | some p ↦ ok p ]

  checked : Done → List (Part Msg) → ℕ → Result (Part Msg)
  unfolding get_part
  checked (ok _) parts n = get_part parts n
  checked (threw e) parts n = threw e

  -- `operator[]`, both overloads.
  pub at : List (Part Msg) → ℕ → Result (Part Msg)
  unfolding checked check_has_part
  at parts n = checked (check_has_part parts n) parts n

module _ {Msg : Type 0} (zmq : MsgApi Msg) where
  -- `release`: the part that is returned, by the copy constructor, and the parts after it.
  pub release : List (Part Msg) → ℕ → Part Msg × List (Part Msg)
  release parts i = elim (get_elem? parts i) [
    | none ↦ (make zmq false, parts)
    | some p ↦ let (taken, left) = copy_construct zmq p in (taken, set parts i left)
  ]

  -- `release_ptr` and `release_uptr`: the message moves on into a new message_t.
  pub release_ptr : List (Part Msg) → ℕ → Msg × List (Part Msg)
  unfolding release
  release_ptr parts i = let (p, rest) = release parts i in ((zmq.move zmq.init p.msg).0, rest)

  module _ (dst : Dest Msg) where
    -- One round of the loop of `send`: flags, observer, `send_msg` of part `i`, which stays in
    -- place and keeps its mark.
    pub send_part :
        Bool → Bool → Bool → Part Msg → List (Event Msg) → Answer × Part Msg × List (Event Msg)
    send_part nonblock last observer p trace =
        let base = if nonblock then zmq_noblock else 0 in
        let flags = bit_or base (if last then 0 else zmq_sndmore) in
        let seen = if observer then on_send_part p.msg ∷ trace else trace in
        let answer = dst seen p.msg flags in
        (answer, record p { msg = zmq.after_send answer p.msg }, sends p.msg flags answer ∷ seen)

    sent_rest :
        Answer × Part Msg × List (Event Msg)
        → List (Part Msg)
        → (List (Event Msg) → Done × List (Part Msg) × List (Event Msg))
        → Done × List (Part Msg) × List (Event Msg)
    sent_rest (accepted, p, trace) ps rest = let (r, qs, end) = rest trace in (r, p ∷ qs, end)
    sent_rest (would_block, p, trace) ps rest = (threw zmq_error, p ∷ ps, trace)
    sent_rest (failed, p, trace) ps rest = (threw zmq_error, p ∷ ps, trace)

    -- The loop, with the parts that are left. For a part that is not owned `multipart[i]` throws
    -- NoSuchPartError, which the exception specification of `send` does not allow: the call ends in
    -- std::unexpected.
    pub send_parts :
        Bool → Bool → List (Part Msg) → List (Event Msg) → Done × List (Part Msg) × List (Event Msg)
    unfolding sent_rest send_part
    send_parts nonblock observer [] trace = (done, [], if observer then on_flush ∷ trace else trace)
    send_parts nonblock observer (p ∷ ps) trace =
        let rest = send_parts nonblock observer ps in
        if p.valid
        then sent_rest (send_part nonblock (length ps == 0) observer p trace) ps rest
        else (threw unexpected, p ∷ ps, trace)

    -- `send(sock, multipart, nonblock, send_observer)`: how it ends, the parts and the trace.
    pub send :
        List (Event Msg) → List (Part Msg) → Bool → Bool → Done × List (Part Msg) × List (Event Msg)
    unfolding send_parts
    send trace parts nonblock observer = send_parts nonblock observer parts trace

-- `Multipart::iterator<T>`: the multipart, as its identity and its parts, the index and the value.
pub record Iterator (T : Type 0) : Type 0 where
  pub multipart : ℕ
  pub size : ℕ
  pub idx : ℕ
  pub cur : T
  pub binary_mode : Bool

-- `get<T>` of ZmqTools.hpp, and `T()`.
pub record Conversion (Msg T : Type 0) : Type 0 where
  pub convert : Msg → Bool → T
  pub default : T

module _ {Msg T : Type 0} (get : Conversion Msg T) where
  iterator_at_end : Iterator T → Bool
  iterator_at_end it = leb it.size it.idx

  set_value : Result (Part Msg) → Iterator T → Result (Iterator T)
  set_value (threw e) it = threw e
  set_value (ok p) it =
      ok (record it { cur = if p.valid then get.convert p.msg it.binary_mode else get.default })

  -- `set_cur`. It reads the part by operator[], which throws for a part that is not owned.
  pub set_cur : List (Part Msg) → Iterator T → Result (Iterator T)
  unfolding iterator_at_end set_value
  set_cur parts it = if iterator_at_end it then ok it else set_value (at parts it.idx) it

  -- `iter_at`, and `begin` for index 0.
  pub iter_at : ℕ → List (Part Msg) → ℕ → Bool → Result (Iterator T)
  unfolding set_cur
  iter_at name parts idx binary = set_cur parts (record {
    multipart = name;
    size = length parts;
    idx = idx;
    cur = get.default;
    binary_mode = binary;
  })

  -- `end`
  pub iter_end : ℕ → List (Part Msg) → Result (Iterator T)
  unfolding iter_at
  iter_end name parts = iter_at name parts (length parts) false

  -- `operator++`
  pub iter_next : List (Part Msg) → Iterator T → Result (Iterator T)
  unfolding set_cur
  iter_next parts it = set_cur parts (record it { idx = it.idx + 1 })

  -- `equal`
  pub iter_equal : Iterator T → Iterator T → Bool
  unfolding iterator_at_end
  iter_equal a b =
      iterator_at_end a && iterator_at_end b || (a.multipart == b.multipart) && (a.idx == b.idx)

  pub value_before : T → Option (Result (List T)) → Option (Result (List T))
  value_before v none = none
  value_before v (some (ok vs)) = some (ok (v ∷ vs))
  value_before v (some (threw e)) = some (threw e)

  -- What follows the copying of a value.
  copied :
      T → Result (Iterator T) → (Iterator T → Option (Result (List T))) → Option (Result (List T))
  unfolding value_before
  copied v (threw e) rest = some (threw e)
  copied v (ok it) rest = value_before v (rest it)

  -- `std::copy` from an iterator up to another, with fuel; none where it runs out.
  copy_range : ℕ → List (Part Msg) → Iterator T → Iterator T → Option (Result (List T))
  unfolding iter_equal iter_next copied
  copy_range zero parts it stop = none
  copy_range (suc fuel) parts it stop =
      let rest = copied it.cur (iter_next parts it) (λ next. copy_range fuel parts next stop) in
      if iter_equal it stop then some (ok []) else rest

  copy_from :
      ℕ → List (Part Msg) → Result (Iterator T) → Result (Iterator T) → Option (Result (List T))
  unfolding copy_range
  copy_from fuel parts (threw e) stop = some (threw e)
  copy_from fuel parts (ok it) (threw e) = some (threw e)
  copy_from fuel parts (ok it) (ok stop) = copy_range fuel parts it stop

  -- `std::copy (begin, end, back_inserter(out))`
  pub copy_parts : ℕ → ℕ → Bool → List (Part Msg) → Option (Result (List T))
  unfolding copy_from
  copy_parts fuel name binary parts =
      copy_from fuel parts (iter_at name parts 0 binary) (iter_end name parts)
