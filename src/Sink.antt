-- ===== src/Sink.antt =====
-- The class Sink: include/zmqmessage/Sink.hpp, with its members in
-- include/zmqmessage/ZmqMessageFullImpl.hpp. A method takes the sink and gives how it ended and the
-- sink after it, also after an exception. Logging is left out. The observer is told of messages
-- and does not change them.
pub mod Trace
pub mod Queue
pub mod Run
pub mod First
pub mod Insert
pub mod Flush
pub mod Delivery
pub mod Modes
pub mod Kept
pub mod OnWire
use zmqmessage.Base.{
  ℕ, zero, suc, ◌+◌, ◌-◌, List, [], ◌∷◌, Option, none, some, Bool, true, false, not, ◌&&◌,
  if◌then◌else◌, ltb, ◌==◌, get_elem?, bit_or, is_some,
}
use zmqmessage.Zmq.{
  Answer, accepted, would_block, failed, zmq_noblock, zmq_sndmore, MsgApi, Event, sends,
  on_send_part, on_flush, Dest, Error, zmq_error, assert_failed, undefined, Result, ok, threw, Done,
  done,
}
use zmqmessage.Part.{Part, make, mark_invalid, move, copy}
use zmqmessage.Storage.{
  Next, slot, null, overrun, DynamicPartsStorage, dynamic_make, dynamic_next, dynamic_parts,
  dynamic_set,
}
use zmqmessage.Options.{nonblock, cache_on_block, drop_on_block, emulate_block_sends, has_option}

pub data State : Type 0 where
  not_sent sending queueing dropping flushed : State

-- `trace` is what dst_ and send_observer_ have seen, the latest first; `incoming` are the parts of
-- incoming_, if there is one.
pub record Sink (Msg : Type 0) : Type 0 where
  pub trace : List (Event Msg)
  pub options : ℕ
  pub send_observer : Bool
  pub incoming : Option (List (Part Msg))
  pub outgoing_queue : Option (DynamicPartsStorage Msg)
  pub cached : Part Msg
  pub state : State
  pub pending_routing_parts : ℕ

abbrev pub init_queue_len : ℕ
init_queue_len = 10

abbrev pub is_not_sent : State → Bool
is_not_sent State.not_sent = true
is_not_sent _ = false

abbrev pub is_queueing : State → Bool
is_queueing State.queueing = true
is_queueing _ = false

abbrev pub is_flushed : State → Bool
is_flushed State.flushed = true
is_flushed _ = false

module _ {Msg : Type 0} where
  -- `get_send_flags`
  pub get_send_flags : Sink Msg → Bool → ℕ
  get_send_flags s last =
      let flag = if last then 0 else bit_or 0 zmq_sndmore in
      if has_option s.options nonblock then bit_or flag zmq_noblock else flag

  pub notify_on_send : Sink Msg → Part Msg → Sink Msg
  notify_on_send s p =
      if s.send_observer && (s.pending_routing_parts == 0)
      then record s { trace = on_send_part p.msg ∷ s.trace }
      else s

  pub add_pending_routing_part : Sink Msg → Sink Msg
  add_pending_routing_part s = record s { pending_routing_parts = s.pending_routing_parts + 1 }

  -- `--pending_routing_parts_` where it is positive.
  pub part_sent : Sink Msg → Sink Msg
  part_sent s =
      if ltb 0 s.pending_routing_parts
      then record s { pending_routing_parts = s.pending_routing_parts - 1 }
      else s

  -- `set_send_observer`: an observer, or none.
  pub set_send_observer : Sink Msg → Bool → Sink Msg
  set_send_observer s observer = record s { send_observer = observer }

  -- `is_queued`
  unfoldable pub is_queued : Sink Msg → Bool
  is_queued s = is_some s.outgoing_queue

  -- `is_dropping`
  unfoldable pub is_dropping : Sink Msg → Bool
  is_dropping s = elim s.state [ State.dropping ↦ true | _ ↦ false ]

  -- `detach`
  unfoldable pub detach : Sink Msg → Option (DynamicPartsStorage Msg) × Sink Msg
  detach s = (s.outgoing_queue, record s { outgoing_queue = none })

module _ {Msg : Type 0} (zmq : MsgApi Msg) where
  -- `Sink(dst, options, so, incoming)`
  unfoldable pub sink_make : ℕ → Bool → Option (List (Part Msg)) → Sink Msg
  sink_make options observer incoming = record {
    trace = [];
    options = options;
    send_observer = observer;
    incoming = incoming;
    outgoing_queue = none;
    cached = make zmq false;
    state = State.not_sent;
    pending_routing_parts = 0;
  }

  -- After `outgoing_queue_->next()`: the assertion and `target->move(msg)`, with the queue and `msg`
  -- after them.
  queue_slot :
      DynamicPartsStorage Msg
      → Next (DynamicPartsStorage Msg)
      → Part Msg
      → Done × Option (DynamicPartsStorage Msg) × Part Msg
  queue_slot q null p = (threw assert_failed, some q, p)
  queue_slot q overrun p = (threw undefined, some q, p)
  queue_slot _ (slot i q) p = elim (get_elem? (dynamic_parts q) i) [
    | none ↦ (threw undefined, some q, p)
    | some target ↦ let (to, from) = move zmq target p in (done, some (dynamic_set q i to), from)
  ]

  pub add_to_queue : Sink Msg → Part Msg → Done × Sink Msg × Part Msg
  unfolding queue_slot
  add_to_queue s p = elim s.outgoing_queue [
    | none ↦ (threw undefined, s, p)
    | some q ↦
        let (r, q', p') = queue_slot q (dynamic_next zmq q) p in
        (r, record s { outgoing_queue = q' }, p')
  ]

  module _ (dst : Dest Msg) where
    -- `dst_.send(cached_, flags)` with what precedes it: the flags and the observer.
    pub send_cached : Sink Msg → Bool → Answer × Sink Msg
    unfolding notify_on_send get_send_flags
    send_cached s last =
        let flags = get_send_flags s last in
        let s' = notify_on_send s s.cached in
        let answer = dst s'.trace s.cached.msg flags in
        (
          answer,
          record s' {
            trace = sends s.cached.msg flags answer ∷ s'.trace;
            cached = record { msg = zmq.after_send answer s.cached.msg; valid = s.cached.valid };
          },
        )

    after_strict : Answer × Sink Msg → Done × Sink Msg
    unfolding part_sent
    after_strict (accepted, s) = (done, part_sent s)
    after_strict (would_block, s) = (threw zmq_error, s)
    after_strict (failed, s) = (threw zmq_error, s)

    -- `do_send_one`; the code calls it for cached_ only. `send_msg` throws where the send would
    -- block.
    pub do_send_one : Sink Msg → Bool → Done × Sink Msg
    unfolding after_strict send_cached
    do_send_one s last = after_strict (send_cached s last)

    after_non_strict : Answer × Sink Msg → Result Bool × Sink Msg
    unfolding part_sent
    after_non_strict (accepted, s) = (ok true, part_sent s)
    after_non_strict (would_block, s) = (ok false, s)
    after_non_strict (failed, s) = (threw zmq_error, s)

    -- `do_send_one_non_strict`, also for cached_ only.
    pub do_send_one_non_strict : Sink Msg → Bool → Result Bool × Sink Msg
    unfolding after_non_strict send_cached
    do_send_one_non_strict s last = after_non_strict (send_cached s last)

    -- `add_to_queue(cached_)`
    queue_cached : Sink Msg → Result Bool × Sink Msg
    unfolding add_to_queue
    queue_cached s =
        let (r, s', p') = add_to_queue s s.cached in
        (elim r [ ok _ ↦ ok false | threw e ↦ threw e ], record s' { cached = p' })

    -- What `try_send_first_cached` does once the first send would have blocked.
    pub on_block : Sink Msg → Result Bool × Sink Msg
    unfolding queue_cached
    on_block s =
        if has_option s.options cache_on_block
        then queue_cached (record s {
          state = State.queueing;
          outgoing_queue = some (dynamic_make zmq init_queue_len);
        })
        else if has_option s.options drop_on_block
        then (ok false, record s { state = State.dropping })
        else (threw zmq_error, s)

    after_first : Result Bool × Sink Msg → Result Bool × Sink Msg
    unfolding on_block
    after_first (ok true, s) = (ok true, record s { state = State.sending })
    after_first (ok false, s) = on_block s
    after_first (threw e, s) = (threw e, record s { cached = mark_invalid zmq s.cached })

    -- `try_send_first_cached` after its assertions.
    first_attempt : Sink Msg → Bool → Result Bool × Sink Msg
    unfolding after_first do_send_one_non_strict
    first_attempt s last = after_first (
        if has_option s.options emulate_block_sends
        then (ok false, s)
        else do_send_one_non_strict s last)

    pub try_send_first_cached : Sink Msg → Bool → Result Bool × Sink Msg
    unfolding first_attempt
    try_send_first_cached s last =
        if is_not_sent s.state && s.cached.valid
        then first_attempt s last
        else (threw assert_failed, s)

    -- `cached_.move(owned)`
    pub cache : Sink Msg → Part Msg → Done × Sink Msg × Part Msg
    cache s owned =
        let (to, from) = move zmq s.cached owned in (done, record s { cached = to }, from)

    after_try : Result Bool × Sink Msg → Part Msg → Done × Sink Msg × Part Msg
    unfolding cache add_to_queue
    after_try (threw e, s) owned = (threw e, s, owned)
    after_try (ok true, s) owned = cache s owned
    after_try (ok false, s) owned =
        if is_queueing s.state then add_to_queue s owned else (done, s, owned)

    after_send_one : Done × Sink Msg → Part Msg → Done × Sink Msg × Part Msg
    unfolding cache
    after_send_one (ok _, s) owned = cache s owned
    after_send_one (threw e, s) owned = (threw e, s, owned)

    -- The switch of `send_owned`.
    send_owned_in : State → Sink Msg → Part Msg → Done × Sink Msg × Part Msg
    unfolding cache after_try try_send_first_cached after_send_one do_send_one add_to_queue
    send_owned_in State.not_sent s owned =
        if s.cached.valid then after_try (try_send_first_cached s false) owned else cache s owned
    send_owned_in State.sending s owned =
        if s.cached.valid then after_send_one (do_send_one s false) owned else cache s owned
    send_owned_in State.queueing s owned =
        if is_some s.outgoing_queue then add_to_queue s owned else (threw assert_failed, s, owned)
    send_owned_in State.dropping s owned = (done, s, owned)
    send_owned_in State.flushed s owned = (done, s, owned)

    unfoldable pub send_owned : Sink Msg → Part Msg → Done × Sink Msg × Part Msg
    unfolding send_owned_in
    send_owned s owned = send_owned_in s.state s owned

    -- `send_one`; a copy is made of what `msg` has, and `msg` itself stays.
    unfoldable pub send_one : Sink Msg → Part Msg → Bool → Done × Sink Msg × Part Msg
    unfolding send_owned
    send_one s p use_copy =
        if use_copy
        then (let (r, s', _) = send_owned s (copy zmq (make zmq true) p) in (r, s', p))
        else send_owned s p

    -- The handling of cached_ in `flush`.
    flush_first : Result Bool × Sink Msg → Done × Sink Msg
    flush_first (ok _, s) = (done, s)
    flush_first (threw e, s) = (threw e, s)

    flush_cached : State → Sink Msg → Done × Sink Msg
    unfolding try_send_first_cached do_send_one flush_first
    flush_cached State.not_sent s = flush_first (try_send_first_cached s true)
    flush_cached State.sending s = do_send_one s true
    flush_cached _ s = (done, s)

    -- What follows it, unless it threw.
    flush_end : Sink Msg → Done × Sink Msg
    flush_end s = if is_flushed s.state then (done, s) else (
      done,
      record s {
        trace = if s.send_observer then on_flush ∷ s.trace else s.trace;
        state = State.flushed;
      },
    )

    pub flush_rest : Done × Sink Msg → Done × Sink Msg
    unfolding flush_end
    flush_rest (ok _, s) = flush_end (record s { cached = mark_invalid zmq s.cached })
    flush_rest (threw e, s) = (threw e, s)

    flush_active : Sink Msg → Done × Sink Msg
    unfolding flush_rest flush_cached flush_end
    flush_active s = if s.cached.valid then flush_rest (flush_cached s.state s) else flush_end s

    unfoldable pub flush : Sink Msg → Done × Sink Msg
    unfolding flush_active
    flush s = if is_dropping s then (done, s) else flush_active s

    -- `~Sink()` swallows the exception.
    pub sink_destroy : Sink Msg → Sink Msg
    unfolding flush
    sink_destroy s = (flush s).1
