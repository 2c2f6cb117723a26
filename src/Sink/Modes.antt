-- ===== src/Sink/Modes.antt =====
-- What the options of a sink rule out.
use zmqmessage.Base.{Bool, true, ◌≡◌, none, false, arith}
use zmqmessage.Zmq.{MsgApi, Dest}
use zmqmessage.Part.{Part, make, copy}
use zmqmessage.Options.{has_option, drop_on_block, cache_on_block}
use zmqmessage.Sink.{Sink, send_owned, send_one, flush, is_dropping}

module _ {Msg : Type 0} (zmq : MsgApi Msg) (dst : Dest Msg) where
  -- A sink that does not drop, and may not.
  abbrev pub NoDrop : Sink Msg → Type 0
  NoDrop s = (has_option s.options drop_on_block ≡ false) × (is_dropping s ≡ false)

  pub send_owned-NoDrop :
      (s : Sink Msg) (p : Part Msg) → NoDrop s → NoDrop (send_owned zmq dst s p).1
  unfolding send_owned is_dropping
  send_owned-NoDrop s p h = ground arith

  pub send_one-NoDrop :
      (s : Sink Msg) (p : Part Msg) (copying : Bool)
      → NoDrop s
      → NoDrop (send_one zmq dst s p copying).1
  unfolding send_one
  send_one-NoDrop s p true h = send_owned-NoDrop s (copy zmq (make zmq true) p) h
  send_one-NoDrop s p false h = send_owned-NoDrop s p h

  pub send_owned_incoming :
      (s : Sink Msg) (p : Part Msg) → (send_owned zmq dst s p).1.incoming ≡ s.incoming
  unfolding send_owned
  send_owned_incoming s p = ground arith

  pub flush-NoDrop : (s : Sink Msg) → NoDrop s → NoDrop (flush zmq dst s).1
  unfolding flush is_dropping
  flush-NoDrop s h = ground arith

  pub send_owned_options :
      (s : Sink Msg) (p : Part Msg) → (send_owned zmq dst s p).1.options ≡ s.options
  unfolding send_owned
  send_owned_options s p = ground arith

  -- A sink that queues nothing, and may not.
  abbrev pub NoQueue : Sink Msg → Type 0
  NoQueue s = (has_option s.options cache_on_block ≡ false) × (s.outgoing_queue ≡ none)

  pub send_owned-NoQueue :
      (s : Sink Msg) (p : Part Msg) → NoQueue s → NoQueue (send_owned zmq dst s p).1
  unfolding send_owned
  send_owned-NoQueue s p h = ground arith

  pub flush-NoQueue : (s : Sink Msg) → NoQueue s → NoQueue (flush zmq dst s).1
  unfolding flush
  flush-NoQueue s h = ground arith

  -- A sink that sends, and neither queues nor drops.
  abbrev pub Plain : Sink Msg → Type 0
  Plain s = NoDrop s × NoQueue s

  pub send_owned-Plain : (s : Sink Msg) (p : Part Msg) → Plain s → Plain (send_owned zmq dst s p).1
  send_owned-Plain s p (d, q) = (send_owned-NoDrop s p d, send_owned-NoQueue s p q)
