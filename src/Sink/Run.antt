-- ===== src/Sink/Run.antt =====
-- What a sink has made of the message parts that it has taken: the contract of the class.
use zmqmessage.Base.{◌≡◌, List, [], ◌∷◌, ◌++◌, Option, none, some, true, false, map, length}
use zmqmessage.Part.{held, held_all}
use zmqmessage.Storage.{DynamicPartsStorage, dynamic_parts}
use zmqmessage.Sink.{Sink, State}
use zmqmessage.Sink.Trace.{wire, more}
use zmqmessage.Sink.Queue.{IsQueue}

module _ {Msg : Type 0} where
  -- The queue holds exactly the messages `ms`.
  abbrev pub Holds : List Msg → Option (DynamicPartsStorage Msg) → Type 0
  Holds ms none = ⊥
  Holds ms (some q) = IsQueue q × (q.size ≡ length ms) × (held_all (dynamic_parts q) ≡ ms)

  -- The messages `ms` have been taken, and the message is not flushed yet: the first part waits;
  -- or all but the last, which waits, have crossed with more to follow; or all are queued and none
  -- has crossed; or all have been dropped.
  abbrev pub IsRunIn : State → List Msg → Sink Msg → Type 0
  IsRunIn State.not_sent ms s =
      (wire s.trace ≡ []) × (s.outgoing_queue ≡ none) × (held s.cached ≡ ms)
  IsRunIn State.sending ms s =
      (s.outgoing_queue ≡ none)
      × (s.cached.valid ≡ true)
      × (wire s.trace ++ more s.cached.msg ∷ [] ≡ map more ms)
  IsRunIn State.queueing ms s =
      (wire s.trace ≡ []) × (s.cached.valid ≡ false) × Holds ms s.outgoing_queue
  IsRunIn State.dropping ms s = (wire s.trace ≡ []) × (s.outgoing_queue ≡ none)
  IsRunIn State.flushed ms s = ⊥

  abbrev pub IsRun : List Msg → Sink Msg → Type 0
  IsRun ms s = IsRunIn s.state ms s
