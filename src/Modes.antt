-- ===== src/Modes.antt =====
-- Text and binary mode: include/zmqmessage/MetaTypes.hpp, which sorts types by what they are marked
-- as, the overloads of get and init_msg in include/ZmqTools.hpp that it selects, and the sequences
-- of insertions and extractions with the manipulators Binary and Text of Manip.hpp.
pub mod Sending
pub mod Reading
pub mod RoundTrip
use zmqmessage.Base.{none, ℕ, List, [], ◌∷◌, Bool, true, false, if◌then◌else◌, map}
use zmqmessage.Zmq.{MsgApi, Source, Dest, Result, ok, threw, Done, done}
use zmqmessage.Tools.Text.{Streamed, Stored}
use zmqmessage.Storage.{DynamicPartsStorage, dynamic_make, default_capacity}
use zmqmessage.Storage.Interface.{PartsStorage, dynamic_storage}
use zmqmessage.Sink.{Sink, sink_make, flush, sink_destroy}
use zmqmessage.Inserting.{insert_value}
use zmqmessage.Inserting as Inserting
use zmqmessage.Incoming.{Incoming, extract, incoming_make, receive_parts}
use zmqmessage.Incoming as Incoming

-- What IsStr and IsRaw say of a type: it is a string, or else marked as raw, or neither.
pub data Kind : Type 0 where
  string_like raw_marked plain : Kind

-- What is in a message for a value: its text or its representation in memory.
pub data Way : Type 0 where
  as_text as_memory : Way

-- The choice that `get` and `init_msg` make by the type and by binary_mode.
unfoldable pub way : Kind → Bool → Way
way kind true = Way.as_memory
way Kind.string_like false = Way.as_text
way Kind.raw_marked false = Way.as_memory
way Kind.plain false = Way.as_text

-- A type. The text of a string is its characters, by data() and the constructor from characters;
-- that of another type is what its stream operators write and read.
pub record Traits (T : Type 0) : Type 0 where
  pub kind : Kind
  pub text : Streamed T
  pub stored : Stored T

module _ {T : Type 0} (traits : Traits T) where
  unfoldable pub write : Way → T → List ℕ
  write Way.as_text t = traits.text.write t
  write Way.as_memory t = traits.stored.store t

  unfoldable pub read : Way → List ℕ → T
  read Way.as_text bs = traits.text.read bs
  read Way.as_memory bs = traits.stored.load bs

  -- The bytes of `init_msg (t, msg, binary_mode)`.
  unfoldable pub encode : T → Bool → List ℕ
  unfolding write
  encode t binary_mode = write (way traits.kind binary_mode) t

  -- `get (message, binary_mode)`
  unfoldable pub decode : {Msg : Type 0} → MsgApi Msg → Msg → Bool → T
  unfolding read
  decode zmq m binary_mode = read (way traits.kind binary_mode) (zmq.bytes m)

-- What is inserted with <<, and what is extracted into with >>; a type `A` of names of types, each
-- with its values.
pub data Insertion {A : Type 0} (El : A → Type 0) : Type 0 where
  binary text : Insertion El
  value : (a : A) → El a → Insertion El

pub data Extraction (A : Type 0) : Type 0 where
  binary text : Extraction A
  into : A → Extraction A

module _ {Msg A : Type 0} (zmq : MsgApi Msg) (El : A → Type 0)
    (traits : (a : A) → Traits (El a)) where
  module _ (dst : Dest Msg) where
    chained : Done × Sink Msg → (Sink Msg → Done × Sink Msg) → Done × Sink Msg
    chained (ok _, s) rest = rest s
    chained (threw e, s) rest = (threw e, s)

    -- `sink << … << …`
    unfoldable pub insert_each : List (Insertion El) → Sink Msg → Done × Sink Msg
    unfolding chained encode
    insert_each [] s = (done, s)
    insert_each (Insertion.binary ∷ steps) s = insert_each steps (Inserting.set_binary zmq s)
    insert_each (Insertion.text ∷ steps) s = insert_each steps (Inserting.set_text zmq s)
    insert_each (Insertion.value a v ∷ steps) s =
        chained (insert_value zmq dst (encode (traits a)) s v) (insert_each steps)

    -- `Outgoing (s, 0) << … << Flush`
    unfoldable pub send_each : List (Insertion El) → Done × Sink Msg
    unfolding insert_each chained
    send_each steps = chained (insert_each steps (sink_make zmq 0 false none)) (flush zmq dst)

  module _ {S : Type 0} (ps : PartsStorage Msg S) where
    -- The values that the variables have got.
    abbrev pub Extracted : Type 0
    Extracted = Result (List ((a : A) × El a)) × Incoming Msg S

    with_value : (a : A) → El a → Extracted → Extracted
    with_value a v (ok vs, s) = (ok ((a, v) ∷ vs), s)
    with_value a v (threw e, s) = (threw e, s)

    after_value :
        (a : A) → Result (El a) × Incoming Msg S → (Incoming Msg S → Extracted) → Extracted
    unfolding with_value
    after_value a (ok v, s) rest = with_value a v (rest s)
    after_value a (threw e, s) rest = (threw e, s)

    -- `incoming >> … >> …`
    unfoldable pub extract_each : List (Extraction A) → Incoming Msg S → Extracted
    unfolding after_value decode
    extract_each [] s = (ok [], s)
    extract_each (Extraction.binary ∷ asks) s = extract_each asks (Incoming.set_binary s)
    extract_each (Extraction.text ∷ asks) s = extract_each asks (Incoming.set_text s)
    extract_each (Extraction.into a ∷ asks) s =
        after_value a (extract ps (decode (traits a) zmq) s) (extract_each asks)

  module _ (src : Source Msg) where
    received_each :
        List (Extraction A)
        → Done × Incoming Msg (DynamicPartsStorage Msg)
        → Extracted (dynamic_storage zmq)
    unfolding extract_each
    received_each asks (ok _, s) = extract_each (dynamic_storage zmq) asks s
    received_each asks (threw e, s) = (threw e, s)

    -- `Incoming (s).receive (parts, true) >> … >> …`
    unfoldable pub receive_each : ℕ → List (Extraction A) → ℕ → Extracted (dynamic_storage zmq)
    unfolding received_each
    receive_each parts asks calls = received_each asks (
        receive_parts (dynamic_storage zmq) src
          (incoming_make (dynamic_make zmq default_capacity) calls) parts true)
