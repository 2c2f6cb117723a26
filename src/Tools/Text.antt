-- ===== src/Tools/Text.antt =====
-- include/ZmqTools.hpp: what a message holds as a value, and the messages made of values, with
-- `get_time` of include/zmqmessage/ZmqToolsFullImpl.hpp. The overload for a type is chosen at
-- compile time; a string-like type is its bytes.
use zmqmessage.Base.{
  ℕ, ◌≡◌, ap, ◌∙◌, List, Bool, true, false, if◌then◌else◌, length, take, min, arith, Option-cases,
  inl, inr,
}
use zmqmessage.Zmq.{MsgApi, IsMsgApi, Result, ok}
use zmqmessage.Bytes.{ℤ, pos}
use zmqmessage.Tools.{init_msg}
use zmqmessage.Inserting.{RawMessage}

-- The stream operators of a type, `>>` after `T()`, and its representation in memory.
pub record Streamed (T : Type 0) : Type 0 where
  pub read : List ℕ → T
  pub write : T → List ℕ

pub record Stored (T : Type 0) : Type 0 where
  pub load : List ℕ → T
  pub store : T → List ℕ

module _ {Msg : Type 0} (zmq : MsgApi Msg) where
  -- `get_string`, and `get` for a string-like type.
  pub get_string : Msg → List ℕ
  get_string m = zmq.bytes m

  -- `get_string(message, limit)`
  pub get_string_limit : Msg → ℕ → List ℕ
  get_string_limit m limit = take (min (length (zmq.bytes m)) limit) (zmq.bytes m)

  -- `get_raw`
  pub get_raw : Msg → RawMessage
  get_raw m = record { region = zmq.bytes m; deleter = false }

  -- `get_time`, with the value of `strtol` and whether it sets errno.
  pub get_time : (List ℕ → ℤ × Bool) → Msg → ℤ
  unfolding get_string
  get_time strtol m = let (tm, errno) = strtol (get_string m) in if errno then pos 0 else tm

  -- `init_msg` for a string-like type and for `const char*`.
  unfoldable pub init_msg_string : List ℕ → Result Msg
  init_msg_string s = init_msg zmq s

  module _ {T : Type 0} (stream : Streamed T) (stored : Stored T) where
    -- `get_bin`, also `get` for a type marked as raw.
    pub get_bin : Msg → T
    get_bin m = stored.load (zmq.bytes m)

    -- `get` for any other type.
    pub get_text : Msg → T
    get_text m = stream.read (zmq.bytes m)

    -- `get(message, binary_mode)`
    pub get : Msg → Bool → T
    unfolding get_bin get_text
    get m binary_mode = if binary_mode then get_bin m else get_text m

    -- `init_msg_bin`, also `init_msg` for a type marked as raw.
    unfoldable pub init_msg_bin : T → Result Msg
    init_msg_bin t = init_msg zmq (stored.store t)

    -- `init_msg` for any other type: `ostringstream`, and the string that it holds.
    unfoldable pub init_msg_text : T → Result Msg
    unfolding init_msg_string
    init_msg_text t = init_msg_string (stream.write t)

    -- `init_msg(t, msg, binary_mode)`
    unfoldable pub init_msg_mode : T → Bool → Result Msg
    unfolding init_msg_bin init_msg_text
    init_msg_mode t binary_mode = if binary_mode then init_msg_bin t else init_msg_text t

module _ {Msg : Type 0} (zmq : MsgApi Msg) (laws : IsMsgApi zmq) where
  -- A message that was made of some bytes holds these bytes.
  pub bytes-init_msg : (bs : List ℕ) (m : Msg) → init_msg zmq bs ≡ ok m → zmq.bytes m ≡ bs
  unfolding init_msg
  bytes-init_msg bs m e = elim (Option-cases (zmq.init_size (length bs))) [
    | inl n ↦ ground (arith, n)
    | inr (raw, r) ↦
        let w = laws.bytes-fill raw bs (laws.length-init_size (length bs) raw r) in
        ground (arith, r, w)
  ]

  -- A message that was made of a value and is read back in the same mode, binary or text, gives the
  -- value, if the type's own stream operators and representation in memory do so.
  pub get-init_msg_mode :
      {T : Type 0} (stream : Streamed T) (stored : Stored T) (t : T) (binary_mode : Bool) (m : Msg)
      → stream.read (stream.write t) ≡ t
      → stored.load (stored.store t) ≡ t
      → init_msg_mode zmq stream stored t binary_mode ≡ ok m
      → get zmq stream stored m binary_mode ≡ t
  unfolding init_msg_mode init_msg_bin init_msg_text init_msg_string get get_bin get_text
  get-init_msg_mode stream stored t true m r l e =
      ap stored.load (bytes-init_msg (stored.store t) m e) ∙ l
  get-init_msg_mode stream stored t false m r l e =
      ap stream.read (bytes-init_msg (stream.write t) m e) ∙ r
