-- ===== src/Part.antt =====
-- include/zmqmessage/Part.hpp: a message part with an ownership mark.
pub mod Ownership
use zmqmessage.Base.{
  ℕ, List, Option, none, some, Bool, true, false, if◌then◌else◌, [], ◌∷◌, ◌++◌, ◌≡◌, map,
}
use zmqmessage.Zmq.{MsgApi}

pub record Part (Msg : Type 0) : Type 0 where
  pub msg : Msg
  pub valid : Bool

module _ {Msg : Type 0} (zmq : MsgApi Msg) where
  -- `Part(bool valid)`
  unfoldable pub make : Bool → Part Msg
  make valid = record { msg = zmq.init; valid = valid }

  -- `Part(size_t)`; none is the exception.
  pub make_size : ℕ → Option (Part Msg)
  make_size n = elim (zmq.init_size n) [
    | none ↦ none
    | some m ↦ some (record { msg = m; valid = true })
  ]

  -- `Part(void*, size_t, free_fn*, void*)`
  pub make_data : List ℕ → Option (Part Msg)
  make_data bs = elim (zmq.init_data bs) [
    | none ↦ none
    | some m ↦ some (record { msg = m; valid = true })
  ]

  unfoldable pub mark_invalid : Part Msg → Part Msg
  mark_invalid p = record p { valid = false }

  -- The target after `dst.copy(src)`.
  unfoldable pub copy : Part Msg → Part Msg → Part Msg
  copy dst src = if src.valid then record { msg = zmq.copy dst.msg src.msg; valid = true } else dst

  -- Target and source after `dst.move(src)`.
  unfoldable pub move : Part Msg → Part Msg → Part Msg × Part Msg
  move dst src =
      let (to, from) = zmq.move dst.msg src.msg in
      if src.valid
      then (record { msg = to; valid = true }, record { msg = from; valid = false })
      else (record dst { valid = false }, src)

  -- `dst.move(message_t&)`
  pub move_msg : Part Msg → Msg → Part Msg × Msg
  move_msg dst src =
      let (to, from) = zmq.move dst.msg src in (record { msg = to; valid = true }, from)

  -- `Part(const Part&)`: the copy that is made, and what it leaves of its source.
  pub copy_construct : Part Msg → Part Msg × Part Msg
  unfolding move
  copy_construct src = move (record { msg = zmq.init; valid = src.valid }) src

  -- `operator=` moves too.
  pub assign : Part Msg → Part Msg → Part Msg × Part Msg
  unfolding move
  assign dst src = move dst src

-- What a part owns: its message, or nothing once the message has moved on.
abbrev pub held : {Msg : Type 0} → Part Msg → List Msg
held p = if p.valid then p.msg ∷ [] else []

abbrev pub held_all : {Msg : Type 0} → List (Part Msg) → List Msg
held_all [] = []
held_all (p ∷ ps) = held p ++ held_all ps

abbrev pub msgs : {Msg : Type 0} → List (Part Msg) → List Msg
msgs = map λ p. p.msg

abbrev pub AllValid : {Msg : Type 0} → List (Part Msg) → Type 0
AllValid [] = Unit
AllValid (p ∷ ps) = (p.valid ≡ true) × AllValid ps
