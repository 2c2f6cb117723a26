-- ===== src/Storage.antt =====
-- include/zmqmessage/PartsStorage.hpp, and the members of DynamicPartsStorage in
-- include/zmqmessage/ZmqMessageTemplateImpl.hpp: the three places where message parts live.
-- Capacities are `size_t`, and the shift that doubles one wraps at 2 ^ 64.
pub mod Growth
pub mod Access
pub mod Interface
pub mod Fresh
pub mod Filling
use zmqmessage.Base.{
  ℕ, zero, suc, ◌+◌, ◌*◌, ◌%◌, ◌^◌, ◌≡◌, List, [], ◌∷◌, Option, none, some, Bool, true, false, map,
  if◌then◌else◌, ltb, ◌==◌, length, take, set, replicate,
}
use mathlib.Core.Option
use zmqmessage.Zmq.{MsgApi}
use zmqmessage.Part.{Part, make, copy_construct}

-- How `next()` ends: a pointer to part `i`, a null pointer, or a write outside the block.
pub data Next (S : Type 0) : Type 0 where
  slot : ℕ → S → Next S
  null : Next S
  overrun : Next S

-- `StackPartsStorage<N>`; `parts` has N members.
pub record StackPartsStorage (Msg : Type 0) : Type 0 where
  pub parts : List (Part Msg)
  pub size : ℕ

-- `ExternalPartsStorage` over a buffer of `limit` parts.
pub record ExternalPartsStorage (Msg : Type 0) : Type 0 where
  pub parts : List (Part Msg)
  pub limit : ℕ
  pub size : ℕ

-- `parts` is the null pointer or a block with a place for each of `capacity` parts, where none is
-- raw memory.
pub record DynamicPartsStorage (Msg : Type 0) : Type 0 where
  pub parts : Option (List (Option (Part Msg)))
  pub capacity : ℕ
  pub size : ℕ

abbrev pub default_capacity : ℕ
default_capacity = 10

abbrev pub routing_capacity : ℕ
routing_capacity = 5

-- `Allocator::allocate(n)`
abbrev pub allocate : {Msg : Type 0} → ℕ → List (Option (Part Msg))
allocate n = replicate n none

-- `capacity_ << 1` on `size_t`
abbrev pub shifted : ℕ → ℕ
shifted capacity = capacity * 2 % 2 ^ 64

module _ {Msg : Type 0} (zmq : MsgApi Msg) where
  pub stack_make : ℕ → StackPartsStorage Msg
  stack_make n = record { parts = replicate n (make zmq true); size = 0 }

  unfoldable pub dynamic_make : ℕ → DynamicPartsStorage Msg
  dynamic_make n = record { parts = some (allocate n); capacity = n; size = 0 }

  -- The loop of `next()` over i < n: construct at new[i] from old[i], destroy old[i]. It stops on
  -- a place that is not there or is raw.
  pub relocate :
      ℕ → List (Option (Part Msg)) → List (Option (Part Msg)) → Option (List (Option (Part Msg)))
  relocate zero old new = some new
  relocate (suc n) (some p ∷ old) (_ ∷ new) =
      Option.map (λ block. some (copy_construct zmq p).0 ∷ block) (relocate n old new)
  relocate (suc n) _ _ = none

  -- `::new(&parts_[size_]) Part(); ++size_`
  pub construct_next : List (Option (Part Msg)) → ℕ → ℕ → Next (DynamicPartsStorage Msg)
  construct_next block capacity size =
      if ltb size (length block)
      then slot size (record {
        parts = some (set block size (some (make zmq true)));
        capacity = capacity;
        size = size + 1;
      })
      else overrun

  pub grown : List (Option (Part Msg)) → ℕ → ℕ → Next (DynamicPartsStorage Msg)
  unfolding relocate construct_next
  grown block new_capacity size = elim (relocate size block (allocate new_capacity)) [
    | none ↦ overrun
    | some moved ↦ construct_next moved new_capacity size
  ]

  unfoldable pub dynamic_next : DynamicPartsStorage Msg → Next (DynamicPartsStorage Msg)
  unfolding grown construct_next
  dynamic_next s = elim s.parts [
    | none ↦ null
    | some block ↦
        if s.size == s.capacity
        then grown block (shifted s.capacity) s.size
        else construct_next block s.capacity s.size
  ]

module _ {Msg : Type 0} where
  pub stack_next : StackPartsStorage Msg → Next (StackPartsStorage Msg)
  stack_next s =
      if ltb s.size (length s.parts) then slot s.size (record s { size = s.size + 1 }) else null

  pub external_make : List (Part Msg) → ℕ → ExternalPartsStorage Msg
  external_make buffer limit = record { parts = buffer; limit = limit; size = 0 }

  pub external_next : ExternalPartsStorage Msg → Next (ExternalPartsStorage Msg)
  external_next s =
      if ltb s.size s.limit then slot s.size (record s { size = s.size + 1 }) else null

  -- `DynamicPartsStorage()`
  pub dynamic_empty : DynamicPartsStorage Msg
  dynamic_empty = record { parts = none; capacity = 0; size = 0 }

  -- `detach()`: the new container, an empty storage that gets the members of this one, and this
  -- storage, whose members are reset.
  pub dynamic_detach : DynamicPartsStorage Msg → DynamicPartsStorage Msg × DynamicPartsStorage Msg
  unfolding dynamic_empty
  dynamic_detach s =
      let ptr : DynamicPartsStorage Msg = dynamic_empty in
      (
        record ptr { parts = s.parts; capacity = s.capacity; size = s.size },
        record s { parts = none; capacity = 0; size = 0 },
      )

  -- The loop of the destructor over i < n: the block after it; none where it destroys a place that
  -- is not there or is raw.
  destroyed : ℕ → List (Option (Part Msg)) → Option (List (Option (Part Msg)))
  destroyed zero block = some block
  destroyed (suc n) (some p ∷ block) = Option.map (◌∷◌ none) (destroyed n block)
  destroyed (suc n) (none ∷ block) = none
  destroyed (suc n) [] = none

  -- `~DynamicPartsStorage`: the block that is given back, if there is one.
  pub dynamic_destroy : DynamicPartsStorage Msg → Option (Option (List (Option (Part Msg))))
  unfolding destroyed
  dynamic_destroy s = elim s.parts [
    | none ↦ some none
    | some block ↦ Option.map some (destroyed s.size block)
  ]

  -- The first `n` parts of a block, as a `Multipart` sees them.
  abbrev pub constructed : ℕ → List (Option (Part Msg)) → List (Part Msg)
  constructed zero block = []
  constructed (suc n) (some p ∷ block) = p ∷ constructed n block
  constructed (suc n) (none ∷ block) = constructed n block
  constructed (suc n) [] = []

  unfoldable pub dynamic_parts : DynamicPartsStorage Msg → List (Part Msg)
  dynamic_parts s = elim s.parts [ none ↦ [] | some block ↦ constructed s.size block ]

  unfoldable pub dynamic_set : DynamicPartsStorage Msg → ℕ → Part Msg → DynamicPartsStorage Msg
  dynamic_set s i p = record s { parts = Option.map (λ block. set block i (some p)) s.parts }

  -- Exactly the first `n` places of a block are constructed.
  abbrev pub IsFilled : ℕ → List (Option (Part Msg)) → Type 0
  IsFilled n [] = n ≡ zero
  IsFilled zero (some p ∷ block) = ⊥
  IsFilled zero (none ∷ block) = IsFilled zero block
  IsFilled (suc n) (some p ∷ block) = IsFilled n block
  IsFilled (suc n) (none ∷ block) = ⊥

  abbrev pub IsBlock : ℕ → ℕ → Option (List (Option (Part Msg))) → Type 0
  IsBlock capacity size none = (capacity ≡ 0) × (size ≡ 0)
  IsBlock capacity size (some block) = (length block ≡ capacity) × IsFilled size block

  -- The storage invariant.
  pub record IsStorage (s : DynamicPartsStorage Msg) : Type 0 where
    pub block : IsBlock s.capacity s.size s.parts
