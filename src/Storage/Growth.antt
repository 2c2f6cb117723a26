-- ===== src/Storage/Growth.antt =====
-- `next()`, growth and `detach()` of the three storages.
use zmqmessage.Base.{
  ℕ, zero, suc, ◌+◌, ◌*◌, ◌^◌, ◌≤◌, ◌<◌, ◌≡◌, refl, sym, ap, ap₂, ◌∙◌, ◌⊎◌, inl, inr, List, [], ◌∷◌,
  ◌++◌, Option, none, some, true, map, map-append, arith, ◌==◌, length, set, length-set,
  length-replicate, lt→ltb, Bool-cases, Option-cases, ◌≢◌, subst, ==→eq, ne_of_==,
}
use native.Mathlib.Numerals.{add-one}
use zmqmessage.Zmq.{MsgApi, IsMsgApi}
use zmqmessage.Part.{Part, make, copy_construct, held}
use zmqmessage.Part.Ownership.{copy_construct_transfers}
use zmqmessage.Storage.{
  slot, overrun, DynamicPartsStorage, allocate, shifted, relocate, construct_next, grown,
  dynamic_next, constructed, dynamic_parts, IsFilled, IsStorage, dynamic_make,
}

pub allocate-IsFilled : (Msg : Type 0) (n : ℕ) → IsFilled {Msg = Msg} zero (allocate n)
allocate-IsFilled Msg zero = refl
allocate-IsFilled Msg (suc n) = allocate-IsFilled Msg n

module _ {Msg : Type 0} where
  IsFilled-le : (n : ℕ) (block : List (Option (Part Msg))) → IsFilled n block → n ≤ length block
  IsFilled-le n [] h = omega arith
  IsFilled-le zero (some p ∷ block) h = absurd h
  IsFilled-le zero (none ∷ block) h = omega arith
  IsFilled-le (suc n) (some p ∷ block) h = omega (arith, IsFilled-le n block h)
  IsFilled-le (suc n) (none ∷ block) h = absurd h

  set-IsFilled :
      (n : ℕ) (block : List (Option (Part Msg))) (p : Part Msg)
      → IsFilled n block
      → n < length block
      → IsFilled (suc n) (set block n (some p))
        × (constructed (suc n) (set block n (some p)) ≡ constructed n block ++ p ∷ [])
  set-IsFilled n [] p h lt = elim lt [ ]
  set-IsFilled zero (some q ∷ block) p h lt = absurd h
  set-IsFilled zero (none ∷ block) p h lt = (h, refl)
  set-IsFilled (suc n) (some q ∷ block) p h lt =
      let rest = set-IsFilled n block p h (omega arith) in (rest.0, ap (◌∷◌ q) rest.1)
  set-IsFilled (suc n) (none ∷ block) p h lt = absurd h

module _ {Msg : Type 0} (zmq : MsgApi Msg) (ok : IsMsgApi zmq) where
  relocate_lem :
      (n : ℕ) (old new : List (Option (Part Msg)))
      → IsFilled n old
      → IsFilled zero new
      → n ≤ length new
      → (b : List (Option (Part Msg))) × (relocate zmq n old new ≡ some b)
        × (length b ≡ length new)
        × IsFilled n b
        × (map held (constructed n b) ≡ map held (constructed n old))
  unfolding relocate
  relocate_lem zero old new h raw le = (new, refl, refl, raw, refl)
  relocate_lem (suc n) [] new h raw le = absurd (omega arith)
  relocate_lem (suc n) (none ∷ old) new h raw le = absurd h
  relocate_lem (suc n) (some p ∷ old) [] h raw le = elim le [ ]
  relocate_lem (suc n) (some p ∷ old) (some q ∷ new) h raw le = absurd raw
  relocate_lem (suc n) (some p ∷ old) (none ∷ new) h raw le =
      let (b, e, l, f, v) = relocate_lem n old new h raw (omega arith) in
      (
        some (copy_construct zmq p).0 ∷ b,
        rw e,
        omega arith,
        f,
        ap₂ ◌∷◌ (copy_construct_transfers zmq ok p).0 v,
      )

  abbrev filled : ℕ → ℕ → List (Option (Part Msg)) → DynamicPartsStorage Msg
  filled capacity size block = record { parts = some block; capacity = capacity; size = size }

  -- What a successful `next()` does to the storage.
  pub record Extends (s t : DynamicPartsStorage Msg) : Type 0 where
    pub kept : IsStorage t
    pub appended : map held (dynamic_parts t) ≡ map held (dynamic_parts s) ++ (zmq.init ∷ []) ∷ []
    pub counted : t.size ≡ s.size + 1
    pub not_less : s.capacity ≤ t.capacity
    pub at_most_doubled : (t.capacity ≡ s.capacity) ⊎ (t.capacity ≡ s.size * 2)

  construct_next_lem :
      (capacity size : ℕ) (block : List (Option (Part Msg))) (vs : List (List Msg))
      → length block ≡ capacity
      → IsFilled size block
      → size < capacity
      → map held (constructed size block) ≡ vs
      → (t : DynamicPartsStorage Msg) × (construct_next zmq block capacity size ≡ slot size t)
        × IsStorage t
        × (map held (dynamic_parts t) ≡ vs ++ (zmq.init ∷ []) ∷ [])
        × (t.size ≡ size + 1)
        × (t.capacity ≡ capacity)
  unfolding construct_next dynamic_parts make
  construct_next_lem capacity size block vs len f lt v =
      let new = set-IsFilled size block (make zmq true) f (omega arith) in
      (
        filled capacity (size + 1) (set block size (some (make zmq true))),
        rw (lt→ltb size (length block) (omega arith)),
        record {
          block = (rw (length-set block size (some (make zmq true))) len, rw add-one new.0);
        },
        rw (add-one, new.1, map-append, v),
        refl,
        refl,
      )

  shifted-lt : (capacity : ℕ) → 0 < capacity → capacity < 2 ^ 63 → capacity < shifted capacity
  shifted-lt capacity pos small = omega arith

  grown_lem :
      (capacity size : ℕ) (block : List (Option (Part Msg)))
      → IsFilled size block
      → size < capacity
      → (t : DynamicPartsStorage Msg) × (grown zmq block capacity size ≡ slot size t)
        × IsStorage t
        × (map held (dynamic_parts t) ≡ map held (constructed size block) ++ (zmq.init ∷ []) ∷ [])
        × (t.size ≡ size + 1)
        × (t.capacity ≡ capacity)
  unfolding grown
  grown_lem capacity size block f lt =
      let (b, e, l, g, v) =
        relocate_lem size block (allocate capacity) f (allocate-IsFilled Msg capacity)
          (omega (arith, length-replicate {A = Option (Part Msg)} capacity none)) in
      rw (e, grown)
        (construct_next_lem capacity size b (map held (constructed size block))
          (l ∙ length-replicate capacity none) g lt v)

  next_of_block :
      (capacity size : ℕ) (block : List (Option (Part Msg)))
      → IsStorage (filled capacity size block)
      → 0 < capacity
      → capacity < 2 ^ 63
      → (t : DynamicPartsStorage Msg) × (dynamic_next zmq (filled capacity size block)
          ≡ slot size t)
        × Extends (filled capacity size block) t
  unfolding dynamic_next dynamic_parts
  next_of_block capacity size block inv pos small = elim (Bool-cases (size == capacity)) [
    | inl full ↦
        let (t, e, i, v, n, c) =
          grown_lem (shifted capacity) size block inv.block.1
            (omega (arith, ==→eq size capacity full, shifted-lt capacity pos small)) in
        (
          t,
          rw full e,
          record {
            kept = i;
            appended = v;
            counted = n;
            not_less = omega (arith, c, shifted-lt capacity pos small);
            at_most_doubled = inr (omega (arith, c, ==→eq size capacity full));
          },
        )
    | inr room ↦
        let (t, e, i, v, n, c) =
          construct_next_lem capacity size block (map held (constructed size block)) inv.block.0
            inv.block.1
            (omega
              (arith, IsFilled-le size block inv.block.1, inv.block.0, ne_of_== size capacity room))
            refl in
        (
          t,
          rw room e,
          record {
            kept = i;
            appended = v;
            counted = n;
            not_less = omega (arith, c);
            at_most_doubled = inl c;
          },
        )
  ]

  -- A dynamic storage that has a block of 1 to 2 ^ 63 - 1 places always has a next part: `next()`
  -- returns the first free index, keeps the storage invariant, leaves what every earlier part owns
  -- unchanged and in its place, also when the block grows, appends one part that owns a fresh empty
  -- message, and never shrinks the block.
  pub dynamic_next-Extends :
      (s : DynamicPartsStorage Msg)
      → IsStorage s
      → s.parts ≢ none
      → 0 < s.capacity
      → s.capacity < 2 ^ 63
      → (t : DynamicPartsStorage Msg) × (dynamic_next zmq s ≡ slot s.size t) × Extends s t
  dynamic_next-Extends s inv owns pos small = elim (Option-cases s.parts) [
    | inl e ↦ absurd (owns e)
    | inr (block, e) ↦
        subst
          (λ (r : DynamicPartsStorage Msg).
            IsStorage r
            → (t : DynamicPartsStorage Msg) × (dynamic_next zmq r ≡ slot s.size t) × Extends r t)
          (λ i. record { parts = sym e i; capacity = s.capacity; size = s.size })
          (λ inv'. next_of_block s.capacity s.size block inv' pos small) inv
  ]

  -- A block of no places is the exception: its shifted capacity is 0 again, and `next()` constructs
  -- a part outside the block.
  pub dynamic_next_overruns : dynamic_next zmq (dynamic_make zmq 0) ≡ overrun
  unfolding dynamic_next dynamic_make relocate
  dynamic_next_overruns = refl

  pub dynamic_make-IsStorage : (n : ℕ) → IsStorage (dynamic_make zmq n)
  unfolding dynamic_make
  dynamic_make-IsStorage n = record { block = (length-replicate n none, allocate-IsFilled Msg n) }
