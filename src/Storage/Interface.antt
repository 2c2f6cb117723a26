-- ===== src/Storage/Interface.antt =====
-- The storage policy that Incoming and XRouting take as a template parameter: what they use of it,
-- the laws that they rely on, and the three storages of PartsStorage.hpp as instances.
use zmqmessage.Base.{
  ℕ, zero, suc, ◌+◌, ◌*◌, ◌^◌, ◌≤◌, ◌<◌, ◌≡◌, ◌≢◌, refl, sym, ap, ◌∙◌, List, [], ◌∷◌, ◌++◌, none,
  map, arith, length, set, take, length-set, drop,
}
use native.Mathlib.Numerals.{add-one}
use zmqmessage.Zmq.{MsgApi, IsMsgApi}
use zmqmessage.Part.{Part, held, AllValid}
use zmqmessage.Storage.{
  Next, slot, null, StackPartsStorage, ExternalPartsStorage, DynamicPartsStorage, dynamic_next,
  dynamic_parts, dynamic_set, stack_next, external_next, IsStorage,
}
use zmqmessage.Storage.Growth.{dynamic_next-Extends}
use zmqmessage.Storage.Access.{length-dynamic_parts, dynamic_set_lem, owns_of_size}

pub record PartsStorage (Msg S : Type 0) : Type 0 where
  pub next : S → Next S
  -- The parts [0, size).
  pub parts : S → List (Part Msg)
  pub put : S → ℕ → Part Msg → S

-- The contents of each part.
abbrev pub contents : {Msg S : Type 0} → PartsStorage Msg S → S → List (List Msg)
contents ps s = map held (ps.parts s)

-- What holds of a storage for up to `bound` parts, under its invariant `Inv`: while there is room,
-- `next` gives a new last part, which owns a message, and changes no other; and a part that is
-- there can be written.
pub record IsPartsStorage {Msg S : Type 0} (ps : PartsStorage Msg S) (Inv : S → Type 0) (bound : ℕ)
    : Type 0 where
  pub next_adds :
      (s : S)
      → Inv s
      → length (ps.parts s) < bound
      → (t : S) × (ps.next s ≡ slot (length (ps.parts s)) t)
        × Inv t
        × ((m : Msg) × (contents ps t ≡ contents ps s ++ (m ∷ []) ∷ []))
  pub put_writes :
      (s : S) (i : ℕ) (p : Part Msg)
      → Inv s
      → i < length (ps.parts s)
      → Inv (ps.put s i p) × (ps.parts (ps.put s i p) ≡ set (ps.parts s) i p)

-- A storage that holds exactly `bound` parts: where it is full, there is no next part.
pub record IsFixedStorage {Msg S : Type 0} (ps : PartsStorage Msg S) (Inv : S → Type 0) (bound : ℕ)
    : Type 0 where
  pub stores : IsPartsStorage ps Inv bound
  pub full : (s : S) → Inv s → length (ps.parts s) ≡ bound → ps.next s ≡ null

module _ {Msg : Type 0} where
  abbrev pub stack_storage : PartsStorage Msg (StackPartsStorage Msg)
  stack_storage = record {
    next = stack_next;
    parts = λ s. take s.size s.parts;
    put = λ s i p. record s { parts = set s.parts i p };
  }

  abbrev pub external_storage : PartsStorage Msg (ExternalPartsStorage Msg)
  external_storage = record {
    next = external_next;
    parts = λ s. take s.size s.parts;
    put = λ s i p. record s { parts = set s.parts i p };
  }

  abbrev pub dynamic_storage : MsgApi Msg → PartsStorage Msg (DynamicPartsStorage Msg)
  dynamic_storage zmq = record { next = dynamic_next zmq; parts = dynamic_parts; put = dynamic_set }

  -- The array has n parts, and those that are not used yet are as they were made.
  pub record IsStack (n : ℕ) (s : StackPartsStorage Msg) : Type 0 where
    pub within : s.size ≤ n
    pub array : length s.parts ≡ n
    pub fresh : AllValid (drop s.size s.parts)

  length-take : (n : ℕ) (ps : List (Part Msg)) → n ≤ length ps → length (take n ps) ≡ n
  length-take zero ps h = refl
  length-take (suc n) [] h = elim h [ ]
  length-take (suc n) (p ∷ ps) h = omega (arith, length-take n ps)

  take-suc :
      (n : ℕ) (ps : List (Part Msg))
      → n < length ps
      → AllValid (drop n ps)
      → (m : Msg) × (map held (take (suc n) ps) ≡ map held (take n ps) ++ (m ∷ []) ∷ [])
  take-suc n [] h v = elim h [ ]
  take-suc zero (p ∷ ps) h v = (p.msg, simp v.0)
  take-suc (suc n) (p ∷ ps) h v =
      let (m, e) = take-suc n ps (omega arith) v in (m, ap (◌∷◌ (held p)) e)

  drop-suc : (n : ℕ) (ps : List (Part Msg)) → AllValid (drop n ps) → AllValid (drop (suc n) ps)
  drop-suc n [] v = tt
  drop-suc zero (p ∷ ps) v = v.1
  drop-suc (suc n) (p ∷ ps) v = drop-suc n ps v

  -- Writing below `n` leaves what follows.
  drop-set :
      (n i : ℕ) (ps : List (Part Msg)) (p : Part Msg) → i < n → drop n (set ps i p) ≡ drop n ps
  drop-set zero i ps p h = elim h [ ]
  drop-set (suc n) i [] p h = refl
  drop-set (suc n) zero (q ∷ ps) p h = refl
  drop-set (suc n) (suc i) (q ∷ ps) p h = drop-set n i ps p (omega arith)

  take-set :
      (n i : ℕ) (ps : List (Part Msg)) (p : Part Msg) → take n (set ps i p) ≡ set (take n ps) i p
  take-set zero i ps p = refl
  take-set (suc n) i [] p = refl
  take-set (suc n) zero (q ∷ ps) p = refl
  take-set (suc n) (suc i) (q ∷ ps) p = ap (◌∷◌ q) (take-set n i ps p)

  stack_next_lem :
      (s : StackPartsStorage Msg)
      → s.size < length s.parts
      → stack_next s ≡ slot s.size (record s { size = s.size + 1 })
  unfolding stack_next
  stack_next_lem s h = ground arith

  -- A full stack storage has no next part.
  stack_next_full :
      (n : ℕ) (s : StackPartsStorage Msg) → IsStack n s → s.size ≡ n → stack_next s ≡ null
  unfolding stack_next
  stack_next_full n s inv full = ground (arith, inv.array)

  pub stack_storage-IsPartsStorage : (n : ℕ) → IsPartsStorage stack_storage (IsStack n) n
  stack_storage-IsPartsStorage n = record {
    next_adds = λ s inv room.
        let l = length-take s.size s.parts (omega (arith, inv.within, inv.array)) in
        let lt : s.size < length s.parts = omega (arith, inv.array) in
        (
          record s { size = s.size + 1 },
          stack_next_lem s lt ∙ ap (λ k. slot k (record s { size = s.size + 1 })) (sym l),
          record {
            within = omega (arith, inv.array);
            array = inv.array;
            fresh = rw add-one (drop-suc s.size s.parts inv.fresh);
          },
          rw add-one (take-suc s.size s.parts lt inv.fresh),
        );
    put_writes = λ s i p inv lt.
        let l = length-take s.size s.parts (omega (arith, inv.within, inv.array)) in
        (
          record {
            within = inv.within;
            array = length-set s.parts i p ∙ inv.array;
            fresh = rw (drop-set s.size i s.parts p (omega arith)) inv.fresh;
          },
          take-set s.size i s.parts p,
        );
  }

  -- The storage on the stack is a storage of N parts: while it has fewer, `next` gives a new last
  -- part, which owns a message, and changes no other; a part that is there can be written; and with
  -- N parts `next` gives the null pointer, on which Incoming relies.
  pub stack_storage-IsFixedStorage : (n : ℕ) → IsFixedStorage stack_storage (IsStack n) n
  stack_storage-IsFixedStorage n = record {
    stores = stack_storage-IsPartsStorage n;
    full = λ s inv e.
        stack_next_full n s inv
          (sym (length-take s.size s.parts (omega (arith, inv.within, inv.array))) ∙ e);
  }

  -- A dynamic storage that was made with a capacity, and not detached.
  pub record IsOpen (s : DynamicPartsStorage Msg) : Type 0 where
    pub storage : IsStorage s
    pub owns : s.parts ≢ none
    pub nonempty : 0 < s.capacity
    pub bounded : s.capacity ≤ 2 ^ 62 + s.size * 2

module _ {Msg : Type 0} (zmq : MsgApi Msg) (laws : IsMsgApi zmq) where
  dynamic_adds :
      (s : DynamicPartsStorage Msg)
      → IsOpen s
      → length (dynamic_parts s) < 2 ^ 61
      → (t : DynamicPartsStorage Msg) × (dynamic_next zmq s ≡ slot (length (dynamic_parts s)) t)
        × IsOpen t
        × ((m : Msg) × (map held (dynamic_parts t) ≡ map held (dynamic_parts s) ++ (m ∷ []) ∷ []))
  dynamic_adds s inv small =
      let l = length-dynamic_parts s inv.storage in
      let (t, e, x) =
        dynamic_next-Extends zmq laws s inv.storage inv.owns inv.nonempty
          (omega (arith, inv.bounded)) in
      (
        t,
        e ∙ ap (λ n. slot n t) (sym l),
        record {
          storage = x.kept;
          owns = owns_of_size t x.kept (omega (arith, x.counted));
          nonempty = omega (arith, x.not_less, inv.nonempty);
          bounded = omega (arith, x.at_most_doubled, x.counted, inv.bounded);
        },
        (zmq.init, x.appended),
      )

  dynamic_writes :
      (s : DynamicPartsStorage Msg) (i : ℕ) (p : Part Msg)
      → IsOpen s
      → i < length (dynamic_parts s)
      → IsOpen (dynamic_set s i p) × (dynamic_parts (dynamic_set s i p) ≡ set (dynamic_parts s) i p)
  unfolding dynamic_set
  dynamic_writes s i p inv lt =
      let l = length-dynamic_parts s inv.storage in
      let w = dynamic_set_lem s i p inv.storage (omega arith) in
      (
        record {
          storage = w.0;
          owns = owns_of_size _ w.0 (omega arith);
          nonempty = inv.nonempty;
          bounded = inv.bounded;
        },
        w.1,
      )

  -- The dynamic storage implements the storage that Incoming relies on, for up to 2 ^ 61 parts,
  -- while it has a block of at least one place: there is always a next part, no other part changes,
  -- and a part that is there can be written.
  pub dynamic_storage-IsPartsStorage : IsPartsStorage (dynamic_storage zmq) IsOpen (2 ^ 61)
  dynamic_storage-IsPartsStorage = record { next_adds = dynamic_adds; put_writes = dynamic_writes }
