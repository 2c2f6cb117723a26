-- ===== src/Multipart/Access.antt =====
-- Access to the parts of a message, and the iterator.
use zmqmessage.Base.{
  ℕ, ◌≤◌, ◌<◌, ◌≡◌, ◌≢◌, ◌⊎◌, refl, ◌∙◌, List, [], some, true, false, arith, length, set, get_elem?,
  length-set, get_elem?-lt, get_elem?-ge, get_elem?-set, inl, inr, Bool-cases, ltb, ltb→lt, lt→ltb,
}
use zmqmessage.Zmq.{MsgApi, IsMsgApi, ok, threw, no_such_part}
use zmqmessage.Part.{Part, make, held, copy_construct}
use zmqmessage.Part.Ownership.{copy_construct_transfers}
use zmqmessage.Multipart.{has_part, at, release}

module _ {Msg : Type 0} where
  -- A part that is owned can be read.
  pub at-owned :
      (parts : List (Part Msg)) (n : ℕ) (p : Part Msg)
      → get_elem? parts n ≡ some p
      → n < length parts
      → p.valid ≡ true
      → at parts n ≡ ok p
  unfolding at
  at-owned parts n p e l v = ground (arith, e, v, lt→ltb n (length parts) l)

  -- A part that is not owned cannot.
  pub at_released :
      (parts : List (Part Msg)) (n : ℕ) (p : Part Msg)
      → get_elem? parts n ≡ some p
      → n < length parts
      → p.valid ≡ false
      → at parts n ≡ threw no_such_part
  unfolding at
  at_released parts n p e l v = ground (arith, e, v, lt→ltb n (length parts) l)

  -- `has_part(n)` returns, and `operator[]` gives part n exactly where it is true, where the part
  -- is there and owned, and throws NoSuchPartError otherwise; neither reads outside the parts, for
  -- any n.
  pub at-has_part :
      (parts : List (Part Msg)) (n : ℕ)
      → (has_part parts n ≡ ok true)
          × ((p : Part Msg) × (get_elem? parts n ≡ some p) × (p.valid ≡ true) × (at parts n ≡ ok p))
        ⊎ (has_part parts n ≡ ok false) × (at parts n ≡ threw no_such_part)
  unfolding has_part at
  at-has_part parts n = elim (Bool-cases (ltb n (length parts))) [
    | inl lt ↦
        let (p, e) = get_elem?-lt parts n (ltb→lt n (length parts) lt) in
        elim (Bool-cases p.valid) [
          | inl v ↦ inl (ground arith, (p, e, v, ground arith))
          | inr v ↦ inr (ground arith, ground arith)
        ]
    | inr ge ↦ inr (ground arith, ground arith)
  ]

module _ {Msg : Type 0} (zmq : MsgApi Msg) (laws : IsMsgApi zmq) where
  -- Releasing a part that the message has hands its content to the caller; the message keeps its
  -- size and its other parts, and no longer has this one.
  pub release_lem :
      (parts : List (Part Msg)) (i : ℕ) (p : Part Msg)
      → get_elem? parts i ≡ some p
      → i < length parts
      → (held (release zmq parts i).0 ≡ held p)
        × (has_part (release zmq parts i).1 i ≡ ok false)
        × (length (release zmq parts i).1 ≡ length parts)
        × ((j : ℕ) → i ≢ j → get_elem? (release zmq parts i).1 j ≡ get_elem? parts j)
  unfolding release
  release_lem parts i p e lt =
      let left : Part Msg = (copy_construct zmq p).1 in
      let gone : held left ≡ [] = (copy_construct_transfers zmq laws p).1 in
      rw (e, release)
        (
          (copy_construct_transfers zmq laws p).0,
          lost parts i left (rw (get_elem?-set parts i i left lt) (ground arith)) gone,
          length-set parts i left,
          λ j ne. get_elem?-set parts i j left lt ∙ ground arith,
        )
    where
      lost :
          (parts : List (Part Msg)) (i : ℕ) (left : Part Msg)
          → get_elem? (set parts i left) i ≡ some left
          → held left ≡ []
          → has_part (set parts i left) i ≡ ok false
      lost parts i left found gone = unfold has_part in ground arith

  -- Past the end nothing is released: the part that is returned owns nothing.
  pub release_past_end :
      (parts : List (Part Msg)) (i : ℕ)
      → length parts ≤ i
      → (held (release zmq parts i).0 ≡ []) × ((release zmq parts i).1 ≡ parts)
  unfolding release make
  release_past_end parts i h = rw (get_elem?-ge parts i h, release) (refl, refl)
