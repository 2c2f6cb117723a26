-- ===== src/Part/Ownership.antt =====
-- Who owns the message after the calls of Part.hpp.
use zmqmessage.Base.{
  ◌≡◌, refl, sym, true, false, List, [], ◌∷◌, ◌++◌, append_assoc, arith, if◌then◌else◌,
}
use zmqmessage.Zmq.{MsgApi, IsMsgApi}
use zmqmessage.Part.{Part, move, copy, copy_construct, held, held_all}

module _ {Msg : Type 0} (zmq : MsgApi Msg) (ok : IsMsgApi zmq) where
  -- A move hands over whatever the source owned, and the source owns nothing afterwards: no message
  -- is duplicated, and none is lost but the one that the target held before.
  pub move_transfers :
      (dst src : Part Msg)
      → (held (move zmq dst src).0 ≡ held src) × (held (move zmq dst src).1 ≡ [])
  unfolding move
  move_transfers dst src = ground (arith, ok.move_takes dst.msg src.msg)

  -- A copy gives the target the message of an owning source; from a source that owns nothing the
  -- target keeps what it had.
  pub copy_shares :
      (dst src : Part Msg) → held (copy zmq dst src) ≡ (if src.valid then held src else held dst)
  unfolding copy
  copy_shares dst src = ground (arith, ok.copy_takes dst.msg src.msg)

  -- The copy constructor is a move.
  pub copy_construct_transfers :
      (src : Part Msg)
      → (held (copy_construct zmq src).0 ≡ held src) × (held (copy_construct zmq src).1 ≡ [])
  unfolding copy_construct move
  copy_construct_transfers src = ground (arith, ok.move_takes zmq.init src.msg)

  -- An owning source moves as a whole.
  pub move_valid :
      (dst src : Part Msg)
      → src.valid ≡ true
      → move zmq dst src ≡ (src, record { msg = zmq.init; valid = false })
  unfolding move
  move_valid dst src h =
      ground (arith, ok.move_takes dst.msg src.msg, ok.move_leaves dst.msg src.msg)

  pub valid-move : (dst src : Part Msg) → (move zmq dst src).0.valid ≡ src.valid
  unfolding move
  valid-move dst src = ground arith

  pub valid-copy_construct : (src : Part Msg) → (copy_construct zmq src).0.valid ≡ src.valid
  unfolding copy_construct move
  valid-copy_construct src = ground arith

  pub msg-copy_construct : (src : Part Msg) → src.valid ≡ true → (copy_construct zmq src).0 ≡ src
  unfolding copy_construct move
  msg-copy_construct src h = ground (arith, ok.move_takes zmq.init src.msg)

module _ {Msg : Type 0} where
  pub held_all-append : (ps qs : List (Part Msg)) → held_all (ps ++ qs) ≡ held_all ps ++ held_all qs
  held_all-append [] qs = refl
  held_all-append (p ∷ ps) qs =
      rw (held_all-append ps qs) (sym (append_assoc (held p) (held_all ps) (held_all qs)))
