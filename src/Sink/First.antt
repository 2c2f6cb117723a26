-- ===== src/Sink/First.antt =====
-- The first send of a message, which decides whether the sink sends, queues or drops.
use zmqmessage.Base.{
  ◌≡◌, refl, sym, ◌∙◌, ◌⊎◌, inl, inr, [], ◌∷◌, none, some, Bool, true, false, not, arith,
  Bool-cases, subst,
}
use zmqmessage.Zmq.{MsgApi, IsMsgApi, Dest, Result, ok, threw, zmq_error}
use zmqmessage.Part.{Part, held, held_all}
use zmqmessage.Options.{has_option, cache_on_block, drop_on_block, emulate_block_sends}
use zmqmessage.Storage.{DynamicPartsStorage, dynamic_make, dynamic_parts}
use zmqmessage.Sink.{
  Sink, State, init_queue_len, on_block, queue_cached, after_first, first_attempt,
  try_send_first_cached,
}
use zmqmessage.Sink.Trace.{wire, NonStrict, do_send_one_non_strict-NonStrict}
use zmqmessage.Sink.Queue.{IsQueue, add_to_queue_lem, dynamic_make-IsQueue, dynamic_make-held_all}
use zmqmessage.Sink.Run.{IsRunIn}

module _ {Msg : Type 0} where
  pub invalid_of_held : (p : Part Msg) → held p ≡ [] → p.valid ≡ false
  invalid_of_held p h = ground arith

  -- A sink that has one part cached and has sent nothing.
  pub record IsFirst (s : Sink Msg) : Type 0 where
    pub unsent : wire s.trace ≡ []
    pub no_queue : s.outgoing_queue ≡ none
    pub valid : s.cached.valid ≡ true

module _ {Msg : Type 0} (zmq : MsgApi Msg) (laws : IsMsgApi zmq) (dst : Dest Msg) where
  -- How the attempt to send the message `m` ends.
  abbrev pub First : Msg → Bool → Result Bool × Sink Msg → Type 0
  First m last (ok true, t) =
      (t.state ≡ State.sending)
      × (wire t.trace ≡ (m, not last) ∷ [])
      × (t.outgoing_queue ≡ none)
      × (t.cached.valid ≡ true)
  First m last (ok false, t) =
      (t.state ≡ State.queueing) × IsRunIn State.queueing (m ∷ []) t
      ⊎ (t.state ≡ State.dropping) × IsRunIn State.dropping (m ∷ []) t
  First m last (threw e, t) = (e ≡ zmq_error) × (wire t.trace ≡ [])

  queue_cached-First :
      (s : Sink Msg) (last : Bool) (q : DynamicPartsStorage Msg)
      → wire s.trace ≡ []
      → s.cached.valid ≡ true
      → s.state ≡ State.queueing
      → s.outgoing_queue ≡ some q
      → IsQueue q
      → q.size ≡ 0
      → held_all (dynamic_parts q) ≡ []
      → First s.cached.msg last (queue_cached zmq dst s)
  unfolding queue_cached
  queue_cached-First s last q unsent valid st e inv size empty =
      let (r, p', taken, contents, inv', size', left) =
        add_to_queue_lem zmq laws s s.cached q e inv (omega (arith, size)) in
      rw taken (
        inl (
          st,
          (
            unsent,
            invalid_of_held p' left,
            (inv', omega (arith, size, size'), rw (contents, empty, valid)),
          ),
        ))

  on_block-First :
      (s : Sink Msg) (last : Bool) → IsFirst s → First s.cached.msg last (on_block zmq dst s)
  unfolding on_block
  on_block-First s last f = elim (Bool-cases (has_option s.options cache_on_block)) [
    | inl c ↦
        rw (c, on_block)
          (queue_cached-First
            (record s {
              state = State.queueing;
              outgoing_queue = some (dynamic_make zmq init_queue_len);
            })
            last (dynamic_make zmq init_queue_len) f.unsent f.valid refl refl
            (dynamic_make-IsQueue zmq laws 10 (omega arith) (omega arith))
            (dynamic_make-held_all zmq laws 10).0 (dynamic_make-held_all zmq laws 10).1)
    | inr c ↦ elim (Bool-cases (has_option s.options drop_on_block)) [
      | inl d ↦ rw (c, d, on_block) (inr (refl, (f.unsent, f.no_queue)))
      | inr d ↦ rw (c, d, on_block) (refl, f.unsent)
    ]
  ]

  after_first-First :
      (s : Sink Msg) (last : Bool) (out : Result Bool × Sink Msg)
      → IsFirst s
      → NonStrict zmq dst s last out
      → First s.cached.msg last (after_first zmq dst out)
  unfolding after_first
  after_first-First s last (ok true, t) f n = (
    refl,
    rw (n.crosses, f.unsent) refl,
    n.rest.outgoing_queue ∙ f.no_queue,
    n.rest.valid ∙ f.valid,
  )
  after_first-First s last (ok false, t) f n =
      subst (λ m. First m last (on_block zmq dst t)) (n.leaves ∙ laws.block_keeps s.cached.msg)
        (on_block-First t last (record {
          unsent = rw (n.crosses, f.unsent) refl;
          no_queue = n.rest.outgoing_queue ∙ f.no_queue;
          valid = n.rest.valid ∙ f.valid;
        }))
  after_first-First s last (threw e, t) f (h, n) = (h, rw (n.crosses, f.unsent) refl)

  first_attempt-First :
      (s : Sink Msg) (last : Bool)
      → IsFirst s
      → First s.cached.msg last (first_attempt zmq dst s last)
  unfolding first_attempt
  first_attempt-First s last f = elim (Bool-cases (has_option s.options emulate_block_sends)) [
    | inl e ↦ rw (e, first_attempt, after_first) (on_block-First s last f)
    | inr e ↦
        rw (e, first_attempt)
          (after_first-First s last _ f (do_send_one_non_strict-NonStrict zmq dst s last))
  ]

  try_send_first_cached-eq :
      (s : Sink Msg) (last : Bool)
      → s.state ≡ State.not_sent
      → s.cached.valid ≡ true
      → try_send_first_cached zmq dst s last ≡ first_attempt zmq dst s last
  unfolding try_send_first_cached
  try_send_first_cached-eq s last st v = simp (st, v, try_send_first_cached)

  -- The attempt to send the first part, where nothing was sent and the part is cached, ends in one
  -- of four ways: the destination has the part and the sink sends on; the part, with no other, is
  -- in a new queue; it is to be dropped; or zmq::error_t is thrown. Only in the first case has
  -- anything crossed.
  pub try_send_first_cached-First :
      (s : Sink Msg) (last : Bool)
      → s.state ≡ State.not_sent
      → IsFirst s
      → First s.cached.msg last (try_send_first_cached zmq dst s last)
  try_send_first_cached-First s last st f =
      subst (First s.cached.msg last) (sym (try_send_first_cached-eq s last st f.valid))
        (first_attempt-First s last f)
