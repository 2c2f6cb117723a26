-- ===== src/Multipart/Send.antt =====
-- `send` of a Multipart, and the delayed sending of a detached queue.
use zmqmessage.Base.{
  ℕ, zero, suc, ◌≤◌, ◌<◌, ◌≡◌, refl, sym, ap, ◌∙◌, List, [], ◌∷◌, ◌++◌, some, Bool, true, false,
  not, map, arith, if◌then◌else◌, length, take, Bool-cases, append_assoc, append-nil, inl, inr,
  ◌==◌, bit_or, subst, ◌⊎◌, get_elem?,
}
use zmqmessage.Zmq.{
  MsgApi, Answer, accepted, would_block, failed, Event, on_send_part, on_flush, Dest, ok, threw,
  Error, Done, done, zmq_error, unexpected, zmq_sndmore, zmq_noblock,
}
use zmqmessage.Part.{Part, held_all, msgs, AllValid}
use zmqmessage.Options.{has_option}
use zmqmessage.Sink.Trace.{wire, wire-sends, crossed, more, frames, has_sndmore}
use zmqmessage.Sink.Delivery.{always_accepts}
use zmqmessage.Storage.{DynamicPartsStorage, dynamic_parts}
use zmqmessage.Storage.Access.{length-dynamic_parts}
use zmqmessage.Sink.Run.{Holds}
use zmqmessage.Multipart.{send, send_parts, send_part, sent_rest}

has_sndmore-flags :
    (nonblock last : Bool)
    → has_sndmore (bit_or (if nonblock then zmq_noblock else 0) (if last then 0 else zmq_sndmore))
      ≡ not last
unfolding has_option
has_sndmore-flags true true = refl
has_sndmore-flags true false = refl
has_sndmore-flags false true = refl
has_sndmore-flags false false = refl

wire-observed :
    {Msg : Type 0} (observer : Bool) (m : Msg) (t : List (Event Msg))
    → wire (if observer then on_send_part m ∷ t else t) ≡ wire t
wire-observed true m t = refl
wire-observed false m t = refl

wire-flushed :
    {Msg : Type 0} (observer : Bool) (t : List (Event Msg))
    → wire (if observer then on_flush ∷ t else t) ≡ wire t
wire-flushed true t = refl
wire-flushed false t = refl

suc-==-zero : (n : ℕ) → (suc n == 0) ≡ false
suc-==-zero n = ground arith

module _ {Msg : Type 0} (zmq : MsgApi Msg) (dst : Dest Msg) where
  send_part_lem :
      (nonblock last observer : Bool) (p : Part Msg) (trace : List (Event Msg))
      → let (a, q, t) = send_part zmq dst nonblock last observer p trace in
        wire t ≡ wire trace ++ crossed zmq dst a p.msg last
  unfolding send_part
  send_part_lem nonblock last observer p trace =
      let (a, q, t) = send_part zmq dst nonblock last observer p trace in
      wire-sends zmq dst p.msg _ a last _ (has_sndmore-flags nonblock last)
      ∙ ap (λ w. w ++ crossed zmq dst a p.msg last) (wire-observed observer p.msg trace)

  -- How `send` of some parts ends: it throws at the first part that does not cross, and ends in
  -- std::unexpected exactly where that one is not owned.
  abbrev pub Sent :
      List (Part Msg) → List (Event Msg) → Done × List (Part Msg) × List (Event Msg) → Type 0
  Sent parts trace (ok _, qs, t) = AllValid parts × (wire t ≡ wire trace ++ frames (msgs parts))
  Sent parts trace (threw e, qs, t) =
      (k : ℕ) × (k < length parts)
      × (wire t ≡ wire trace ++ map more (msgs (take k parts)))
      × AllValid (take k parts)
      × ((p : Part Msg) × (get_elem? parts k ≡ some p)
          × ((p.valid ≡ true) × (e ≡ zmq_error) ⊎ (p.valid ≡ false) × (e ≡ unexpected)))

  sent_rest-Sent :
      (p : Part Msg) (ps : List (Part Msg)) (trace : List (Event Msg))
      (out : Answer × Part Msg × List (Event Msg))
      (rest : List (Event Msg) → Done × List (Part Msg) × List (Event Msg))
      → p.valid ≡ true
      → wire out.2 ≡ wire trace ++ crossed zmq dst out.0 p.msg (length ps == 0)
      → ((t : List (Event Msg)) → Sent ps t (rest t))
      → Sent (p ∷ ps) trace (sent_rest zmq dst out ps rest)
  unfolding sent_rest
  sent_rest-Sent p ps trace (accepted, q, t) rest v w h = ended ps (rest t) w (h t)
    where
      ended :
          (ps : List (Part Msg)) (out : Done × List (Part Msg) × List (Event Msg))
          → wire t ≡ wire trace ++ (p.msg, not (length ps == 0)) ∷ []
          → Sent ps t out
          → Sent (p ∷ ps) trace (out.0, q ∷ out.1, out.2)
      ended [] (ok _, qs, u) w (vs, e) = ((v, vs), e ∙ append-nil (wire t) ∙ w)
      ended (r ∷ rs) (ok _, qs, u) w (vs, e) =
          let w' = w ∙ ap (λ b. wire trace ++ (p.msg, not b) ∷ []) (suc-==-zero (length rs)) in
          (
            (v, vs),
            e
                ∙ ap (λ x. x ++ frames (msgs (r ∷ rs))) w'
                ∙ append_assoc (wire trace) (more p.msg ∷ []) (frames (msgs (r ∷ rs))),
          )
      ended [] (threw e, qs, u) w (k, lt, c, vs, z) = elim lt [ ]
      ended (r ∷ rs) (threw e, qs, u) w (k, lt, c, vs, z) =
          let w' = w ∙ ap (λ b. wire trace ++ (p.msg, not b) ∷ []) (suc-==-zero (length rs)) in
          (
            suc k,
            omega arith,
            c
                ∙ ap (λ x. x ++ map more (msgs (take k (r ∷ rs)))) w'
                ∙ append_assoc (wire trace) (more p.msg ∷ []) (map more (msgs (take k (r ∷ rs)))),
            (v, vs),
            z,
          )
  sent_rest-Sent p ps trace (would_block, q, t) rest v w h =
      (zero, omega arith, w, tt, (p, refl, inl (v, refl)))
  sent_rest-Sent p ps trace (failed, q, t) rest v w h =
      (zero, omega arith, w, tt, (p, refl, inl (v, refl)))

  send_parts-Sent :
      (nonblock observer : Bool) (ps : List (Part Msg)) (trace : List (Event Msg))
      → Sent ps trace (send_parts zmq dst nonblock observer ps trace)
  unfolding send_parts
  send_parts-Sent nonblock observer [] trace =
      (tt, wire-flushed observer trace ∙ sym (append-nil (wire trace)))
  send_parts-Sent nonblock observer (p ∷ ps) trace = elim (Bool-cases p.valid) [
    | inl v ↦ subst (Sent (p ∷ ps) trace) (sym (sends_it v)) (
        sent_rest-Sent p ps trace _ _ v (send_part_lem nonblock (length ps == 0) observer p trace)
          (λ t. send_parts-Sent nonblock observer ps t))
    | inr v ↦
        subst (Sent (p ∷ ps) trace) (sym (stops v))
          (zero, omega arith, sym (append-nil (wire trace)), tt, (p, refl, inr (v, refl)))
  ]
    where
      sends_it :
          p.valid ≡ true
          → send_parts zmq dst nonblock observer (p ∷ ps) trace
            ≡ sent_rest zmq dst
                (send_part zmq dst nonblock (length ps == 0) observer p trace)
                ps
                (send_parts zmq dst nonblock observer ps)
      sends_it v = simp (v, send_parts)

      stops :
          p.valid ≡ false
          → send_parts zmq dst nonblock observer (p ∷ ps) trace ≡ (threw unexpected, p ∷ ps, trace)
      stops v = simp (v, send_parts)

  -- Sending a multipart message: if `send` returns, every part was owned and the wire has them all,
  -- in order, as one whole multipart message; otherwise only some of the first parts have crossed,
  -- all owned, in order and each with ZMQ_SNDMORE, and the call throws zmq::error_t if the next
  -- part is owned and ends in std::unexpected if it is not.
  pub send-Sent :
      (trace : List (Event Msg)) (parts : List (Part Msg)) (nonblock observer : Bool)
      → Sent parts trace (send zmq dst trace parts nonblock observer)
  unfolding send
  send-Sent trace parts nonblock observer = send_parts-Sent nonblock observer parts trace

module _ {Msg : Type 0} where
  length-held_all-le : (ps : List (Part Msg)) → length (held_all ps) ≤ length ps
  length-held_all-le [] = omega arith
  length-held_all-le (p ∷ ps) = elim (Bool-cases p.valid) [
    | inl v ↦ simp v (omega (arith, length-held_all-le ps))
    | inr v ↦ simp v (omega (arith, length-held_all-le ps))
  ]

  -- Parts that hold as many messages as there are parts are all owned.
  AllValid-of_held :
      (ps : List (Part Msg))
      → length (held_all ps) ≡ length ps
      → AllValid ps × (msgs ps ≡ held_all ps)
  AllValid-of_held [] l = (tt, refl)
  AllValid-of_held (p ∷ ps) l = elim (Bool-cases p.valid) [
    | inl v ↦ let rest = AllValid-of_held ps (full v) in ((v, rest.0), simp (v, rest.1))
    | inr v ↦ absurd (omega (arith, lost v, length-held_all-le ps))
  ]
    where
      full : p.valid ≡ true → length (held_all ps) ≡ length ps
      full v = omega (
        arith,
        subst (λ b. length ((if b then p.msg ∷ [] else []) ++ held_all ps) ≡ suc (length ps)) v l,
      )

      lost : p.valid ≡ false → length (held_all ps) ≡ suc (length ps)
      lost v =
          subst (λ b. length ((if b then p.msg ∷ [] else []) ++ held_all ps) ≡ suc (length ps)) v l

module _ {Msg : Type 0} (zmq : MsgApi Msg) where
  send_parts_accepted :
      (nonblock observer : Bool) (ps : List (Part Msg)) (trace : List (Event Msg))
      → AllValid ps
      → (send_parts zmq always_accepts nonblock observer ps trace).0 ≡ done
  unfolding send_parts
  send_parts_accepted nonblock observer [] trace v = refl
  send_parts_accepted nonblock observer (p ∷ ps) trace (v, vs) =
      simp (v, send_parts) (send_parts_accepted nonblock observer ps _ vs)

  -- Delayed sending: the queue of a sink that has taken `ms` and queued them, sent later to a
  -- destination that accepts every part, returns with no exception, and adds exactly the messages
  -- `ms` to the wire, in order, as one whole multipart message.
  pub send_queue_whole :
      (q : DynamicPartsStorage Msg) (ms : List Msg) (trace : List (Event Msg))
      (nonblock observer : Bool)
      → Holds ms (some q)
      → let (r, qs, t) = send zmq always_accepts trace (dynamic_parts q) nonblock observer in
        (r ≡ done) × (wire t ≡ wire trace ++ frames ms)
  unfolding send
  send_queue_whole q ms trace nonblock observer (inv, size, h) =
      whole (send_parts zmq always_accepts nonblock observer ps trace)
        (send_parts_accepted nonblock observer ps trace valid.0)
        (send_parts-Sent zmq always_accepts nonblock observer ps trace)
    where
      ps : List (Part Msg)
      ps = dynamic_parts q

      valid : AllValid ps × (msgs ps ≡ held_all ps)
      valid =
          AllValid-of_held ps (ap length h ∙ sym size ∙ sym (length-dynamic_parts q inv.storage))

      whole :
          (out : Done × List (Part Msg) × List (Event Msg))
          → out.0 ≡ done
          → Sent zmq always_accepts ps trace out
          → (out.0 ≡ done) × (wire out.2 ≡ wire trace ++ frames ms)
      whole (ok _, qs, t) d (vs, w) = (d, w ∙ ap (λ ns. wire trace ++ frames ns) (valid.1 ∙ h))
      whole (threw e, qs, t) d s = cc

-- The parts of a queue that holds `ms` are the messages `ms`.
pub msgs-Holds :
    {Msg : Type 0} (q : DynamicPartsStorage Msg) (ms : List Msg)
    → Holds ms (some q)
    → msgs (dynamic_parts q) ≡ ms
msgs-Holds q ms (inv, size, h) =
    (AllValid-of_held (dynamic_parts q)
      (ap length h ∙ sym size ∙ sym (length-dynamic_parts q inv.storage))).1
    ∙ h

valid-at :
    {Msg : Type 0} (ps : List (Part Msg)) (k : ℕ) (p : Part Msg)
    → AllValid ps
    → get_elem? ps k ≡ some p
    → p.valid ≡ true
valid-at [] k p v e = cc
valid-at (q ∷ ps) zero p v e =
    let same : q ≡ p = cc in subst (λ (x : Part _). x.valid ≡ true) same v.0
valid-at (q ∷ ps) (suc k) p v e = valid-at ps k p v.1 e

-- Where all parts are owned, `send` throws no other exception.
pub Sent-zmq_error :
    {Msg : Type 0} (zmq : MsgApi Msg) (dst : Dest Msg) (ps : List (Part Msg)) (e : Error)
    (qs : List (Part Msg)) (trace t : List (Event Msg))
    → AllValid ps
    → Sent zmq dst ps trace (threw e, qs, t)
    → e ≡ zmq_error
Sent-zmq_error zmq dst ps e qs trace t v (k, lt, w, vs, (p, at, inl (h, z))) = z
Sent-zmq_error zmq dst ps e qs trace t v (k, lt, w, vs, (p, at, inr (h, z))) =
    let owned : p.valid ≡ true = valid-at ps k p v at in cc

-- The parts of a queue are owned.
pub AllValid-Holds :
    {Msg : Type 0} (q : DynamicPartsStorage Msg) (ms : List Msg)
    → Holds ms (some q)
    → AllValid (dynamic_parts q)
AllValid-Holds q ms (inv, size, h) =
    (AllValid-of_held (dynamic_parts q)
      (ap length h ∙ sym size ∙ sym (length-dynamic_parts q inv.storage))).0
