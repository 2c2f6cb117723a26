-- ===== src/Tools/Relay.antt =====
-- `relay_raw`: a message from one socket to another.
use zmqmessage.Base.{
  ℕ, zero, suc, ◌+◌, ◌^◌, lt→ltb, ◌<◌, ◌≡◌, refl, sym, ap, ◌∙◌, ◌⊎◌, inl, inr, List, [], ◌∷◌, ◌++◌,
  Option, none, some, Bool, true, false, map, arith, length, take, append_assoc, append-nil,
}
use zmqmessage.Zmq.{
  Answer, accepted, would_block, failed, MsgApi, Event, sends, Dest, zmq_sndmore, Source, Result,
  ok, threw, zmq_error,
}
use zmqmessage.Options.{has_option}
use zmqmessage.Sink.Trace.{wire, more, frames}
use zmqmessage.Incoming.Counting.{Comes}
use zmqmessage.Tools.{relay_raw, raw_loop, raw_sent, raw_part, counted, has_more}

module _ {Msg : Type 0} (zmq : MsgApi Msg) (src : Source Msg) (dst : Dest Msg) where
  -- How the relaying of `ms` ends, where `n` parts were relayed before.
  abbrev pub Relayed :
      ℕ → List Msg → List (Event Msg) → ℕ → Option (Result ℕ × List (Event Msg) × ℕ) → Type 0
  Relayed n ms trace c none = ⊥
  Relayed n ms trace c (some (ok k, t, c')) =
      (k ≡ n + length ms) × (c' ≡ c + length ms) × (wire t ≡ wire trace ++ frames ms)
  Relayed n ms trace c (some (threw e, t, c')) =
      (e ≡ zmq_error) × ((k : ℕ) × (k < length ms) × (wire t ≡ wire trace ++ map more (take k ms)))

  counted_lem :
      (n c : ℕ) (trace : List (Event Msg)) (rest : ℕ → Option (Result ℕ × List (Event Msg) × ℕ))
      → n + 1 < 2 ^ 31
      → counted zmq src dst n trace c rest ≡ rest (n + 1)
  unfolding counted
  counted_lem n c trace rest h = simp (lt→ltb (n + 1) (2 ^ 31) h)

  raw_last :
      (n c fuel : ℕ) (m : Msg) (trace : List (Event Msg)) (answer : Answer)
      → n + 1 < 2 ^ 31
      → Relayed n (m ∷ []) trace c (
          raw_sent zmq src dst answer (sends m 0 answer ∷ trace) (c + 1) (λ t.
            counted zmq src dst n t
              (c + 1)
              (λ k. raw_loop zmq src dst (suc fuel) false k t (c + 1))))
  unfolding raw_sent raw_loop has_option
  raw_last n c fuel m trace accepted h =
      rw
        (counted_lem n (c + 1) (sends m 0 accepted ∷ trace)
          (λ k. raw_loop zmq src dst (suc fuel) false k (sends m 0 accepted ∷ trace) (c + 1)) h)
        (refl, refl, refl)
  raw_last n c fuel m trace would_block h =
      (refl, (zero, omega arith, sym (append-nil (wire trace))))
  raw_last n c fuel m trace failed h = (refl, (zero, omega arith, sym (append-nil (wire trace))))

  raw_next :
      (n c : ℕ) (m o : Msg) (ms : List Msg) (trace t : List (Event Msg))
      (out : Option (Result ℕ × List (Event Msg) × ℕ))
      → wire t ≡ wire trace ++ more m ∷ []
      → Relayed (n + 1) (o ∷ ms) t (c + 1) out
      → Relayed n (m ∷ o ∷ ms) trace c out
  raw_next n c m o ms trace t none w h = h
  raw_next n c m o ms trace t (some (ok k, u, c')) w (a, b, e) = (
    omega (arith, a),
    omega (arith, b),
    e
        ∙ ap (λ v. v ++ frames (o ∷ ms)) w
        ∙ append_assoc (wire trace) (more m ∷ []) (frames (o ∷ ms)),
  )
  raw_next n c m o ms trace t (some (threw x, u, c')) w (a, (k, lt, e)) = (
    a,
    (
      suc k,
      omega arith,
      e
          ∙ ap (λ v. v ++ map more (take k (o ∷ ms))) w
          ∙ append_assoc (wire trace) (more m ∷ []) (map more (take k (o ∷ ms))),
    ),
  )

  raw_more :
      (n c : ℕ) (m o : Msg) (ms : List Msg) (trace : List (Event Msg)) (answer : Answer)
      (rest : List (Event Msg) → Option (Result ℕ × List (Event Msg) × ℕ))
      → ((t : List (Event Msg)) → Relayed (n + 1) (o ∷ ms) t (c + 1) (rest t))
      → Relayed n
          (m ∷ o ∷ ms)
          trace
          c
          (raw_sent zmq src dst answer (sends m zmq_sndmore answer ∷ trace) (c + 1) rest)
  unfolding raw_sent has_option
  raw_more n c m o ms trace accepted rest h =
      raw_next n c m o ms trace (sends m zmq_sndmore accepted ∷ trace) _ refl (h _)
  raw_more n c m o ms trace would_block rest h =
      (refl, (zero, omega arith, sym (append-nil (wire trace))))
  raw_more n c m o ms trace failed rest h =
      (refl, (zero, omega arith, sym (append-nil (wire trace))))

  raw_loop-Relayed :
      (fuel n : ℕ) (ms : List Msg) (trace : List (Event Msg)) (c : ℕ)
      → length ms < fuel
      → n + length ms < 2 ^ 31
      → Comes src c ms
      → Relayed n ms trace c (raw_loop zmq src dst fuel true n trace c)
  unfolding raw_loop raw_part has_more
  raw_loop-Relayed fuel n [] trace c f b h = absurd h
  raw_loop-Relayed zero n (m ∷ ms) trace c f b h = elim f [ ]
  raw_loop-Relayed (suc zero) n (m ∷ ms) trace c f b h = absurd (omega arith)
  raw_loop-Relayed (suc (suc fuel)) n (m ∷ []) trace c f b (e, stop) =
      rw (e, stop) (raw_last n c fuel m trace (dst trace m 0) (omega arith))
  raw_loop-Relayed (suc (suc fuel)) n (m ∷ o ∷ ms) trace c f b (e, go, h) =
      rw (e, go)
        (raw_more n c m o ms trace (dst trace m zmq_sndmore) _ (λ t.
          rw
            (counted_lem n (c + 1) t (λ k. raw_loop zmq src dst (suc fuel) true k t (c + 1))
              (omega arith))
            (raw_loop-Relayed (suc fuel) (n + 1) (o ∷ ms) t (c + 1) (omega arith) (omega arith) h)))

  -- Relaying where a multipart message `ms` comes (and, with check_first_part set, is already known
  -- to have parts), with fewer than 2 ^ 31 parts, ends with fuel for one round more than it has
  -- parts: it returns the number of its parts, one call of recv was made for each, and the
  -- destination has got them in order as one whole multipart message; or zmq::error_t is thrown,
  -- and only some of the first parts have crossed, in order and each with ZMQ_SNDMORE.
  pub relay_raw-Relayed :
      (fuel : ℕ) (check_first_part : Bool) (ms : List Msg) (trace : List (Event Msg)) (c : ℕ)
      → length ms < fuel
      → length ms < 2 ^ 31
      → (check_first_part ≡ false) ⊎ (src.rcvmore c ≡ true)
      → Comes src c ms
      → Relayed 0 ms trace c (relay_raw zmq src dst fuel check_first_part trace c)
  unfolding relay_raw has_more
  relay_raw-Relayed fuel check ms trace c f l (inl b) h =
      rw b (raw_loop-Relayed fuel 0 ms trace c f (omega arith) h)
  relay_raw-Relayed fuel true ms trace c f l (inr b) h =
      rw b (raw_loop-Relayed fuel 0 ms trace c f (omega arith) h)
  relay_raw-Relayed fuel false ms trace c f l (inr b) h =
      raw_loop-Relayed fuel 0 ms trace c f (omega arith) h
