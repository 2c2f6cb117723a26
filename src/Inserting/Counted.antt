-- ===== src/Inserting/Counted.antt =====
-- `relay_from` with an accumulator of sizes and a receive observer (Sink.hpp, with its body in
-- ZmqMessageTemplateImpl.hpp).
use zmqmessage.Base.{
  ℕ, zero, suc, ◌+◌, ◌^◌, ◌≤◌, ◌<◌, ◌≡◌, refl, sym, ap, ◌∙◌, List, [], ◌∷◌, ◌++◌, Option, none,
  some, Bool, true, false, if◌then◌else◌, arith, length, map, append_assoc, append-nil, subst,
  Bool-cases, inl, inr, length-append,
}
use zmqmessage.Zmq.{
  MsgApi, IsMsgApi, Dest, Source, arrives, Result, ok, threw, Done, done, zmq_error,
}
use zmqmessage.Part.{Part}
use zmqmessage.Tools.{recv_msg, recv_msg-arrives, has_more}
use zmqmessage.Sink.{Sink, send_owned}
use zmqmessage.Sink.Trace.{frames}
use zmqmessage.Sink.Run.{IsRun}
use zmqmessage.Sink.Insert.{Step, send_owned-Step}
use zmqmessage.Incoming.Counting.{Comes}

-- What the receive observer has been told and what the accumulator was called with, the earliest
-- first.
pub record Tally (Msg : Type 0) : Type 0 where
  pub told : List (Msg × Bool)
  pub sizes : List ℕ

abbrev pub Relay : Type 0 → Type 0
Relay Msg = Option (Done × Sink Msg × ℕ × Tally Msg)

module _ {Msg : Type 0} (zmq : MsgApi Msg) (dst : Dest Msg) (observer : Bool) where
  -- The calls of the observer and of the accumulator for a part.
  pub note : Msg → Bool → Tally Msg → Tally Msg
  note m more k = record {
    told = if observer then k.told ++ (m, more) ∷ [] else k.told;
    sizes = k.sizes ++ length (zmq.bytes m) ∷ [];
  }

  counted_sent : Done × Sink Msg × Part Msg → (Sink Msg → Relay Msg) → ℕ → Tally Msg → Relay Msg
  counted_sent (ok _, s, p) rest calls k = rest s
  counted_sent (threw e, s, p) rest calls k = some (threw e, s, calls, k)

  counted_part :
      Source Msg
      → Result Msg × ℕ
      → Sink Msg
      → Tally Msg
      → (ℕ → Sink Msg → Tally Msg → Relay Msg)
      → Relay Msg
  unfolding counted_sent note
  counted_part src (ok m, calls) s k rest =
      let k' = note m (has_more src calls) k in
      counted_sent (send_owned zmq dst s (record { msg = m; valid = true })) (λ t. rest calls t k')
        calls k'
  counted_part src (threw e, calls) s k rest = some (threw e, s, calls, k)

  -- The loop, with fuel.
  counted_loop : Source Msg → ℕ → Bool → ℕ → Sink Msg → Tally Msg → Relay Msg
  unfolding counted_part
  counted_loop src zero more calls s k = none
  counted_loop src (suc fuel) more calls s k =
      let rest = counted_loop src fuel in
      if more
      then counted_part src (recv_msg src calls) s k
          (λ calls' t k'. rest (has_more src calls') calls' t k')
      else some (done, s, calls, k)

  -- `relay_from(relay_src, acc, receive_observer)`
  pub relay_from_counted : Source Msg → ℕ → ℕ → Sink Msg → Tally Msg → Relay Msg
  unfolding counted_loop
  relay_from_counted src fuel calls s k = counted_loop src fuel (has_more src calls) calls s k

module _ {Msg : Type 0} (zmq : MsgApi Msg) (laws : IsMsgApi zmq) (dst : Dest Msg) (observer : Bool)
    (src : Source Msg) where
  abbrev pub sizes_of : List Msg → List ℕ
  sizes_of = map λ m. length (zmq.bytes m)

  -- What the observer is told of `ms`.
  abbrev pub news : List Msg → List (Msg × Bool)
  news ms = if observer then frames ms else []

  -- How the relaying of `ms` into a sink that has taken `ns` ends.
  abbrev pub CountedInto : List Msg → List Msg → ℕ → Tally Msg → Relay Msg → Type 0
  CountedInto ns ms c k none = ⊥
  CountedInto ns ms c k (some (ok _, t, c', k')) =
      IsRun (ns ++ ms) t
      × (c' ≡ c + length ms)
      × (k'.told ≡ k.told ++ news ms)
      × (k'.sizes ≡ k.sizes ++ sizes_of ms)
  CountedInto ns ms c k (some (threw e, t, c', k')) = e ≡ zmq_error

  part_of : Msg → Part Msg
  part_of m = record { msg = m; valid = true }

  sent_on :
      (ns ms : List Msg) (c calls : ℕ) (s : Sink Msg) (p : Part Msg) (k0 k : Tally Msg)
      (out : Done × Sink Msg × Part Msg) (rest : Sink Msg → Relay Msg)
      → Step ns s p out
      → ((t : Sink Msg) → IsRun (ns ++ p.msg ∷ []) t → CountedInto ns ms c k0 (rest t))
      → CountedInto ns ms c k0 (counted_sent zmq dst observer out rest calls k)
  unfolding counted_sent
  sent_on ns ms c calls s p k0 k (ok _, t, p') rest h next = next t h.0
  sent_on ns ms c calls s p k0 k (threw e, t, p') rest h next = h.0

  -- One round of the loop, and its end.
  round :
      (fuel c : ℕ) (s : Sink Msg) (k : Tally Msg) (m : Msg) (b : Bool)
      → src.recv c ≡ arrives m
      → src.rcvmore (c + 1) ≡ b
      → counted_loop zmq dst observer src (suc fuel) true c s k
        ≡ counted_sent zmq dst observer
            (send_owned zmq dst s (part_of m))
            (λ t. counted_loop zmq dst observer src fuel b (c + 1) t (note zmq dst observer m b k))
            (c + 1)
            (note zmq dst observer m b k)
  unfolding counted_loop counted_part has_more part_of
  round fuel c s k m b e r =
      ap
        (λ w.
          counted_part zmq dst observer src w s k
            (λ c' t k'. counted_loop zmq dst observer src fuel (src.rcvmore c') c' t k'))
        (recv_msg-arrives src c m e)
      ∙ ap
          (λ x.
            counted_sent zmq dst observer (send_owned zmq dst s (part_of m))
              (λ t.
                counted_loop zmq dst observer src fuel x (c + 1) t (note zmq dst observer m x k))
              (c + 1) (note zmq dst observer m x k))
          r

  relay_stop :
      (fuel c : ℕ) (s : Sink Msg) (k : Tally Msg)
      → counted_loop zmq dst observer src (suc fuel) false c s k ≡ some (done, s, c, k)
  unfolding counted_loop
  relay_stop fuel c s k = refl

  -- A part that is noted before the others.
  told_first :
      (m : Msg) (b : Bool) (k : Tally Msg) (ms : List Msg)
      → frames (m ∷ ms) ≡ (m, b) ∷ frames ms
      → (note zmq dst observer m b k).told ++ news ms ≡ k.told ++ news (m ∷ ms)
  unfolding note
  told_first m b k ms e = elim (Bool-cases observer) [
    | inl o ↦ simp o (append_assoc k.told ((m, b) ∷ []) (frames ms) ∙ ap (λ v. k.told ++ v) (sym e))
    | inr o ↦ simp o
  ]

  no_news : (k : Tally Msg) → k.told ≡ k.told ++ news []
  no_news k = elim (Bool-cases observer) [
    | inl o ↦ simp o (sym (append-nil k.told))
    | inr o ↦ simp o (sym (append-nil k.told))
  ]

  one_more :
      (ns : List Msg) (m : Msg) (b : Bool) (ms : List Msg) (c : ℕ) (k : Tally Msg) (out : Relay Msg)
      → frames (m ∷ ms) ≡ (m, b) ∷ frames ms
      → CountedInto (ns ++ m ∷ []) ms (c + 1) (note zmq dst observer m b k) out
      → CountedInto ns (m ∷ ms) c k out
  unfolding note
  one_more ns m b ms c k none e h = h
  one_more ns m b ms c k (some (ok _, t, c', k')) e (run, n, told, sizes) = (
    subst (λ ks. IsRun ks t) (append_assoc ns (m ∷ []) ms) run,
    omega (arith, n),
    told ∙ told_first m b k ms e,
    sizes ∙ append_assoc k.sizes (length (zmq.bytes m) ∷ []) (sizes_of ms),
  )
  one_more ns m b ms c k (some (threw z, t, c', k')) e h = h

  counted_loop-CountedInto :
      (fuel : ℕ) (ns ms : List Msg) (c : ℕ) (s : Sink Msg) (k : Tally Msg)
      → length ms < fuel
      → length ns + length ms ≤ 2 ^ 61
      → Comes src c ms
      → IsRun ns s
      → CountedInto ns ms c k (counted_loop zmq dst observer src fuel true c s k)
  unfolding part_of
  counted_loop-CountedInto fuel ns [] c s k f small h run = absurd h
  counted_loop-CountedInto zero ns (m ∷ ms) c s k f small h run = elim f [ ]
  counted_loop-CountedInto (suc zero) ns (m ∷ ms) c s k f small h run = absurd (omega arith)
  counted_loop-CountedInto (suc (suc fuel)) ns (m ∷ []) c s k f small (e, stop) run =
      subst (CountedInto ns (m ∷ []) c k) (sym (round (suc fuel) c s k m false e stop)) (
        sent_on ns (m ∷ []) c (c + 1) s (part_of m) k _ _ _
          (send_owned-Step zmq laws dst ns s (part_of m) refl (omega arith) run)
          (λ t r. one_more ns m false [] c k _ refl (
            subst (CountedInto (ns ++ m ∷ []) [] (c + 1) (note zmq dst observer m false k))
              (sym (relay_stop fuel (c + 1) t (note zmq dst observer m false k)))
              (
                subst (λ ks. IsRun ks t) (sym (append-nil (ns ++ m ∷ []))) r,
                omega arith,
                no_news (note zmq dst observer m false k),
                sym (append-nil (note zmq dst observer m false k).sizes),
              ))))
  counted_loop-CountedInto (suc (suc fuel)) ns (m ∷ o ∷ ms) c s k f small (e, go, h) run =
      subst (CountedInto ns (m ∷ o ∷ ms) c k) (sym (round (suc fuel) c s k m true e go)) (
        sent_on ns (m ∷ o ∷ ms) c (c + 1) s (part_of m) k _ _ _
          (send_owned-Step zmq laws dst ns s (part_of m) refl (omega arith) run)
          (λ t r. one_more ns m true (o ∷ ms) c k _ refl (
            counted_loop-CountedInto (suc fuel) (ns ++ m ∷ []) (o ∷ ms) (c + 1) t
              (note zmq dst observer m true k) (omega arith)
              (omega (arith, length-append {0} ns (m ∷ []))) h r)))

  -- relay_from with an accumulator, into a sink that has taken `ns`, where a multipart message `ms`
  -- comes and is known to have parts, ends with fuel for one round more than it has parts, if the
  -- two have at most 2 ^ 61 parts: it returns, the sink has taken `ms` in order behind `ns`, one
  -- call of recv was made for each part, the receive observer, if there is one, has been told of
  -- each part and whether more follow, and the accumulator was called with the size of each, in
  -- order; or zmq::error_t is thrown.
  pub relay_from_counted-CountedInto :
      (fuel : ℕ) (ns ms : List Msg) (c : ℕ) (s : Sink Msg) (k : Tally Msg)
      → length ms < fuel
      → length ns + length ms ≤ 2 ^ 61
      → src.rcvmore c ≡ true
      → Comes src c ms
      → IsRun ns s
      → CountedInto ns ms c k (relay_from_counted zmq dst observer src fuel c s k)
  unfolding relay_from_counted has_more
  relay_from_counted-CountedInto fuel ns ms c s k f small b h run =
      rw b (counted_loop-CountedInto fuel ns ms c s k f small h run)
