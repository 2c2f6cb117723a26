-- ===== src/Inserting/Relaying.antt =====
-- `relay_from`: a message from a socket into a sink.
use zmqmessage.Base.{
  ℕ, zero, suc, ◌+◌, ◌^◌, ◌≤◌, ◌<◌, ◌≡◌, refl, sym, ap, ◌∙◌, List, [], ◌∷◌, ◌++◌, Option, none,
  some, Bool, true, false, arith, length, append_assoc, subst, length-append,
}
use zmqmessage.Zmq.{
  MsgApi, IsMsgApi, Dest, Source, arrives, Result, ok, threw, Done, done, zmq_error,
}
use zmqmessage.Part.{Part}
use zmqmessage.Tools.{recv_msg, recv_msg-arrives, has_more}
use zmqmessage.Sink.{Sink, send_owned}
use zmqmessage.Sink.Run.{IsRun}
use zmqmessage.Sink.Insert.{Step, send_owned-Step}
use zmqmessage.Incoming.Counting.{Comes}
use zmqmessage.Inserting.{relay_from, relay_loop, relay_received, relayed}

module _ {Msg : Type 0} (zmq : MsgApi Msg) (laws : IsMsgApi zmq) (dst : Dest Msg)
    (src : Source Msg) where
  -- How the relaying of `ms` into a sink that has taken `ns` ends.
  abbrev pub RelayedInto : List Msg → List Msg → ℕ → Option (Done × Sink Msg × ℕ) → Type 0
  RelayedInto ns ms c none = ⊥
  RelayedInto ns ms c (some (ok _, t, c')) = IsRun (ns ++ ms) t × (c' ≡ c + length ms)
  RelayedInto ns ms c (some (threw e, t, c')) = e ≡ zmq_error

  one_more :
      (ns : List Msg) (m : Msg) (ms : List Msg) (c : ℕ) (out : Option (Done × Sink Msg × ℕ))
      → RelayedInto (ns ++ m ∷ []) ms (c + 1) out
      → RelayedInto ns (m ∷ ms) c out
  one_more ns m ms c none h = h
  one_more ns m ms c (some (ok _, t, c')) (run, n) =
      (subst (λ ks. IsRun ks t) (append_assoc ns (m ∷ []) ms) run, omega (arith, n))
  one_more ns m ms c (some (threw e, t, c')) h = h

  sent_on :
      (ns ms : List Msg) (c calls : ℕ) (s : Sink Msg) (p : Part Msg)
      (out : Done × Sink Msg × Part Msg) (rest : Sink Msg → Option (Done × Sink Msg × ℕ))
      → Step ns s p out
      → ((t : Sink Msg) → IsRun (ns ++ p.msg ∷ []) t → RelayedInto ns ms c (rest t))
      → RelayedInto ns ms c (relayed zmq dst out rest calls)
  unfolding relayed
  sent_on ns ms c calls s p (ok _, t, p') rest h k = k t h.0
  sent_on ns ms c calls s p (threw e, t, p') rest h k = h.0

  part_of : Msg → Part Msg
  part_of m = record { msg = m; valid = true }

  -- One round of the loop, and its end.
  round :
      (fuel c : ℕ) (s : Sink Msg) (m : Msg) (b : Bool)
      → src.recv c ≡ arrives m
      → src.rcvmore (c + 1) ≡ b
      → relay_loop zmq dst src (suc fuel) true c s
        ≡ relayed zmq dst
            (send_owned zmq dst s (part_of m))
            (λ t. relay_loop zmq dst src fuel b (c + 1) t)
            (c + 1)
  unfolding relay_loop relay_received has_more part_of
  round fuel c s m b e r =
      ap
        (λ w.
          relay_received zmq dst w s (λ c' t. relay_loop zmq dst src fuel (src.rcvmore c') c' t))
        (recv_msg-arrives src c m e)
      ∙ ap
          (λ x.
            relayed zmq dst (send_owned zmq dst s (part_of m))
              (λ t. relay_loop zmq dst src fuel x (c + 1) t) (c + 1))
          r

  relay_stop :
      (fuel c : ℕ) (s : Sink Msg) → relay_loop zmq dst src (suc fuel) false c s ≡ some (done, s, c)
  unfolding relay_loop
  relay_stop fuel c s = refl

  relay_loop-RelayedInto :
      (fuel : ℕ) (ns ms : List Msg) (c : ℕ) (s : Sink Msg)
      → length ms < fuel
      → length ns + length ms ≤ 2 ^ 61
      → Comes src c ms
      → IsRun ns s
      → RelayedInto ns ms c (relay_loop zmq dst src fuel true c s)
  unfolding part_of
  relay_loop-RelayedInto fuel ns [] c s f small h run = absurd h
  relay_loop-RelayedInto zero ns (m ∷ ms) c s f small h run = elim f [ ]
  relay_loop-RelayedInto (suc zero) ns (m ∷ ms) c s f small h run = absurd (omega arith)
  relay_loop-RelayedInto (suc (suc fuel)) ns (m ∷ []) c s f small (e, stop) run =
      subst (RelayedInto ns (m ∷ []) c) (sym (round (suc fuel) c s m false e stop)) (
        sent_on ns (m ∷ []) c (c + 1) s (part_of m) _ _
          (send_owned-Step zmq laws dst ns s (part_of m) refl (omega arith) run)
          (λ t k. subst (RelayedInto ns (m ∷ []) c) (sym (relay_stop fuel (c + 1) t)) (k, refl)))
  relay_loop-RelayedInto (suc (suc fuel)) ns (m ∷ o ∷ ms) c s f small (e, go, h) run =
      subst (RelayedInto ns (m ∷ o ∷ ms) c) (sym (round (suc fuel) c s m true e go)) (
        sent_on ns (m ∷ o ∷ ms) c (c + 1) s (part_of m) _ _
          (send_owned-Step zmq laws dst ns s (part_of m) refl (omega arith) run)
          (λ t k. one_more ns m (o ∷ ms) c _ (
            relay_loop-RelayedInto (suc fuel) (ns ++ m ∷ []) (o ∷ ms) (c + 1) t (omega arith)
              (omega (arith, length-append {0} ns (m ∷ []))) h k)))

  -- Relaying into a sink that has taken `ns`, where a multipart message `ms` comes and is known to
  -- have parts, ends with fuel for one round more than it has parts, if the two have at most 2 ^ 61
  -- parts: it returns, the sink has taken `ms` in order behind `ns`, and one call of recv was made
  -- for each part; or zmq::error_t is thrown.
  pub relay_from-RelayedInto :
      (fuel : ℕ) (ns ms : List Msg) (c : ℕ) (s : Sink Msg)
      → length ms < fuel
      → length ns + length ms ≤ 2 ^ 61
      → src.rcvmore c ≡ true
      → Comes src c ms
      → IsRun ns s
      → RelayedInto ns ms c (relay_from zmq dst src fuel c s)
  unfolding relay_from has_more
  relay_from-RelayedInto fuel ns ms c s f small b h run =
      rw b (relay_loop-RelayedInto fuel ns ms c s f small h run)

  -- What every insertion keeps, relaying keeps.
  abbrev pub Keeps : (Sink Msg → Type 0) → Option (Done × Sink Msg × ℕ) → Type 0
  Keeps P none = Unit
  Keeps P (some (r, t, c)) = P t

  relayed-Keeps :
      (P : Sink Msg → Type 0) (out : Done × Sink Msg × Part Msg)
      (rest : Sink Msg → Option (Done × Sink Msg × ℕ)) (calls : ℕ)
      → P out.1
      → ((t : Sink Msg) → P t → Keeps P (rest t))
      → Keeps P (relayed zmq dst out rest calls)
  unfolding relayed
  relayed-Keeps P (ok _, t, p) rest calls h k = k t h
  relayed-Keeps P (threw e, t, p) rest calls h k = h

  received-Keeps :
      (P : Sink Msg → Type 0)
      → ((s : Sink Msg) (p : Part Msg) → P s → P (send_owned zmq dst s p).1)
      → (r : Result Msg × ℕ) (s : Sink Msg) (rest : ℕ → Sink Msg → Option (Done × Sink Msg × ℕ))
      → P s
      → ((c : ℕ) (t : Sink Msg) → P t → Keeps P (rest c t))
      → Keeps P (relay_received zmq dst r s rest)
  unfolding relay_received
  received-Keeps P step (ok m, c) s rest h k =
      relayed-Keeps P (send_owned zmq dst s (record { msg = m; valid = true })) (rest c) c
        (step s _ h) (k c)
  received-Keeps P step (threw e, c) s rest h k = h

  loop-Keeps :
      (P : Sink Msg → Type 0)
      → ((s : Sink Msg) (p : Part Msg) → P s → P (send_owned zmq dst s p).1)
      → (fuel : ℕ) (b : Bool) (c : ℕ) (s : Sink Msg) → P s
      → Keeps P (relay_loop zmq dst src fuel b c s)
  unfolding relay_loop
  loop-Keeps P step zero b c s h = tt
  loop-Keeps P step (suc fuel) false c s h = h
  loop-Keeps P step (suc fuel) true c s h =
      received-Keeps P step (recv_msg src c) s _ h
        (λ c' t k. loop-Keeps P step fuel (has_more src c') c' t k)

  pub relay_from-Keeps :
      (P : Sink Msg → Type 0)
      → ((s : Sink Msg) (p : Part Msg) → P s → P (send_owned zmq dst s p).1)
      → (fuel c : ℕ) (s : Sink Msg) → P s
      → Keeps P (relay_from zmq dst src fuel c s)
  unfolding relay_from
  relay_from-Keeps P step fuel c s h = loop-Keeps P step fuel (has_more src c) c s h
