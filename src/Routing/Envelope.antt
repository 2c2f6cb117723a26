-- ===== src/Routing/Envelope.antt =====
-- Receiving a routing envelope.
use zmqmessage.Base.{
  subst, ℕ, zero, suc, ◌+◌, ◌<◌, ◌≡◌, refl, ap, ◌∙◌, ◌⊎◌, List, [], ◌∷◌, ◌++◌, Option, none, some,
  true, false, arith, if◌then◌else◌, ◌==◌, length, append_assoc, length-append, length-map, inl,
  inr,
}
use zmqmessage.Zmq.{MsgApi, Source, arrives, ok, threw, Done, done, message_format}
use zmqmessage.Part.{held}
use zmqmessage.Storage.Interface.{PartsStorage, IsPartsStorage, contents}
use zmqmessage.Storage.Filling.{new_part, put_part}
use zmqmessage.Tools.{recv_msg-arrives, has_more}
use zmqmessage.Incoming.Counting.{singles}
use zmqmessage.Routing.{
  receive_routing, routing_loop, routing_part, routing_into, after_routing_part,
}

-- From call `c` on come the non-empty parts `ms`, each with more to follow, and then `last`, which
-- is empty, or has no more to follow.
abbrev pub Leads : {Msg : Type 0} → MsgApi Msg → Source Msg → ℕ → List Msg → Msg → Type 0
Leads zmq src c [] last =
    (src.recv c ≡ arrives last)
    × ((length (zmq.bytes last) ≡ 0)
        ⊎ (0 < length (zmq.bytes last)) × (src.rcvmore (c + 1) ≡ false))
Leads zmq src c (m ∷ ms) last =
    (src.recv c ≡ arrives m)
    × (0 < length (zmq.bytes m))
    × (src.rcvmore (c + 1) ≡ true)
    × Leads zmq src (c + 1) ms last

positive : (n : ℕ) → 0 < n → (n == 0) ≡ false
positive n h = ground arith

module _ {Msg S : Type 0} (zmq : MsgApi Msg) (ps : PartsStorage Msg S) (Inv : S → Type 0)
    (bound : ℕ) (laws : IsPartsStorage ps Inv bound) (src : Source Msg) where
  -- The parts `ms` have been taken from the source and stored, and the call has ended with `r`.
  abbrev pub Routed : Done → List Msg → S → ℕ → Option (Done × S × ℕ) → Type 0
  Routed r ms s c none = ⊥
  Routed r ms s c (some (r', t, c')) =
      (r' ≡ r) × Inv t × (contents ps t ≡ contents ps s ++ singles ms) × (c' ≡ c + length ms)

  one_part :
      (s : S) (c : ℕ) (m : Msg)
      → Inv s
      → length (ps.parts s) < bound
      → src.recv c ≡ arrives m
      → (t : S) × (routing_part zmq ps src (ps.next s) s c ≡ (ok m, t, c + 1))
        × Inv t
        × (contents ps t ≡ contents ps s ++ (m ∷ []) ∷ [])
  unfolding routing_part routing_into
  one_part s c m inv room e =
      let (t, next, inv', (m', k)) = laws.next_adds s inv room in
      let (p, found, v, lt) = new_part ps Inv bound laws s t m' k in
      let w = put_part ps Inv bound laws s t m' m p inv' k v lt in
      (
        ps.put t (length (ps.parts s)) (record p { msg = m }),
        rw (next, found) (simp (recv_msg-arrives src c m e, routing_into)),
        w.0,
        w.1,
      )

  grows :
      (s t : S) (m : Msg)
      → contents ps t ≡ contents ps s ++ (m ∷ []) ∷ []
      → length (ps.parts t) ≡ length (ps.parts s) + 1
  grows s t m e = omega (
    arith,
    length-map held (ps.parts s),
    length-map held (ps.parts t),
    ap length e,
    length-append {0} (contents ps s) ((m ∷ []) ∷ []),
  )

  Routed-more :
      (r : Done) (m : Msg) (ms : List Msg) (s t : S) (c : ℕ) (out : Option (Done × S × ℕ))
      → contents ps t ≡ contents ps s ++ (m ∷ []) ∷ []
      → Routed r ms t (c + 1) out
      → Routed r (m ∷ ms) s c out
  Routed-more r m ms s t c none e h = h
  Routed-more r m ms s t c (some (r', u, c')) e (d, inv, k, n) = (
    d,
    inv,
    k ∙ ap (λ v. v ++ singles ms) e ∙ append_assoc (contents ps s) ((m ∷ []) ∷ []) (singles ms),
    omega (arith, n),
  )

  -- How the last part ends the routing.
  abbrev pub ending : Msg → Done
  ending last = if length (zmq.bytes last) == 0 then done else threw message_format

  routing_loop-Routed :
      (fuel : ℕ) (ms : List Msg) (last : Msg) (s : S) (c : ℕ)
      → length ms < fuel
      → Inv s
      → length (ps.parts s) + length ms < bound
      → Leads zmq src c ms last
      → Routed (ending last) (ms ++ last ∷ []) s c (routing_loop zmq ps src fuel s c)
  unfolding routing_loop after_routing_part has_more
  routing_loop-Routed zero ms last s c f inv room l = elim f [ ]
  routing_loop-Routed (suc fuel) [] last s c f inv room (e, inl z) =
      let (t, step, inv', k) = one_part s c last inv (omega arith) e in
      rw step (simp z (refl, inv', k, refl))
  routing_loop-Routed (suc fuel) [] last s c f inv room (e, inr (pos, stop)) =
      let (t, step, inv', k) = one_part s c last inv (omega arith) e in
      rw step (simp (positive _ pos, stop) (refl, inv', k, refl))
  routing_loop-Routed (suc fuel) (m ∷ ms) last s c f inv room (e, pos, more, l) =
      let (t, step, inv', k) = one_part s c m inv (omega arith) e in
      rw step (
        simp (positive _ pos, more)
          (Routed-more (ending last) m (ms ++ last ∷ []) s t c _ k (
            routing_loop-Routed fuel ms last t (c + 1) (omega arith) inv'
              (omega (arith, grows s t m k)) l)))

  -- Receiving the routing of a message into an empty storage with room for it, where non-empty
  -- parts come and then one that is empty or has no more to follow: fuel for one round more than
  -- there are parts before the last is enough; the call returns if the last part is empty and
  -- throws MessageFormatError if not; in both cases exactly these parts have been taken from the
  -- source and stored in order.
  pub receive_routing-Routed :
      (fuel : ℕ) (ms : List Msg) (last : Msg) (s : S) (c : ℕ)
      → length ms < fuel
      → Inv s
      → length (ps.parts s) ≡ 0
      → length ms < bound
      → Leads zmq src c ms last
      → Routed (ending last) (ms ++ last ∷ []) s c (receive_routing zmq ps src fuel s c)
  unfolding receive_routing
  receive_routing-Routed fuel ms last s c f inv empty room l =
      simp empty (routing_loop-Routed fuel ms last s c f inv (omega arith) l)

  -- The same with a delimiter at the end.
  pub receive_routing-done :
      (fuel : ℕ) (ms : List Msg) (last : Msg) (s : S) (c : ℕ)
      → length ms < fuel
      → Inv s
      → length (ps.parts s) ≡ 0
      → length ms < bound
      → Leads zmq src c ms last
      → length (zmq.bytes last) ≡ 0
      → Routed done (ms ++ last ∷ []) s c (receive_routing zmq ps src fuel s c)
  receive_routing-done fuel ms last s c f inv empty room l z =
      subst (λ r. Routed r (ms ++ last ∷ []) s c (receive_routing zmq ps src fuel s c))
        (ended last z) (receive_routing-Routed fuel ms last s c f inv empty room l)
    where
      ended : (last : Msg) → length (zmq.bytes last) ≡ 0 → ending last ≡ done
      ended last z = simp z
