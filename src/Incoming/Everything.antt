-- ===== src/Incoming/Everything.antt =====
-- `receive_all`: the whole message, whatever its number of parts.
use zmqmessage.Base.{
  ℕ, zero, suc, ◌+◌, ◌≤◌, ◌<◌, ◌≡◌, refl, sym, ap, ◌∙◌, List, [], ◌∷◌, ◌++◌, Option, none, some,
  Bool, true, false, not, arith, length, take, drop, leb, subst, inl, inr, Bool-cases,
  length-append,
}
use zmqmessage.Zmq.{Source, ok, threw, Done, done}
use zmqmessage.Storage.Interface.{PartsStorage, IsPartsStorage}
use zmqmessage.Incoming.{
  Incoming, size, receive_one, receive_parts, all_loop, after_more, receive_all_parts, then_all,
}
use zmqmessage.Incoming.Receive.{Took, receive_one-Took}
use zmqmessage.Incoming.Counting.{
  Comes, Received, Received-more, size_grows, Counted, receive_parts-Counted,
}
use zmqmessage.Incoming.Joining.{
  take-drop, take-all, length-take, length-drop, Comes-drop, size_marked, Received-append,
  Received-none, size-Received,
}

module _ {Msg S : Type 0} (ps : PartsStorage Msg S) (Inv : S → Type 0) (bound : ℕ)
    (laws : IsPartsStorage ps Inv bound) (src : Source Msg) where
  -- The whole message has been received.
  abbrev pub Complete : List Msg → Incoming Msg S → Option (Done × Incoming Msg S) → Type 0
  Complete ms s none = ⊥
  Complete ms s (some (r, t)) =
      (r ≡ done) × (t.is_terminal ≡ true) × Received ps Inv bound laws src ms s t

  Complete-more :
      (s t : Incoming Msg S) (m : Msg) (more b : Bool) (ms : List Msg)
      (out : Option (Done × Incoming Msg S))
      → Took ps Inv bound laws src m more s t
      → Complete ms (record t { is_terminal = b }) out
      → Complete (m ∷ ms) s out
  Complete-more s t m more b ms none k h = h
  Complete-more s t m more b ms (some (r, u)) k (d, z, e) =
      (d, z, Received-more ps Inv bound laws src s t u m more b ms k e)

  -- A loop that is not done takes one more part.
  all_loop_step :
      (fuel : ℕ) (s t : Incoming Msg S) (more : Bool)
      → s.is_terminal ≡ false
      → receive_one ps src s ≡ (ok more, t)
      → all_loop ps src (suc fuel) s ≡ all_loop ps src fuel (record t { is_terminal = not more })
  unfolding all_loop after_more
  all_loop_step fuel s t more z r = simp (z, r)

  all_loop_stop :
      (fuel : ℕ) (s : Incoming Msg S)
      → s.is_terminal ≡ true
      → all_loop ps src (suc fuel) s ≡ some (done, s)
  unfolding all_loop
  all_loop_stop fuel s z = simp z

  all_loop-Complete :
      (fuel : ℕ) (ms : List Msg) (s : Incoming Msg S)
      → length ms < fuel
      → s.is_terminal ≡ false
      → Inv s.store
      → size ps s + length ms ≤ bound
      → Comes src s.calls ms
      → Complete ms s (all_loop ps src fuel s)
  all_loop-Complete fuel [] s f z inv room c = absurd c
  all_loop-Complete zero (m ∷ ms) s f z inv room c = elim f [ ]
  all_loop-Complete (suc zero) (m ∷ ms) s f z inv room c = absurd (omega arith)
  all_loop-Complete (suc (suc fuel)) (m ∷ []) s f z inv room (arr, more) =
      let (t, r, k) = receive_one-Took ps Inv bound laws src s m inv (omega arith) arr in
      let last : Incoming Msg S = record t { is_terminal = true } in
      let stop =
        all_loop_step (suc fuel) s t false z (r ∙ ap (λ b. (ok b, t)) more)
        ∙ all_loop_stop fuel last refl in
      subst (Complete (m ∷ []) s) (sym stop) (
        refl,
        refl,
        record {
          inv = k.inv;
          adds = k.adds;
          calls = k.calls;
          extracts = k.extracts;
          mode = k.mode;
        },
      )
  all_loop-Complete (suc fuel) (m ∷ n ∷ ms) s f z inv room (arr, more, c) =
      let (t, r, k) = receive_one-Took ps Inv bound laws src s m inv (omega arith) arr in
      let step = all_loop_step fuel s t true z (r ∙ ap (λ b. (ok b, t)) more) in
      subst (Complete (m ∷ n ∷ ms) s) (sym step) (
        Complete-more s t m _ false (n ∷ ms) _ k (
          all_loop-Complete fuel (n ∷ ms) (record t { is_terminal = false }) (omega arith) refl
            k.inv
            (omega (
              arith,
              size_marked ps Inv bound laws src t false,
              size_grows ps Inv bound laws src s t m _ k,
            ))
            (subst (λ d. Comes src d (n ∷ ms)) (sym k.calls) c)))

  Complete-append :
      (s t : Incoming Msg S) (ms ns : List Msg) (out : Option (Done × Incoming Msg S))
      → Received ps Inv bound laws src ms s t
      → Complete ns t out
      → Complete (ms ++ ns) s out
  Complete-append s t ms ns none a h = h
  Complete-append s t ms ns (some (r, u)) a (d, z, e) =
      (d, z, Received-append ps Inv bound laws src s t u ms ns a e)

  -- What follows the first `min` parts.
  then_all-Complete :
      (fuel min : ℕ) (ms : List Msg) (s : Incoming Msg S) (out : Done × Incoming Msg S)
      → length ms < fuel
      → min ≤ length ms
      → size ps s + length ms ≤ bound
      → Comes src s.calls ms
      → Counted ps Inv bound laws src min ms false s out
      → Complete ms s (then_all ps src fuel out)
  unfolding then_all
  then_all-Complete fuel min ms s (threw e, t) f le room c (v, z, r) =
      let d : threw e ≡ done = v ∙ ground arith in cc
  then_all-Complete zero min ms s (ok _, t) f le room c (v, z, r) = elim f [ ]
  then_all-Complete (suc fuel) min ms s (ok _, t) f le room c (v, z, r) =
      elim (Bool-cases (leb (length ms) min)) [
        | inl all ↦ subst (Complete ms s) (sym (all_loop_stop fuel t (z ∙ all))) (
          refl,
          z ∙ all,
          subst (λ ns. Received ps Inv bound laws src ns s t) (take-all min ms (ground arith)) r,
        )
        | inr more ↦
            let l = length-take min ms le in
            let whole = take-drop min ms in
            let split = ap length whole in
            subst (λ ns. Complete ns s (all_loop ps src (suc fuel) t)) whole
              (Complete-append s t (take min ms) (drop min ms) _ r (
                all_loop-Complete (suc fuel) (drop min ms) t (omega (arith, length-drop min ms))
                  (z ∙ more) r.inv
                  (omega (
                    arith,
                    size-Received ps Inv bound laws src s t (take min ms) r,
                    split,
                    length-append {0} (take min ms) (drop min ms),
                  ))
                  (subst (λ d. Comes src d (drop min ms)) (omega (arith, r.calls))
                    (Comes-drop src min s.calls ms (ground arith) c))))
      ]

  pub Counted-none :
      (ms : List Msg) (s : Incoming Msg S)
      → s.is_terminal ≡ false
      → Inv s.store
      → Comes src s.calls ms
      → Counted ps Inv bound laws src 0 ms false s (receive_parts ps src s 0 false)
  unfolding receive_parts
  Counted-none [] s z inv c = absurd c
  Counted-none (m ∷ ms) s z inv c =
      (ground arith, z ∙ ground arith, Received-none ps Inv bound laws src s inv)

  -- receive_all ends: on a message `ms` of at least min_parts parts that the storage has room for,
  -- where the message is not terminal yet, fuel for one round more than it has parts is enough; it
  -- returns, the whole message has been appended in order, one call of recv was made for each of
  -- its parts, and the message is terminal.
  pub receive_all-Complete :
      (fuel min : ℕ) (ms : List Msg) (s : Incoming Msg S)
      → length ms < fuel
      → min ≤ length ms
      → s.is_terminal ≡ false
      → Inv s.store
      → size ps s + length ms ≤ bound
      → Comes src s.calls ms
      → Complete ms s (receive_all_parts ps src fuel s min)
  unfolding receive_all_parts
  receive_all-Complete fuel zero ms s f le z inv room c =
      then_all-Complete fuel zero ms s _ f le room c (Counted-none ms s z inv c)
  receive_all-Complete fuel (suc n) ms s f le z inv room c =
      then_all-Complete fuel (suc n) ms s _ f le room c (
        receive_parts-Counted ps Inv bound laws src (suc n) false ms s (omega arith) inv
          (omega arith) c)
