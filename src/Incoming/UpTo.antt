-- ===== src/Incoming/UpTo.antt =====
-- `receive_up_to`: at least so many parts, and no more than the bound.
use zmqmessage.Base.{
  ℕ, zero, suc, ◌+◌, ◌-◌, ◌≤◌, ◌≡◌, refl, sym, ap, ◌∙◌, List, [], ◌∷◌, Bool, true, false, not,
  arith, length, take, drop, leb, subst, inl, inr, Bool-cases, length-append,
}
use zmqmessage.Zmq.{Source, ok, threw, Done, done}
use zmqmessage.Storage.Interface.{PartsStorage, IsPartsStorage}
use zmqmessage.Incoming.{Incoming, size, receive_one, up_to_loop, then_up_to, receive_up_to}
use zmqmessage.Incoming.Receive.{receive_one-Took}
use zmqmessage.Incoming.Counting.{
  Comes, Received, Received-more, size_grows, Counted, one-Received, receive_parts-Counted,
}
use zmqmessage.Incoming.Joining.{
  take-drop, take-all, length-take, take-take-drop, Comes-drop, size_marked, Received-append,
  Received-none, take-nil, size-Received,
}
use zmqmessage.Incoming.Everything.{Counted-none}

module _ {Msg S : Type 0} (ps : PartsStorage Msg S) (Inv : S → Type 0) (bound : ℕ)
    (laws : IsPartsStorage ps Inv bound) (src : Source Msg) where
  -- The call has returned, with the first `n` parts of `ms`.
  abbrev pub Limited : ℕ → List Msg → Incoming Msg S → Done × Incoming Msg S → Type 0
  Limited n ms s out =
      (out.0 ≡ done)
      × (out.1.is_terminal ≡ leb (length ms) n)
      × Received ps Inv bound laws src (take n ms) s out.1

  up_step :
      (left : ℕ) (s t : Incoming Msg S) (more : Bool)
      → s.is_terminal ≡ false
      → receive_one ps src s ≡ (ok more, t)
      → up_to_loop ps src (suc left) s
        ≡ up_to_loop ps src left (record t { is_terminal = not more })
  unfolding up_to_loop
  up_step left s t more z r = simp (z, r)

  up_zero : (s : Incoming Msg S) → up_to_loop ps src 0 s ≡ (done, s)
  unfolding up_to_loop
  up_zero s = refl

  up_stop :
      (left : ℕ) (s : Incoming Msg S) → s.is_terminal ≡ true → up_to_loop ps src left s ≡ (done, s)
  unfolding up_to_loop
  up_stop zero s z = refl
  up_stop (suc left) s z = simp z

  up_to_loop-Limited :
      (left : ℕ) (ms : List Msg) (s : Incoming Msg S)
      → s.is_terminal ≡ false
      → Inv s.store
      → size ps s + left ≤ bound
      → Comes src s.calls ms
      → Limited left ms s (up_to_loop ps src left s)
  up_to_loop-Limited left [] s z inv room c = absurd c
  up_to_loop-Limited zero (m ∷ ms) s z inv room c =
      subst (Limited 0 (m ∷ ms) s) (sym (up_zero s))
        (refl, z ∙ ground arith, Received-none ps Inv bound laws src s inv)
  up_to_loop-Limited (suc left) (m ∷ []) s z inv room (arr, more) =
      let (t, r, k) = receive_one-Took ps Inv bound laws src s m inv (omega arith) arr in
      let last : Incoming Msg S = record t { is_terminal = true } in
      subst (Limited (suc left) (m ∷ []) s)
        (sym (up_step left s t false z (r ∙ ap (λ b. (ok b, t)) more) ∙ up_stop left last refl))
        (
          refl,
          ground arith,
          subst (λ ns. Received ps Inv bound laws src (m ∷ ns) s last) (sym (take-nil left))
              (one-Received ps Inv bound laws src s t m _ true k),
        )
  up_to_loop-Limited (suc left) (m ∷ n ∷ ms) s z inv room (arr, more, c) =
      let (t, r, k) = receive_one-Took ps Inv bound laws src s m inv (omega arith) arr in
      let next : Incoming Msg S = record t { is_terminal = false } in
      let h =
        up_to_loop-Limited left (n ∷ ms) next refl k.inv
          (omega (
            arith,
            size_marked ps Inv bound laws src t false,
            size_grows ps Inv bound laws src s t m _ k,
          ))
          (subst (λ d. Comes src d (n ∷ ms)) (sym k.calls) c) in
      subst (Limited (suc left) (m ∷ n ∷ ms) s)
        (sym (up_step left s t true z (r ∙ ap (λ b. (ok b, t)) more)))
        (h.0, h.1 ∙ ground arith, Received-more ps Inv bound laws src s t _ m _ false _ k h.2)

  -- What follows the first `min` parts.
  then_up_to-Limited :
      (min left : ℕ) (ms : List Msg) (s : Incoming Msg S) (out : Done × Incoming Msg S)
      → min ≤ length ms
      → size ps s + (min + left) ≤ bound
      → Comes src s.calls ms
      → Counted ps Inv bound laws src min ms false s out
      → Limited (min + left) ms s (then_up_to ps src left out)
  unfolding then_up_to
  then_up_to-Limited min left ms s (threw e, t) le room c (v, z, r) =
      let d : threw e ≡ done = v ∙ ground arith in cc
  then_up_to-Limited min left ms s (ok _, t) le room c (v, z, r) =
      elim (Bool-cases (leb (length ms) min)) [
        | inl all ↦ subst (Limited (min + left) ms s) (sym (up_stop left t (z ∙ all))) (
          refl,
          z ∙ ground arith,
          subst (λ ns. Received ps Inv bound laws src ns s t)
              (take-all min ms (ground arith) ∙ sym (take-all (min + left) ms (ground arith))) r,
        )
        | inr more ↦
            let l = length-take min ms le in
            let split = ap length (take-drop min ms) in
            let rest =
              up_to_loop-Limited left (drop min ms) t (z ∙ more) r.inv
                (omega (arith, size-Received ps Inv bound laws src s t (take min ms) r))
                (subst (λ d. Comes src d (drop min ms)) (omega (arith, r.calls))
                  (Comes-drop src min s.calls ms (ground arith) c)) in
            let count : length ms ≡ min + length (drop min ms) =
              omega (arith, l, split, length-append {0} (take min ms) (drop min ms)) in
            (
              rest.0,
              rest.1 ∙ ground (arith, count),
              subst (λ ns. Received ps Inv bound laws src ns s (up_to_loop ps src left t).1)
                  (take-take-drop (min + left) min left ms refl)
                  (Received-append ps Inv bound laws src s t _ (take min ms) _ r rest.2),
            )
      ]

  -- Receiving from `min` up to `max` parts, where a message `ms` of at least `min` parts comes,
  -- is_terminal is false and the storage has room: the call returns; the parts received are the
  -- first `max` of `ms`, or the first `min` if `max` is smaller, or all if there are fewer; and
  -- is_terminal tells whether `ms` has no more.
  pub receive_up_to-Limited :
      (min max : ℕ) (ms : List Msg) (s : Incoming Msg S)
      → min ≤ length ms
      → s.is_terminal ≡ false
      → Inv s.store
      → size ps s + (min + (max - min)) ≤ bound
      → Comes src s.calls ms
      → Limited (min + (max - min)) ms s (receive_up_to ps src s min max)
  unfolding receive_up_to
  receive_up_to-Limited zero max ms s le z inv room c =
      then_up_to-Limited zero (max - 0) ms s _ le room c
        (Counted-none ps Inv bound laws src ms s z inv c)
  receive_up_to-Limited (suc n) max ms s le z inv room c =
      then_up_to-Limited (suc n) (max - suc n) ms s _ le room c (
        receive_parts-Counted ps Inv bound laws src (suc n) false ms s (omega arith) inv
          (omega arith) c)
