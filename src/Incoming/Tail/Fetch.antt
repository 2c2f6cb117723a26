-- ===== src/Incoming/Tail/Fetch.antt =====
-- `fetch_tail`: the rest of a message into one area of bytes.
use zmqmessage.Base.{
  ℕ, zero, suc, ◌+◌, ◌-◌, ◌^◌, ◌<◌, ◌≡◌, refl, sym, ap, ◌∙◌, List, [], ◌∷◌, ◌++◌, Option, none,
  some, Bool, true, false, arith, length, get_elem?, append_assoc, append-nil, subst, ap₂,
}
use zmqmessage.Zmq.{MsgApi, Source, Result, ok}
use zmqmessage.Part.{Part}
use zmqmessage.Storage.Interface.{PartsStorage}
use zmqmessage.Tools.{has_more}
use zmqmessage.Incoming.{Incoming, size}
use zmqmessage.Incoming.Tail.{
  receive_loose, fetch_next, tail_counted, fetch_loop, fetch_last, fetch_tail,
}
use zmqmessage.Incoming.Tail.Loose.{Moved, seen, seen-Moved, loose, counts}
use zmqmessage.Incoming.Counting.{Comes}

module _ {Msg S : Type 0} (zmq : MsgApi Msg) (ps : PartsStorage Msg S) (src : Source Msg) where
  -- The bytes of the messages, each behind the delimiter.
  abbrev pub joined : List ℕ → List Msg → List ℕ
  joined delimiter [] = []
  joined delimiter (m ∷ ms) = (delimiter ++ zmq.bytes m) ++ joined delimiter ms

  abbrev pub Fetched :
      ℕ → List ℕ → ℕ → Incoming Msg S → Option (Result (ℕ × List ℕ) × Incoming Msg S) → Type 0
  Fetched n area count s none = ⊥
  Fetched n area count s (some (r, t)) = (r ≡ ok (n, area)) × Moved ps src count s t

  fetch_stop :
      (fuel : ℕ) (delimiter area : List ℕ) (n : ℕ) (s : Incoming Msg S)
      → fetch_loop ps src zmq (suc fuel) delimiter area n false s ≡ some (ok (n, area), s)
  unfolding fetch_loop
  fetch_stop fuel delimiter area n s = refl

  fetch_more :
      (fuel : ℕ) (delimiter area : List ℕ) (n : ℕ) (s t : Incoming Msg S) (m : Msg) (b : Bool)
      → n + 1 < 2 ^ 31
      → receive_loose ps src s ≡ (ok (m, b), t)
      → fetch_loop ps src zmq (suc fuel) delimiter area n true s
        ≡ fetch_loop ps src zmq fuel delimiter ((area ++ delimiter) ++ zmq.bytes m) (n + 1) b t
  unfolding fetch_loop fetch_next
  fetch_more fuel delimiter area n s t m b l e =
      ap
        (λ w. fetch_next ps src w (λ m' more' t'. tail_counted ps src n t' (λ k.
          fetch_loop ps src zmq fuel delimiter ((area ++ delimiter) ++ zmq.bytes m') k more' t')))
        e
      ∙ counts ps src n t
          (λ k. fetch_loop ps src zmq fuel delimiter ((area ++ delimiter) ++ zmq.bytes m) k b t) l

  Fetched-more :
      (delimiter area : List ℕ) (n : ℕ) (s t : Incoming Msg S) (m : Msg) (ms : List Msg)
      (out : Option (Result (ℕ × List ℕ) × Incoming Msg S))
      → Moved ps src 1 s t
      → Fetched
          (n + 1 + length ms)
          (((area ++ delimiter) ++ zmq.bytes m) ++ joined delimiter ms)
          (length ms)
          t
          out
      → Fetched (n + length (m ∷ ms)) (area ++ joined delimiter (m ∷ ms)) (length (m ∷ ms)) s out
  Fetched-more delimiter area n s t m ms none h k = k
  Fetched-more delimiter area n s t m ms (some (r, u)) (c, st, z) (e, (c', st', z')) =
      let same : ((area ++ delimiter) ++ zmq.bytes m) ++ joined delimiter ms
          ≡ area ++ ((delimiter ++ zmq.bytes m) ++ joined delimiter ms) =
        ap (λ v. v ++ joined delimiter ms) (append_assoc area delimiter (zmq.bytes m))
        ∙ append_assoc area (delimiter ++ zmq.bytes m) (joined delimiter ms) in
      let count : n + 1 + length ms ≡ n + suc (length ms) = omega arith in
      (
        e
            ∙ ap (λ v. ok (n + 1 + length ms, v)) same
            ∙ ap (λ k. ok (k, area ++ ((delimiter ++ zmq.bytes m) ++ joined delimiter ms))) count,
        (omega (arith, c, c'), st' ∙ st, z' ∙ z),
      )

  fetch_loop-Fetched :
      (fuel : ℕ) (delimiter area : List ℕ) (n : ℕ) (ms : List Msg) (s : Incoming Msg S)
      → length ms < fuel
      → n + length ms < 2 ^ 31
      → Comes src s.calls ms
      → Fetched
          (n + length ms)
          (area ++ joined delimiter ms)
          (length ms)
          s
          (fetch_loop ps src zmq fuel delimiter area n true s)
  fetch_loop-Fetched fuel delimiter area n [] s f l h = absurd h
  fetch_loop-Fetched zero delimiter area n (m ∷ ms) s f l h = elim f [ ]
  fetch_loop-Fetched (suc zero) delimiter area n (m ∷ ms) s f l h = absurd (omega arith)
  fetch_loop-Fetched (suc (suc fuel)) delimiter area n (m ∷ []) s f l (e, stop) =
      let t : Incoming Msg S = seen ps src s m false s.receive_observer in
      let step : receive_loose ps src s ≡ (ok (m, false), t) = loose ps src s m false e stop in
      let moved : Moved ps src 1 s t = seen-Moved ps src s m false s.receive_observer in
      rw (fetch_more (suc fuel) delimiter area n s t m false (omega arith) step) (
        Fetched-more delimiter area n s t m [] _ moved (
          rw (fetch_stop fuel delimiter ((area ++ delimiter) ++ zmq.bytes m) (n + 1) t) (
            ap₂ (λ k v. ok (k, v)) (omega arith)
                (sym (append-nil ((area ++ delimiter) ++ zmq.bytes m))),
            (omega arith, refl, refl),
          )))
  fetch_loop-Fetched (suc (suc fuel)) delimiter area n (m ∷ o ∷ ms) s f l (e, go, h) =
      let t : Incoming Msg S = seen ps src s m true s.receive_observer in
      let step : receive_loose ps src s ≡ (ok (m, true), t) = loose ps src s m true e go in
      let moved : Moved ps src 1 s t = seen-Moved ps src s m true s.receive_observer in
      rw (fetch_more (suc fuel) delimiter area n s t m true (omega arith) step) (
        Fetched-more delimiter area n s t m (o ∷ ms) _ moved (
          fetch_loop-Fetched (suc fuel) delimiter ((area ++ delimiter) ++ zmq.bytes m) (n + 1)
            (o ∷ ms) t (omega arith) (omega arith)
            (subst (λ c. Comes src c (o ∷ ms)) (sym moved.0) h)))

  -- Fetching the tail of a message of which some parts have been received, where the rest `ms`
  -- comes, of fewer than 2 ^ 31 - 1 parts, and is_terminal is false: fuel for one round more than
  -- the rest has parts is enough; it returns one more than that number, the area has got the bytes
  -- of the last part received and then, each behind the delimiter, those of the rest in order; one
  -- call of recv was made for each part of the rest, and neither the parts nor is_terminal have
  -- changed.
  pub fetch_tail-Fetched :
      (fuel : ℕ) (delimiter area : List ℕ) (p : Part Msg) (ms : List Msg) (s : Incoming Msg S)
      → length ms < fuel
      → 1 + length ms < 2 ^ 31
      → get_elem? (ps.parts s.store) (size ps s - 1) ≡ some p
      → s.is_terminal ≡ false
      → src.rcvmore s.calls ≡ true
      → Comes src s.calls ms
      → Fetched
          (1 + length ms)
          ((area ++ zmq.bytes p.msg) ++ joined delimiter ms)
          (length ms)
          s
          (fetch_tail ps src zmq fuel s area delimiter)
  unfolding fetch_tail fetch_last has_more
  fetch_tail-Fetched fuel delimiter area p ms s f l e z b h =
      simp (e, z, b) (fetch_loop-Fetched fuel delimiter (area ++ zmq.bytes p.msg) 1 ms s f l h)
