-- ===== src/Incoming/Tail/Drop.antt =====
-- `drop_tail`: the rest of a message is received and forgotten.
use zmqmessage.Base.{
  ℕ, zero, suc, ◌+◌, ◌^◌, ◌<◌, ◌≡◌, refl, sym, ap, ◌∙◌, ◌⊎◌, inl, inr, List, [], ◌∷◌, Option, none,
  some, Bool, true, false, arith, length, subst, ne→==,
}
use zmqmessage.Zmq.{Source, arrives, Result, ok}
use zmqmessage.Storage.Interface.{PartsStorage}
use zmqmessage.Tools.{try_recv_msg, has_more, try_recv_msg-arrives}
use zmqmessage.Incoming.{Incoming, size, observe}
use zmqmessage.Incoming.Counting.{Comes}
use zmqmessage.Incoming.Tail.{
  receive_loose, fetch_next, tail_counted, drop_loop, drop_first, drop_tail,
}
use zmqmessage.Incoming.Tail.Loose.{Moved, seen, seen-Moved, loose, counts}

module _ {Msg S : Type 0} (ps : PartsStorage Msg S) (src : Source Msg) where
  abbrev pub Dropped : ℕ → ℕ → Incoming Msg S → Option (Result ℕ × Incoming Msg S) → Type 0
  Dropped n count s none = ⊥
  Dropped n count s (some (r, t)) = (r ≡ ok n) × Moved ps src count s t

  drop_stop :
      (fuel n : ℕ) (s : Incoming Msg S) → drop_loop ps src (suc fuel) n false s ≡ some (ok n, s)
  unfolding drop_loop
  drop_stop fuel n s = refl

  drop_more :
      (fuel n : ℕ) (s t : Incoming Msg S) (m : Msg) (b : Bool)
      → n + 1 < 2 ^ 31
      → receive_loose ps src s ≡ (ok (m, b), t)
      → drop_loop ps src (suc fuel) n true s ≡ drop_loop ps src fuel (n + 1) b t
  unfolding drop_loop fetch_next
  drop_more fuel n s t m b l e =
      ap
        (λ w.
          fetch_next ps src w
            (λ m' more' t'. tail_counted ps src n t' (λ k. drop_loop ps src fuel k more' t')))
        e
      ∙ counts ps src n t (λ k. drop_loop ps src fuel k b t) l

  Dropped-more :
      (n k : ℕ) (s t : Incoming Msg S) (out : Option (Result ℕ × Incoming Msg S))
      → Moved ps src 1 s t
      → Dropped (n + 1 + k) k t out
      → Dropped (n + suc k) (suc k) s out
  Dropped-more n k s t none h d = d
  Dropped-more n k s t (some (r, u)) (c, st, z) (e, (c', st', z')) =
      (e ∙ ap ok (omega arith), (omega (arith, c, c'), st' ∙ st, z' ∙ z))

  drop_loop-Dropped :
      (fuel n : ℕ) (ms : List Msg) (s : Incoming Msg S)
      → length ms < fuel
      → n + length ms < 2 ^ 31
      → Comes src s.calls ms
      → Dropped (n + length ms) (length ms) s (drop_loop ps src fuel n true s)
  drop_loop-Dropped fuel n [] s f l h = absurd h
  drop_loop-Dropped zero n (m ∷ ms) s f l h = elim f [ ]
  drop_loop-Dropped (suc zero) n (m ∷ ms) s f l h = absurd (omega arith)
  drop_loop-Dropped (suc (suc fuel)) n (m ∷ []) s f l (e, stop) =
      let t : Incoming Msg S = seen ps src s m false s.receive_observer in
      let step : receive_loose ps src s ≡ (ok (m, false), t) = loose ps src s m false e stop in
      rw (drop_more (suc fuel) n s t m false (omega arith) step) (
        Dropped-more n 0 s t _ (seen-Moved ps src s m false s.receive_observer)
          (rw (drop_stop fuel (n + 1) t) (ap ok (omega arith), (omega arith, refl, refl))))
  drop_loop-Dropped (suc (suc fuel)) n (m ∷ o ∷ ms) s f l (e, go, h) =
      let t : Incoming Msg S = seen ps src s m true s.receive_observer in
      let step : receive_loose ps src s ≡ (ok (m, true), t) = loose ps src s m true e go in
      let moved : Moved ps src 1 s t = seen-Moved ps src s m true s.receive_observer in
      rw (drop_more (suc fuel) n s t m true (omega arith) step) (
        Dropped-more n (length (o ∷ ms)) s t _ moved (
          drop_loop-Dropped (suc fuel) (n + 1) (o ∷ ms) t (omega arith) (omega arith)
            (subst (λ c. Comes src c (o ∷ ms)) (sym moved.0) h)))

  first_seen :
      (s : Incoming Msg S) (fuel : ℕ) (m : Msg) (b : Bool)
      → src.recv s.calls ≡ arrives m
      → src.rcvmore (s.calls + 1) ≡ b
      → drop_first ps src fuel (try_recv_msg src s.calls) s
        ≡ drop_loop ps src fuel 1 b (seen ps src s m b s.receive_observer)
  unfolding drop_first observe has_more
  first_seen s fuel m b e r =
      ap (λ w. drop_first ps src fuel w s) (try_recv_msg-arrives src s.calls m e)
      ∙ ap (λ x. drop_loop ps src fuel 1 x (seen ps src s m x s.receive_observer)) r

  -- Where nothing was received before, the first part is received without blocking.
  drop_first-Dropped :
      (fuel : ℕ) (ms : List Msg) (s : Incoming Msg S)
      → length ms < fuel
      → length ms < 2 ^ 31
      → Comes src s.calls ms
      → Dropped (length ms) (length ms) s (drop_first ps src fuel (try_recv_msg src s.calls) s)
  drop_first-Dropped fuel [] s f l h = absurd h
  drop_first-Dropped zero (m ∷ ms) s f l h = elim f [ ]
  drop_first-Dropped (suc fuel) (m ∷ []) s f l (e, stop) =
      rw (first_seen s (suc fuel) m false e stop) (
        rw (drop_stop fuel 1 (seen ps src s m false s.receive_observer))
          (refl, seen-Moved ps src s m false s.receive_observer))
  drop_first-Dropped (suc fuel) (m ∷ o ∷ ms) s f l (e, go, h) =
      let t : Incoming Msg S = seen ps src s m true s.receive_observer in
      let moved : Moved ps src 1 s t = seen-Moved ps src s m true s.receive_observer in
      let count : 0 + suc (length (o ∷ ms)) ≡ length (m ∷ o ∷ ms) = omega arith in
      rw (first_seen s (suc fuel) m true e go) (
        subst (λ k. Dropped k (length (m ∷ o ∷ ms)) s (drop_loop ps src (suc fuel) 1 true t)) count
          (Dropped-more 0 (length (o ∷ ms)) s t (drop_loop ps src (suc fuel) 1 true t) moved (
            drop_loop-Dropped (suc fuel) 1 (o ∷ ms) t (omega arith) (omega arith)
              (subst (λ c. Comes src c (o ∷ ms)) (sym moved.0) h))))

  -- Dropping the tail of a message of which the parts `ms` come, fewer than 2 ^ 31, where
  -- is_terminal is false and either nothing has been received or there is more: fuel for one round
  -- more than `ms` has parts is enough; it returns the number of parts of `ms`, as many calls of
  -- recv were made, and neither the parts nor is_terminal have changed.
  pub drop_tail-Dropped :
      (fuel : ℕ) (ms : List Msg) (s : Incoming Msg S)
      → length ms < fuel
      → length ms < 2 ^ 31
      → s.is_terminal ≡ false
      → (size ps s ≡ 0) ⊎ ((0 < size ps s) × (src.rcvmore s.calls ≡ true))
      → Comes src s.calls ms
      → Dropped (length ms) (length ms) s (drop_tail ps src fuel s)
  unfolding drop_tail has_more
  drop_tail-Dropped fuel ms s f l z (inl e) h = simp (z, e) (drop_first-Dropped fuel ms s f l h)
  drop_tail-Dropped fuel ms s f l z (inr (pos, b)) h =
      simp (z, ne→== (size ps s) 0 (omega arith), b)
        (subst (λ k. Dropped k (length ms) s (drop_loop ps src fuel 0 true s)) (omega arith)
          (drop_loop-Dropped fuel 0 ms s f (omega arith) h))
