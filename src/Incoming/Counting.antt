-- ===== src/Incoming/Counting.antt =====
-- `receive`: a definite number of parts.
use zmqmessage.Base.{
  ℕ, zero, suc, ◌+◌, ◌-◌, ◌≤◌, ◌<◌, ◌≡◌, refl, sym, ap, ◌∙◌, List, [], ◌∷◌, ◌++◌, Bool, true, false,
  ◌&&◌, map, arith, if◌then◌else◌, length, take, append_assoc, ltb, leb, subst, lt→ltb, ltb_of_ge,
  eq→==, ne→==, inl, inr, Bool-cases, length-append, length-map,
}
use zmqmessage.Zmq.{Source, arrives, ok, threw, Done, done, message_format}
use zmqmessage.Part.{held}
use zmqmessage.Storage.Interface.{PartsStorage, IsPartsStorage, contents}
use zmqmessage.Incoming.{Incoming, size, receive_loop, receive_parts, after_part}
use zmqmessage.Incoming.Receive.{Took, receive_one-Took}

-- A source that gives the parts `ms` of one multipart message from call `c` on: ZMQ_RCVMORE holds
-- after each of them but the last.
abbrev pub Comes : {Msg : Type 0} → Source Msg → ℕ → List Msg → Type 0
Comes src c [] = ⊥
Comes src c (m ∷ []) = (src.recv c ≡ arrives m) × (src.rcvmore (c + 1) ≡ false)
Comes src c (m ∷ n ∷ ms) =
    (src.recv c ≡ arrives m) × (src.rcvmore (c + 1) ≡ true) × Comes src (c + 1) (n ∷ ms)

-- Each message alone in its part.
abbrev pub singles : {Msg : Type 0} → List Msg → List (List Msg)
singles = map λ m. m ∷ []

-- How `receive` of `parts` parts must end where the message has `count`.
abbrev pub verdict : ℕ → ℕ → Bool → Done
verdict parts count check =
    if ltb count parts
    then threw message_format
    else if ltb parts count && check
    then threw message_format
    else done

module _ {Msg S : Type 0} (ps : PartsStorage Msg S) (Inv : S → Type 0) (bound : ℕ)
    (laws : IsPartsStorage ps Inv bound) (src : Source Msg) where
  -- The parts `ms` have been received.
  pub record Received (ms : List Msg) (s t : Incoming Msg S) : Type 0 where
    pub inv : Inv t.store
    pub adds : contents ps t.store ≡ contents ps s.store ++ singles ms
    pub calls : t.calls ≡ s.calls + length ms
    pub extracts : t.cur_extract_idx ≡ s.cur_extract_idx
    pub mode : t.binary_mode ≡ s.binary_mode

  pub one-Received :
      (s t : Incoming Msg S) (m : Msg) (more b : Bool)
      → Took ps Inv bound laws src m more s t
      → Received (m ∷ []) s (record t { is_terminal = b })
  one-Received s t m more b k = record {
    inv = k.inv;
    adds = k.adds;
    calls = k.calls;
    extracts = k.extracts;
    mode = k.mode;
  }

  pub Received-more :
      (s t u : Incoming Msg S) (m : Msg) (more b : Bool) (ms : List Msg)
      → Took ps Inv bound laws src m more s t
      → Received ms (record t { is_terminal = b }) u
      → Received (m ∷ ms) s u
  Received-more s t u m more b ms k r = record {
    inv = r.inv;
    adds =
        r.adds
        ∙ ap (λ v. v ++ singles ms) k.adds
        ∙ append_assoc (contents ps s.store) ((m ∷ []) ∷ []) (singles ms);
    calls = omega (arith, r.calls, k.calls);
    extracts = r.extracts ∙ k.extracts;
    mode = r.mode ∙ k.mode;
  }

  pub size_grows :
      (s t : Incoming Msg S) (m : Msg) (more : Bool)
      → Took ps Inv bound laws src m more s t
      → size ps t ≡ size ps s + 1
  unfolding size
  size_grows s t m more k = omega (
    arith,
    length-map held (ps.parts s.store),
    length-map held (ps.parts t.store),
    ap length k.adds,
    length-append {0} (contents ps s.store) ((m ∷ []) ∷ []),
  )

  -- The end of a loop of `left` rounds over the parts `ms`.
  abbrev pub Counted : ℕ → List Msg → Bool → Incoming Msg S → Done × Incoming Msg S → Type 0
  Counted left ms check s out =
      (out.0 ≡ verdict left (length ms) check)
      × (out.1.is_terminal ≡ leb (length ms) left)
      × Received (take left ms) s out.1

  -- The four ways on after a part, in the last round and before it.
  module _ (parts : ℕ) (check : Bool) (i : ℕ) (rest : Incoming Msg S → Done × Incoming Msg S)
      (t : Incoming Msg S) where
    last_end :
        i ≡ parts - 1
        → after_part ps src parts check i rest (ok false, t)
          ≡ rest (record t { is_terminal = true })
    unfolding after_part
    last_end e = simp (ltb_of_ge i (parts - 1) (omega arith), eq→== i (parts - 1) e)

    last_more :
        i ≡ parts - 1
        → after_part ps src parts check i rest (ok true, t) ≡ (
            if check
            then (threw message_format, record t { is_terminal = false })
            else rest (record t { is_terminal = false }))
    unfolding after_part
    last_more e = simp (ltb_of_ge i (parts - 1) (omega arith), eq→== i (parts - 1) e)

    early_end :
        i < parts - 1
        → after_part ps src parts check i rest (ok false, t)
          ≡ (threw message_format, record t { is_terminal = true })
    unfolding after_part
    early_end h = simp (lt→ltb i (parts - 1) h)

    early_more : i < parts - 1 → after_part ps src parts check i rest (ok true, t) ≡ rest t
    unfolding after_part
    early_more h = simp (lt→ltb i (parts - 1) h, ne→== i (parts - 1) (omega arith))

  verdict-suc :
      (left n : ℕ) (check : Bool) → verdict (suc left) (suc n) check ≡ verdict left n check
  verdict-suc left n check = ground arith

  leb-suc : (a b : ℕ) → leb (suc a) (suc b) ≡ leb a b
  leb-suc a b = ground arith

  receive_loop-Counted :
      (parts : ℕ) (check : Bool) (left i : ℕ) (ms : List Msg) (s : Incoming Msg S)
      → i + suc left ≡ parts
      → Inv s.store
      → size ps s + suc left ≤ bound
      → Comes src s.calls ms
      → Counted (suc left) ms check s (receive_loop ps src parts check (suc left) i s)
  unfolding receive_loop
  receive_loop-Counted parts check left i [] s e inv room c = absurd c
  receive_loop-Counted parts check zero i (m ∷ []) s e inv room (arr, more) =
      let (t, r, k) = receive_one-Took ps Inv bound laws src s m inv (omega arith) arr in
      rw (r, more, last_end parts check i (λ x. (done, x)) t (omega arith))
        (refl, refl, one-Received s t m _ true k)
  receive_loop-Counted parts check zero i (m ∷ n ∷ ms) s e inv room (arr, more, c) =
      let (t, r, k) = receive_one-Took ps Inv bound laws src s m inv (omega arith) arr in
      rw (r, more, last_more parts check i (λ x. (done, x)) t (omega arith))
        (elim (Bool-cases check) [
          | inl h ↦ rw h (ground arith, ground arith, one-Received s t m _ false k)
          | inr h ↦ rw h (ground arith, ground arith, one-Received s t m _ false k)
        ])
  receive_loop-Counted parts check (suc left) i (m ∷ []) s e inv room (arr, more) =
      let (t, r, k) = receive_one-Took ps Inv bound laws src s m inv (omega arith) arr in
      rw
        (
          r,
          more,
          early_end parts check i (receive_loop ps src parts check (suc left) (i + 1)) t
              (omega arith),
        )
        (ground arith, ground arith, one-Received s t m _ true k)
  receive_loop-Counted parts check (suc left) i (m ∷ n ∷ ms) s e inv room (arr, more, c) =
      let (t, r, k) = receive_one-Took ps Inv bound laws src s m inv (omega arith) arr in
      let (v, z, rec) =
        receive_loop-Counted parts check left (i + 1) (n ∷ ms) t (omega arith) k.inv
          (omega (arith, size_grows s t m _ k))
          (subst (λ d. Comes src d (n ∷ ms)) (sym k.calls) c) in
      rw
        (
          r,
          more,
          early_more parts check i (receive_loop ps src parts check (suc left) (i + 1)) t
              (omega arith),
        )
        (
          v ∙ sym (verdict-suc (suc left) (length (n ∷ ms)) check),
          z ∙ sym (leb-suc (length (n ∷ ms)) (suc left)),
          Received-more s t _ m _ t.is_terminal (take (suc left) (n ∷ ms)) k rec,
        )

  -- Receiving a definite, positive number of parts where a multipart message of `ms` comes and the
  -- storage has room for them: the call throws MessageFormatError if the message has fewer parts,
  -- or more and check_terminal is set, and returns otherwise; in every case the first parts of the
  -- message, up to that number, have been appended in order and no other call of recv was made, and
  -- is_terminal is true exactly if the message has no more parts than asked for.
  pub receive_parts-Counted :
      (parts : ℕ) (check : Bool) (ms : List Msg) (s : Incoming Msg S)
      → 0 < parts
      → Inv s.store
      → size ps s + parts ≤ bound
      → Comes src s.calls ms
      → Counted parts ms check s (receive_parts ps src s parts check)
  unfolding receive_parts
  receive_parts-Counted zero check ms s pos inv room c = elim pos [ ]
  receive_parts-Counted (suc n) check ms s pos inv room c =
      receive_loop-Counted (suc n) check n 0 ms s (omega arith) inv room c
