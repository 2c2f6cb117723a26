-- ===== src/Inserting/Range.antt =====
-- `send_incoming_messages`: a range of the parts of a message.
use zmqmessage.Base.{
  ℕ, zero, suc, ◌+◌, ◌-◌, ◌^◌, ◌≤◌, ◌≡◌, refl, sym, ap, ◌∙◌, List, [], ◌∷◌, ◌++◌, some, Bool, true,
  false, if◌then◌else◌, arith, length, get_elem?, set, take, drop, min, subst, append_assoc,
  append-nil, length-append, length-set, length-map,
}
use zmqmessage.Zmq.{MsgApi, IsMsgApi, Dest, ok, threw, Done, zmq_error}
use zmqmessage.Part.{Part, msgs, AllValid}
use zmqmessage.Multipart.{at}
use zmqmessage.Multipart.Access.{at-owned}
use zmqmessage.Multipart.Holding.{
  Holding, all-Holding, Holding-drop, Holding-take, Holding-set, set_same,
}
use zmqmessage.Incoming.Joining.{length-take, take-nil}
use zmqmessage.Sink.{Sink, send_one}
use zmqmessage.Sink.Run.{IsRun}
use zmqmessage.Sink.Insert.{StepOne, send_one-StepOne}
use zmqmessage.Inserting.{send_range, and_next, send_incoming_messages}

length-slice :
    {A : Type 0} (n k : ℕ) (xs : List A) → k ≤ length xs - n → length (take k (drop n xs)) ≡ k
length-slice zero k xs h = length-take k xs (omega arith)
length-slice (suc n) k [] h = ap length (take-nil k) ∙ omega arith
length-slice (suc n) k (x ∷ xs) h = length-slice n k xs (omega arith)

module _ {Msg : Type 0} (zmq : MsgApi Msg) (laws : IsMsgApi zmq) (dst : Dest Msg) where
  -- How the passing on of `ms` from `parts`, into a sink that has taken `ns`, ends.
  abbrev pub PassedOn :
      List Msg → List Msg → Bool → List (Part Msg) → Done × Sink Msg × List (Part Msg) → Type 0
  PassedOn ns ms copy parts (ok _, t, qs) =
      IsRun (ns ++ ms) t × (length qs ≡ length parts) × ((if copy then qs else parts) ≡ parts)
  PassedOn ns ms copy parts (threw e, t, qs) =
      (e ≡ zmq_error) × (length qs ≡ length parts) × ((if copy then qs else parts) ≡ parts)

  -- One part before the others, which leaves the parts `ps`.
  one_more :
      (ns : List Msg) (m : Msg) (ms : List Msg) (copy : Bool) (parts ps : List (Part Msg))
      (out : Done × Sink Msg × List (Part Msg))
      → length ps ≡ length parts
      → (if copy then ps else parts) ≡ parts
      → PassedOn (ns ++ m ∷ []) ms copy ps out
      → PassedOn ns (m ∷ ms) copy parts out
  one_more ns m ms true parts ps (ok _, t, qs) l e (run, n, k) =
      (subst (λ ks. IsRun ks t) (append_assoc ns (m ∷ []) ms) run, n ∙ l, k ∙ e)
  one_more ns m ms false parts ps (ok _, t, qs) l e (run, n, k) =
      (subst (λ ks. IsRun ks t) (append_assoc ns (m ∷ []) ms) run, n ∙ l, refl)
  one_more ns m ms true parts ps (threw z, t, qs) l e (h, n, k) = (h, n ∙ l, k ∙ e)
  one_more ns m ms false parts ps (threw z, t, qs) l e (h, n, k) = (h, n ∙ l, refl)

  passes :
      (ns : List Msg) (ms : List Msg) (copy : Bool) (i : ℕ) (parts : List (Part Msg)) (s : Sink Msg)
      (p : Part Msg) (out : Done × Sink Msg × Part Msg)
      (rest : Sink Msg → List (Part Msg) → Done × Sink Msg × List (Part Msg))
      → get_elem? parts i ≡ some p
      → StepOne zmq laws dst copy ns s p out
      → ((t : Sink Msg) (x : Part Msg)
          → IsRun (ns ++ p.msg ∷ []) t
          → PassedOn (ns ++ p.msg ∷ []) ms copy (set parts i x) (rest t (set parts i x)))
      → PassedOn ns (p.msg ∷ ms) copy parts (and_next zmq dst i parts out rest)
  unfolding and_next
  passes ns ms true i parts s p (ok _, t, x) rest e (run, k) next =
      one_more ns p.msg ms true parts (set parts i x) _ (length-set parts i x)
        (ap (set parts i) k ∙ set_same parts i p e) (next t x run)
  passes ns ms false i parts s p (ok _, t, x) rest e h next =
      one_more ns p.msg ms false parts (set parts i x) _ (length-set parts i x) refl (next t x h.0)
  passes ns ms true i parts s p (threw z, t, x) rest e (h, w, k) next =
      (h, length-set parts i x, ap (set parts i) k ∙ set_same parts i p e)
  passes ns ms false i parts s p (threw z, t, x) rest e h next = (h.0, length-set parts i x, refl)

  range_step :
      (copy : Bool) (left i : ℕ) (s : Sink Msg) (parts : List (Part Msg)) (p : Part Msg)
      → at parts i ≡ ok p
      → send_range zmq dst copy (suc left) i s parts
        ≡ and_next zmq dst i parts
            (send_one zmq dst s p copy)
            (λ t qs. send_range zmq dst copy left (i + 1) t qs)
  unfolding send_range
  range_step copy left i s parts p e = simp (e, send_range)

  send_range-PassedOn :
      (copy : Bool) (ms : List Msg) (i : ℕ) (ns : List Msg) (s : Sink Msg) (parts : List (Part Msg))
      → length ns + length ms ≤ 2 ^ 61
      → Holding parts i ms
      → IsRun ns s
      → PassedOn ns ms copy parts (send_range zmq dst copy (length ms) i s parts)
  unfolding send_range
  send_range-PassedOn true [] i ns s parts small h run =
      (subst (λ ks. IsRun ks s) (sym (append-nil ns)) run, refl, refl)
  send_range-PassedOn false [] i ns s parts small h run =
      (subst (λ ks. IsRun ks s) (sym (append-nil ns)) run, refl, refl)
  send_range-PassedOn copy (m ∷ ms) i ns s parts small ((p, e, l, v, k), h) run =
      subst (PassedOn ns (m ∷ ms) copy parts)
        (sym (range_step copy (length ms) i s parts p (at-owned parts i p e l v)))
        (subst
          (λ n. PassedOn ns (n ∷ ms) copy parts (
            and_next zmq dst i parts (send_one zmq dst s p copy)
              (λ t qs. send_range zmq dst copy (length ms) (i + 1) t qs)))
          k
          (passes ns ms copy i parts s p (send_one zmq dst s p copy) _ e
            (send_one-StepOne zmq laws dst copy ns s p v (omega arith) run)
            (λ t x r.
              send_range-PassedOn copy ms (i + 1) (ns ++ p.msg ∷ []) t (set parts i x)
                (omega (arith, length-append {0} ns (p.msg ∷ [])))
                (Holding-set parts (i + 1) i x ms (omega arith) l h) r)))

  -- The messages of the range.
  abbrev pub ranged : List (Part Msg) → ℕ → ℕ → List Msg
  ranged parts from to = take (min to (length parts) - from) (drop from (msgs parts))

  length-ranged :
      (parts : List (Part Msg)) (from to : ℕ)
      → length (ranged parts from to) ≡ min to (length parts) - from
  length-ranged parts from to =
      let n : length (msgs parts) ≡ length parts = length-map (λ (p : Part Msg). p.msg) parts in
      length-slice from (min to (length parts) - from) (msgs parts) (omega (arith, n))

  -- Sending the parts idx_from to idx_to - 1 of a message of owned parts, up to its size, into a
  -- sink that has taken `ns`, where these and the parts of the message are at most 2 ^ 61, either
  -- adds the messages of the range, in order, behind `ns`, or throws zmq::error_t; the message
  -- keeps its size, and all its parts as they were if they are copied.
  pub send_incoming_messages-PassedOn :
      (parts : List (Part Msg)) (copy : Bool) (from to : ℕ) (ns : List Msg) (s : Sink Msg)
      → AllValid parts
      → length ns + length parts ≤ 2 ^ 61
      → IsRun ns s
      → PassedOn ns
          (ranged parts from to)
          copy
          parts
          (send_incoming_messages zmq dst s parts copy from to)
  unfolding send_incoming_messages
  send_incoming_messages-PassedOn parts copy from to ns s v small run =
      let n = length-ranged parts from to in
      subst
        (λ k.
          PassedOn ns (ranged parts from to) copy parts (send_range zmq dst copy k from s parts))
        n
        (send_range-PassedOn copy (ranged parts from to) from ns s parts (omega (arith, n))
          (Holding-take parts from _ (drop from (msgs parts)) (
            subst (λ k. Holding parts k (drop from (msgs parts))) (omega arith)
              (Holding-drop parts 0 from (msgs parts) (all-Holding parts v))))
          run)
