-- ===== src/Examples/Async/Accept.antt =====
-- A new task of the task processor.
use zmqmessage.Base.{
  ℕ, ◌+◌, ◌-◌, ◌%◌, ◌^◌, ◌≡◌, refl, ap, ap₂, ◌∙◌, List, [], ◌∷◌, ◌++◌, Bool, true, false, arith,
  length, map, get_elem?,
}
use zmqmessage.Zmq.{MsgApi, IsMsgApi, Dest, Source, Done, done}
use zmqmessage.Bytes.{ℤ, pos}
use zmqmessage.Part.{Part, held, msgs, AllValid}
use zmqmessage.Storage.{DynamicPartsStorage, dynamic_make, dynamic_parts, default_capacity}
use zmqmessage.Storage.Interface.{dynamic_storage, IsOpen, dynamic_storage-IsPartsStorage}
use zmqmessage.Storage.Fresh.{dynamic_make-IsOpen, dynamic_parts-dynamic_make}
use zmqmessage.Incoming.{Incoming, size, incoming_make, receive_parts}
use zmqmessage.Incoming.Counting.{Comes, singles, Counted, receive_parts-Counted}
use zmqmessage.Incoming.Joining.{singles-AllValid}
use zmqmessage.Incoming.Extract.{extract-owned}
use zmqmessage.Examples.Async.{
  AsyncTask, Processor, max_task_steps, accept_task, read_task, read_type, push_task,
}

module _ {Msg : Type 0} (zmq : MsgApi Msg) (laws : IsMsgApi zmq) where
  abbrev Store : Type 0
  Store = DynamicPartsStorage Msg

  abbrev fresh : ℕ → Incoming Msg Store
  fresh calls = incoming_make (dynamic_make zmq default_capacity) calls

  -- Two owned parts, which hold `m` and `n`.
  abbrev Two : Msg → Msg → List (Part Msg) → Type 0
  Two m n ps =
      (p : Part Msg) × (q : Part Msg) × (ps ≡ p ∷ q ∷ [])
      × (p.valid ≡ true)
      × (q.valid ≡ true)
      × (p.msg ≡ m)
      × (q.msg ≡ n)

  Two-of : (m n : Msg) (ps : List (Part Msg)) → AllValid ps → msgs ps ≡ m ∷ n ∷ [] → Two m n ps
  Two-of m n [] v e = cc
  Two-of m n (p ∷ []) v e = cc
  Two-of m n (p ∷ q ∷ []) (v, w) e = (p, q, refl, v, w.0, cc, cc)
  Two-of m n (p ∷ q ∷ r ∷ ps) v e = cc

  module _ (dst : Dest Msg) (show : ℤ → List ℕ) (src : Source Msg) (parse : Msg → Bool → ℤ) where
    -- The task that a request asks for.
    abbrev pub accepted_task : Msg → ℕ → AsyncTask
    accepted_task m rand = record {
      id = parse m false;
      remaining_steps = pos (rand % (max_task_steps - 1) + 1);
    }

    abbrev pub accepted : Processor Msg → Msg → ℕ → Processor Msg
    accepted p n rand = record p {
      tasks = p.tasks ++ accepted_task n rand ∷ [];
      calls = p.calls + 2;
    }

    reads :
        (p : Processor Msg) (rand : ℕ) (m n : Msg) (s : Incoming Msg Store)
        → s.cur_extract_idx ≡ 0
        → s.binary_mode ≡ false
        → s.calls ≡ p.calls + 2
        → Two m n (dynamic_parts s.store)
        → read_task zmq dst show src parse p rand (done, s) ≡ (done, accepted p n rand)
    unfolding read_task read_type push_task
    reads p rand m n s i b c (x, y, e, v, w, _, k) =
        let next : Incoming Msg Store = record s { cur_extract_idx = s.cur_extract_idx + 1 } in
        let len : length (dynamic_parts s.store) ≡ 2 = ap length e in
        let first =
          extract-owned (dynamic_storage zmq) (λ m binary. zmq.bytes m) s x (ap₂ get_elem? e i)
            (omega (arith, len, i)) v in
        let second =
          extract-owned (dynamic_storage zmq) parse next y (ap₂ get_elem? e (ap (λ j. j + 1) i))
            (omega (arith, len, i)) w in
        rw first (rw second (rw (k, b, c) refl))

    -- A request of two parts is accepted: its task runs behind the others.
    pub accept_task_lem :
        (p : Processor Msg) (rand : ℕ) (m n : Msg)
        → Comes src p.calls (m ∷ n ∷ [])
        → accept_task zmq dst show src parse p rand ≡ (done, accepted p n rand)
    unfolding accept_task size incoming_make
    accept_task_lem p rand m n c =
        after (receive_parts (dynamic_storage zmq) src (fresh p.calls) 2 true) (
          receive_parts-Counted (dynamic_storage zmq) IsOpen (2 ^ 61)
            (dynamic_storage-IsPartsStorage zmq laws) src 2 true (m ∷ n ∷ []) (fresh p.calls)
            (omega arith) (dynamic_make-IsOpen zmq laws)
            (omega (arith, ap length (dynamic_parts-dynamic_make zmq laws))) c)
      where
        after :
            (out : Done × Incoming Msg Store)
            → Counted
                (dynamic_storage zmq)
                IsOpen
                (2 ^ 61)
                (dynamic_storage-IsPartsStorage zmq laws)
                src
                2
                (m ∷ n ∷ [])
                true
                (fresh p.calls)
                out
            → read_task zmq dst show src parse p rand out ≡ (done, accepted p n rand)
        after (r, s) (d, z, k) =
            let parts : map held (dynamic_parts s.store) ≡ singles (m ∷ n ∷ []) =
              k.adds
              ∙ ap (λ ps. map held ps ++ singles (m ∷ n ∷ []))
                  (dynamic_parts-dynamic_make zmq laws) in
            let (valid, e) = singles-AllValid (dynamic_parts s.store) (m ∷ n ∷ []) parts in
            ap (λ x. read_task zmq dst show src parse p rand (x, s)) d
            ∙ reads p rand m n s k.extracts k.mode k.calls
                (Two-of m n (dynamic_parts s.store) valid e)
