-- ===== src/Examples/Sorter/Sorted.antt =====
-- What the sorting thread answers.
use mathlib.Core.List.{Perm}
use zmqmessage.Base.{
  ℕ, suc, ◌+◌, ◌^◌, ◌≤◌, ◌<◌, ◌≡◌, refl, sym, ap, ap₂, ◌∙◌, List, [], ◌∷◌, ◌++◌, Option, none, some,
  Bool, true, false, map, arith, length, subst, ne→==, length-map,
}
use zmqmessage.Zmq.{MsgApi, IsMsgApi, Event, Dest, Source, Result, ok, threw, Done, zmq_error}
use zmqmessage.Part.{Part, held, msgs, AllValid}
use zmqmessage.Options.{has_option}
use zmqmessage.Storage.{DynamicPartsStorage, dynamic_make, dynamic_parts, default_capacity}
use zmqmessage.Storage.Interface.{dynamic_storage, IsOpen, dynamic_storage-IsPartsStorage}
use zmqmessage.Storage.Fresh.{dynamic_make-IsOpen, dynamic_parts-dynamic_make}
use zmqmessage.Sink.{Sink, sink_make, sink_destroy}
use zmqmessage.Sink.Trace.{wire, frames}
use zmqmessage.Sink.Delivery.{send_all, and_flush}
use zmqmessage.Sink.Kept.{sink_destroy-flush}
use zmqmessage.Sink.OnWire.{OnWire, send_all_wire}
use zmqmessage.Tools.{init_msg}
use zmqmessage.Tools.Text.{bytes-init_msg}
use zmqmessage.Inserting.Iterator.{part_of, copy_values-eq-insert_all}
use zmqmessage.Multipart.{Conversion, copy_parts}
use zmqmessage.Multipart.Iteration.{contents_of-AllValid, copy_parts_lem}
use zmqmessage.Incoming.{Incoming, size, incoming_make, receive_all_parts}
use zmqmessage.Incoming.Counting.{Comes, singles}
use zmqmessage.Incoming.Everything.{Complete, receive_all-Complete}
use zmqmessage.Incoming.Joining.{singles-AllValid}
use zmqmessage.Examples.Sorter.{flushed, respond, next_round, sorted, received, round}

-- No value is before the one in front of it.
abbrev pub Ascending : {T : Type 0} → (T → T → Bool) → List T → Type 0
Ascending less [] = Unit
Ascending less (x ∷ []) = Unit
Ascending less (x ∷ y ∷ zs) = (less y x ≡ false) × Ascending less (y ∷ zs)

-- What is documented of `std::sort` by `operator<`: it rearranges a range of values in order.
pub record IsSort {T : Type 0} (less : T → T → Bool) (sort : List T → List T) : Type 0 where
  pub rearranges : (ts : List T) → Perm ts (sort ts)
  pub same_length : (ts : List T) → length (sort ts) ≡ length ts
  pub ascends : (ts : List T) → Ascending less (sort ts)

-- In text mode a message can be made of every value, and one that holds the bytes of a value reads
-- as the value.
pub record IsCodec {Msg T : Type 0} (zmq : MsgApi Msg) (values : Conversion Msg T)
    (encode : T → Bool → List ℕ) : Type 0 where
  pub message : T → Msg
  pub makes : (t : T) → init_msg zmq (encode t false) ≡ ok (message t)
  pub reads : (m : Msg) (t : T) → zmq.bytes m ≡ encode t false → values.convert m false ≡ t

module _ {Msg T : Type 0} (zmq : MsgApi Msg) (laws : IsMsgApi zmq) (dst : Dest Msg)
    (src : Source Msg) (values : Conversion Msg T) (encode : T → Bool → List ℕ)
    (less : T → T → Bool) (sort : List T → List T) (codec : IsCodec zmq values encode)
    (law : IsSort less sort) where
  -- The value that a message holds.
  abbrev pub reading : Msg → T
  reading m = values.convert m false

  flushed-and_flush :
      (out : Done × Sink Msg) → flushed zmq dst src values encode sort out ≡ and_flush zmq dst out
  unfolding flushed
  flushed-and_flush (ok _, s) = refl
  flushed-and_flush (threw e, s) = refl

  abbrev parts_of : List T → List (Part Msg)
  parts_of = map (part_of zmq dst encode false codec.message codec.makes)

  respond-send_all :
      (words : List T)
      → respond zmq dst src values encode sort words
        ≡ send_all zmq dst (parts_of words) (sink_make zmq 0 false none)
  unfolding respond send_all has_option sink_make
  respond-send_all words =
      flushed-and_flush _
      ∙ ap (and_flush zmq dst) (
          copy_values-eq-insert_all zmq dst encode false codec.message codec.makes words
            (sink_make zmq 0 false none) refl)

  parts_of-AllValid :
      (words : List T)
      → AllValid (parts_of words) × (msgs (parts_of words) ≡ map codec.message words)
  parts_of-AllValid [] = (tt, refl)
  parts_of-AllValid (w ∷ words) =
      let (v, e) = parts_of-AllValid words in ((refl, v), ap (◌∷◌ (codec.message w)) e)

  reading-message : (ts : List T) → map reading (map codec.message ts) ≡ ts
  reading-message [] = refl
  reading-message (t ∷ ts) =
      ap₂ ◌∷◌
        (codec.reads (codec.message t) t
          (bytes-init_msg zmq laws (encode t false) (codec.message t) (codec.makes t)))
        (reading-message ts)

  respond-OnWire :
      (words : List T)
      → 2 ≤ length words
      → length words < 2 ^ 61
      → OnWire zmq laws dst (map codec.message words) (respond zmq dst src values encode sort words)
  unfolding has_option
  respond-OnWire words long small =
      let (v, e) = parts_of-AllValid words in
      let l : length (parts_of words) ≡ length words = length-map _ words in
      let k : length (msgs (parts_of words)) ≡ length (parts_of words) =
        length-map _ (parts_of words) in
      subst (OnWire zmq laws dst (map codec.message words)) (sym (respond-send_all words)) (
        subst
          (λ ns.
            OnWire zmq laws dst ns (send_all zmq dst (parts_of words) (sink_make zmq 0 false none)))
          e
          (send_all_wire zmq laws dst 0 false none (parts_of words) refl refl v
            (omega (arith, k, l)) (omega (arith, l))))

  -- The answer to the strings `ms` is the same strings in order, whole on the wire.
  abbrev pub Sorted : List Msg → ℕ → Option (Result Bool × List (Event Msg) × ℕ) → Type 0
  Sorted ms calls none = ⊥
  Sorted ms calls (some (ok again, trace, c)) =
      (again ≡ true)
      × (c ≡ calls + length ms)
      × ((ns : List Msg) × (wire trace ≡ frames ns)
          × Perm (map reading ms) (map reading ns)
          × Ascending less (map reading ns))
  Sorted ms calls (some (threw e, trace, c)) = e ≡ zmq_error

  sorted-Sorted :
      (ms : List Msg) (calls c : ℕ)
      → 2 ≤ length ms
      → length ms < 2 ^ 61
      → c ≡ calls + length ms
      → Sorted ms calls (sorted zmq dst src values encode sort (some (ok (map reading ms))) c)
  unfolding sorted next_round
  sorted-Sorted ms calls c long small e =
      let words = sort (map reading ms) in
      let l : length words ≡ length ms = law.same_length (map reading ms) ∙ length-map _ ms in
      ends (respond zmq dst src values encode sort words)
        (respond-OnWire words (omega (arith, l)) (omega (arith, l)))
    where
      ends :
          (out : Done × Sink Msg)
          → OnWire zmq laws dst (map codec.message (sort (map reading ms))) out
          → Sorted ms calls (
              some (
                next_round zmq dst src values encode sort out.0,
                (sink_destroy zmq dst out.1).trace,
                c,
              ))
      ends (ok _, t) (f, v, w) =
          let words = sort (map reading ms) in
          let back = sym (reading-message words) in
          (
            refl,
            e,
            (
              map codec.message words,
              ap (λ (u : Sink Msg). wire u.trace) (sink_destroy-flush zmq laws dst t f v) ∙ w,
              subst (Perm (map reading ms)) back (law.rearranges (map reading ms)),
              subst (Ascending less) back (law.ascends (map reading ms)),
            ),
          )
      ends (threw e, t) z = z

  -- One round of the sorting thread, for any type of values whose text reads back and of which
  -- messages can be made, where a message `ms` of 2 to 2 ^ 61 - 1 parts comes and std::sort does
  -- what it promises: fuel for one round more than there are parts is enough, and either
  -- zmq::error_t is thrown or the thread goes on, one call of recv was made for each part, and what
  -- has gone over the wire is one whole multipart message whose values are those of `ms`,
  -- rearranged so that none is before the one in front of it.
  pub round-Sorted :
      (ms : List Msg) (calls : ℕ)
      → 2 ≤ length ms
      → length ms < 2 ^ 61
      → Comes src calls ms
      → Sorted ms calls (round zmq dst src values encode sort (suc (length ms)) calls)
  unfolding round size incoming_make
  round-Sorted ms calls long small c =
      let fresh : Incoming Msg (DynamicPartsStorage Msg) =
        incoming_make (dynamic_make zmq default_capacity) calls in
      after (receive_all_parts (dynamic_storage zmq) src (suc (length ms)) fresh 0) (
        receive_all-Complete (dynamic_storage zmq) IsOpen (2 ^ 61)
          (dynamic_storage-IsPartsStorage zmq laws) src (suc (length ms)) 0 ms fresh (omega arith)
          (omega arith) refl (dynamic_make-IsOpen zmq laws)
          (omega (arith, ap length (dynamic_parts-dynamic_make zmq laws))) c)
    where
      after :
          (out : Option (Done × Incoming Msg (DynamicPartsStorage Msg)))
          → Complete
              (dynamic_storage zmq)
              IsOpen
              (2 ^ 61)
              (dynamic_storage-IsPartsStorage zmq laws)
              src
              ms
              (incoming_make (dynamic_make zmq default_capacity) calls)
              out
          → Sorted ms calls (received zmq dst src values encode sort (suc (length ms)) out)
      after none k = k
      after (some (r, s)) (d, z, k) =
          let parts = dynamic_parts s.store in
          let shape : map held parts ≡ singles ms =
            k.adds ∙ ap (λ ps. map held ps ++ singles ms) (dynamic_parts-dynamic_make zmq laws) in
          let (valid, e) = singles-AllValid parts ms shape in
          let n : length parts ≡ length ms =
            sym (length-map (λ (p : Part Msg). p.msg) parts) ∙ ap length e in
          let copied : copy_parts values (suc (length ms)) 0 false parts
              ≡ some (ok (map reading ms)) =
            ap (λ m. copy_parts values (suc m) 0 false parts) (sym n)
            ∙ copy_parts_lem values 0 false parts
            ∙ ap some (contents_of-AllValid values false parts valid)
            ∙ ap (λ ks. some (ok (map reading ks))) e in
          subst
            (λ x.
              Sorted ms calls
                (received zmq dst src values encode sort (suc (length ms)) (some (x, s))))
            (sym d)
            (unfold received in
              simp (ne→== (length parts) 1 (omega (arith, n)), copied)
                (sorted-Sorted ms calls s.calls long small k.calls))
