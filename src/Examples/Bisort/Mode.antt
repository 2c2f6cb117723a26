-- ===== src/Examples/Bisort/Mode.antt =====
-- The mode of a request, and the choice by it.
use zmqmessage.Base.{
  ℕ, ◌+◌, ◌^◌, ◌≡◌, ◌≢◌, refl, sym, ap, ap₂, ◌∙◌, inl, inr, List, [], ◌∷◌, ◌++◌, some, true, false,
  arith, length, map, get_elem?, Bool-cases,
}
use zmqmessage.Zmq.{MsgApi, IsMsgApi, threw, Done, done, assert_failed}
use zmqmessage.Bytes.{ℤ, pos, IsMemcmp}
use zmqmessage.Part.{Part, held, msgs, AllValid}
use zmqmessage.Storage.{DynamicPartsStorage, dynamic_make, dynamic_parts, default_capacity}
use zmqmessage.Storage.Interface.{dynamic_storage, IsOpen, dynamic_storage-IsPartsStorage}
use zmqmessage.Storage.Fresh.{dynamic_make-IsOpen, dynamic_parts-dynamic_make}
use zmqmessage.Incoming.{Incoming, size, incoming_make, receive_parts}
use zmqmessage.Incoming.Counting.{Comes, singles, verdict, Counted, receive_parts-Counted}
use zmqmessage.Incoming.Joining.{singles-AllValid}
use zmqmessage.Incoming.Extract.{extract-owned}
use zmqmessage.Examples.StringFace.{StringFace, equals, equals_iff}
use zmqmessage.Examples.Bisort.{
  Link, Relayer, int_mode, string_mode, stop_mode, some_addition, dispatch, with_mode, read_mode,
  serve, stop, int_branch, string_branch, forward,
}

-- The relayer that has read the first part of a request.
abbrev pub mode_read : {Msg : Type 0} → Relayer Msg → Relayer Msg
mode_read p = record p { relay = record { trace = p.relay.trace; calls = p.relay.calls + 1 } }

module _ {Msg : Type 0} (zmq : MsgApi Msg) (laws : IsMsgApi zmq) (relay s i : Link Msg)
    (memcmp : List ℕ → List ℕ → ℕ → ℤ) (law : IsMemcmp memcmp) (show : ℤ → List ℕ) where
  equal_face :
      (face : StringFace) (text : List ℕ) → face.region ≡ text → equals memcmp face text ≡ true
  equal_face face text e = (equals_iff memcmp law face text).1 e

  unequal_face :
      (face : StringFace) (text : List ℕ) → face.region ≢ text → equals memcmp face text ≡ false
  unequal_face face text d = elim (Bool-cases (equals memcmp face text)) [
    | inl e ↦ absurd (d ((equals_iff memcmp law face text).0 e))
    | inr e ↦ e
  ]

  pub dispatch_int :
      (fuel : ℕ) (face : StringFace) (p : Relayer Msg)
      → face.region ≡ int_mode
      → dispatch zmq relay s i memcmp show fuel face p
        ≡ int_branch zmq p (forward zmq relay fuel i (show (pos 38)) p.relay p.i)
  unfolding dispatch
  dispatch_int fuel face p e = simp (equal_face face int_mode e)

  pub dispatch_string :
      (fuel : ℕ) (face : StringFace) (p : Relayer Msg)
      → face.region ≡ string_mode
      → dispatch zmq relay s i memcmp show fuel face p
        ≡ string_branch zmq p (forward zmq relay fuel s some_addition p.relay p.s)
  unfolding dispatch
  dispatch_string fuel face p e = simp (
    unequal_face face int_mode (λ z. let y : string_mode ≡ int_mode = sym e ∙ z in cc),
    equal_face face string_mode e,
  )

  pub dispatch-stop :
      (fuel : ℕ) (face : StringFace) (p : Relayer Msg)
      → face.region ≡ stop_mode
      → dispatch zmq relay s i memcmp show fuel face p ≡ some (stop zmq relay s i memcmp show p)
  unfolding dispatch
  dispatch-stop fuel face p e = simp (
    unequal_face face int_mode (λ z. let y : stop_mode ≡ int_mode = sym e ∙ z in cc),
    unequal_face face string_mode (λ z. let y : stop_mode ≡ string_mode = sym e ∙ z in cc),
    equal_face face stop_mode e,
  )

  dispatch_unknown :
      (fuel : ℕ) (face : StringFace) (p : Relayer Msg)
      → face.region ≢ int_mode
      → face.region ≢ string_mode
      → face.region ≢ stop_mode
      → dispatch zmq relay s i memcmp show fuel face p ≡ some (threw assert_failed, p)
  unfolding dispatch
  dispatch_unknown fuel face p a b c =
      simp (
        unequal_face face int_mode a,
        unequal_face face string_mode b,
        unequal_face face stop_mode c,
      )

  -- One owned part, which holds `m`.
  abbrev One : Msg → List (Part Msg) → Type 0
  One m ps = (x : Part Msg) × (ps ≡ x ∷ []) × (x.valid ≡ true) × (x.msg ≡ m)

  One-of : (m : Msg) (ps : List (Part Msg)) → AllValid ps → msgs ps ≡ m ∷ [] → One m ps
  One-of m [] v e = cc
  One-of m (x ∷ []) (v, w) e = (x, refl, v, cc)
  One-of m (x ∷ y ∷ ps) v e = cc

  reads :
      (fuel : ℕ) (p : Relayer Msg) (m : Msg) (c : Incoming Msg (DynamicPartsStorage Msg))
      → c.cur_extract_idx ≡ 0
      → c.calls ≡ p.relay.calls + 1
      → One m (dynamic_parts c.store)
      → read_mode zmq relay s i memcmp show fuel p (done, c)
        ≡ dispatch zmq relay s i memcmp show fuel (record { region = zmq.bytes m }) (mode_read p)
  unfolding read_mode with_mode
  reads fuel p m c z n (x, e, v, k) =
      let len : length (dynamic_parts c.store) ≡ 1 = ap length e in
      let first =
        extract-owned (dynamic_storage zmq) (λ m binary. zmq.bytes m) c x (ap₂ get_elem? e z)
          (omega (arith, len, z)) v in
      rw first (rw (k, n) refl)

  -- A round goes by the first part of the request.
  pub serve-dispatch :
      (fuel : ℕ) (p : Relayer Msg) (mode : Msg) (ms : List Msg)
      → Comes relay.src p.relay.calls (mode ∷ ms)
      → serve zmq relay s i memcmp show fuel p
        ≡ dispatch zmq relay s i memcmp show fuel (record { region = zmq.bytes mode }) (mode_read p)
  unfolding serve incoming_make size
  serve-dispatch fuel p mode ms c =
      after (receive_parts (dynamic_storage zmq) relay.src fresh 1 false) (
        receive_parts-Counted (dynamic_storage zmq) IsOpen (2 ^ 61)
          (dynamic_storage-IsPartsStorage zmq laws) relay.src 1 false (mode ∷ ms) fresh
          (omega arith) (dynamic_make-IsOpen zmq laws)
          (omega (arith, ap length (dynamic_parts-dynamic_make zmq laws))) c)
    where
      fresh : Incoming Msg (DynamicPartsStorage Msg)
      fresh = incoming_make (dynamic_make zmq default_capacity) p.relay.calls

      after :
          (out : Done × Incoming Msg (DynamicPartsStorage Msg))
          → Counted
              (dynamic_storage zmq)
              IsOpen
              (2 ^ 61)
              (dynamic_storage-IsPartsStorage zmq laws)
              relay.src
              1
              (mode ∷ ms)
              false
              fresh
              out
          → read_mode zmq relay s i memcmp show fuel p out
            ≡ dispatch zmq relay s i memcmp show fuel
                (record { region = zmq.bytes mode })
                (mode_read p)
      after (r, t) (d, z, k) =
          let parts : map held (dynamic_parts t.store) ≡ singles (mode ∷ []) =
            k.adds
            ∙ ap (λ ps. map held ps ++ singles (mode ∷ [])) (dynamic_parts-dynamic_make zmq laws) in
          let (valid, e) = singles-AllValid (dynamic_parts t.store) (mode ∷ []) parts in
          let taken : verdict 1 (length (mode ∷ ms)) false ≡ done = ground arith in
          ap (λ x. read_mode zmq relay s i memcmp show fuel p (x, t)) (d ∙ taken)
          ∙ reads fuel p mode t k.extracts k.calls (One-of mode (dynamic_parts t.store) valid e)
