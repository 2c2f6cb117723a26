-- ===== src/Multipart/Iteration.antt =====
-- The iterator over the parts of a message.
use zmqmessage.Base.{
  Option, ℕ, zero, suc, ◌+◌, ◌≤◌, ◌<◌, ◌≡◌, refl, sym, ap, ◌∙◌, List, [], ◌∷◌, ◌++◌, some, Bool,
  true, false, map, arith, if◌then◌else◌, length, get_elem?, inl, inr, Bool-cases, length-append,
  append_assoc, leb, leb_of_le, leb_of_lt, get_elem?-middle,
}
use zmqmessage.Zmq.{Result, ok, threw, no_such_part}
use zmqmessage.Part.{Part, AllValid, msgs}
use zmqmessage.Multipart.Access.{at-owned, at_released}
use zmqmessage.Multipart.{
  Iterator, Conversion, copy_parts, copy_from, copy_range, copied, value_before, iter_at, iter_end,
  iter_next, iter_equal, set_cur, set_value,
}

module _ {Msg T : Type 0} (get : Conversion Msg T) where
  abbrev put_first : T → Result (List T) → Result (List T)
  put_first v (ok vs) = ok (v ∷ vs)
  put_first v (threw e) = threw e

  -- What the parts hold: the converted content of each, if all are owned.
  abbrev pub contents_of : Bool → List (Part Msg) → Result (List T)
  contents_of binary [] = ok []
  contents_of binary (p ∷ ps) =
      if p.valid
      then put_first (get.convert p.msg binary) (contents_of binary ps)
      else threw no_such_part

  pub contents_of-AllValid :
      (binary : Bool) (ps : List (Part Msg))
      → AllValid ps
      → contents_of binary ps ≡ ok (map (λ m. get.convert m binary) (msgs ps))
  contents_of-AllValid binary [] v = refl
  contents_of-AllValid binary (p ∷ ps) (v, vs) =
      simp v (ap (put_first (get.convert p.msg binary)) (contents_of-AllValid binary ps vs))

  abbrev cursor : ℕ → Bool → List (Part Msg) → ℕ → T → Iterator T
  cursor name binary parts i c = record {
    multipart = name;
    size = length parts;
    idx = i;
    cur = c;
    binary_mode = binary;
  }

  -- What set_cur gives where the parts `suf` are to come.
  abbrev stepped : ℕ → Bool → List (Part Msg) → List (Part Msg) → ℕ → T → Result (Iterator T)
  stepped name binary parts [] i c = ok (cursor name binary parts i c)
  stepped name binary parts (p ∷ suf) i c =
      if p.valid
      then ok (cursor name binary parts i (get.convert p.msg binary))
      else threw no_such_part

  set_cur_end :
      (name : ℕ) (binary : Bool) (parts : List (Part Msg)) (i : ℕ) (c : T)
      → length parts ≤ i
      → set_cur get parts (cursor name binary parts i c) ≡ ok (cursor name binary parts i c)
  unfolding set_cur
  set_cur_end name binary parts i c h = simp (leb_of_le (length parts) i h)

  set_cur_part :
      (name : ℕ) (binary : Bool) (parts : List (Part Msg)) (i : ℕ) (c : T) (p : Part Msg)
      → i < length parts
      → get_elem? parts i ≡ some p
      → set_cur get parts (cursor name binary parts i c) ≡ (
          if p.valid
          then ok (cursor name binary parts i (get.convert p.msg binary))
          else threw no_such_part)
  unfolding set_cur set_value
  set_cur_part name binary parts i c p h e = elim (Bool-cases p.valid) [
    | inl v ↦ simp (leb_of_lt (length parts) i h, at-owned parts i p e h v, v)
    | inr v ↦ simp (leb_of_lt (length parts) i h, at_released parts i p e h v, v)
  ]

  set_cur-stepped :
      (name : ℕ) (binary : Bool) (parts pre suf : List (Part Msg)) (i : ℕ) (c : T)
      → parts ≡ pre ++ suf
      → i ≡ length pre
      → set_cur get parts (cursor name binary parts i c) ≡ stepped name binary parts suf i c
  set_cur-stepped name binary parts pre [] i c e l =
      set_cur_end name binary parts i c (omega (arith, ap length e, length-append {0} pre []))
  set_cur-stepped name binary parts pre (p ∷ suf) i c e l =
      set_cur_part name binary parts i c p
        (omega (arith, ap length e, length-append {0} pre (p ∷ suf)))
        (rw (e, l) (get_elem?-middle pre p suf))

  equal_cursor :
      (name : ℕ) (b b' : Bool) (parts : List (Part Msg)) (i : ℕ) (c d : T)
      → i ≤ length parts
      → iter_equal get (cursor name b parts i c) (cursor name b' parts (length parts) d)
        ≡ leb (length parts) i
  unfolding iter_equal
  equal_cursor name b b' parts i c d h = ground arith

  -- The current value is that of the first part to come, which is owned.
  abbrev Starts : Bool → List (Part Msg) → T → Type 0
  Starts binary [] c = Unit
  Starts binary (p ∷ ps) c = (p.valid ≡ true) × (c ≡ get.convert p.msg binary)

  before_contents :
      (c : T) (r : Result (List T)) → value_before get c (some r) ≡ some (put_first c r)
  unfolding value_before
  before_contents c (ok vs) = refl
  before_contents c (threw e) = refl

  -- A value is copied, and the iterator moves to the parts `suf`.
  moves :
      (name : ℕ) (binary : Bool) (parts suf : List (Part Msg)) (i : ℕ) (c : T)
      (rest : Iterator T → Option (Result (List T)))
      → ((d : T)
          → Starts binary suf d
          → rest (cursor name binary parts i d) ≡ some (contents_of binary suf))
      → copied get c (stepped name binary parts suf i c) rest
        ≡ some (put_first c (contents_of binary suf))
  unfolding copied
  moves name binary parts [] i c rest ih =
      ap (value_before get c) (ih c tt) ∙ before_contents c (contents_of binary [])
  moves name binary parts (p ∷ suf) i c rest ih = elim (Bool-cases p.valid) [
    | inl v ↦ simp v (
        ap (value_before get c)
          {y = some (put_first (get.convert p.msg binary) (contents_of binary suf))}
          (ih (get.convert p.msg binary) (v, refl) ∙ simp v)
        ∙ before_contents c (put_first (get.convert p.msg binary) (contents_of binary suf)))
    | inr v ↦ simp v
  ]

  walk_end :
      (fuel : ℕ) (parts : List (Part Msg)) (it stop : Iterator T)
      → iter_equal get it stop ≡ true
      → copy_range get (suc fuel) parts it stop ≡ some (ok [])
  unfolding copy_range
  walk_end fuel parts it stop e = simp e

  walk_on :
      (fuel : ℕ) (parts : List (Part Msg)) (it stop : Iterator T)
      → iter_equal get it stop ≡ false
      → copy_range get (suc fuel) parts it stop
        ≡ copied get it.cur (iter_next get parts it) (λ next. copy_range get fuel parts next stop)
  unfolding copy_range
  walk_on fuel parts it stop e = simp e

  walk :
      (name : ℕ) (binary : Bool) (fuel : ℕ) (parts pre suf : List (Part Msg)) (i : ℕ) (c : T)
      → length suf < fuel
      → parts ≡ pre ++ suf
      → i ≡ length pre
      → Starts binary suf c
      → copy_range get fuel parts
          (cursor name binary parts i c)
          (cursor name false parts (length parts) get.default)
        ≡ some (contents_of binary suf)
  unfolding iter_next
  walk name binary zero parts pre suf i c h e l s = elim h [ ]
  walk name binary (suc fuel) parts pre [] i c h e l s =
      let n : length parts ≤ i = omega (arith, ap length e, length-append {0} pre []) in
      let m : i ≤ length parts = omega (arith, ap length e, length-append {0} pre []) in
      walk_end fuel parts (cursor name binary parts i c) _
        (equal_cursor name binary false parts i c get.default m ∙ leb_of_le (length parts) i n)
  walk name binary (suc fuel) parts pre (p ∷ suf) i c h e l (v, s) =
      let n : i < length parts = omega (arith, ap length e, length-append {0} pre (p ∷ suf)) in
      let e' = e ∙ sym (append_assoc pre (p ∷ []) suf) in
      let l' : i + 1 ≡ length (pre ++ p ∷ []) = omega (arith, l, length-append {0} pre (p ∷ [])) in
      let stop : Iterator T = cursor name false parts (length parts) get.default in
      walk_on fuel parts (cursor name binary parts i c) stop (
        equal_cursor name binary false parts i c get.default (omega arith)
        ∙ leb_of_lt (length parts) i n)
      ∙ ap (λ r. copied get c r (λ next. copy_range get fuel parts next stop))
          (set_cur-stepped name binary parts (pre ++ p ∷ []) suf (i + 1) c e' l')
      ∙ moves name binary parts suf (i + 1) c (λ next. copy_range get fuel parts next stop)
          (λ d k. walk name binary fuel parts (pre ++ p ∷ []) suf (i + 1) d (omega arith) e' l' k)
      ∙ simp (v, s)

  begins :
      (name : ℕ) (binary : Bool) (parts suf : List (Part Msg))
      → parts ≡ suf
      → copy_from get
          (suc (length parts))
          parts
          (stepped name binary parts suf 0 get.default)
          (ok (cursor name false parts (length parts) get.default))
        ≡ some (contents_of binary suf)
  unfolding copy_from
  begins name binary parts [] e =
      walk name binary (suc (length parts)) parts [] [] 0 get.default (omega arith) e refl tt
  begins name binary parts (p ∷ suf) e = elim (Bool-cases p.valid) [
    | inl v ↦ simp v (
        walk name binary (suc (length parts)) parts [] (p ∷ suf) 0 (get.convert p.msg binary)
          (omega (arith, ap length e)) e refl (v, refl)
        ∙ simp v)
    | inr v ↦ simp v
  ]

  -- Copying from begin to end ends after one comparison more than there are parts: where the
  -- message owns all its parts it gives the converted content of each, in order, and otherwise
  -- NoSuchPartError is thrown.
  pub copy_parts_lem :
      (name : ℕ) (binary : Bool) (parts : List (Part Msg))
      → copy_parts get (suc (length parts)) name binary parts ≡ some (contents_of binary parts)
  unfolding copy_parts iter_at iter_end
  copy_parts_lem name binary parts =
      ap
        (λ r.
          copy_from get (suc (length parts)) parts r
            (set_cur get parts (cursor name false parts (length parts) get.default)))
        (set_cur-stepped name binary parts [] parts 0 get.default refl refl)
      ∙ ap
          (λ r.
            copy_from get (suc (length parts)) parts (stepped name binary parts parts 0 get.default)
              r)
          (set_cur_end name false parts (length parts) get.default (omega arith))
      ∙ begins name binary parts parts refl
