-- ===== src/Multipart/Holding.antt =====
-- Parts that are owned, from one of them on.
use zmqmessage.Base.{
  ℕ, zero, suc, ◌+◌, ◌<◌, ◌≡◌, refl, sym, ap, ◌∙◌, List, [], ◌∷◌, some, true, arith, length, subst,
  get_elem?, set, take, drop, get_elem?-set, length-set, ne→==,
}
use zmqmessage.Part.{Part, msgs, AllValid}

module _ {Msg : Type 0} where
  -- From part `i` on, the parts are owned and hold `ms`.
  abbrev pub Holding : List (Part Msg) → ℕ → List Msg → Type 0
  Holding parts i [] = Unit
  Holding parts i (m ∷ ms) =
      ((p : Part Msg) × (get_elem? parts i ≡ some p)
        × (i < length parts)
        × (p.valid ≡ true)
        × (p.msg ≡ m))
      × Holding parts (i + 1) ms

  Holding-suc :
      (x : Part Msg) (parts : List (Part Msg)) (i : ℕ) (ms : List Msg)
      → Holding parts i ms
      → Holding (x ∷ parts) (i + 1) ms
  Holding-suc x parts i [] h = tt
  Holding-suc x parts i (m ∷ ms) ((p, e, l, v, k), h) =
      ((p, ground (arith, e), omega arith, v, k), Holding-suc x parts (i + 1) ms h)

  pub all-Holding : (parts : List (Part Msg)) → AllValid parts → Holding parts 0 (msgs parts)
  all-Holding [] v = tt
  all-Holding (p ∷ parts) (v, vs) =
      ((p, refl, omega arith, v, refl), Holding-suc p parts 0 (msgs parts) (all-Holding parts vs))

  pub Holding-drop :
      (parts : List (Part Msg)) (i n : ℕ) (ms : List Msg)
      → Holding parts i ms
      → Holding parts (i + n) (drop n ms)
  Holding-drop parts i zero ms h = subst (λ k. Holding parts k ms) (omega arith) h
  Holding-drop parts i (suc n) [] h = tt
  Holding-drop parts i (suc n) (m ∷ ms) (p, h) =
      subst (λ k. Holding parts k (drop n ms)) (omega arith) (Holding-drop parts (i + 1) n ms h)

  pub Holding-take :
      (parts : List (Part Msg)) (i n : ℕ) (ms : List Msg)
      → Holding parts i ms
      → Holding parts i (take n ms)
  Holding-take parts i zero ms h = tt
  Holding-take parts i (suc n) [] h = tt
  Holding-take parts i (suc n) (m ∷ ms) (p, h) = (p, Holding-take parts (i + 1) n ms h)

  -- Changing an earlier part is no matter.
  pub Holding-set :
      (parts : List (Part Msg)) (i j : ℕ) (x : Part Msg) (ms : List Msg)
      → j < i
      → j < length parts
      → Holding parts i ms
      → Holding (set parts j x) i ms
  Holding-set parts i j x [] l k h = tt
  Holding-set parts i j x (m ∷ ms) l k ((p, e, b, v, c), h) = (
    (
      p,
      get_elem?-set parts j i x k ∙ simp (ne→== j i (omega arith)) e,
      omega (arith, length-set parts j x),
      v,
      c,
    ),
    Holding-set parts (i + 1) j x ms (omega arith) k h,
  )

  pub set_same :
      (parts : List (Part Msg)) (i : ℕ) (p : Part Msg)
      → get_elem? parts i ≡ some p
      → set parts i p ≡ parts
  set_same [] i p e = refl
  set_same (x ∷ parts) zero p e = let h : x ≡ p = cc in ap (λ y. y ∷ parts) (sym h)
  set_same (x ∷ parts) (suc i) p e = ap (◌∷◌ x) (set_same parts i p e)
