-- ===== src/Examples/StringFace.antt =====
-- examples/StringFace.hpp: a string that wraps memory, as the bytes that it wraps, and its order.
use Prim.Native.Nat.{Ordering, compare}
use zmqmessage.Base.{
  ℕ, zero, suc, ◌≡◌, refl, sym, ap, ap₂, ◌∙◌, ◌↔◌, ◌⊎◌, inl, inr, List, Bool, true, false, ◌&&◌,
  if◌then◌else◌, ltb, ◌==◌, length, take, min, arith, ==→eq, Bool-cases,
}
use zmqmessage.Bytes.{
  ℤ, pos, negsuc, sign, or_else, then_by, lex, IsMemcmp, sign-or_else, lex-take, lex_refl, lex-eq,
  lex_gt-iff_lt, lex_trans, take-length,
}

-- `StringFace(p, len)`
pub record StringFace : Type 0 where
  pub region : List ℕ

abbrev is_zero : ℤ → Bool
is_zero (pos zero) = true
is_zero (pos (suc n)) = false
is_zero (negsuc n) = false

abbrev is_negative : ℤ → Bool
is_negative (pos n) = false
is_negative (negsuc n) = true

module _ (memcmp : List ℕ → List ℕ → ℕ → ℤ) where
  -- `operator==`, with a string or a C string.
  pub equals : StringFace → List ℕ → Bool
  equals s t = (length t == length s.region) && is_zero (memcmp s.region t (length s.region))

  -- `compare`
  pub compare_faces : StringFace → StringFace → ℤ
  compare_faces s t = or_else (memcmp s.region t.region (min (length s.region) (length t.region))) (
      if length s.region == length t.region
      then pos 0
      else if ltb (length s.region) (length t.region)
      then negsuc 0
      else pos 1)

  -- `operator<`
  pub less : StringFace → StringFace → Bool
  unfolding compare_faces
  less s t = is_negative (compare_faces s t)

module _ (memcmp : List ℕ → List ℕ → ℕ → ℤ) (law : IsMemcmp memcmp) where
  lengths_sign :
      (a b : ℕ) → sign (if a == b then pos 0 else if ltb a b then negsuc 0 else pos 1) ≡ compare a b
  lengths_sign a b = ground arith

  compare_faces-lex : (s t : StringFace) → sign (compare_faces memcmp s t) ≡ lex s.region t.region
  unfolding compare_faces
  compare_faces-lex s t =
      let a = s.region in
      let b = t.region in
      sign-or_else (memcmp a b (min (length a) (length b))) _
      ∙ ap₂ then_by (law.sign_first a b (min (length a) (length b)) (omega arith) (omega arith))
          (lengths_sign (length a) (length b))
      ∙ sym (lex-take (min (length a) (length b)) a b refl)

  negative_sign : (z : ℤ) → (is_negative z ≡ true) ↔ (sign z ≡ Ordering.lt)
  negative_sign (pos zero) = (λ h. cc, λ h. cc)
  negative_sign (pos (suc n)) = (λ h. cc, λ h. cc)
  negative_sign (negsuc n) = (λ h. refl, λ h. refl)

  less-lex : (s t : StringFace) → (less memcmp s t ≡ true) ↔ (lex s.region t.region ≡ Ordering.lt)
  unfolding less
  less-lex s t =
      let (to, from) = negative_sign (compare_faces memcmp s t) in
      (λ h. sym (compare_faces-lex s t) ∙ to h, λ h. from (compare_faces-lex s t ∙ h))

  -- `operator<` is a strict total order of the contents, as `std::sort` requires: no string is
  -- before itself, the order is transitive, and of two strings one is before the other or they wrap
  -- the same bytes.
  pub record IsStrictOrder : Type 0 where
    pub irreflexive : (s : StringFace) → less memcmp s s ≡ false
    pub transitive :
        (s t u : StringFace)
        → less memcmp s t ≡ true
        → less memcmp t u ≡ true
        → less memcmp s u ≡ true
    pub total :
        (s t : StringFace)
        → (less memcmp s t ≡ true) ⊎ ((less memcmp t s ≡ true) ⊎ (s.region ≡ t.region))

  split_order : (o : Ordering) → (o ≡ Ordering.lt) ⊎ ((o ≡ Ordering.gt) ⊎ (o ≡ Ordering.eq))
  split_order Ordering.lt = inl refl
  split_order Ordering.gt = inr (inl refl)
  split_order Ordering.eq = inr (inr refl)

  -- `operator<` of StringFace is a strict total order of the contents: no string is before itself,
  -- the order is transitive, and of two strings one is before the other or they wrap the same
  -- bytes.
  pub less-IsStrictOrder : IsStrictOrder
  less-IsStrictOrder = record {
    irreflexive = λ s. elim (Bool-cases (less memcmp s s)) [
      | inl h ↦ absurd (cc ((less-lex s s).0 h, lex_refl s.region))
      | inr h ↦ h
    ];
    transitive = λ s t u h k.
        (less-lex s u).1
          (lex_trans s.region t.region u.region ((less-lex s t).0 h) ((less-lex t u).0 k));
    total = λ s t. elim (split_order (lex s.region t.region)) [
      | inl h ↦ inl ((less-lex s t).1 h)
      | inr (inl h) ↦ inr (inl ((less-lex t s).1 (lex_gt-iff_lt s.region t.region h)))
      | inr (inr h) ↦ inr (inr (lex-eq s.region t.region h))
    ];
  }

  zero_sign : (z : ℤ) → is_zero z ≡ true → sign z ≡ Ordering.eq
  zero_sign (pos zero) h = refl
  zero_sign (pos (suc n)) h = cc
  zero_sign (negsuc n) h = cc

  sign_zero : (z : ℤ) → sign z ≡ Ordering.eq → is_zero z ≡ true
  sign_zero (pos zero) h = refl
  sign_zero (pos (suc n)) h = cc
  sign_zero (negsuc n) h = cc

  -- `operator==` of StringFace is true exactly if the bytes are the same.
  pub equals_iff : (s : StringFace) (t : List ℕ) → (equals memcmp s t ≡ true) ↔ (s.region ≡ t)
  unfolding equals
  equals_iff s t = elim (Bool-cases (length t == length s.region)) [
    | inl e ↦
        let n : length t ≡ length s.region = ==→eq (length t) (length s.region) e in
        let first : sign (memcmp s.region t (length s.region)) ≡ lex s.region t =
          law.sign_first s.region t (length s.region) (omega arith) (omega (arith, n))
          ∙ ap₂ lex (take-length s.region) (ap (λ k. take k t) (sym n) ∙ take-length t) in
        (
          λ h. lex-eq s.region t (sym first ∙ zero_sign _ (ground (arith, e))),
          λ h.
              let z = sign_zero _ (first ∙ ap (lex s.region) (sym h) ∙ lex_refl s.region) in
              ground (arith, e, z),
        )
    | inr e ↦ (λ h. ground (arith, e), λ h. ground (arith, e, ap length h))
  ]
