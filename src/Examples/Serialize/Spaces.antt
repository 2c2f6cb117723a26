-- ===== src/Examples/Serialize/Spaces.antt =====
-- A structure that is sent as text, and its white space.
use zmqmessage.Base.{
  ℕ, ◌<◌, lt→ltb, ◌≡◌, refl, sym, ap, ◌∙◌, ◌↔◌, List, [], ◌∷◌, ◌++◌, false, ◌≤◌, length, arith, inl,
  inr, Bool-cases,
}
use zmqmessage.Zmq.{Result, ok, threw}
use zmqmessage.Bytes.{ℤ}
use zmqmessage.Examples.Serialize.{
  SomeData, array_size, Fits, IsInt, NoZero, is_space, skip_space, up_to_space, up_to_zero,
  read_word, write_data, read_data,
}

-- No character of a string is white space.
abbrev pub NoSpace : List ℕ → Type 0
NoSpace [] = Unit
NoSpace (b ∷ bs) = (is_space b ≡ false) × NoSpace bs

length-up_to_space : (bs : List ℕ) → length (up_to_space bs) ≤ length bs
length-up_to_space [] = omega arith
length-up_to_space (b ∷ bs) = elim (Bool-cases (is_space b)) [
  | inl e ↦ simp e (omega arith)
  | inr e ↦ simp e (omega (arith, length-up_to_space bs))
]

length-skip_space : (bs : List ℕ) → length (skip_space bs) ≤ length bs
length-skip_space [] = omega arith
length-skip_space (b ∷ bs) = elim (Bool-cases (is_space b)) [
  | inl e ↦ simp e (omega (arith, length-skip_space bs))
  | inr e ↦ simp e (omega arith)
]

up_to_space-NoSpace : (bs : List ℕ) → NoSpace bs → up_to_space bs ≡ bs
up_to_space-NoSpace [] h = refl
up_to_space-NoSpace (b ∷ bs) (e, h) = simp e (ap (◌∷◌ b) (up_to_space-NoSpace bs h))

NoSpace-of : (bs : List ℕ) → up_to_space bs ≡ bs → NoSpace bs
NoSpace-of [] h = tt
NoSpace-of (b ∷ bs) h = elim (Bool-cases (is_space b)) [
  | inl e ↦ let z : [] ≡ b ∷ bs = sym (simp e) ∙ h in cc
  | inr e ↦ let z : b ∷ up_to_space bs ≡ b ∷ bs = sym (simp e) ∙ h in (e, NoSpace-of bs (cc))
]

-- What is read of a string is the string exactly if it has no white space.
word_iff : (bs : List ℕ) → (up_to_space (skip_space bs) ≡ bs) ↔ NoSpace bs
word_iff [] = (λ h. tt, λ h. refl)
word_iff (b ∷ bs) = elim (Bool-cases (is_space b)) [
  | inl e ↦ (
    λ h.
        let z : up_to_space (skip_space bs) ≡ b ∷ bs = sym (simp e) ∙ h in
        absurd
          (omega (arith, ap length z, length-up_to_space (skip_space bs), length-skip_space bs)),
    λ h. cc,
  )
  | inr e ↦ (
    λ h. NoSpace-of (b ∷ bs) (simp e (sym (simp e) ∙ h)),
    λ h. simp e (ap (◌∷◌ b) (up_to_space-NoSpace bs h.1)),
  )
]

up_to_space-NoZero : (bs : List ℕ) → NoZero bs → NoZero (up_to_space bs)
up_to_space-NoZero [] h = tt
up_to_space-NoZero (b ∷ bs) (z, h) = elim (Bool-cases (is_space b)) [
  | inl e ↦ simp e tt
  | inr e ↦ simp e (z, up_to_space-NoZero bs h)
]

skip_space-NoZero : (bs : List ℕ) → NoZero bs → NoZero (skip_space bs)
skip_space-NoZero [] h = tt
skip_space-NoZero (b ∷ bs) (z, h) = elim (Bool-cases (is_space b)) [
  | inl e ↦ simp e (skip_space-NoZero bs h)
  | inr e ↦ simp e (z, h)
]

up_to_zero-NoZero : (bs : List ℕ) → NoZero bs → up_to_zero bs ≡ bs
up_to_zero-NoZero [] h = refl
up_to_zero-NoZero (b ∷ bs) (z, h) = simp z (ap (◌∷◌ b) (up_to_zero-NoZero bs h))

-- A word that fits and has no zero is read as it is.
read_word-fits :
    (n : ℤ) (word : List ℕ)
    → length word < array_size
    → NoZero word
    → read_word n word ≡ ok (record { f1 = n; f2 = word })
unfolding read_word
read_word-fits n word fits z =
    simp (lt→ltb (length word) array_size fits)
      (ap (λ w. ok (record { f1 = n; f2 = w })) (up_to_zero-NoZero word z))

string_of : SomeData → Result SomeData → List ℕ
string_of d (ok e) = e.f2
string_of d (threw e) = d.f2

module _ (show : ℤ → List ℕ) (read_int : List ℕ → ℤ × List ℕ)
    (digits : (z : ℤ) (bs : List ℕ) → IsInt z → read_int (show z ++ 58 ∷ bs) ≡ (z, 58 ∷ bs)) where
  read_data-write_data :
      (d : SomeData)
      → Fits d
      → read_data show read_int (write_data show read_int d)
        ≡ ok (record { f1 = d.f1; f2 = up_to_space (skip_space d.f2) })
  unfolding read_data write_data
  read_data-write_data d fits = rw (digits d.f1 d.f2 fits.int) (
      read_word-fits d.f1 (up_to_space (skip_space d.f2))
        (omega (arith, fits.array, length-up_to_space (skip_space d.f2), length-skip_space d.f2))
        (up_to_space-NoZero (skip_space d.f2) (skip_space-NoZero d.f2 fits.string)))

  -- A SomeData whose int has 32 bits and whose string fits into the array with the zero behind it
  -- is, once written by its operator<<, read back by its operator>> as it was exactly if its string
  -- has no white space, where an int of 32 bits that is written before a colon is read back up to
  -- the colon.
  pub read_data_iff :
      (d : SomeData)
      → Fits d
      → (read_data show read_int (write_data show read_int d) ≡ ok d) ↔ NoSpace d.f2
  unfolding string_of
  read_data_iff d fits = (
    λ h. (word_iff d.f2).0 (ap (string_of d) (sym (read_data-write_data d fits) ∙ h)),
    λ h.
        read_data-write_data d fits
        ∙ ap (λ bs. ok (record { f1 = d.f1; f2 = bs })) ((word_iff d.f2).1 h),
  )
