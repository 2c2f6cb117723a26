-- ===== src/Bytes.antt =====
-- The order of strings of bytes, and what the library uses of <cstring> and of the int and size_t
-- types (neither <cstring> nor the compiler is part of the repository). int has 32 bits and size_t
-- has 64; a conversion to int keeps the low bits, as two's complement.
use Prim.Native.Nat.{compare, Ordering}
use zmqmessage.Base.{
  ℕ, zero, suc, ◌+◌, ◌-◌, ◌%◌, ◌^◌, ◌≤◌, ◌<◌, ◌≡◌, refl, ap, List, [], ◌∷◌, arith, if◌then◌else◌,
  ltb, length, take, min,
}

-- `negsuc n` is -(n + 1).
pub data ℤ : Type 0 where
  pos : ℕ → ℤ
  negsuc : ℕ → ℤ

abbrev pub sign : ℤ → Ordering
sign (pos zero) = Ordering.eq
sign (pos (suc n)) = Ordering.gt
sign (negsuc n) = Ordering.lt

-- `(int) n`
abbrev pub to_int : ℕ → ℤ
to_int n = if ltb (n % 2 ^ 32) (2 ^ 31) then pos (n % 2 ^ 32) else negsuc (2 ^ 32 - 1 - n % 2 ^ 32)

-- `a - b` on size_t
abbrev pub size_sub : ℕ → ℕ → ℕ
size_sub a b = (a + 2 ^ 64 - b) % 2 ^ 64

-- `ret ? ret : other`
abbrev pub or_else : ℤ → ℤ → ℤ
or_else (pos zero) other = other
or_else (pos (suc n)) other = pos (suc n)
or_else (negsuc n) other = negsuc n

-- The first order that decides.
abbrev pub then_by : Ordering → Ordering → Ordering
then_by Ordering.lt o = Ordering.lt
then_by Ordering.eq o = o
then_by Ordering.gt o = Ordering.gt

-- The lexicographic order, a prefix before what it begins.
abbrev pub lex : List ℕ → List ℕ → Ordering
lex [] [] = Ordering.eq
lex [] (y ∷ ys) = Ordering.lt
lex (x ∷ xs) [] = Ordering.gt
lex (x ∷ xs) (y ∷ ys) = then_by (compare x y) (lex xs ys)

-- The documented result of `memcmp (a, b, n)`: its sign is that of the first difference.
pub record IsMemcmp (memcmp : List ℕ → List ℕ → ℕ → ℤ) : Type 0 where
  pub sign_first :
      (a b : List ℕ) (n : ℕ)
      → n ≤ length a
      → n ≤ length b
      → sign (memcmp a b n) ≡ lex (take n a) (take n b)

pub sign-or_else : (r d : ℤ) → sign (or_else r d) ≡ then_by (sign r) (sign d)
sign-or_else (pos zero) d = refl
sign-or_else (pos (suc n)) d = refl
sign-or_else (negsuc n) d = refl

pub sign-to_int-size_sub :
    (a b : ℕ) → a < b + 2 ^ 31 → b < a + 2 ^ 31 → sign (to_int (size_sub a b)) ≡ compare a b
sign-to_int-size_sub a b h k = ground arith

-- Comparing the common length first, and then the lengths.
pub lex-take :
    (n : ℕ) (a b : List ℕ)
    → n ≡ min (length a) (length b)
    → lex a b ≡ then_by (lex (take n a) (take n b)) (compare (length a) (length b))
lex-take zero [] [] h = refl
lex-take zero [] (y ∷ ys) h = ground arith
lex-take zero (x ∷ xs) [] h = ground arith
lex-take zero (x ∷ xs) (y ∷ ys) h = absurd (omega arith)
lex-take (suc n) [] b h = absurd (omega arith)
lex-take (suc n) (x ∷ xs) [] h = absurd (omega arith)
lex-take (suc n) (x ∷ xs) (y ∷ ys) h = ground (arith, lex-take n xs ys (omega arith))

pub lex_refl : (a : List ℕ) → lex a a ≡ Ordering.eq
lex_refl [] = refl
lex_refl (x ∷ xs) = ground (arith, lex_refl xs)

pub lex-eq : (a b : List ℕ) → lex a b ≡ Ordering.eq → a ≡ b
lex-eq [] [] h = refl
lex-eq [] (y ∷ ys) h = cc
lex-eq (x ∷ xs) [] h = cc
lex-eq (x ∷ xs) (y ∷ ys) h = ground (arith, lex-eq xs ys)

pub lex_gt-iff_lt : (a b : List ℕ) → lex a b ≡ Ordering.gt → lex b a ≡ Ordering.lt
lex_gt-iff_lt [] [] h = cc
lex_gt-iff_lt [] (y ∷ ys) h = cc
lex_gt-iff_lt (x ∷ xs) [] h = refl
lex_gt-iff_lt (x ∷ xs) (y ∷ ys) h = ground (arith, lex_gt-iff_lt xs ys)

pub lex_trans :
    (a b c : List ℕ) → lex a b ≡ Ordering.lt → lex b c ≡ Ordering.lt → lex a c ≡ Ordering.lt
lex_trans [] [] c h k = cc
lex_trans [] (y ∷ ys) [] h k = cc
lex_trans [] (y ∷ ys) (z ∷ zs) h k = refl
lex_trans (x ∷ xs) [] c h k = cc
lex_trans (x ∷ xs) (y ∷ ys) [] h k = cc
lex_trans (x ∷ xs) (y ∷ ys) (z ∷ zs) h k = ground (arith, lex_trans xs ys zs)

pub take-length : (xs : List ℕ) → take (length xs) xs ≡ xs
take-length [] = refl
take-length (x ∷ xs) = ap (◌∷◌ x) (take-length xs)
