-- ===== src/Tools/Compare.antt =====
-- `msgcmp` of include/ZmqTools.hpp.
use Prim.Native.Nat.{Ordering}
use zmqmessage.Base.{
  ℕ, zero, suc, ◌+◌, ◌*◌, ◌^◌, ◌<◌, ◌≡◌, refl, sym, ap, ap₂, ◌∙◌, List, length, take, min, arith,
}
use zmqmessage.Zmq.{MsgApi}
use zmqmessage.Bytes.{
  ℤ, pos, negsuc, sign, to_int, size_sub, or_else, then_by, lex, IsMemcmp, sign-or_else,
  sign-to_int-size_sub, lex-take, lex_refl, take-length,
}

module _ {Msg : Type 0} (zmq : MsgApi Msg) (memcmp : List ℕ → List ℕ → ℕ → ℤ) where
  -- `msgcmp(message, str, len)`, also for a C string and a string object. The difference of the
  -- sizes is a size_t, which is converted to int.
  pub msgcmp_region : Msg → List ℕ → ℤ
  msgcmp_region m str =
      or_else (memcmp (zmq.bytes m) str (min (length (zmq.bytes m)) (length str)))
        (to_int (size_sub (length (zmq.bytes m)) (length str)))

  -- `msgcmp(message1, message2)`
  pub msgcmp : Msg → Msg → ℤ
  msgcmp m n =
      or_else
        (memcmp (zmq.bytes m) (zmq.bytes n) (min (length (zmq.bytes m)) (length (zmq.bytes n))))
        (to_int (size_sub (length (zmq.bytes m)) (length (zmq.bytes n))))

zero_of_sign : (z : ℤ) → sign z ≡ Ordering.eq → z ≡ pos 0
zero_of_sign (pos zero) h = refl
zero_of_sign (pos (suc n)) h = cc
zero_of_sign (negsuc n) h = cc

module _ {Msg : Type 0} (zmq : MsgApi Msg) (memcmp : List ℕ → List ℕ → ℕ → ℤ)
    (law : IsMemcmp memcmp) where
  first_difference :
      (a b : List ℕ)
      → sign (
          or_else
            (memcmp a b (min (length a) (length b)))
            (to_int (size_sub (length a) (length b))))
        ≡ then_by
            (lex (take (min (length a) (length b)) a) (take (min (length a) (length b)) b))
            (sign (to_int (size_sub (length a) (length b))))
  first_difference a b =
      sign-or_else (memcmp a b (min (length a) (length b))) _
      ∙ ap (λ o. then_by o (sign (to_int (size_sub (length a) (length b)))))
          (law.sign_first a b (min (length a) (length b)) (omega arith) (omega arith))

  -- If the sizes of two messages differ by less than 2 ^ 31, the sign of `msgcmp` is the
  -- lexicographic order of their bytes, and comparing with the second message's bytes as a region
  -- gives the same number.
  pub msgcmp-lex :
      (m n : Msg)
      → length (zmq.bytes m) < length (zmq.bytes n) + 2 ^ 31
      → length (zmq.bytes n) < length (zmq.bytes m) + 2 ^ 31
      → (sign (msgcmp zmq memcmp m n) ≡ lex (zmq.bytes m) (zmq.bytes n))
        × (msgcmp_region zmq memcmp m (zmq.bytes n) ≡ msgcmp zmq memcmp m n)
  unfolding msgcmp msgcmp_region
  msgcmp-lex m n h k =
      let a = zmq.bytes m in
      let b = zmq.bytes n in
      (
        first_difference a b
            ∙ ap
                (then_by
                  (lex (take (min (length a) (length b)) a) (take (min (length a) (length b)) b)))
                (sign-to_int-size_sub (length a) (length b) h k)
            ∙ sym (lex-take (min (length a) (length b)) a b refl),
        refl,
      )

  sign_wrapped : (a b k : ℕ) → a ≡ b + k * 2 ^ 32 → sign (to_int (size_sub a b)) ≡ Ordering.eq
  sign_wrapped a b k h = ground arith

  -- If one message continues the other and their sizes differ by a multiple of 2 ^ 32, `msgcmp`
  -- gives 0: it calls them equal although the longer one may have more bytes.
  pub msgcmp_wraps :
      (m n : Msg) (k : ℕ)
      → length (zmq.bytes m) ≡ length (zmq.bytes n) + k * 2 ^ 32
      → take (length (zmq.bytes n)) (zmq.bytes m) ≡ zmq.bytes n
      → msgcmp zmq memcmp m n ≡ pos 0
  unfolding msgcmp
  msgcmp_wraps m n k h prefix =
      let a = zmq.bytes m in
      let b = zmq.bytes n in
      let common : min (length a) (length b) ≡ length b = omega (arith, h) in
      let same : lex (take (min (length a) (length b)) a) (take (min (length a) (length b)) b)
          ≡ Ordering.eq =
        rw (common, prefix, take-length b) (lex_refl b) in
      zero_of_sign _
        (first_difference a b ∙ ap₂ then_by same (sign_wrapped (length a) (length b) k h))
