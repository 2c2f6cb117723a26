-- ===== src/Tests/Comparing.antt =====
-- Values in messages, the comparison of messages and of string faces, and the output iterator.
use Prim.Native.Nat.{Ordering}
use zmqmessage.Base.{
  ℕ, ◌≡◌, refl, ap, ◌∙◌, ◌^◌, List, [], ◌∷◌, Bool, false, replicate, length, take, length-replicate,
  arith,
}
use zmqmessage.Bytes.{ℤ, pos, negsuc, sign, lex, IsMemcmp}
use zmqmessage.Sink.Delivery.{insert_all}
use zmqmessage.Inserting.Iterator.{copy_values, copy_values-eq-insert_all}
use zmqmessage.Options.{has_option}
use zmqmessage.Tools.{init_msg}
use zmqmessage.Tools.Text.{Streamed, Stored}
use zmqmessage.Tools.Compare.{msgcmp, msgcmp_region, msgcmp-lex, msgcmp_wraps}
use zmqmessage.Examples.StringFace.{IsStrictOrder, less-IsStrictOrder}
use zmqmessage.Tests.Samples.{Bytes, bytes_api, open_socket, first_sink, part}

-- A number as a text of as many letters, and as a region of one byte.
abbrev letters : Streamed ℕ
letters = record { read = length; write = λ n. replicate n 65 }

abbrev first_byte : List ℕ → ℕ
first_byte [] = 0
first_byte (b ∷ bs) = b

abbrev one_byte : Stored ℕ
one_byte = record { load = first_byte; store = λ n. n ∷ [] }

abbrev of_order : Ordering → ℤ
of_order Ordering.lt = negsuc 0
of_order Ordering.eq = pos 0
of_order Ordering.gt = pos 1

abbrev pub plain_memcmp : List ℕ → List ℕ → ℕ → ℤ
plain_memcmp a b n = of_order (lex (take n a) (take n b))

sign-of_order : (o : Ordering) → sign (of_order o) ≡ o
sign-of_order Ordering.lt = refl
sign-of_order Ordering.eq = refl
sign-of_order Ordering.gt = refl

pub plain_memcmp-IsMemcmp : IsMemcmp plain_memcmp
plain_memcmp-IsMemcmp = record {
  sign_first = λ a b n h k. sign-of_order (lex (take n a) (take n b));
}

msgcmp-lex_example :
    (sign (msgcmp bytes_api plain_memcmp (1 ∷ 2 ∷ []) (1 ∷ [])) ≡ lex (1 ∷ 2 ∷ []) (1 ∷ []))
    × (msgcmp_region bytes_api plain_memcmp (1 ∷ 2 ∷ []) (1 ∷ [])
        ≡ msgcmp bytes_api plain_memcmp (1 ∷ 2 ∷ []) (1 ∷ []))
msgcmp-lex_example =
    msgcmp-lex bytes_api plain_memcmp plain_memcmp-IsMemcmp (1 ∷ 2 ∷ []) (1 ∷ []) (omega arith)
      (omega arith)

-- A message of 2 ^ 32 bytes, all of them zero.
unfoldable long_message : Bytes
long_message = replicate (2 ^ 32) 0

long_message-eq : long_message ≡ replicate (2 ^ 32) 0
unfolding long_message
long_message-eq = refl

length-long : (n : ℕ) (m : Bytes) → m ≡ replicate n 0 → length m ≡ n
length-long n m e = ap length e ∙ length-replicate n 0

-- It compares equal to the empty message.
msgcmp_wraps_example : msgcmp bytes_api plain_memcmp long_message [] ≡ pos 0
msgcmp_wraps_example =
    msgcmp_wraps bytes_api plain_memcmp plain_memcmp-IsMemcmp long_message [] 1
      (length-long (2 ^ 32) long_message long_message-eq) refl

less-IsStrictOrder_example : IsStrictOrder plain_memcmp plain_memcmp-IsMemcmp
less-IsStrictOrder_example = less-IsStrictOrder plain_memcmp plain_memcmp-IsMemcmp

abbrev one_letter : ℕ → Bool → List ℕ
one_letter n binary = n ∷ []

copy_values-eq-insert_all_example :
    copy_values bytes_api open_socket one_letter (4 ∷ 5 ∷ []) first_sink
    ≡ insert_all bytes_api open_socket (part (4 ∷ []) ∷ part (5 ∷ []) ∷ []) first_sink
unfolding init_msg has_option
copy_values-eq-insert_all_example =
    copy_values-eq-insert_all bytes_api open_socket one_letter false (λ n. n ∷ []) (λ n. refl)
      (4 ∷ 5 ∷ []) first_sink refl
