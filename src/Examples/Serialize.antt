-- ===== src/Examples/Serialize.antt =====
-- examples/zserialize.cpp: the structure that is sent as text or as memory, with its stream
-- operators, and the nine messages that the main thread sends and the receiver reads. Printing, the
-- setting up of the sockets and the end of the threads are left out.
pub mod Spaces
pub mod Rows
use zmqmessage.Base.{
  ℕ, ◌+◌, ◌^◌, ◌<◌, ltb, ◌≡◌, refl, sym, ap, ap₂, ◌∙◌, ◌↔◌, List, [], ◌∷◌, ◌++◌, Bool, true, false,
  ◌||◌, ◌&&◌, not, if◌then◌else◌, leb, ◌≤◌, length, ◌==◌, arith, inl, inr, Bool-cases,
}
use zmqmessage.Zmq.{MsgApi, Source, Dest, Done, Result, ok, threw, undefined}
use zmqmessage.Bytes.{ℤ, pos, negsuc}
use zmqmessage.Sink.{Sink}
use zmqmessage.Tools.Text.{Streamed, Stored}
use zmqmessage.Storage.Interface.{dynamic_storage}
use zmqmessage.Modes.{Kind, Traits, Insertion, Extraction, Extracted, send_each, receive_each}

-- The array `f2` has 20 characters.
abbrev pub array_size : ℕ
array_size = 20

-- `SomeData`: f1 is an int of 32 bits, and f2 the string in the array, up to its first zero.
pub record SomeData : Type 0 where
  pub f1 : ℤ
  pub f2 : List ℕ

-- `SomeBinaryData`, with the string in its array; its memory is a parameter.
pub record SomeBinaryData : Type 0 where
  pub f1 : ℤ
  pub f2 : List ℕ

-- What `>>` into a char or a string takes for white space.
abbrev pub is_space : ℕ → Bool
is_space b = (b == 32) || (leb 9 b && leb b 13)

abbrev pub skip_space : List ℕ → List ℕ
skip_space [] = []
skip_space (b ∷ bs) = if is_space b then skip_space bs else b ∷ bs

abbrev pub up_to_space : List ℕ → List ℕ
up_to_space [] = []
up_to_space (b ∷ bs) = if is_space b then [] else b ∷ up_to_space bs

abbrev pub tail : List ℕ → List ℕ
tail [] = []
tail (b ∷ bs) = bs

-- The string in an array: what stands before the first zero.
abbrev pub up_to_zero : List ℕ → List ℕ
up_to_zero [] = []
up_to_zero (b ∷ bs) = if b == 0 then [] else b ∷ up_to_zero bs

-- What an int of 32 bits can be.
abbrev pub IsInt : ℤ → Type 0
IsInt (pos n) = n < 2 ^ 31
IsInt (negsuc n) = n < 2 ^ 31

abbrev pub NoZero : List ℕ → Type 0
NoZero [] = Unit
NoZero (b ∷ bs) = ((b == 0) ≡ false) × NoZero bs

-- The members have room for the values: the string and the zero behind it fit into the array.
pub record Fits (d : SomeData) : Type 0 where
  pub int : IsInt d.f1
  pub string : NoZero d.f2
  pub array : length d.f2 < array_size

-- `>>` into the array of a word and the zero behind it. It does not look at the size of the array,
-- and writing outside it is undefined.
pub read_word : ℤ → List ℕ → Result SomeData
read_word n word =
    if ltb (length word) array_size
    then ok (record { f1 = n; f2 = up_to_zero word })
    else threw undefined

-- `<<` of an int, and `>>` into an int, with what it leaves of the stream.
module _ (show : ℤ → List ℕ) (read_int : List ℕ → ℤ × List ℕ) where
  -- `operator<<` of SomeData
  pub write_data : SomeData → List ℕ
  write_data d = show d.f1 ++ 58 ∷ d.f2

  -- `operator>>` of SomeData
  pub read_data : List ℕ → Result SomeData
  unfolding read_word
  read_data bs =
      let (n, rest) = read_int bs in read_word n (up_to_space (skip_space (tail (skip_space rest))))

-- A variable after a read: where the array was overrun, what it is then is not known, and is any
-- `overrun`.
abbrev pub after_read : SomeData → Result SomeData → SomeData
after_read overrun (ok d) = d
after_read overrun (threw e) = overrun

-- The types of the values that are sent.
pub data Field : Type 0 where
  words structure binary_structure int double : Field

module _ (Double : Type 0) where
  abbrev pub Value : Field → Type 0
  Value Field.words = List ℕ
  Value Field.structure = SomeData
  Value Field.binary_structure = SomeBinaryData
  Value Field.int = ℤ
  Value Field.double = Double

  module _ (show : ℤ → List ℕ) (read_int : List ℕ → ℤ × List ℕ) (overrun : SomeData)
      (binary_text : Streamed SomeBinaryData) (double_text : Streamed Double)
      (stored : (f : Field) → Stored (Value f)) where
    -- SomeBinaryData, by its raw_mark, and double, by ZMQMESSAGE_BINARY_TYPE, are marked as raw.
    abbrev pub traits_of : (f : Field) → Traits (Value f)
    traits_of Field.words = record {
      kind = Kind.string_like;
      text = record { read = λ bs. bs; write = λ bs. bs };
      stored = stored Field.words;
    }
    traits_of Field.structure = record {
      kind = Kind.plain;
      text = record {
        read = λ bs. after_read overrun (read_data show read_int bs);
        write = write_data show read_int;
      };
      stored = stored Field.structure;
    }
    traits_of Field.binary_structure = record {
      kind = Kind.raw_marked;
      text = binary_text;
      stored = stored Field.binary_structure;
    }
    traits_of Field.int = record {
      kind = Kind.plain;
      text = record { read = λ bs. (read_int bs).0; write = show };
      stored = stored Field.int;
    }
    traits_of Field.double = record {
      kind = Kind.raw_marked;
      text = double_text;
      stored = stored Field.double;
    }
