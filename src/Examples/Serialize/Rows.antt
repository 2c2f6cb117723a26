-- ===== src/Examples/Serialize/Rows.antt =====
-- The nine messages of examples/zserialize.cpp: what the main thread inserts and what the receiver
-- extracts.
use zmqmessage.Base.{ℕ, List, [], ◌∷◌}
use zmqmessage.Bytes.{pos}
use zmqmessage.Modes.{Insertion, Extraction}
use zmqmessage.Examples.Serialize.{SomeData, SomeBinaryData, Field, Value}

-- "Sent in default mode"
abbrev pub sent_default : List ℕ
sent_default =
    83 ∷ 101 ∷ 110 ∷ 116 ∷ 32 ∷ 105 ∷ 110 ∷ 32 ∷ 100 ∷ 101 ∷ 102 ∷ 97 ∷ 117 ∷ 108 ∷ 116 ∷ 32 ∷ 109
    ∷ 111 ∷ 100 ∷ 101 ∷ []

-- "Sent in binary mode"
abbrev pub sent_binary : List ℕ
sent_binary =
    83 ∷ 101 ∷ 110 ∷ 116 ∷ 32 ∷ 105 ∷ 110 ∷ 32 ∷ 98 ∷ 105 ∷ 110 ∷ 97 ∷ 114 ∷ 121 ∷ 32 ∷ 109 ∷ 111
    ∷ 100 ∷ 101 ∷ []

-- "Structure in binary mode, numeric as text"
abbrev pub structure_binary : List ℕ
structure_binary =
    83 ∷ 116 ∷ 114 ∷ 117 ∷ 99 ∷ 116 ∷ 117 ∷ 114 ∷ 101 ∷ 32 ∷ 105 ∷ 110 ∷ 32 ∷ 98 ∷ 105 ∷ 110 ∷ 97
    ∷ 114 ∷ 121 ∷ 32 ∷ 109 ∷ 111 ∷ 100 ∷ 101 ∷ 44 ∷ 32 ∷ 110 ∷ 117 ∷ 109 ∷ 101 ∷ 114 ∷ 105 ∷ 99 ∷ 32
    ∷ 97 ∷ 115 ∷ 32 ∷ 116 ∷ 101 ∷ 120 ∷ 116 ∷ []

-- "Structure in default (text) mode, numeric as binary"
abbrev pub structure_default : List ℕ
structure_default =
    83 ∷ 116 ∷ 114 ∷ 117 ∷ 99 ∷ 116 ∷ 117 ∷ 114 ∷ 101 ∷ 32 ∷ 105 ∷ 110 ∷ 32 ∷ 100 ∷ 101 ∷ 102 ∷ 97
    ∷ 117 ∷ 108 ∷ 116 ∷ 32 ∷ 40 ∷ 116 ∷ 101 ∷ 120 ∷ 116 ∷ 41 ∷ 32 ∷ 109 ∷ 111 ∷ 100 ∷ 101 ∷ 44 ∷ 32
    ∷ 110 ∷ 117 ∷ 109 ∷ 101 ∷ 114 ∷ 105 ∷ 99 ∷ 32 ∷ 97 ∷ 115 ∷ 32 ∷ 98 ∷ 105 ∷ 110 ∷ 97 ∷ 114 ∷ 121
    ∷ []

-- "Structure in default (binary) mode, numeric as binary"
abbrev pub numeric_binary : List ℕ
numeric_binary =
    83 ∷ 116 ∷ 114 ∷ 117 ∷ 99 ∷ 116 ∷ 117 ∷ 114 ∷ 101 ∷ 32 ∷ 105 ∷ 110 ∷ 32 ∷ 100 ∷ 101 ∷ 102 ∷ 97
    ∷ 117 ∷ 108 ∷ 116 ∷ 32 ∷ 40 ∷ 98 ∷ 105 ∷ 110 ∷ 97 ∷ 114 ∷ 121 ∷ 41 ∷ 32 ∷ 109 ∷ 111 ∷ 100 ∷ 101
    ∷ 44 ∷ 32 ∷ 110 ∷ 117 ∷ 109 ∷ 101 ∷ 114 ∷ 105 ∷ 99 ∷ 32 ∷ 97 ∷ 115 ∷ 32 ∷ 98 ∷ 105 ∷ 110 ∷ 97
    ∷ 114 ∷ 121 ∷ []

-- "Structure in default (binary) mode, numeric as binary too"
abbrev pub numeric_too : List ℕ
numeric_too =
    83 ∷ 116 ∷ 114 ∷ 117 ∷ 99 ∷ 116 ∷ 117 ∷ 114 ∷ 101 ∷ 32 ∷ 105 ∷ 110 ∷ 32 ∷ 100 ∷ 101 ∷ 102 ∷ 97
    ∷ 117 ∷ 108 ∷ 116 ∷ 32 ∷ 40 ∷ 98 ∷ 105 ∷ 110 ∷ 97 ∷ 114 ∷ 121 ∷ 41 ∷ 32 ∷ 109 ∷ 111 ∷ 100 ∷ 101
    ∷ 44 ∷ 32 ∷ 110 ∷ 117 ∷ 109 ∷ 101 ∷ 114 ∷ 105 ∷ 99 ∷ 32 ∷ 97 ∷ 115 ∷ 32 ∷ 98 ∷ 105 ∷ 110 ∷ 97
    ∷ 114 ∷ 121 ∷ 32 ∷ 116 ∷ 111 ∷ 111 ∷ []

-- "a string"
abbrev pub a_string : List ℕ
a_string = 97 ∷ 32 ∷ 115 ∷ 116 ∷ 114 ∷ 105 ∷ 110 ∷ 103 ∷ []

-- "another string"
abbrev pub another_string : List ℕ
another_string =
    97 ∷ 110 ∷ 111 ∷ 116 ∷ 104 ∷ 101 ∷ 114 ∷ 32 ∷ 115 ∷ 116 ∷ 114 ∷ 105 ∷ 110 ∷ 103 ∷ []

-- The structures of the main thread.
abbrev pub some_data : SomeData
some_data = record { f1 = pos 123; f2 = a_string }

abbrev pub binary_data : SomeBinaryData
binary_data = record { f1 = pos 123; f2 = another_string }

module _ (Double : Type 0) where
  abbrev put : (f : Field) → Value Double f → Insertion (Value Double)
  put f v = Insertion.value f v

  -- The insertions of the main thread, message by message; `number` is (double)100.1.
  abbrev pub sent_rows : Double → List (List (Insertion (Value Double)))
  sent_rows number =
      (put Field.words sent_default ∷ put Field.structure some_data ∷ put Field.int (pos 100) ∷ [])
      ∷ (put Field.words sent_binary
          ∷ Insertion.binary
          ∷ put Field.structure some_data
          ∷ put Field.int (pos 100)
          ∷ [])
      ∷ (put Field.words structure_binary
          ∷ Insertion.binary
          ∷ put Field.structure some_data
          ∷ Insertion.text
          ∷ put Field.int (pos 100)
          ∷ [])
      ∷ (put Field.words structure_default
          ∷ put Field.structure some_data
          ∷ Insertion.binary
          ∷ put Field.int (pos 100)
          ∷ [])
      ∷ (put Field.words sent_default
          ∷ put Field.binary_structure binary_data
          ∷ put Field.int (pos 100)
          ∷ [])
      ∷ (put Field.words sent_binary
          ∷ Insertion.binary
          ∷ put Field.structure some_data
          ∷ put Field.int (pos 100)
          ∷ [])
      ∷ (put Field.words structure_binary
          ∷ Insertion.binary
          ∷ put Field.structure some_data
          ∷ Insertion.text
          ∷ put Field.int (pos 100)
          ∷ [])
      ∷ (put Field.words numeric_binary
          ∷ put Field.structure some_data
          ∷ Insertion.binary
          ∷ put Field.int (pos 100)
          ∷ [])
      ∷ (put Field.words numeric_too ∷ put Field.structure some_data ∷ put Field.double number ∷ [])
      ∷ []

-- The extractions of the receiver, message by message.
abbrev pub asked_rows : List (List (Extraction Field))
asked_rows =
    (Extraction.into Field.words ∷ Extraction.into Field.structure ∷ Extraction.into Field.int ∷ [])
    ∷ (Extraction.into Field.words
        ∷ Extraction.binary
        ∷ Extraction.into Field.structure
        ∷ Extraction.into Field.int
        ∷ [])
    ∷ (Extraction.into Field.words
        ∷ Extraction.binary
        ∷ Extraction.into Field.structure
        ∷ Extraction.text
        ∷ Extraction.into Field.int
        ∷ [])
    ∷ (Extraction.into Field.words
        ∷ Extraction.into Field.structure
        ∷ Extraction.text
        ∷ Extraction.into Field.int
        ∷ [])
    ∷ (Extraction.into Field.words
        ∷ Extraction.into Field.binary_structure
        ∷ Extraction.text
        ∷ Extraction.into Field.int
        ∷ [])
    ∷ (Extraction.into Field.words
        ∷ Extraction.binary
        ∷ Extraction.into Field.binary_structure
        ∷ Extraction.text
        ∷ Extraction.into Field.int
        ∷ [])
    ∷ (Extraction.into Field.words
        ∷ Extraction.into Field.binary_structure
        ∷ Extraction.text
        ∷ Extraction.into Field.int
        ∷ [])
    ∷ (Extraction.into Field.words
        ∷ Extraction.into Field.binary_structure
        ∷ Extraction.binary
        ∷ Extraction.into Field.int
        ∷ [])
    ∷ (Extraction.into Field.words
        ∷ Extraction.into Field.binary_structure
        ∷ Extraction.into Field.double
        ∷ [])
    ∷ []
