-- ===== src/Tests/Serializing.antt =====
-- Text and binary mode: a message of zserialize, and its structure as text.
use zmqmessage.Base.{
  ℕ, zero, suc, ◌≡◌, ◌↔◌, refl, List, [], ◌∷◌, ◌++◌, false, ltb, ◌==◌, if◌then◌else◌, arith,
}
use zmqmessage.Zmq.{Source, arrives, ok}
use zmqmessage.Bytes.{ℤ, pos, negsuc}
use zmqmessage.Sink.OnWire.{OnWire}
use zmqmessage.Tools.{init_msg}
use zmqmessage.Tools.Text.{Streamed, Stored}
use zmqmessage.Modes.{Insertion, Extraction, Traits, way, write, read, send_each, receive_each}
use zmqmessage.Modes.Sending.{messages}
use zmqmessage.Modes.RoundTrip.{Transferred, send_each-receive_each}
use zmqmessage.Examples.Serialize.{
  SomeBinaryData, Fits, IsInt, Field, Value, traits_of, write_data, read_data,
}
use zmqmessage.Examples.Serialize.Rows.{some_data, structure_binary, sent_rows, asked_rows}
use zmqmessage.Examples.Serialize.Spaces.{NoSpace, read_data_iff}
use zmqmessage.Tests.Samples.{Bytes, bytes_api, bytes_api-IsMsgApi, open_socket}

-- An integer as two letters.
abbrev show_int : ℤ → List ℕ
show_int (pos n) = 0 ∷ n ∷ []
show_int (negsuc n) = 1 ∷ n ∷ []

abbrev read_int : List ℕ → ℤ × List ℕ
read_int [] = (pos 0, [])
read_int (s ∷ []) = (pos 0, [])
read_int (s ∷ n ∷ bs) = (if s == 0 then pos n else negsuc n, bs)

digits : (z : ℤ) (bs : List ℕ) → IsInt z → read_int (show_int z ++ 58 ∷ bs) ≡ (z, 58 ∷ bs)
digits (pos n) bs h = refl
digits (negsuc n) bs h = refl

some_data-Fits : Fits some_data
some_data-Fits = record {
  int = omega arith;
  string = (refl, (refl, (refl, (refl, (refl, (refl, (refl, (refl, tt))))))));
  array = omega arith;
}

read_data_iff_example :
    (read_data show_int read_int (write_data show_int read_int some_data) ≡ ok some_data)
    ↔ NoSpace some_data.f2
read_data_iff_example = read_data_iff show_int read_int digits some_data some_data-Fits

-- Representations in memory, of a number and the letters behind it.
abbrev memory_of : (f : Field) → Stored (Value ℕ f)
memory_of Field.words = record { load = λ bs. bs; store = λ bs. bs }
memory_of Field.structure = record {
  load = λ bs. let (z, rest) = read_int bs in record { f1 = z; f2 = rest };
  store = λ d. show_int d.f1 ++ d.f2;
}
memory_of Field.binary_structure = record {
  load = λ bs. let (z, rest) = read_int bs in record { f1 = z; f2 = rest };
  store = λ d. show_int d.f1 ++ d.f2;
}
memory_of Field.int = record { load = λ bs. (read_int bs).0; store = show_int }
memory_of Field.double = record { load = λ bs. 0; store = λ n. n ∷ [] }

abbrev no_text : Streamed SomeBinaryData
no_text = record { read = λ bs. record { f1 = pos 0; f2 = bs }; write = λ d. d.f2 }

abbrev number_text : Streamed ℕ
number_text = record { read = λ bs. 0; write = λ n. n ∷ [] }

abbrev formats : (f : Field) → Traits (Value ℕ f)
formats = traits_of ℕ show_int read_int some_data no_text number_text memory_of

abbrev nth_row : {A : Type 0} → ℕ → List (List A) → List A
nth_row n [] = []
nth_row zero (row ∷ rows) = row
nth_row (suc n) (row ∷ rows) = nth_row n rows

-- The third message: the structure as memory, the number as text.
abbrev third_sent : List (Insertion (Value ℕ))
third_sent = nth_row 2 (sent_rows ℕ 0)

abbrev third_asked : List (Extraction Field)
third_asked = nth_row 2 asked_rows

abbrev nth_part : ℕ → Bytes
nth_part calls =
    if calls == 0
    then structure_binary
    else if calls == 1
    then show_int (pos 123) ++ some_data.f2
    else show_int (pos 100)

abbrev third_source : Source Bytes
third_source = record { recv = λ calls. arrives (nth_part calls); rcvmore = λ calls. ltb calls 3 }

all_made : (bs : List ℕ) → init_msg bytes_api bs ≡ ok bs
unfolding init_msg
all_made bs = refl

send_each-receive_each_example :
    OnWire bytes_api bytes_api-IsMsgApi open_socket
      (messages bytes_api bytes_api-IsMsgApi open_socket
        (Value ℕ)
        formats
        (λ bs. bs)
        all_made
        false
        third_sent)
      (send_each bytes_api (Value ℕ) formats open_socket third_sent)
    × Transferred bytes_api bytes_api-IsMsgApi
        (Value ℕ)
        formats
        (λ bs. bs)
        all_made
        third_source
        third_sent
        third_asked
        0
        (receive_each bytes_api (Value ℕ) formats third_source 3 third_asked 0)
unfolding way write read
send_each-receive_each_example =
    send_each-receive_each bytes_api bytes_api-IsMsgApi (Value ℕ) formats (λ bs. bs) all_made
      open_socket third_source third_sent third_asked 0 (omega arith) (omega arith) refl
      (refl, (refl, (refl, tt))) (refl, refl, (refl, refl, (refl, refl)))
