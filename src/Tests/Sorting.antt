-- ===== src/Tests/Sorting.antt =====
-- The sorting thread, with insertion sort.
use mathlib.Core.List.Perm
use mathlib.Core.List.{Perm}
use Prim.Native.Nat.{Ordering}
use zmqmessage.Base.{
  ℕ, ◌≡◌, refl, ap, ◌∙◌, List, [], ◌∷◌, Bool, true, false, inl, inr, if◌then◌else◌, Bool-cases,
  length, arith,
}
use zmqmessage.Zmq.{ok}
use zmqmessage.Bytes.{lex, lex_gt-iff_lt}
use zmqmessage.Tools.{init_msg}
use zmqmessage.Examples.Sorter.{strings, round}
use zmqmessage.Examples.Sorter.Sorted.{Ascending, IsSort, IsCodec, Sorted, round-Sorted}
use zmqmessage.Tests.Samples.{
  bytes_api, bytes_api-IsMsgApi, open_socket, three_source, three_messages,
}

abbrev is_gt : Ordering → Bool
is_gt Ordering.gt = true
is_gt Ordering.eq = false
is_gt Ordering.lt = false

gt_of : (o : Ordering) → is_gt o ≡ true → o ≡ Ordering.gt
gt_of Ordering.gt h = refl
gt_of Ordering.eq h = cc
gt_of Ordering.lt h = cc

-- The order of strings.
abbrev before : List ℕ → List ℕ → Bool
before a b = is_gt (lex b a)

abbrev insert : List ℕ → List (List ℕ) → List (List ℕ)
insert x [] = x ∷ []
insert x (y ∷ ys) = if is_gt (lex x y) then y ∷ insert x ys else x ∷ y ∷ ys

abbrev insertion_sort : List (List ℕ) → List (List ℕ)
insertion_sort [] = []
insertion_sort (x ∷ xs) = insert x (insertion_sort xs)

insert-Perm : (x : List ℕ) (ys : List (List ℕ)) → Perm (x ∷ ys) (insert x ys)
insert-Perm x [] = Perm.refl (x ∷ [])
insert-Perm x (y ∷ ys) = elim (Bool-cases (is_gt (lex x y))) [
  | inl h ↦ simp h (Perm.trans (Perm.swap y x ys) (Perm.cons y (insert-Perm x ys)))
  | inr h ↦ simp h (Perm.refl (x ∷ y ∷ ys))
]

length-insert : (x : List ℕ) (ys : List (List ℕ)) → length (insert x ys) ≡ length (x ∷ ys)
length-insert x [] = refl
length-insert x (y ∷ ys) = elim (Bool-cases (is_gt (lex x y))) [
  | inl h ↦ simp h (omega (arith, length-insert x ys))
  | inr h ↦ simp h
]

-- After a string that is not behind `x`.
insert_after-Ascending :
    (w x : List ℕ) (ys : List (List ℕ))
    → before x w ≡ false
    → Ascending before (w ∷ ys)
    → Ascending before (w ∷ insert x ys)
insert_after-Ascending w x [] h a = (h, tt)
insert_after-Ascending w x (y ∷ ys) h (b, a) = elim (Bool-cases (is_gt (lex x y))) [
  | inl g ↦
      let lt : lex y x ≡ Ordering.lt = lex_gt-iff_lt x y (gt_of (lex x y) g) in
      simp g (b, insert_after-Ascending y x ys (ap is_gt lt) a)
  | inr g ↦ simp g (h, (refl, a))
]

insert-Ascending :
    (x : List ℕ) (ys : List (List ℕ)) → Ascending before ys → Ascending before (insert x ys)
insert-Ascending x [] a = tt
insert-Ascending x (y ∷ ys) a = elim (Bool-cases (is_gt (lex x y))) [
  | inl g ↦
      let lt : lex y x ≡ Ordering.lt = lex_gt-iff_lt x y (gt_of (lex x y) g) in
      simp g (insert_after-Ascending y x ys (ap is_gt lt) a)
  | inr g ↦ simp g (refl, a)
]

insertion_sort-Perm : (xs : List (List ℕ)) → Perm xs (insertion_sort xs)
insertion_sort-Perm [] = Perm.refl []
insertion_sort-Perm (x ∷ xs) =
    Perm.trans (Perm.cons x (insertion_sort-Perm xs)) (insert-Perm x (insertion_sort xs))

length-insertion_sort : (xs : List (List ℕ)) → length (insertion_sort xs) ≡ length xs
length-insertion_sort [] = refl
length-insertion_sort (x ∷ xs) =
    length-insert x (insertion_sort xs) ∙ omega (arith, length-insertion_sort xs)

insertion_sort-Ascending : (xs : List (List ℕ)) → Ascending before (insertion_sort xs)
insertion_sort-Ascending [] = tt
insertion_sort-Ascending (x ∷ xs) =
    insert-Ascending x (insertion_sort xs) (insertion_sort-Ascending xs)

insertion_sort-IsSort : IsSort before insertion_sort
insertion_sort-IsSort = record {
  rearranges = insertion_sort-Perm;
  same_length = length-insertion_sort;
  ascends = insertion_sort-Ascending;
}

all_made : (bs : List ℕ) → init_msg bytes_api bs ≡ ok bs
unfolding init_msg
all_made bs = refl

string_codec : IsCodec bytes_api (strings bytes_api) (λ word binary. word)
string_codec = record { message = λ word. word; makes = all_made; reads = λ m word e. e }

round-Sorted_example :
    Sorted bytes_api bytes_api-IsMsgApi open_socket three_source
      (strings bytes_api)
      (λ word binary. word)
      before
      insertion_sort
      string_codec
      insertion_sort-IsSort
      three_messages
      0
      (round bytes_api open_socket three_source
        (strings bytes_api)
        (λ word binary. word)
        insertion_sort
        4
        0)
round-Sorted_example =
    round-Sorted bytes_api bytes_api-IsMsgApi open_socket three_source (strings bytes_api)
      (λ word binary. word) before insertion_sort string_codec insertion_sort-IsSort three_messages
      0 (omega arith) (omega arith) (refl, refl, (refl, refl, (refl, refl)))
