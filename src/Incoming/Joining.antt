-- ===== src/Incoming/Joining.antt =====
-- Parts that are received in two runs.
use zmqmessage.Base.{
  ℕ, zero, suc, ◌+◌, ◌≤◌, ◌<◌, ◌≡◌, refl, sym, ap, ◌∙◌, ap₂, Bool, true, List, [], ◌∷◌, ◌++◌, arith,
  length, take, drop, append_assoc, map, subst, length-append, length-map, map-append, append-nil,
}
use zmqmessage.Zmq.{Source}
use zmqmessage.Part.{Part, held, msgs, AllValid}
use zmqmessage.Storage.Interface.{PartsStorage, IsPartsStorage, contents}
use zmqmessage.Incoming.{Incoming, size}
use zmqmessage.Incoming.Counting.{Comes, singles, Received}

module _ {A : Type 0} where
  pub take-drop : (n : ℕ) (xs : List A) → take n xs ++ drop n xs ≡ xs
  take-drop zero xs = refl
  take-drop (suc n) [] = refl
  take-drop (suc n) (x ∷ xs) = ap (◌∷◌ x) (take-drop n xs)

  pub take-all : (n : ℕ) (xs : List A) → length xs ≤ n → take n xs ≡ xs
  take-all zero [] h = refl
  take-all zero (x ∷ xs) h = elim h [ ]
  take-all (suc n) [] h = refl
  take-all (suc n) (x ∷ xs) h = ap (◌∷◌ x) (take-all n xs (omega arith))

  pub length-take : (n : ℕ) (xs : List A) → n ≤ length xs → length (take n xs) ≡ n
  length-take zero xs h = refl
  length-take (suc n) [] h = elim h [ ]
  length-take (suc n) (x ∷ xs) h = omega (arith, length-take n xs)

  pub length-drop : (n : ℕ) (xs : List A) → length (drop n xs) ≤ length xs
  length-drop zero xs = omega arith
  length-drop (suc n) [] = omega arith
  length-drop (suc n) (x ∷ xs) = omega (arith, length-drop n xs)

  pub take-nil : (n : ℕ) → take {A = A} n [] ≡ []
  take-nil zero = refl
  take-nil (suc n) = refl

  pub take-take-drop :
      (j n k : ℕ) (xs : List A) → j ≡ n + k → take n xs ++ take k (drop n xs) ≡ take j xs
  take-take-drop j zero k xs h = ap (λ i. take i xs) (omega (arith, h))
  take-take-drop zero (suc n) k xs h = absurd (omega (arith, h))
  take-take-drop (suc j) (suc n) zero [] h = refl
  take-take-drop (suc j) (suc n) (suc k) [] h = refl
  take-take-drop (suc j) (suc n) k (x ∷ xs) h =
      ap (◌∷◌ x) (take-take-drop j n k xs (omega (arith, h)))

-- The rest of a message that comes.
pub Comes-drop :
    {Msg : Type 0} (src : Source Msg) (n c : ℕ) (ms : List Msg)
    → n < length ms
    → Comes src c ms
    → Comes src (c + n) (drop n ms)
Comes-drop src n c [] h k = elim h [ ]
Comes-drop src zero c (m ∷ ms) h k = subst (λ d. Comes src d (m ∷ ms)) (omega arith) k
Comes-drop src (suc n) c (m ∷ []) h k = absurd (omega arith)
Comes-drop src (suc n) c (m ∷ x ∷ ms) h (a, b, k) =
    subst (λ d. Comes src d (drop n (x ∷ ms))) (omega arith)
      (Comes-drop src n (c + 1) (x ∷ ms) (omega arith) k)

module _ {Msg S : Type 0} (ps : PartsStorage Msg S) (Inv : S → Type 0) (bound : ℕ)
    (laws : IsPartsStorage ps Inv bound) (src : Source Msg) where
  pub size_marked :
      (t : Incoming Msg S) (b : Bool) → size ps (record t { is_terminal = b }) ≡ size ps t
  unfolding size
  size_marked t b = refl

  pub Received-append :
      (s t u : Incoming Msg S) (ms ns : List Msg)
      → Received ps Inv bound laws src ms s t
      → Received ps Inv bound laws src ns t u
      → Received ps Inv bound laws src (ms ++ ns) s u
  Received-append s t u ms ns a b = record {
    inv = b.inv;
    adds =
        b.adds
        ∙ ap (λ v. v ++ singles ns) a.adds
        ∙ append_assoc (contents ps s.store) (singles ms) (singles ns)
        ∙ ap (◌++◌ (contents ps s.store)) (sym (map-append (λ m. m ∷ []) ms ns));
    calls = omega (arith, a.calls, b.calls, length-append {0} ms ns);
    extracts = b.extracts ∙ a.extracts;
    mode = b.mode ∙ a.mode;
  }

  pub size-Received :
      (s t : Incoming Msg S) (ms : List Msg)
      → Received ps Inv bound laws src ms s t
      → size ps t ≡ size ps s + length ms
  unfolding size
  size-Received s t ms r = omega (
    arith,
    length-map held (ps.parts s.store),
    length-map held (ps.parts t.store),
    ap length r.adds,
    length-append {0} (contents ps s.store) (singles ms),
    length-map {0, 0} (λ (m : Msg). m ∷ []) ms,
  )

  pub Received-none : (s : Incoming Msg S) → Inv s.store → Received ps Inv bound laws src [] s s
  Received-none s inv = record {
    inv = inv;
    adds = sym (append-nil (contents ps s.store));
    calls = omega arith;
    extracts = refl;
    mode = refl;
  }

-- Parts that hold one message each are owned.
pub singles-AllValid :
    {Msg : Type 0} (ps : List (Part Msg)) (ms : List Msg)
    → map held ps ≡ singles ms
    → AllValid ps × (msgs ps ≡ ms)
singles-AllValid [] [] h = (tt, refl)
singles-AllValid [] (m ∷ ms) h = cc
singles-AllValid (p ∷ ps) [] h = cc
singles-AllValid (p ∷ ps) (m ∷ ms) h =
    let (v, e) = singles-AllValid ps ms (cc) in
    let one : held p ≡ m ∷ [] = cc in
    let valid : p.valid ≡ true = ground (arith, one) in
    ((valid, v), ap₂ ◌∷◌ (ground (arith, one)) e)
