-- ===== src/Storage/Access.antt =====
-- Reads and writes through the pointers that `next()` returns, `detach()`, the destructor, and the two
-- storages of fixed capacity.
use zmqmessage.Base.{
  ℕ, zero, suc, ◌<◌, ◌≡◌, refl, sym, ap, ◌∙◌, inl, inr, List, [], ◌∷◌, Option, none, some, arith,
  length, set, length-set, Option-cases, ◌≢◌, subst,
}
use mathlib.Core.Option
use zmqmessage.Part.{Part}
use zmqmessage.Storage.{
  DynamicPartsStorage, constructed, dynamic_parts, IsFilled, IsBlock, IsStorage, dynamic_set,
}

module _ {Msg : Type 0} where
  length-constructed :
      (n : ℕ) (block : List (Option (Part Msg)))
      → IsFilled n block
      → length (constructed n block) ≡ n
  length-constructed n [] h = rw h
  length-constructed zero (some p ∷ block) h = absurd h
  length-constructed zero (none ∷ block) h = refl
  length-constructed (suc n) (some p ∷ block) h = omega (arith, length-constructed n block h)
  length-constructed (suc n) (none ∷ block) h = absurd h

  set-constructed :
      (n i : ℕ) (block : List (Option (Part Msg))) (p : Part Msg)
      → IsFilled n block
      → i < n
      → IsFilled n (set block i (some p))
        × (constructed n (set block i (some p)) ≡ set (constructed n block) i p)
  set-constructed zero i block p h lt = elim lt [ ]
  set-constructed (suc n) i [] p h lt = absurd (omega arith)
  set-constructed (suc n) i (none ∷ block) p h lt = absurd h
  set-constructed (suc n) zero (some q ∷ block) p h lt = (h, refl)
  set-constructed (suc n) (suc i) (some q ∷ block) p h lt =
      let rest = set-constructed n i block p h (omega arith) in (rest.0, ap (◌∷◌ q) rest.1)

  on_block {ℓ} :
      (P : DynamicPartsStorage Msg → Type ℓ) (s : DynamicPartsStorage Msg)
      → (s.parts ≡ none → P s)
      → ((block : List (Option (Part Msg)))
          → s.parts ≡ some block
          → P (record s { parts = some block }))
      → P s
  on_block P s empty full = elim (Option-cases s.parts) [
    | inl e ↦ empty e
    | inr (block, e) ↦ subst P (λ i. record s { parts = sym e i }) (full block e)
  ]

  -- A part is seen for each one that is counted.
  pub length-dynamic_parts :
      (s : DynamicPartsStorage Msg) → IsStorage s → length (dynamic_parts s) ≡ s.size
  length-dynamic_parts s =
      on_block (λ r. IsStorage r → length (dynamic_parts r) ≡ r.size) s
        (λ e inv.
          unfold dynamic_parts in
          rw (e, dynamic_parts) (sym (subst (IsBlock s.capacity s.size) e inv.block).1))
        (λ block e inv. unfold dynamic_parts in length-constructed s.size block inv.block.1)

  -- Writing a part that is there replaces that part alone.
  pub dynamic_set_lem :
      (s : DynamicPartsStorage Msg) (i : ℕ) (p : Part Msg)
      → IsStorage s
      → i < s.size
      → IsStorage (dynamic_set s i p)
        × (dynamic_parts (dynamic_set s i p) ≡ set (dynamic_parts s) i p)
  dynamic_set_lem s i p inv lt =
      on_block
        (λ r.
          IsStorage r
          → IsStorage (dynamic_set r i p)
            × (dynamic_parts (dynamic_set r i p) ≡ set (dynamic_parts r) i p))
        s (λ e inv'. absurd (omega (arith, (subst (IsBlock s.capacity s.size) e inv'.block).1)))
        (λ block e inv'.
          unfold dynamic_parts dynamic_set in
          let w = set-constructed s.size i block p inv'.block.1 lt in
          (record { block = (length-set block i (some p) ∙ inv'.block.0, w.0) }, w.1))
        inv

  -- A storage with a part has a block.
  pub owns_of_size : (s : DynamicPartsStorage Msg) → IsStorage s → 0 < s.size → s.parts ≢ none
  owns_of_size s inv pos e = omega (arith, (subst (IsBlock s.capacity s.size) e inv.block).1)
