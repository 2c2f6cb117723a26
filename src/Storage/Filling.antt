-- ===== src/Storage/Filling.antt =====
-- Receiving into the part that `next()` of a storage has added.
use zmqmessage.Base.{
  ℕ, ◌<◌, ◌≡◌, ap, [], ◌∷◌, ◌++◌, some, true, arith, length, get_elem?, set-last, map-set,
  get_elem?-map, length-map, get_elem?-middle, length-append,
}
use zmqmessage.Part.{Part, held}
use zmqmessage.Storage.Interface.{PartsStorage, IsPartsStorage, contents}

module _ {Msg S : Type 0} (ps : PartsStorage Msg S) (Inv : S → Type 0) (bound : ℕ)
    (laws : IsPartsStorage ps Inv bound) where
  -- The part that `next` has added, before the message is received into it.
  pub new_part :
      (s : S) (t : S) (m : Msg)
      → contents ps t ≡ contents ps s ++ (m ∷ []) ∷ []
      → (p : Part Msg) × (get_elem? (ps.parts t) (length (ps.parts s)) ≡ some p)
        × (p.valid ≡ true)
        × (length (ps.parts s) < length (ps.parts t))
  new_part s t m e =
      let (p, f, h) =
        get_elem?-map held (ps.parts t) (length (ps.parts s)) (m ∷ [])
          (rw (e, ← length-map held (ps.parts s)) (get_elem?-middle (contents ps s) (m ∷ []) [])) in
      (
        p,
        f,
        ground arith,
        omega (
          arith,
          length-map held (ps.parts s),
          length-map held (ps.parts t),
          ap length e,
          length-append {0} (contents ps s) ((m ∷ []) ∷ []),
        ),
      )

  -- Receiving into the new part.
  pub put_part :
      (s t : S) (m' m : Msg) (p : Part Msg)
      → Inv t
      → contents ps t ≡ contents ps s ++ (m' ∷ []) ∷ []
      → p.valid ≡ true
      → length (ps.parts s) < length (ps.parts t)
      → let u = ps.put t (length (ps.parts s)) (record p { msg = m }) in
        Inv u × (contents ps u ≡ contents ps s ++ (m ∷ []) ∷ [])
  put_part s t m' m p inv e v lt =
      let q : Part Msg = record p { msg = m } in
      let w = laws.put_writes t (length (ps.parts s)) q inv lt in
      let holds : held q ≡ m ∷ [] = simp v in
      (
        w.0,
        rw
            (
              w.1,
              map-set held (ps.parts t) (length (ps.parts s)) q,
              e,
              holds,
              ← length-map held (ps.parts s),
            )
            (set-last (contents ps s) (m' ∷ []) (m ∷ [])),
      )
