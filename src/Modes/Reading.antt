-- ===== src/Modes/Reading.antt =====
-- What a sequence of extractions reads.
use zmqmessage.Base.{
  ◌+◌, ◌≡◌, refl, sym, ap, ap₂, ◌∙◌, List, [], ◌∷◌, Bool, true, false, map, arith, length, subst,
}
use zmqmessage.Zmq.{MsgApi, ok, threw}
use zmqmessage.Storage.Interface.{PartsStorage}
use zmqmessage.Incoming.{Incoming, extract}
use zmqmessage.Incoming as Incoming
use zmqmessage.Incoming.Extract.{extract-owned}
use zmqmessage.Multipart.Holding.{Holding}
use zmqmessage.Modes.{
  Way, way, Traits, read, decode, Extraction, Extracted, with_value, after_value, extract_each,
}
use zmqmessage.Modes.Sending.{Written, bytes_of}

module _ {A : Type 0} {El : A → Type 0} (traits : (a : A) → Traits (El a)) where
  -- The types that are extracted into, each with the way that the mode at its place gives.
  abbrev pub asked : Bool → List (Extraction A) → List (A × Way)
  asked binary [] = []
  asked binary (Extraction.binary ∷ asks) = asked true asks
  asked binary (Extraction.text ∷ asks) = asked false asks
  asked binary (Extraction.into a ∷ asks) = (a, way (traits a).kind binary) ∷ asked binary asks

  abbrev pub offered : List (Written El) → List (A × Way)
  offered = map λ w. (w.name, w.how)

  abbrev pub values_of : List (Written El) → List ((a : A) × El a)
  values_of = map λ w. (w.name, w.value)

  -- Every value is read back from what is written for it.
  abbrev pub AllRead : List (Written El) → Type 0
  AllRead [] = Unit
  AllRead (w ∷ ws) = (read (traits w.name) w.how (bytes_of traits w) ≡ w.value) × AllRead ws

  read_as :
      (w : Written El) (a : A) (how : Way)
      → w.name ≡ a
      → w.how ≡ how
      → read (traits w.name) w.how (bytes_of traits w) ≡ w.value
      → ◌≡◌ {A = (a : A) × El a} (a, read (traits a) how (bytes_of traits w)) (w.name, w.value)
  read_as w a how e h r =
      ap (λ (b : A). (b, read (traits b) how (bytes_of traits w))) (sym e)
      ∙ ap (λ k. (w.name, read (traits w.name) k (bytes_of traits w))) (sym h)
      ∙ ap (λ (v : El w.name). (w.name, v)) r

module _ {Msg A S : Type 0} (zmq : MsgApi Msg) (El : A → Type 0) (traits : (a : A) → Traits (El a))
    (ps : PartsStorage Msg S) where
  -- The values `ws` have been read, and that many parts were passed.
  abbrev pub Got : List (Written El) → Incoming Msg S → Extracted zmq El traits ps → Type 0
  Got ws s (ok vs, t) =
      (vs ≡ values_of traits ws)
      × (t.cur_extract_idx ≡ s.cur_extract_idx + length ws)
      × (t.calls ≡ s.calls)
      × (t.is_terminal ≡ s.is_terminal)
  Got ws s (threw e, t) = ⊥

  Got-one :
      (w : Written El) (ws : List (Written El)) (s : Incoming Msg S) (a : A) (v : El a)
      (out : Extracted zmq El traits ps)
      → ◌≡◌ {A = (a : A) × El a} (a, v) (w.name, w.value)
      → Got ws (record s { cur_extract_idx = s.cur_extract_idx + 1 }) out
      → Got (w ∷ ws) s (with_value zmq El traits ps a v out)
  unfolding with_value
  Got-one w ws s a v (ok vs, u) e (h, k, c, z) = (ap₂ ◌∷◌ e h, omega (arith, k), c, z)
  Got-one w ws s a v (threw z, u) e h = h

  pub extract_each-Got :
      (asks : List (Extraction A)) (ws : List (Written El)) (ms : List Msg) (s : Incoming Msg S)
      → Holding (ps.parts s.store) s.cur_extract_idx ms
      → map zmq.bytes ms ≡ map (bytes_of traits) ws
      → offered traits ws ≡ asked traits s.binary_mode asks
      → AllRead traits ws
      → Got ws s (extract_each zmq El traits ps asks s)
  unfolding extract_each after_value Incoming.set_binary Incoming.set_text
  extract_each-Got [] [] ms s h b o r = (refl, omega arith, refl, refl)
  extract_each-Got [] (w ∷ ws) ms s h b o r = cc
  extract_each-Got (Extraction.binary ∷ asks) ws ms s h b o r =
      extract_each-Got asks ws ms (record s { binary_mode = true }) h b o r
  extract_each-Got (Extraction.text ∷ asks) ws ms s h b o r =
      extract_each-Got asks ws ms (record s { binary_mode = false }) h b o r
  extract_each-Got (Extraction.into a ∷ asks) [] ms s h b o r = cc
  extract_each-Got (Extraction.into a ∷ asks) (w ∷ ws) [] s h b o r = cc
  extract_each-Got (Extraction.into a ∷ asks) (w ∷ ws) (m ∷ ms) s ((p, e, l, v, k), h) b o r =
      let next : Incoming Msg S = record s { cur_extract_idx = s.cur_extract_idx + 1 } in
      let how = way (traits a).kind s.binary_mode in
      let named : w.name ≡ a = cc in
      let same : w.how ≡ how = cc in
      let text : zmq.bytes p.msg ≡ bytes_of traits w = cc in
      let bytes_rest : map zmq.bytes ms ≡ map (bytes_of traits) ws = cc in
      let asked_rest : offered traits ws ≡ asked traits s.binary_mode asks = cc in
      subst
        (λ x.
          Got (w ∷ ws) s (after_value zmq El traits ps a x (extract_each zmq El traits ps asks)))
        (sym (extract-owned ps (decode (traits a) zmq) s p e l v))
        (Got-one w ws s a (decode (traits a) zmq p.msg s.binary_mode)
          (extract_each zmq El traits ps asks next)
          (decoded p.msg how text refl ∙ read_as traits w a how named same r.0)
          (extract_each-Got asks ws ms next h bytes_rest asked_rest r.1))
    where
      decoded :
          (m : Msg) (how : Way)
          → zmq.bytes m ≡ bytes_of traits w
          → way (traits a).kind s.binary_mode ≡ how
          → ◌≡◌ {A = (b : A) × El b}
              (a, decode (traits a) zmq m s.binary_mode)
              (a, read (traits a) how (bytes_of traits w))
      decoded m how e h =
          unfold decode in
          ap (λ k. (a, read (traits a) k (zmq.bytes m))) h
          ∙ ap (λ bs. (a, read (traits a) how bs)) e
