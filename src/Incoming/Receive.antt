-- ===== src/Incoming/Receive.antt =====
-- Receiving one part.
use zmqmessage.Base.{
  ℕ, ◌+◌, ◌<◌, ◌≡◌, refl, [], ◌∷◌, ◌++◌, some, Bool, true, if◌then◌else◌, length, Bool-cases, inl,
  inr,
}
use zmqmessage.Zmq.{Source, arrives, ok}
use zmqmessage.Part.{Part}
use zmqmessage.Storage.Interface.{PartsStorage, IsPartsStorage, contents}
use zmqmessage.Storage.Filling.{new_part, put_part}
use zmqmessage.Tools.{recv_msg-arrives, has_more}
use zmqmessage.Incoming.{Incoming, size, receive_one, into_next, do_receive_msg, received_into}

module _ {Msg S : Type 0} (ps : PartsStorage Msg S) (Inv : S → Type 0) (bound : ℕ)
    (laws : IsPartsStorage ps Inv bound) (src : Source Msg) where
  -- What has changed once the message `m`, with more to follow or not, has been received.
  pub record Took (m : Msg) (more : Bool) (s t : Incoming Msg S) : Type 0 where
    pub inv : Inv t.store
    pub adds : contents ps t.store ≡ contents ps s.store ++ (m ∷ []) ∷ []
    pub calls : t.calls ≡ s.calls + 1
    pub is_terminal : t.is_terminal ≡ s.is_terminal
    pub extracts : t.cur_extract_idx ≡ s.cur_extract_idx
    pub mode : t.binary_mode ≡ s.binary_mode
    pub tells : t.observed ≡ (if s.receive_observer then (m, more) ∷ s.observed else s.observed)
    pub observer : t.receive_observer ≡ s.receive_observer

  abbrev stored : Incoming Msg S → S → Incoming Msg S
  stored s store = record s { store = store }

  receive_into :
      (s : Incoming Msg S) (t : S) (i : ℕ) (p : Part Msg) (m : Msg)
      → p.valid ≡ true
      → src.recv s.calls ≡ arrives m
      → do_receive_msg ps src i (some p) (stored s t) ≡ (
        ok (src.rcvmore (s.calls + 1)),
        record s {
          store = ps.put t i (record p { msg = m });
          calls = s.calls + 1;
          observed =
              if s.receive_observer
              then (m, src.rcvmore (s.calls + 1)) ∷ s.observed
              else s.observed;
        },
      )
  unfolding do_receive_msg has_more
  receive_into s t i p m v e = elim (Bool-cases s.receive_observer) [
    | inl o ↦ simp (v, recv_msg-arrives src s.calls m e, received_into, o)
    | inr o ↦ simp (v, recv_msg-arrives src s.calls m e, received_into, o)
  ]

  -- While the storage has room, receiving a part that arrives succeeds: it returns whether there is
  -- more, the message is owned by a new last part, every earlier part keeps what it owns, and the
  -- receive observer, if there is one, has been told of it.
  pub receive_one-Took :
      (s : Incoming Msg S) (m : Msg)
      → Inv s.store
      → size ps s < bound
      → src.recv s.calls ≡ arrives m
      → (t : Incoming Msg S) × (receive_one ps src s ≡ (ok (src.rcvmore (s.calls + 1)), t))
        × Took m (src.rcvmore (s.calls + 1)) s t
  unfolding size receive_one
  receive_one-Took s m inv room e =
      let (t, next, inv', (m', c)) = laws.next_adds s.store inv room in
      let (p, found, v, lt) = new_part ps Inv bound laws s.store t m' c in
      let w = put_part ps Inv bound laws s.store t m' m p inv' c v lt in
      (
        record s {
          store = ps.put t (length (ps.parts s.store)) (record p { msg = m });
          calls = s.calls + 1;
          observed =
              if s.receive_observer
              then (m, src.rcvmore (s.calls + 1)) ∷ s.observed
              else s.observed;
        },
        rw (next, receive_one, into_next, found) (receive_into s t _ p m v e),
        record {
          inv = w.0;
          adds = w.1;
          calls = refl;
          is_terminal = refl;
          extracts = refl;
          mode = refl;
          tells = refl;
          observer = refl;
        },
      )
