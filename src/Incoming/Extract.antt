-- ===== src/Incoming/Extract.antt =====
-- `operator>>` on an Incoming.
use zmqmessage.Base.{◌+◌, ◌<◌, ◌≡◌, ap, some, Bool, true, length, get_elem?}
use zmqmessage.Zmq.{ok}
use zmqmessage.Part.{Part}
use zmqmessage.Storage.Interface.{PartsStorage}
use zmqmessage.Multipart.Access.{at-owned}
use zmqmessage.Incoming.{Incoming, extract, extract_value}

module _ {Msg S T : Type 0} (ps : PartsStorage Msg S) (get : Msg → Bool → T) where
  -- An owned part is converted, and the index moves on.
  pub extract-owned :
      (s : Incoming Msg S) (p : Part Msg)
      → get_elem? (ps.parts s.store) s.cur_extract_idx ≡ some p
      → s.cur_extract_idx < length (ps.parts s.store)
      → p.valid ≡ true
      → extract ps get s
        ≡ (ok (get p.msg s.binary_mode), record s { cur_extract_idx = s.cur_extract_idx + 1 })
  unfolding extract extract_value
  extract-owned s p e l v =
      ap (λ r. extract_value ps get r s) (at-owned (ps.parts s.store) s.cur_extract_idx p e l v)
