-- ===== src/Incoming/Tail/Loose.antt =====
-- Receiving one part into a buffer that is not kept.
use zmqmessage.Base.{
  ℕ, ◌+◌, ◌^◌, ◌<◌, lt→ltb, Option, ◌≡◌, refl, ap, ◌∙◌, ◌∷◌, Bool, true, false, if◌then◌else◌,
}
use zmqmessage.Zmq.{Source, arrives, Result, ok}
use zmqmessage.Storage.Interface.{PartsStorage}
use zmqmessage.Tools.{recv_msg-arrives, has_more}
use zmqmessage.Incoming.{Incoming, observe}
use zmqmessage.Incoming.Tail.{receive_loose, loose_received, tail_counted}

module _ {Msg S : Type 0} (ps : PartsStorage Msg S) (src : Source Msg) where
  -- Only the source has moved on, by `n` calls of recv.
  abbrev pub Moved : ℕ → Incoming Msg S → Incoming Msg S → Type 0
  Moved n s t = (t.calls ≡ s.calls + n) × (t.store ≡ s.store) × (t.is_terminal ≡ s.is_terminal)

  -- The state once a message has been received and observed.
  abbrev pub seen : Incoming Msg S → Msg → Bool → Bool → Incoming Msg S
  seen s m b observer =
      if observer
      then record s { calls = s.calls + 1; observed = (m, b) ∷ s.observed }
      else record s { calls = s.calls + 1 }

  pub seen-Moved : (s : Incoming Msg S) (m : Msg) (b o : Bool) → Moved 1 s (seen s m b o)
  seen-Moved s m b true = (refl, refl, refl)
  seen-Moved s m b false = (refl, refl, refl)

  pub loose :
      (s : Incoming Msg S) (m : Msg) (b : Bool)
      → src.recv s.calls ≡ arrives m
      → src.rcvmore (s.calls + 1) ≡ b
      → receive_loose ps src s ≡ (ok (m, b), seen s m b s.receive_observer)
  unfolding receive_loose loose_received observe has_more
  loose s m b e r =
      ap (λ w. loose_received ps src w s) (recv_msg-arrives src s.calls m e)
      ∙ ap (λ x. (ok (m, x), seen s m x s.receive_observer)) r

  -- Below the greatest int the count goes on.
  pub counts :
      {A : Type 0} (n : ℕ) (s : Incoming Msg S) (rest : ℕ → Option (Result A × Incoming Msg S))
      → n + 1 < 2 ^ 31
      → tail_counted ps src n s rest ≡ rest (n + 1)
  unfolding tail_counted
  counts n s rest h = simp (lt→ltb (n + 1) (2 ^ 31) h)
