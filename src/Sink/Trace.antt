-- ===== src/Sink/Trace.antt =====
-- The message parts that have gone over the wire, and what one send does to them.
use zmqmessage.Base.{
  append_assoc, ℕ, ◌≡◌, refl, List, [], ◌∷◌, ◌++◌, Bool, true, false, not, map, arith, append-nil,
  sym, ap, ap₂, ◌∙◌, Bool-cases, ◌⊎◌, inl, inr,
}
use zmqmessage.Zmq.{
  Answer, accepted, would_block, failed, MsgApi, Event, sends, on_send_part, on_flush, Dest,
  zmq_sndmore, Result, ok, threw, Done, zmq_error,
}
use zmqmessage.Options.{has_option, nonblock}
use zmqmessage.Sink.{
  Sink, get_send_flags, notify_on_send, part_sent, send_cached, do_send_one, after_strict,
  after_non_strict, do_send_one_non_strict,
}

-- `flags & ZMQ_SNDMORE`
abbrev pub has_sndmore : ℕ → Bool
has_sndmore flags = has_option flags zmq_sndmore

module _ {Msg : Type 0} where
  -- The accepted parts, the earliest first, each with its ZMQ_SNDMORE flag.
  abbrev pub wire : List (Event Msg) → List (Msg × Bool)
  wire [] = []
  wire (sends m flags accepted ∷ t) = wire t ++ (m, has_sndmore flags) ∷ []
  wire (sends m flags would_block ∷ t) = wire t
  wire (sends m flags failed ∷ t) = wire t
  wire (on_send_part m ∷ t) = wire t
  wire (on_flush ∷ t) = wire t

  -- The later events stand in front.
  pub wire-append : (a b : List (Event Msg)) → wire (a ++ b) ≡ wire b ++ wire a
  wire-append [] b = sym (append-nil (wire b))
  wire-append (sends m flags accepted ∷ a) b =
      ap (λ w. w ++ (m, has_sndmore flags) ∷ []) (wire-append a b)
      ∙ append_assoc (wire b) (wire a) ((m, has_sndmore flags) ∷ [])
  wire-append (sends m flags would_block ∷ a) b = wire-append a b
  wire-append (sends m flags failed ∷ a) b = wire-append a b
  wire-append (on_send_part m ∷ a) b = wire-append a b
  wire-append (on_flush ∷ a) b = wire-append a b

  -- A part with more to follow.
  abbrev pub more : Msg → Msg × Bool
  more m = (m, true)

  -- A whole multipart message: every part but the last has more to follow.
  abbrev pub frames : List Msg → List (Msg × Bool)
  frames [] = []
  frames (m ∷ []) = (m, false) ∷ []
  frames (m ∷ n ∷ ms) = more m ∷ frames (n ∷ ms)

  pub frames-append :
      (ms : List Msg) (m : Msg) → frames (ms ++ m ∷ []) ≡ map more ms ++ (m, false) ∷ []
  frames-append [] m = refl
  frames-append (x ∷ []) m = refl
  frames-append (x ∷ y ∷ ms) m = rw (frames-append (y ∷ ms) m)

  -- Where all parts have more to follow, only the last flag tells them from a whole message.
  pub frames_of_more :
      (w : List (Msg × Bool)) (ms : List Msg) (m : Msg)
      → w ++ more m ∷ [] ≡ map more ms
      → w ++ (m, false) ∷ [] ≡ frames ms
  frames_of_more [] [] m h = cc
  frames_of_more [] (x ∷ []) m h = cc
  frames_of_more [] (x ∷ y ∷ ms) m h = cc
  frames_of_more (v ∷ w) [] m h = cc
  frames_of_more (v ∷ []) (x ∷ []) m h = cc
  frames_of_more (v ∷ u ∷ w) (x ∷ []) m h = cc
  frames_of_more (v ∷ w) (x ∷ y ∷ ms) m h =
      let hv : v ≡ more x = cc in
      let ht : w ++ more m ∷ [] ≡ map more (y ∷ ms) = cc in
      ap₂ ◌∷◌ hv (frames_of_more w (y ∷ ms) m ht)

  pub has_sndmore-get_send_flags :
      (s : Sink Msg) (last : Bool) → has_sndmore (get_send_flags s last) ≡ not last
  unfolding get_send_flags has_option
  has_sndmore-get_send_flags s true = elim (Bool-cases (has_option s.options nonblock)) [
    | inl e ↦ ground arith
    | inr e ↦ ground arith
  ]
  has_sndmore-get_send_flags s false = ground arith

  wire-notify_on_send : (s : Sink Msg) → wire (notify_on_send s s.cached).trace ≡ wire s.trace
  unfolding notify_on_send
  wire-notify_on_send s = ground arith

module _ {Msg : Type 0} (zmq : MsgApi Msg) (dst : Dest Msg) where
  -- The part of the sink that a send of cached_ leaves alone.
  pub record SameRest (s t : Sink Msg) : Type 0 where
    pub options : t.options ≡ s.options
    pub incoming : t.incoming ≡ s.incoming
    pub outgoing_queue : t.outgoing_queue ≡ s.outgoing_queue
    pub state : t.state ≡ s.state
    pub valid : t.cached.valid ≡ s.cached.valid
    pub send_observer : t.send_observer ≡ s.send_observer

  abbrev pub crossed : Answer → Msg → Bool → List (Msg × Bool)
  crossed accepted m last = (m, not last) ∷ []
  crossed would_block m last = []
  crossed failed m last = []

  pub wire-sends :
      (m : Msg) (flags : ℕ) (a : Answer) (last : Bool) (t : List (Event Msg))
      → has_sndmore flags ≡ not last
      → wire (sends m flags a ∷ t) ≡ wire t ++ crossed a m last
  wire-sends m flags accepted last t h = rw h
  wire-sends m flags would_block last t h = sym (append-nil (wire t))
  wire-sends m flags failed last t h = sym (append-nil (wire t))

  -- What a send of cached_ does, by the answer.
  pub record Sends (s : Sink Msg) (last : Bool) (a : Answer) (t : Sink Msg) : Type 0 where
    pub rest : SameRest s t
    pub crosses : wire t.trace ≡ wire s.trace ++ crossed a s.cached.msg last
    pub leaves : t.cached.msg ≡ zmq.after_send a s.cached.msg

  pub send_cached-Sends :
      (s : Sink Msg) (last : Bool)
      → Sends s last (send_cached zmq dst s last).0 (send_cached zmq dst s last).1
  unfolding send_cached notify_on_send
  send_cached-Sends s last = record {
    rest = record {
      options = ground arith;
      incoming = ground arith;
      outgoing_queue = ground arith;
      state = ground arith;
      valid = refl;
      send_observer = ground arith;
    };
    crosses =
        wire-sends s.cached.msg (get_send_flags s last) _ last (notify_on_send s s.cached).trace
          (has_sndmore-get_send_flags s last)
        ∙ ap (λ w. w ++ crossed (send_cached zmq dst s last).0 s.cached.msg last)
            (wire-notify_on_send s);
    leaves = refl;
  }

  pub part_sent-Sends :
      (s t : Sink Msg) (last : Bool) (a : Answer) → Sends s last a t → Sends s last a (part_sent t)
  unfolding part_sent
  part_sent-Sends s t last a h = ground arith

  abbrev pub Strict : Sink Msg → Bool → Done × Sink Msg → Type 0
  Strict s last (ok _, t) = Sends s last accepted t
  Strict s last (threw e, t) =
      (e ≡ zmq_error) × (Sends s last would_block t ⊎ Sends s last failed t)

  Strict-of :
      (s : Sink Msg) (last : Bool) (a : Answer) (t : Sink Msg)
      → Sends s last a t
      → Strict s last (after_strict zmq dst (a, t))
  unfolding after_strict
  Strict-of s last accepted t h = part_sent-Sends s t last accepted h
  Strict-of s last would_block t h = (refl, inl h)
  Strict-of s last failed t h = (refl, inr h)

  pub do_send_one-Strict : (s : Sink Msg) (last : Bool) → Strict s last (do_send_one zmq dst s last)
  unfolding do_send_one
  do_send_one-Strict s last = Strict-of s last _ _ (send_cached-Sends s last)

  abbrev pub NonStrict : Sink Msg → Bool → Result Bool × Sink Msg → Type 0
  NonStrict s last (ok true, t) = Sends s last accepted t
  NonStrict s last (ok false, t) = Sends s last would_block t
  NonStrict s last (threw e, t) = (e ≡ zmq_error) × Sends s last failed t

  NonStrict-of :
      (s : Sink Msg) (last : Bool) (a : Answer) (t : Sink Msg)
      → Sends s last a t
      → NonStrict s last (after_non_strict zmq dst (a, t))
  unfolding after_non_strict
  NonStrict-of s last accepted t h = part_sent-Sends s t last accepted h
  NonStrict-of s last would_block t h = h
  NonStrict-of s last failed t h = (refl, h)

  pub do_send_one_non_strict-NonStrict :
      (s : Sink Msg) (last : Bool) → NonStrict s last (do_send_one_non_strict zmq dst s last)
  unfolding do_send_one_non_strict
  do_send_one_non_strict-NonStrict s last = NonStrict-of s last _ _ (send_cached-Sends s last)
