-- ===== src/Modes/Sending.antt =====
-- What a sequence of insertions puts on the wire.
use zmqmessage.Base.{
  ℕ, ◌+◌, ◌^◌, ◌<◌, ◌≤◌, ◌≡◌, refl, sym, ap, ◌∙◌, List, [], ◌∷◌, ◌++◌, none, Bool, true, false, map,
  arith, length, subst, append_assoc, append-nil, length-append,
}
use zmqmessage.Zmq.{MsgApi, IsMsgApi, Dest, ok, threw, Done, done, zmq_error}
use zmqmessage.Part.{Part}
use zmqmessage.Options.{
  has_option, with_binary, with_text, binary_mode, drop_on_block, cache_on_block,
}
use zmqmessage.Sink.{Sink, State, sink_make, send_owned, flush, is_dropping}
use zmqmessage.Sink.Run.{IsRun, IsRunIn}
use zmqmessage.Sink.Insert.{Step, send_owned-Step}
use zmqmessage.Sink.Delivery.{sink_make-IsRun}
use zmqmessage.Sink.Modes.{Plain, send_owned-Plain, send_owned_options}
use zmqmessage.Sink.OnWire.{OnWire, flush-OnWire}
use zmqmessage.Tools.{init_msg}
use zmqmessage.Inserting.{insert_value}
use zmqmessage.Inserting as Inserting
use zmqmessage.Inserting.Value.{insert_value-send_owned}
use zmqmessage.Modes.{Way, way, Traits, write, encode, Insertion, chained, insert_each, send_each}

-- A value, and how it is written.
pub record Written {A : Type 0} (El : A → Type 0) : Type 0 where
  pub name : A
  pub value : El name
  pub how : Way

module _ {A : Type 0} {El : A → Type 0} (traits : (a : A) → Traits (El a)) where
  -- The values among the insertions, each with the way that the mode at its place gives.
  abbrev pub written : Bool → List (Insertion El) → List (Written El)
  written binary [] = []
  written binary (Insertion.binary ∷ steps) = written true steps
  written binary (Insertion.text ∷ steps) = written false steps
  written binary (Insertion.value a v ∷ steps) =
      record { name = a; value = v; how = way (traits a).kind binary } ∷ written binary steps

  abbrev pub bytes_of : Written El → List ℕ
  bytes_of w = write (traits w.name) w.how w.value

-- The options of an Outgoing that was made with none, in either mode.
abbrev options_of : Bool → ℕ
options_of true = binary_mode
options_of false = 0

mode_of : (b : Bool) → has_option (options_of b) binary_mode ≡ b
unfolding has_option
mode_of true = refl
mode_of false = refl

keeps_parts :
    (b : Bool)
    → (has_option (options_of b) drop_on_block ≡ false)
      × (has_option (options_of b) cache_on_block ≡ false)
unfolding has_option
keeps_parts true = (refl, refl)
keeps_parts false = (refl, refl)

binary_options : (b : Bool) → with_binary (options_of b) ≡ binary_mode
unfolding with_binary
binary_options true = refl
binary_options false = refl

text_options : (b : Bool) → with_text (options_of b) ≡ 0
unfolding with_text
text_options true = refl
text_options false = refl

module _ {Msg : Type 0} where
  -- The options do not bear on what the sink has taken.
  with_options :
      (st : State) (ms : List Msg) (s : Sink Msg) (o : ℕ)
      → IsRunIn st ms s
      → IsRunIn st ms (record s { options = o })
  with_options State.not_sent ms s o h = h
  with_options State.sending ms s o h = h
  with_options State.queueing ms s o h = h
  with_options State.dropping ms s o h = h
  with_options State.flushed ms s o h = h

module _ {Msg A : Type 0} (zmq : MsgApi Msg) (laws : IsMsgApi zmq) (dst : Dest Msg)
    (El : A → Type 0) (traits : (a : A) → Traits (El a)) (message : List ℕ → Msg)
    (makes : (bs : List ℕ) → init_msg zmq bs ≡ ok (message bs)) where
  -- The messages of the values.
  abbrev pub messages : Bool → List (Insertion El) → List Msg
  messages binary steps = map (λ w. message (bytes_of traits w)) (written traits binary steps)

  -- A sink in a mode, which neither queues nor drops.
  abbrev InMode : Bool → Sink Msg → Type 0
  InMode b s = (s.options ≡ options_of b) × (is_dropping s ≡ false) × (s.outgoing_queue ≡ none)

  InMode-Plain : (b : Bool) (s : Sink Msg) → InMode b s → Plain zmq dst s
  InMode-Plain b s (o, d, q) =
      let (x, y) = keeps_parts b in
      (
        (ap (λ k. has_option k drop_on_block) o ∙ x, d),
        (ap (λ k. has_option k cache_on_block) o ∙ y, q),
      )

  -- The sink has taken `ms`, unless the exception is zmq::error_t.
  abbrev Taken : List Msg → Done × Sink Msg → Type 0
  Taken ms (ok _, t) = Plain zmq dst t × IsRun ms t
  Taken ms (threw e, t) = e ≡ zmq_error

  insert_each-Taken :
      (steps : List (Insertion El)) (b : Bool) (ms : List Msg) (s : Sink Msg)
      → length ms + length (written traits b steps) < 2 ^ 61
      → InMode b s
      → IsRun ms s
      → Taken (ms ++ messages b steps) (insert_each zmq El traits dst steps s)
  unfolding insert_each encode Inserting.set_binary Inserting.set_text is_dropping
  insert_each-Taken [] b ms s small m run =
      subst (λ ns. Taken ns (done, s)) (sym (append-nil ms)) (InMode-Plain b s m, run)
  insert_each-Taken (Insertion.binary ∷ steps) b ms s small (o, d, q) run =
      insert_each-Taken steps true ms (record s { options = with_binary s.options }) small
        (ap with_binary o ∙ binary_options b, d, q)
        (with_options s.state ms s (with_binary s.options) run)
  insert_each-Taken (Insertion.text ∷ steps) b ms s small (o, d, q) run =
      insert_each-Taken steps false ms (record s { options = with_text s.options }) small
        (ap with_text o ∙ text_options b, d, q)
        (with_options s.state ms s (with_text s.options) run)
  insert_each-Taken (Insertion.value a v ∷ steps) b ms s small m run =
      let bs = encode (traits a) v b in
      let p : Part Msg = record { msg = message bs; valid = true } in
      let made = insert_value-send_owned zmq dst (encode (traits a)) s v (message bs) (
        ap (λ k. init_msg zmq (encode (traits a) v k))
          (ap (λ k. has_option k binary_mode) m.0 ∙ mode_of b)
        ∙ makes bs) in
      subst
        (λ w.
          Taken (ms ++ message bs ∷ messages b steps)
            (chained zmq El traits dst w (insert_each zmq El traits dst steps)))
        (sym made)
        (next (send_owned zmq dst s p) (send_owned_options zmq dst s p ∙ m.0)
          (send_owned-Plain zmq dst s p (InMode-Plain b s m))
          (send_owned-Step zmq laws dst ms s p refl (omega arith) run)
          (λ t k r.
            insert_each-Taken steps b (ms ++ message bs ∷ []) t
              (omega (arith, length-append {0} ms (message bs ∷ []))) k r))
    where
      next :
          (out : Done × Sink Msg × Part Msg)
          → out.1.options ≡ options_of b
          → Plain zmq dst out.1
          → Step ms s (record { msg = message (encode (traits a) v b); valid = true }) out
          → ((t : Sink Msg)
              → InMode b t
              → IsRun (ms ++ message (encode (traits a) v b) ∷ []) t
              → Taken
                  ((ms ++ message (encode (traits a) v b) ∷ []) ++ messages b steps)
                  (insert_each zmq El traits dst steps t))
          → Taken
              (ms ++ message (encode (traits a) v b) ∷ messages b steps)
              (chained zmq El traits dst (out.0, out.1) (insert_each zmq El traits dst steps))
      next (ok _, t, p) o plain h rest =
          unfold chained in
          subst (λ ns. Taken ns (insert_each zmq El traits dst steps t))
            (append_assoc ms (message (encode (traits a) v b) ∷ []) (messages b steps))
            (rest t (o, plain.0.1, plain.1.1) h.0)
      next (threw e, t, p) o plain h rest = unfold chained in h.0

  finishes :
      (ms : List Msg) (out : Done × Sink Msg)
      → 1 ≤ length ms
      → Taken ms out
      → OnWire zmq laws dst ms (chained zmq El traits dst out (flush zmq dst))
  unfolding chained
  finishes ms (ok _, t) some_part (plain, run) =
      flush-OnWire zmq laws dst ms t some_part plain.0 plain.1 run
  finishes ms (threw e, t) some_part h = h

  -- What is sent with manipulators in between.
  pub send_each-OnWire :
      (steps : List (Insertion El))
      → 1 ≤ length (messages false steps)
      → length (written traits false steps) < 2 ^ 61
      → OnWire zmq laws dst (messages false steps) (send_each zmq El traits dst steps)
  unfolding send_each sink_make is_dropping
  send_each-OnWire steps some_part small = finishes (messages false steps) _ some_part (
      insert_each-Taken steps false [] (sink_make zmq 0 false none) (omega arith) (refl, refl, refl)
        (sink_make-IsRun zmq laws dst 0 false none))
