-- ===== src/Inserting/Iterator.antt =====
-- The output iterator of Sink.hpp. It holds nothing but the sink, so assigning through it inserts
-- into the sink, and advancing it does nothing.
use zmqmessage.Base.{ℕ, ◌≡◌, refl, ap, ◌∙◌, List, [], ◌∷◌, Bool, true, false, map}
use zmqmessage.Zmq.{MsgApi, Dest, ok, threw, Done, done}
use zmqmessage.Part.{Part}
use zmqmessage.Options.{has_option, binary_mode}
use zmqmessage.Tools.{init_msg}
use zmqmessage.Sink.{Sink, send_owned}
use zmqmessage.Sink.Modes.{send_owned_options}
use zmqmessage.Sink.Delivery.{insert_all, and_then}
use zmqmessage.Inserting.{insert_value}
use zmqmessage.Inserting.Value.{insert_value-send_owned}

module _ {Msg : Type 0} (zmq : MsgApi Msg) (dst : Dest Msg) {T : Type 0}
    (encode : T → Bool → List ℕ) where
  -- `*it = t`: the assignment of AssignProxy.
  pub assign : Sink Msg → T → Done × Sink Msg
  assign s t = insert_value zmq dst encode s t

  -- `equal`, so `operator==`: no output iterator is at the end.
  pub equal : Bool
  equal = false

  next_value : Done × Sink Msg → (Sink Msg → Done × Sink Msg) → Done × Sink Msg
  next_value (ok _, s) rest = rest s
  next_value (threw e, s) rest = (threw e, s)

  -- Copying values to the iterator, as `std::copy` assigns them: `*it = t; ++it`.
  pub copy_values : List T → Sink Msg → Done × Sink Msg
  unfolding next_value assign
  copy_values [] s = (done, s)
  copy_values (t ∷ ts) s = next_value (assign s t) (copy_values ts)

  module _ (mode : Bool) (message : T → Msg)
      (makes : (t : T) → init_msg zmq (encode t mode) ≡ ok (message t)) where
    abbrev pub part_of : T → Part Msg
    part_of t = record { msg = message t; valid = true }

    assign_sends :
        (s : Sink Msg) (t : T)
        → has_option s.options binary_mode ≡ mode
        → assign s t ≡ ((send_owned zmq dst s (part_of t)).0, (send_owned zmq dst s (part_of t)).1)
    unfolding assign
    assign_sends s t m =
        insert_value-send_owned zmq dst encode s t (message t)
          (ap (λ b. init_msg zmq (encode t b)) m ∙ makes t)

    -- Copying values to the output iterator of a sink is the same as inserting the owned parts that
    -- the values make, in order, up to the first that throws, if the sink is in the given mode and
    -- each value makes its message in that mode.
    pub copy_values-eq-insert_all :
        (ts : List T) (s : Sink Msg)
        → has_option s.options binary_mode ≡ mode
        → copy_values ts s ≡ insert_all zmq dst (map part_of ts) s
    unfolding copy_values insert_all
    copy_values-eq-insert_all [] s m = refl
    copy_values-eq-insert_all (t ∷ ts) s m =
        ap (λ w. next_value w (copy_values ts)) (assign_sends s t m)
        ∙ same (send_owned zmq dst s (part_of t))
            (ap (λ o. has_option o binary_mode) (send_owned_options zmq dst s (part_of t)) ∙ m)
            (copy_values-eq-insert_all ts)
      where
        same :
            (out : Done × Sink Msg × Part Msg)
            → has_option out.1.options binary_mode ≡ mode
            → ((u : Sink Msg)
                → has_option u.options binary_mode ≡ mode
                → copy_values ts u ≡ insert_all zmq dst (map part_of ts) u)
            → next_value (out.0, out.1) (copy_values ts)
              ≡ and_then zmq dst (insert_all zmq dst (map part_of ts)) out
        same (ok _, u, p) h ih = ih u h
        same (threw e, u, p) h ih = refl
