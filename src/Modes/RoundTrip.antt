-- ===== src/Modes/RoundTrip.antt =====
-- Values from an Outgoing to an Incoming.
use zmqmessage.Base.{
  ℕ, ◌+◌, ◌^◌, ◌<◌, ◌≤◌, ◌≡◌, refl, sym, ap, ap₂, ◌∙◌, List, [], ◌∷◌, ◌++◌, true, false, map, arith,
  length, subst, length-map, leb_of_le,
}
use zmqmessage.Zmq.{MsgApi, IsMsgApi, Dest, Source, ok, threw, Done, done}
use zmqmessage.Part.{Part, held, msgs, AllValid}
use zmqmessage.Storage.{DynamicPartsStorage, dynamic_make, dynamic_parts, default_capacity}
use zmqmessage.Storage.Interface.{dynamic_storage, IsOpen, dynamic_storage-IsPartsStorage}
use zmqmessage.Storage.Fresh.{dynamic_make-IsOpen, dynamic_parts-dynamic_make}
use zmqmessage.Sink.OnWire.{OnWire}
use zmqmessage.Tools.{init_msg}
use zmqmessage.Tools.Text.{bytes-init_msg}
use zmqmessage.Incoming.{Incoming, size, incoming_make, receive_parts}
use zmqmessage.Incoming.Counting.{Comes, singles, Counted, receive_parts-Counted}
use zmqmessage.Incoming.Joining.{singles-AllValid, take-all}
use zmqmessage.Multipart.Holding.{Holding, all-Holding}
use zmqmessage.Modes.{
  Traits, Insertion, Extraction, Extracted, send_each, extract_each, received_each, receive_each,
}
use zmqmessage.Modes.Sending.{Written, written, bytes_of, messages, send_each-OnWire}
use zmqmessage.Modes.Reading.{asked, offered, values_of, AllRead, Got, extract_each-Got}

module _ {Msg A : Type 0} (zmq : MsgApi Msg) (laws : IsMsgApi zmq) (El : A → Type 0)
    (traits : (a : A) → Traits (El a)) (message : List ℕ → Msg)
    (makes : (bs : List ℕ) → init_msg zmq bs ≡ ok (message bs)) where
  bytes-messages :
      (ws : List (Written El))
      → map zmq.bytes (map (λ (w : Written El). message (bytes_of traits w)) ws)
        ≡ map (bytes_of traits) ws
  bytes-messages [] = refl
  bytes-messages (w ∷ ws) =
      let bs = bytes_of traits w in
      ap (λ k. k ∷ map zmq.bytes (map (λ (x : Written El). message (bytes_of traits x)) ws))
        (bytes-init_msg zmq laws bs (message bs) (makes bs))
      ∙ ap (λ ks. bs ∷ ks) (bytes-messages ws)

  module _ (src : Source Msg) (steps : List (Insertion El)) (asks : List (Extraction A))
      (calls : ℕ) where
    -- The variables have got the values that were inserted.
    abbrev pub Transferred : Extracted zmq El traits (dynamic_storage zmq) → Type 0
    Transferred (ok vs, t) =
        (vs ≡ values_of traits (written traits false steps))
        × (t.calls ≡ calls + length (written traits false steps))
        × (t.is_terminal ≡ true)
    Transferred (threw e, t) = ⊥

    reads :
        (s : Incoming Msg (DynamicPartsStorage Msg))
        → s.cur_extract_idx ≡ 0
        → s.binary_mode ≡ false
        → s.calls ≡ calls + length (written traits false steps)
        → s.is_terminal ≡ true
        → AllValid (dynamic_parts s.store)
        → msgs (dynamic_parts s.store)
          ≡ map (λ w. message (bytes_of traits w)) (written traits false steps)
        → offered traits (written traits false steps) ≡ asked traits false asks
        → AllRead traits (written traits false steps)
        → Transferred (extract_each zmq El traits (dynamic_storage zmq) asks s)
    reads s i b c z valid e agree r =
        got (extract_each zmq El traits (dynamic_storage zmq) asks s) (
          extract_each-Got zmq El traits (dynamic_storage zmq) asks ws (msgs parts) s
            (subst (λ k. Holding parts k (msgs parts)) (sym i) (all-Holding parts valid))
            (ap (map zmq.bytes) e ∙ bytes-messages ws)
            (agree ∙ ap (λ k. asked traits k asks) (sym b)) r)
      where
        ws : List (Written El)
        ws = written traits false steps

        parts : List (Part Msg)
        parts = dynamic_parts s.store

        got :
            (out : Extracted zmq El traits (dynamic_storage zmq))
            → Got zmq El traits (dynamic_storage zmq) ws s out
            → Transferred out
        got (ok vs, t) (h, k, n, m) = (h, n ∙ c, m ∙ z)
        got (threw x, t) h = h

    -- The receiver reads what was written, where the messages of the values come.
    receive_each-Transferred :
        1 ≤ length (written traits false steps)
        → length (written traits false steps) < 2 ^ 61
        → offered traits (written traits false steps) ≡ asked traits false asks
        → AllRead traits (written traits false steps)
        → Comes src calls (map (λ w. message (bytes_of traits w)) (written traits false steps))
        → Transferred
            (receive_each zmq El traits src (length (written traits false steps)) asks calls)
    unfolding receive_each incoming_make size
    receive_each-Transferred some_part small agree r c =
        after (receive_parts (dynamic_storage zmq) src fresh (length ws) true) (
          receive_parts-Counted (dynamic_storage zmq) IsOpen (2 ^ 61)
            (dynamic_storage-IsPartsStorage zmq laws) src (length ws) true ms fresh (omega arith)
            (dynamic_make-IsOpen zmq laws)
            (omega (arith, ap length (dynamic_parts-dynamic_make zmq laws))) c)
      where
        ws : List (Written El)
        ws = written traits false steps

        ms : List Msg
        ms = map (λ (w : Written El). message (bytes_of traits w)) ws

        fresh : Incoming Msg (DynamicPartsStorage Msg)
        fresh = incoming_make (dynamic_make zmq default_capacity) calls

        as_many : length ms ≡ length ws
        as_many = length-map _ ws

        after :
            (out : Done × Incoming Msg (DynamicPartsStorage Msg))
            → Counted
                (dynamic_storage zmq)
                IsOpen
                (2 ^ 61)
                (dynamic_storage-IsPartsStorage zmq laws)
                src
                (length ws)
                ms
                true
                fresh
                out
            → Transferred (received_each zmq El traits src asks out)
        after (threw x, s) (d, z, k) = let e : threw x ≡ done = d ∙ ground (arith, as_many) in cc
        after (ok _, s) (d, z, k) =
            let whole = take-all (length ws) ms (omega (arith, as_many)) in
            let shape : map held (dynamic_parts s.store) ≡ singles ms =
              k.adds
              ∙ ap₂ (λ ps ns. map held ps ++ singles ns) (dynamic_parts-dynamic_make zmq laws)
                  whole in
            let (valid, e) = singles-AllValid (dynamic_parts s.store) ms shape in
            unfold received_each in
            reads s k.extracts k.mode
              (k.calls ∙ ap (λ ns. calls + length ns) whole ∙ ap (λ n. calls + n) as_many)
              (z ∙ leb_of_le (length ms) (length ws) (omega (arith, as_many))) valid e agree r

  -- Inserting at least one and fewer than 2 ^ 61 values into an Outgoing without options, with
  -- manipulators Binary and Text in between, and flushing it either throws zmq::error_t or puts one
  -- whole multipart message with a part for each value on the wire; and where these parts come to
  -- an Incoming, receiving that many, with check_terminal set, and extracting by any sequence of
  -- extractions and manipulators that has the same types and ways, text or memory, gives the
  -- values, in order, after one call of recv for each; where messages can be made and each value is
  -- read back from what is written of it.
  pub send_each-receive_each :
      (dst : Dest Msg) (src : Source Msg) (steps : List (Insertion El)) (asks : List (Extraction A))
      (calls : ℕ)
      → 1 ≤ length (written traits false steps)
      → length (written traits false steps) < 2 ^ 61
      → offered traits (written traits false steps) ≡ asked traits false asks
      → AllRead traits (written traits false steps)
      → Comes src calls (messages zmq laws dst El traits message makes false steps)
      → OnWire zmq laws dst
          (messages zmq laws dst El traits message makes false steps)
          (send_each zmq El traits dst steps)
        × Transferred src steps asks calls
            (receive_each zmq El traits src (length (written traits false steps)) asks calls)
  send_each-receive_each dst src steps asks calls some_part small agree r c =
      let n =
        length-map (λ (w : Written El). message (bytes_of traits w)) (written traits false steps) in
      (
        send_each-OnWire zmq laws dst El traits message makes steps (omega (arith, n)) small,
        receive_each-Transferred src steps asks calls some_part small agree r c,
      )
