-- ===== src/Examples/Async/Run.antt =====
-- The task processor over any number of rounds.
use mathlib.Core.List.Perm
use zmqmessage.Base.{ℕ, ◌*◌, ◌≡◌, refl, List, [], ◌∷◌, Bool, true, subst}
use zmqmessage.Zmq.{MsgApi, IsMsgApi, Dest, Source, ok}
use zmqmessage.Bytes.{ℤ}
use zmqmessage.Tools.{init_msg}
use zmqmessage.Incoming.Counting.{Comes}
use zmqmessage.Examples.Async.{Processor, Poll, step}
use zmqmessage.Examples.Async.Round.{Reports, Sound, Outcome, step-Outcome}

module _ {Msg : Type 0} (zmq : MsgApi Msg) (laws : IsMsgApi zmq) (dst : Dest Msg)
    (show : ℤ → List ℕ) (message : List ℕ → Msg)
    (makes : (bs : List ℕ) → init_msg zmq bs ≡ ok (message bs)) (src : Source Msg)
    (parse : Msg → Bool → ℤ) (requests : ℕ → Msg × Msg)
    (comes : (k : ℕ) → Comes src (k * 2) ((requests k).0 ∷ (requests k).1 ∷ [])) where
  -- The states that rounds lead to, from the start.
  abbrev pub start : Processor Msg
  start = record { tasks = []; queue = []; sent = []; calls = 0 }

  pub data Reaches : Processor Msg → Type 0 where
    starts : Reaches start
    rounds :
        (p : Processor Msg) (event : Poll) (rand : ℕ) (r : Processor Msg)
        → Reaches p
        → Reports p event
        → step zmq dst show src parse p event rand ≡ (ok true, r)
        → Reaches r

  start-Sound : Sound zmq laws dst show message makes src parse requests comes start
  start-Sound = record {
    count = 0;
    stands = refl;
    accounts = record {
      waiting = [];
      given = [];
      on_wire = refl;
      in_queue = tt;
      balance = Perm.refl [];
    };
    running = tt;
  }

  -- In every state that rounds of the task processor lead to, where requests of two parts come,
  -- messages can be made, and ZMQ_POLLOUT is reported only while answers wait: no task is lost and
  -- none is answered twice. The tasks of the requests received are, up to order, those that run,
  -- those whose answer is whole in a queue and those whose answer has gone over the wire as one
  -- whole multipart message; nothing else is on the wire; and a task that runs has 1 to 9 steps to
  -- go.
  pub Reaches-Sound :
      (p : Processor Msg)
      → Reaches p
      → Sound zmq laws dst show message makes src parse requests comes p
  Reaches-Sound _ starts = start-Sound
  Reaches-Sound _ (rounds p event rand r reach reports e) =
      subst (Outcome zmq laws dst show message makes src parse requests comes) e (
        step-Outcome zmq laws dst show message makes src parse requests comes p event rand
          (Reaches-Sound p reach) reports)
