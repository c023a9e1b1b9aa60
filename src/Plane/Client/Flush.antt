-- ===== src/Plane/Client/Flush.antt =====
-- `PlaneClient.flush`.
use axor_wrap.Base.{
  ℕ, ℤ, String, Bool, true, false, Option, none, some, List, [], ◌∷◌, ◌++◌, ◌==◌, if◌then◌else◌,
}
use axor_wrap.Errors.{Result, ok, err}
use axor_wrap.Errors.Exec.{Exec, pure, modify, ◌>>=◌, ◌>>◌}
use axor_wrap.Plane.Kernel.{Kernel}
use axor_wrap.Plane.Session.State.{Event}
use axor_wrap.Plane.Session.Heartbeat.{heartbeat}
use axor_wrap.Plane.Session.Run.{Call}
use axor_wrap.Plane.Session.Run as Session
use axor_wrap.Plane.Client.State.{PlaneClient, Line, lines}
use axor_wrap.Plane.Client.Spool.{load_spool, save_spool}
use axor_wrap.Plane.Client.Telemetry.{Answer, post_telemetry}

-- The arguments of one flush.
pub record Flush : Type 0 where
  pub extra_events : List Event
  pub level : String
  pub budget_remaining : Option ℤ
  -- what the network answers, and what the host calls until the last answer is there
  pub answers : ℕ → Answer
  pub meanwhile : List Call

pub record Batch : Type 0 where
  pub durable : List Event
  pub events : List Event
  pub lines : List Line

-- What a flush did: its batch, whether that was acknowledged, and the keys that it then reported as
-- consumed.
pub record Sent : Type 0 where
  pub batch : Batch
  pub delivered : Bool
  pub consumed : List String

abbrev pub with_outbox : List Event → PlaneClient → PlaneClient
with_outbox events c = record c { session = record c.session { outbox = events } }

unfoldable pub consumed_keys : List Event → List String
consumed_keys [] = []
consumed_keys (e ∷ es) =
    let rest = consumed_keys es in
    if e.kind == "injection_consumed"
    then "pending_injection" ∷ rest
    else if e.kind == "context_excision"
    then "pending_excision" ∷ rest
    else rest

abbrev pub hold : Option String → List Event → PlaneClient → PlaneClient
hold (some path) durable c = save_spool durable c
hold none durable c = with_outbox (durable ++ c.session.outbox) c

-- What happens to the durable events once the answer is known.
unfoldable pub settle : List Event → Bool → PlaneClient → PlaneClient
unfolding save_spool
settle durable true c = save_spool [] c
settle durable false c = hold c.spool_path durable c

abbrev pub sent_of : Batch → Bool → Sent
unfolding consumed_keys
sent_of batch delivered = record {
  batch = batch;
  delivered = delivered;
  consumed = if delivered then consumed_keys batch.events else [];
}

abbrev pub hosted : Kernel → List Call → PlaneClient → PlaneClient
unfolding Session.run
hosted kernel calls c = record c { session = Session.run kernel calls c.session }

module _ (now : ℕ → String) where
  -- the batch, of what the spool held
  unfoldable pub take_batch : Flush → List Event → PlaneClient → Batch × PlaneClient
  unfolding lines heartbeat
  take_batch f spooled c =
      let durable = spooled ++ c.session.outbox in
      let taken = with_outbox [] c in
      let beat = heartbeat f.level f.budget_remaining taken.session in
      let events = durable ++ (f.extra_events ++ beat ∷ []) in
      let (ls, numbered) = lines now events taken in
      (record { durable = durable; events = events; lines = ls }, numbered)

  abbrev begin_with : Flush → Result (List Event) → Exec PlaneClient Batch
  unfolding take_batch
  begin_with f (err e) c = (err e, c)
  begin_with f (ok spooled) c = let (batch, taken) = take_batch f spooled c in (ok batch, taken)

  unfoldable pub begin_flush : Flush → Exec PlaneClient Batch
  unfolding load_spool take_batch
  begin_flush f c = begin_with f (load_spool c) c

-- What happens at a client: a flush, or calls of the host between two.
pub data Step : Type 0 where
  flushes : Flush → Step
  calls : List Call → Step

module _ (kernel : Kernel) (now : ℕ → String) (is_error : ℕ → Bool) where
  unfoldable pub flush : Flush → Exec PlaneClient Sent
  unfolding begin_flush post_telemetry settle consumed_keys Session.run
  flush f = do
    batch ← begin_flush now f
    modify (hosted kernel f.meanwhile)
    modify (settle batch.durable (post_telemetry is_error f.answers).delivered)
    pure (sent_of batch (post_telemetry is_error f.answers).delivered)

  unfoldable pub step : Step → Exec PlaneClient (List Sent)
  unfolding flush Session.run
  step (flushes f) = do s ← flush f; pure (s ∷ [])
  step (calls cs) = do modify (hosted kernel cs); pure []

  unfoldable pub run : List Step → Exec PlaneClient (List Sent)
  unfolding step
  run [] = pure []
  run (s ∷ ss) = do a ← step s; b ← run ss; pure (a ++ b)
