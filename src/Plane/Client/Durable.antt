-- ===== src/Plane/Client/Durable.antt =====
-- `PlaneClient.flush`: no durable event is lost between the session and the plane, and none changes
-- its place.
use axor_wrap.Base.{
  ℕ, String, Bool, true, false, Option, none, some, List, [], ◌∷◌, ◌++◌, ◌≡◌, refl, sym, ap, ◌∙◌,
  Option-cases, Bool-cases, inl, inr, suc, if◌then◌else◌,
}
use axor_wrap.Errors.{Result, ok, err, ◌>>=◌}
use axor_wrap.Errors.Exec.{pure, bind-at}
use axor_wrap.Plane.Kernel.{Kernel}
use axor_wrap.Plane.Session.State.{Event}
use axor_wrap.Plane.Session.Run as Session
use axor_wrap.Plane.Session.Run.Outbox.{emitted_by, run-emits}
use axor_wrap.Plane.Client.State.{PlaneClient, line, lines}
use axor_wrap.Plane.Client.Spool.{load_spool, save_spool, load_spool-save_spool}
use axor_wrap.Plane.Client.Telemetry.{post_telemetry}
use axor_wrap.Plane.Client.Flush.{
  Flush, Sent, settle, hold, with_outbox, take_batch, sent_of, hosted, begin_flush, flush, Step,
  flushes, calls, step, run,
}
use mathlib.Core.List.{append-nil, append_assoc}

-- The events that the client holds for the plane: those of the spool, then those of the outbox.
abbrev pub Holds : PlaneClient → List Event → Type 0
Holds c held =
    (spooled : List Event) × (load_spool c ≡ ok spooled) × (held ≡ (spooled ++ c.session.outbox))

-- The durable events of the batches that were acknowledged, in order.
unfoldable pub acknowledged : List Sent → List Event
acknowledged [] = []
acknowledged (s ∷ ss) =
    let rest = acknowledged ss in if s.delivered then s.batch.durable ++ rest else rest

with_seq :
    (now : ℕ → String) (es : List Event) (c : PlaneClient)
    → (n : ℕ) × ((lines now es c).1 ≡ record c { seq = n })
unfolding lines line
with_seq now [] c = (c.seq, refl)
with_seq now (e ∷ es) c = with_seq now es (record c { seq = suc c.seq })

acknowledged-one :
    (s : Sent) → acknowledged (s ∷ []) ≡ (if s.delivered then s.batch.durable else [])
unfolding acknowledged
acknowledged-one s = elim (Bool-cases s.delivered) [
  | inl p ↦ rw (p) (append-nil s.batch.durable)
  | inr p ↦ rw (p) refl
]

module _ where
  load_spool-unset : (c : PlaneClient) → c.spool_path ≡ none → load_spool c ≡ ok []
  unfolding load_spool
  load_spool-unset c h = rw (h) refl

  -- A failed flush puts its events before those that came meanwhile.
  hold-Holds :
      (durable : List Event) (c : PlaneClient) (o : Option String)
      → c.spool_path ≡ o
      → Holds (hold o durable c) (durable ++ c.session.outbox)
  unfolding save_spool
  hold-Holds durable c none p =
      ([], load_spool-unset (with_outbox (durable ++ c.session.outbox) c) p, refl)
  hold-Holds durable c (some path) p = (durable, load_spool-save_spool c path durable p, refl)

  settle-delivered :
      (durable : List Event) (c : PlaneClient) → Holds (settle durable true c) c.session.outbox
  unfolding settle save_spool load_spool
  settle-delivered durable c = elim (Option-cases c.spool_path) [
    | inl p ↦ ([], load_spool-unset (save_spool [] c) p, refl)
    | inr (path, p) ↦ ([], load_spool-save_spool c path [] p, refl)
  ]

  settle-Holds :
      (durable : List Event) (delivered : Bool) (c : PlaneClient)
      → (rest : List Event) × Holds (settle durable delivered c) rest
        × (((if delivered then durable else []) ++ rest) ≡ (durable ++ c.session.outbox))
  unfolding settle
  settle-Holds durable true c = (c.session.outbox, settle-delivered durable c, refl)
  settle-Holds durable false c =
      (durable ++ c.session.outbox, hold-Holds durable c c.spool_path refl, refl)

  module _ (kernel : Kernel) (now : ℕ → String) (is_error : ℕ → Bool) where
    pub flush-loaded :
        (f : Flush) (c : PlaneClient) (spooled : List Event)
        → load_spool c ≡ ok spooled
        → let (batch, taken) = take_batch now f spooled c in
          let delivered = (post_telemetry is_error f.answers).delivered in
          flush kernel now is_error f c ≡ (
            ok (sent_of batch delivered),
            settle batch.durable delivered (hosted kernel f.meanwhile taken),
          )
    unfolding flush begin_flush take_batch axor_wrap.Errors.Exec.◌>>=◌
    flush-loaded f c spooled h = rw (h) refl

    -- Once the batch is taken, the host meets the session with an empty outbox.
    taken-session :
        (f : Flush) (c : PlaneClient) (spooled : List Event)
        → (take_batch now f spooled c).1.session ≡ record c.session { outbox = [] }
    unfolding take_batch
    taken-session f c spooled =
        let (n, p) = with_seq now (take_batch now f spooled c).0.events (with_outbox [] c) in
        ap (λ x. x.session) p

    hosted-emits :
        (f : Flush) (c : PlaneClient) (spooled : List Event)
        → (hosted kernel f.meanwhile (take_batch now f spooled c).1).session.outbox
          ≡ emitted_by kernel f.meanwhile (record c.session { outbox = [] })
    unfolding Session.run
    hosted-emits f c spooled =
        ap (λ t. (Session.run kernel f.meanwhile t).outbox) (taken-session f c spooled)
        ∙ run-emits kernel f.meanwhile (record c.session { outbox = [] })

    -- What a step does to what is held: the acknowledged events and those that are held afterwards
    -- are those that were held, and then the new ones.
    abbrev pub Keeps : (Result (List Sent) × PlaneClient) → List Event → List Event → Type 0
    Keeps (r, c) held emitted =
        (sent : List Sent) × (rest : List Event) × (r ≡ ok sent)
        × Holds c rest
        × ((acknowledged sent ++ rest) ≡ (held ++ emitted))

    -- What the session emits in a step: during a flush, from the moment its outbox is taken.
    unfoldable pub step_emits : Step → PlaneClient → List Event
    unfolding emitted_by
    step_emits (flushes f) c = emitted_by kernel f.meanwhile (record c.session { outbox = [] })
    step_emits (calls cs) c = emitted_by kernel cs c.session

    unfoldable pub emits : List Step → PlaneClient → List Event
    unfolding step_emits step
    emits [] c = []
    emits (s ∷ ss) c = step_emits s c ++ emits ss (step kernel now is_error s c).1

    flush-Keeps :
        (f : Flush) (c : PlaneClient) (held : List Event)
        → Holds c held
        → Keeps (step kernel now is_error (flushes f) c) held (step_emits (flushes f) c)
    unfolding step step_emits take_batch axor_wrap.Errors.Exec.◌>>=◌
    flush-Keeps f c held (spooled, loaded, is_held) =
        let (batch, taken) = take_batch now f spooled c in
        let delivered = (post_telemetry is_error f.answers).delivered in
        let new = emitted_by kernel f.meanwhile (record c.session { outbox = [] }) in
        let (rest, holds, kept) =
          settle-Holds batch.durable delivered (hosted kernel f.meanwhile taken) in
        rw (flush-loaded f c spooled loaded) (
          sent_of batch delivered ∷ [],
          rest,
          refl,
          holds,
          ap (λ x. x ++ rest) (acknowledged-one (sent_of batch delivered))
              ∙ (kept
                  ∙ (ap (λ x. batch.durable ++ x) (hosted-emits f c spooled)
                      ∙ ap (λ x. x ++ new) (sym is_held))),
        )

    pub step-Keeps :
        (s : Step) (c : PlaneClient) (held : List Event)
        → Holds c held
        → Keeps (step kernel now is_error s c) held (step_emits s c)
    unfolding step step_emits axor_wrap.Errors.Exec.◌>>=◌ acknowledged load_spool
    step-Keeps (flushes f) c held h = flush-Keeps f c held h
    step-Keeps (calls cs) c held (spooled, loaded, is_held) =
        let new = emitted_by kernel cs c.session in
        (
          [],
          held ++ new,
          refl,
          (
            spooled,
            loaded,
            ap (λ x. x ++ new) is_held
                ∙ (append_assoc spooled c.session.outbox new
                    ∙ ap (λ x. spooled ++ x) (sym (run-emits kernel cs c.session))),
          ),
          refl,
        )

    pub run-cons :
        (s : Step) (ss : List Step) (c : PlaneClient) (a b : List Sent)
        → (step kernel now is_error s c).0 ≡ ok a
        → (run kernel now is_error ss (step kernel now is_error s c).1).0 ≡ ok b
        → run kernel now is_error (s ∷ ss) c
          ≡ (ok (a ++ b), (run kernel now is_error ss (step kernel now is_error s c).1).1)
    unfolding run axor_wrap.Errors.Exec.◌>>=◌
    run-cons s ss c a b h k =
        bind-at (step kernel now is_error s) _ c a h
        ∙ bind-at (run kernel now is_error ss) (λ r. pure (a ++ r)) _ b k
