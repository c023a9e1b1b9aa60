-- ===== src/Plane/Client/Numbered.antt =====
-- `_line`: the numbers under which a client posts its events.
use axor_wrap.Base.{
  ℕ, suc, String, Bool, true, false, Option, none, some, List, [], ◌∷◌, ◌++◌, ◌≡◌, refl, sym, ap,
  subst, ◌∙◌,
}
use axor_wrap.Errors.{Result, ok}
use axor_wrap.Plane.Kernel.{Kernel}
use axor_wrap.Plane.Session.State.{Event}
use axor_wrap.Plane.Client.State.{PlaneClient, Line, line, lines}
use axor_wrap.Plane.Client.Spool.{save_spool}
use axor_wrap.Plane.Client.Telemetry.{post_telemetry}
use axor_wrap.Plane.Client.Flush.{
  Sent, hold, settle, with_outbox, take_batch, sent_of, hosted, Step, flushes, calls, step, run,
}
use axor_wrap.Plane.Client.Durable.{Holds, flush-loaded, step-Keeps, run-cons}
use mathlib.Core.List.{append-nil, append_assoc}

-- The list counts from the first number up to the last one, which it leaves out.
abbrev pub Counts : ℕ → ℕ → List ℕ → Type 0
Counts from to [] = from ≡ to
Counts from to (n ∷ ns) = (n ≡ from) × Counts (suc from) to ns

unfoldable pub numbers : List Line → List ℕ
numbers [] = []
numbers (l ∷ ls) = l.seq ∷ numbers ls

-- The numbers of all events that were posted, in order.
unfoldable pub posted_numbers : List Sent → List ℕ
unfolding numbers
posted_numbers [] = []
posted_numbers (s ∷ ss) = numbers s.batch.lines ++ posted_numbers ss

Counts-append : (a b c : ℕ) (ms ns : List ℕ) → Counts a b ms → Counts b c ns → Counts a c (ms ++ ns)
Counts-append a b c [] ns h k = subst (λ x. Counts x c ns) (sym h) k
Counts-append a b c (m ∷ ms) ns (p, h) k = (p, Counts-append (suc a) b c ms ns h k)

lines-Counts :
    (now : ℕ → String) (es : List Event) (c : PlaneClient)
    → Counts c.seq (lines now es c).1.seq (numbers (lines now es c).0)
unfolding lines line numbers
lines-Counts now [] c = refl
lines-Counts now (e ∷ es) c = (refl, lines-Counts now es (record c { seq = suc c.seq }))

hold-seq :
    (durable : List Event) (o : Option String) (c : PlaneClient) → (hold o durable c).seq ≡ c.seq
unfolding save_spool
hold-seq durable none c = refl
hold-seq durable (some path) c = refl

settle-seq : (durable : List Event) (b : Bool) (c : PlaneClient) → (settle durable b c).seq ≡ c.seq
unfolding settle save_spool
settle-seq durable true c = refl
settle-seq durable false c = hold-seq durable c.spool_path c

module _ (kernel : Kernel) (now : ℕ → String) (is_error : ℕ → Bool) where
  abbrev Numbers : (Result (List Sent) × PlaneClient) → ℕ → Type 0
  Numbers (r, c) from = (sent : List Sent) × (r ≡ ok sent) × Counts from c.seq (posted_numbers sent)

  step-Numbers :
      (s : Step) (c : PlaneClient) (held : List Event)
      → Holds c held
      → Numbers (step kernel now is_error s c) c.seq
  unfolding step take_batch posted_numbers axor_wrap.Errors.Exec.◌>>=◌
  step-Numbers (flushes f) c held (spooled, loaded, is_held) =
      let (batch, taken) = take_batch now f spooled c in
      let delivered = (post_telemetry is_error f.answers).delivered in
      rw (flush-loaded kernel now is_error f c spooled loaded) (
        sent_of batch delivered ∷ [],
        refl,
        rw
            (
              settle-seq batch.durable delivered (hosted kernel f.meanwhile taken),
              append-nil (numbers batch.lines),
            )
            (lines-Counts now batch.events (with_outbox [] c)),
      )
  step-Numbers (calls cs) c held h = ([], refl, refl)

  posted_numbers-append :
      (a b : List Sent) → posted_numbers (a ++ b) ≡ (posted_numbers a ++ posted_numbers b)
  unfolding posted_numbers
  posted_numbers-append [] b = refl
  posted_numbers-append (s ∷ a) b =
      ap (λ x. numbers s.batch.lines ++ x) (posted_numbers-append a b)
      ∙ sym (append_assoc (numbers s.batch.lines) (posted_numbers a) (posted_numbers b))

  -- From a client whose spool can be read, over any sequence of flushes and of calls of the host, the
  -- events are posted under numbers that count up by one from the client's first, with no gap and
  -- no repetition, also where a batch was not acknowledged; the client's number is the next one.
  pub run-numbered :
      (steps : List Step) (c : PlaneClient) (held : List Event)
      → Holds c held
      → (sent : List Sent) × ((run kernel now is_error steps c).0 ≡ ok sent)
        × Counts c.seq (run kernel now is_error steps c).1.seq (posted_numbers sent)
  unfolding run posted_numbers axor_wrap.Errors.Exec.◌>>=◌
  run-numbered [] c held h = ([], refl, refl)
  run-numbered (s ∷ ss) c held h =
      let (a, returns1, counts1) = step-Numbers s c held h in
      let (sent1, rest1, again1, holds1, kept1) = step-Keeps kernel now is_error s c held h in
      let (b, returns, counts) = run-numbered ss (step kernel now is_error s c).1 rest1 holds1 in
      rw (run-cons kernel now is_error s ss c a b returns1 returns) (
        a ++ b,
        refl,
        rw (posted_numbers-append a b)
            (Counts-append _ _ _ (posted_numbers a) (posted_numbers b) counts1 counts),
      )
