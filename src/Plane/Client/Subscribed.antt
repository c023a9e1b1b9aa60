-- ===== src/Plane/Client/Subscribed.antt =====
-- `run`: what a subscription does to its session, and how long it waits between two connections.
use axor_wrap.Base.{
  ℕ, ◌≤◌, String, Bool, true, false, Option, none, some, List, [], ◌∷◌, ◌++◌, ◌≡◌, subst, sym, refl,
  arith, Bool-cases, inl, inr,
}
use axor_wrap.Errors.{Result, ok, err, ok_inj}
use axor_wrap.Errors.Exec.{Exec, pure, modify, ◌>>=◌, ◌>>◌, bind-returns}
use axor_wrap.Errors.Exec.Moves.{Moves, Moves-pure, Moves-modify, Moves-bind}
use axor_wrap.Value.{Value}
use axor_wrap.Plane.Kernel.{Kernel}
use axor_wrap.Plane.Session.State.{PlaneSession}
use axor_wrap.Plane.Session.Narrows.{Narrows, CapLe-refl, Narrows-refl, Narrows-trans}
use axor_wrap.Plane.Session.Wire.Lattice.{apply_snapshot_values-Narrows, apply_delivery-Narrows}
use axor_wrap.Plane.Client.Frames.{Frame, frames, at_start}
use axor_wrap.Plane.Client.Stream.{
  Request, snapshot, delta, fact, nothing, perform, performed, parsed, dispatch, dispatch_all,
}
use axor_wrap.Plane.Client.Subscription.{
  Connection, rejected, unreachable, ended, broken, Subscription, doubled, back_off, connected,
  held, on_session, Ending, closed, denied, lost, pause_length, resume, ask, Round, consume, attend,
  run,
}

-- Between a second and half a minute, in milliseconds.
abbrev pub Between : ℕ → Type 0
Between n = (1000 ≤ n) × (n ≤ 30000)

abbrev pub AllBetween : List ℕ → Type 0
AllBetween [] = Unit {0}
AllBetween (p ∷ ps) = Between p × AllBetween ps

pub record Steady (r t : Subscription) : Type 0 where
  pub narrows : Narrows r.session t.session
  pub between : Between r.backoff → Between t.backoff

Steady-refl : (r : Subscription) → Steady r r
Steady-refl r = record { narrows = Narrows-refl r.session; between = λ h. h }

Steady-trans : (r s t : Subscription) → Steady r s → Steady s t → Steady r t
Steady-trans r s t a b = record {
  narrows = Narrows-trans r.session s.session t.session a.narrows b.narrows;
  between = λ h. b.between (a.between h);
}

doubled-Between : (n : ℕ) → Between n → Between (doubled n)
doubled-Between n (h, k) = ground arith

back_off-Steady : (r : Subscription) → Steady r (back_off r)
back_off-Steady r = record { narrows = Narrows-refl r.session; between = doubled-Between r.backoff }

connected-Steady : (r : Subscription) → Steady r (connected r)
connected-Steady r = record {
  narrows = Narrows-refl r.session;
  between = λ h. (omega arith, omega arith);
}

held-Steady : (r : Subscription) → Steady r (held r)
held-Steady r = record {
  narrows = ground (arith, CapLe-refl r.session.budget_cap_calls);
  between = λ h. h;
}

on_session-Steady {κ} :
    {A : Type κ} (m : Exec PlaneSession A) → Moves Narrows m → Moves Steady (on_session m)
unfolding on_session
on_session-Steady m h = record { at = λ r. record { narrows = h.at r.session; between = λ k. k } }

module _ (kernel : Kernel) where
  Narrowing-pure : (vs : List Value) → Moves Narrows (pure vs)
  Narrowing-pure = Moves-pure Narrows-refl

  Narrowing-bind {κ μ} :
      {A : Type κ} {B : Type μ} (m : Exec PlaneSession A) (f : A → Exec PlaneSession B)
      → Moves Narrows m
      → ((a : A) → Moves Narrows (f a))
      → Moves Narrows (m >>= f)
  Narrowing-bind = Moves-bind Narrows-refl Narrows-trans

  perform-Narrows : (q : Request) → Moves Narrows (perform kernel q)
  unfolding perform
  perform-Narrows (snapshot v state cs) =
      Narrowing-bind _ _ (record { at = apply_snapshot_values-Narrows kernel v state cs })
        (λ e. Narrowing-pure [])
  perform-Narrows (delta c) =
      Narrowing-bind _ _ (record { at = apply_delivery-Narrows kernel c }) (λ e. Narrowing-pure [])
  perform-Narrows (fact v) = Narrowing-pure (v ∷ [])
  perform-Narrows nothing = Narrowing-pure []

  performed-Narrows : (q : Result Request) → Moves Narrows (performed kernel q)
  performed-Narrows (ok q) = record { at = (perform-Narrows q).at }
  performed-Narrows (err e) = record { at = Narrows-refl }

  module _ (parse : String → Option Value) (listens : Bool) where
    dispatch-Narrows : (f : Frame) → Moves Narrows (dispatch kernel parse listens f)
    unfolding dispatch
    dispatch-Narrows f = performed-Narrows (parsed listens f.event_name (parse f.text))

    dispatch_all-Narrows : (fs : List Frame) → Moves Narrows (dispatch_all kernel parse listens fs)
    unfolding dispatch_all
    dispatch_all-Narrows [] = Narrowing-pure []
    dispatch_all-Narrows (f ∷ fs) =
        Narrowing-bind _ _ (dispatch-Narrows f)
          (λ a. Narrowing-bind _ _ (dispatch_all-Narrows fs) (λ b. Narrowing-pure (a ++ b)))

    consume-Steady : (lines : List String) → Moves Steady (consume kernel parse listens lines)
    unfolding consume
    consume-Steady lines = on_session-Steady _ (dispatch_all-Narrows (frames at_start lines))

    Steady-pure {κ} : {A : Type κ} (a : A) → Moves Steady (pure a)
    Steady-pure = Moves-pure Steady-refl

    Steady-bind {κ μ} :
        {A : Type κ} {B : Type μ} (m : Exec Subscription A) (f : A → Exec Subscription B)
        → Moves Steady m
        → ((a : A) → Moves Steady (f a))
        → Moves Steady (m >>= f)
    Steady-bind = Moves-bind Steady-refl Steady-trans

    resume-Steady : (o : Option ℕ) (e : Ending) (r : Subscription) → Steady r (resume o e r)
    unfolding resume
    resume-Steady o closed r = Steady-refl r
    resume-Steady o denied r = back_off-Steady r
    resume-Steady none lost r = back_off-Steady r
    resume-Steady (some wait) lost r = held-Steady r

    ask-Steady : (f : Subscription → ℕ) → Moves Steady (ask f)
    ask-Steady f = record { at = Steady-refl }

    ruleset steady =
        (Steady-pure, Steady-bind, Moves-modify, connected-Steady, consume-Steady, resume-Steady)

    attend-Steady : (c : Connection) → Moves Steady (attend kernel parse listens c)
    unfolding attend
    attend-Steady rejected = Steady-pure denied
    attend-Steady unreachable = Steady-pure lost
    attend-Steady (ended lines) = search steady depth 9
    attend-Steady (broken lines) = search steady depth 9

    -- What follows the pause.
    abbrev later : Option ℕ → List Round → Ending → Bool → Exec Subscription (List ℕ)
    later o rounds e true = pure []
    later o rounds e false = modify (resume o e) >> run kernel parse listens o rounds

    later-Steady :
        (o : Option ℕ) (rounds : List Round) (e : Ending) (stops : Bool)
        → Moves Steady (run kernel parse listens o rounds)
        → Moves Steady (later o rounds e stops)
    later-Steady o rounds e true h = Steady-pure []
    later-Steady o rounds e false h =
        Steady-bind _ _ (Moves-modify (resume o e) (resume-Steady o e)) (λ u. h)

    pauses_from : Option ℕ → Round → List Round → Ending → ℕ → Exec Subscription (List ℕ)
    pauses_from o round rounds e pause =
        later o rounds e round.stops >>= λ pauses. pure (pause ∷ pauses)

    run-round :
        (o : Option ℕ) (round : Round) (rounds : List Round)
        → run kernel parse listens o (round ∷ rounds) ≡ (
            attend kernel parse listens round.connection >>= λ e.
            (ask (pause_length o e) >>= λ p. pauses_from o round rounds e p))
    unfolding run pauses_from
    run-round o round rounds = elim (Bool-cases round.stops) [
      | inl p ↦ rw (p) refl
      | inr p ↦ rw (p) refl
    ]

    run-Steadily :
        (o : Option ℕ) (rounds : List Round) → Moves Steady (run kernel parse listens o rounds)
    unfolding run pauses_from
    run-Steadily o [] = Steady-pure []
    run-Steadily o (round ∷ rounds) = subst (Moves Steady) (sym (run-round o round rounds)) (
        Steady-bind _ _ (attend-Steady round.connection) (λ e.
          Steady-bind _ _ (ask-Steady (pause_length o e)) (λ p.
            Steady-bind _ _ (later-Steady o rounds e round.stops (run-Steadily o rounds))
              (λ ps. Steady-pure (p ∷ ps)))))

    -- Over any rounds of a subscription, whatever values the messages hold and also if it ends with an
    -- error, the session has only narrowed.
    pub subscription-Narrows :
        (o : Option ℕ) (rounds : List Round) (r : Subscription)
        → Narrows r.session (run kernel parse listens o rounds r).1.session
    subscription-Narrows o rounds r = ((run-Steadily o rounds).at r).narrows

    pause_length-Between :
        (e : Ending) (r : Subscription) → Between r.backoff → Between (pause_length none e r)
    unfolding pause_length
    pause_length-Between closed r h = (omega arith, omega arith)
    pause_length-Between denied r h = h
    pause_length-Between lost r h = h

    later-Between :
        (rounds : List Round) (e : Ending) (stops : Bool) (r : Subscription) (pauses : List ℕ)
        → ((t : Subscription) (ps : List ℕ)
            → Between t.backoff
            → (run kernel parse listens none rounds t).0 ≡ ok ps
            → AllBetween ps)
        → Between r.backoff
        → (later none rounds e stops r).0 ≡ ok pauses
        → AllBetween pauses
    unfolding axor_wrap.Errors.Exec.◌>>=◌
    later-Between rounds e true r pauses ih h k = subst AllBetween (ok_inj [] pauses k) tt
    later-Between rounds e false r pauses ih h k =
        ih (resume none e r) pauses ((resume-Steady none e r).between h) k

    -- Without `hold_on_disconnect_after`, from a backoff between a second and half a minute: if the
    -- subscription returns, each pause that it asked for was between a second and half a minute.
    pub pauses-Between :
        (rounds : List Round) (r : Subscription) (pauses : List ℕ)
        → Between r.backoff
        → (run kernel parse listens none rounds r).0 ≡ ok pauses
        → AllBetween pauses
    unfolding run pauses_from
    pauses-Between [] r pauses h k = subst AllBetween (ok_inj [] pauses k) tt
    pauses-Between (round ∷ rounds) r pauses h k =
        let (e, ended_so, k1) =
          bind-returns (attend kernel parse listens round.connection)
            (λ e. (ask (pause_length none e) >>= λ p. pauses_from none round rounds e p)) r pauses
            (subst (λ m. (m r).0 ≡ ok pauses) (run-round none round rounds) k) in
        let next = (attend kernel parse listens round.connection r).1 in
        let steady = ((attend-Steady round.connection).at r).between h in
        let (p, asked, k2) =
          bind-returns (ask (pause_length none e)) (λ p. pauses_from none round rounds e p) next
            pauses k1 in
        let (ps, rest, k3) =
          bind-returns (later none rounds e round.stops) (λ ps. pure (p ∷ ps)) next pauses k2 in
        subst AllBetween (ok_inj (p ∷ ps) pauses k3) (
          subst Between (ok_inj _ _ asked) (pause_length-Between e next steady),
          later-Between rounds e round.stops next ps (pauses-Between rounds) steady rest,
        )
