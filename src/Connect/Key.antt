-- ===== src/Connect/Key.antt =====
-- `LabRuntimeConnector`: which credential the requests bear.
use axor_wrap.Base.{
  String, false, Option, none, some, List, [], ◌∷◌, ◌++◌, ◌≡◌, refl, sym, ap, subst, ◌∙◌, arith,
  Bool-cases, inl, inr,
}
use axor_wrap.Base.Text.{empty}
use axor_wrap.Base.Dict.{Dict, lookup}
use axor_wrap.Errors.{Result, ok, err}
use axor_wrap.Errors.Exec.{Exec, pure, ◌>>=◌}
use axor_wrap.Errors.Exec.Moves.{Moves, Moves-pure, Moves-raise, Moves-bind}
use axor_wrap.Value.{Value}
use axor_wrap.Connect.Lab.{
  Request, Response, LabRuntimeConnector, given, request, require_key, key_or_raise, keyed, listed,
  or_no_jobs, poll_jobs, claim, post_events, complete_trial,
}
use mathlib.Core.List.{append-nil, append_assoc}

abbrev pub AllKeyed : Option String → List Request → Type 0
AllKeyed o [] = Unit
AllKeyed o (r ∷ rs) = ((key : String) × (o ≡ some key) × (r.token ≡ some key)) × AllKeyed o rs

AllKeyed-append :
    (o : Option String) (rs qs : List Request)
    → AllKeyed o rs
    → AllKeyed o qs
    → AllKeyed o (rs ++ qs)
AllKeyed-append o [] qs h k = k
AllKeyed-append o (r ∷ rs) qs (g, h) k = (g, AllKeyed-append o rs qs h k)

-- The key is kept, and what is sent in between bears it: nothing, if there is none.
pub record KeepsKey (c d : LabRuntimeConnector) : Type 0 where
  pub key : d.ingest_key ≡ c.ingest_key
  pub new : List Request
  pub sent : d.sent ≡ (c.sent ++ new)
  pub keyed : AllKeyed (given c.ingest_key) new

KeepsKey-refl : (c : LabRuntimeConnector) → KeepsKey c c
KeepsKey-refl c = record { key = refl; new = []; sent = sym (append-nil c.sent); keyed = tt }

KeepsKey-trans : (c d e : LabRuntimeConnector) → KeepsKey c d → KeepsKey d e → KeepsKey c e
KeepsKey-trans c d e h k = record {
  key = k.key ∙ h.key;
  new = h.new ++ k.new;
  sent = k.sent ∙ (ap (λ x. x ++ k.new) h.sent ∙ append_assoc c.sent h.new k.new);
  keyed =
      AllKeyed-append (given c.ingest_key) h.new k.new h.keyed
        (subst (λ x. AllKeyed (given x) k.new) h.key k.keyed);
}

some_inj : (s t : String) → some s ≡ some t → s ≡ t
some_inj s t h = cc

given-some : (s : String) → empty s ≡ false → given (some s) ≡ some s
given-some s p = rw (p) refl

given-given : (o : Option String) (key : String) → given o ≡ some key → given (some key) ≡ some key
given-given none key h = ground arith
given-given (some s) key h = elim (Bool-cases (empty s)) [
  | inl p ↦ absurd (ground arith)
  | inr p ↦
      subst (λ x. given (some x) ≡ some x) (some_inj s key (sym (given-some s p) ∙ h))
        (given-some s p)
]

listed-KeepsKey : (o : Option (List Value)) → Moves KeepsKey (listed o)
listed-KeepsKey none = Moves-raise KeepsKey-refl _
listed-KeepsKey (some vs) = Moves-pure KeepsKey-refl vs

-- What a runtime asks of a lab.
pub data Call : Type 0 where
  polls : Call
  claims : String → Call
  posts : String → String → List Value → Call
  completes : String → String → Value → String → Dict Value → Option String → Call

module _ (loads : String → Option Value) (network : String → Request → Response) where
  keyed-with :
      (c : LabRuntimeConnector) (o : Option String) (method path : String) (body : Option Value)
      → given c.ingest_key ≡ o
      → KeepsKey c
          ((key_or_raise o >>= λ key. request loads network method path body (some key)) c).1
  unfolding axor_wrap.Errors.Exec.◌>>=◌ request
  keyed-with c none method path body h = KeepsKey-refl c
  keyed-with c (some key) method path body h = record {
    key = refl;
    new = _;
    sent = refl;
    keyed = ((key, h, given-given c.ingest_key key h), tt);
  }

  keyed-KeepsKey :
      (method path : String) (body : Option Value)
      → Moves KeepsKey (keyed loads network method path body)
  unfolding keyed require_key axor_wrap.Errors.Exec.◌>>=◌
  keyed-KeepsKey method path body = record {
    at = λ c. keyed-with c (given c.ingest_key) method path body refl;
  }

  unfoldable pub step : Call → LabRuntimeConnector → LabRuntimeConnector
  unfolding poll_jobs claim post_events complete_trial
  step polls c = (poll_jobs loads network c).1
  step (claims job) c = (claim loads network job c).1
  step (posts job trial events) c = (post_events loads network job trial events c).1
  step (completes job trial trace status metrics hash) c =
      (complete_trial loads network job trial trace status metrics hash c).1

  unfoldable pub run : List Call → LabRuntimeConnector → LabRuntimeConnector
  unfolding step
  run [] c = c
  run (a ∷ as_) c = run as_ (step a c)

  polls-KeepsKey : Moves KeepsKey (poll_jobs loads network)
  unfolding poll_jobs
  polls-KeepsKey =
      Moves-bind KeepsKey-refl KeepsKey-trans _ _ (keyed-KeepsKey "GET" "/runtime/jobs" none)
        (λ payload. listed-KeepsKey (or_no_jobs (lookup "jobs" payload)))

  step-KeepsKey : (a : Call) (c : LabRuntimeConnector) → KeepsKey c (step a c)
  unfolding step claim post_events complete_trial
  step-KeepsKey polls c = polls-KeepsKey.at c
  step-KeepsKey (claims job) c = (keyed-KeepsKey _ _ _).at c
  step-KeepsKey (posts job trial events) c = (keyed-KeepsKey _ _ _).at c
  step-KeepsKey (completes job trial trace status metrics hash) c = (keyed-KeepsKey _ _ _).at c

  -- Over any sequence of a runtime's calls, whatever the lab answers, the connector keeps its key
  -- and sends only requests that bear it: none at all without a key, or with an empty one.
  pub run-KeepsKey : (calls : List Call) (c : LabRuntimeConnector) → KeepsKey c (run calls c)
  unfolding run
  run-KeepsKey [] c = KeepsKey-refl c
  run-KeepsKey (a ∷ calls) c =
      KeepsKey-trans c (step a c) (run calls (step a c)) (step-KeepsKey a c)
        (run-KeepsKey calls (step a c))
