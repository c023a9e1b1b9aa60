-- ===== src/Plane/Client/Telemetry.antt =====
-- `_post_telemetry` and `post_probe_report`: one POST with its retries. What the network answers to
-- each attempt is given; times are in milliseconds.
use axor_wrap.Base.{
  ℕ, zero, suc, ◌*◌, Bool, true, false, not, ◌&&◌, ◌||◌, Option, none, some, List, [], ◌∷◌, ◌≡◌,
  refl, ltb, leb, Bool-cases, inl, inr, if◌then◌else◌,
}

-- A response with its status, or an `httpx.HTTPError` of the transport.
pub data Answer : Type 0 where
  responded : ℕ → Answer
  unreachable : Answer

abbrev pub telemetry_attempts : ℕ
telemetry_attempts = 3

pub record Posted : Type 0 where
  pub delivered : Bool
  pub attempts : ℕ
  pub sleeps : List ℕ

-- How a health check was taken by the plane: `True`, `False`, or an error with its status.
pub data Report : Type 0 where
  taken not_taken : Report
  refused : ℕ → Report

-- `is_error status`: `raise_for_status` raises.
module _ (is_error : ℕ → Bool) where
  abbrev pub succeeds : Answer → Bool
  succeeds (responded status) = not (is_error status)
  succeeds unreachable = false

  abbrev delivered_at_once : Posted
  delivered_at_once = record { delivered = true; attempts = 1; sleeps = [] }

  abbrev after_failure : Bool → ℕ → Posted → Posted
  after_failure again backoff rest = record {
    delivered = rest.delivered;
    attempts = suc rest.attempts;
    sleeps = if again then backoff ∷ rest.sleeps else rest.sleeps;
  }

  -- The loop, from one attempt on, with the number of attempts that are left.
  unfoldable pub post_from : ℕ → ℕ → ℕ → (ℕ → Answer) → Posted
  post_from zero attempt backoff answers = record { delivered = false; attempts = 0; sleeps = [] }
  post_from (suc left) attempt backoff answers =
      let rest = post_from left (suc attempt) (backoff * 2) answers in
      if succeeds (answers attempt)
      then delivered_at_once
      else after_failure (ltb (suc attempt) telemetry_attempts) backoff rest

  -- `_post_telemetry`; it raises where `delivered` is false
  unfoldable pub post_telemetry : (ℕ → Answer) → Posted
  unfolding post_from
  post_telemetry answers = post_from telemetry_attempts 0 500 answers

  abbrev is_client_error : ℕ → Bool
  is_client_error status = leb 400 status && ltb status 500

  abbrev pub report_answer : Answer → Report → Report
  report_answer (responded status) rest =
      if is_error status then if is_client_error status then refused status else rest else taken
  report_answer unreachable rest = rest

  unfoldable pub report_from : ℕ → ℕ → (ℕ → Answer) → Report
  report_from zero attempt answers = not_taken
  report_from (suc left) attempt answers =
      report_answer (answers attempt) (report_from left (suc attempt) answers)

  -- `post_probe_report`
  unfoldable pub post_probe_report : (ℕ → Answer) → Report
  unfolding report_from
  post_probe_report answers = report_from telemetry_attempts 0 answers

  -- An answer that ends the attempts: a success, or an error of the 400s.
  abbrev decides : Answer → Bool
  decides (responded status) = not (is_error status) || is_client_error status
  decides unreachable = false

  unfoldable pub first_that_decides : List Answer → Option Answer
  first_that_decides [] = none
  first_that_decides (a ∷ as_) =
      let rest = first_that_decides as_ in if decides a then some a else rest

  abbrev pub decided : Option Answer → Report
  decided none = not_taken
  decided (some unreachable) = not_taken
  decided (some (responded status)) = if is_error status then refused status else taken

  upcoming : ℕ → ℕ → (ℕ → Answer) → List Answer
  upcoming zero attempt answers = []
  upcoming (suc left) attempt answers = answers attempt ∷ upcoming left (suc attempt) answers

  report_answer-decided :
      (a : Answer) (as_ : List Answer) (rest : Report)
      → rest ≡ decided (first_that_decides as_)
      → report_answer a rest ≡ decided (first_that_decides (a ∷ as_))
  unfolding first_that_decides
  report_answer-decided unreachable as_ rest h = h
  report_answer-decided (responded status) as_ rest h = elim (Bool-cases (is_error status)) [
    | inl failed ↦ elim (Bool-cases (is_client_error status)) [
      | inl fault ↦ rw (failed, fault, failed) refl
      | inr weather ↦ rw (failed, weather) h
    ]
    | inr fine ↦ rw (fine, fine) refl
  ]

  report_from-decided :
      (left attempt : ℕ) (answers : ℕ → Answer)
      → report_from left attempt answers
        ≡ decided (first_that_decides (upcoming left attempt answers))
  unfolding report_from upcoming first_that_decides
  report_from-decided zero attempt answers = refl
  report_from-decided (suc left) attempt answers =
      report_answer-decided (answers attempt) (upcoming left (suc attempt) answers) _
        (report_from-decided left (suc attempt) answers)

  -- A health check is decided by the first of at most three answers that is a success or an error of
  -- the 400s: it is taken by the former, and the latter is raised; without one it is not taken.
  pub post_probe_report-decided :
      (answers : ℕ → Answer)
      → post_probe_report answers
        ≡ decided (first_that_decides (answers 0 ∷ answers 1 ∷ answers 2 ∷ []))
  unfolding post_probe_report upcoming
  post_probe_report-decided answers = report_from-decided telemetry_attempts 0 answers
