-- ===== src/Plane/Client/Subscription.antt =====
-- `run`: the subscription, round by round, until `stop` is set. The host calls the session's methods
-- between two subscriptions only. Times are in milliseconds.
use axor_wrap.Base.{
  ℕ, ◌*◌, String, Bool, true, false, Option, none, some, List, [], ◌∷◌, leb, if◌then◌else◌,
}
use axor_wrap.Errors.{ok}
use axor_wrap.Errors.Exec.{Exec, pure, modify, ◌>>=◌, ◌>>◌}
use axor_wrap.Value.{Value}
use axor_wrap.Plane.Kernel.{Kernel}
use axor_wrap.Plane.Session.State.{PlaneSession}
use axor_wrap.Plane.Client.Frames.{frames, at_start}
use axor_wrap.Plane.Client.Stream.{dispatch_all}

-- How a connection goes: it is answered with 401 or 403; or the lines are read up to its end; or
-- an `httpx.HTTPError` is raised, before there is an answer or after some lines.
pub data Connection : Type 0 where
  rejected unreachable : Connection
  ended broken : List String → Connection

pub record Subscription : Type 0 where
  pub session : PlaneSession
  pub backoff : ℕ

abbrev pub reconnect_delay : ℕ
reconnect_delay = 1000

abbrev pub first_backoff : ℕ
first_backoff = 1000

abbrev pub longest_backoff : ℕ
longest_backoff = 30000

abbrev pub doubled : ℕ → ℕ
doubled n = if leb (n * 2) longest_backoff then n * 2 else longest_backoff

abbrev pub back_off : Subscription → Subscription
back_off r = record r { backoff = doubled r.backoff }

abbrev pub connected : Subscription → Subscription
connected r = record r { backoff = first_backoff }

abbrev pub held : Subscription → Subscription
held r = record r { session = record r.session { paused = true } }

unfoldable pub on_session {κ} : {A : Type κ} → Exec PlaneSession A → Exec Subscription A
on_session m r = let (a, s) = m r.session in (a, record r { session = s })

-- How the `try` of one round ends: the stream has ended, the credential was rejected, or an
-- `httpx.HTTPError` was raised.
pub data Ending : Type 0 where
  closed denied lost : Ending

-- What `_pause` is asked to wait: `hold_after` is `hold_on_disconnect_after`.
unfoldable pub pause_length : Option ℕ → Ending → Subscription → ℕ
pause_length hold_after closed r = reconnect_delay
pause_length hold_after denied r = r.backoff
pause_length none lost r = r.backoff
pause_length (some wait) lost r = wait

-- What follows the pause, if `stop` was not set in it.
unfoldable pub resume : Option ℕ → Ending → Subscription → Subscription
resume hold_after closed r = r
resume hold_after denied r = back_off r
resume none lost r = back_off r
resume (some wait) lost r = held r

abbrev pub ask : (Subscription → ℕ) → Exec Subscription ℕ
ask f r = (ok (f r), r)

-- One round of the loop: its connection, and whether `stop` is set before the pause after it is over. The
-- lines of a connection are those that are read before `stop` is set.
pub record Round : Type 0 where
  pub connection : Connection
  pub stops : Bool

module _ (kernel : Kernel) (parse : String → Option Value) (listens : Bool) where
  unfoldable pub consume : List String → Exec Subscription (List Value)
  unfolding on_session dispatch_all frames
  consume lines = on_session (dispatch_all kernel parse listens (frames at_start lines))

  unfoldable pub attend : Connection → Exec Subscription Ending
  unfolding consume
  attend rejected = pure denied
  attend unreachable = pure lost
  attend (ended lines) = do modify connected; consume lines; pure closed
  attend (broken lines) = do modify connected; consume lines; pure lost

  -- The pauses that are asked for.
  unfoldable pub run : Option ℕ → List Round → Exec Subscription (List ℕ)
  unfolding attend pause_length resume
  run hold_after [] = pure []
  run hold_after (round ∷ rounds) = do
    ending ← attend round.connection
    pause ← ask (pause_length hold_after ending)
    pauses ← elim round.stops [
      | true ↦ pure []
      | false ↦ modify (resume hold_after ending) >> run hold_after rounds
    ]
    pure (pause ∷ pauses)
