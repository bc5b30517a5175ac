-- ===== src/Systemd/Units.antt =====
-- `startUnit` and `stopUnit` of cgroups/systemd/common.go. systemd on the other end of D-Bus is an
-- argument, on a state of its own. The jump back to `retry` is on fuel; `none` is a run that is out of
-- fuel.
pub mod Retry
use libcontainer.Prelude.{
  ℕ, zero, suc, Bool, true, false, List, [], ◌∷◌, Option, none, some, if◌then◌else◌, Result, ok,
  err, ◌≡◌,
}

-- what StartTransientUnit answers: nil, "org.freedesktop.systemd1.UnitExists", or another error
pub data StartAnswer : Type 0 where
  started unit_exists refused : StartAnswer

-- what the channel says of the job: "done", another status, or nothing in 30 seconds
pub data JobAnswer : Type 0 where
  done not_done timed_out : JobAnswer

pub data UnitError : Type 0 where
  start_refused exists_still job_failed job_timeout : UnitError

pub data Call : Type 0 where
  start_transient_unit reset_failed_unit stop_unit_call : Call

-- `retryOnDisconnect` of cgroups/systemd/dbus.go: what an operation on the connection gives. It is
-- `closed` where the error says that the connection is closed; then a new connection is taken and the
-- operation is called again, without a bound. A connection that cannot be made is an answer.
pub data Reply (A : Type 0) : Type 0 where
  closed : Reply A
  replied : A → Reply A

abbrev pub reply_then : {S A : Type 0} → Reply A × S → (S → Option (A × S)) → Option (A × S)
reply_then (closed, s) again = again s
reply_then (replied a, s) again = some (a, s)

-- The loop, on fuel; `none` is a loop that has not ended.
unfoldable pub retry_on_disconnect : {S A : Type 0} → ℕ → (S → Reply A × S) → S → Option (A × S)
retry_on_disconnect zero op s = none
retry_on_disconnect (suc fuel) op s = reply_then (op s) (λ t. retry_on_disconnect fuel op t)

-- The operations of systemd on a connection: a start and a stop of the unit, and the reset of a failed
-- unit, whose error is dropped.
pub record Bus (S : Type 0) : Type 0 where
  pub start : S → Reply StartAnswer × S
  pub stop : S → Reply Bool × S
  pub job : S → JobAnswer × S
  pub reset : S → Reply (Unit {0}) × S

-- The loop ends in each state: at some call the connection holds.
abbrev pub Ends : {S A : Type 0} → (S → Reply A × S) → Type 0
Ends {S} {A} op = (s : S) → (fuel : ℕ) × (r : A × S) × (retry_on_disconnect fuel op s ≡ some r)

pub record Reconnects {S : Type 0} (b : Bus S) : Type 0 where
  pub start_ends : Ends b.start
  pub stop_ends : Ends b.stop
  pub reset_ends : Ends b.reset

-- The answers behind the loops of `retryOnDisconnect`.
pub record Manager (S : Type 0) : Type 0 where
  pub start : S → StartAnswer × S
  pub stop : S → Bool × S
  pub job : S → JobAnswer × S
  pub reset : S → S

abbrev pub manager_of : {S : Type 0} (b : Bus S) → Reconnects b → Manager S
manager_of b e = record {
  start = λ s. (e.start_ends s).1;
  stop = λ s. (e.stop_ends s).1;
  job = b.job;
  reset = λ s. (e.reset_ends s).1.1;
}

-- what is returned, the state that is left, and the calls that were made
pub record Outcome (S : Type 0) : Type 0 where
  pub result : Option (Result UnitError (Unit {0}))
  pub state : S
  pub calls : List Call

abbrev pub outcome : {S : Type 0} → Result UnitError (Unit {0}) → S → List Call → Outcome S
outcome r s calls = record { result = some r; state = s; calls = calls }

abbrev pub after_call : {S : Type 0} → Call → Outcome S → Outcome S
after_call c o = record o { calls = c ∷ o.calls }

module _ {S : Type 0} (m : Manager S) where
  -- the wait for the job behind a start
  abbrev pub finished : JobAnswer × S → Outcome S
  finished (done, s) = outcome (ok tt) s []
  finished (not_done, s) = outcome (err job_failed) (m.reset s) (reset_failed_unit ∷ [])
  finished (timed_out, s) = outcome (err job_timeout) (m.reset s) (reset_failed_unit ∷ [])

  -- the answer to a start; `again` is the jump back
  abbrev pub answered : Bool → Bool → StartAnswer × S → Outcome S → Outcome S
  answered ignore_exist retry (started, s) again = finished (m.job s)
  answered ignore_exist retry (refused, s) again = outcome (err start_refused) s []
  answered true retry (unit_exists, s) again = outcome (ok tt) s []
  answered false true (unit_exists, s) again = after_call reset_failed_unit again
  answered false false (unit_exists, s) again = outcome (err exists_still) s []

  -- from the label `retry`
  unfoldable pub start_rounds : ℕ → Bool → Bool → S → Outcome S
  start_rounds zero ignore_exist retry s = record { result = none; state = s; calls = [] }
  start_rounds (suc fuel) ignore_exist retry s = after_call start_transient_unit (
      answered ignore_exist retry (m.start s)
        (start_rounds fuel ignore_exist false (m.reset (m.start s).1)))

  abbrev pub start_unit : ℕ → Bool → S → Outcome S
  start_unit fuel ignore_exist s = start_rounds fuel ignore_exist true s

  -- the wait for the job behind a stop, and the reset
  abbrev pub stop_waited : JobAnswer × S → Outcome S
  stop_waited (timed_out, s) = outcome (err job_timeout) s []
  stop_waited (done, s) = outcome (ok tt) (m.reset s) (reset_failed_unit ∷ [])
  stop_waited (not_done, s) = outcome (ok tt) (m.reset s) (reset_failed_unit ∷ [])

  -- the answer to a stop, whether its error is nil
  abbrev pub stopped : Bool × S → Outcome S
  stopped (true, s) = stop_waited (m.job s)
  stopped (false, s) = outcome (ok tt) (m.reset s) (reset_failed_unit ∷ [])

  unfoldable pub stop_unit : S → Outcome S
  stop_unit s = after_call stop_unit_call (stopped (m.stop s))

-- `startUnit` and `stopUnit` on a bus
abbrev pub start_unit_on : {S : Type 0} (b : Bus S) → Reconnects b → ℕ → Bool → S → Outcome S
start_unit_on b e fuel ignore_exist s = start_unit (manager_of b e) fuel ignore_exist s

abbrev pub stop_unit_on : {S : Type 0} (b : Bus S) → Reconnects b → S → Outcome S
stop_unit_on b e s = stop_unit (manager_of b e) s
