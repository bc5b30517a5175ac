-- ===== src/Systemd/Units/Retry.antt =====
-- The retry of `startUnit` of cgroups/systemd/common.go.
use libcontainer.Prelude.{
  ℕ, zero, suc, Bool, true, false, List, [], ◌∷◌, Option, some, Result, ok, err, ◌≡◌, ◌≢◌, ◌≤◌,
  refl, arith,
}
use libcontainer.Systemd.Units.{
  StartAnswer, started, unit_exists, refused, JobAnswer, done, not_done, timed_out, UnitError, Call,
  start_transient_unit, reset_failed_unit, Manager, Bus, Reconnects, manager_of, start_unit_on,
  Outcome, after_call, finished, answered, start_rounds, start_unit,
}

-- The calls behind the last start: none, or a reset.
pub data IsEnd : List Call → Type 0 where
  no_more : IsEnd []
  reset_after : IsEnd (reset_failed_unit ∷ [])

-- The calls of a whole run: one start, or a start, a reset, and a second start.
pub data IsRun : List Call → Type 0 where
  one_start : {rest : List Call} → IsEnd rest → IsRun (start_transient_unit ∷ rest)
  two_starts :
      {rest : List Call}
      → IsEnd rest
      → IsRun (start_transient_unit ∷ reset_failed_unit ∷ start_transient_unit ∷ rest)

err_is_no_ok :
    (e : UnitError) → ◌≢◌ {A = Option (Result UnitError (Unit {0}))} (some (err e)) (some (ok tt))
err_is_no_ok e h = cc

module _ {S : Type 0} (m : Manager S) where
  -- The run returned a value.
  abbrev pub Returns : Outcome S → Type 0
  Returns o = (r : Result UnitError (Unit {0})) × (o.result ≡ some r)

  -- Where it returned no error, systemd's last answer was that the job was done.
  abbrev pub JobDone : Outcome S → Type 0
  JobDone o = o.result ≡ some (ok tt) → (s : S) × (m.job s ≡ (done, o.state))

  record IsEnding (ignore_exist : Bool) (o : Outcome S) : Type 0 where
    returns : Returns o
    calls : IsEnd o.calls
    job_done : ignore_exist ≡ false → JobDone o

  finished_lem : (b : Bool) (s : S) (a : JobAnswer × S) → m.job s ≡ a → IsEnding b (finished m a)
  finished_lem b s (done, t) e = record {
    returns = (ok tt, refl);
    calls = no_more;
    job_done = λ _ h. (s, e);
  }
  finished_lem b s (not_done, t) e = record {
    returns = (err _, refl);
    calls = reset_after;
    job_done = λ _ h. absurd (err_is_no_ok _ h);
  }
  finished_lem b s (timed_out, t) e = record {
    returns = (err _, refl);
    calls = reset_after;
    job_done = λ _ h. absurd (err_is_no_ok _ h);
  }

  -- The round without another try.
  last_round :
      (b : Bool) (a : StartAnswer × S) (again : Outcome S) → IsEnding b (answered m b false a again)
  last_round b (started, s) again = finished_lem b s (m.job s) refl
  last_round b (refused, s) again = record {
    returns = (err _, refl);
    calls = no_more;
    job_done = λ _ h. absurd (err_is_no_ok _ h);
  }
  last_round true (unit_exists, s) again = record {
    returns = (ok tt, refl);
    calls = no_more;
    job_done = λ h. ground (arith, h);
  }
  last_round false (unit_exists, s) again = record {
    returns = (err _, refl);
    calls = no_more;
    job_done = λ _ h. absurd (err_is_no_ok _ h);
  }

  -- What a run must be.
  pub record IsFinal (ignore_exist : Bool) (o : Outcome S) : Type 0 where
    pub returns : Returns o
    pub calls : IsRun o.calls
    pub job_done : ignore_exist ≡ false → JobDone o

  one_round :
      (b : Bool) (o : Outcome S) → IsEnding b o → IsFinal b (after_call start_transient_unit o)
  one_round b o e = record { returns = e.returns; calls = one_start e.calls; job_done = e.job_done }

  two_rounds :
      (b : Bool) (o : Outcome S)
      → IsEnding b o
      → IsFinal b (
          after_call start_transient_unit
            (after_call reset_failed_unit (after_call start_transient_unit o)))
  two_rounds b o e = record {
    returns = e.returns;
    calls = two_starts e.calls;
    job_done = e.job_done;
  }

  first_round :
      (b : Bool) (a b1 : StartAnswer × S) (again : Outcome S)
      → IsFinal b (
          after_call start_transient_unit
            (answered m b true a (after_call start_transient_unit (answered m b false b1 again))))
  first_round b (started, s) b1 again = one_round b _ (finished_lem b s (m.job s) refl)
  first_round b (refused, s) b1 again = one_round b _ (record {
    returns = (err _, refl);
    calls = no_more;
    job_done = λ _ h. absurd (err_is_no_ok _ h);
  })
  first_round true (unit_exists, s) b1 again =
      one_round true _
        (record { returns = (ok tt, refl); calls = no_more; job_done = λ h. ground (arith, h) })
  first_round false (unit_exists, s) b1 again = two_rounds false _ (last_round false b1 again)

  start_unit_lem :
      (fuel : ℕ) (ignore_exist : Bool) (s : S)
      → 2 ≤ fuel
      → IsFinal ignore_exist (start_unit m fuel ignore_exist s)
  unfolding start_rounds
  start_unit_lem (suc (suc fuel)) b s h = first_round b (m.start s) _ _
  start_unit_lem (suc zero) b s h = absurd (omega (arith, h))
  start_unit_lem zero b s h = absurd (omega (arith, h))

-- If each operation on the bus finds a connection that holds after finitely many calls, two rounds
-- are enough, whatever systemd answers: startUnit returns after one start of the unit, or after two
-- with a reset between them, where a start or a reset is a run of retryOnDisconnect; behind the last
-- start it resets the unit at most once. Where it returns no error and does not ignore a unit that
-- exists, systemd's last answer was that the job was done.
pub start_unit-IsFinal :
    {S : Type 0} (b : Bus S) (ends : Reconnects b) (fuel : ℕ) (ignore_exist : Bool) (s : S)
    → 2 ≤ fuel
    → IsFinal (manager_of b ends) ignore_exist (start_unit_on b ends fuel ignore_exist s)
start_unit-IsFinal b ends fuel ignore_exist s h =
    start_unit_lem (manager_of b ends) fuel ignore_exist s h
