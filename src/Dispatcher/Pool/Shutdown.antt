-- ===== src/Dispatcher/Pool/Shutdown.antt =====
-- What the agent reports at shutdown (`ReportInFlightFailures`).
use sentrazero.Base.{ℕ, ◌+◌, ◌≡◌, String, List, [], ◌∷◌, ◌==◌, if◌then◌else◌, count, arith}
use sentrazero.Dispatcher.Pool.{Pool, Event, report_failure, shutdown}
use sentrazero.Dispatcher.Pool.Workers.{report_each, report_in_flight_failures}

-- Is it the report, at shutdown, of a failure of this job?
abbrev shutdown_report : String → Event → ℕ
shutdown_report id (report_failure j shutdown) = if j == id then 1 else 0
shutdown_report id _ = 0

-- How often a job was reported as failed at shutdown.
unfoldable pub shutdown_reports : String → List Event → ℕ
shutdown_reports id [] = 0
shutdown_reports id (e ∷ log) = shutdown_report id e + shutdown_reports id log

reports-report_each :
    (id : String) (ids : List String) (log : List Event)
    → shutdown_reports id (report_each ids log) ≡ count id ids + shutdown_reports id log
unfolding report_each shutdown_reports count
reports-report_each id [] log = omega arith
reports-report_each id (j ∷ ids) log =
    omega (arith, reports-report_each id ids (report_failure j shutdown ∷ log))

-- The shutdown adds, for each id, one report of a failed job for the claim of a running job of
-- that id and one for the claim of an active execution step of that id, which is sent in the place
-- of a job id.
pub reports-shutdown :
    (id : String) (p : Pool)
    → shutdown_reports id (report_in_flight_failures p).log
      ≡ count id p.running + count id p.active + shutdown_reports id p.log
unfolding report_in_flight_failures
reports-shutdown id p = omega (
  arith,
  reports-report_each id p.running (report_each p.active p.log),
  reports-report_each id p.active p.log,
)
