-- ===== src/Execution/Runs.antt =====
-- execution_engine.py: the runs that `execute` returns, and that it returns one.
use cyber_hive.Plan.Metadata.{scalar, end, field}
use cyber_hive.Prelude.{
  if◌then◌else◌, string_eq, nat_eq, ok, ℕ, String, ◌≡◌, refl, Bool, true, false, Option, none,
  arith,
}
use cyber_hive.Plan.{OrchestrationPlan}
use cyber_hive.Execution.Engine.{if_present, execute_body, execute}
use cyber_hive.Execution.{
  ExecutionRun, Publication, Exn, Effects, ExecutionEngine, execute_steps, validate_plan,
  publication, completed_run,
}
use cyber_hive.Execution.Steps.{status_for, final_status-status_for}

-- What a returned run says of its plan.
pub record Reports (engine : ExecutionEngine) (plan : OrchestrationPlan) (dry : Bool)
    (run : ExecutionRun) : Type 0 where
  pub plan_id : run.plan_id ≡ plan.id
  pub request_id : run.request_id ≡ plan.request_id
  pub mode : run.is_dry_run ≡ dry
  pub steps : run.steps ≡ execute_steps engine.policy plan.steps plan dry
  pub status : run.status ≡ status_for plan.action dry
  pub events : run.events_published ≡ (if engine.has_bus then 2 else 0)

module _ {W : Type 0} (fx : Effects W) (engine : ExecutionEngine) (plan : OrchestrationPlan)
    (dry : Bool) (run_id : String) (started completed now : ℕ) where
  -- the run that a call returns, if it returns one
  abbrev expected : ExecutionRun
  expected =
      completed_run engine plan dry run_id started completed (if engine.has_bus then 2 else 0)

  body-expected :
      (w : W) (run : ExecutionRun)
      → (execute_body fx engine plan dry run_id started completed now
          (if engine.has_bus then 1 else 0)
          w).1
        ≡ ok run
      → run ≡ expected
  unfolding execute_body completed_run
  body-expected w run h = ground arith

  abbrev start : Publication
  start =
      publication run_id "execution.started" plan
        (field "dry_run" (scalar (if dry then "True" else "False")) end)

  execute-expected :
      (w : W) (run : ExecutionRun)
      → (execute fx engine plan dry run_id started completed now w).1 ≡ ok run
      → run ≡ expected
  unfolding execute
  execute-expected w run h =
      ground (arith, body-expected (if_present fx engine.has_bus (fx.publish start) w).0 run)

  Reports-expected : Reports engine plan dry expected
  unfolding completed_run
  Reports-expected = record {
    plan_id = refl;
    request_id = refl;
    mode = refl;
    steps = refl;
    status = final_status-status_for engine.policy plan dry;
    events = refl;
  }

  -- Whatever the bus and the journal do: a run that `execute` returns is of the plan, has its steps
  -- judged one by one in the plan's order, the status that the plan's action settles, and the number of
  -- events that were published.
  pub execute-Reports :
      (w : W) (run : ExecutionRun)
      → (execute fx engine plan dry run_id started completed now w).1 ≡ ok run
      → Reports engine plan dry run
  execute-Reports w run h = rw (execute-expected w run h) Reports-expected

  -- No effect raises.
  pub record Quiet : Type 0 where
    pub publish : (p : Publication) (w : W) → (fx.publish p w).1 ≡ none
    pub append : (r : ExecutionRun) (w : W) → (fx.append r w).1 ≡ none
    pub flush : (w : W) → (fx.flush w).1 ≡ none

  quiet-if_present :
      (b : Bool) (effect : W → W × Option Exn)
      → ((w : W) → (effect w).1 ≡ none)
      → (w : W) → (if_present fx b effect w).1 ≡ none
  quiet-if_present true effect q w = q w
  quiet-if_present false effect q w = refl

  body-returns :
      Quiet
      → (w : W)
      → (execute_body fx engine plan dry run_id started completed now
          (if engine.has_bus then 1 else 0)
          w).1
        ≡ ok expected
  unfolding execute_body completed_run
  body-returns q w =
      rw
        (
          quiet-if_present engine.has_bus (fx.publish _) (q.publish _),
          quiet-if_present engine.has_journal (fx.append _) (q.append _),
          quiet-if_present engine.has_bus fx.flush q.flush,
          execute_body,
        )
        (ground arith)

  -- With effects that do not raise, `execute` returns a run of every valid plan.
  pub execute-returns :
      Quiet
      → validate_plan plan ≡ ok tt
      → (w : W)
      → (run : ExecutionRun) × ((execute fx engine plan dry run_id started completed now w).1
          ≡ ok run)
        × Reports engine plan dry run
  unfolding execute
  execute-returns q valid w = (
    expected,
    rw (valid, quiet-if_present engine.has_bus (fx.publish start) (q.publish start), execute)
        (body-returns q (if_present fx engine.has_bus (fx.publish start) w).0),
    Reports-expected,
  )
