-- ===== src/Examples/Executions.antt =====
-- execution_engine.py at concrete inputs: a world that counts the effects.
use cyber_hive.Prelude.{string_eq, nat_eq, ok, ℕ, suc, ◌≡◌, refl, ◌↔◌, true, false, none}
use cyber_hive.Plan.{OrchestrationStep}
use cyber_hive.Plan.Metadata.{end}
use cyber_hive.Execution.Engine.{execute_body, execute}
use cyber_hive.Execution.{
  succeeded, default_policy, ExecutionRun, Effects, ExecutionEngine, result, execute_step,
  validate_plan, completed_run,
}
use cyber_hive.Execution.Steps.{Cleared, execute_step-Cleared}
use cyber_hive.Execution.Runs.{Reports, Quiet, execute-returns}
use cyber_hive.Examples.Decisions.{move_plan}

abbrev counting : Effects ℕ
counting = record {
  publish = λ p n. (suc n, none);
  append = λ r n. (suc n, none);
  flush = λ n. (n, none);
}

abbrev full_engine : ExecutionEngine
full_engine = record { has_bus = true; has_journal = true; policy = default_policy }

counting-Quiet : Quiet counting full_engine move_plan false "run_1" 10 20 30
counting-Quiet = record { publish = λ p w. refl; append = λ r w. refl; flush = λ w. refl }

move_plan_valid : validate_plan move_plan ≡ ok tt
unfolding validate_plan
move_plan_valid = refl

execute-returns_example :
    (run : ExecutionRun) × ((execute counting full_engine move_plan false "run_1" 10 20 30 0).1
      ≡ ok run)
    × Reports full_engine move_plan false run
execute-returns_example =
    execute-returns counting full_engine move_plan false "run_1" 10 20 30 counting-Quiet
      move_plan_valid 0

returned :
    (execute counting full_engine move_plan false "run_1" 10 20 30 0).1
    ≡ ok (completed_run full_engine move_plan false "run_1" 10 20 2)
unfolding execute execute_body validate_plan completed_run
returned = refl

abbrev route_step : OrchestrationStep
route_step = record { name = "route"; status = "planned"; reason = "edge-1"; metadata = end }

route_done : (execute_step default_policy route_step move_plan false).status ≡ succeeded
unfolding execute_step result
route_done = refl

execute_step-Cleared_example :
    (execute_step default_policy route_step move_plan false).status ≡ succeeded
    ↔ Cleared default_policy route_step move_plan false
execute_step-Cleared_example = execute_step-Cleared default_policy route_step move_plan false
