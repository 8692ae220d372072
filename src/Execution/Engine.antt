-- ===== src/Execution/Engine.antt =====
-- execution_engine.py: `execute` with its effects and its failure path.
use cyber_hive.Prelude.{
  if◌then◌else◌, string_eq, nat_eq, Result, ok, raise, ℕ, ◌+◌, String, Bool, true, false, Option,
  none, some,
}
use cyber_hive.Plan.{OrchestrationPlan}
use cyber_hive.Plan.Metadata.{text, scalar, end, field}
use cyber_hive.Execution.{
  status_value, ExecutionRun, Exn, Effects, ExecutionError, execution_failed, uncaught,
  ExecutionEngine, validate_plan, publication, completed_run, failed_run,
}

module _ {W : Type 0} (fx : Effects W) where
  -- `if present: effect`
  abbrev pub if_present : Bool → (W → W × Option Exn) → W → W × Option Exn
  if_present true effect w = effect w
  if_present false effect w = (w, none)

  -- the `except` branch
  unfoldable pub fail_with :
      ExecutionEngine → ExecutionRun → Exn → W → W × Result ExecutionError ExecutionRun
  fail_with engine failure exn w =
      let (w', again) = if_present engine.has_journal (fx.append failure) w in
      elim again [
        | some e ↦ (w', raise (uncaught e))
        | none ↦ (w', raise (execution_failed exn.message))
      ]

  -- `now` is the clock at the failure.
  unfoldable pub execute_body :
      ExecutionEngine
      → OrchestrationPlan
      → Bool
      → String
      → ℕ
      → ℕ
      → ℕ
      → ℕ
      → W
      → W × Result ExecutionError ExecutionRun
  unfolding fail_with
  execute_body engine plan dry run_id started completed now events w =
      let run = completed_run engine plan dry run_id started completed events in
      let done =
        publication run_id "execution.completed" plan
          (field "status" (text (status_value run.status)) end) in
      let (w₁, e₁) = if_present engine.has_bus (fx.publish done) w in
      elim e₁ [
        | some e ↦ fail_with engine (failed_run plan dry run_id started now events e) e w₁
        | none ↦
            let events' = if engine.has_bus then events + 1 else events in
            let run' = record run { events_published = events' } in
            let (w₂, e₂) = if_present engine.has_journal (fx.append run') w₁ in
            elim e₂ [
              | some e ↦ fail_with engine (failed_run plan dry run_id started now events' e) e w₂
              | none ↦
                  let (w₃, e₃) = if_present engine.has_bus fx.flush w₂ in
                  elim e₃ [
                    | some e ↦
                        fail_with engine (failed_run plan dry run_id started now events' e) e w₃
                    | none ↦ (w₃, ok run')
                  ]
            ]
      ]

  unfoldable pub execute :
      ExecutionEngine
      → OrchestrationPlan
      → Bool
      → String
      → ℕ
      → ℕ
      → ℕ
      → W
      → W × Result ExecutionError ExecutionRun
  execute engine plan dry run_id started completed now w = elim (validate_plan plan) [
    | raise e ↦ (w, raise e)
    | ok _ ↦
        let flag = if dry then "True" else "False" in
        let start =
          publication run_id "execution.started" plan (field "dry_run" (scalar flag) end) in
        let (w₁, e₁) = if_present engine.has_bus (fx.publish start) w in
        elim e₁ [
          | some e ↦ (w₁, raise (uncaught e))
          | none ↦
              execute_body engine plan dry run_id started completed now
                (if engine.has_bus then 1 else 0) w₁
        ]
  ]
