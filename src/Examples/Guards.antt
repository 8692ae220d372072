-- ===== src/Examples/Guards.antt =====
-- resource_guard.py at concrete inputs: a node that runs two actions at a time.
use cyber_hive.Prelude.{string_eq, nat_eq, raise, ◌≡◌, refl, false, none, List, [], ◌∷◌, map, arith}
use cyber_hive.Prelude.Dict.{get, put}
use cyber_hive.Resource.Guard.{
  LocalResourceGuard, total, usage, denial, request_or_default, refusal, grant, decide_reservation,
  reserve, release, active_reservations, Call, reserves, releases, step, run,
}
use cyber_hive.Resource.{reservation_not_found, default_request_for_action}
use cyber_hive.Resource.Bounds.{WithinBudget, run-WithinBudget}
use cyber_hive.Resource.Replies.{Decides, reserve-Decides, release-reserve}

abbrev edge_guard : LocalResourceGuard
edge_guard = record {
  node_id = "edge-1";
  budget = record {
    cpu_units = 2000;
    memory_mb = 512000;
    vram_mb = 600000;
    io_weight = 1000;
    max_concurrent = 2;
  };
  active = [];
  journal = [];
}

abbrev busy_calls : List Call
busy_calls =
    reserves "prewarm_model" none false "res_1" 10
    ∷ reserves "data_move" none false "res_2" 11
    ∷ reserves "noop" none false "res_3" 12
    ∷ releases "res_1" "done" 13
    ∷ []

edge_guard-WithinBudget : WithinBudget edge_guard
unfolding total
edge_guard-WithinBudget = record {
  slots = omega arith;
  cpu = omega arith;
  memory = omega arith;
  vram = omega arith;
  io = omega arith;
}

run-WithinBudget_example : WithinBudget (run edge_guard busy_calls)
run-WithinBudget_example = run-WithinBudget edge_guard busy_calls edge_guard-WithinBudget

reserve-Decides_example :
    Decides edge_guard
      (request_or_default none "prewarm_model")
      (reserve edge_guard "prewarm_model" none false "res_1" 10).1
reserve-Decides_example = reserve-Decides edge_guard "prewarm_model" none false "res_1" 10 refl

release-reserve_example :
    let after = (release (reserve edge_guard "noop" none false "res_1" 10).0 "res_1" "done" 20).0 in
    (after.active ≡ []) × (release after "res_1" "done" 20 ≡ (after, raise reservation_not_found))
unfolding get
release-reserve_example = release-reserve edge_guard "noop" none false "res_1" "done" 10 20 refl

-- the second action waits for the input and output of the first
abbrev after_two : LocalResourceGuard
after_two =
    run edge_guard
      (reserves "data_move" none false "res_1" 10 ∷ reserves "data_move" none false "res_2" 11 ∷ [])

after_two_ids : map (λ r. r.id) (active_reservations after_two) ≡ "res_1" ∷ []
unfolding run step reserve decide_reservation denial usage total request_or_default
    default_request_for_action refusal grant put active_reservations
after_two_ids = refl
