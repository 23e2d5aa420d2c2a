-- ===== src/Task/Tests.antt =====
-- Runs of the task table on small inputs, and the theorems on task.rs at such inputs.
use jing_os.Base.{◌≡◌, refl, none, some, List, [], ◌∷◌, arith, ok, err, replicate, u64_max}
use jing_os.Task.Data.{
  ready, sleeping, kernel_monitor, user_demo, fast_syscall_success, TaskInfo, TaskTable, not_found,
  table_full,
}
use jing_os.Task.Table.{
  any_id, ensure_bootstrap_task, count_slots, count_task, wake_due, wake_slots, wake_slot, spawn,
  step, select_priority, select_index, run_slot, snapshot, list, position_none,
}
use jing_os.Task.Control.{
  sleep, wake, remove, set_priority, init, spawns, steps, sleeps, wakes, removes, sets_priority,
  history, Call, perform, perform_all, with_task, for_task, sleep_body, wake_body, priority_body,
  remove_body,
}
use jing_os.Task.Invariant.{IsValid}
use jing_os.Task.History.{history-IsValid}
use jing_os.Task.Ran.{awake_table, StepsTo, step_lem}
use jing_os.Task.Refine.{sleep_refines, wake_refines, remove_refines, set_priority_refines}
use jing_os.Task.Spawn.{spawn_refines, spawn_full, spawn_at_limit}
use jing_os.Task.Listing.{snapshot_lem, list_lem}
use jing_os.Task.Fairness.{eight_steps_fair, Reported, reports, Contends}

abbrev monitor : TaskInfo
monitor = record {
  id = 1;
  kind = kernel_monitor;
  state = ready;
  run_count = 3;
  priority = 10;
  sleep_until_tick = none;
}

abbrev demo : TaskInfo
demo = record {
  id = 2;
  kind = user_demo;
  state = ready;
  run_count = 0;
  priority = 10;
  sleep_until_tick = none;
}

abbrev dozing : TaskInfo
dozing = record {
  id = 4;
  kind = fast_syscall_success;
  state = sleeping;
  run_count = 1;
  priority = 50;
  sleep_until_tick = some 500;
}

-- The monitor and a user task are ready; a third task sleeps until tick 500.
abbrev sample : TaskTable
sample = record {
  slots = some monitor ∷ some demo ∷ none ∷ some dozing ∷ none ∷ none ∷ none ∷ none ∷ [];
  next_id = 5;
  next_rr_index = 1;
}

sample-IsValid : IsValid sample
sample-IsValid = omega arith

abbrev calls : List Call
calls =
    init
    ∷ spawns user_demo
    ∷ steps 5
    ∷ sleeps 2 10 6
    ∷ wakes 2 7
    ∷ sets_priority 2 40 8
    ∷ steps 9
    ∷ removes 2 10
    ∷ []

step_picks_in_ring : (step 100 sample).0 ≡ some (record { id = 2; kind = user_demo; run_count = 1 })
unfolding step wake_due wake_slots wake_slot select_priority select_index run_slot
step_picks_in_ring = refl

step_wakes_higher :
    (step 600 sample).0 ≡ some (record { id = 4; kind = fast_syscall_success; run_count = 2 })
unfolding step wake_due wake_slots wake_slot select_priority select_index run_slot
step_wakes_higher = refl

history_runs : (snapshot (history calls)).total ≡ 1
unfolding history perform_all perform snapshot spawn position_none step wake_due wake_slots
    wake_slot select_priority select_index run_slot sleep wake remove set_priority with_task
    for_task count_slots ensure_bootstrap_task any_id sleep_body wake_body priority_body remove_body
    count_task
history_runs = refl

history-IsValid_example : IsValid (history calls)
history-IsValid_example = history-IsValid calls (omega arith)

step_lem_example : StepsTo (awake_table 600 sample) (step 600 sample)
step_lem_example = step_lem 600 sample sample-IsValid

monitor-Contends : Contends (replicate 8 100) sample 0 monitor
monitor-Contends = record {
  in_range = omega arith;
  here = refl;
  can_run = refl;
  highest = ((λ _. omega arith), ((λ _. omega arith), ((λ e. cc), tt)));
  quiet = omega arith;
}

eight_steps_fair_example : Reported 1 (reports (replicate 8 100) sample)
eight_steps_fair_example =
    eight_steps_fair (replicate 8 100) sample 0 monitor sample-IsValid monitor-Contends
      (omega arith)

sleep_refines_example : (sleep 2 10 100 sample).0 ≡ ok 110
sleep_refines_example = (sleep_refines sample 2 100 sample-IsValid 10 (omega arith)).0

wake_refines_example :
    (wake 4 100 sample).0 ≡ ok (record dozing { state = ready; sleep_until_tick = none })
wake_refines_example = (wake_refines sample 4 100 sample-IsValid).0

remove_refines_example : (remove 2 100 sample).0 ≡ ok demo
remove_refines_example = (remove_refines sample 2 100 sample-IsValid (omega arith)).0

set_priority_refines_example : (set_priority 9 1 100 sample).0 ≡ err not_found
set_priority_refines_example = (set_priority_refines sample 9 100 sample-IsValid 1).0

spawn_refines_example : (spawn user_demo sample).0 ≡ ok 5
spawn_refines_example = (spawn_refines user_demo sample sample-IsValid (omega arith)).1

snapshot_lem_example : (snapshot sample).ready_tasks ≡ 2
snapshot_lem_example = (snapshot_lem sample sample-IsValid).0

list_lem_example :
    list sample (replicate 8 none) ≡ (3, some monitor ∷ some demo ∷ some dozing ∷ replicate 5 none)
list_lem_example = list_lem sample (replicate 8 none) sample-IsValid refl

-- Eight tasks with the identifiers 1 to 8.
abbrev crowded : TaskTable
crowded = record {
  slots =
      some (record demo { id = 1 })
      ∷ some (record demo { id = 2 })
      ∷ some (record demo { id = 3 })
      ∷ some (record demo { id = 4 })
      ∷ some (record demo { id = 5 })
      ∷ some (record demo { id = 6 })
      ∷ some (record demo { id = 7 })
      ∷ some (record demo { id = 8 })
      ∷ [];
  next_id = 9;
  next_rr_index = 0;
}

spawn_full_example : spawn user_demo crowded ≡ (err table_full, crowded)
spawn_full_example = spawn_full user_demo crowded (omega arith) refl

abbrev worn : TaskTable
worn = record sample { next_id = u64_max }

spawn_at_limit_example :
    ((spawn user_demo worn).0 ≡ ok u64_max)
    × ((spawn kernel_monitor (spawn user_demo worn).1).0 ≡ ok u64_max)
spawn_at_limit_example =
    spawn_at_limit user_demo kernel_monitor worn (omega arith) refl (omega arith)
