-- ===== src/Lcm/Histories.antt =====
-- lcm/manager.go and lcm/process.go: the coordinator through its steps: it schedules, and the
-- goroutines of its processes take their steps, in any order.
use drummer.Base.{ℕ, ◌≡◌, Bool, List, Option, some, nat_eq}
use drummer.Base.Map.{lookup}
use drummer.Lcm.{Process, Coordinator, new_coordinator, advance, schedule_processes}

-- The steps of a run. A call of `scheduleProcesses` may stand as several steps of some draws each, so
-- the calls of processes may end between two draws.
pub data Run (size : ℕ) : Coordinator → Type 0 where
  created : Run size (new_coordinator size)
  scheduled :
      {c : Coordinator} (n : ℕ) (draws : List (ℕ × Bool))
      → Run size c
      → Run size (schedule_processes n draws c)
  advanced :
      {c : Coordinator} (id : ℕ) (p : Process) (result : Option ℕ)
      → Run size c
      → lookup id c.processes ≡ some p
      → Run size (advance p.task id p result c)
