-- ===== src/Lcm.antt =====
-- lcm/manager.go and lcm/process.go: the coordinator that runs the processes of a linearizability
-- test and records their history. `Histories` follows it through its steps, `Log` prints it.
pub mod Log
pub mod Soundness
pub mod Histories
use drummer.Base.{
  ℕ, zero, suc, ◌+◌, ◌*◌, Bool, true, false, not, ◌&&◌, List, [], ◌∷◌, ◌++◌, any, Option, none,
  some, ltb, leb, ◌==◌, if◌then◌else◌, nat_eq, u64_mod, ◌%◌, ◌⊎◌, inl, inr, add_u64,
}
use drummer.Base.Map.{Map, lookup, insert, values}

pub data EventType : Type 0 where
  read write : EventType

pub data EventResult : Type 0 where
  invoked completed failed : EventResult

pub record Event : Type 0 where
  pub event_type : EventType
  pub event_result : EventResult
  pub id : ℕ
  pub value : ℕ

-- `math.MaxUint64`, the value that stands for none.
abbrev pub no_value : ℕ
no_value = 18446744073709551615

abbrev pub initial_wait : ℕ
initial_wait = 25

abbrev pub max_wait : ℕ
max_wait = 100

-- Where the goroutine of a process stands that `StartWrite` or `StartRead` starts: in its call, or
-- behind a call that failed and `setStopped`, or behind the record of the result and before the
-- deferred `setIdle`; `none_runs` where there is no goroutine.
pub data Task : Type 0 where
  none_runs : Task
  writing : (value : ℕ) → Task
  write_failed : Task
  reading : Task
  read_failed : Task
  leaving : Task

-- The flags of a process, and its goroutine.
pub record Process : Type 0 where
  pub stopped : Bool
  pub idle : Bool
  pub task : Task

abbrev pub new_process : Process
new_process = record { stopped = false; idle = true; task = Task.none_runs }

-- The processes by their ids, and what the coordinator counts.
pub record Coordinator : Type 0 where
  pub processes : Map ℕ Process
  pub events : List Event
  pub value : ℕ
  pub complete_count : ℕ
  pub wait : ℕ

unfoldable pub new_processes : ℕ → ℕ → Map ℕ Process
new_processes from zero = []
new_processes from (suc n) = (from, new_process) ∷ new_processes (from + 1) n

abbrev pub new_coordinator : ℕ → Coordinator
new_coordinator size = record {
  processes = new_processes 0 size;
  events = [];
  value = 1;
  complete_count = 0;
  wait = initial_wait;
}

unfoldable pub increase_complete_count : Coordinator → Coordinator
increase_complete_count c =
    if add_u64 c.complete_count 1 == 4
    then record c { wait = initial_wait; complete_count = 0 }
    else record c { complete_count = add_u64 c.complete_count 1 }

unfoldable pub reset_complete_count : Coordinator → Coordinator
reset_complete_count c =
    let doubled = (c.wait * 2) % u64_mod in
    record c { complete_count = 0; wait = if leb max_wait doubled then max_wait else doubled }

unfoldable pub record_event : Event → Coordinator → Coordinator
record_event e c = record c { events = c.events ++ (e ∷ []) }

unfoldable pub record_write_invoked : ℕ → ℕ → Coordinator → Coordinator
record_write_invoked id v = record_event (record {
  event_type = EventType.write;
  event_result = EventResult.invoked;
  id = id;
  value = v;
})

unfoldable pub record_write_failed : ℕ → Coordinator → Coordinator
record_write_failed id c =
    record_event
      (record {
        event_type = EventType.write;
        event_result = EventResult.failed;
        id = id;
        value = 0;
      })
      (reset_complete_count c)

unfoldable pub record_write_completed : ℕ → ℕ → Coordinator → Coordinator
record_write_completed id v c =
    record_event
      (record {
        event_type = EventType.write;
        event_result = EventResult.completed;
        id = id;
        value = v;
      })
      (increase_complete_count c)

unfoldable pub record_read_invoked : ℕ → Coordinator → Coordinator
record_read_invoked id =
    record_event (record {
      event_type = EventType.read;
      event_result = EventResult.invoked;
      id = id;
      value = 0;
    })

unfoldable pub record_read_failed : ℕ → Coordinator → Coordinator
record_read_failed id c =
    record_event
      (record {
        event_type = EventType.read;
        event_result = EventResult.failed;
        id = id;
        value = 0;
      })
      (reset_complete_count c)

unfoldable pub record_read_completed : ℕ → ℕ → Coordinator → Coordinator
record_read_completed id v c =
    record_event
      (record {
        event_type = EventType.read;
        event_result = EventResult.completed;
        id = id;
        value = v;
      })
      (increase_complete_count c)

-- `p.isIdle() && !p.isStopped()`
unfoldable pub selectable : Process → Bool
selectable p = p.idle && not p.stopped

unfoldable pub has_available_process : Coordinator → Bool
has_available_process c = any selectable (values c.processes)

unfoldable pub all_stopped : Coordinator → Bool
all_stopped c = not (any (λ (p : Process). not p.stopped) (values c.processes))

unfoldable pub set_process : ℕ → Process → Coordinator → Coordinator
set_process id p c = record c { processes = insert id p c.processes }

-- A process is told to read.
unfoldable pub start_read : ℕ → Process → Coordinator → Coordinator
start_read id p c =
    set_process id (record p { idle = false; task = Task.reading }) (record_read_invoked id c)

-- A process is told to write the next value.
unfoldable pub start_write : ℕ → Process → Coordinator → Coordinator
start_write id p c =
    set_process id (record p { idle = false; task = Task.writing c.value })
      (record_write_invoked id c.value (record c { value = add_u64 c.value 1 }))

unfoldable pub start : Bool → ℕ → Process → Coordinator → Coordinator
start true id p c = start_read id p c
start false id p c = start_write id p c

-- One step of the goroutine of a process, by where it stands: its call returns, with a value or with
-- an error (`none`); the result is recorded, where it is an error behind `setStopped`; and the deferred
-- `setIdle` runs. Other processes may take their steps between any two of these.
unfoldable pub advance : Task → ℕ → Process → Option ℕ → Coordinator → Coordinator
advance Task.none_runs id p result c = c
advance (Task.writing value) id p (some v) c =
    set_process id (record p { task = Task.leaving }) (record_write_completed id value c)
advance (Task.writing value) id p none c =
    set_process id (record p { stopped = true; task = Task.write_failed }) c
advance Task.write_failed id p result c =
    set_process id (record p { task = Task.leaving }) (record_write_failed id c)
advance Task.reading id p (some v) c =
    set_process id (record p { task = Task.leaving }) (record_read_completed id v c)
advance Task.reading id p none c =
    set_process id (record p { stopped = true; task = Task.read_failed }) c
advance Task.read_failed id p result c =
    set_process id (record p { task = Task.leaving }) (record_read_failed id c)
advance Task.leaving id p result c =
    set_process id (record p { idle = true; task = Task.none_runs }) c

-- The loop of `scheduleProcesses`, on the processes and the coins that it draws; a process that is
-- busy or stopped is passed over.
unfoldable pub schedule_processes : ℕ → List (ℕ × Bool) → Coordinator → Coordinator
schedule_processes zero draws c = c
schedule_processes (suc n) [] c = c
schedule_processes (suc n) ((idx, reads) ∷ draws) c = elim (lookup idx c.processes) [
  | none ↦ schedule_processes (suc n) draws c
  | some p ↦ (elim (selectable p) [
    | true ↦ schedule_processes n draws (start reads idx p c)
    | false ↦ schedule_processes (suc n) draws c
  ])
]
