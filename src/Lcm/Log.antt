-- ===== src/Lcm/Log.antt =====
-- lcm/manager.go: an event as a line of a log. The numerals and the padding of fmt are parameters.
use drummer.Base.{ℕ, ◌++◌, Bytes, bytes, ◌==◌, nat_eq, if◌then◌else◌}
use drummer.Lcm.{EventType, EventResult, Event, no_value}

module _ (format_uint : ℕ → Bytes) where
  unfoldable pub string_value : Event → Bytes
  string_value e = if e.value == no_value then bytes "nil" else format_uint e.value

  -- The variables `t`, `f` and `v` of `toEDNLogEntry`.
  unfoldable pub edn_type : EventType → EventResult → Bytes
  edn_type t EventResult.invoked = bytes "invoke"
  edn_type EventType.write EventResult.failed = bytes "info"
  edn_type EventType.read EventResult.failed = bytes "fail"
  edn_type t EventResult.completed = bytes "ok"

  unfoldable pub edn_function : EventType → Bytes
  edn_function EventType.read = bytes "read"
  edn_function EventType.write = bytes "write"

  unfoldable pub edn_value : Event → Bytes
  edn_value e = elim e.event_type [
    | EventType.write ↦ string_value e
    | EventType.read ↦ (elim e.event_result [
      | EventResult.invoked ↦ bytes "nil"
      | EventResult.failed ↦ bytes "nil"
      | EventResult.completed ↦ string_value e
    ])
  ]

  unfoldable pub to_edn_log_entry : Event → Bytes
  to_edn_log_entry e =
      bytes "{:process "
      ++ (format_uint e.id
          ++ (bytes ", :type :"
              ++ (edn_type e.event_type e.event_result
                  ++ (bytes ", :f :"
                      ++ (edn_function e.event_type
                          ++ (bytes ", :value " ++ (edn_value e ++ bytes "}")))))))

  -- The variables `t`, `r` and `v` of `toJepsenLogEntry`.
  unfoldable pub jepsen_result : EventType → EventResult → Bytes
  jepsen_result t EventResult.invoked = bytes ":invoke"
  jepsen_result t EventResult.completed = bytes ":ok"
  jepsen_result EventType.read EventResult.failed = bytes ":fail"
  jepsen_result EventType.write EventResult.failed = bytes ":info"

  unfoldable pub jepsen_function : EventType → Bytes
  jepsen_function EventType.read = bytes ":read"
  jepsen_function EventType.write = bytes ":write"

  unfoldable pub jepsen_value : Event → Bytes
  jepsen_value e = elim e.event_result [
    | EventResult.failed ↦ bytes ":timed-out"
    | EventResult.completed ↦ string_value e
    | EventResult.invoked ↦ (elim e.event_type [
      | EventType.read ↦ bytes "nil"
      | EventType.write ↦ string_value e
    ])
  ]

  -- `%-4d` and `%-8s`
  module _ (pad : ℕ → Bytes → Bytes) where
    unfoldable pub to_jepsen_log_entry : Event → Bytes
    to_jepsen_log_entry e =
        bytes "INFO  jepsen.util - "
        ++ (pad 4 (format_uint e.id)
            ++ (pad 8 (jepsen_result e.event_type e.event_result)
                ++ (pad 8 (jepsen_function e.event_type) ++ (jepsen_value e ++ bytes "\n"))))
