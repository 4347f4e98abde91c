-- ===== src/Tests/Writing.antt =====
-- Runs of the write tool.
use epics_mcp_server.Prelude.{ℕ, ◌≡◌, refl, true, false, some, ◌++◌, any}
use epics_mcp_server.Write.{Run, set_pv_value}
use epics_mcp_server.Write.Trace.{Protocol, set_pv_value-Protocol}
use epics_mcp_server.Write.Outcome.{
  lines, is_put, MayPut, set_pv_value-lines, set_pv_value_puts_iff,
}
use epics_mcp_server.Bounds.{check_value_in_bounds}
use epics_mcp_server.Bounds.Verdict.{IsOutside, check_value_in_bounds_refuses_iff}
use epics_mcp_server.Tests.Fixtures.{literal, whole_numbers, gate, before, network}

abbrev run : Run literal ℕ
run = set_pv_value literal whole_numbers 1 "IOC:m1" "5" gate 12 7 network

trace_example : Protocol "IOC:m1" "5" 12 run.steps run.outcome
trace_example = set_pv_value-Protocol literal whole_numbers 1 "IOC:m1" "5" gate 12 7 network

lines_example : run.safety.audit ≡ gate.audit ++ lines run.steps
lines_example = set_pv_value-lines literal whole_numbers 1 "IOC:m1" "5" gate 12 7 network

run_puts : any is_put run.steps ≡ true
unfolding set_pv_value
run_puts = refl

puts_example : MayPut literal whole_numbers 1 "IOC:m1" "5" gate 7 network
puts_example =
    (set_pv_value_puts_iff literal whole_numbers 1 "IOC:m1" "5" gate 12 7 network).0 run_puts

refused_50 : (check_value_in_bounds whole_numbers "50" before).in_bounds ≡ some false
unfolding check_value_in_bounds
refused_50 = refl

outside_example : IsOutside whole_numbers "50" before
outside_example = (check_value_in_bounds_refuses_iff whole_numbers "50" before).0 refused_50
