-- ===== src/Tests/Triggers.antt =====
-- The theorems on the wait for the trigger at a concrete stack.
use vd_trace.Base.{ℕ, ◌≡◌, refl, true, Option, none, some, arith, ◌==◌, if◌then◌else◌}
use vd_trace.Session.{Impl}
use vd_trace.Hardware.{Context}
use vd_trace.Hardware.Exception.{exception_single_step}
use vd_trace.Runtime.{Machine}
use vd_trace.Regions.{find_module_range, upper_bound_prev}
use vd_trace.Trigger.{
  inside_slot, find_inside, try_find_inside_return_address, handle_own_exception,
  handle_trigger_wait_exception, move_or_hit, move_trigger,
}
use vd_trace.Trigger.Search.{Finds, try_find-Finds}
use vd_trace.Trigger.Waiting.{OwnEnds, own-OwnEnds}
use vd_trace.Tests.{sample_impl, sample_machine, sample_context}

-- The second slot above 0x9000 holds an address of the program.
abbrev return_address_at : ℕ → Option ℕ
return_address_at slot = if slot == 0x9008 then some 0x1200 else none

abbrev stack_machine : Machine
stack_machine = record sample_machine { read_pointer = return_address_at }

-- A session that has reached its trigger outside the modules.
abbrev outside_trigger : Impl
outside_trigger = record sample_impl {
  waiting_for_trigger = true;
  resolved_trigger_address = 0x8800;
}

abbrev outside_context : Context
outside_context = record sample_context { rip = 0x8800 }

finds_second_slot :
    try_find_inside_return_address stack_machine outside_trigger 0x9000 ≡ some 0x1200
unfolding try_find_inside_return_address find_inside inside_slot find_module_range upper_bound_prev
finds_second_slot = refl

moves_to_program :
    (handle_own_exception stack_machine exception_single_step outside_trigger
      outside_context).impl.resolved_trigger_address
    ≡ 0x1200
unfolding handle_own_exception handle_trigger_wait_exception move_or_hit move_trigger
    try_find_inside_return_address find_inside inside_slot find_module_range upper_bound_prev
moves_to_program = refl

try_find-Finds_example :
    Finds stack_machine outside_trigger 0x9000 0 64
      (try_find_inside_return_address stack_machine outside_trigger 0x9000)
try_find-Finds_example =
    try_find-Finds stack_machine outside_trigger 0x9000 (omega arith, omega arith, tt) (omega arith)

own-OwnEnds_example :
    OwnEnds outside_context
      (handle_own_exception stack_machine exception_single_step outside_trigger outside_context)
own-OwnEnds_example =
    own-OwnEnds stack_machine exception_single_step outside_trigger outside_context
