-- ===== src/Tests/Processes.antt =====
-- The theorems on lab03 at concrete inputs.
use osi_s.Prelude.{some}
use osi_s.Supervisor.{Parent, init, create_child}

abbrev two : Parent
two = create_child (some 42) (create_child (some 41) init)
