-- ===== src/Locks/Tests.antt =====
-- Nested calls at a concrete depth.
use os.Base.{◌≡◌, true, false, some}
use os.Locks.Defs.{Cpu}
use os.Locks.Nesting.{pushes, pops, pops-pushes}

abbrev idle : Cpu
idle = record { interrupts = true; ncli = 0; intena = false }

pops-pushes_example :
    (c' : Cpu) × (pops 3 (pushes 3 idle) ≡ some c') × (c'.interrupts ≡ true) × (c'.ncli ≡ 0)
pops-pushes_example = pops-pushes 2 idle (λ e. e)
