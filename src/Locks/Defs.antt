-- ===== src/Locks/Defs.antt =====
-- Disabling interrupts in nested calls, `pushcli` and `popcli` of xv6-public/spinlock.c.
use os.Base.{ℕ, ◌+◌, ◌-◌, Bool, false, ◌&&◌, Option, none, some, ◌==◌, if◌then◌else◌}

-- The flag FL_IF of a processor, and its fields `ncli` and `intena`.
pub record Cpu : Type 0 where
  pub interrupts : Bool
  pub ncli : ℕ
  pub intena : Bool

unfoldable pub pushcli : Cpu → Cpu
pushcli c = record {
  interrupts = false;
  ncli = c.ncli + 1;
  intena = if c.ncli == 0 then c.interrupts else c.intena;
}

-- A panic is `none`.
unfoldable pub popcli : Cpu → Option Cpu
popcli c =
    if c.interrupts
    then none
    else if c.ncli == 0
    then none
    else some (record c { interrupts = c.ncli - 1 == 0 && c.intena; ncli = c.ncli - 1 })
