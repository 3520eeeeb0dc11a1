-- ===== src/Mmap/Tests.antt =====
-- The memory areas at concrete inputs.
use os.Base.{
  ℕ, ◌+◌, ◌-◌, ◌*◌, ◌≡◌, refl, ◌⊎◌, true, false, Option, none, some, List, [], ◌∷◌, arith, length,
  replicate, ◌==◌, if◌then◌else◌, pos,
}
use Prim.Native.Nat.{bit_or}
use os.Mmap.Memory.{
  pte_u, pte_p, page_size, u32, Table, File, Area, State, filled, lookup_pte, kalloc,
}
use os.Mmap.Defs.{returns, Request, empty_area, area_of, page_fault_handler}
use os.Mmap.Pages.{Counted, kalloc-Counted}
use os.Mmap.Faults.{contents, page_fault_handler_lem}
use os.Mmap.Kills.{KillsOnFailure, page_fault_handler-KillsOnFailure}

abbrev three_bytes : File
three_bytes = record {
  ref = 1;
  readable = true;
  writable = false;
  off = 0;
  size = 3;
  bytes = λ i. i + 7;
}

-- Three frames are free, process 0 has file 0 open and a page table for the first area.
abbrev table : Table
table = record { table_frame = 90; entries = λ _. none }

abbrev one_table : ℕ → Option Table
one_table d = if d == 256 then some table else none

abbrev before : State
before = record {
  kernel_end = 0x8011_5000;
  freelist = 5 ∷ 6 ∷ 7 ∷ [];
  fmem_count = 3;
  frames = λ _. filled 1;
  pgdirs = λ i. if i == 0 then one_table else (λ _. none);
  ofile = λ _ _. some 0;
  killed = λ _. false;
  files = λ _. three_bytes;
  areas = replicate 4 empty_area;
}

-- Two pages of the file, for reading.
abbrev request : Request
request = record { addr = 0; length = pos 8192; prot = 1; flags = 0; fd = pos 3; offset = 1 }

abbrev area : Area
area = area_of 0 0x4000_0000 (some 0) request

abbrev after : State
after = record before { areas = area ∷ replicate 3 empty_area }

fault_example :
    (s' : State) × (page_fault_handler 0 0x4000_1234 false after ≡ returns 0 s')
    × (lookup_pte s' 0 0x4000_1000 ≡ some (bit_or (bit_or (5 * page_size) (bit_or 1 pte_u)) pte_p))
    × ((k : ℕ) → s'.frames 5 k ≡ contents after (some 0) 1 k)
fault_example =
    page_fault_handler_lem 0 0x4000_1234 false 0 area 5 (6 ∷ 7 ∷ []) table after refl refl refl refl
      (λ _ _. refl) refl refl refl

killed_example : KillsOnFailure 0 after (page_fault_handler 0 0x1000 true after)
killed_example = page_fault_handler-KillsOnFailure 0 0x1000 true after

-- The first page of the area is mapped to frame 1000.
abbrev mapped : State
mapped = record after {
  pgdirs = λ i d.
      if d == 256
      then some
          (record table { entries = λ k. if k == 0 then some (1000 * page_size + 5) else none })
      else none;
}

abbrev exhausted : State
exhausted = record before { freelist = []; fmem_count = 0 }

kalloc_example :
    ((a : ℕ) × (rest : List ℕ) × (exhausted.freelist ≡ a ∷ rest)
      × ((kalloc exhausted).0 ≡ some a)
      × Counted (kalloc exhausted).1)
    ⊎ ((exhausted.freelist ≡ [])
        × ((kalloc exhausted).0 ≡ none)
        × ((kalloc exhausted).1.fmem_count ≡ u32 - 1))
kalloc_example = kalloc-Counted exhausted (refl, omega arith)
