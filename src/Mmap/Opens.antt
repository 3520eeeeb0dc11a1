-- ===== src/Mmap/Opens.antt =====
-- What `mmap` records, pa3/xv6-public/proc.c.
use os.Base.{ℕ, ◌+◌, ◌%◌}
use os.Mmap.Memory.{u32}
use os.Mmap.Defs.{Request, mmap_base}

-- The start of the area of a request.
abbrev pub start_of : Request → ℕ
start_of r = (mmap_base + r.addr) % u32
