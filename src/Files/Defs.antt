-- ===== src/Files/Defs.antt =====
-- The table of open files and its reference counts, xv6-public/file.c.
use os.Base.{
  ℕ, ◌+◌, ◌-◌, Bool, Option, none, some, List, ◌==◌, if◌then◌else◌, get_elem?, modify, find_index,
}

-- The field `type` of a `struct file`, with the pipe or the inode that it is of.
pub data FileType : Type 0 where
  fd_none : FileType
  fd_pipe : ℕ → FileType
  fd_inode : ℕ → FileType

-- A `struct file`, without the modes and the offset, which these calls pass over but for `writable`.
pub record File : Type 0 where
  pub type : FileType
  pub ref : ℕ
  pub writable : Bool

-- `ftable.file`
abbrev pub Table : Type 0
Table = List File

unfoldable pub filealloc : Table → Option ℕ × Table
filealloc t = elim (find_index (λ f. f.ref == 0) t) [
  | none ↦ (none, t)
  | some i ↦ (some i, modify t i (λ f. record f { ref = 1 }))
]

-- A panic is `none`, as is a file out of the table.
unfoldable pub filedup : ℕ → Table → Option Table
filedup i t = elim (get_elem? t i) [
  | none ↦ none
  | some f ↦ if f.ref == 0 then none else some (modify t i (λ f. record f { ref = f.ref + 1 }))
]

-- What `fileclose` has to do once the table is unlocked.
pub data Closing : Type 0 where
  still_open : Closing
  nothing : Closing
  close_pipe : ℕ → Bool → Closing
  put_inode : ℕ → Closing

abbrev pub closing : File → Closing
closing f = elim f.type [
  | fd_none ↦ nothing
  | fd_pipe p ↦ close_pipe p f.writable
  | fd_inode ip ↦ put_inode ip
]

unfoldable pub fileclose : ℕ → Table → Option (Closing × Table)
fileclose i t = elim (get_elem? t i) [
  | none ↦ none
  | some f ↦
      if f.ref == 0
      then none
      else if f.ref == 1
      then some (closing f, modify t i (λ f. record f { ref = 0; type = fd_none }))
      else some (still_open, modify t i (λ f. record f { ref = f.ref - 1 }))
]
