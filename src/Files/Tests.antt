-- ===== src/Files/Tests.antt =====
-- Open files in a table of three.
use os.Base.{◌≡◌, refl, true, false, some, [], ◌∷◌}
use os.Files.Defs.{File, Table, fd_none, fd_pipe, fileclose, close_pipe}

abbrev pipe_end : File
pipe_end = record { type = fd_pipe 4; ref = 1; writable = true }

abbrev unused : File
unused = record { type = fd_none; ref = 0; writable = false }

abbrev table : Table
table = pipe_end ∷ unused ∷ unused ∷ []

last_reference :
    fileclose 0 table
    ≡ some (close_pipe 4 true, record pipe_end { ref = 0; type = fd_none } ∷ unused ∷ unused ∷ [])
unfolding fileclose
last_reference = refl
