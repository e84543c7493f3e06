-- ===== src/File/Tests.antt =====
-- Two references to file 3 of kernel/file.c, a pipe.
use project_opertating_syste.Base.{
  ℕ, ◌≡◌, true, false, update, done, List, [], ◌∷◌, arith, if◌then◌else◌, ◌==◌,
}
use project_opertating_syste.File.{
  File, fd_none, fd_pipe, nothing, close_below, filealloc, fileclose,
}
use project_opertating_syste.File.Refs.{
  count, remove, Counted, Opened, filealloc-Opened, fileclose-Counted,
}

abbrev files : ℕ → File
files =
    update (λ _. record { type_ = fd_none; ref = 0; writable = false }) 3
      (record { type_ = fd_pipe 1; ref = 2; writable = true })

abbrev held : List ℕ
held = 3 ∷ 3 ∷ []

files-Counted : Counted files held
files-Counted i = ground arith

filealloc-Opened_example : Opened files held (filealloc files)
filealloc-Opened_example = filealloc-Opened files held files-Counted

fileclose-Counted_example :
    (u : ℕ → File) × (fileclose 3 files
      ≡ done (
          if count 3 (remove 3 held) == 0
          then (close_below (files 3).type_ (files 3).writable, u)
          else (nothing, u)))
    × Counted u (remove 3 held)
fileclose-Counted_example = fileclose-Counted files held 3 files-Counted (omega arith)
