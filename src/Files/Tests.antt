-- ===== src/Files/Tests.antt =====
-- The theorem on open files at a concrete file.
use dockv6_project.Base.{◌≡◌, arith, some, false, true}
use dockv6_project.Files.{Files, fd_pipe, fileclose}
use dockv6_project.Files.Sharing.{dups, closes, with_ref, Releases, dups-closes}

-- Every entry is the write end of a pipe.
abbrev pipes : Files
pipes i = record {
  type = fd_pipe;
  ref = 1;
  readable = false;
  writable = true;
  pipe = 0x8040_0000;
  ip = 0;
  off = 0;
}

dups-closes_example :
    ((t' : Files) × (dups 3 (with_ref pipes 5 1) 5 ≡ some t')
      × (closes 3 t' 5 ≡ some (with_ref pipes 5 1)))
    × Releases (pipes 5) 5 (fileclose (with_ref pipes 5 1) 5)
dups-closes_example = dups-closes 3 pipes 5 (omega arith)
