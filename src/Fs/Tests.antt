-- ===== src/Fs/Tests.antt =====
-- The theorems on fs.c, and on reading a file of file.c, at a small disk.
use dockv6_project.Base.{
  ◌∷◌, ℕ, ◌%◌, ◌≡◌, refl, arith, [], if◌then◌else◌, ◌==◌, false, none, true, List,
}
use dockv6_project.Fs.{Dev, balloc, returns}
use dockv6_project.Fs.Alloc.{Balloc, balloc-Allocated}
use dockv6_project.Fs.Inode.{iupdate, Dinode, bmap, writei, read_count, itrunc}
use dockv6_project.Fs.Bmap.{addr_of, FileOk, Bmap}
use dockv6_project.Fs.Table.{bmap-Mapped}
use dockv6_project.Fs.Content.{Foreign, file_byte}
use dockv6_project.Fs.Dinodes.{Fits}
use dockv6_project.Fs.FileIo.{Writes, writei-Written}
use dockv6_project.Fs.ReadBack.{ReadsBack, readi-writei, WriteEnds, writei-WriteEnds}
use dockv6_project.Fs.Emptied.{Emptied, itrunc-Emptied}
use dockv6_project.Fs.Dir.{find_entry}
use dockv6_project.Fs.Lookup.{DirOf, Lookups, find_entry-Lookups}
use dockv6_project.Fs.Path.{skipelem, Caller, namex}
use dockv6_project.Fs.Rounds.{namex-enough}
use dockv6_project.Pipe.{fresh}
use dockv6_project.Files.{Files, fd_inode}
use dockv6_project.Files.Io.{fileread}
use dockv6_project.Files.Reading.{FileReads, fileread-Advances}
use dockv6_project.Fs.Elements.{Steps, skipelem-Steps}
use dockv6_project.Fs.Icache.{Inode, Cache, iget, ilock, iput, ends}
use dockv6_project.Fs.References.{Unique, CountsFit, Iget, iget-Unique}
use dockv6_project.Fs.Lifetime.{Loaded, ilock-iupdate, Dropped, iput-Dropped}
use dockv6_project.Fs.Sample.{
  small, one_block, small-MapReserved, one_block-FileOk, one_block-Foreign, one_block-OpenFile,
}

balloc-Allocated_example : Balloc small (balloc small)
balloc-Allocated_example = balloc-Allocated small small-MapReserved

-- Block 20 of the file needs an indirect block.
bmap-Mapped_example : Bmap small one_block 20 (bmap small one_block 20)
bmap-Mapped_example = bmap-Mapped small one_block 20 one_block-FileOk (omega arith)

-- 2000 bytes from offset 600 on.
writei-Written_example :
    Writes small 1 one_block
      (λ i. i % 256)
      600
      2000
      (writei (λ _. false) small 1 one_block (λ i. i % 256) 600 2000)
writei-Written_example =
    writei-Written (λ _. false) small 1 one_block (λ i. i % 256) 600 2000 one_block-OpenFile
      (omega arith) (omega arith)

readi-writei_example :
    ReadsBack
      (λ _. false)
      (λ i. i % 256)
      (λ _. 0)
      600
      2000
      (writei (λ _. false) small 1 one_block (λ i. i % 256) 600 2000)
readi-writei_example =
    readi-writei (λ _. false) small 1 one_block (λ i. i % 256) (λ _. 0) 600 2000 one_block-OpenFile
      (omega arith) (omega arith)

-- The sum of the offset and the count wraps.
writei-WriteEnds_example :
    WriteEnds small 1 one_block
      (λ _. 0)
      4294967295
      2
      (writei (λ _. false) small 1 one_block (λ _. 0) 4294967295 2)
writei-WriteEnds_example =
    writei-WriteEnds (λ _. false) small 1 one_block (λ _. 0) 4294967295 2 one_block-OpenFile
      (omega arith) (omega arith)

itrunc-Emptied_example :
    (ip' : Dinode) × (d' : Dev) × (itrunc small 1 one_block ≡ returns (ip', d'))
    × Emptied small 1 one_block ip' d'
itrunc-Emptied_example = itrunc-Emptied small 1 one_block one_block-FileOk one_block-Foreign

-- A cache with one entry, for the inode of the file.
abbrev empty_entry : Inode
empty_entry = record { dev = 0; inum = 0; ref = 0; locked = none; valid = false; node = one_block }

abbrev one_entry : ℕ → Inode
one_entry i = if i == 7 then record empty_entry { dev = 1; inum = 1; ref = 1 } else empty_entry

abbrev one_cached : Cache
one_cached = record { disk = small; inode = one_entry }

one_entry-Unique : Unique one_entry
one_entry-Unique i j li lj ri rj e e' = ground (arith, ri, rj)

one_entry-CountsFit : CountsFit one_entry
one_entry-CountsFit i = ground arith

iget-Unique_example : Iget one_cached 1 2 (iget one_cached 1 2)
iget-Unique_example = iget-Unique one_cached 1 2 one_entry-Unique one_entry-CountsFit

one_block-Fits : Fits one_block
one_block-Fits = record {
  itype = omega arith;
  major = omega arith;
  minor = omega arith;
  nlink = omega arith;
  size = omega arith;
  addrs = λ i l. ground arith;
}

abbrev saved : Cache
saved = record { disk = iupdate small 1 one_block; inode = one_entry }

ilock-iupdate_example : (c' : Cache) × (ilock saved 5 7 ≡ ends c') × Loaded one_block 5 7 c'
ilock-iupdate_example =
    ilock-iupdate saved small 5 7 one_block refl refl refl one_block-Fits (omega arith) refl

-- The last reference to a file that has no name any more.
abbrev unnamed : Dinode
unnamed = record one_block { nlink = 0 }

abbrev unnamed_cached : Cache
unnamed_cached = record {
  disk = small;
  inode = λ _. record empty_entry { dev = 1; inum = 1; ref = 1; valid = true; node = unnamed };
}

unnamed-FileOk : FileOk small unnamed
unfolding addr_of
unnamed-FileOk = record { fs = one_block-FileOk.fs; owns = one_block-FileOk.owns }

unnamed-Foreign : Foreign small unnamed 3
unfolding addr_of
unnamed-Foreign = record {
  block = one_block-Foreign.block;
  no_table = one_block-Foreign.no_table;
  no_data = one_block-Foreign.no_data;
}

iput-Dropped_example :
    (c' : Cache) × (iput unnamed_cached 7 ≡ ends c') × Dropped unnamed_cached 7 c'
iput-Dropped_example =
    iput-Dropped unnamed_cached 7 refl refl refl refl unnamed-FileOk unnamed-Foreign

-- The same block as a directory of two entries.
abbrev directory : Dinode
directory = record one_block { itype = 1; size = 32 }

directory-FileOk : FileOk small directory
unfolding addr_of
directory-FileOk = record { fs = one_block-FileOk.fs; owns = one_block-FileOk.owns }

directory-Foreign : Foreign small directory 3
unfolding addr_of
directory-Foreign = record {
  block = one_block-Foreign.block;
  no_table = one_block-Foreign.no_table;
  no_data = one_block-Foreign.no_data;
}

directory-DirOf : DirOf small 1 directory (file_byte small directory)
directory-DirOf = record {
  is_open = record {
    ok = directory-FileOk;
    node = directory-Foreign;
    no_dev = omega arith;
    bound = omega arith;
  };
  whole = omega arith;
  holds = λ o l. refl;
}

find_entry-Lookups_example :
    Lookups small 1 directory
      (file_byte small directory)
      (97 ∷ [])
      2
      0
      (find_entry 2 (λ _. false) small directory (97 ∷ []) 0)
find_entry-Lookups_example =
    find_entry-Lookups 2 (λ _. false) small 1 directory (file_byte small directory) (97 ∷ []) 0
      directory-DirOf (omega arith)

-- "//a/b"
skipelem-Steps_example :
    Steps (47 ∷ 47 ∷ 97 ∷ 47 ∷ 98 ∷ []) (skipelem (47 ∷ 47 ∷ 97 ∷ 47 ∷ 98 ∷ []))
skipelem-Steps_example = skipelem-Steps (47 ∷ 47 ∷ 97 ∷ 47 ∷ 98 ∷ [])

abbrev in_root : Caller
in_root = record { pid = 5; cwd = 7; root = none }

-- The path a/b.
abbrev two_names : List ℕ
two_names = 97 ∷ 47 ∷ 98 ∷ []

namex-enough_example :
    namex 20 (λ _. false) one_cached in_root false two_names
    ≡ namex 4 (λ _. false) one_cached in_root false two_names
namex-enough_example = namex-enough 20 (λ _. false) one_cached in_root false two_names (omega arith)

abbrev opened : Files
opened _ = record {
  type = fd_inode;
  ref = 1;
  readable = true;
  writable = false;
  pipe = 0;
  ip = 7;
  off = 600;
}

abbrev loaded : Cache
loaded = record {
  disk = small;
  inode = λ _. record empty_entry { dev = 1; inum = 1; ref = 1; valid = true; node = one_block };
}

fileread-Advances_example :
    FileReads opened small one_block 3
      (λ _. 0)
      (read_count one_block 600 2000)
      (fileread (λ _. false) opened loaded (λ _. fresh (λ _. 0)) 5 false 3 (λ _. 0) 2000)
fileread-Advances_example =
    fileread-Advances (λ _. false) opened loaded (λ _. fresh (λ _. 0)) 5 false 3 (λ _. 0) 2000 refl
      refl refl refl refl one_block-OpenFile (omega arith) (omega arith) (omega arith)
