-- ===== src/Files/Reading.antt =====
-- `fileread` of file.c reads on from where the last call stopped.
use dockv6_project.Base.{
  ℕ, ◌+◌, ◌^◌, ◌≤◌, ◌<◌, ◌≡◌, ◌≢◌, refl, arith, sym, ◌∙◌, subst, ap, ◌==◌, Bool, true, Option, none,
  some,
}
use dockv6_project.CString.{View}
use dockv6_project.Pipe.{Pipe}
use dockv6_project.Fs.{Dev, Result, panics, returns}
use dockv6_project.Fs.Alloc.{Full}
use dockv6_project.Fs.Inode.{Dinode, Io, move_in, read_count, readi}
use dockv6_project.Fs.Content.{file_byte, Moves}
use dockv6_project.Fs.Reads.{Missing}
use dockv6_project.Fs.FileIo.{OpenFile, ReadOf, Reads, readi-ReadOf}
use dockv6_project.Fs.Icache.{Inode, Cache, ends, referenced, set_inode, ilock, iunlock, load}
use dockv6_project.Fs.Dir.{with_node}
use dockv6_project.Files.{Files, fd_inode}
use dockv6_project.Files.Io.{
  FileRead, panicked, sleeps, refused, from_pipe, from_device, returned, advance, unlock_and_return,
  after_read, fileread,
}

-- What a read of `m` bytes of the file `f` leaves, whose inode has the content `node`.
pub record Advanced (t : Files) (d : Dev) (node : Dinode) (f : ℕ) (dst : View) (m k : ℕ)
    (buffer : View) (t' : Files) (c' : Cache) : Type 0 where
  pub count : k ≡ m
  pub holds : (i : ℕ) → buffer i ≡ move_in dst 0 (file_byte d node) (t f).off m i
  pub offset : (t' f).off ≡ (t f).off + m
  pub files : (g : ℕ) → g ≢ f → t' g ≡ t g
  pub unlocked : (c'.inode (t f).ip).locked ≡ none
  pub moves : Moves d node (file_byte d node) (c'.inode (t f).ip).node c'.disk

abbrev pub FileReads : Files → Dev → Dinode → ℕ → View → ℕ → FileRead → Type 0
FileReads t d node f dst m (panicked d') = Full d' × Missing d node (t f).off ((t f).off + m)
FileReads t d node f dst m (returned (some r) t' c') = Advanced t d node f dst m r.0 r.1 t' c'
FileReads t d node f dst m (returned none t' c') = ⊥
FileReads t d node f dst m sleeps = ⊥
FileReads t d node f dst m refused = ⊥
FileReads t d node f dst m (from_pipe e) = ⊥
FileReads t d node f dst m (from_device major n c') = ⊥

iunlock-ends :
    (c : Cache) (pid i : ℕ)
    → (c.inode i).locked ≡ some pid
    → referenced (c.inode i) ≡ true
    → iunlock c pid i ≡ ends (set_inode c i (record (c.inode i) { locked = none }))
unfolding iunlock
iunlock-ends c pid i l r = let same : (pid == pid) ≡ true = ground arith in rw (l, r, same) refl

ilock-ends :
    (c : Cache) (pid i : ℕ)
    → referenced (c.inode i) ≡ true
    → (c.inode i).locked ≡ none
    → (c.inode i).valid ≡ true
    → ilock c pid i ≡ ends (set_inode c i (record (c.inode i) { locked = some pid }))
unfolding ilock load
ilock-ends c pid i r l v = rw (r, l, v) refl

advance-offset :
    (t : Files) (f m : ℕ)
    → (t f).off + m < 2 ^ 32
    → m < 2 ^ 31
    → (advance t f m f).off ≡ (t f).off + m
advance-offset t f m l l' = ground arith

advance-files : (t : Files) (f m g : ℕ) → g ≢ f → advance t f m g ≡ t g
advance-files t f m g n = ground arith

unlock-returns :
    (c : Cache) (pid i : ℕ) (r : Option (ℕ × View)) (t : Files)
    → (c.inode i).locked ≡ some pid
    → referenced (c.inode i) ≡ true
    → unlock_and_return c pid i r t
      ≡ returned r t (set_inode c i (record (c.inode i) { locked = none }))
unfolding unlock_and_return
unlock-returns c pid i r t l h = let e = iunlock-ends c pid i l h in rw (e, unlock_and_return) refl

with_node-at :
    (c : Cache) (i : ℕ) (ip : Dinode) (d : Dev)
    → (with_node c i ip d).inode i ≡ record (c.inode i) { node = ip }
with_node-at c i ip d = ground arith

set_inode-at : (c : Cache) (i : ℕ) (v : Inode) → (set_inode c i v).inode i ≡ v
set_inode-at c i v = ground arith

-- The end of a read that `readi` has done.
done-Advanced :
    (t : Files) (c : Cache) (d : Dev) (node : Dinode) (pid f : ℕ) (dst : View) (m : ℕ)
    (io : Io (ℕ × View)) (ip' : Dinode) (d' : Dev)
    → (c.inode (t f).ip).locked ≡ some pid
    → referenced (c.inode (t f).ip) ≡ true
    → (t f).off + m < 2 ^ 32
    → m < 2 ^ 31
    → ReadOf d node dst (t f).off m io ip' d'
    → FileReads t d node f dst m (after_read t c pid f (returns (io, ip', d')))
unfolding after_read
done-Advanced t c d node pid f dst m io ip' d' l h fits small ro =
    let i = (t f).ip in
    let c2 = with_node c i ip' d' in
    let at : c2.inode i ≡ record (c.inode i) { node = ip' } = with_node-at c i ip' d' in
    let v : Inode = record (c2.inode i) { locked = none } in
    let at' : (set_inode c2 i v).inode i ≡ v = set_inode-at c2 i v in
    let node' : ((set_inode c2 i v).inode i).node ≡ ip' =
      ap (λ q. q.node) at' ∙ ap (λ q. q.node) at in
    let ends_so =
      unlock-returns c2 pid i (some (m, ro.buffer)) (advance t f m) (ap (λ q. q.locked) at ∙ l)
        (ap referenced at ∙ h) in
    let result : FileReads t d node f dst m
        (returned (some (m, ro.buffer)) (advance t f m) (set_inode c2 i v)) =
      record {
        count = refl;
        holds = ro.holds;
        offset = advance-offset t f m fits small;
        files = advance-files t f m;
        unlocked = ap (λ q. q.locked) at';
        moves = subst (λ q. Moves d node (file_byte d node) q d') (sym node') ro.moves;
      } in
    subst (λ q. FileReads t d node f dst m (after_read t c pid f (returns (q, ip', d'))))
      (sym ro.result) (subst (FileReads t d node f dst m) (sym ends_so) result)

after-FileReads :
    (t : Files) (c : Cache) (d : Dev) (node : Dinode) (pid f : ℕ) (dst : View) (m : ℕ)
    (r : Result (Io (ℕ × View) × Dinode × Dev))
    → (c.inode (t f).ip).locked ≡ some pid
    → referenced (c.inode (t f).ip) ≡ true
    → (t f).off + m < 2 ^ 32
    → m < 2 ^ 31
    → Reads d node dst (t f).off m r
    → FileReads t d node f dst m (after_read t c pid f r)
unfolding after_read
after-FileReads t c d node pid f dst m (panics d') l h fits small full = full
after-FileReads t c d node pid f dst m (returns (io, ip', d')) l h fits small ro =
    done-Advanced t c d node pid f dst m io ip' d' l h fits small ro

read_count-fits : (ip : Dinode) (off n : ℕ) → off ≤ ip.size → read_count ip off n ≤ n
read_count-fits ip off n l = ground arith

-- `fileread` of a readable file on an inode that is in memory, referenced and not locked, from an
-- offset not behind its end: the buffer gets the bytes of the file from the offset on, up to `n` or to
-- its end, the call returns their count, and the offset moves by it. The lock is free again, no other
-- entry of the table changes, and the file and the blocks of others are as before. It panics
-- only when the disk is full and a block of the bytes to be read is missing in the file.
pub fileread-Advances :
    (has : ℕ → Bool) (t : Files) (c : Cache) (pipes : ℕ → Pipe) (pid : ℕ) (killed : Bool) (f : ℕ)
    (dst : View) (n : ℕ)
    → (t f).readable ≡ true
    → (t f).type ≡ fd_inode
    → referenced (c.inode (t f).ip) ≡ true
    → (c.inode (t f).ip).locked ≡ none
    → (c.inode (t f).ip).valid ≡ true
    → OpenFile c.disk (c.inode (t f).ip).inum (c.inode (t f).ip).node
    → (t f).off ≤ (c.inode (t f).ip).node.size
    → (t f).off + n < 2 ^ 32
    → n < 2 ^ 31
    → FileReads t c.disk
        (c.inode (t f).ip).node
        f
        dst
        (read_count (c.inode (t f).ip).node (t f).off n)
        (fileread has t c pipes pid killed f dst n)
unfolding fileread
fileread-Advances has t c pipes pid killed f dst n readable type r free v op l fits small =
    let i = (t f).ip in
    let node = (c.inode i).node in
    let w : Inode = record (c.inode i) { locked = some pid } in
    let c' = set_inode c i w in
    let at : c'.inode i ≡ w = set_inode-at c i w in
    let m = read_count node (t f).off n in
    let few = read_count-fits node (t f).off n l in
    let locked_so = ilock-ends c pid i r free v in
    let read = readi-ReadOf has c.disk (c.inode i).inum node dst (t f).off n op l fits in
    let rest =
      after-FileReads t c' c.disk node pid f dst m (readi has c.disk node dst (t f).off n)
        (ap (λ q. q.locked) at) (ap referenced at ∙ r) (omega (arith, few, fits))
        (omega (arith, few, small)) read in
    rw (readable, type, locked_so, fileread)
      (subst
        (λ q.
          FileReads t c.disk node f dst m
            (after_read t c' pid f (readi has c.disk q.node dst (t f).off n)))
        (sym at) rest)
