-- ===== src/Log/Atomic.antt =====
-- A commit of log.c takes effect as a whole or not at all, wherever the machine stops.
use dockv6_project.Base.{
  ℕ, zero, suc, ◌^◌, ◌<◌, ◌≤◌, ◌≡◌, ◌≢◌, inl, inr, refl, sym, arith, ◌∙◌, ap, dec_lt, List,
  if◌then◌else◌, leb, ◌==◌, Bool-cases,
}
use dockv6_project.CString.{View}
use dockv6_project.Log.{
  Log, Store, bwrite, copy_blocks, write_log, write_head, head_block, head_n, install_and_clear,
  commit, log_block,
}
use dockv6_project.Log.Header.{n-head_block, entry-head_block}
use dockv6_project.Log.Copies.{
  Apart, Copied, copy_blocks-Copied, mem-bwrite, disk-bwrite, disk-bwrite_same, disk-bwrite_late,
}
use dockv6_project.Log.Settled.{
  settled, Home, LogOk, OnDisk, Logged-cases, settled_hit, settled_miss, settled_empty,
}
use dockv6_project.Log.Install.{settled-install_and_clear, head-install_and_clear}
use dockv6_project.Log.Recovery.{
  DiskOk, DiskOk-empty, DiskOk-same, DiskOk-on, boot, boots, boots-recover,
}

-- A store before a commit: the log on the disk is empty, every block that is not logged is on the
-- disk as it is in memory, and the numbers of the logged blocks fit in a word.
pub record Ready (lg : Log) (s : Store) : Type 0 where
  pub ok : LogOk lg
  pub small : (i : ℕ) → i < lg.n → lg.block i < 2 ^ 32
  pub empty : head_n (s.disk lg.start) ≡ 0
  pub clean : (b : ℕ) → ((i : ℕ) → i < lg.n → lg.block i ≢ b) → s.mem b ≡ s.disk b

copy_blocks_late :
    (n i : ℕ) (dst src : ℕ → ℕ) (s : Store) → s.left ≡ 0 → (copy_blocks n i dst src s).disk ≡ s.disk
unfolding copy_blocks
copy_blocks_late zero i dst src s h = refl
copy_blocks_late (suc n) i dst src s h =
    copy_blocks_late n (suc i) dst src (bwrite s (dst i) (s.mem (src i))) (omega arith)
    ∙ disk-bwrite_late s (dst i) (s.mem (src i)) h

left-copy_blocks_late :
    (n i : ℕ) (dst src : ℕ → ℕ) (s : Store) → s.left ≡ 0 → (copy_blocks n i dst src s).left ≡ 0
unfolding copy_blocks
left-copy_blocks_late zero i dst src s h = h
left-copy_blocks_late (suc n) i dst src s h =
    left-copy_blocks_late n (suc i) dst src (bwrite s (dst i) (s.mem (src i))) (omega arith)

install_late : (lg : Log) (s : Store) → s.left ≡ 0 → (install_and_clear lg s).disk ≡ s.disk
unfolding install_and_clear
install_late lg s h =
    let s1 = copy_blocks lg.n 0 lg.block (log_block lg) s in
    disk-bwrite_late s1 lg.start (head_block 0 lg.block (s1.mem lg.start))
      (left-copy_blocks_late lg.n 0 lg.block (log_block lg) s h)
    ∙ copy_blocks_late lg.n 0 lg.block (log_block lg) s h

module _ (lg : Log) (s : Store) (r : Ready lg s) where
  abbrev w1 : Store
  w1 = write_log lg s

  abbrev w2 : Store
  w2 = write_head lg w1

  abbrev s3 : Store
  s3 = install_and_clear lg w2

  log-Apart : Apart lg.n 0 (log_block lg) lg.block
  log-Apart = record {
    distinct = λ j k l m x y ne e. ne (omega arith);
    unread = λ j k l m x y e. absurd (omega (arith, r.ok.home k (omega arith), r.ok.bound));
  }

  c1 : Copied lg.n 0 (log_block lg) lg.block s w1
  c1 = copy_blocks-Copied lg.n 0 (log_block lg) lg.block s log-Apart

  Home-kept : (b : ℕ) → Home lg b → w1.disk b ≡ s.disk b
  Home-kept b h = c1.disk_kept b (λ j l m e. absurd (omega (arith, r.ok.bound)))

  header_kept : w1.disk lg.start ≡ s.disk lg.start
  header_kept = c1.disk_kept lg.start (λ j l m e. absurd (omega arith))

  -- The writes stop before the header is written.
  module _ (late : s.left ≤ lg.n) where
    unchanged : s3.disk ≡ w1.disk
    unchanged =
        install_late lg w2 (omega (arith, c1.left))
        ∙ disk-bwrite_late w1 lg.start (head_block lg.n lg.block (w1.mem lg.start))
            (omega (arith, c1.left))

    old_head : s3.disk lg.start ≡ s.disk lg.start
    old_head = ap (λ (d : ℕ → View). d lg.start) unchanged ∙ header_kept

    old_blocks : (b : ℕ) → Home lg b → settled lg.start s3.disk b ≡ s.disk b
    old_blocks b h =
        settled_empty lg.start s3.disk b (ap (λ (v : View). head_n v) old_head ∙ r.empty)
        ∙ (ap (λ (d : ℕ → View). d b) unchanged ∙ Home-kept b h)

  -- The header has been written.
  module _ (reached : lg.n < s.left) where
    new_head : w2.disk lg.start ≡ head_block lg.n lg.block (w1.mem lg.start)
    new_head =
        disk-bwrite_same w1 lg.start (head_block lg.n lg.block (w1.mem lg.start))
          (omega (arith, c1.left))

    new-OnDisk : OnDisk lg w2.disk
    new-OnDisk = record {
      count = rw new_head (n-head_block lg.n lg.block (w1.mem lg.start) (omega (arith, r.ok.fits)));
      entry = λ i l. rw new_head (entry-head_block lg.n lg.block (w1.mem lg.start) i r.small l);
    }

    copy_on_disk : (i : ℕ) → i < lg.n → w2.disk (log_block lg i) ≡ s.mem (lg.block i)
    copy_on_disk i l =
        disk-bwrite w1 lg.start (head_block lg.n lg.block (w1.mem lg.start)) (log_block lg i)
          (omega arith)
        ∙ c1.disk_new i (omega arith) (omega arith) (omega arith)

    copy_in_mem : (i : ℕ) → i < lg.n → w2.mem (log_block lg i) ≡ s.mem (lg.block i)
    copy_in_mem i l =
        mem-bwrite w1 lg.start (head_block lg.n lg.block (w1.mem lg.start)) (log_block lg i)
          (omega arith)
        ∙ c1.mem_new i (omega arith) (omega arith)

    same : (i : ℕ) → i < lg.n → w2.mem (log_block lg i) ≡ w2.disk (log_block lg i)
    same i l = copy_in_mem i l ∙ sym (copy_on_disk i l)

    logged : (b : ℕ) → Home lg b → settled lg.start w2.disk b ≡ s.mem b
    logged b h = elim (Logged-cases lg b) [
      | inl (i, l, e) ↦ rw (← e) (settled_hit lg w2.disk new-OnDisk r.ok i l ∙ copy_on_disk i l)
      | inr out ↦
          settled_miss lg w2.disk new-OnDisk b out
          ∙ (disk-bwrite w1 lg.start (head_block lg.n lg.block (w1.mem lg.start)) b (omega arith)
              ∙ (Home-kept b h ∙ sym (r.clean b out)))
    ]

    new_blocks : (b : ℕ) → Home lg b → settled lg.start s3.disk b ≡ s.mem b
    new_blocks b h = settled-install_and_clear lg w2 r.ok new-OnDisk same b h ∙ logged b h

    new-DiskOk : DiskOk lg s3.disk
    new-DiskOk = elim (head-install_and_clear lg w2 r.ok new-OnDisk same) [
      | inl e ↦ DiskOk-empty lg s3.disk (omega (arith, r.ok.bound)) e.1
      | inr e ↦ DiskOk-same lg w2.disk s3.disk e.1 (DiskOk-on lg w2.disk new-OnDisk r.ok)
    ]

  -- What the disk of a machine that stopped in `commit`, or behind it, will be once recovered.
  pub commit-settled :
      (b : ℕ)
      → Home lg b
      → settled lg.start (commit lg s).1.disk b ≡ (if leb s.left lg.n then s.disk b else s.mem b)
  unfolding commit
  commit-settled b h = elim (Bool-cases (lg.n == 0)) [
    | inl t ↦
        rw (t, commit)
          (settled_empty lg.start s.disk b r.empty
            ∙ ground (arith, r.clean b (λ i l e. absurd (ground arith))))
    | inr f ↦
        rw (f, commit)
          (elim (dec_lt lg.n s.left) [
            | yes reached ↦ new_blocks reached b h ∙ ground arith
            | no late ↦ old_blocks (omega arith) b h ∙ ground arith
          ])
  ]

  pub commit-DiskOk : DiskOk lg (commit lg s).1.disk
  unfolding commit
  commit-DiskOk = elim (Bool-cases (lg.n == 0)) [
    | inl t ↦ rw (t, commit) (DiskOk-empty lg s.disk (omega (arith, r.ok.bound)) r.empty)
    | inr f ↦
        rw (f, commit)
          (elim (dec_lt lg.n s.left) [
            | yes reached ↦ new-DiskOk reached
            | no late ↦
                DiskOk-empty lg s3.disk (omega (arith, r.ok.bound))
                  (ap (λ (v : View). head_n v) (old_head (omega arith)) ∙ r.empty)
          ])
  ]

  -- A commit is all or nothing, where the log on the disk was empty and every block that is not in
  -- the log is on the disk as it is in memory. If the machine stops after any number of the writes of
  -- `commit`, and after any number of boots that stop again in their recovery one recovery comes to
  -- its end, then every block outside the log is as it was on the disk before, where the header had
  -- not been written, and as it was in memory, where it had; and the log is empty.
  pub commit-boots :
      (cs : List ℕ) (c : ℕ)
      → lg.size ≤ c
      → let d' = boot lg (boots lg (commit lg s).1.disk cs) c in
        (head_n (d' lg.start) ≡ 0)
        × ((b : ℕ) → Home lg b → d' b ≡ (if leb s.left lg.n then s.disk b else s.mem b))
  commit-boots cs c enough =
      let done = boots-recover lg (commit lg s).1.disk cs c commit-DiskOk enough in
      (done.0, λ b h. done.1 b h ∙ commit-settled b h)
