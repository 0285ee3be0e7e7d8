-- ===== src/Log/Install.antt =====
-- How `commit` and `recover_from_log` of log.c end, and what is on the disk if the machine stops
-- at one of their writes.
use dockv6_project.Base.{ℕ, ◌+◌, ◌≤◌, ◌<◌, ◌≡◌, ◌≢◌, ◌⊎◌, inl, inr, sym, arith, ◌∙◌, ap, dec_lt}
use dockv6_project.CString.{View}
use dockv6_project.Log.{Log, Store, install_trans, head_block, head_n, install_and_clear, log_block}
use dockv6_project.Log.Header.{n-head_block}
use dockv6_project.Log.Copies.{
  Apart, Copied, copy_blocks-Copied, disk-bwrite, disk-bwrite_same, disk-bwrite_late,
}
use dockv6_project.Log.Settled.{
  settled, Home, LogOk, OnDisk, Logged-cases, settled_hit, settled_miss, settled_empty,
}

-- `install_trans` and the empty header, on a store whose log is on the disk and read from it.
module _ (lg : Log) (s : Store) (ok : LogOk lg) (o : OnDisk lg s.disk)
    (same : (i : ℕ) → i < lg.n → s.mem (log_block lg i) ≡ s.disk (log_block lg i)) where
  abbrev s1 : Store
  s1 = install_trans lg s

  install-Apart : Apart lg.n 0 lg.block (log_block lg)
  install-Apart = record {
    distinct = λ j k l m x y ne. ok.distinct j k (omega arith) (omega arith) ne;
    unread = λ j k l m x y e. absurd (omega (arith, ok.home j (omega arith), ok.bound));
  }

  c1 : Copied lg.n 0 lg.block (log_block lg) s s1
  c1 = copy_blocks-Copied lg.n 0 lg.block (log_block lg) s install-Apart

  log_kept : (b : ℕ) → lg.start ≤ b → b < lg.start + lg.size → s1.disk b ≡ s.disk b
  log_kept b lo hi = c1.disk_kept b (λ j l m e. absurd (omega (arith, ok.home j (omega arith))))

  header_kept : s1.disk lg.start ≡ s.disk lg.start
  header_kept = log_kept lg.start (omega arith) (omega (arith, ok.bound))

  on_disk1 : OnDisk lg s1.disk
  on_disk1 = record { count = rw header_kept o.count; entry = λ i l. rw header_kept (o.entry i l) }

  settled1 : (b : ℕ) → settled lg.start s1.disk b ≡ settled lg.start s.disk b
  settled1 b = elim (Logged-cases lg b) [
    | inl (i, l, e) ↦ rw (← e) (
        settled_hit lg s1.disk on_disk1 ok i l
        ∙ (log_kept (log_block lg i) (omega arith) (omega (arith, ok.bound))
            ∙ sym (settled_hit lg s.disk o ok i l)))
    | inr out ↦
        settled_miss lg s1.disk on_disk1 b out
        ∙ (c1.disk_kept b (λ j l m. out j (omega arith)) ∙ sym (settled_miss lg s.disk o b out))
  ]

  -- Once all blocks are installed.
  installed : (b : ℕ) → lg.n < s.left → s1.disk b ≡ settled lg.start s.disk b
  installed b enough = elim (Logged-cases lg b) [
    | inl (i, l, e) ↦ rw (← e) (
        c1.disk_new i (omega arith) (omega arith) (omega arith)
        ∙ (same i l ∙ sym (settled_hit lg s.disk o ok i l)))
    | inr out ↦ c1.disk_kept b (λ j l m. out j (omega arith)) ∙ sym (settled_miss lg s.disk o b out)
  ]

  abbrev s2 : Store
  s2 = install_and_clear lg s

  cut_off : s.left ≤ lg.n → s2.disk ≡ s1.disk
  unfolding install_and_clear
  cut_off h =
      disk-bwrite_late s1 lg.start (head_block 0 lg.block (s1.mem lg.start))
        (omega (arith, c1.left))

  cleared_head : lg.n < s.left → head_n (s2.disk lg.start) ≡ 0
  unfolding install_and_clear
  cleared_head h =
      ap (λ (v : View). head_n v)
        (disk-bwrite_same s1 lg.start (head_block 0 lg.block (s1.mem lg.start))
          (omega (arith, c1.left)))
      ∙ n-head_block 0 lg.block (s1.mem lg.start) (omega arith)

  outside_head : (b : ℕ) → lg.start ≢ b → s2.disk b ≡ s1.disk b
  unfolding install_and_clear
  outside_head b ne = disk-bwrite s1 lg.start (head_block 0 lg.block (s1.mem lg.start)) b ne

  -- Wherever the writes stop, a later recovery gives the same blocks.
  pub settled-install_and_clear :
      (b : ℕ) → Home lg b → settled lg.start s2.disk b ≡ settled lg.start s.disk b
  settled-install_and_clear b h = elim (dec_lt lg.n s.left) [
    | no late ↦ ap (λ (d : ℕ → View). settled lg.start d b) (cut_off (omega arith)) ∙ settled1 b
    | yes enough ↦
        settled_empty lg.start s2.disk b (cleared_head enough)
        ∙ (outside_head b (omega arith) ∙ installed b enough)
  ]

  -- The header is empty in the end, or the writes stopped before and it is as it was.
  pub head-install_and_clear :
      ((lg.n < s.left) × (head_n (s2.disk lg.start) ≡ 0))
      ⊎ ((s.left ≤ lg.n) × (s2.disk lg.start ≡ s.disk lg.start))
  head-install_and_clear = elim (dec_lt lg.n s.left) [
    | yes enough ↦ inl (enough, cleared_head enough)
    | no late ↦
        inr (omega arith, ap (λ (d : ℕ → View). d lg.start) (cut_off (omega arith)) ∙ header_kept)
  ]
