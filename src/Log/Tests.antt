-- ===== src/Log/Tests.antt =====
-- A small log that crashes, and the theorems at it.
use dockv6_project.Base.{
  ℕ, ◌*◌, ◌+◌, ◌≡◌, inr, refl, arith, [], ◌∷◌, if◌then◌else◌, ◌==◌, leb, false,
}
use dockv6_project.CString.{View}
use dockv6_project.Kalloc.{get_word}
use dockv6_project.Log.{Log, Store, commit, head_n, log_write}
use dockv6_project.Log.Settled.{settled, Home, LogOk}
use dockv6_project.Log.Recovery.{DiskOk, boot, boots, boots-recover}
use dockv6_project.Log.Atomic.{Ready, commit-boots}
use dockv6_project.Log.Transaction.{Records, log_write-Records, Room}

abbrev one_block : Log
one_block = record {
  start = 2;
  size = 31;
  outstanding = 1;
  committing = false;
  n = 1;
  block = λ _. 40;
}

one_block-LogOk : LogOk one_block
one_block-LogOk = record {
  bound = omega arith;
  fits = omega arith;
  home = λ i l. inr (omega arith);
  distinct = λ i j l m ne. absurd (ne (omega arith));
}

-- Block 40 has been changed in memory; the machine stops after the second write.
abbrev changed : Store
changed = record { mem = λ b. if b == 40 then (λ _. 7) else (λ _. 0); disk = λ _ _. 0; left = 2 }

changed-Ready : Ready one_block changed
changed-Ready = record {
  ok = one_block-LogOk;
  small = λ i l. omega arith;
  empty = refl;
  clean = λ b out. ground (arith, out 0);
}

commit-boots_example :
    let d' = boot one_block (boots one_block (commit one_block changed).1.disk (0 ∷ 1 ∷ [])) 31 in
    (head_n (d' 2) ≡ 0)
    × ((b : ℕ) → Home one_block b → d' b ≡ (if leb 2 1 then changed.disk b else changed.mem b))
commit-boots_example = commit-boots one_block changed changed-Ready (0 ∷ 1 ∷ []) 31 (omega arith)

-- A disk whose header names block 40, with its copy behind the header.
abbrev logged_disk : ℕ → View
logged_disk b =
    if b == 2
    then (λ i. if i == 0 then 1 else if i == 4 then 40 else 0)
    else if b == 3
    then (λ _. 7)
    else (λ _. 0)

logged_disk-DiskOk : DiskOk one_block logged_disk
logged_disk-DiskOk = record {
  bound = omega arith;
  fits = omega arith;
  home = λ i l. home_at i (omega arith);
  distinct = λ i j l m ne. absurd (ne (omega arith));
}
  where
    home_at : (i : ℕ) → i ≡ 0 → Home one_block (get_word (logged_disk 2) (4 * i + 4))
    home_at i e = rw e (inr (omega arith))

boots-recover_example :
    let d' = boot one_block (boots one_block logged_disk (1 ∷ [])) 31 in
    (head_n (d' 2) ≡ 0) × ((b : ℕ) → Home one_block b → d' b ≡ settled 2 logged_disk b)
boots-recover_example =
    boots-recover one_block logged_disk (1 ∷ []) 31 logged_disk-DiskOk (omega arith)

log_write-Records_example : Records one_block 41 (log_write one_block 41)
log_write-Records_example = log_write-Records one_block 41 one_block-LogOk (inr (omega arith))

nine-Room : Room one_block 9
nine-Room = record { reserved = omega arith; calls = omega arith }
