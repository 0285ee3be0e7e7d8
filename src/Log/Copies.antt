-- ===== src/Log/Copies.antt =====
-- The copy loop of log.c: which blocks it changes in memory and, up to the crash, on the disk.
use dockv6_project.Base.{
  ℕ, zero, suc, ◌+◌, ◌-◌, ◌≤◌, ◌<◌, ◌≡◌, ◌≢◌, refl, arith, ◌∙◌, ℕ_discrete, ap,
}
use dockv6_project.CString.{View}
use dockv6_project.Log.{Store, bwrite, copy_blocks}

-- The blocks that are written are different ones, and none of them is read.
pub record Apart (n i : ℕ) (dst src : ℕ → ℕ) : Type 0 where
  pub distinct : (j k : ℕ) → i ≤ j → j < i + n → i ≤ k → k < i + n → j ≢ k → dst j ≢ dst k
  pub unread : (j k : ℕ) → i ≤ j → j < i + n → i ≤ k → k < i + n → dst j ≢ src k

pub record Copied (n i : ℕ) (dst src : ℕ → ℕ) (s s' : Store) : Type 0 where
  pub left : s'.left ≡ s.left - n
  pub mem_kept : (b : ℕ) → ((j : ℕ) → i ≤ j → j < i + n → dst j ≢ b) → s'.mem b ≡ s.mem b
  pub disk_kept : (b : ℕ) → ((j : ℕ) → i ≤ j → j < i + n → dst j ≢ b) → s'.disk b ≡ s.disk b
  pub mem_new : (j : ℕ) → i ≤ j → j < i + n → s'.mem (dst j) ≡ s.mem (src j)
  pub disk_new : (j : ℕ) → i ≤ j → j < i + n → j < i + s.left → s'.disk (dst j) ≡ s.mem (src j)
  pub disk_late : (j : ℕ) → i ≤ j → j < i + n → i + s.left ≤ j → s'.disk (dst j) ≡ s.disk (dst j)

module _ (s : Store) (b : ℕ) (v : View) where
  pub mem-bwrite : (c : ℕ) → b ≢ c → (bwrite s b v).mem c ≡ s.mem c
  mem-bwrite c ne = ground arith

  pub disk-bwrite : (c : ℕ) → b ≢ c → (bwrite s b v).disk c ≡ s.disk c
  disk-bwrite c ne = ground arith

  pub mem-bwrite_same : (bwrite s b v).mem b ≡ v
  mem-bwrite_same = ground arith

  pub disk-bwrite_same : 0 < s.left → (bwrite s b v).disk b ≡ v
  disk-bwrite_same h = ground arith

  pub disk-bwrite_late : s.left ≡ 0 → (bwrite s b v).disk ≡ s.disk
  disk-bwrite_late h = ground arith

Apart-next : (n i : ℕ) (dst src : ℕ → ℕ) → Apart (suc n) i dst src → Apart n (suc i) dst src
Apart-next n i dst src a = record {
  distinct =
      λ j k l m x y ne. a.distinct j k (omega arith) (omega arith) (omega arith) (omega arith) ne;
  unread = λ j k l m x y. a.unread j k (omega arith) (omega arith) (omega arith) (omega arith);
}

-- One round of the loop, and the rest of them.
module _ (n i : ℕ) (dst src : ℕ → ℕ) (s s' : Store) (a : Apart (suc n) i dst src)
    (r : Copied n (suc i) dst src (bwrite s (dst i) (s.mem (src i))) s') where
  abbrev v : View
  v = s.mem (src i)

  later : (j : ℕ) → suc i ≤ j → j < suc i + n → dst j ≢ dst i
  later j l m = a.distinct j i (omega arith) (omega arith) (omega arith) (omega arith) (omega arith)

  unread : (j : ℕ) → i ≤ j → j < i + suc n → (bwrite s (dst i) v).mem (src j) ≡ s.mem (src j)
  unread j l m = mem-bwrite s (dst i) v (src j) (a.unread i j (omega arith) (omega arith) l m)

  Copied-next : Copied (suc n) i dst src s s'
  Copied-next = record {
    left = r.left ∙ omega arith;
    mem_kept = λ b h.
        r.mem_kept b (λ j l m. h j (omega arith) (omega arith))
        ∙ mem-bwrite s (dst i) v b (h i (omega arith) (omega arith));
    disk_kept = λ b h.
        r.disk_kept b (λ j l m. h j (omega arith) (omega arith))
        ∙ disk-bwrite s (dst i) v b (h i (omega arith) (omega arith));
    mem_new = λ j l m. elim (ℕ_discrete i j) [
      | yes e ↦ rw (← e) (r.mem_kept (dst i) later ∙ mem-bwrite_same s (dst i) v)
      | no ne ↦ r.mem_new j (omega arith) (omega arith) ∙ unread j l m
    ];
    disk_new = λ j l m x. elim (ℕ_discrete i j) [
      | yes e ↦ rw (← e) (r.disk_kept (dst i) later ∙ disk-bwrite_same s (dst i) v (omega arith))
      | no ne ↦ r.disk_new j (omega arith) (omega arith) (omega arith) ∙ unread j l m
    ];
    disk_late = λ j l m x. elim (ℕ_discrete i j) [
      | yes e ↦ rw (← e) (
          r.disk_kept (dst i) later
          ∙ ap (λ (f : ℕ → View). f (dst i)) (disk-bwrite_late s (dst i) v (omega arith)))
      | no ne ↦
          r.disk_late j (omega arith) (omega arith) (omega arith)
          ∙ disk-bwrite s (dst i) v (dst j) (a.distinct i j (omega arith) (omega arith) l m ne)
    ];
  }

-- A loop that copies between blocks that are apart copies each block as it was at the start.
pub copy_blocks-Copied :
    (n i : ℕ) (dst src : ℕ → ℕ) (s : Store)
    → Apart n i dst src
    → Copied n i dst src s (copy_blocks n i dst src s)
unfolding copy_blocks
copy_blocks-Copied zero i dst src s a = record {
  left = omega arith;
  mem_kept = λ b h. refl;
  disk_kept = λ b h. refl;
  mem_new = λ j l m. absurd (omega arith);
  disk_new = λ j l m x. absurd (omega arith);
  disk_late = λ j l m x. absurd (omega arith);
}
copy_blocks-Copied (suc n) i dst src s a =
    Copied-next n i dst src s (copy_blocks n (suc i) dst src (bwrite s (dst i) (s.mem (src i)))) a (
      copy_blocks-Copied n (suc i) dst src (bwrite s (dst i) (s.mem (src i)))
        (Apart-next n i dst src a))
