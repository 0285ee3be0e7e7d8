-- ===== src/Log/Recovery.antt =====
-- Recovery of log.c at boot, which the machine may stop and start over any number of times.
use dockv6_project.Base.{ℕ, ◌<◌, ◌≤◌, ◌≡◌, inl, inr, refl, sym, arith, ◌∙◌, List, [], ◌∷◌, lt→ltb}
use dockv6_project.CString.{View}
use dockv6_project.Log.{
  Log, Store, head_n, head_entry, read_head, install_and_clear, recover_from_log,
}
use dockv6_project.Log.Settled.{settled, Home, LogOk, OnDisk, settled_empty}
use dockv6_project.Log.Install.{settled-install_and_clear, head-install_and_clear}

-- The log that the header on a disk describes.
abbrev pub disk_log : Log → (ℕ → View) → Log
disk_log lg d = record lg { n = head_n (d lg.start); block = head_entry (d lg.start) }

abbrev pub DiskOk : Log → (ℕ → View) → Type 0
DiskOk lg d = LogOk (disk_log lg d)

-- A machine that has just been started, with nothing in its cache.
abbrev pub mounted : (ℕ → View) → ℕ → Store
mounted d c = record { mem = d; disk = d; left = c }

-- The disk behind a boot whose recovery stops after `c` writes, if it makes more.
unfoldable pub boot : Log → (ℕ → View) → ℕ → ℕ → View
boot lg d c = (recover_from_log lg (mounted d c)).1.disk

unfoldable pub boots : Log → (ℕ → View) → List ℕ → ℕ → View
boots lg d [] = d
boots lg d (c ∷ cs) = boots lg (boot lg d c) cs

pub DiskOk-empty : (lg : Log) (d : ℕ → View) → 0 < lg.size → head_n (d lg.start) ≡ 0 → DiskOk lg d
DiskOk-empty lg d some_room e = record {
  bound = omega arith;
  fits = omega arith;
  home = λ i l. absurd (omega arith);
  distinct = λ i j l m ne. absurd (omega arith);
}

pub DiskOk-same :
    (lg : Log) (d d' : ℕ → View) → d' lg.start ≡ d lg.start → DiskOk lg d → DiskOk lg d'
DiskOk-same lg d d' e ok = record {
  bound = rw e ok.bound;
  fits = rw e ok.fits;
  home = rw e ok.home;
  distinct = rw e ok.distinct;
}

pub DiskOk-on : (lg : Log) (d : ℕ → View) → OnDisk lg d → LogOk lg → DiskOk lg d
DiskOk-on lg d o ok = record {
  bound = rw o.count ok.bound;
  fits = rw o.count ok.fits;
  home = λ i l. rw (o.entry i (inside i l)) (ok.home i (inside i l));
  distinct = λ i j l m ne.
      rw (o.entry i (inside i l), o.entry j (inside j m))
        (ok.distinct i j (inside i l) (inside j m) ne);
}
  where
    inside : (i : ℕ) → i < head_n (d lg.start) → i < lg.n
    inside i l = omega (arith, o.count)

module _ (lg : Log) (d : ℕ → View) (c : ℕ) (ok : DiskOk lg d) where
  abbrev found : Log
  found = read_head lg (mounted d c)

  read : (i : ℕ) → i < found.n → found.block i ≡ head_entry (d lg.start) i
  read i l = rw (lt→ltb i (head_n (d lg.start)) l)

  found-LogOk : LogOk found
  found-LogOk = record {
    bound = ok.bound;
    fits = ok.fits;
    home = λ i l. rw (read i l) (ok.home i l);
    distinct = λ i j l m ne. rw (read i l, read j m) (ok.distinct i j l m ne);
  }

  found-OnDisk : OnDisk found d
  found-OnDisk = record { count = refl; entry = λ i l. sym (read i l) }

  pub boot-settled : (b : ℕ) → Home lg b → settled lg.start (boot lg d c) b ≡ settled lg.start d b
  unfolding boot recover_from_log
  boot-settled b h =
      settled-install_and_clear found (mounted d c) found-LogOk found-OnDisk (λ i l. refl) b h

  pub boot-DiskOk : DiskOk lg (boot lg d c)
  unfolding boot recover_from_log
  boot-DiskOk =
      elim (head-install_and_clear found (mounted d c) found-LogOk found-OnDisk (λ i l. refl)) [
        | inl e ↦
            DiskOk-empty lg (install_and_clear found (mounted d c)).disk (omega (arith, ok.bound))
              e.1
        | inr e ↦ DiskOk-same lg d (install_and_clear found (mounted d c)).disk e.1 ok
      ]

  pub boot_clears : lg.size ≤ c → head_n (boot lg d c lg.start) ≡ 0
  unfolding boot recover_from_log
  boot_clears h =
      elim (head-install_and_clear found (mounted d c) found-LogOk found-OnDisk (λ i l. refl)) [
        | inl e ↦ e.1
        | inr e ↦ absurd (omega (arith, e.0, ok.bound))
      ]

pub boots-DiskOk : (lg : Log) (d : ℕ → View) (cs : List ℕ) → DiskOk lg d → DiskOk lg (boots lg d cs)
unfolding boots
boots-DiskOk lg d [] ok = ok
boots-DiskOk lg d (c ∷ cs) ok = boots-DiskOk lg (boot lg d c) cs (boot-DiskOk lg d c ok)

pub boots-settled :
    (lg : Log) (d : ℕ → View) (cs : List ℕ) (b : ℕ)
    → DiskOk lg d
    → Home lg b
    → settled lg.start (boots lg d cs) b ≡ settled lg.start d b
unfolding boots
boots-settled lg d [] b ok h = refl
boots-settled lg d (c ∷ cs) b ok h =
    boots-settled lg (boot lg d c) cs b (boot-DiskOk lg d c ok) h ∙ boot-settled lg d c ok b h

-- On a disk whose header names different blocks outside the log, and no more than there is room for,
-- a recovery that can make its writes, after any number of boots that were stopped in the middle of
-- theirs, leaves an empty log, and every block outside the log as the first of them would have: the
-- copy in the log where the header names the block, and else the block as it was.
pub boots-recover :
    (lg : Log) (d : ℕ → View) (cs : List ℕ) (c : ℕ)
    → DiskOk lg d
    → lg.size ≤ c
    → let d' = boot lg (boots lg d cs) c in
      (head_n (d' lg.start) ≡ 0) × ((b : ℕ) → Home lg b → d' b ≡ settled lg.start d b)
boots-recover lg d cs c ok enough =
    let ok' = boots-DiskOk lg d cs ok in
    let clear = boot_clears lg (boots lg d cs) c ok' enough in
    (
      clear,
      λ b h.
          sym (settled_empty lg.start (boot lg (boots lg d cs) c) b clear)
          ∙ (boot-settled lg (boots lg d cs) c ok' b h ∙ boots-settled lg d cs b ok h),
    )
