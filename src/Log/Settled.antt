-- ===== src/Log/Settled.antt =====
-- What a disk with the log of log.c on it holds: the blocks as a recovery would leave them.
use dockv6_project.Base.{
  ap, ℕ, ◌+◌, ◌≤◌, ◌<◌, ◌≡◌, ◌≢◌, ◌⊎◌, inl, inr, sym, arith, ◌∙◌, ◌==◌, none, some, find_first,
  find_first_cases, ==_iff, ℕ_discrete,
}
use dockv6_project.CString.{View}
use dockv6_project.Log.{Log, head_n, head_entry, logsize, log_block}

-- Block `b` as a recovery leaves it: the copy in the log if the header names the block.
unfoldable pub settled : ℕ → (ℕ → View) → ℕ → View
settled start d b = elim (find_first (head_n (d start)) 0 (λ i. head_entry (d start) i == b)) [
  | none ↦ d b
  | some i ↦ d (start + i + 1)
]

-- The block is outside the log's area.
abbrev pub Home : Log → ℕ → Type 0
Home lg b = (b < lg.start) ⊎ (lg.start + lg.size ≤ b)

-- The header in memory: at most LOGSIZE blocks and no more than there is room for behind the header,
-- all outside the log, each once.
pub record LogOk (lg : Log) : Type 0 where
  pub bound : lg.n < lg.size
  pub fits : lg.n ≤ logsize
  pub home : (i : ℕ) → i < lg.n → Home lg (lg.block i)
  pub distinct : (i j : ℕ) → i < lg.n → j < lg.n → i ≢ j → lg.block i ≢ lg.block j

-- The header on the disk is the one in memory.
pub record OnDisk (lg : Log) (d : ℕ → View) : Type 0 where
  pub count : head_n (d lg.start) ≡ lg.n
  pub entry : (i : ℕ) → i < lg.n → head_entry (d lg.start) i ≡ lg.block i

pub Logged-cases :
    (lg : Log) (b : ℕ)
    → ((i : ℕ) × (i < lg.n) × (lg.block i ≡ b)) ⊎ ((i : ℕ) → i < lg.n → lg.block i ≢ b)
Logged-cases lg b = elim (find_first_cases lg.n 0 (λ i. lg.block i == b)) [
  | inl (e, clear) ↦ inr (λ i l same. ground (arith, clear i, ==_iff (lg.block i) b))
  | inr (i, e, at) ↦ inl (i, omega (arith, at.below), (==_iff (lg.block i) b).0 at.passes)
]

module _ (lg : Log) (d : ℕ → View) (o : OnDisk lg d) where
  pub settled_hit :
      LogOk lg → (i : ℕ) → i < lg.n → settled lg.start d (lg.block i) ≡ d (log_block lg i)
  unfolding settled
  settled_hit ok i l =
      elim (find_first_cases (head_n (d lg.start)) 0
        (λ j. head_entry (d lg.start) j == lg.block i)) [
          | inl (e, clear) ↦ absurd (
              cc (
                clear i (omega arith) (omega (arith, o.count)),
                (==_iff (head_entry (d lg.start) i) (lg.block i)).1 (o.entry i l),
              ))
          | inr (j, e, at) ↦
              let lj : j < lg.n = omega (arith, at.below, o.count) in
              let named =
                sym (o.entry j lj)
                ∙ (==_iff (head_entry (d lg.start) j) (lg.block i)).0 at.passes in
              elim (ℕ_discrete j i) [
                | yes same ↦ rw (e, settled) (ap (λ x. d (lg.start + x + 1)) same)
                | no ne ↦ absurd (ok.distinct j i lj l ne named)
              ]
        ]

  pub settled_miss : (b : ℕ) → ((i : ℕ) → i < lg.n → lg.block i ≢ b) → settled lg.start d b ≡ d b
  unfolding settled
  settled_miss b out =
      elim (find_first_cases (head_n (d lg.start)) 0 (λ j. head_entry (d lg.start) j == b)) [
        | inl (e, clear) ↦ rw (e, settled)
        | inr (j, e, at) ↦
            let lj : j < lg.n = omega (arith, at.below, o.count) in
            absurd
              (out j lj (sym (o.entry j lj) ∙ (==_iff (head_entry (d lg.start) j) b).0 at.passes))
      ]

-- With an empty header every block is settled.
pub settled_empty :
    (start : ℕ) (d : ℕ → View) (b : ℕ) → head_n (d start) ≡ 0 → settled start d b ≡ d b
unfolding settled find_first
settled_empty start d b e = rw (e, settled, find_first)
