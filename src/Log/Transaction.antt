-- ===== src/Log/Transaction.antt =====
-- `begin_op`, `log_write` and `end_op` of log.c: what they note in the header in memory, and the
-- room that `begin_op` reserves.
use dockv6_project.Base.{
  ℕ, ◌+◌, ◌-◌, ◌*◌, ◌<◌, ◌≤◌, ◌≡◌, ◌≢◌, ◌⊎◌, inl, inr, arith, Option, none, some, ◌==◌, ==_iff,
  true, false, Bool-cases, find_first_cases, leb, ltb, ◌||◌, update, ℕ_discrete, if◌then◌else◌,
}
use dockv6_project.Log.{Log, begin_op, entry_for, log_write, logsize, maxopblocks}
use dockv6_project.Log.Settled.{Home, LogOk}

-- Where the loop stops.
record Entry (lg : Log) (b i : ℕ) : Type 0 where
  inside : i ≤ lg.n
  known : i < lg.n → lg.block i ≡ b
  fresh : i ≡ lg.n → (j : ℕ) → j < lg.n → lg.block j ≢ b

entry_for-Entry : (lg : Log) (b : ℕ) → Entry lg b (entry_for lg b)
unfolding entry_for
entry_for-Entry lg b = elim (find_first_cases lg.n 0 (λ i. lg.block i == b)) [
  | inl (e, clear) ↦
      rw (e, entry_for)
        (record {
          inside = omega arith;
          known = λ l. absurd (omega arith);
          fresh = λ _ j l same. ground (arith, clear j, ==_iff (lg.block j) b);
        })
  | inr (i, e, at) ↦
      rw (e, entry_for)
        (record {
          inside = omega (arith, at.below);
          known = λ l. (==_iff (lg.block i) b).0 at.passes;
          fresh = λ same j l. absurd (omega (arith, at.below));
        })
]

-- The header behind a `log_write` of block `b`.
pub record Recorded (lg lg' : Log) (b : ℕ) : Type 0 where
  pub ok : LogOk lg'
  pub there : (i : ℕ) × (i < lg'.n) × (lg'.block i ≡ b)
  pub kept : (i : ℕ) → i < lg.n → lg'.block i ≡ lg.block i
  pub grows : (lg'.n ≡ lg.n) ⊎ (lg'.n ≡ lg.n + 1)

abbrev pub Records : Log → ℕ → Option Log → Type 0
Records lg b none = (logsize ≤ lg.n) ⊎ ((lg.size ≤ lg.n + 1) ⊎ (lg.outstanding ≡ 0))
Records lg b (some lg') = Recorded lg lg' b

abbrev noted : Log → ℕ → ℕ → Log
noted lg b i = record lg { block = update lg.block i b; n = if i == lg.n then lg.n + 1 else lg.n }

module _ (lg : Log) (b i : ℕ) (e : Entry lg b i) (ok : LogOk lg) (h : Home lg b)
    (room : lg.n < logsize) (room' : lg.n + 1 < lg.size) where
  noted-Recorded : Recorded lg (noted lg b i) b
  noted-Recorded = record {
    ok = record {
      bound = ground arith;
      fits = ground arith;
      home = λ j l. ground (arith, ok.home j, h, e.inside);
      distinct = λ j k l m ne. elim (ℕ_discrete i lg.n) [
        | yes last ↦ ground (arith, ok.distinct j k, e.fresh last j, e.fresh last k)
        | no old ↦ ground (arith, ok.distinct j k, e.known, e.inside)
      ];
    };
    there = (i, ground (arith, e.inside), ground arith);
    kept = λ j l. ground (arith, e.known);
    grows = ground arith;
  }

-- `log_write(b)` of a block outside the log notes the block in the header, once, keeps the blocks
-- that are there, and takes one more entry at most; it panics only where LOGSIZE blocks are in the
-- header, where there is no room behind them in the log, or outside of a transaction.
pub log_write-Records : (lg : Log) (b : ℕ) → LogOk lg → Home lg b → Records lg b (log_write lg b)
unfolding log_write
log_write-Records lg b ok h = elim (Bool-cases (leb logsize lg.n || leb lg.size (lg.n + 1))) [
  | inl t ↦ rw (t, log_write) (ground arith)
  | inr f ↦ elim (Bool-cases (ltb lg.outstanding 1)) [
    | inl t ↦ rw (f, t, log_write) (ground arith)
    | inr f' ↦
        rw (f, f', log_write)
          (noted-Recorded lg b (entry_for lg b) (entry_for-Entry lg b) ok h (ground arith)
            (ground arith))
  ]
]

-- The calls in progress may still write `t` blocks.
pub record Room (lg : Log) (t : ℕ) : Type 0 where
  pub reserved : lg.n + t ≤ logsize
  pub calls : t ≤ lg.outstanding * maxopblocks

-- In a log with room for LOGSIZE blocks behind its header, calls that write at most MAXOPBLOCKS
-- blocks each never make `log_write` panic: a call that `begin_op` lets through may write that many
-- more, and as long as there is a block that may still be written, `log_write` notes one and leaves
-- room for the rest.
pub log_write-Room :
    (lg : Log) (t : ℕ)
    → logsize < lg.size
    → Room lg t
    → ((begin_op lg).0 ≡ true → Room (begin_op lg).1 (t + maxopblocks))
      × ((b : ℕ) → 0 < t → (lg' : Log) × (log_write lg b ≡ some lg') × Room lg' (t - 1))
unfolding begin_op log_write
log_write-Room lg t big r = (
  λ e. record { reserved = ground (arith, r.reserved, r.calls); calls = ground (arith, r.calls) },
  λ b some_left.
      let go : leb logsize lg.n || leb lg.size (lg.n + 1) ≡ false = ground (arith, r.reserved) in
      let in_call : ltb lg.outstanding 1 ≡ false = ground (arith, r.calls) in
      (
        noted lg b (entry_for lg b),
        rw (go, in_call, log_write),
        record { reserved = ground (arith, r.reserved); calls = ground (arith, r.calls) },
      ),
)
