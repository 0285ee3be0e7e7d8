-- ===== src/Lifecycle/States.antt =====
-- Every step moves each process along the life of a process, and no other way.
use dockv6_project.Base.{
  ℕ, zero, suc, ◌≡◌, ◌≢◌, ◌⊎◌, inl, inr, refl, sym, arith, Option, none, some, true, ℕ_discrete,
  Bool-cases, ◌∙◌, ap, ltb, ◌&&◌, same_ptr, subst,
}
use dockv6_project.Kernel.{
  Kernel, Proc, ProcState, unused, embryo, sleeping, runnable, running, zombie, Chan, on_proc,
  set_proc, is_unused, is_sleeping, is_runnable, is_zombie, same_chan, nproc_max,
}
use dockv6_project.Process.{
  allocproc, set_state, dispatch, yield, sleep_on, resume, wakeup1, exit_table, reparent,
  reparent_one, reaped, chan_of,
}
use dockv6_project.Process.Family.{WaitEnds, wait_round-WaitEnds}
use dockv6_project.Process.Alloc.{Allocs, allocproc-Allocs}
use dockv6_project.Mutex.{kill_entry}
use dockv6_project.Mutex.Kills.{procs-kill_entry}
use dockv6_project.Lifecycle.{
  may_follow, InState, Step, give_up, allocates, gives_up, readies, dispatches, yields,
  goes_to_sleep, resumes, wakes, exits, reaps, kills,
}

may_stay : (s : ProcState) → may_follow s s ≡ true
may_stay unused = refl
may_stay embryo = refl
may_stay sleeping = refl
may_stay runnable = refl
may_stay running = refl
may_stay zombie = refl

may_stay_at : {s t : ProcState} → t ≡ s → may_follow s t ≡ true
may_stay_at {s} e = rw e (may_stay s)

abbrev pub Follows : Kernel → Kernel → Type 0
Follows k k' = (i : ℕ) → may_follow (k.procs i).state (k'.procs i).state ≡ true

-- A state is as before, or a sleeper was woken.
abbrev Woke : ProcState → ProcState → Type 0
Woke s t = (t ≡ s) ⊎ ((s ≡ sleeping) × (t ≡ runnable))

apart_states : runnable ≢ sleeping
apart_states e = cc

Woke-trans : {r s t : ProcState} → Woke r s → Woke s t → Woke r t
Woke-trans (inl e) (inl f) = inl (f ∙ e)
Woke-trans (inl e) (inr f) = inr (sym e ∙ f.0, f.1)
Woke-trans (inr e) (inl f) = inr (e.0, f ∙ e.1)
Woke-trans (inr e) (inr f) = absurd (apart_states (sym e.1 ∙ f.0))

Woke-Follows : {s t : ProcState} → Woke s t → may_follow s t ≡ true
Woke-Follows (inl e) = may_stay_at e
Woke-Follows (inr e) = rw (e.0, e.1)

Woke-wakeup1 :
    (k : Kernel) (c : Chan) (i : ℕ) → Woke (k.procs i).state ((wakeup1 k c).procs i).state
unfolding wakeup1
Woke-wakeup1 k c i =
    elim (Bool-cases
      (ltb i nproc_max && (is_sleeping (k.procs i).state && same_chan (k.procs i).chan c))) [
        | inl t ↦ inr (sleeps (k.procs i).state (ground arith), ground arith)
        | inr f ↦ inl (ground arith)
      ]
  where
    sleeps : (s : ProcState) → is_sleeping s ≡ true → s ≡ sleeping
    sleeps sleeping h = refl
    sleeps _ h = cc

Woke-reparent_one :
    (k : Kernel) (cur i j : ℕ) → Woke (k.procs j).state ((reparent_one k cur i).procs j).state
unfolding reparent_one
Woke-reparent_one k cur i j = elim (Bool-cases (same_ptr (k.procs i).parent (some cur))) [
  | inr f ↦ rw (f, reparent_one) (inl refl)
  | inl t ↦
      let k1 = set_proc k i (record (k.procs i) { parent = some k.initproc }) in
      let same : (k1.procs j).state ≡ (k.procs j).state = ground arith in
      elim (Bool-cases (is_zombie (k.procs i).state)) [
        | inr f ↦ rw (t, f, reparent_one) (inl same)
        | inl z ↦
            rw (t, z, reparent_one) (Woke-trans (inl same) (Woke-wakeup1 k1 (on_proc k.initproc) j))
      ]
]

Woke-reparent :
    (n i : ℕ) (k : Kernel) (cur j : ℕ) → Woke (k.procs j).state ((reparent n i k cur).procs j).state
unfolding reparent
Woke-reparent zero i k cur j = inl refl
Woke-reparent (suc n) i k cur j =
    Woke-trans (Woke-reparent_one k cur i j) (Woke-reparent n (suc i) (reparent_one k cur i) cur j)

exit-Follows : (k : Kernel) (cur : ℕ) → InState k cur running → Follows k (exit_table k cur)
unfolding exit_table
exit-Follows k cur run j = elim (ℕ_discrete cur j) [
  | yes e ↦ ground arith
  | no ne ↦
      let k1 = wakeup1 k (chan_of (k.procs cur).parent) in
      let woke =
        Woke-trans (Woke-wakeup1 k (chan_of (k.procs cur).parent) j)
          (Woke-reparent nproc_max 0 k1 cur j) in
      ground (arith, Woke-Follows woke)
]

alloc-Follows : (k : Kernel) (r : Option ℕ × Kernel) → Allocs k r → Follows k r.1
alloc-Follows k (some i, k') a j =
    ground
      (arith, a.state j, unused_of (k.procs i).state a.first.passes, may_stay (k.procs j).state)
  where
    unused_of : (s : ProcState) → is_unused s ≡ true → s ≡ unused
    unused_of unused h = refl
    unused_of _ h = cc
alloc-Follows k (none, k') (inl (_, e)) j = may_stay_at (ap (λ (x : Kernel). (x.procs j).state) e)
alloc-Follows k (none, k') (inr (i, a)) j =
    ground
      (arith, a.state j, unused_of (k.procs i).state a.first.passes, may_stay (k.procs j).state)
  where
    unused_of : (s : ProcState) → is_unused s ≡ true → s ≡ unused
    unused_of unused h = refl
    unused_of _ h = cc

reaped_entry :
    (k : Kernel) (cur pid : ℕ) (k' : Kernel) → WaitEnds k cur (reaped pid k') → Follows k k'
reaped_entry k cur pid k' (j, l, c, z, p, entry, rest, next) i = elim (ℕ_discrete i j) [
  | yes e ↦
      let now : (k'.procs j).state ≡ unused = ap (λ (x : Proc). x.state) entry in rw (e, z, now)
  | no ne ↦ may_stay_at (ap (λ (x : Proc). x.state) (rest i ne))
]

runnable_of : (s : ProcState) → is_runnable s ≡ true → s ≡ runnable
runnable_of runnable h = refl
runnable_of _ h = cc

dispatch-Follows : (k k' : Kernel) (i : ℕ) → dispatch k i ≡ some k' → Follows k k'
unfolding dispatch
dispatch-Follows k k' i e j = elim (Bool-cases (is_runnable (k.procs i).state)) [
  | inr f ↦ absurd (ground arith)
  | inl t ↦
      let now : set_state k i running ≡ k' = ground arith in
      let was = runnable_of (k.procs i).state t in
      rw (← now) (ground (arith, was, may_stay (k.procs j).state))
]

kill-Follows : (k : Kernel) (i : ℕ) → Follows k (kill_entry k i)
kill-Follows k i j =
    ground (arith, ap (λ (x : Proc). x.state) (procs-kill_entry k i j), may_stay (k.procs j).state)

-- In every step each process keeps its state or goes on to a state that may follow it: a process
-- becomes an embryo only from unused, runs only from runnable, sleeps and ends only from running,
-- and its entry is free again only once it is a zombie or when its set-up fails.
pub Step-Follows : {k k' : Kernel} → Step k k' → Follows k k'
Step-Follows (allocates k n) i = alloc-Follows k (allocproc k n) (allocproc-Allocs k n) i
Step-Follows (gives_up k i m e) j = unfold give_up in ground arith
Step-Follows (readies k i e) j = ground arith
Step-Follows (dispatches {k} {k'} i e) j = dispatch-Follows k k' i e j
Step-Follows (yields k i e) j = unfold yield in ground arith
Step-Follows (goes_to_sleep k i c e) j = unfold sleep_on in ground arith
Step-Follows (resumes k i e) j = unfold resume in ground arith
Step-Follows (wakes k c) j = Woke-Follows (Woke-wakeup1 k c j)
Step-Follows (exits k i e) j = exit-Follows k i e j
Step-Follows (reaps {k} {k'} kernel_end freevm cur pid e) j =
    reaped_entry k cur pid k'
      (subst (λ w. WaitEnds k cur w) e (wait_round-WaitEnds kernel_end freevm k cur)) j
Step-Follows (kills k i) j = kill-Follows k i j
