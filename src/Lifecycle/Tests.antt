-- ===== src/Lifecycle/Tests.antt =====
-- A run of the kernel from its start, and the theorems on it.
use dockv6_project.Base.{refl, false}
use dockv6_project.Kalloc.{Kmem}
use dockv6_project.Kernel.{Kernel, runnable, running}
use dockv6_project.Process.{allocproc, set_state, yield}
use dockv6_project.Lifecycle.{yields}
use dockv6_project.Lifecycle.States.{Follows, Step-Follows}
use dockv6_project.Lifecycle.Pids.{booted}

abbrev pages : Kmem
pages = record { memory = λ _. 0; use_lock = false; freelist = 0x8040_0000 }

abbrev first : Kernel
first = (allocproc (booted pages) 0).1

abbrev ready : Kernel
ready = set_state first 0 runnable

abbrev started : Kernel
started = set_state ready 0 running

Step-Follows_example : Follows started (yield started 0)
Step-Follows_example = Step-Follows (yields started 0 refl)
