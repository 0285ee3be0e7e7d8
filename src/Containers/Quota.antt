-- ===== src/Containers/Quota.antt =====
-- The ids of containers, and the limit that `cm_maxproc` of proc.c sets.
use dockv6_project.Base.{ℕ, ◌<◌, ◌≡◌, ◌≢◌, ◌⊎◌, Option, none, some}
use dockv6_project.Kernel.{Kernel, no_id, max_num_containers}

-- Ids of containers in use have been given out already, and no two of them are the same.
pub record IdsOk (k : Kernel) : Type 0 where
  pub given :
      (c : ℕ)
      → ((k.containers c).container_id ≡ no_id) ⊎ ((k.containers c).container_id < k.nextcid)
  pub distinct :
      (c d : ℕ)
      → c ≢ d
      → (k.containers c).container_id ≡ (k.containers d).container_id
      → (k.containers c).container_id ≡ no_id

-- What the search for a container gives.
abbrev pub Enters : Kernel → ℕ → Option ℕ × Kernel → Type 0
Enters k cur (none, k') =
    ((c : ℕ) → c < max_num_containers → (k.containers c).container_id ≢ no_id)
    × (k'.containers ≡ k.containers)
Enters k cur (some c, k') =
    (c < max_num_containers)
    × ((k.containers c).container_id ≡ no_id)
    × ((d : ℕ) → d < c → (k.containers d).container_id ≢ no_id)
    × ((k'.procs cur).container ≡ some c)
    × ((k'.procs cur).container_id ≡ (k'.containers c).container_id)
    × ((d : ℕ) → c ≢ d → (k'.containers d).container_id ≢ (k'.procs cur).container_id)
