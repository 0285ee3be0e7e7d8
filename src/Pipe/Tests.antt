-- ===== src/Pipe/Tests.antt =====
-- The theorems on pipes at concrete pipes, one of them full.
use dockv6_project.Base.{refl, arith, false, [], ◌∷◌}
use dockv6_project.Pipe.{Pipe, fresh, pipewrite, piperead}
use dockv6_project.Pipe.Contents.{Holds}
use dockv6_project.Pipe.Transfer.{Writes, pipewrite-Writes, Reads, piperead-Reads}

-- The counters are about to wrap.
abbrev wrapping : Pipe
wrapping = record (fresh (λ _. 0)) { bytes = λ i. i; nread = 0xFFFF_FFFE; nwrite = 1 }

wrapping-Holds : Holds wrapping (510 ∷ 511 ∷ 0 ∷ [])
wrapping-Holds = record {
  small = omega arith;
  count = refl;
  fits = omega arith;
  window = (refl, (refl, (refl, tt)));
}

pipewrite-Writes_example :
    Writes wrapping false (510 ∷ 511 ∷ 0 ∷ []) (7 ∷ 8 ∷ []) (pipewrite wrapping false (7 ∷ 8 ∷ []))
pipewrite-Writes_example =
    pipewrite-Writes wrapping false (510 ∷ 511 ∷ 0 ∷ []) (7 ∷ 8 ∷ []) wrapping-Holds

piperead-Reads_example : Reads wrapping false 2 (510 ∷ 511 ∷ 0 ∷ []) (piperead wrapping false 2)
piperead-Reads_example = piperead-Reads wrapping false 2 (510 ∷ 511 ∷ 0 ∷ []) wrapping-Holds
