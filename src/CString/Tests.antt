-- ===== src/CString/Tests.antt =====
-- Runs of the routines of string.c.
use dockv6_project.Base.{ℕ, ◌≡◌, refl, List, [], ◌∷◌}
use dockv6_project.Base.Int.{pos}
use dockv6_project.CString.{bytes, strncmp}

abbrev mux1 : List ℕ
mux1 = b'm' ∷ b'u' ∷ b'x' ∷ b'1' ∷ []

abbrev mux : List ℕ
mux = b'm' ∷ b'u' ∷ b'x' ∷ []

-- The comparison that the mutex and shared memory calls make is one of prefixes.
prefix_matches : strncmp (bytes mux) (bytes mux1) 3 ≡ pos 0
unfolding strncmp
prefix_matches = refl

longer_differs : strncmp (bytes mux1) (bytes mux) 4 ≡ pos 49
unfolding strncmp
longer_differs = refl
