-- ===== src/UserLib/Tests.antt =====
-- The theorem on numerals at a concrete number.
use dockv6_project.Base.{ℕ, ◌≡◌, arith, some, true, List}
use dockv6_project.CString.{bytes}
use dockv6_project.UserLib.{atoi, printint}
use dockv6_project.UserLib.Numerals.{atoi-printint}

atoi-printint_example :
    (text : List ℕ) × (printint 10 2147483647 10 true ≡ some text)
    × (atoi 11 (bytes text) ≡ some 2147483647)
atoi-printint_example = atoi-printint 2147483647 true (omega arith)
