-- ===== src/UserLib.antt =====
-- Numbers and text in the user library: `atoi` of ulib.c and `printint` of printf.c.
pub mod Numerals
mod Tests
use dockv6_project.Base.{
  ℕ, zero, suc, ◌+◌, ◌-◌, ◌*◌, ◌/◌, ◌%◌, ◌^◌, ◌==◌, if◌then◌else◌, leb, ltb, ◌&&◌, Option, none,
  some, List, [], ◌∷◌, Bool, true, false,
}
use dockv6_project.CString.{View, next}

-- `'0' <= *s && *s <= '9'`
abbrev pub is_digit : ℕ → Bool
is_digit c = leb b'0' c && leb c b'9'

-- The loop of `atoi`, with `n` so far, which is the bit pattern of an `int`: a sum that overflows,
-- which C leaves undefined, wraps. `none` when the fuel runs out.
unfoldable pub atoi_from : ℕ → View → ℕ → Option ℕ
atoi_from zero s n = none
atoi_from (suc fuel) s n =
    let rest = atoi_from fuel (next s) ((n * 10 + s 0 - b'0') % 2 ^ 32) in
    if is_digit (s 0) then rest else some n

unfoldable pub atoi : ℕ → View → Option ℕ
atoi fuel s = atoi_from fuel s 0

-- `digits[x]`
abbrev pub digit : ℕ → ℕ
digit x = if ltb x 10 then b'0' + x else b'A' + (x - 10)

-- `do { buf[i++] = digits[x % base]; } while ((x /= base) != 0);`, where `out` is `buf` from its end
-- on, which is the order in which it is put out.
unfoldable pub digits_loop : ℕ → ℕ → ℕ → List ℕ → Option (List ℕ)
digits_loop zero x base out = none
digits_loop (suc fuel) x base out =
    let rest = digits_loop fuel (x / base) base (digit (x % base) ∷ out) in
    if x / base == 0 then some (digit (x % base) ∷ out) else rest

-- `sgn && xx < 0`, for the bit pattern of `xx`
abbrev pub is_negative : ℕ → Bool → Bool
is_negative xx sgn = sgn && leb (2 ^ 31) (xx % 2 ^ 32)

-- What `printint` puts out for the bit pattern `xx` of an `int`; `neg` is the sign.
unfoldable pub printint : ℕ → ℕ → ℕ → Bool → Option (List ℕ)
unfolding digits_loop
printint fuel xx base sgn =
    let neg = is_negative xx sgn in
    let x = if neg then 2 ^ 32 - xx % 2 ^ 32 else xx % 2 ^ 32 in
    elim (digits_loop fuel x base []) [
      | none ↦ none
      | some out ↦ some (if neg then b'-' ∷ out else out)
    ]
