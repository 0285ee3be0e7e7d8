-- ===== src/CString.antt =====
-- string.c: the byte and string routines of the kernel.
-- A `View` is what a pointer shows: the byte at each offset from it on. The routines that write
-- one buffer from another return the new view of the buffer. `memset` and `memmove` work on the
-- whole memory, since `memmove` allows its two ranges to overlap.
pub mod Compare
pub mod Copy
pub mod Move
pub mod Fill
mod Tests
use dockv6_project.Base.{
  ℕ, zero, suc, ◌+◌, ◌-◌, ◌*◌, ◌/◌, ◌%◌, ◌^◌, ◌==◌, if◌then◌else◌, ltb, ◌&&◌, not, Bool, Option,
  none, some, List, update,
}
use dockv6_project.Base.Int.{ℤ, pos, sub_ℕ}

abbrev pub View : Type 0
View = ℕ → ℕ

-- `p++`: what the pointer shows one byte further on.
abbrev pub next : View → View
next p i = p (suc i)

-- The buffer at `s` after `*s = b`, the bytes behind it being `rest`.
abbrev pub prepend : ℕ → View → View
prepend b rest zero = b
prepend b rest (suc i) = rest i

-- Strings as the list of their bytes before the NUL, and the view of such a string.
abbrev pub bytes : List ℕ → View
bytes List.[] i = 0
bytes (List.◌∷◌ b s) i = prepend b (bytes s) i

unfoldable pub strncmp : View → View → ℕ → ℤ
strncmp p q zero = pos 0
strncmp p q (suc n) =
    let rest = strncmp (next p) (next q) n in
    if not (p 0 == 0) && (p 0 == q 0) then rest else sub_ℕ (p 0) (q 0)

unfoldable pub memcmp : View → View → ℕ → ℤ
memcmp v w zero = pos 0
memcmp v w (suc n) =
    let rest = memcmp (next v) (next w) n in if v 0 == w 0 then rest else sub_ℕ (v 0) (w 0)

-- `while (n-- > 0) *s++ = 0`
unfoldable pub fill_nul : View → ℕ → View
fill_nul s zero = s
fill_nul s (suc n) = prepend 0 (fill_nul (next s) n)

-- A count below 0 writes nothing, as the count 0 does.
unfoldable pub strncpy : View → View → ℕ → View
unfolding fill_nul
strncpy s t zero = s
strncpy s t (suc n) =
    let rest = strncpy (next s) (next t) n in
    prepend (t 0) (if t 0 == 0 then fill_nul (next s) n else rest)

-- The loop of `safestrcpy`, with `n` rounds left: it ends with `*s = 0`.
unfoldable pub safe_loop : View → View → ℕ → View
safe_loop s t zero = prepend 0 (next s)
safe_loop s t (suc n) =
    let rest = safe_loop (next s) (next t) n in
    prepend (t 0) (if t 0 == 0 then prepend 0 (next (next s)) else rest)

unfoldable pub safestrcpy : View → View → ℕ → View
unfolding safe_loop
safestrcpy s t zero = s
safestrcpy s t (suc n) = safe_loop s t n

-- `for (n = 0; s[n]; n++)`: `none` when the fuel runs out before a NUL is met.
unfoldable pub strlen_from : ℕ → View → ℕ → Option ℕ
strlen_from zero s n = none
strlen_from (suc fuel) s n =
    let rest = strlen_from fuel s (n + 1) in if s n == 0 then some n else rest

unfoldable pub strlen : ℕ → View → Option ℕ
unfolding strlen_from
strlen fuel s = strlen_from fuel s 0

abbrev pub Memory : Type 0
Memory = ℕ → ℕ

-- `while (n-- > 0) *--d = *--s;`, from `d + n` and `s + n` down.
unfoldable pub copy_down : Memory → ℕ → ℕ → ℕ → Memory
copy_down m d s zero = m
copy_down m d s (suc n) = copy_down (update m (d + n) (m (s + n))) d s n

-- `while (n-- > 0) *d++ = *s++;`
unfoldable pub copy_up : Memory → ℕ → ℕ → ℕ → Memory
copy_up m d s zero = m
copy_up m d s (suc n) = copy_up (update m d (m s)) (d + 1) (s + 1) n

unfoldable pub memmove : Memory → ℕ → ℕ → ℕ → Memory
unfolding copy_down copy_up
memmove m d s n = if ltb s d && ltb d (s + n) then copy_down m d s n else copy_up m d s n

-- `rep stosb`: `n` bytes from `d` on.
unfoldable pub stosb : Memory → ℕ → ℕ → ℕ → Memory
stosb m d c zero = m
stosb m d c (suc n) = stosb (update m d (c % 256)) (d + 1) c n

-- One 32-bit word, its low byte first.
abbrev pub put_word : Memory → ℕ → ℕ → Memory
put_word m d w =
    update
      (update (update (update m d (w % 256)) (d + 1) (w / 256 % 256)) (d + 2) (w / 65536 % 256))
      (d + 3) (w / 16777216 % 256)

-- `rep stosl`: `n` words from `d` on.
unfoldable pub stosl : Memory → ℕ → ℕ → ℕ → Memory
stosl m d w zero = m
stosl m d w (suc n) = stosl (put_word m d w) (d + 4) w n

-- The four shifted bytes do not overlap, so their `|` is a sum.
unfoldable pub memset : Memory → ℕ → ℕ → ℕ → Memory
unfolding stosb stosl
memset m d c n =
    let b = c % 256 in
    if (d % 4 == 0) && (n % 4 == 0)
    then stosl m d (b * 16777216 + b * 65536 + b * 256 + b) (n / 4)
    else stosb m d c n
