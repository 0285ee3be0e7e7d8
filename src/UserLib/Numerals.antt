-- ===== src/UserLib/Numerals.antt =====
-- A number that `printint` prints in base 10 is what `atoi` reads.
use native.Mathlib.Numerals.{unary_clauses}
use dockv6_project.Base.{
  ◌≢◌, sym, ℕ, zero, suc, ◌+◌, ◌-◌, ◌*◌, ◌/◌, ◌%◌, ◌^◌, ◌≤◌, ◌<◌, ◌≡◌, inl, inr, refl, arith, ◌==◌,
  some, List, [], ◌∷◌, Bool, true, false, Bool-cases, ◌∙◌, ap,
}
use dockv6_project.CString.{bytes}
use dockv6_project.UserLib.{atoi_from, atoi, is_digit, digit, digits_loop, is_negative, printint}

-- The text is the digits of `x` in front of `out`.
record Reads (x c : ℕ) (out text : List ℕ) : Type 0 where
  read : (fuel : ℕ) → atoi_from (c + fuel) (bytes text) 0 ≡ atoi_from fuel (bytes out) x

read_digit :
    (fuel n d : ℕ) (out : List ℕ)
    → d < 10
    → n * 10 + d < 2 ^ 32
    → atoi_from (suc fuel) (bytes (digit d ∷ out)) n ≡ atoi_from fuel (bytes out) (n * 10 + d)
unfolding atoi_from
read_digit fuel n d out l f =
    let here : is_digit (digit d) ≡ true = ground arith in
    let value : (n * 10 + digit d - 48) % 2 ^ 32 ≡ n * 10 + d = ground arith in
    rw (here, value, atoi_from)

fits : (fuel x : ℕ) → x < 10 ^ suc fuel → x / 10 < 10 ^ fuel
fits fuel x small = let h = simp unary_clauses at small in omega (arith, h)

some_left : (fuel x : ℕ) → x < 10 ^ suc fuel → x / 10 ≢ 0 → 0 < fuel
some_left zero x small ne = absurd (ne (omega arith))
some_left (suc fuel) x small ne = omega arith

digits-Reads :
    (fuel x : ℕ) (out : List ℕ)
    → x < 10 ^ fuel
    → x < 2 ^ 32
    → 0 < fuel
    → (c : ℕ) × (text : List ℕ) × (c ≤ fuel)
      × (digits_loop fuel x 10 out ≡ some text)
      × Reads x c out text
unfolding digits_loop
digits-Reads zero x out small word some_fuel = absurd (omega arith)
digits-Reads (suc fuel) x out small word some_fuel = elim (Bool-cases (x / 10 == 0)) [
  | inl last ↦
      let whole : 0 * 10 + x % 10 ≡ x = ground arith in
      (
        1,
        digit (x % 10) ∷ out,
        omega arith,
        rw (last, digits_loop),
        record {
          read = λ f.
              ap (λ n. atoi_from n (bytes (digit (x % 10) ∷ out)) 0) (omega arith)
              ∙ (read_digit f 0 (x % 10) out (omega arith) (omega arith)
                  ∙ ap (λ n. atoi_from f (bytes out) n) whole);
        },
      )
  | inr more ↦
      let (c, text, le, e, r) =
        digits-Reads fuel (x / 10) (digit (x % 10) ∷ out) (fits fuel x small) (omega arith)
          (some_left fuel x small (ground arith)) in
      (
        suc c,
        text,
        omega arith,
        rw (more, digits_loop) e,
        record { read = λ f. next_digit c f text (r.read (suc f)) },
      )
]
  where
    next_digit :
        (c f : ℕ) (text : List ℕ)
        → atoi_from (c + suc f) (bytes text) 0
          ≡ atoi_from (suc f) (bytes (digit (x % 10) ∷ out)) (x / 10)
        → atoi_from (suc c + f) (bytes text) 0 ≡ atoi_from f (bytes out) x
    next_digit c f text h =
        ap (λ n. atoi_from n (bytes text) 0) (omega arith)
        ∙ (h
            ∙ (read_digit f (x / 10) (x % 10) out (omega arith) (omega arith)
                ∙ ap (λ n. atoi_from f (bytes out) n) (omega arith)))

at_end : (fuel x : ℕ) → atoi_from (suc fuel) (bytes []) x ≡ some x
unfolding atoi_from
at_end fuel x = refl

fits_int : (x : ℕ) → x < 2 ^ 31 → x < 10 ^ 10
fits_int x small = omega arith

-- What `atoi` reads of the text that `printint` prints in base 10, signed or not, for an `int` that
-- is not negative is that `int`; both loops end within the fuel for the ten digits that it may have.
pub atoi-printint :
    (x : ℕ) (sgn : Bool)
    → x < 2 ^ 31
    → (text : List ℕ) × (printint 10 x 10 sgn ≡ some text) × (atoi 11 (bytes text) ≡ some x)
unfolding printint atoi
atoi-printint x sgn small =
    let (c, text, le, e, r) = digits-Reads 10 x [] (fits_int x small) (omega arith) (omega arith) in
    let plus : is_negative x sgn ≡ false = ground (arith, small) in
    let same : x % 2 ^ 32 ≡ x = omega arith in
    let enough : c + (11 - c) ≡ 11 = omega arith in
    let last : 11 - c ≡ suc (10 - c) = omega arith in
    (
      text,
      rw (plus, same, e, printint) (rw plus refl),
      ap (λ n. atoi_from n (bytes text) 0) (sym enough)
          ∙ (r.read (11 - c) ∙ (ap (λ n. atoi_from n (bytes []) x) last ∙ at_end (10 - c) x)),
    )
