-- ===== src/Pipe/Contents.antt =====
-- The bytes in a pipe as a list, oldest first, and one byte more or less.
use dockv6_project.Base.{
  ℕ, suc, ◌+◌, ◌%◌, ◌^◌, ◌≤◌, ◌<◌, ◌≡◌, ◌≢◌, refl, arith, true, List, [], ◌∷◌, ◌++◌, update, ◌↔◌,
}
use dockv6_project.Pipe.{Pipe, pipesize, is_full, is_empty, put_byte, fresh}

abbrev pub length : List ℕ → ℕ
length [] = 0
length (x ∷ xs) = suc (length xs)

pub length-append : (xs ys : List ℕ) → length (xs ++ ys) ≡ length xs + length ys
length-append [] ys = omega arith
length-append (x ∷ xs) ys = omega (arith, length-append xs ys)

-- The ring holds these bytes from the counter `n` on.
abbrev pub Window : (ℕ → ℕ) → ℕ → List ℕ → Type 0
Window d n [] = Unit {0}
Window d n (x ∷ xs) = (d (n % pipesize) ≡ x) × Window d (n + 1) xs

pub record Holds (p : Pipe) (xs : List ℕ) : Type 0 where
  pub small : p.nread < 2 ^ 32
  pub count : p.nwrite ≡ (p.nread + length xs) % 2 ^ 32
  pub fits : length xs ≤ pipesize
  pub window : Window p.bytes p.nread xs

pub Window-mod :
    (d : ℕ → ℕ) (n m : ℕ) (xs : List ℕ)
    → n % pipesize ≡ m % pipesize
    → Window d n xs
    → Window d m xs
Window-mod d n m [] e w = tt
Window-mod d n m (x ∷ xs) e w = (rw (← e) w.0, Window-mod d (n + 1) (m + 1) xs (omega arith) w.1)

-- A write just behind the bytes.
Window-put :
    (d : ℕ → ℕ) (n at b : ℕ) (xs : List ℕ)
    → length xs < pipesize
    → at ≡ (n + length xs) % pipesize
    → Window d n xs
    → Window (update d at b) n (xs ++ b ∷ [])
Window-put d n at b [] l e w = (ground arith, tt)
Window-put d n at b (x ∷ xs) l e w =
    let apart : at ≢ n % pipesize = omega arith in
    (ground (arith, w.0), Window-put d (n + 1) at b xs (omega arith) (omega arith) w.1)

pub put_byte-Holds :
    (p : Pipe) (b : ℕ) (xs : List ℕ)
    → Holds p xs
    → length xs < pipesize
    → Holds (put_byte p b) (xs ++ b ∷ [])
put_byte-Holds p b xs h l = record {
  small = h.small;
  count = omega (arith, h.count, length-append xs (b ∷ []));
  fits = omega (arith, length-append xs (b ∷ []));
  window =
      Window-put p.bytes p.nread (p.nwrite % pipesize) b xs l (omega (arith, h.count)) h.window;
}

-- The tests on the counters are tests on the number of bytes, also where a counter has wrapped.
pub is_full_iff :
    (p : Pipe) (xs : List ℕ) → Holds p xs → (is_full p ≡ true) ↔ (length xs ≡ pipesize)
is_full_iff p xs h = ground (arith, h.small, h.count, h.fits)

pub is_empty_iff : (p : Pipe) (xs : List ℕ) → Holds p xs → (is_empty p ≡ true) ↔ (length xs ≡ 0)
is_empty_iff p xs h = ground (arith, h.small, h.count, h.fits)

pub take_byte-Holds :
    (p : Pipe) (x : ℕ) (xs : List ℕ)
    → Holds p (x ∷ xs)
    → Holds (record p { nread = (p.nread + 1) % 2 ^ 32 }) xs
take_byte-Holds p x xs h = record {
  small = omega arith;
  count = omega (arith, h.count, h.small);
  fits = omega (arith, h.fits);
  window = Window-mod p.bytes (p.nread + 1) ((p.nread + 1) % 2 ^ 32) xs (omega arith) h.window.1;
}

pub fresh-Holds : (page : ℕ → ℕ) → Holds (fresh page) []
fresh-Holds page = record { small = omega arith; count = refl; fits = omega arith; window = tt }
