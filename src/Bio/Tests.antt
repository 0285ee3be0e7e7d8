-- ===== src/Bio/Tests.antt =====
-- bio.c: the theorem on bget at the list that binit builds, with block 7 in the first buffer.
use dockv6_project.Base.{
  ℕ, zero, suc, ◌+◌, ◌≤◌, ◌<◌, ◌≡◌, inl, inr, refl, arith, ◌==◌, if◌then◌else◌, false, none,
  ℕ_discrete, List, [], ◌∷◌,
}
use dockv6_project.Pipe.Contents.{length}
use dockv6_project.Bio.{nbuf, head, Buf, Bcache, choose}
use dockv6_project.Bio.Unique.{Follows, Member, AllLinked, Unique, Chooses, choose-Unique}

abbrev down : ℕ → List ℕ
down zero = []
down (suc n) = n ∷ down n

abbrev up : ℕ → ℕ → List ℕ
up zero k = []
up (suc n) k = k ∷ up n (suc k)

abbrev next_of : ℕ → ℕ
next_of zero = head
next_of (suc n) = n

abbrev prev_of : ℕ → ℕ
prev_of b = if b == head then 0 else suc b

abbrev buffers : ℕ → Buf
buffers i = record {
  valid = i == 0;
  dirty = false;
  dev = if i == 0 then 1 else 0;
  blockno = if i == 0 then 7 else 0;
  locked = none;
  refcnt = 0;
}

abbrev cache : Bcache
cache = record { buf = buffers; next = next_of; prev = prev_of }

down-Follows : (n : ℕ) → n ≤ nbuf → Follows next_of (next_of n) (down n)
down-Follows zero l = refl
down-Follows (suc n) l = (refl, (λ e. omega (arith, e, l)), down-Follows n (omega (arith, l)))

up-Follows : (n k : ℕ) → k + n ≡ nbuf → Follows prev_of k (up n k)
up-Follows zero k e = omega (arith, e)
up-Follows (suc n) k e =
    let go : prev_of k ≡ suc k = ground (arith, e) in
    (refl, (λ e'. omega (arith, e, e')), rw go (up-Follows n (suc k) (omega (arith, e))))

down-length : (n : ℕ) → length (down n) ≡ n
down-length zero = refl
down-length (suc n) = let ih = down-length n in omega (arith, ih)

up-length : (n k : ℕ) → length (up n k) ≡ n
up-length zero k = refl
up-length (suc n) k = let ih = up-length n (suc k) in omega (arith, ih)

down-Member : (n b : ℕ) → b < n → Member b (down n)
down-Member zero b l = absurd (omega (arith, l))
down-Member (suc n) b l = elim (ℕ_discrete b n) [
  | yes e ↦ inl e
  | no d ↦ inr (down-Member n b (omega (arith, l, d)))
]

Member-down : (n b : ℕ) → Member b (down n) → b < n
Member-down zero b m = absurd m
Member-down (suc n) b (inl e) = omega (arith, e)
Member-down (suc n) b (inr m) = let ih = Member-down n b m in omega (arith, ih)

Member-up : (n k b : ℕ) → Member b (up n k) → b < k + n
Member-up zero k b m = absurd m
Member-up (suc n) k b (inl e) = omega (arith, e)
Member-up (suc n) k b (inr m) = let ih = Member-up n (suc k) b m in omega (arith, ih)

cache-AllLinked : AllLinked cache (down 30) (up 30 0)
cache-AllLinked = record {
  forward = down-Follows 30 (omega arith);
  backward = up-Follows 30 0 refl;
  short = (omega (arith, down-length 30), omega (arith, up-length 30 0));
  complete = down-Member 30;
  real = Member-down 30;
  real_back = Member-up 30 0;
}

buffers-Unique : Unique buffers
buffers-Unique i j li lj nz e e' = ground arith

choose-Unique_example : Chooses cache 1 9 (up 30 0) (choose cache 1 9)
choose-Unique_example = choose-Unique cache 1 9 (down 30) (up 30 0) cache-AllLinked buffers-Unique
