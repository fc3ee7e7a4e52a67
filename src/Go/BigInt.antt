-- ===== src/Go/BigInt.antt =====
-- `math/big`: numbers from and to big-endian bytes, and modular powers.
use native.Mathlib.Nat.{mul_assoc, mul_comm, le_refl, pow-suc, mul-le-mul_right, zero-mod, mul-zero}
use mathlib.Core.Path.{ap₂}
use boiler_mate.Prelude.{
  length, eqb_iff, false, ℕ, zero, suc, ◌+◌, ◌*◌, ◌/◌, ◌%◌, ◌^◌, ◌≤◌, ◌<◌, ◌≡◌, refl, sym, ◌∙◌, ap,
  [], ◌∷◌, ◌++◌, arith, eqb, if◌then◌else◌, Bytes, All, append-nil, inl, inr, Bool-cases,
}

-- `SetBytes`, behind the number of the bytes before.
from_bytes_onto : ℕ → Bytes → ℕ
from_bytes_onto acc [] = acc
from_bytes_onto acc (b ∷ s) = from_bytes_onto (acc * 256 + b) s

unfoldable pub from_bytes : Bytes → ℕ
unfolding from_bytes_onto
from_bytes s = from_bytes_onto 0 s

to_bytes_onto : ℕ → ℕ → Bytes → Bytes
to_bytes_onto zero n out = out
to_bytes_onto (suc f) n out =
    let more = to_bytes_onto f (n / 256) ((n % 256) ∷ out) in if eqb n 0 then out else more

-- `Bytes`: no leading zero byte, and no byte for zero. `n` rounds are enough.
unfoldable pub to_bytes : ℕ → Bytes
unfolding to_bytes_onto
to_bytes n = to_bytes_onto n n []

-- `Exp(x, y, m)` for y that is not negative.
unfoldable pub exp : ℕ → ℕ → ℕ → ℕ
exp x y m = x ^ y % m

abbrev pub IsByte : ℕ → Type 0
IsByte b = b < 256

to_bytes_onto_step :
    (g m acc c : ℕ) (out : Bytes)
    → m ≡ acc * 256 + c
    → m ≤ g
    → 0 < m
    → c < 256
    → (h : ℕ) × (acc ≤ h) × (to_bytes_onto g m out ≡ to_bytes_onto h acc (c ∷ out))
unfolding to_bytes_onto
to_bytes_onto_step zero m acc c out e le p b = absurd (omega arith)
to_bytes_onto_step (suc g) m acc c out e le p b = (
  g,
  omega arith,
  rw ne (
      ap₂ (λ n d. to_bytes_onto g n (d ∷ out)) (let q : m / 256 ≡ acc = omega arith in q)
        (let r : m % 256 ≡ c = omega arith in r)),
)
  where
    ne : eqb m 0 ≡ false
    ne = ground arith

-- The digits of a number that begins with `acc` end in the bytes behind it.
to_bytes_onto-from :
    (s : Bytes) (f acc : ℕ) (out : Bytes)
    → from_bytes_onto acc s ≤ f
    → 0 < acc
    → All IsByte s
    → (g : ℕ) × (acc ≤ g)
      × (to_bytes_onto f (from_bytes_onto acc s) out ≡ to_bytes_onto g acc (s ++ out))
unfolding from_bytes_onto
to_bytes_onto-from [] f acc out le p b = (f, le, refl)
to_bytes_onto-from (c ∷ s) f acc out le p b =
    let (g, at, e) = to_bytes_onto-from s f (acc * 256 + c) out le (omega arith) b.1 in
    let (h, below, d) =
      to_bytes_onto_step g (acc * 256 + c) acc c (s ++ out) refl at (omega arith) b.0 in
    (h, below, e ∙ d)

to_bytes_onto-zero : (f : ℕ) (out : Bytes) → to_bytes_onto f 0 out ≡ out
unfolding to_bytes_onto
to_bytes_onto-zero zero out = refl
to_bytes_onto-zero (suc f) out = refl

-- Bytes that do not begin with zero are the bytes of their number.
pub to_bytes-from_bytes :
    (b : ℕ) (s : Bytes) → 0 < b → All IsByte (b ∷ s) → to_bytes (from_bytes (b ∷ s)) ≡ b ∷ s
unfolding to_bytes from_bytes
to_bytes-from_bytes b s p h =
    let n = from_bytes_onto b s in
    let (g, at, e) = to_bytes_onto-from s n b [] (le_refl n) p h.1 in
    let (k, below, d) = to_bytes_onto_step g b 0 b (s ++ []) (omega arith) at p h.0 in
    let first : 0 * 256 + b ≡ b = omega arith in
    ap (λ a. to_bytes_onto (from_bytes_onto a s) (from_bytes_onto a s) []) first
    ∙ e
    ∙ d
    ∙ to_bytes_onto-zero k (b ∷ (s ++ []))
    ∙ ap (◌∷◌ b) (append-nil s)

from_bytes-to_bytes_onto :
    (f n : ℕ) (out : Bytes) → n ≤ f → from_bytes (to_bytes_onto f n out) ≡ from_bytes_onto n out
unfolding from_bytes to_bytes_onto
from_bytes-to_bytes_onto zero n out h =
    ap (λ k. from_bytes_onto k out) (let e : 0 ≡ n = omega arith in e)
from_bytes-to_bytes_onto (suc f) n out h = elim (Bool-cases (eqb n 0)) [
  | inl done ↦ rw done (ap (λ k. from_bytes_onto k out) (sym ((eqb_iff n 0).0 done)))
  | inr more ↦ rw more (
      from_bytes-to_bytes_onto f (n / 256) ((n % 256) ∷ out) (ground arith)
      ∙ ap (λ k. from_bytes_onto k out) (let e : n / 256 * 256 + n % 256 ≡ n = omega arith in e))
]

-- The bytes of a number give it back.
pub from_bytes-to_bytes : (n : ℕ) → from_bytes (to_bytes n) ≡ n
unfolding to_bytes from_bytes_onto
from_bytes-to_bytes n = from_bytes-to_bytes_onto n n [] (le_refl n)

more_room : (acc c p f : ℕ) → c < 256 → f < (acc * 256 + c + 1) * p → f < (acc + 1) * (p * 256)
more_room acc c p f h lt = omega (
  arith,
  mul-le-mul_right {m = acc * 256 + c + 1} {n = (acc + 1) * 256} p (omega arith),
  mul_assoc (acc + 1) 256 p,
  mul_comm 256 p,
)

from_bytes_onto-lt :
    (s : Bytes) (acc : ℕ) → All IsByte s → from_bytes_onto acc s < (acc + 1) * 256 ^ length s
unfolding from_bytes_onto
from_bytes_onto-lt [] acc h = omega arith
from_bytes_onto-lt (c ∷ s) acc h = rw (pow-suc 256 (length s)) (
    more_room acc c (256 ^ length s) (from_bytes_onto (acc * 256 + c) s) h.0
      (from_bytes_onto-lt s (acc * 256 + c) h.1))

-- The number of `k` bytes is below 256 to the power `k`.
pub from_bytes-lt : (s : Bytes) → All IsByte s → from_bytes s < 256 ^ length s
unfolding from_bytes
from_bytes-lt s h = omega (arith, from_bytes_onto-lt s 0 h)

-- A number with no bytes is zero.
pub to_bytes-nil : (n : ℕ) → to_bytes n ≡ [] → n ≡ 0
to_bytes-nil n e = sym (from_bytes-to_bytes n) ∙ (rw e (unfold from_bytes in refl))

pub exp-zero : (y m : ℕ) → 0 < y → exp 0 y m ≡ 0
unfolding exp
exp-zero zero m h = absurd (omega arith)
exp-zero (suc y) m h = rw (pow-suc 0 y, mul-zero) (zero-mod m)
