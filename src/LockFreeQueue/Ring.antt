-- ===== src/LockFreeQueue/Ring.antt =====
-- The slots of a ring whose size is a power of two: the mask takes the remainder.
use Prim.Native.Nat.{digits, bit_and-bitwise}
use native.Mathlib.Nat.{
  mod-eq_of_lt, add-mod_right, mul-add-mod_self_left, zero-mod, div-add-mod, mul_assoc, mod-lt,
  mul-suc, mul-le-mul_left,
}
use yy.Prelude.{
  ℕ, zero, suc, ◌+◌, ◌-◌, ◌*◌, ◌/◌, ◌%◌, ◌^◌, ◌≤◌, ◌<◌, min, ◌≡◌, sym, ap, ◌∙◌, ◌≢◌, inl, inr,
  arith, ltb, Bool-cases,
}
use yy.LockFreeQueue.{slot_of}
use yy.LockFreeQueue.Inv.{IsRing}

pow_pos : (k : ℕ) → 0 < 2 ^ k
pow_pos zero = omega arith
pow_pos (suc k) = omega (arith, pow_pos k)

-- The lowest binary digit of a remainder by an even number.
mod-double : (a m : ℕ) → 0 < m → a % (2 * m) ≡ a / 2 % m * 2 + a % 2
mod-double a m h =
    let t = a / 2 / m in
    let r = a / 2 % m * 2 + a % 2 in
    let l : a / 2 % m < m = mod-lt (a / 2) h in
    let low : r % (2 * m) ≡ r = mod-eq_of_lt (omega arith) in
    let parts : a ≡ 2 * m * t + r = omega (arith, div-add-mod (a / 2) m, mul_assoc 2 m t) in
    ap (λ (x : ℕ). x % (2 * m)) parts ∙ mul-add-mod_self_left (2 * m) t r ∙ low

digits_mask : (f k a : ℕ) → a ≤ f → digits (λ b. 0) min f a (2 ^ k - 1) ≡ a % 2 ^ k
digits_mask zero k a h = let e : a ≡ 0 = omega arith in rw e (sym (zero-mod (2 ^ k)))
digits_mask (suc f) k zero h = sym (zero-mod (2 ^ k))
digits_mask (suc f) zero (suc a) h = omega (arith, digits_mask f zero (suc a / 2) (omega arith))
digits_mask (suc f) (suc k) (suc a) h =
    let m = 2 ^ k in
    let p = pow_pos k in
    let e : 2 ^ suc k ≡ 2 * m = omega arith in
    let half : (2 * m - 1) / 2 ≡ m - 1 = omega arith in
    let odd : (2 * m - 1) % 2 ≡ 1 = omega arith in
    let rest = digits_mask f k (suc a / 2) (omega arith) in
    rw (e, half, odd) (omega (arith, rest, mod-double (suc a) m p))

pub slot_of-eq-mod : (k p : ℕ) → slot_of (2 ^ k) p ≡ p % 2 ^ k
unfolding slot_of
slot_of-eq-mod k p = bit_and-bitwise p (2 ^ k - 1) ∙ digits_mask p k p (omega arith)

-- Numbers that differ by less than the modulus have different remainders.
mod-apart : (m p r : ℕ) → p < r → r < p + m → p % m ≢ r % m
mod-apart m p r h k e =
    let a = p / m in
    let b = r / m in
    let u = div-add-mod p m in
    let v = div-add-mod r m in
    elim (Bool-cases (ltb a b)) [
      | inl t ↦
          let l : m * suc a ≤ m * b = mul-le-mul_left m (ground arith) in
          absurd (omega (arith, u, v, mul-suc m a))
      | inr o ↦
          let l : m * b ≤ m * a = mul-le-mul_left m (ground arith) in absurd (omega (arith, u, v))
    ]

pub IsRing-pow : (k : ℕ) → IsRing (2 ^ suc k)
IsRing-pow k = record {
  more = omega (arith, pow_pos k);
  below = λ p h. slot_of-eq-mod (suc k) p ∙ mod-eq_of_lt h;
  apart = λ p r h l e.
      mod-apart (2 ^ suc k) p r h l (sym (slot_of-eq-mod (suc k) p) ∙ e ∙ slot_of-eq-mod (suc k) r);
  lap = λ p.
      slot_of-eq-mod (suc k) (p + 2 ^ suc k)
      ∙ add-mod_right p (2 ^ suc k)
      ∙ sym (slot_of-eq-mod (suc k) p);
}
