-- ===== src/Reverse/Networks/Blocks.antt =====
-- Blocks of addresses and the names of zones: _zone_name and the subnets of webui/app/reverse.py.
use native.Mathlib.Nat.{
  div-one, pow-suc, div-eq_of_lt-le, mul-div_cancel, div-div-eq-div-mul, mul_assoc,
}
use powerdns.Prelude.{
  ℕ, zero, suc, ◌+◌, ◌-◌, ◌*◌, ◌/◌, ◌^◌, ◌≤◌, ◌<◌, ◌≡◌, inl, inr, refl, sym, ap, ◌∙◌, subst, length,
  drop, ltb, arith, Any, Bool-cases,
}
use powerdns.Reverse.Networks.{Version, v4, v6, label_bits, label_count, body, zone_name, subnets}

pub pow-add : (a b : ℕ) → 2 ^ (a + b) ≡ 2 ^ a * 2 ^ b
pow-add a zero = let same : a + 0 ≡ a = omega arith in rw same (omega arith)
pow-add a (suc b) =
    let same : a + suc b ≡ suc (a + b) = omega arith in
    rw (same, pow-suc 2 (a + b), pow-suc 2 b, pow-add a b) (mul_assoc (2 ^ a) (2 ^ b) 2)

pub pow_pos : (a : ℕ) → 0 < 2 ^ a
pow_pos zero = omega arith
pow_pos (suc a) = rw pow-suc (omega (arith, pow_pos a))

pub subnets_cover :
    (count size q a : ℕ)
    → 0 < size
    → q * size ≤ a
    → a < (q + count) * size
    → Any (λ start. a / size ≡ start / size) (subnets count size (q * size))
unfolding subnets
subnets_cover zero size q a s lo hi = omega (arith, hi, lo)
subnets_cover (suc count) size q a s lo hi = elim (Bool-cases (ltb a (q * size + size))) [
  | inl here ↦ inl (div-eq_of_lt-le size lo (grind arith) ∙ sym (mul-div_cancel q s))
  | inr later ↦
      let next : suc q * size ≡ q * size + size = omega arith in
      inr (
        subst (λ n. Any (λ start. a / size ≡ start / size) (subnets count size n)) next
          (subnets_cover count size (suc q) a s (grind arith)
            (let same : suc q + count ≡ q + suc count = omega arith in rw same hi)))
]

-- The labels that are left when the first `j` go, and so the part of a name from some label on, are those
-- of the address without its last bits.
drop-body :
    (v : Version) (j k n : ℕ) → drop j (body v (j + k) n) ≡ body v k (n / 2 ^ (j * label_bits v))
unfolding body
drop-body v zero k n =
    let one : n / 2 ^ (0 * label_bits v) ≡ n =
      (let none : 0 * label_bits v ≡ 0 = omega arith in rw none (div-one n)) in
    let same : 0 + k ≡ k = omega arith in rw (one, same) refl
drop-body v (suc j) k n =
    let same : suc j + k ≡ suc (j + k) = omega arith in
    let bits : suc j * label_bits v ≡ label_bits v + j * label_bits v = omega arith in
    rw (same, bits, pow-add, ← div-div-eq-div-mul) (drop-body v j k (n / 2 ^ label_bits v))

pub length-body : (v : Version) (k n : ℕ) → length (body v k n) ≡ k
unfolding body
length-body v zero n = refl
length-body v (suc k) n = ap suc (length-body v k (n / 2 ^ label_bits v))

pub label_bits_pos : (v : Version) → 0 < label_bits v
label_bits_pos v4 = omega arith
label_bits_pos v6 = omega arith

pub kept-body :
    (v : Version) (m k n : ℕ)
    → m ≤ k
    → drop (k - m) (body v k n) ≡ body v m (n / 2 ^ ((k - m) * label_bits v))
kept-body v m k n le =
    let same : k - m + m ≡ k = omega arith in
    subst (λ j. drop (k - m) (body v j n) ≡ body v m (n / 2 ^ ((k - m) * label_bits v))) same
      (drop-body v (k - m) m n)

-- The name of a zone is the same for two addresses of one block.
pub zone_name-block :
    (v : Version) (m a a' : ℕ)
    → m ≤ label_count v
    → a / 2 ^ ((label_count v - m) * label_bits v) ≡ a' / 2 ^ ((label_count v - m) * label_bits v)
    → zone_name v a (m * label_bits v) ≡ zone_name v a' (m * label_bits v)
unfolding zone_name
zone_name-block v m a a' le e = rw (
  length-body v (label_count v) a,
  length-body v (label_count v) a',
  mul-div_cancel m (label_bits_pos v),
  kept-body v m (label_count v) a le,
  kept-body v m (label_count v) a' le,
  e,
)
