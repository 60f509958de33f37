-- ===== src/Reverse/Networks/Spelled.antt =====
-- How the zone of an address is spelled, said without the labels that _zone_name of
-- webui/app/reverse.py takes from the reverse pointer.
use native.Mathlib.Nat.{mul-div_cancel}
use powerdns.Prelude.{
  ℕ, zero, suc, ◌+◌, ◌-◌, ◌*◌, ◌/◌, ◌%◌, ◌^◌, ◌≤◌, ◌≡◌, refl, ap, ◌∙◌, List, [], ◌∷◌, ◌++◌, ltb,
  arith, if◌then◌else◌,
}
use powerdns.Text.{Text, text, join, decimal}
use powerdns.Names.{dot}
use powerdns.Reverse.Networks.{
  Version, v4, v6, label_bits, label_count, label, body, suffix, zone_name,
}
use powerdns.Reverse.Networks.Blocks.{length-body, kept-body, label_bits_pos}

-- The last octets of a number in decimal, the lowest first.
abbrev pub octets : ℕ → ℕ → Text
octets zero q = text "in-addr.arpa."
octets (suc m) q = decimal (q % 256) ++ text "." ++ octets m (q / 256)

-- The last nibbles of a number in hexadecimal, the lowest first.
abbrev pub nibbles : ℕ → ℕ → Text
nibbles zero q = text "ip6.arpa."
nibbles (suc m) q =
    (if ltb (q % 16) 10 then 48 + q % 16 else 87 + q % 16) ∷ b'.' ∷ nibbles m (q / 16)

-- The zone of an address that has its first `m` octets or nibbles.
abbrev pub spelled : Version → ℕ → ℕ → Text
spelled v4 m a = octets m (a / 2 ^ (32 - m * 8))
spelled v6 m a = nibbles m (a / 2 ^ (128 - m * 4))

join-suffix :
    (v : Version) (x : Text) (ys : List Text)
    → join dot (x ∷ ys ++ suffix v) ≡ x ++ dot ++ join dot (ys ++ suffix v)
unfolding join
join-suffix v4 x [] = refl
join-suffix v6 x [] = refl
join-suffix v x (y ∷ ys) = refl

octets-body : (m q : ℕ) → join dot (body v4 m q ++ suffix v4) ≡ octets m q
unfolding body join
octets-body zero q = refl
octets-body (suc m) q =
    join-suffix v4 (decimal (q % 256)) (body v4 m (q / 256))
    ∙ ap (λ t. decimal (q % 256) ++ dot ++ t) (octets-body m (q / 256))

nibble : (n : ℕ) → label v6 n ≡ (if ltb n 10 then 48 + n else 87 + n) ∷ []
unfolding label
nibble n = ground arith

nibbles-body : (m q : ℕ) → join dot (body v6 m q ++ suffix v6) ≡ nibbles m q
unfolding body join
nibbles-body zero q = refl
nibbles-body (suc m) q =
    join-suffix v6 (label v6 (q % 16)) (body v6 m (q / 16))
    ∙ ap (λ t. t ++ dot ++ join dot (body v6 m (q / 16) ++ suffix v6)) (nibble (q % 16))
    ∙ ap (λ t. (if ltb (q % 16) 10 then 48 + q % 16 else 87 + q % 16) ∷ b'.' ∷ t)
        (nibbles-body m (q / 16))

join-body :
    (v : Version) (m a : ℕ)
    → m ≤ label_count v
    → zone_name v a (m * label_bits v)
      ≡ join dot (body v m (a / 2 ^ ((label_count v - m) * label_bits v)) ++ suffix v)
unfolding zone_name
join-body v m a le =
    rw
      (
        length-body v (label_count v) a,
        mul-div_cancel m (label_bits_pos v),
        kept-body v m (label_count v) a le,
      )
      refl

pub zone_name-spelled :
    (v : Version) (m a : ℕ) → m ≤ label_count v → zone_name v a (m * label_bits v) ≡ spelled v m a
zone_name-spelled v4 m a le =
    join-body v4 m a le
    ∙ octets-body m (a / 2 ^ ((4 - m) * 8))
    ∙ ap (λ e. octets m (a / 2 ^ e)) (omega arith)
zone_name-spelled v6 m a le =
    join-body v6 m a le
    ∙ nibbles-body m (a / 2 ^ ((32 - m) * 4))
    ∙ ap (λ e. nibbles m (a / 2 ^ e)) (omega arith)
