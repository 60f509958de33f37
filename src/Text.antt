-- ===== src/Text.antt =====
-- Python's `str` as the list of its code points, with the methods that the panel calls.
-- `lower` and `upper` change the case of ASCII letters and no others: what the panel compares
-- without regard to case (DNS names, record types, user and group names) is taken to be ASCII.
pub mod Laws
pub mod Sets
pub mod Upper
pub mod Title
pub mod Numbers
mod Tests
use Prim.Native.Char.{code}
use powerdns.Prelude.{
  ℕ, zero, suc, ◌+◌, ◌-◌, ◌%◌, ◌/◌, ltb, String, Bool, true, false, not, ◌&&◌, ◌||◌, List, [], ◌∷◌,
  ◌++◌, map, any, leb, ◌==◌, is_empty, keep, Option, none, some, if◌then◌else◌,
}

abbrev pub Text : Type 0
Text = List ℕ

-- A literal.
abbrev pub text : String → Text
text String.[] = []
text (String.◌∷◌ c s) = code c ∷ text s

unfoldable pub eq_text : Text → Text → Bool
eq_text [] [] = true
eq_text (a ∷ s) (b ∷ t) = a == b && eq_text s t
eq_text _ _ = false

-- `t in texts`, on a list, a set or a tuple.
unfoldable pub contains : Text → List Text → Bool
unfolding eq_text
contains t texts = any (λ s. eq_text s t) texts

-- str.isspace
unfoldable pub is_space : ℕ → Bool
is_space c =
    leb 9 c && leb c 13
    || leb 28 c && leb c 32
    || c == 0x85
    || c == 0xa0
    || c == 0x1680
    || leb 0x2000 c && leb c 0x200a
    || c == 0x2028
    || c == 0x2029
    || c == 0x202f
    || c == 0x205f
    || c == 0x3000

abbrev pub is_dot : ℕ → Bool
is_dot c = c == b'.'

unfoldable pub lstrip : (ℕ → Bool) → Text → Text
lstrip p [] = []
lstrip p (c ∷ s) = if p c then lstrip p s else c ∷ s

abbrev close : (ℕ → Bool) → ℕ → Text → Text
close p c [] = if p c then [] else c ∷ []
close p c (d ∷ s) = c ∷ d ∷ s

unfoldable pub rstrip : (ℕ → Bool) → Text → Text
rstrip p [] = []
rstrip p (c ∷ s) = close p c (rstrip p s)

-- s.strip() and s.rstrip(".")
unfoldable pub strip : Text → Text
unfolding lstrip rstrip is_space
strip s = rstrip is_space (lstrip is_space s)

unfoldable pub rstrip_dots : Text → Text
unfolding rstrip
rstrip_dots s = rstrip is_dot s

unfoldable pub lower_char : ℕ → ℕ
lower_char c = if leb b'A' c && leb c b'Z' then c + 32 else c

unfoldable pub upper_char : ℕ → ℕ
upper_char c = if leb b'a' c && leb c b'z' then c - 32 else c

unfoldable pub lower : Text → Text
unfolding lower_char
lower s = map lower_char s

unfoldable pub upper : Text → Text
unfolding upper_char
upper s = map upper_char s

unfoldable pub starts_with : Text → Text → Bool
starts_with [] s = true
starts_with (a ∷ t) [] = false
starts_with (a ∷ t) (b ∷ s) = a == b && starts_with t s

-- s.endswith(t), with the suffix first.
unfoldable pub ends_with : Text → Text → Bool
unfolding eq_text
ends_with t [] = eq_text t []
ends_with t (c ∷ s) = eq_text t (c ∷ s) || ends_with t s

-- t or d
abbrev pub or_else : Text → Text → Text
or_else t d = if is_empty t then d else t

-- t in s
unfoldable pub has_part : Text → Text → Bool
unfolding starts_with
has_part t [] = is_empty t
has_part t (c ∷ s) = starts_with t (c ∷ s) || has_part t s

-- The pieces of a text between the characters that pass the test: s.split(c) for one character.
abbrev pub push_head : ℕ → List Text → List Text
push_head c [] = (c ∷ []) ∷ []
push_head c (p ∷ ps) = (c ∷ p) ∷ ps

unfoldable pub split_at : (ℕ → Bool) → Text → List Text
split_at p [] = [] ∷ []
split_at p (c ∷ s) = let rest = split_at p s in if p c then [] ∷ rest else push_head c rest

-- s.split(): the pieces between runs of white space.
unfoldable pub words : Text → List Text
unfolding split_at is_space
words s = keep (λ w. not (is_empty w)) (split_at is_space s)

-- The line breaks of str.splitlines. A carriage return before a line feed gives one more, empty,
-- line here; every caller drops the empty lines.
unfoldable pub is_line_break : ℕ → Bool
is_line_break c =
    leb 10 c && leb c 13 || leb 28 c && leb c 30 || c == 0x85 || c == 0x2028 || c == 0x2029

-- [line.strip() for line in s.replace(",", "\n").splitlines() if line.strip()]
unfoldable pub comma_lines : Text → List Text
unfolding split_at is_line_break strip
comma_lines s =
    keep (λ w. not (is_empty w)) (map strip (split_at (λ c. is_line_break c || c == b',') s))

-- "sep".join(parts)
unfoldable pub join : Text → List Text → Text
join sep [] = []
join sep (p ∷ []) = p
join sep (p ∷ q ∷ ps) = p ++ sep ++ join sep (q ∷ ps)

-- s.split(c, 1): what stands before the first `c`, and after it if there is one.
unfoldable pub before : ℕ → Text → Text
before c [] = []
before c (d ∷ s) = if d == c then [] else d ∷ before c s

unfoldable pub after? : ℕ → Text → Option Text
after? c [] = none
after? c (d ∷ s) = if d == c then some s else after? c s

-- list(dict.fromkeys(texts)): the first of each text, in order.
unfoldable pub dedup_onto : List Text → List Text → List Text
unfolding contains eq_text
dedup_onto seen [] = seen
dedup_onto seen (t ∷ ts) = dedup_onto (if contains t seen then seen else seen ++ t ∷ []) ts

unfoldable pub dedup : List Text → List Text
unfolding dedup_onto
dedup ts = dedup_onto [] ts

-- s < t, by code points.
unfoldable pub lt_text : Text → Text → Bool
lt_text [] [] = false
lt_text [] (b ∷ t) = true
lt_text (a ∷ s) [] = false
lt_text (a ∷ s) (b ∷ t) = ltb a b || a == b && lt_text s t

-- sorted(texts)
unfoldable pub insert_sorted : Text → List Text → List Text
unfolding lt_text
insert_sorted t [] = t ∷ []
insert_sorted t (s ∷ ts) = if lt_text t s then t ∷ s ∷ ts else s ∷ insert_sorted t ts

unfoldable pub sorted : List Text → List Text
unfolding insert_sorted
sorted [] = []
sorted (t ∷ ts) = insert_sorted t (sorted ts)

-- str(n): the digits of a number, most significant first; n + 1 rounds are always enough.
unfoldable pub decimal_onto : ℕ → ℕ → Text → Text
decimal_onto zero n out = out
decimal_onto (suc fuel) n out =
    let digit = b'0' + n % 10 in
    let rest = decimal_onto fuel (n / 10) (digit ∷ out) in if ltb n 10 then digit ∷ out else rest

unfoldable pub decimal : ℕ → Text
unfolding decimal_onto
decimal n = decimal_onto (n + 1) n []
