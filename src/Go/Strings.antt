-- ===== src/Go/Strings.antt =====
-- `strings.TrimSpace`, byte by byte: an ASCII space, or the UTF-8 form of a Unicode space. A space's
-- first byte is the nearest start of a rune, so a suffix is tested as a reversed prefix.
use mathlib.Core.List.{reverse, map}
use skiffdb.Prelude.{
  false, List, ◌++◌, ℕ, Bool, true, ◌&&◌, ◌||◌, Bytes, [], ◌∷◌, ◌≡◌, refl, ◌==◌, ltb, leb,
  if◌then◌else◌, length, drop, codes, zero, suc, ◌-◌,
}

unfoldable pub is_space : ℕ → Bool
is_space c = leb 9 c && leb c 13 || c == 32

-- U+0085 and U+00A0.
space_2 : ℕ → ℕ → Bool
space_2 a b = a == 0xc2 && (b == 0x85 || b == 0xa0)

-- U+1680, U+2000 to U+200A, U+2028, U+2029, U+202F, U+205F and U+3000.
space_3 : ℕ → ℕ → ℕ → Bool
space_3 a b c =
    a == 0xe1 && b == 0x9a && c == 0x80
    || a == 0xe2 && b == 0x80 && (leb 0x80 c && leb c 0x8a || c == 0xa8 || c == 0xa9 || c == 0xaf)
    || a == 0xe2 && b == 0x81 && c == 0x9f
    || a == 0xe3 && b == 0x80 && c == 0x80

-- The bytes of the space at the front, 0 if there is none.
front : Bytes → ℕ
unfolding is_space space_2 space_3
front [] = 0
front (a ∷ []) = if is_space a then 1 else 0
front (a ∷ b ∷ []) = if is_space a then 1 else if space_2 a b then 2 else 0
front (a ∷ b ∷ c ∷ s) =
    if is_space a then 1 else if space_2 a b then 2 else if space_3 a b c then 3 else 0

-- The same at the end of the reversed text.
back : Bytes → ℕ
unfolding is_space space_2 space_3
back [] = 0
back (a ∷ []) = if is_space a then 1 else 0
back (b ∷ a ∷ []) = if is_space b then 1 else if space_2 a b then 2 else 0
back (c ∷ b ∷ a ∷ s) =
    if is_space c then 1 else if space_2 b c then 2 else if space_3 a b c then 3 else 0

-- Drops spaces as long as there is one; each round drops a byte or more, so the length is enough fuel.
trim : ℕ → (Bytes → ℕ) → Bytes → Bytes
trim zero space s = s
trim (suc f) space s =
    let n = space s in let rest = trim f space (drop n s) in if n == 0 then s else rest

unfoldable pub trim_space : Bytes → Bytes
unfolding front back trim
trim_space s = let t = reverse (trim (length s) front s) in reverse (trim (length t) back t)

is_ascii : Bytes → Bool
is_ascii [] = true
is_ascii (c ∷ s) = ltb c 0x80 && is_ascii s

upper : ℕ → ℕ
upper c = if leb b'a' c && leb c b'z' then c - 32 else c

-- `strings.ToUpper`. Outside ASCII the tables of Unicode decide: they are the argument.
unfoldable pub to_upper : (Bytes → Bytes) → Bytes → Bytes
unfolding is_ascii upper
to_upper unicode s = if is_ascii s then map upper s else unicode s

trims : trim_space (codes " \t n1\r\n ") ≡ codes "n1"
unfolding trim_space
trims = refl

trims_unicode : trim_space (0xe2 ∷ 0x80 ∷ 0x83 ∷ b'n' ∷ 0xc2 ∷ 0xa0 ∷ []) ≡ b'n' ∷ []
unfolding trim_space
trims_unicode = refl

starts_with : Bytes → Bytes → Bool
starts_with [] s = true
starts_with (c ∷ p) [] = false
starts_with (c ∷ p) (d ∷ s) = c == d && starts_with p s

-- `strings.Contains(s, part)`.
unfoldable pub contains : Bytes → Bytes → Bool
unfolding starts_with
contains [] part = starts_with part []
contains (c ∷ s) part = starts_with part (c ∷ s) || contains s part

-- `strings.Join`.
unfoldable pub join : Bytes → List Bytes → Bytes
join sep [] = []
join sep (s ∷ []) = s
join sep (s ∷ t ∷ rest) = s ++ (sep ++ join sep (t ∷ rest))
