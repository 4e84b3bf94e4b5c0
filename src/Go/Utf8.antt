-- ===== src/Go/Utf8.antt =====
-- UTF-8 as Go decodes it. `encoding/json` writes each byte that belongs to no rune as U+FFFD, so a
-- string comes back from JSON as its coercion.
pub mod Idempotent
use skiffdb.Prelude.{
  ℕ, Bool, ◌&&◌, ◌||◌, Bytes, [], ◌∷◌, ◌≡◌, refl, ltb, leb, ◌==◌, if◌then◌else◌, arith, All, ◌<◌,
}

tail_byte : ℕ → Bool
tail_byte c = leb 0x80 c && leb c 0xbf

rune_2 : ℕ → ℕ → Bool
rune_2 a b = leb 0xc2 a && leb a 0xdf && tail_byte b

rune_3 : ℕ → ℕ → ℕ → Bool
rune_3 a b c =
    (a == 0xe0 && leb 0xa0 b && leb b 0xbf
      || a == 0xed && leb 0x80 b && leb b 0x9f
      || (leb 0xe1 a && leb a 0xec || leb 0xee a && leb a 0xef) && tail_byte b)
    && tail_byte c

rune_4 : ℕ → ℕ → ℕ → ℕ → Bool
rune_4 a b c d =
    (a == 0xf0 && leb 0x90 b && leb b 0xbf
      || a == 0xf4 && leb 0x80 b && leb b 0x8f
      || leb 0xf1 a && leb a 0xf3 && tail_byte b)
    && tail_byte c
    && tail_byte d

replaced : Bytes → Bytes
replaced s = 0xef ∷ 0xbf ∷ 0xbd ∷ s

unfoldable pub coerce_utf8 : Bytes → Bytes
unfolding tail_byte rune_2 rune_3 rune_4 replaced
coerce_utf8 [] = []
coerce_utf8 (a ∷ []) = if ltb a 0x80 then a ∷ [] else replaced []
coerce_utf8 (a ∷ b ∷ []) =
    let one = coerce_utf8 (b ∷ []) in
    if ltb a 0x80 then a ∷ one else if rune_2 a b then a ∷ b ∷ [] else replaced one
coerce_utf8 (a ∷ b ∷ c ∷ []) =
    let one = coerce_utf8 (b ∷ c ∷ []) in
    let two = coerce_utf8 (c ∷ []) in
    if ltb a 0x80
    then a ∷ one
    else if rune_2 a b
    then a ∷ b ∷ two
    else if rune_3 a b c
    then a ∷ b ∷ c ∷ []
    else replaced one
coerce_utf8 (a ∷ b ∷ c ∷ d ∷ s) =
    let one = coerce_utf8 (b ∷ c ∷ d ∷ s) in
    let two = coerce_utf8 (c ∷ d ∷ s) in
    let three = coerce_utf8 (d ∷ s) in
    let four = coerce_utf8 s in
    if ltb a 0x80
    then a ∷ one
    else if rune_2 a b
    then a ∷ b ∷ two
    else if rune_3 a b c
    then a ∷ b ∷ c ∷ three
    else if rune_4 a b c d
    then a ∷ b ∷ c ∷ d ∷ four
    else replaced one

-- ASCII text is its own coercion.
pub coerce_utf8_ascii : (s : Bytes) → All (λ c. c < 0x80) s → coerce_utf8 s ≡ s
unfolding coerce_utf8
coerce_utf8_ascii [] h = refl
coerce_utf8_ascii (a ∷ []) h = ground arith
coerce_utf8_ascii (a ∷ b ∷ []) (ha, h) = ground (arith, coerce_utf8_ascii (b ∷ []) h)
coerce_utf8_ascii (a ∷ b ∷ c ∷ []) (ha, h) = ground (arith, coerce_utf8_ascii (b ∷ c ∷ []) h)
coerce_utf8_ascii (a ∷ b ∷ c ∷ d ∷ s) (ha, h) = ground (arith, coerce_utf8_ascii (b ∷ c ∷ d ∷ s) h)

lone_byte :
    coerce_utf8 (b'a' ∷ 0xff ∷ 0xc3 ∷ 0xa9 ∷ []) ≡ b'a' ∷ 0xef ∷ 0xbf ∷ 0xbd ∷ 0xc3 ∷ 0xa9 ∷ []
unfolding coerce_utf8
lone_byte = refl
