-- ===== src/Go/Utf8/Idempotent.antt =====
-- The coercion to UTF-8 leaves what it has made as it is: rune by rune.
use skiffdb.Prelude.{
  if◌then◌else◌, Bool, true, false, ◌∙◌, ap, ℕ, true, false, Bytes, [], ◌∷◌, ◌≡◌, refl, ltb, arith,
}
use skiffdb.Go.Utf8.{coerce_utf8, tail_byte, rune_2, rune_3, rune_4, replaced}

coerce-ascii : (a : ℕ) (s : Bytes) → ltb a 0x80 ≡ true → coerce_utf8 (a ∷ s) ≡ a ∷ coerce_utf8 s
unfolding coerce_utf8
coerce-ascii a [] h = ground arith
coerce-ascii a (b ∷ []) h = rw h refl
coerce-ascii a (b ∷ c ∷ []) h = rw h refl
coerce-ascii a (b ∷ c ∷ d ∷ s) h = rw h refl

rune_2_high : (a b : ℕ) → rune_2 a b ≡ true → ltb a 0x80 ≡ false
unfolding rune_2
rune_2_high a b h = ground arith

rune_3_high : (a b c : ℕ) → rune_3 a b c ≡ true → ltb a 0x80 ≡ false
unfolding rune_3
rune_3_high a b c h = ground arith

rune_3_ne : (a b c : ℕ) → rune_3 a b c ≡ true → rune_2 a b ≡ false
unfolding rune_3 rune_2 tail_byte
rune_3_ne a b c h = ground arith

rune_4_high : (a b c d : ℕ) → rune_4 a b c d ≡ true → ltb a 0x80 ≡ false
unfolding rune_4
rune_4_high a b c d h = ground arith

rune_4_ne_2 : (a b c d : ℕ) → rune_4 a b c d ≡ true → rune_2 a b ≡ false
unfolding rune_4 rune_2
rune_4_ne_2 a b c d h = ground arith

rune_4_ne_3 : (a b c d : ℕ) → rune_4 a b c d ≡ true → rune_3 a b c ≡ false
unfolding rune_4 rune_3
rune_4_ne_3 a b c d h = ground arith

coerce-rune_2 :
    (a b : ℕ) (s : Bytes) → rune_2 a b ≡ true → coerce_utf8 (a ∷ b ∷ s) ≡ a ∷ b ∷ coerce_utf8 s
unfolding coerce_utf8
coerce-rune_2 a b [] h = rw (rune_2_high a b h, h) refl
coerce-rune_2 a b (c ∷ []) h = rw (rune_2_high a b h, h) refl
coerce-rune_2 a b (c ∷ d ∷ s) h = rw (rune_2_high a b h, h) refl

coerce-rune_3 :
    (a b c : ℕ) (s : Bytes)
    → rune_3 a b c ≡ true
    → coerce_utf8 (a ∷ b ∷ c ∷ s) ≡ a ∷ b ∷ c ∷ coerce_utf8 s
unfolding coerce_utf8
coerce-rune_3 a b c [] h = rw (rune_3_high a b c h, rune_3_ne a b c h, h) refl
coerce-rune_3 a b c (d ∷ s) h = rw (rune_3_high a b c h, rune_3_ne a b c h, h) refl

coerce-rune_4 :
    (a b c d : ℕ) (s : Bytes)
    → rune_4 a b c d ≡ true
    → coerce_utf8 (a ∷ b ∷ c ∷ d ∷ s) ≡ a ∷ b ∷ c ∷ d ∷ coerce_utf8 s
unfolding coerce_utf8
coerce-rune_4 a b c d s h =
    rw (rune_4_high a b c d h, rune_4_ne_2 a b c d h, rune_4_ne_3 a b c d h, h) refl

coerce-replaced : (s : Bytes) → coerce_utf8 (replaced s) ≡ replaced (coerce_utf8 s)
unfolding replaced
coerce-replaced s = coerce-rune_3 0xef 0xbf 0xbd s (unfold rune_3 tail_byte in refl)

record Fixed (s : Bytes) : Type 0 where
  fixed : coerce_utf8 s ≡ s

Fixed-if :
    (b : Bool) (x y : Bytes)
    → (b ≡ true → Fixed x)
    → (b ≡ false → Fixed y)
    → Fixed (if b then x else y)
Fixed-if true x y hx hy = hx refl
Fixed-if false x y hx hy = hy refl

Fixed-ascii : (a : ℕ) (s : Bytes) → ltb a 0x80 ≡ true → Fixed s → Fixed (a ∷ s)
Fixed-ascii a s h f = record { fixed = coerce-ascii a s h ∙ ap (λ t. a ∷ t) f.fixed }

Fixed-rune_2 : (a b : ℕ) (s : Bytes) → rune_2 a b ≡ true → Fixed s → Fixed (a ∷ b ∷ s)
Fixed-rune_2 a b s h f = record { fixed = coerce-rune_2 a b s h ∙ ap (λ t. a ∷ b ∷ t) f.fixed }

Fixed-rune_3 : (a b c : ℕ) (s : Bytes) → rune_3 a b c ≡ true → Fixed s → Fixed (a ∷ b ∷ c ∷ s)
Fixed-rune_3 a b c s h f = record {
  fixed = coerce-rune_3 a b c s h ∙ ap (λ t. a ∷ b ∷ c ∷ t) f.fixed;
}

Fixed-rune_4 :
    (a b c d : ℕ) (s : Bytes) → rune_4 a b c d ≡ true → Fixed s → Fixed (a ∷ b ∷ c ∷ d ∷ s)
Fixed-rune_4 a b c d s h f = record {
  fixed = coerce-rune_4 a b c d s h ∙ ap (λ t. a ∷ b ∷ c ∷ d ∷ t) f.fixed;
}

Fixed-replaced : (s : Bytes) → Fixed s → Fixed (replaced s)
Fixed-replaced s f = record { fixed = coerce-replaced s ∙ ap replaced f.fixed }

Fixed-nil : Fixed []
unfolding coerce_utf8
Fixed-nil = record { fixed = refl }

coerce_utf8-Fixed : (s : Bytes) → Fixed (coerce_utf8 s)
unfolding coerce_utf8
coerce_utf8-Fixed [] = Fixed-nil
coerce_utf8-Fixed (a ∷ []) =
    Fixed-if (ltb a 0x80) _ _ (λ h. Fixed-ascii a [] h Fixed-nil) (λ h. Fixed-replaced [] Fixed-nil)
coerce_utf8-Fixed (a ∷ b ∷ []) =
    let one = coerce_utf8-Fixed (b ∷ []) in
    Fixed-if (ltb a 0x80) _ _ (λ h. Fixed-ascii a _ h one)
      (λ h.
        Fixed-if (rune_2 a b) _ _ (λ k. Fixed-rune_2 a b [] k Fixed-nil)
          (λ k. Fixed-replaced _ one))
coerce_utf8-Fixed (a ∷ b ∷ c ∷ []) =
    let one = coerce_utf8-Fixed (b ∷ c ∷ []) in
    let two = coerce_utf8-Fixed (c ∷ []) in
    Fixed-if (ltb a 0x80) _ _ (λ h. Fixed-ascii a _ h one)
      (λ h.
        Fixed-if (rune_2 a b) _ _ (λ k. Fixed-rune_2 a b _ k two)
          (λ k.
            Fixed-if (rune_3 a b c) _ _ (λ l. Fixed-rune_3 a b c [] l Fixed-nil)
              (λ l. Fixed-replaced _ one)))
coerce_utf8-Fixed (a ∷ b ∷ c ∷ d ∷ s) =
    let one = coerce_utf8-Fixed (b ∷ c ∷ d ∷ s) in
    let two = coerce_utf8-Fixed (c ∷ d ∷ s) in
    let three = coerce_utf8-Fixed (d ∷ s) in
    let four = coerce_utf8-Fixed s in
    Fixed-if (ltb a 0x80) _ _ (λ h. Fixed-ascii a _ h one)
      (λ h.
        Fixed-if (rune_2 a b) _ _ (λ k. Fixed-rune_2 a b _ k two)
          (λ k.
            Fixed-if (rune_3 a b c) _ _ (λ l. Fixed-rune_3 a b c _ l three)
              (λ l.
                Fixed-if (rune_4 a b c d) _ _ (λ m. Fixed-rune_4 a b c d _ m four)
                  (λ m. Fixed-replaced _ one))))

-- What has been coerced to UTF-8 once stays as it is.
pub coerce_utf8_idempotent : (s : Bytes) → coerce_utf8 (coerce_utf8 s) ≡ coerce_utf8 s
coerce_utf8_idempotent s = (coerce_utf8-Fixed s).fixed
