-- ===== src/Go/Filepath.antt =====
-- Go's path/filepath on a Unix system: `Base`.
use skiffdb.Prelude.{
  ℕ, [], ◌∷◌, ◌≡◌, ◌⊎◌, inl, inr, refl, arith, Bool, true, false, ◌&&◌, ◌==◌, Bytes, codes,
  is_empty, if◌then◌else◌,
}

-- `strings.Contains` for one byte.
unfoldable pub has_byte : ℕ → Bytes → Bool
has_byte b [] = false
has_byte b (c ∷ s) = if c == b then true else has_byte b s

strip_slashes : Bytes → Bytes
strip_slashes [] = []
strip_slashes (c ∷ s) =
    let rest = strip_slashes s in if is_empty rest && c == b'/' then [] else c ∷ rest

last_element : Bytes → Bytes
last_element [] = []
last_element (c ∷ s) =
    let rest = last_element s in if has_byte b'/' s then rest else if c == b'/' then s else c ∷ s

or_slash : Bytes → Bytes
or_slash [] = codes "/"
or_slash (c ∷ s) = c ∷ s

unfoldable pub base : Bytes → Bytes
unfolding strip_slashes last_element or_slash
base [] = codes "."
base (c ∷ s) = or_slash (last_element (strip_slashes (c ∷ s)))

last_element-has_byte : (s : Bytes) → has_byte b'/' (last_element s) ≡ false
unfolding last_element has_byte
last_element-has_byte [] = refl
last_element-has_byte (c ∷ s) = ground (arith, last_element-has_byte s)

or_slash-has_byte :
    (s : Bytes)
    → has_byte b'/' s ≡ false
    → (or_slash s ≡ codes "/") ⊎ (has_byte b'/' (or_slash s) ≡ false)
unfolding or_slash
or_slash-has_byte [] h = inl refl
or_slash-has_byte (c ∷ s) h = inr h

-- The last element of a path has no separator, or the path has nothing else.
pub base-has_byte : (s : Bytes) → (base s ≡ codes "/") ⊎ (has_byte b'/' (base s) ≡ false)
unfolding base has_byte
base-has_byte [] = inr refl
base-has_byte (c ∷ s) = or_slash-has_byte _ (last_element-has_byte (strip_slashes (c ∷ s)))

base_root : base (codes "/") ≡ codes "/"
unfolding base has_byte
base_root = refl

base_path : base (codes "a/b//") ≡ codes "b"
unfolding base has_byte
base_path = refl
