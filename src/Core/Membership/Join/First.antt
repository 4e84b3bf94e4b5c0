-- ===== src/Core/Membership/Join/First.antt =====
-- `validateJoiningMember` finds the first server of an identity.
use skiffdb.Prelude.{
  List, [], ◌∷◌, ◌≡◌, ◌≢◌, ◌⊎◌, inl, inr, refl, sym, ◌∙◌, Option, some, Bool, true, false, ◌&&◌,
  Bytes, eq_bytes, eq_bytes_iff, if◌then◌else◌,
}
use skiffdb.Core.Membership.{Server, id_registered, address_registered, Result, ok, err}
use skiffdb.Core.Membership.Join.{find_member}

-- The first server of this identity.
abbrev pub First : Bytes → List Server → Server → Type 0
First id [] m = ⊥
First id (s ∷ servers) m = ((s.id ≡ id) × (m ≡ s)) ⊎ ((s.id ≢ id) × First id servers m)

first_ne : (a b : Bytes) → eq_bytes a b ≡ false → a ≢ b
first_ne a b e p = let q : false ≡ true = sym e ∙ (eq_bytes_iff a b).1 p in cc

First-tests :
    (s m : Server) (servers : List Server) (id addr : Bytes) (rest : Result (Option Server))
    (same_id same_addr : Bool)
    → eq_bytes s.id id ≡ same_id
    → (rest ≡ ok (some m) → First id servers m)
    → (if same_id && same_addr
        then ok (some s)
        else if same_id
        then err (id_registered id s.address)
        else if same_addr
        then err (address_registered addr s.id)
        else rest)
      ≡ ok (some m)
    → First id (s ∷ servers) m
First-tests s m servers id addr rest true true e k h = inl ((eq_bytes_iff s.id id).0 e, cc)
First-tests s m servers id addr rest true false e k h = cc
First-tests s m servers id addr rest false true e k h = cc
First-tests s m servers id addr rest false false e k h = inr ((λ p. first_ne s.id id e p), k h)

pub find_member-First :
    (servers : List Server) (id addr : Bytes) (m : Server)
    → find_member servers id addr ≡ ok (some m)
    → First id servers m
unfolding find_member
find_member-First [] id addr m h = cc
find_member-First (s ∷ servers) id addr m h =
    First-tests s m servers id addr (find_member servers id addr) _ (eq_bytes s.address addr) refl
      (find_member-First servers id addr m) h
