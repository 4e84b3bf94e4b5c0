-- ===== src/Core/Membership/Join/Validation.antt =====
-- `validateJoiningMember`: which members are found, and which requests conflict.
use skiffdb.Prelude.{
  Option, none, some, List, [], ◌∷◌, ◌≡◌, ◌≢◌, ◌⊎◌, inl, inr, refl, Bool, true, false, ◌&&◌, Bytes,
  eq_bytes, eq_bytes_iff, if◌then◌else◌, ◌↔◌,
}
use skiffdb.Core.Membership.Join.{find_member}
use skiffdb.Core.Membership.{Server, JoinError, id_registered, address_registered, Result, ok, err}

abbrev pub Member : Server → List Server → Type 0
Member m [] = ⊥
Member m (s ∷ servers) = (m ≡ s) ⊎ Member m servers

abbrev pub Absent : List Server → Bytes → Bytes → Type 0
Absent [] id addr = Unit
Absent (s ∷ servers) id addr = (s.id ≢ id) × (s.address ≢ addr) × Absent servers id addr

-- A member that has one of the identity and the address, and not the other; the error names the other.
abbrev pub Conflict : Server → Bytes → Bytes → JoinError → Type 0
Conflict s id addr e =
    ((s.id ≡ id) × (s.address ≢ addr) × (e ≡ id_registered id s.address))
    ⊎ ((s.id ≢ id) × (s.address ≡ addr) × (e ≡ address_registered addr s.id))

abbrev pub Says : List Server → Bytes → Bytes → Result (Option Server) → Type 0
Says servers id addr (ok none) = Absent servers id addr
Says servers id addr (ok (some m)) = Member m servers × (m.id ≡ id) × (m.address ≡ addr)
Says servers id addr (err e) = (s : Server) × Member s servers × Conflict s id addr e

-- A conflict or a member behind the first server is one of the whole list, when the first is neither.
Says-cons :
    (server : Server) (servers : List Server) (id addr : Bytes) (rest : Result (Option Server))
    → server.id ≢ id
    → server.address ≢ addr
    → Says servers id addr rest
    → Says (server ∷ servers) id addr rest
Says-cons server servers id addr (ok none) h k says = (h, k, says)
Says-cons server servers id addr (ok (some m)) h k (member, same_id, same_addr) =
    (inr member, same_id, same_addr)
Says-cons server servers id addr (err e) h k (s, member, says) = (s, inr member, says)

not_same : false ≢ true
not_same h = cc

Says-tests :
    (server : Server) (servers : List Server) (id addr : Bytes) (rest : Result (Option Server))
    → Says servers id addr rest
    → (same_id same_addr : Bool) → (same_id ≡ true) ↔ (server.id ≡ id)
    → (same_addr ≡ true) ↔ (server.address ≡ addr)
    → Says (server ∷ servers) id addr (
        if same_id && same_addr
        then ok (some server)
        else if same_id
        then err (id_registered id server.address)
        else if same_addr
        then err (address_registered addr server.id)
        else rest)
Says-tests server servers id addr rest says true true h k = (inl refl, h.0 refl, k.0 refl)
Says-tests server servers id addr rest says true false h k =
    (server, inl refl, inl (h.0 refl, (λ e. not_same (k.1 e)), refl))
Says-tests server servers id addr rest says false true h k =
    (server, inl refl, inr ((λ e. not_same (h.1 e)), k.0 refl, refl))
Says-tests server servers id addr rest says false false h k =
    Says-cons server servers id addr rest (λ e. not_same (h.1 e)) (λ e. not_same (k.1 e)) says

-- The search through the configuration fails on no input. It finds a member only under both the
-- identity and the address asked for, says that there is none only when no member has either of them,
-- and else refuses with the identity or the address that a member has with another partner.
pub find_member-Says :
    (servers : List Server) (id addr : Bytes) → Says servers id addr (find_member servers id addr)
unfolding find_member
find_member-Says [] id addr = tt
find_member-Says (server ∷ servers) id addr =
    Says-tests server servers id addr (find_member servers id addr)
      (find_member-Says servers id addr) (eq_bytes server.id id) (eq_bytes server.address addr)
      (eq_bytes_iff server.id id) (eq_bytes_iff server.address addr)
