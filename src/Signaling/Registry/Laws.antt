-- ===== src/Signaling/Registry/Laws.antt =====
-- backend/internal/signaling/registry.go: what registering and the clean-up do.
use text.Mathlib.Text.{◌==◌ as str_eq}
use altair.Prelude.{
  inl, inr, ℕ, ◌≡◌, ◌≢◌, refl, String, List, [], ◌∷◌, ◌++◌, none, some, arith, Bool-cases,
  Option-cases, if◌then◌else◌,
}
use altair.Signaling.Dict.{lookup, insert, lookup-insert}
use altair.Signaling.Peer.{Heap, update}
use altair.Signaling.Registry.{Registry, free_id, first_id, register}

-- A free ID is taken as it is.
free_id_here :
    (r : Registry) (id : String) (supply : List String)
    → lookup id r ≡ none
    → free_id r id supply ≡ some id
unfolding free_id
free_id_here r id [] e = ground (arith, e)
free_id_here r id (next ∷ rest) e = ground (arith, e)

-- The loop finds a free ID if the supply has one.
free_id_lem :
    (r : Registry) (id x : String) (before after : List String)
    → lookup x r ≡ none
    → (found : String) × (free_id r id (before ++ x ∷ after) ≡ some found) × (lookup found r ≡ none)
unfolding free_id
free_id_lem r id x [] after e = elim (Option-cases (lookup id r)) [
  | inl f ↦ (id, free_id_here r id (x ∷ after) f, f)
  | inr (p, f) ↦ (x, rw (f, free_id) (free_id_here r x after e), e)
]
free_id_lem r id x (y ∷ ys) after e = elim (Option-cases (lookup id r)) [
  | inl f ↦ (id, free_id_here r id (y ∷ ys ++ x ∷ after) f, f)
  | inr (p, f) ↦ let (found, g, h) = free_id_lem r y x ys after e in (found, rw (f, free_id) g, h)
]

start_lem :
    (r : Registry) (id x : String) (before after : List String)
    → lookup x r ≡ none
    → (start : String) × (rest : List String) × (found : String) × (first_id id
          (before ++ x ∷ after)
        ≡ some (start, rest))
      × (free_id r start rest ≡ some found)
      × (lookup found r ≡ none)
start_lem r id x [] after e = elim (Bool-cases (str_eq id "")) [
  | inl t ↦ (x, after, x, rw t refl, free_id_here r x after e, e)
  | inr t ↦
      let (found, g, h) = free_id_lem r id x [] after e in (id, x ∷ after, found, rw t refl, g, h)
]
start_lem r id x (y ∷ ys) after e = elim (Bool-cases (str_eq id "")) [
  | inl t ↦
      let (found, g, h) = free_id_lem r y x ys after e in
      (y, ys ++ x ∷ after, found, rw t refl, g, h)
  | inr t ↦
      let (found, g, h) = free_id_lem r id x (y ∷ ys) after e in
      (id, y ∷ ys ++ x ∷ after, found, rw t refl, g, h)
]

-- If the supply of random IDs has one that no peer of the registry has, Register returns and gives
-- the peer an ID that no peer of the registry had: afterwards the ID leads to the peer, every
-- other ID to what it led to before, and no other peer is changed.
pub register_fresh :
    (r : Registry) (h : Heap) (peer : ℕ) (before after : List String) (x : String)
    → lookup x r ≡ none
    → (r' : Registry) × (h' : Heap) × (register r h peer (before ++ x ∷ after) ≡ some (r', h'))
      × (lookup (h' peer).id r ≡ none)
      × ((id : String) → lookup id r' ≡ (if str_eq (h' peer).id id then some peer else lookup id r))
      × ((q : ℕ) → peer ≢ q → h' q ≡ h q)
unfolding register
register_fresh r h peer before after x e =
    let (start, rest, found, f, g, free) = start_lem r (h peer).id x before after e in
    let h' : Heap = update h peer (record (h peer) { id = found }) in
    let own : (h' peer).id ≡ found = ground arith in
    (
      insert found peer r,
      h',
      rw (f, g, register) refl,
      rw own free,
      λ id. rw own (lookup-insert found id peer r),
      λ q n. ground (arith, n),
    )
