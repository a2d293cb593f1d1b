-- ===== src/Signaling/Dict.antt =====
-- Go maps with string keys as association lists. Go leaves the order of iteration open; the order of
-- the list stands for the one that a run takes.
use text.Mathlib.TextEquality.{eq_iff}
use text.Mathlib.Text.{◌==◌}
use altair.Prelude.{
  suc, ◌≤◌, ◌≡◌, refl, String, List, [], ◌∷◌, Option, none, some, arith, if◌then◌else◌, length,
}

abbrev pub Dict {ℓ} : Type ℓ → Type ℓ
Dict V = List (String × V)

module _ {ℓ} {V : Type ℓ} where
  unfoldable pub lookup : String → Dict V → Option V
  lookup key [] = none
  lookup key ((other, val) ∷ rest) = if other == key then some val else lookup key rest

  -- m[key] = val
  unfoldable pub insert : String → V → Dict V → Dict V
  insert key val [] = (key, val) ∷ []
  insert key val ((other, old) ∷ rest) =
      if other == key then (key, val) ∷ rest else (other, old) ∷ insert key val rest

  -- delete(m, key)
  unfoldable pub delete : String → Dict V → Dict V
  delete key [] = []
  delete key ((other, val) ∷ rest) =
      let kept = delete key rest in if other == key then kept else (other, val) ∷ kept

  -- Every key occurs once.
  abbrev pub Distinct : Dict V → Type ℓ
  Distinct [] = Unit
  Distinct ((key, val) ∷ rest) = (lookup key rest ≡ none) × Distinct rest

  pub lookup-insert :
      (key other : String) (val : V) (rest : Dict V)
      → lookup other (insert key val rest) ≡ (if key == other then some val else lookup other rest)
  unfolding lookup insert
  lookup-insert key other val [] = refl
  lookup-insert key other val ((first, old) ∷ rest) = ground (
    arith,
    lookup-insert key other val rest,
    eq_iff first other,
    eq_iff first key,
    eq_iff key other,
  )

  pub lookup-delete :
      (key other : String) (rest : Dict V)
      → lookup other (delete key rest) ≡ (if key == other then none else lookup other rest)
  unfolding lookup delete
  lookup-delete key other [] = ground arith
  lookup-delete key other ((first, old) ∷ rest) =
      ground (
        arith,
        eq_iff key other,
        eq_iff first key,
        eq_iff first other,
        lookup-delete key other rest,
      )

  pub insert-Distinct :
      (key : String) (val : V) (rest : Dict V) → Distinct rest → Distinct (insert key val rest)
  unfolding insert
  insert-Distinct key val [] h = (unfold lookup in refl, tt)
  insert-Distinct key val ((other, old) ∷ rest) (h, d) = ground (
    arith,
    eq_iff other key,
    eq_iff key other,
    lookup-insert key other val rest,
    insert-Distinct key val rest d,
  )

  pub delete-Distinct : (key : String) (rest : Dict V) → Distinct rest → Distinct (delete key rest)
  unfolding delete
  delete-Distinct key [] h = tt
  delete-Distinct key ((other, old) ∷ rest) (h, d) =
      ground (arith, lookup-delete key other rest, delete-Distinct key rest d)

  -- A new key makes the map longer by one, an old one does not.
  pub length-insert :
      (key : String) (val : V) (rest : Dict V)
      → length (insert key val rest)
        ≡ (elim (lookup key rest) [ none ↦ suc (length rest) | some old ↦ length rest ])
  unfolding lookup insert
  length-insert key val [] = refl
  length-insert key val ((other, old) ∷ rest) = ground (arith, length-insert key val rest)

  pub length-delete-le : (key : String) (rest : Dict V) → length (delete key rest) ≤ length rest
  unfolding delete
  length-delete-le key [] = omega arith
  length-delete-le key ((other, old) ∷ rest) = ground (arith, length-delete-le key rest)
