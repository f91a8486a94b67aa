-- ===== src/Common/Map.antt =====
-- `BTreeMap<String, V>` as its entries in the order of the keys.
use agentmesh_private.Common.{
  Text, Option, none, some, List, [], ◌∷◌, ◌≡◌, refl, arith, str_eq, str_le, str_eq_iff,
  if◌then◌else◌,
}

abbrev pub Map {ℓ} : Type ℓ → Type ℓ
Map V = List (Text × V)

module _ {ℓ} {V : Type ℓ} where
  unfoldable pub get : Map V → Text → Option V
  get [] k = none
  get ((j, v) ∷ m) k = if str_eq j k then some v else get m k

  -- An entry that is there keeps its place, a new one goes in front of the first larger key.
  unfoldable pub insert : Text → V → Map V → Map V
  insert k v [] = (k, v) ∷ []
  insert k v ((j, w) ∷ m) =
      let rest = insert k v m in
      if str_eq j k then (j, v) ∷ m else if str_le k j then (k, v) ∷ (j, w) ∷ m else (j, w) ∷ rest

  pub get-insert :
      (k j : Text) (v : V) (m : Map V)
      → get (insert k v m) j ≡ (if str_eq k j then some v else get m j)
  unfolding get insert
  get-insert k j v [] = refl
  get-insert k j v ((i, w) ∷ m) =
      ground (arith, str_eq_iff i k, str_eq_iff i j, str_eq_iff k j, get-insert k j v m)
