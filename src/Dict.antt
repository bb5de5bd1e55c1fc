-- ===== src/Dict.antt =====
-- JavaScript's `Map` with string keys: an association list in insertion order. `set` of a key that
-- is there keeps its place; `delete` removes the key.
use agentic_mcp_teaming.Common.{
  String, ◌≡◌, refl, Bool, true, Option, none, some, List, [], ◌∷◌, map, arith, str_eq, eq_iff,
  str_eq_refl, if◌then◌else◌, is_some, All,
}
use mathlib.Core.Option

abbrev pub Dict {ℓ} : Type ℓ → Type ℓ
Dict V = List (String × V)

module _ {ℓ} {V : Type ℓ} where
  abbrev pub empty : Dict V
  empty = []

  unfoldable pub get : Dict V → String → Option V
  get [] k = none
  get ((j, v) ∷ d) k = if str_eq j k then some v else get d k

  unfoldable pub has : Dict V → String → Bool
  has d k = is_some (get d k)

  unfoldable pub set : Dict V → String → V → Dict V
  set [] k v = (k, v) ∷ []
  set ((j, w) ∷ d) k v = if str_eq j k then (j, v) ∷ d else (j, w) ∷ set d k v

  unfoldable pub delete : Dict V → String → Dict V
  delete [] k = []
  delete ((j, w) ∷ d) k = let rest = delete d k in if str_eq j k then rest else (j, w) ∷ rest

  unfoldable pub keys : Dict V → List String
  keys [] = []
  keys ((j, v) ∷ d) = j ∷ keys d

  unfoldable pub values : Dict V → List V
  values [] = []
  values ((j, v) ∷ d) = v ∷ values d

  -- A loop over the map that rewrites each value in place.
  unfoldable pub map_values : (V → V) → Dict V → Dict V
  map_values f [] = []
  map_values f ((j, v) ∷ d) = (j, f v) ∷ map_values f d

module _ {ℓ} {V : Type ℓ} where
  pub get-empty : (k : String) → get (empty {V = V}) k ≡ none
  unfolding get
  get-empty k = refl

  pub get-set :
      (d : Dict V) (k : String) (v : V) (j : String)
      → get (set d k v) j ≡ (if str_eq k j then some v else get d j)
  unfolding get set
  get-set [] k v j = refl
  get-set ((i, w) ∷ d) k v j = ground (arith, eq_iff k j, eq_iff i k, eq_iff i j, get-set d k v j)

  pub get-set_self : (d : Dict V) (k : String) (v : V) → get (set d k v) k ≡ some v
  get-set_self d k v = simp (get-set, str_eq_refl)

  pub get-delete :
      (d : Dict V) (k j : String) → get (delete d k) j ≡ (if str_eq k j then none else get d j)
  unfolding get delete
  get-delete [] k j = ground arith
  get-delete ((i, w) ∷ d) k j = ground (arith, eq_iff k j, eq_iff i k, eq_iff i j, get-delete d k j)

  pub get-map_values :
      (f : V → V) (d : Dict V) (j : String) → get (map_values f d) j ≡ Option.map f (get d j)
  unfolding get map_values
  get-map_values f [] j = refl
  get-map_values f ((i, w) ∷ d) j = ground (arith, get-map_values f d j)

  pub keys-map_values : (f : V → V) (d : Dict V) → keys (map_values f d) ≡ keys d
  unfolding keys map_values
  keys-map_values f [] = refl
  keys-map_values f ((i, w) ∷ d) = rw (keys-map_values f d)

  -- Setting a key that is there keeps the order of the keys.
  pub keys-set_present :
      (d : Dict V) (k : String) (v w : V) → get d k ≡ some w → keys (set d k v) ≡ keys d
  unfolding get keys set
  keys-set_present [] k v w h = cc
  keys-set_present ((i, u) ∷ d) k v w h = ground (arith, keys-set_present d k v w)

  -- Setting a key back to the value that it has changes nothing.
  pub set_same : (d : Dict V) (k : String) (v : V) → get d k ≡ some v → set d k v ≡ d
  unfolding get set
  set_same [] k v h = cc
  set_same ((i, u) ∷ d) k v h = ground (arith, set_same d k v)

  pub set-set : (d : Dict V) (k : String) (v w : V) → set (set d k v) k w ≡ set d k w
  unfolding set
  set-set [] k v w = ground (arith, str_eq_refl k)
  set-set ((i, u) ∷ d) k v w = ground (arith, set-set d k v w)

  -- Removing a key that was just added to a map without it gives the map back.
  pub delete-set_fresh :
      (d : Dict V) (k : String) (v : V) → get d k ≡ none → delete (set d k v) k ≡ d
  unfolding get set delete
  delete-set_fresh [] k v h = ground (arith, str_eq_refl k)
  delete-set_fresh ((i, u) ∷ d) k v h = ground (arith, delete-set_fresh d k v, str_eq_refl k)

  pub All-set :
      (P : String × V → Type ℓ) (d : Dict V) (k : String) (v : V)
      → All P d
      → ((j : String) → str_eq j k ≡ true → P (j, v))
      → All P (set d k v)
  unfolding set
  All-set P [] k v h p = (p k (str_eq_refl k), tt)
  All-set P ((i, u) ∷ d) k v h p = ground (arith, All-set P d k v h.1 p, p i)

pub ruleset dict_laws = (get-empty, get-set, get-delete, get-map_values, str_eq_refl)
