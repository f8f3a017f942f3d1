-- ===== src/Prelude/Map.antt =====
-- A JavaScript `Map` whose keys are texts: an association list in insertion order. Setting a key
-- that is present replaces its value in place.
use floe_runtime.Prelude.{
  String, ◌≡◌, refl, Bool, Option, none, some, List, [], ◌∷◌, arith, ◌==◌, eq_iff, eq_refl,
  if◌then◌else◌, is_some,
}

abbrev pub Map {ℓ} : Type ℓ → Type ℓ
Map V = List (String × V)

module _ {ℓ} {V : Type ℓ} where
  unfoldable pub get : Map V → String → Option V
  get [] k = none
  get ((j, v) ∷ m) k = if j == k then some v else get m k

  unfoldable pub set : Map V → String → V → Map V
  set [] k v = (k, v) ∷ []
  set ((j, w) ∷ m) k v = if j == k then (j, v) ∷ m else (j, w) ∷ set m k v

  unfoldable pub delete : Map V → String → Map V
  delete [] k = []
  delete ((j, w) ∷ m) k = if j == k then delete m k else (j, w) ∷ delete m k

  pub get-set :
      (k j : String) (v : V) (m : Map V) → get (set m k v) j ≡ (if k == j then some v else get m j)
  unfolding get set
  get-set k j v [] = refl
  get-set k j v ((i, w) ∷ m) = ground (arith, eq_iff k j, eq_iff i k, eq_iff i j, get-set k j v m)

  pub get-delete :
      (k j : String) (m : Map V) → get (delete m k) j ≡ (if k == j then none else get m j)
  unfolding get delete
  get-delete k j [] = ground arith
  get-delete k j ((i, w) ∷ m) = ground (arith, eq_iff k j, eq_iff i k, eq_iff i j, get-delete k j m)

  pub get-set_self : (k : String) (v : V) (m : Map V) → get (set m k v) k ≡ some v
  get-set_self k v m = simp (get-set, eq_refl)

  pub get-delete_self : (k : String) (m : Map V) → get (delete m k) k ≡ none
  get-delete_self k m = simp (get-delete, eq_refl)

  abbrev pub has : Map V → String → Bool
  has m k = is_some (get m k)

  -- `Map.prototype.keys` and `values`, in insertion order.
  abbrev pub keys : Map V → List String
  keys [] = []
  keys ((k, v) ∷ m) = k ∷ keys m

  abbrev pub values : Map V → List V
  values [] = []
  values ((k, v) ∷ m) = v ∷ values m

  -- A key set twice keeps its last value, and nothing else changes.
  pub set-set : (k : String) (v w : V) (m : Map V) → set (set m k v) k w ≡ set m k w
  unfolding set
  set-set k v w [] = rw (eq_refl k)
  set-set k v w ((j, u) ∷ m) = ground (arith, set-set k v w m)

  pub delete_missing : (k : String) (m : Map V) → get m k ≡ none → delete m k ≡ m
  unfolding get delete
  delete_missing k [] h = refl
  delete_missing k ((j, u) ∷ m) h = ground (arith, delete_missing k m)

  -- `Object.fromEntries(Object.entries(m).filter(([key]) => p(key)))`
  unfoldable pub keep_keys : (String → Bool) → Map V → Map V
  keep_keys p [] = []
  keep_keys p ((k, v) ∷ m) = if p k then (k, v) ∷ keep_keys p m else keep_keys p m

  pub get-keep_keys :
      (p : String → Bool) (m : Map V) (k : String)
      → get (keep_keys p m) k ≡ (if p k then get m k else none)
  unfolding get keep_keys
  get-keep_keys p [] k = ground arith
  get-keep_keys p ((j, v) ∷ m) k = ground (arith, eq_iff j k, get-keep_keys p m k)
