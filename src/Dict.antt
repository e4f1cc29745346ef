-- ===== src/Dict.antt =====
-- Go's `map[string]V`: a lookup, an assignment, and the entries of a `range` loop. The order of the
-- entries is that of the first assignments, where Go leaves it open.
use tuti_server.Base.{
  String, ◌≡◌, refl, List, [], ◌∷◌, map, Option, none, some, arith, ◌==◌, eq_iff, if◌then◌else◌,
}

pub record Dict {ℓ} (V : Type ℓ) : Type ℓ where
  entries : List (String × V)

module _ {ℓ} {V : Type ℓ} where
  unfoldable find : String → List (String × V) → Option V
  find k [] = none
  find k ((j, v) ∷ rest) = if j == k then some v else find k rest

  unfoldable assign : String → V → List (String × V) → List (String × V)
  assign k v [] = (k, v) ∷ []
  assign k v ((j, w) ∷ rest) = if j == k then (k, v) ∷ rest else (j, w) ∷ assign k v rest

  find-assign :
      (k j : String) (v : V) (xs : List (String × V))
      → find j (assign k v xs) ≡ (if k == j then some v else find j xs)
  unfolding find assign
  find-assign k j v [] = refl
  find-assign k j v ((i, w) ∷ rest) =
      ground (arith, eq_iff k j, eq_iff i k, eq_iff i j, find-assign k j v rest)

  -- `make(map[string]V)`
  unfoldable pub empty : Dict V
  empty = record { entries = [] }

  -- `v, ok := m[k]`
  unfoldable pub get : Dict V → String → Option V
  unfolding find
  get m k = find k m.entries

  -- `m[k] = v`
  unfoldable pub set : Dict V → String → V → Dict V
  unfolding assign
  set m k v = record { entries = assign k v m.entries }

  -- `for _, v := range m`
  unfoldable pub values : Dict V → List V
  values m = map (λ e. e.1) m.entries

  pub get-set :
      (m : Dict V) (k j : String) (v : V) → get (set m k v) j ≡ (if k == j then some v else get m j)
  unfolding get set
  get-set m k j v = find-assign k j v m.entries

pub get-empty {ℓ} : {V : Type ℓ} (k : String) → get (empty {V = V}) k ≡ none
unfolding get empty find
get-empty k = refl

pub ruleset dict_laws = (get-empty, get-set)
