-- ===== src/Base/Table.antt =====
-- A `Map` from texts, as the list of its entries: `set` replaces the entry of a key, and `get` reads
-- the first one.

use mathlib.Core.Path.{◌≡◌, refl, ap}
use mathlib.Core.Logic.{inl, inr}
use mathlib.Core.Bool.{false}
use mathlib.Core.List.{List, [], ◌∷◌}
use mathlib.Core.Option.{Option, none, some}
use freeagents.Base.Tests.{if◌then◌else◌, Bool-cases}
use freeagents.Base.Text.{Text, text_eq, text_eq_iff}

abbrev pub Table {ℓ} : Type ℓ → Type ℓ
Table V = List (Text × V)

module _ {ℓ} {V : Type ℓ} where
  -- `map.get(key)`
  unfoldable pub get : Text → Table V → Option V
  get key [] = none
  get key ((k, v) ∷ t) = if text_eq k key then some v else get key t

  -- `map.delete(key)`
  unfoldable pub delete : Text → Table V → Table V
  delete key [] = []
  delete key ((k, v) ∷ t) = let rest = delete key t in if text_eq k key then rest else (k, v) ∷ rest

  -- `map.set(key, value)`
  unfoldable pub set : Text → V → Table V → Table V
  unfolding delete
  set key value t = (key, value) ∷ delete key t

  pub get-set : (key : Text) (v : V) (t : Table V) → get key (set key v t) ≡ some v
  unfolding get set
  get-set key v t = rw ((text_eq_iff key key).1 refl) refl

  pub get-delete : (key : Text) (t : Table V) → get key (delete key t) ≡ none
  unfolding get delete
  get-delete key [] = refl
  get-delete key ((k, v) ∷ t) = elim (Bool-cases (text_eq k key)) [
    | inl e ↦ rw e (get-delete key t)
    | inr e ↦ rw (e, e) (get-delete key t)
  ]

  pub get-delete_other :
      (key other : Text) (t : Table V)
      → text_eq key other ≡ false
      → get other (delete key t) ≡ get other t
  unfolding get delete
  get-delete_other key other [] h = refl
  get-delete_other key other ((k, v) ∷ t) h = elim (Bool-cases (text_eq k key)) [
    | inl e ↦ let same = (text_eq_iff k key).0 e in rw (e, same, h) (get-delete_other key other t h)
    | inr e ↦
        rw e (ap (λ r. if text_eq k other then some v else r) (get-delete_other key other t h))
  ]

  pub get-set_other :
      (key other : Text) (v : V) (t : Table V)
      → text_eq key other ≡ false
      → get other (set key v t) ≡ get other t
  unfolding get set
  get-set_other key other v t h = rw h (get-delete_other key other t h)
