-- ===== src/Planning/Counts.antt =====
-- The counts of a report: `bytes_by` and `counts_by` (components/moe/spec.py).
pub mod Laws
use pocket_mo_e.Prelude.{ℕ, ◌+◌, List, [], ◌∷◌, Option, none, some, list_eq, nat_eq}
use pocket_mo_e.Prelude.Dict
use pocket_mo_e.Prelude.Dict.{Dict}
use pocket_mo_e.Prelude.Text.{Text}

-- `int(item.nbytes or 0)`, and the value of a key that is not there yet
unfoldable pub or_zero : Option ℕ → ℕ
or_zero none = 0
or_zero (some n) = n

-- `result[key] = result.get(key, 0) + n`
unfoldable pub add_to : Text → ℕ → Dict Text ℕ → Dict Text ℕ
add_to key n d = Dict.put key (or_zero (Dict.get key d) + n) d

module _ {A : Type 0} (key_fn : A → Text) (nbytes : A → Option ℕ) where
  bytes_from : List A → Dict Text ℕ → Dict Text ℕ
  bytes_from [] result = result
  bytes_from (item ∷ items) result =
      bytes_from items (add_to (key_fn item) (or_zero (nbytes item)) result)

  -- `bytes_by`
  unfoldable pub bytes_by : List A → Dict Text ℕ
  unfolding bytes_from
  bytes_by items = bytes_from items []

-- `counts_by`
unfoldable pub counts_by : {A : Type 0} → (A → Text) → List A → Dict Text ℕ
counts_by key_fn items = bytes_by key_fn (λ item. some 1) items
