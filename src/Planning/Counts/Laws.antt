-- ===== src/Planning/Counts/Laws.antt =====
-- The bytes of a report add up.
use pocket_mo_e.Prelude.{ℕ, ◌+◌, ◌≡◌, List, [], ◌∷◌, Option, map, sum, arith, list_eq, nat_eq}
use pocket_mo_e.Prelude.Dict
use pocket_mo_e.Prelude.Dict.{Dict}
use pocket_mo_e.Prelude.Text.{Text}
use pocket_mo_e.Planning.Counts.{or_zero, add_to, bytes_from, bytes_by}

abbrev pub total : Dict Text ℕ → ℕ
total d = sum (map (λ x. x.1) d)

total-add_to : (key : Text) (n : ℕ) (d : Dict Text ℕ) → total (add_to key n d) ≡ total d + n
unfolding add_to or_zero Dict.put Dict.get
total-add_to key n [] = omega arith
total-add_to key n ((j, m) ∷ d) = ground (arith, total-add_to key n d)

module _ {A : Type 0} (key_fn : A → Text) (nbytes : A → Option ℕ) where
  total-bytes_from :
      (items : List A) (d : Dict Text ℕ)
      → total (bytes_from key_fn nbytes items d)
        ≡ total d + sum (map (λ item. or_zero (nbytes item)) items)
  unfolding bytes_from
  total-bytes_from [] d = omega arith
  total-bytes_from (item ∷ items) d = omega (
    arith,
    total-bytes_from items (add_to (key_fn item) (or_zero (nbytes item)) d),
    total-add_to (key_fn item) (or_zero (nbytes item)) d,
  )

  -- The values of `bytes_by` add up to the bytes of all the items, where an item without a size
  -- counts as none, whatever the keys.
  pub total-bytes_by :
      (items : List A)
      → total (bytes_by key_fn nbytes items) ≡ sum (map (λ item. or_zero (nbytes item)) items)
  unfolding bytes_by
  total-bytes_by items = omega (arith, total-bytes_from items [])
