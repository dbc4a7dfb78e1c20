-- ===== src/Scheduler/CpuList.antt =====
-- `_parse_cpu_list` (runtime/pd_scheduler.py): "0-3,8" as a sorted list of distinct numbers.
use pocket_mo_e.Prelude.{
  ℕ, ◌+◌, List, [], ◌∷◌, ◌++◌, map, Option, none, some, nat_eq, list_eq, ◌==◌, range, if◌then◌else◌,
}
use pocket_mo_e.Prelude.Int.{ℤ, pos, pos_part, neg_part, ◌+ℤ◌, sub_ℕ, ltb_ℤ}
use pocket_mo_e.Prelude.Text.{Text, split, strip, parse_int}

-- `range(lo, hi + 1)`
unfoldable pub int_range : ℤ → ℤ → List ℤ
unfolding ◌+ℤ◌
int_range lo hi =
    map (λ i. lo +ℤ pos i)
      (range (pos_part (sub_ℕ (pos_part hi + 1 + neg_part lo) (neg_part hi + pos_part lo))))

-- `part.split("-", 1)`: the text before and after the first `-`, if there is one
unfoldable pub split_once : ℕ → Text → Option (Text × Text)
split_once sep [] = none
split_once sep (c ∷ s) =
    let rest = split_once sep s in
    if c == sep then some ([], s) else elim rest [ none ↦ none | some p ↦ some (c ∷ p.0, p.1) ]

both_ends : Option ℤ → Option ℤ → List ℤ
both_ends none hi = []
both_ends (some lo) none = []
both_ends (some lo) (some hi) = int_range lo hi

single : Option ℤ → List ℤ
single none = []
single (some n) = n ∷ []

parse_part : Text → Option (Text × Text) → List ℤ
unfolding both_ends single
parse_part part none = single (parse_int part)
parse_part part (some (lo, hi)) = both_ends (parse_int lo) (parse_int hi)

-- what one part of the list adds; a part that is no number adds nothing
unfoldable pub cpus_of_part : Text → List ℤ
unfolding parse_part
cpus_of_part part =
    let part' = strip part in if part' == [] then [] else parse_part part' (split_once b'-' part')

unfoldable pub cpus_of_parts : List Text → List ℤ
cpus_of_parts [] = []
cpus_of_parts (part ∷ parts) = cpus_of_part part ++ cpus_of_parts parts

-- one element put in its place in a sorted list, unless it is there
unfoldable pub insert_sorted : ℤ → List ℤ → List ℤ
insert_sorted n [] = n ∷ []
insert_sorted n (m ∷ ms) =
    let rest = insert_sorted n ms in
    if ltb_ℤ n m then n ∷ m ∷ ms else if ltb_ℤ m n then m ∷ rest else m ∷ ms

-- `sorted(set(cpus))`
unfoldable pub sorted_set : List ℤ → List ℤ
sorted_set [] = []
sorted_set (n ∷ ns) = insert_sorted n (sorted_set ns)

-- `_parse_cpu_list`
unfoldable pub parse_cpu_list : Text → List ℤ
parse_cpu_list spec = sorted_set (cpus_of_parts (split b',' spec))
