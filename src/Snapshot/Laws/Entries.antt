-- ===== src/Snapshot/Laws/Entries.antt =====
-- Lemmas on the ordered dictionary of a cache of snapshots.
use pocket_mo_e.Prelude.{
  ℕ, suc, ◌<◌, ◌≤◌, ◌≡◌, refl, ap, Eq, List, [], ◌∷◌, ◌++◌, some, length, All, arith, list_eq,
  nat_eq,
}
use pocket_mo_e.Prelude.Dict
use pocket_mo_e.Prelude.Dict.{Dict}
use pocket_mo_e.Snapshot.{SnapshotEntry, evict}

module _ {K V : Type 0} ⦃eq_key : Eq K⦄ (P : K × V → Type 0) where
  pub All-remove : (k : K) (d : Dict K V) → All P d → All P (Dict.remove k d)
  unfolding Dict.remove
  All-remove k [] a = a
  All-remove k ((j, v) ∷ d) a = ground (arith, All-remove k d a.1)

  pub All-put : (k : K) (v : V) (d : Dict K V) → P (k, v) → All P d → All P (Dict.put k v d)
  unfolding Dict.put
  All-put k v [] p a = (p, tt)
  All-put k v ((j, w) ∷ d) p a = ground (arith, eq_key.beq_iff j k, All-put k v d p a.1)

  pub All-last : (d : Dict K V) (x : K × V) → P x → All P d → All P (d ++ x ∷ [])
  All-last [] x p a = (p, tt)
  All-last (y ∷ d) x p a = (a.0, All-last d x p a.1)

  pub All-get : (k : K) (v : V) (d : Dict K V) → All P d → Dict.get k d ≡ some v → P (k, v)
  unfolding Dict.get
  All-get k v [] a h = absurd (cc)
  All-get k v ((j, w) ∷ d) a h = ground (arith, eq_key.beq_iff j k, All-get k v d a.1)

pub length-last : {A : Type 0} (xs : List A) (x : A) → length (xs ++ x ∷ []) ≡ suc (length xs)
length-last [] x = refl
length-last (y ∷ xs) x = ap suc (length-last xs x)

pub length-remove :
    {K V : Type 0} → ⦃eq_key : Eq K⦄ (k : K) (d : Dict K V) → length (Dict.remove k d) ≤ length d
unfolding Dict.remove
length-remove k [] = omega arith
length-remove k ((j, v) ∷ d) = ground (arith, length-remove k d)

pub length-remove_found :
    {K V : Type 0}
    → ⦃eq_key : Eq K⦄ (k : K) (v : V) (d : Dict K V) → Dict.get k d ≡ some v
    → length (Dict.remove k d) < length d
unfolding Dict.remove Dict.get
length-remove_found k v [] h = absurd (cc)
length-remove_found k v ((j, w) ∷ d) h =
    ground (arith, length-remove k d, length-remove_found k v d)

pub length-evict :
    {K B : Type 0} (limit : ℕ) (d : Dict K (SnapshotEntry B)) → length (evict limit d) ≤ limit
unfolding evict
length-evict limit [] = omega arith
length-evict limit (x ∷ d) = ground (arith, length-evict limit d)

pub All-evict :
    {K B : Type 0} (P : K × SnapshotEntry B → Type 0) (limit : ℕ) (d : Dict K (SnapshotEntry B))
    → All P d
    → All P (evict limit d)
unfolding evict
All-evict P limit [] a = a
All-evict P limit (x ∷ d) a = ground (arith, All-evict P limit d a.1)
