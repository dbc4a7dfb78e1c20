-- ===== src/Snapshot/Laws/Keeps.antt =====
-- What every operation of the cache of prefix snapshots keeps.
use pocket_mo_e.Prelude.{
  ℕ, zero, suc, ◌-◌, ◌/◌, ◌%◌, ◌<◌, ◌≤◌, ◌≡◌, refl, sym, subst, Eq, List, Option, none, some, true,
  length, length-take, All, arith, list_eq, nat_eq, inl, inr,
}
use pocket_mo_e.Prelude.Dict
use pocket_mo_e.Prelude.Dict.{Dict}
use pocket_mo_e.Partition.{Environ}
use pocket_mo_e.Snapshot.{
  SnapshotEntry, PrefixSnapshotCache, Hint, hash, touch, touch_found, longest, after_lookup,
  lookup_hint, restore, insert_entry, wants_capture, capture, clear, new_cache,
}
use pocket_mo_e.Snapshot.Laws.Entries.{
  All-remove, All-put, All-last, All-get, length-last, length-remove_found, length-evict, All-evict,
}
use pocket_mo_e.Snapshot.Laws.Restores.{restore-Restored}

-- An entry stands under the digest of its tokens, which are a positive number of whole blocks.
abbrev pub IsEntry : {K B : Type 0} → (ℕ → List ℕ → K) → ℕ → K × SnapshotEntry B → Type 0
IsEntry digest block (key, entry) =
    (digest entry.pos_of entry.token_ids ≡ key)
    × ((length entry.token_ids ≡ entry.pos_of) × ((0 < entry.pos_of) × (entry.pos_of % block ≡ 0)))

-- At most `max_entries` entries, each as above.
abbrev pub IsWellFormed : {K B : Type 0} → (ℕ → List ℕ → K) → PrefixSnapshotCache K B → Type 0
IsWellFormed digest c = (length c.entries ≤ c.max_entries) × All (IsEntry digest c.block) c.entries

module _ {K B : Type 0} ⦃eq_key : Eq K⦄ (digest : ℕ → List ℕ → K) where
  touch-IsWellFormed :
      (key : K) (entry : SnapshotEntry B) (c : PrefixSnapshotCache K B)
      → Dict.get key c.entries ≡ some entry
      → IsWellFormed digest c
      → IsWellFormed digest (touch key entry c)
  unfolding touch
  touch-IsWellFormed key entry c h (n, a) = (
    omega (
      arith,
      length-last (Dict.remove key c.entries) (key, record entry { age = suc c.tick }),
      length-remove_found key entry c.entries h,
      n,
    ),
    All-last (IsEntry digest c.block) (Dict.remove key c.entries) _
        (All-get (IsEntry digest c.block) key entry c.entries a h)
        (All-remove (IsEntry digest c.block) key c.entries a),
  )

  touch_found-IsWellFormed :
      (key : K) (found : Option (SnapshotEntry B)) (c : PrefixSnapshotCache K B)
      → Dict.get key c.entries ≡ found
      → IsWellFormed digest c
      → IsWellFormed digest (touch_found key found c)
  unfolding touch_found
  touch_found-IsWellFormed key none c h w = w
  touch_found-IsWellFormed key (some entry) c h w = touch-IsWellFormed key entry c h w

  after_lookup-IsWellFormed :
      (token_ids : List ℕ) (n : ℕ) (c : PrefixSnapshotCache K B)
      → IsWellFormed digest c
      → IsWellFormed digest (after_lookup digest token_ids n c)
  unfolding after_lookup
  after_lookup-IsWellFormed token_ids zero c w = w
  after_lookup-IsWellFormed token_ids (suc n) c w =
      touch_found-IsWellFormed (hash digest token_ids (suc n)) _ c refl w

  lookup_hint-IsWellFormed :
      (env : Environ) (token_ids : List ℕ) (c : PrefixSnapshotCache K B)
      → IsWellFormed digest c
      → IsWellFormed digest (lookup_hint digest env token_ids c).1
  unfolding lookup_hint
  lookup_hint-IsWellFormed env token_ids c w = ground (
    arith,
    after_lookup-IsWellFormed token_ids
        (longest digest c token_ids ((length token_ids - 1) / c.block)) c w,
  )

  restore-IsWellFormed :
      {M : Type 0}
      → (apply_buffers : B → M → M) (hint : Option (Hint K)) (token_ids : List ℕ) (model : M)
      → (c : PrefixSnapshotCache K B) → IsWellFormed digest c
      → IsWellFormed digest (restore apply_buffers hint token_ids (model, c)).1.1
  restore-IsWellFormed apply_buffers hint token_ids model c w =
      elim (restore-Restored apply_buffers hint token_ids model c) [
        | inl e ↦ subst (λ r. IsWellFormed digest r.1.1) (sym e) w
        | inr (key, entry, h, t, l, e) ↦
            subst (λ r. IsWellFormed digest r.1.1) (sym e) (touch-IsWellFormed key entry c h w)
      ]

  insert_entry-IsWellFormed :
      (token_ids : List ℕ) (n : ℕ) (b : B) (c : PrefixSnapshotCache K B)
      → wants_capture c token_ids n ≡ true
      → IsWellFormed digest c
      → IsWellFormed digest (insert_entry digest token_ids n b c)
  unfolding insert_entry wants_capture hash
  insert_entry-IsWellFormed token_ids n b c g (m, a) = (
    length-evict c.max_entries _,
    All-evict (IsEntry digest c.block) c.max_entries _ (
        All-put (IsEntry digest c.block) (hash digest token_ids n) _ c.entries
          (refl, (ground (arith, length-take n token_ids), ground arith)) a),
  )

  capture-IsWellFormed :
      {M : Type 0}
      → (clone_buffers : M → ℕ → B) (model : M) (token_ids : List ℕ) (n : ℕ)
      → (c : PrefixSnapshotCache K B) → IsWellFormed digest c
      → IsWellFormed digest (capture digest clone_buffers model token_ids n c)
  unfolding capture
  capture-IsWellFormed clone_buffers model token_ids n c w = ground (
    arith,
    after_lookup-IsWellFormed token_ids n c w,
    insert_entry-IsWellFormed token_ids n (clone_buffers model n) c,
  )

-- Calls of one cache, one after the other, from the one `PrefixSnapshotCache()` makes; the model
-- and the environment of each call are arbitrary.
pub data Calls {K B : Type 0} ⦃eq_key : Eq K⦄ (digest : ℕ → List ℕ → K)
    : PrefixSnapshotCache K B → Type 1 where
  created : (env : Environ) → Calls digest (new_cache env)
  looked_up :
      (env : Environ) (token_ids : List ℕ) (c : PrefixSnapshotCache K B)
      → Calls digest c
      → Calls digest (lookup_hint digest env token_ids c).1
  restored :
      (M : Type 0)
      → (apply_buffers : B → M → M) (hint : Option (Hint K)) (token_ids : List ℕ) (model : M)
      → (c : PrefixSnapshotCache K B) → Calls digest c
      → Calls digest (restore apply_buffers hint token_ids (model, c)).1.1
  captured :
      (M : Type 0)
      → (clone_buffers : M → ℕ → B) (model : M) (token_ids : List ℕ) (n : ℕ)
      → (c : PrefixSnapshotCache K B) → Calls digest c
      → Calls digest (capture digest clone_buffers model token_ids n c)
  cleared : (c : PrefixSnapshotCache K B) → Calls digest c → Calls digest (clear c)

-- Every cache that calls of `lookup_hint`, `restore`, `capture` and `clear` reach holds at most
-- `max_entries` entries, and each of them stands under the digest of its own tokens, which are as
-- many as its position says, more than none, and whole blocks.
pub Calls-IsWellFormed :
    {K B : Type 0}
    → ⦃eq_key : Eq K⦄ (digest : ℕ → List ℕ → K) (c : PrefixSnapshotCache K B) → Calls digest c
    → IsWellFormed digest c
unfolding new_cache clear
Calls-IsWellFormed digest c (created env) = (omega arith, tt)
Calls-IsWellFormed digest c (looked_up env token_ids c' r) =
    lookup_hint-IsWellFormed digest env token_ids c' (Calls-IsWellFormed digest c' r)
Calls-IsWellFormed digest c (restored M apply_buffers hint token_ids model c' r) =
    restore-IsWellFormed digest apply_buffers hint token_ids model c'
      (Calls-IsWellFormed digest c' r)
Calls-IsWellFormed digest c (captured M clone_buffers model token_ids n c' r) =
    capture-IsWellFormed digest clone_buffers model token_ids n c' (Calls-IsWellFormed digest c' r)
Calls-IsWellFormed digest c (cleared c' r) = (omega arith, tt)
