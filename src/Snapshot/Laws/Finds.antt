-- ===== src/Snapshot/Laws/Finds.antt =====
-- What `lookup_hint` finds in the cache of prefix snapshots.
use pocket_mo_e.Prelude.{
  ℕ, zero, suc, ◌*◌, ◌-◌, ◌/◌, ◌<◌, ◌≤◌, ◌≡◌, ◌⊎◌, refl, Eq, List, some, true, ltb, length, arith,
  list_eq, nat_eq, Bool-cases, inl, inr,
}
use pocket_mo_e.Partition.{Environ}
use pocket_mo_e.Snapshot.{PrefixSnapshotCache, Hint, hash, held, longest, lookup_hint, hint_for}
use native.Mathlib.Nat.{mul-le-mul_right, le-div_iff_mul-le}

module _ {K B : Type 0} ⦃eq_key : Eq K⦄ (digest : ℕ → List ℕ → K) where
  longest-held :
      (c : PrefixSnapshotCache K B) (token_ids : List ℕ) (q : ℕ)
      → (longest digest c token_ids q ≡ 0)
        ⊎ (held digest c token_ids (longest digest c token_ids q) ≡ true)
  unfolding longest
  longest-held c token_ids zero = inl refl
  longest-held c token_ids (suc q) = elim (Bool-cases (held digest c token_ids (suc q * c.block))) [
    | inl t ↦ inr (rw t t)
    | inr f ↦ rw f (longest-held c token_ids q)
  ]

  longest-le :
      (c : PrefixSnapshotCache K B) (token_ids : List ℕ) (q : ℕ)
      → longest digest c token_ids q ≤ q * c.block
  unfolding longest
  longest-le c token_ids zero = omega arith
  longest-le c token_ids (suc q) = elim (Bool-cases (held digest c token_ids (suc q * c.block))) [
    | inl t ↦ rw t (omega arith)
    | inr f ↦ rw f (
        omega (
          arith,
          longest-le c token_ids q,
          mul-le-mul_right {m = q} {n = suc q} c.block (omega arith),
        ))
  ]

  longest-ge :
      (c : PrefixSnapshotCache K B) (token_ids : List ℕ) (q i : ℕ)
      → 0 < i
      → i ≤ q
      → held digest c token_ids (i * c.block) ≡ true
      → i * c.block ≤ longest digest c token_ids q
  unfolding longest
  longest-ge c token_ids zero i p l h = absurd (omega arith)
  longest-ge c token_ids (suc q) i p l h =
      elim (Bool-cases (held digest c token_ids (suc q * c.block))) [
        | inl t ↦ rw t (mul-le-mul_right {m = i} {n = suc q} c.block l)
        | inr f ↦ elim (Bool-cases (ltb i (suc q))) [
          | inl s ↦ rw f (longest-ge c token_ids q i p (ground arith) h)
          | inr s ↦ let e : i ≡ suc q = ground arith in absurd (cc)
        ]
      ]

  -- When the prompt is long enough for a snapshot and a proper prefix of it of `i` whole blocks is
  -- held, `lookup_hint` answers a hint. Its match is a prefix that is held, at least as long as
  -- that one, and shorter than the prompt.
  pub lookup_hint-longest :
      (env : Environ) (token_ids : List ℕ) (c : PrefixSnapshotCache K B) (i : ℕ)
      → 0 < i
      → 0 < c.block
      → i * c.block < length token_ids
      → c.min_tokens ≤ length token_ids / c.block * c.block
      → held digest c token_ids (i * c.block) ≡ true
      → (hint : Hint K) × ((lookup_hint digest env token_ids c).0 ≡ some hint)
        × (hint.match_key ≡ some (hash digest token_ids hint.match_pos))
        × (held digest c token_ids hint.match_pos ≡ true)
        × (i * c.block ≤ hint.match_pos)
        × (hint.match_pos < length token_ids)
  unfolding lookup_hint hint_for
  lookup_hint-longest env token_ids c i p b l m h =
      let q = (length token_ids - 1) / c.block in
      let n = longest digest c token_ids q in
      let i-le : i ≤ q =
        (le-div_iff_mul-le {k = c.block} {x = i} {y = length token_ids - 1} b).1 (omega arith) in
      let ge : i * c.block ≤ n = longest-ge c token_ids q i p i-le h in
      let pb : 0 < i * c.block = omega (arith, b, mul-le-mul_right {m = 1} {n = i} c.block p) in
      (
        hint_for digest env token_ids c n,
        ground arith,
        ground arith,
        ground (arith, longest-held c token_ids q),
        ge,
        omega (
          arith,
          longest-le c token_ids q,
          (le-div_iff_mul-le {k = c.block} {x = q} {y = length token_ids - 1} b).0 (omega arith),
        ),
      )
