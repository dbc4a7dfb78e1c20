-- ===== src/Snapshot/Laws/Restores.antt =====
-- What `restore` of the cache of prefix snapshots puts in.
use pocket_mo_e.Prelude.{
  ℕ, ◌<◌, ◌≡◌, ◌⊎◌, refl, Eq, ◌==◌, List, Option, none, some, length, take, arith, list_eq, nat_eq,
  eq_of_beq, Bool-cases, inl, inr,
}
use pocket_mo_e.Prelude.Dict
use pocket_mo_e.Prelude.Dict.{Dict}
use pocket_mo_e.Snapshot.{
  SnapshotEntry, PrefixSnapshotCache, Hint, touch, usable, restore_entry, restore_key, restore,
}

-- What a restore did: nothing, or it put in the buffers of an entry whose tokens are the first
-- ones of the prompt, a proper prefix of it, and that entry is now the one used last.
abbrev pub Restored :
    {K B M : Type 0}
    → ⦃eq_key : Eq K⦄ → (B → M → M)
    → List ℕ
    → M × PrefixSnapshotCache K B
    → ℕ × (M × PrefixSnapshotCache K B)
    → Type 0
Restored {K} {B} apply_buffers token_ids (model, c) out =
    (out ≡ (0, (model, c)))
    ⊎ ((key : K) × (entry : SnapshotEntry B) × (Dict.get key c.entries ≡ some entry)
        × (entry.token_ids ≡ take entry.pos_of token_ids)
        × (entry.pos_of < length token_ids)
        × (out ≡ (entry.pos_of, (apply_buffers entry.buffers model, touch key entry c))))

module _ {K B M : Type 0} ⦃eq_key : Eq K⦄ (apply_buffers : B → M → M) where
  restore_entry-Restored :
      (key : K) (found : Option (SnapshotEntry B)) (n : ℕ) (token_ids : List ℕ) (model : M)
      → (c : PrefixSnapshotCache K B) → Dict.get key c.entries ≡ found
      → Restored apply_buffers token_ids
          (model, c)
          (restore_entry apply_buffers key found n token_ids (model, c))
  unfolding restore_entry usable
  restore_entry-Restored key none n token_ids model c h = inl refl
  restore_entry-Restored key (some entry) n token_ids model c h =
      elim (Bool-cases (usable entry n token_ids)) [
        | inl t ↦ inr (
          key,
          entry,
          h,
          eq_of_beq entry.token_ids (take entry.pos_of token_ids) (ground arith),
          ground arith,
          rw t refl,
        )
        | inr f ↦ inl (rw f refl)
      ]

  restore_key-Restored :
      (match_key : Option K) (n : ℕ) (token_ids : List ℕ) (model : M)
      → (c : PrefixSnapshotCache K B)
      → Restored apply_buffers token_ids
          (model, c)
          (restore_key apply_buffers match_key n token_ids (model, c))
  unfolding restore_key
  restore_key-Restored none n token_ids model c = inl refl
  restore_key-Restored (some key) n token_ids model c = elim (Bool-cases (n == 0)) [
    | inl t ↦ inl (rw t refl)
    | inr f ↦ rw f (restore_entry-Restored key (Dict.get key c.entries) n token_ids model c refl)
  ]

  -- `restore` does nothing, or it restores the buffers of an entry that holds the first tokens of
  -- the prompt, fewer than all of them, answers how many they are, and makes it the entry used
  -- last: whatever the hint says, no state of another prompt is restored.
  pub restore-Restored :
      (hint : Option (Hint K)) (token_ids : List ℕ) (model : M) (c : PrefixSnapshotCache K B)
      → Restored apply_buffers token_ids
          (model, c)
          (restore apply_buffers hint token_ids (model, c))
  unfolding restore
  restore-Restored none token_ids model c = inl refl
  restore-Restored (some hint) token_ids model c =
      restore_key-Restored hint.match_key hint.match_pos token_ids model c
