-- ===== src/Snapshot/Laws/Captures.antt =====
-- A prefix that `capture` took is held by the cache of prefix snapshots.
use pocket_mo_e.Prelude.{
  ℕ, zero, suc, ◌≤◌, ◌≡◌, refl, ◌∙◌, Eq, List, [], ◌∷◌, ◌++◌, Option, none, some, true, length,
  take, arith, list_eq, nat_eq, beq_refl, Bool-cases, inl, inr,
}
use pocket_mo_e.Prelude.Dict
use pocket_mo_e.Prelude.Dict.{Dict, get-put, get-remove}
use pocket_mo_e.Snapshot.{
  SnapshotEntry, hash, touch, touch_found, held, has_tokens, after_lookup, evict, insert_entry,
  PrefixSnapshotCache, wants_capture, capture,
}

module _ {K B : Type 0} ⦃eq_key : Eq K⦄ where
  put-absent :
      (k : K) (v : SnapshotEntry B) (d : Dict K (SnapshotEntry B))
      → Dict.get k d ≡ none
      → Dict.put k v d ≡ d ++ (k, v) ∷ []
  unfolding Dict.put Dict.get
  put-absent k v [] h = refl
  put-absent k v ((j, w) ∷ d) h = ground (arith, put-absent k v d)

  get-last :
      (k : K) (v : SnapshotEntry B) (d : Dict K (SnapshotEntry B))
      → Dict.get k d ≡ none
      → Dict.get k (d ++ (k, v) ∷ []) ≡ some v
  unfolding Dict.get
  get-last k v [] h = rw (beq_refl k) refl
  get-last k v ((j, w) ∷ d) h = ground (arith, get-last k v d)

  -- The entry put in last stays.
  get-evict_last :
      (limit : ℕ) (k : K) (v : SnapshotEntry B) (d : Dict K (SnapshotEntry B))
      → 1 ≤ limit
      → Dict.get k d ≡ none
      → Dict.get k (evict limit (d ++ (k, v) ∷ [])) ≡ some v
  unfolding Dict.get evict
  get-evict_last limit k v [] l h = ground (arith, beq_refl k)
  get-evict_last limit k v ((j, w) ∷ d) l h =
      ground (arith, get-evict_last limit k v d l, get-last k v d)

  length-put_found :
      (k : K) (v w : SnapshotEntry B) (d : Dict K (SnapshotEntry B))
      → Dict.get k d ≡ some w
      → length (Dict.put k v d) ≡ length d
  unfolding Dict.put Dict.get
  length-put_found k v w [] h = absurd (cc)
  length-put_found k v w ((j, x) ∷ d) h = ground (arith, length-put_found k v w d)

  evict-idle : (limit : ℕ) (d : Dict K (SnapshotEntry B)) → length d ≤ limit → evict limit d ≡ d
  unfolding evict
  evict-idle limit [] l = refl
  evict-idle limit (x ∷ d) l = ground arith

  get-evict-put :
      (limit : ℕ) (k : K) (v : SnapshotEntry B) (d : Dict K (SnapshotEntry B))
      → (found : Option (SnapshotEntry B)) → Dict.get k d ≡ found
      → 1 ≤ limit
      → length d ≤ limit
      → Dict.get k (evict limit (Dict.put k v d)) ≡ some v
  get-evict-put limit k v d none h p l = rw (put-absent k v d h) (get-evict_last limit k v d p h)
  get-evict-put limit k v d (some w) h p l =
      rw (evict-idle limit (Dict.put k v d) (omega (arith, length-put_found k v w d h)))
        (get-put k k v d ∙ rw (beq_refl k) refl)

  touch-held :
      (digest : ℕ → List ℕ → K) (token_ids : List ℕ) (n : ℕ) (c : PrefixSnapshotCache K B)
      → (found : Option (SnapshotEntry B)) → Dict.get (hash digest token_ids n) c.entries ≡ found
      → has_tokens (take n token_ids) found ≡ true
      → held digest (touch_found (hash digest token_ids n) found c) token_ids n ≡ true
  unfolding touch_found touch held has_tokens
  touch-held digest token_ids n c none h t = absurd (cc)
  touch-held digest token_ids n c (some entry) h t =
      rw
        (get-last (hash digest token_ids n) (record entry { age = suc c.tick })
          (Dict.remove (hash digest token_ids n) c.entries)
          (get-remove (hash digest token_ids n) (hash digest token_ids n) c.entries
            ∙ rw (beq_refl (hash digest token_ids n)) refl))
        t

  after_lookup-held :
      (digest : ℕ → List ℕ → K) (token_ids : List ℕ) (n : ℕ) (c : PrefixSnapshotCache K B)
      → held digest c token_ids n ≡ true
      → held digest (after_lookup digest token_ids n c) token_ids n ≡ true
  unfolding after_lookup held
  after_lookup-held digest token_ids zero c t = t
  after_lookup-held digest token_ids (suc n) c t = touch-held digest token_ids (suc n) c _ refl t

  insert_entry-held :
      (digest : ℕ → List ℕ → K) (token_ids : List ℕ) (n : ℕ) (b : B)
      → (c : PrefixSnapshotCache K B) → 1 ≤ c.max_entries
      → length c.entries ≤ c.max_entries
      → held digest (insert_entry digest token_ids n b c) token_ids n ≡ true
  unfolding insert_entry held has_tokens
  insert_entry-held digest token_ids n b c p l =
      rw
        (get-evict-put c.max_entries (hash digest token_ids n)
          (record { pos_of = n; token_ids = take n token_ids; buffers = b; age = suc c.tick })
          c.entries (Dict.get (hash digest token_ids n) c.entries) refl p l)
        (beq_refl (take n token_ids))

  -- After `capture` of the first `n` tokens of a prompt, when its guards let it, the cache holds
  -- that prefix: it is what the digest of the prefix leads to. The cache must have room for one
  -- entry or more, and hold no more entries than it has room for.
  pub capture-held :
      {M : Type 0}
      → (digest : ℕ → List ℕ → K) (clone_buffers : M → ℕ → B) (model : M)
      → (token_ids : List ℕ) (n : ℕ) (c : PrefixSnapshotCache K B)
      → wants_capture c token_ids n ≡ true
      → 1 ≤ c.max_entries
      → length c.entries ≤ c.max_entries
      → held digest (capture digest clone_buffers model token_ids n c) token_ids n ≡ true
  unfolding capture
  capture-held digest clone_buffers model token_ids n c w p l =
      rw w (elim (Bool-cases (held digest c token_ids n)) [
        | inl t ↦ rw t (after_lookup-held digest token_ids n c t)
        | inr f ↦ rw f (insert_entry-held digest token_ids n (clone_buffers model n) c p l)
      ])
