-- ===== src/Tests/Snapshots.antt =====
-- The theorems on the cache of prefix snapshots at concrete inputs.
use pocket_mo_e.Prelude.{
  ℕ, ◌*◌, ◌<◌, ◌≤◌, ◌≡◌, refl, List, [], ◌∷◌, some, true, arith, length, list_eq, nat_eq,
}
use pocket_mo_e.Prelude.Dict
use pocket_mo_e.Snapshot.{
  SnapshotEntry, PrefixSnapshotCache, Hint, hash, held, lookup_hint, restore, capture,
  wants_capture, new_cache,
}
use pocket_mo_e.Snapshot.Laws.Restores.{Restored, restore-Restored}
use pocket_mo_e.Snapshot.Laws.Keeps.{IsWellFormed, created, captured, Calls-IsWellFormed}
use pocket_mo_e.Snapshot.Laws.Finds.{lookup_hint-longest}
use pocket_mo_e.Snapshot.Laws.Captures.{capture-held}

-- a digest: the tokens themselves
abbrev digest : ℕ → List ℕ → List ℕ
digest n token_ids = token_ids

abbrev entry : SnapshotEntry ℕ
entry = record { pos_of = 2; token_ids = 7 ∷ 8 ∷ []; buffers = 100; age = 1 }

abbrev small : PrefixSnapshotCache (List ℕ) ℕ
small = record {
  entries = (7 ∷ 8 ∷ [], entry) ∷ [];
  tick = 1;
  block = 2;
  max_entries = 2;
  min_tokens = 2;
}

abbrev prompt : List ℕ
prompt = 7 ∷ 8 ∷ 9 ∷ []

abbrev first_hint : Hint (List ℕ)
first_hint = record { match_key = some (7 ∷ 8 ∷ []); match_pos = 2; capture_positions = 2 ∷ [] }

restore-Restored_example :
    Restored
      (λ (b : ℕ) (m : ℕ). b)
      prompt
      (0, small)
      (restore (λ b m. b) (some first_hint) prompt (0, small))
restore-Restored_example = restore-Restored (λ b m. b) (some first_hint) prompt 0 small

prefix_held : held digest small prompt (1 * 2) ≡ true
unfolding held hash Dict.get
prefix_held = refl

lookup_hint-longest_example :
    (hint : Hint (List ℕ)) × ((lookup_hint digest [] prompt small).0 ≡ some hint)
    × (hint.match_key ≡ some (hash digest prompt hint.match_pos))
    × (held digest small prompt hint.match_pos ≡ true)
    × (1 * 2 ≤ hint.match_pos)
    × (hint.match_pos < length prompt)
lookup_hint-longest_example =
    lookup_hint-longest digest [] prompt small 1 (omega arith) (omega arith) (omega arith)
      (omega arith) prefix_held

pair_wanted : wants_capture small (3 ∷ 4 ∷ []) 2 ≡ true
unfolding wants_capture
pair_wanted = refl

capture-held_example :
    held digest (capture digest (λ (m : ℕ) n. m) 5 (3 ∷ 4 ∷ []) 2 small) (3 ∷ 4 ∷ []) 2 ≡ true
capture-held_example =
    capture-held digest (λ m n. m) 5 (3 ∷ 4 ∷ []) 2 small pair_wanted (omega arith) (omega arith)

Calls-IsWellFormed_example :
    IsWellFormed digest (capture {B = ℕ} digest (λ (m : ℕ) n. m) 5 (3 ∷ 4 ∷ []) 2 (new_cache []))
Calls-IsWellFormed_example =
    Calls-IsWellFormed digest
      (capture {B = ℕ} digest (λ (m : ℕ) n. m) 5 (3 ∷ 4 ∷ []) 2 (new_cache []))
      (captured ℕ (λ m n. m) 5 (3 ∷ 4 ∷ []) 2 (new_cache []) (created []))
