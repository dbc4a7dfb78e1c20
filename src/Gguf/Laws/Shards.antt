-- ===== src/Gguf/Laws/Shards.antt =====
-- The index of the tensors of a file in shards (loader/gguf/bundle.py).
use mathlib.Core.List.{append_assoc, append-nil}
use pocket_mo_e.Prelude.{
  ℕ, suc, List, [], ◌∷◌, ◌++◌, map, Bool, true, not, ◌&&◌, Result, ok, value_error, require,
  >>=-elim, ok-injective, ◌≡◌, refl, ap, subst, sym, ◌∙◌, length, range_from, list_eq, nat_eq,
  arith,
}
use pocket_mo_e.Prelude.Text.{Text}
use pocket_mo_e.Gguf.Reader.{GgufTensorInfo, GgufFile}
use pocket_mo_e.Gguf.Bundle.{
  TensorRef, Shard, Bundle, tensor_refs, has_name, add_tensors, read_shards, bundle_of,
  read_gguf_bundle,
}

-- no reference has the name of an earlier one, or one in `known`
abbrev pub distinct_names : List TensorRef → List TensorRef → Bool
distinct_names known [] = true
distinct_names known (r ∷ rs) =
    not (has_name r.info.name known) && distinct_names (known ++ r ∷ []) rs

-- the tensors of the shards, shard by shard
abbrev pub all_refs : List Shard → List TensorRef
all_refs [] = []
all_refs (s ∷ ss) = tensor_refs s.index s.path s.file.tensors ++ all_refs ss

-- What is added is new.
add_tensors-refs :
    (index : ℕ) (path : Text) (ts : List GgufTensorInfo) (refs out : List TensorRef)
    → add_tensors index path ts refs ≡ ok out
    → (out ≡ refs ++ tensor_refs index path ts)
      × (distinct_names refs (tensor_refs index path ts) ≡ true)
unfolding add_tensors tensor_refs
add_tensors-refs index path [] refs out h = (sym (ok-injective h) ∙ sym (append-nil refs), refl)
add_tensors-refs index path (t ∷ ts) refs out h =
    let r : TensorRef = record { info = t; shard_index = index; shard_path = path } in
    >>=-elim (require (not (has_name t.name refs)) value_error) _ h (λ u new rest.
      let (same, distinct) = add_tensors-refs index path ts (refs ++ r ∷ []) out rest in
      (
        same ∙ append_assoc refs (r ∷ []) (tensor_refs index path ts),
        ground (arith, new, distinct),
      ))

distinct-append :
    (known xs ys : List TensorRef)
    → distinct_names known xs ≡ true
    → distinct_names (known ++ xs) ys ≡ true
    → distinct_names known (xs ++ ys) ≡ true
distinct-append known [] ys hx hy = ap (λ k. distinct_names k ys) (sym (append-nil known)) ∙ hy
distinct-append known (x ∷ xs) ys hx hy = ground (
  arith,
  distinct-append (known ++ x ∷ []) xs ys,
  ap (λ k. distinct_names k ys) (append_assoc known (x ∷ []) xs),
)

-- The references are those of the shards, with no name twice, and the shards those of the paths.
abbrev pub Indexed : ℕ → List Text → List TensorRef → List Shard × List TensorRef → Type 0
Indexed index paths refs (ss, out) =
    (out ≡ refs ++ all_refs ss)
    × (distinct_names refs (all_refs ss) ≡ true)
    × (map (λ s. s.path) ss ≡ paths)
    × (map (λ s. s.index) ss ≡ range_from index (length paths))

module _ (read : Text → Result GgufFile) where
  read_shards-Indexed :
      (index : ℕ) (paths : List Text) (refs : List TensorRef) (o : List Shard × List TensorRef)
      → read_shards read index paths refs ≡ ok o
      → Indexed index paths refs o
  unfolding read_shards
  read_shards-Indexed index [] refs o h =
      subst (Indexed index [] refs) (ok-injective h) (sym (append-nil refs), refl, refl, refl)
  read_shards-Indexed index (path ∷ paths) refs o h = >>=-elim (read path) _ h (λ file opened h'.
      >>=-elim (add_tensors index path file.tensors refs) _ h' (λ refs' added h''.
        >>=-elim (read_shards read (suc index) paths refs') _ h'' (λ rest more last.
          let (same, new) = add_tensors-refs index path file.tensors refs refs' added in
          let (out, distinct, names, numbers) =
            read_shards-Indexed (suc index) paths refs' rest more in
          subst (Indexed index (path ∷ paths) refs) (ok-injective last) (
            out
                ∙ ap (λ rs. rs ++ all_refs rest.0) same
                ∙ append_assoc refs (tensor_refs index path file.tensors) (all_refs rest.0),
            distinct-append refs (tensor_refs index path file.tensors) (all_refs rest.0) new
                (ap (λ rs. distinct_names rs (all_refs rest.0)) (sym same) ∙ distinct),
            ap (◌∷◌ path) names,
            ap (◌∷◌ index) numbers,
          ))))

  bundle_of-Indexed :
      (paths : List Text) (o : List Shard × List TensorRef) (b : Bundle)
      → Indexed 0 paths [] o
      → bundle_of read o ≡ ok b
      → Indexed 0 paths [] (b.shards, b.tensors)
  unfolding bundle_of
  bundle_of-Indexed paths ([], refs) b h e = absurd (cc)
  bundle_of-Indexed paths (s ∷ ss, refs) b h e =
      subst (λ (b : Bundle). Indexed 0 paths [] (b.shards, b.tensors)) (ok-injective e) h

  -- A bundle that is read has a shard for each path, numbered in order; its tensors are those of the
  -- shards, shard by shard, each with the number and the path of its shard, and no name is there
  -- twice.
  pub read_gguf_bundle-tensors :
      (paths : List Text) (b : Bundle)
      → read_gguf_bundle read paths ≡ ok b
      → (b.tensors ≡ all_refs b.shards)
        × (distinct_names [] b.tensors ≡ true)
        × (map (λ s. s.path) b.shards ≡ paths)
        × (map (λ s. s.index) b.shards ≡ range_from 0 (length paths))
  unfolding read_gguf_bundle
  read_gguf_bundle-tensors paths b h =
      >>=-elim (read_shards read 0 paths []) (bundle_of read) h (λ o e last.
        let (same, distinct, names, numbers) =
          bundle_of-Indexed paths o b (read_shards-Indexed 0 paths [] o e) last in
        (same, ap (distinct_names []) same ∙ distinct, names, numbers))
