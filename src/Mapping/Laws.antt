-- ===== src/Mapping/Laws.antt =====
-- The mappings of a file lead to keys of the state.
use pocket_mo_e.Prelude.{
  ℕ, List, [], ◌∷◌, ◌++◌, map, some, true, not, ◌≡◌, refl, ap, keep, All, arith, list_eq, nat_eq,
}
use pocket_mo_e.Prelude.Dict.{Dict}
use pocket_mo_e.Prelude.Text.{Text, one_of}
use pocket_mo_e.Gguf.Reader.{Platform}
use pocket_mo_e.Mapping.{
  Ds4TensorMapping, Ds4File, has_state_key, build_ds4_tensor_mappings, generated, scale_mapping,
  candidates, wants_scale, with_scales, scale_key,
}
use pocket_mo_e.Mapping.Validation.{validate_ds4_tensor_mappings, absent, sorted_texts, names_of}

-- The mapping leads to one of the keys.
abbrev pub IsInto : List Text → Ds4TensorMapping → Type 0
IsInto keys m = one_of m.target_key keys ≡ true

pub All-append :
    {A : Type 0} (P : A → Type 0) (xs ys : List A) → All P xs → All P ys → All P (xs ++ ys)
All-append P [] ys a b = b
All-append P (x ∷ xs) ys a b = (a.0, All-append P xs ys a.1 b)

kept-IsInto :
    (keys : List Text) (ms : List Ds4TensorMapping)
    → All (IsInto keys) (keep (λ m. has_state_key (some keys) m.target_key) ms)
unfolding has_state_key
kept-IsInto keys [] = tt
kept-IsInto keys (m ∷ ms) = ground (arith, kept-IsInto keys ms)

generated-IsInto :
    (keys existing : List Text) (ms : List Ds4TensorMapping)
    → All (IsInto keys) (generated keys existing ms)
unfolding generated wants_scale scale_mapping
generated-IsInto keys existing [] = tt
generated-IsInto keys existing (m ∷ ms) = ground (
  arith,
  generated-IsInto keys existing ms,
  generated-IsInto keys (scale_key m.target_key ∷ existing) ms,
)

-- Given the keys of the model's state, every mapping that `build_ds4_tensor_mappings` makes, those
-- of the generated scales included, leads to one of them.
pub build_ds4_tensor_mappings-IsInto :
    (p : Platform) (ds4 : Ds4File) (keys : List Text)
    → All (IsInto keys) (build_ds4_tensor_mappings p ds4 (some keys))
unfolding build_ds4_tensor_mappings with_scales
build_ds4_tensor_mappings-IsInto p ds4 keys =
    All-append (IsInto keys) _ _ (kept-IsInto keys (candidates p ds4 (some keys)))
      (generated-IsInto keys _ _)

none_absent :
    (keys : List Text) (ms : List Ds4TensorMapping)
    → All (IsInto keys) ms
    → keep (λ name. not (one_of name keys)) (map (λ m. m.target_key) ms) ≡ []
none_absent keys [] a = refl
none_absent keys (m ∷ ms) a = ground (arith, none_absent keys ms a.1)

-- The list `missing_targets` of `validate_ds4_tensor_mappings` is empty whatever the file and the
-- state.
pub validate_ds4_tensor_mappings-no_missing_targets :
    (p : Platform) (ds4 : Ds4File) (shapes : Dict Text (List ℕ)) (ignored : List Text)
    → (validate_ds4_tensor_mappings p ds4 shapes ignored).missing_targets ≡ []
unfolding validate_ds4_tensor_mappings absent sorted_texts
validate_ds4_tensor_mappings-no_missing_targets p ds4 shapes ignored =
    ap sorted_texts
      (none_absent (names_of shapes) _ (build_ds4_tensor_mappings-IsInto p ds4 (names_of shapes)))
