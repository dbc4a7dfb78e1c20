-- ===== src/Mapping/Validation.antt =====
-- `validate_ds4_tensor_mappings` (loader/mappings/deepseek_v4.py).
use pocket_mo_e.Prelude.{
  ℕ, List, [], ◌∷◌, ◌++◌, map, Option, none, some, Bool, true, false, not, ◌&&◌, ◌||◌, any, keep,
  if◌then◌else◌, ltb, ◌==◌, list_eq, nat_eq,
}
use pocket_mo_e.Prelude.Dict
use pocket_mo_e.Prelude.Dict.{Dict}
use pocket_mo_e.Prelude.Text.{Text, one_of, starts_with}
use pocket_mo_e.Gguf.Reader.{Platform}
use pocket_mo_e.Mapping.{Ds4TensorMapping, Ds4File, build_ds4_tensor_mappings, mapped_shape}

-- A text of `shape_errors`: the mapping, the shape it has and the one the state wants.
pub record ShapeError : Type 0 where
  pub mapping : Ds4TensorMapping
  pub got : List ℕ
  pub expected : List ℕ

-- `DS4MappingValidation`
pub record Ds4MappingValidation : Type 0 where
  pub mappings : List Ds4TensorMapping
  pub missing_sources : List Text
  pub missing_targets : List Text
  pub shape_errors : List ShapeError
  pub unmapped_sources : List Text
  pub unmapped_targets : List Text

is_empty : {A : Type 0} → List A → Bool
is_empty [] = true
is_empty (x ∷ xs) = false

-- `DS4MappingValidation.ok`
unfoldable pub validation_ok : Ds4MappingValidation → Bool
unfolding is_empty
validation_ok v =
    is_empty v.missing_sources
    && (is_empty v.missing_targets
        && (is_empty v.shape_errors
            && (is_empty v.unmapped_sources && is_empty v.unmapped_targets)))

-- the order of texts
text_less : Text → Text → Bool
text_less s [] = false
text_less [] (d ∷ t) = true
text_less (c ∷ s) (d ∷ t) = ltb c d || (c == d && text_less s t)

insert_text : Text → List Text → List Text
unfolding text_less
insert_text s [] = s ∷ []
insert_text s (t ∷ ts) =
    let rest = insert_text s ts in
    if s == t then t ∷ ts else (if text_less s t then s ∷ (t ∷ ts) else t ∷ rest)

-- `sorted` of a set
unfoldable pub sorted_texts : List Text → List Text
unfolding insert_text
sorted_texts [] = []
sorted_texts (s ∷ ss) = insert_text s (sorted_texts ss)

compare_shapes : Ds4TensorMapping → Option (List ℕ) → List ℕ → List ShapeError
compare_shapes m none target = []
compare_shapes m (some shape) target =
    if shape == target then [] else record { mapping = m; got = shape; expected = target } ∷ []

shape_error : Ds4TensorMapping → Option (List ℕ) → Option (List ℕ) → List ShapeError
unfolding compare_shapes
shape_error m none target = []
shape_error m (some source) none = []
shape_error m (some source) (some target) = compare_shapes m (mapped_shape m source) target

-- the loop of the shape errors
unfoldable pub shape_errors_of :
    Ds4File → Dict Text (List ℕ) → List Ds4TensorMapping → List ShapeError
unfolding shape_error
shape_errors_of ds4 state_shapes [] = []
shape_errors_of ds4 state_shapes (m ∷ ms) =
    shape_error m (Dict.get m.gguf_name ds4.tensors_by_name) (Dict.get m.target_key state_shapes)
    ++ shape_errors_of ds4 state_shapes ms

abbrev pub names_of : Dict Text (List ℕ) → List Text
names_of d = map (λ x. x.0) d

-- those of the names that are not among the others
unfoldable pub absent : List Text → List Text → List Text
absent others names = sorted_texts (keep (λ name. not (one_of name others)) names)

-- `validate_ds4_tensor_mappings`
unfoldable pub validate_ds4_tensor_mappings :
    Platform → Ds4File → Dict Text (List ℕ) → List Text → Ds4MappingValidation
validate_ds4_tensor_mappings p ds4 state_shapes ignored_target_prefixes =
    let ms = build_ds4_tensor_mappings p ds4 (some (names_of state_shapes)) in
    let sources = map (λ m. m.gguf_name) ms in
    let targets = map (λ m. m.target_key) ms in
    record {
      mappings = ms;
      missing_sources = absent (names_of ds4.tensors_by_name) sources;
      missing_targets = absent (names_of state_shapes) targets;
      shape_errors = shape_errors_of ds4 state_shapes ms;
      unmapped_sources = absent sources (names_of ds4.tensors_by_name);
      unmapped_targets = absent targets (
          keep (λ key. not (any (λ prefix. starts_with prefix key) ignored_target_prefixes))
            (names_of state_shapes));
    }
