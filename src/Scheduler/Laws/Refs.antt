-- ===== src/Scheduler/Laws/Refs.antt =====
-- Queues of references: removing one, and what then holds of the rest.
use pocket_mo_e.Prelude.{
  ℕ, ◌≡◌, ◌≢◌, refl, List, [], ◌∷◌, ◌++◌, some, Bool, true, false, arith, All, length, get_elem?,
  nat_eq, nat_eqb, nat_eqb_iff, subst, ◌==◌, if◌then◌else◌, get_elem?-set_ne, get_elem?-set_self,
  length-set, Option-cases, Bool-cases, inl, inr, list_eq,
}
use pocket_mo_e.Scheduler.{Request, request_beq, same_element, remove, update}

-- the queue without the first occurrence of a reference
unfoldable pub erase : ℕ → List ℕ → List ℕ
erase r [] = []
erase r (q ∷ qs) = let rest = erase r qs in if q == r then qs else q ∷ rest

unfoldable pub has_ref : ℕ → List ℕ → Bool
has_ref r [] = false
has_ref r (q ∷ qs) = if q == r then true else has_ref r qs

abbrev pub NotIn : ℕ → List ℕ → Type 0
NotIn r = All (λ q. q ≢ r)

abbrev pub Distinct : List ℕ → Type 0
Distinct [] = Unit
Distinct (q ∷ qs) = NotIn q qs × Distinct qs

module _ {ℓ κ} {A : Type ℓ} (P : A → Type κ) where
  pub All-append : (xs ys : List A) → All P xs → All P ys → All P (xs ++ ys)
  All-append [] ys h k = k
  All-append (x ∷ xs) ys h k = (h.0, All-append xs ys h.1 k)

pub All-weaken {ℓ κ μ} :
    {A : Type ℓ} {P : A → Type κ} {Q : A → Type μ} (xs : List A)
    → ((x : A) → P x → Q x)
    → All P xs
    → All Q xs
All-weaken [] f h = tt
All-weaken (x ∷ xs) f h = (f x h.0, All-weaken xs f h.1)

-- where one reference is not in the queue, it is enough to look at the others
pub All-others :
    {P Q : ℕ → Type 0} (r : ℕ) (qs : List ℕ)
    → ((q : ℕ) → q ≢ r → P q → Q q)
    → NotIn r qs
    → All P qs
    → All Q qs
All-others r [] f n h = tt
All-others r (q ∷ qs) f n h = (f q n.0 h.0, All-others r qs f n.1 h.1)

module _ (P : ℕ → Type 0) where
  pub All-erase : (r : ℕ) (qs : List ℕ) → All P qs → All P (erase r qs)
  unfolding erase
  All-erase r [] h = tt
  All-erase r (q ∷ qs) h = elim (Bool-cases (nat_eqb q r)) [
    | inl same ↦ rw same h.1
    | inr other ↦ rw other (h.0, All-erase r qs h.1)
  ]

pub erase-Distinct : (r : ℕ) (qs : List ℕ) → Distinct qs → Distinct (erase r qs)
unfolding erase
erase-Distinct r [] d = tt
erase-Distinct r (q ∷ qs) d = elim (Bool-cases (nat_eqb q r)) [
  | inl same ↦ rw same d.1
  | inr other ↦ rw other (All-erase (λ y. y ≢ q) r qs d.0, erase-Distinct r qs d.1)
]

pub erase-NotIn : (r : ℕ) (qs : List ℕ) → Distinct qs → NotIn r (erase r qs)
unfolding erase
erase-NotIn r [] d = tt
erase-NotIn r (q ∷ qs) d = elim (Bool-cases (nat_eqb q r)) [
  | inl same ↦ rw same (rw ((nat_eqb_iff q r).0 same) at d.0)
  | inr other ↦ rw other (λ e. ground arith, erase-NotIn r qs d.1)
]

pub erase_absent : (r : ℕ) (qs : List ℕ) → NotIn r qs → erase r qs ≡ qs
unfolding erase
erase_absent r [] n = refl
erase_absent r (q ∷ qs) n = ground (arith, n.0, erase_absent r qs n.1)

pub Distinct-append : (qs : List ℕ) (r : ℕ) → Distinct qs → NotIn r qs → Distinct (qs ++ r ∷ [])
Distinct-append [] r d n = (tt, tt)
Distinct-append (q ∷ qs) r d n = (
  All-append (λ y. y ≢ q) qs (r ∷ []) d.0 (λ e. n.0 (omega arith), tt),
  Distinct-append qs r d.1 n.1,
)

-- a property of the members holds at each of them
pub All-has_ref : (P : ℕ → Type 0) (r : ℕ) (qs : List ℕ) → All P qs → has_ref r qs ≡ true → P r
unfolding has_ref
All-has_ref P r [] h m = absurd (cc)
All-has_ref P r (q ∷ qs) h m = elim (Bool-cases (nat_eqb q r)) [
  | inl same ↦ subst P ((nat_eqb_iff q r).0 same) h.0
  | inr other ↦ All-has_ref P r qs h.1 (rw other at m)
]

-- Writing one request leaves the others.
pub get_elem?-update_ne :
    (f : Request → Request) (requests : List Request) (r q : ℕ)
    → q ≢ r
    → get_elem? (update f r requests) q ≡ get_elem? requests q
unfolding update
get_elem?-update_ne f requests r q n = elim (Option-cases (get_elem? requests r)) [
  | inl absent ↦ rw absent
  | inr (old, found) ↦ rw found (get_elem?-set_ne requests r q (f old) n)
]

pub get_elem?-update_self :
    (f : Request → Request) (requests : List Request) (r : ℕ) {old : Request}
    → get_elem? requests r ≡ some old
    → get_elem? (update f r requests) r ≡ some (f old)
unfolding update
get_elem?-update_self f requests r {old} h = rw h (get_elem?-set_self requests r (f old) h)

pub length-update :
    (f : Request → Request) (requests : List Request) (r : ℕ)
    → length (update f r requests) ≡ length requests
unfolding update
length-update f requests r = elim (Option-cases (get_elem? requests r)) [
  | inl absent ↦ rw absent
  | inr (old, found) ↦ rw found (length-set requests r (f old))
]

-- References to requests that carry their own position compare as the references do.
abbrev pub Numbered : List Request → Type 0
Numbered requests = (i : ℕ) (r : Request) → get_elem? requests i ≡ some r → r.request_id ≡ i

abbrev pub IsLive : List Request → ℕ → Type 0
IsLive requests i = (r : Request) × (get_elem? requests i ≡ some r)

pub same_element-eq :
    (requests : List Request) (a b : ℕ)
    → Numbered requests
    → IsLive requests a
    → IsLive requests b
    → same_element requests a b ≡ nat_eqb a b
unfolding same_element request_beq
same_element-eq requests a b num (ra, ea) (rb, eb) = ground (arith, num a ra ea, num b rb eb)

pub remove-erase :
    (requests : List Request) (r : ℕ) (qs : List ℕ)
    → Numbered requests
    → IsLive requests r
    → All (IsLive requests) qs
    → remove requests r qs ≡ erase r qs
unfolding remove erase
remove-erase requests r [] num live lives = refl
remove-erase requests r (q ∷ qs) num live lives =
    rw (same_element-eq requests q r num lives.0 live, remove-erase requests r qs num live lives.1)
