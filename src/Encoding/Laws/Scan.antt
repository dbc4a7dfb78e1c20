-- ===== src/Encoding/Laws/Scan.antt =====
-- The scan of `_read_until_stop` (encoding/dsv4.py): over a text that has none of the stops, followed
-- by a stop that none of them overlaps, it reads just that text.
use pocket_mo_e.Prelude.{
  ℕ, List, [], ◌∷◌, ◌++◌, none, some, Bool, true, false, not, ◌&&◌, ◌||◌, ◌⊎◌, inl, ◌≡◌, refl, ap,
  ◌∙◌, all, drop-append_length, list_eq, nat_eq, ◌==◌, eq_of_beq, beq_refl, arith,
}
use pocket_mo_e.Prelude.Text.{Text, starts_with, contains}
use pocket_mo_e.Encoding.Parse.{Read, stop_here, read_char, read_until_stop}

-- The shorter of the two texts begins the other.
unfoldable agree : Text → Text → Bool
agree [] s = true
agree (d ∷ ds) [] = true
agree (d ∷ ds) (c ∷ s) = d == c && agree ds s

unfoldable clash_from : Text → Text → Bool
clash_from [] s = false
clash_from (c ∷ p) s = agree (c ∷ p) s || clash_from p s

-- A stop `p` that begins before `s` can reach into it.
unfoldable pub clash : Text → Text → Bool
unfolding agree clash_from
clash [] s = false
clash (c ∷ p) s = clash_from p s

-- none of the stops is in the text
unfoldable pub is_free : List Text → Text → Bool
is_free ps x = all (λ p. not (contains p x)) ps

unfoldable pub no_clash : List Text → Text → Bool
unfolding clash
no_clash ps s = all (λ p. not (clash p s)) ps

starts-agree : (p s rest : Text) → starts_with p (s ++ rest) ≡ true → agree p s ≡ true
unfolding agree starts_with
starts-agree [] s rest h = refl
starts-agree (d ∷ p) [] rest h = refl
starts-agree (d ∷ p) (c ∷ s) rest h = ground (arith, starts-agree p s rest)

starts-append :
    (p x s rest : Text)
    → starts_with p (x ++ (s ++ rest)) ≡ true
    → (starts_with p x ≡ true) ⊎ (clash_from p s ≡ true)
unfolding agree clash_from starts_with
starts-append [] x s rest h = inl refl
starts-append (d ∷ p) [] s rest h = ground (arith, starts-agree (d ∷ p) s rest)
starts-append (d ∷ p) (c ∷ x) s rest h = ground (arith, starts-append p x s rest)

starts_none :
    (p : Text) (c : ℕ) (x s rest : Text)
    → contains p (c ∷ x) ≡ false
    → clash p s ≡ false
    → starts_with p (c ∷ (x ++ (s ++ rest))) ≡ false
unfolding clash clash_from starts_with contains
starts_none [] c x s rest h k = absurd (cc)
starts_none (d ∷ p) c x s rest h k = ground (arith, starts-append p x s rest)

stop-none :
    (ps : List Text) (c : ℕ) (x s rest : Text)
    → is_free ps (c ∷ x) ≡ true
    → no_clash ps s ≡ true
    → stop_here ps (c ∷ (x ++ (s ++ rest))) ≡ none
unfolding is_free no_clash stop_here
stop-none [] c x s rest h k = refl
stop-none (p ∷ ps) c x s rest h k =
    ground (arith, starts_none p c x s rest, stop-none ps c x s rest)

is_free-tail : (ps : List Text) (c : ℕ) (x : Text) → is_free ps (c ∷ x) ≡ true → is_free ps x ≡ true
unfolding is_free contains
is_free-tail [] c x h = refl
is_free-tail (p ∷ ps) c x h = ground (arith, is_free-tail ps c x)

-- the read of `x` up to the stop `s`
abbrev pub found : Text → Text → Text → Read
found x s rest = record { before = x; stop = some s; rest = rest }

pub read_until_stop-found :
    (ps : List Text) (x : Text) (c : ℕ) (s rest : Text)
    → is_free ps x ≡ true
    → no_clash ps (c ∷ s) ≡ true
    → stop_here ps (c ∷ (s ++ rest)) ≡ some (c ∷ s)
    → read_until_stop ps (x ++ (c ∷ (s ++ rest))) ≡ found x (c ∷ s) rest
unfolding read_until_stop read_char
read_until_stop-found ps [] c s rest free clear here =
    ap (λ o. read_char c (s ++ rest) o (read_until_stop ps (s ++ rest))) here
    ∙ ap (found [] (c ∷ s)) (drop-append_length s rest)
read_until_stop-found ps (d ∷ x) c s rest free clear here =
    ap (λ o. read_char d (x ++ (c ∷ (s ++ rest))) o (read_until_stop ps (x ++ (c ∷ (s ++ rest)))))
      (stop-none ps d x (c ∷ s) rest free clear)
    ∙ ap (read_char d (x ++ (c ∷ (s ++ rest))) none)
        (read_until_stop-found ps x c s rest (is_free-tail ps d x free) clear here)

-- What has a text that has `b` has `b`.
starts_trans :
    (b p x : Text) → starts_with b p ≡ true → starts_with p x ≡ true → starts_with b x ≡ true
unfolding starts_with
starts_trans [] p x hb hp = refl
starts_trans (d ∷ b) [] x hb hp = absurd (cc)
starts_trans (d ∷ b) (c ∷ p) [] hb hp = absurd (cc)
starts_trans (d ∷ b) (c ∷ p) (a ∷ x) hb hp =
    ground (arith, starts_trans b p x, eq_of_beq d c, eq_of_beq c a, beq_refl d)

starts-contains :
    (b p x : Text) → contains b p ≡ true → starts_with p x ≡ true → contains b x ≡ true
unfolding starts_with contains
starts-contains [] [] [] hb hp = refl
starts-contains [] [] (a ∷ x) hb hp = refl
starts-contains (d ∷ b) [] x hb hp = absurd (cc)
starts-contains b (c ∷ p) [] hb hp = absurd (cc)
starts-contains b (c ∷ p) (a ∷ x) hb hp =
    ground (arith, starts-contains b p x, starts_trans b (c ∷ p) (a ∷ x))

pub contains_trans :
    (b p x : Text) → contains b p ≡ true → contains p x ≡ true → contains b x ≡ true
unfolding contains
contains_trans b p [] hb hp = ground (arith, starts-contains b p [])
contains_trans b p (c ∷ x) hb hp = ground (arith, starts-contains b p (c ∷ x), contains_trans b p x)

-- A text free of `b` is free of the stops that have `b`.
pub is_free-of :
    (b : Text) (ps : List Text) (x : Text)
    → all (contains b) ps ≡ true
    → contains b x ≡ false
    → is_free ps x ≡ true
unfolding is_free
is_free-of b [] x has lacks = refl
is_free-of b (p ∷ ps) x has lacks = ground (arith, contains_trans b p x, is_free-of b ps x)

-- A character that `p` lacks keeps apart the texts on its two sides.
starts-split :
    (p x y : Text) (c : ℕ)
    → all (λ d. not (d == c)) p ≡ true
    → starts_with p (x ++ (c ∷ y)) ≡ true
    → starts_with p x ≡ true
unfolding starts_with
starts-split [] x y c lacks h = refl
starts-split (d ∷ p) [] y c lacks h = ground arith
starts-split (d ∷ p) (a ∷ x) y c lacks h = ground (arith, starts-split p x y c)

pub contains-split :
    (d : ℕ) (p x y : Text) (c : ℕ)
    → all (λ e. not (e == c)) (d ∷ p) ≡ true
    → contains (d ∷ p) x ≡ false
    → contains (d ∷ p) y ≡ false
    → contains (d ∷ p) (x ++ (c ∷ y)) ≡ false
unfolding contains starts_with
contains-split d p [] y c lacks hx hy = ground arith
contains-split d p (a ∷ x) y c lacks hx hy =
    ground (arith, contains-split d p x y c, starts-split (d ∷ p) (a ∷ x) y c)
