-- ===== src/Encoding/Laws/Shorter.antt =====
-- What a read leaves is shorter (encoding/dsv4.py, `_read_until_stop`).
use pocket_mo_e.Prelude.{
  ℕ, ◌<◌, ◌≤◌, List, [], ◌∷◌, Option, none, some, Bool, true, false, ◌≡◌, refl, all, length,
  length-drop, list_eq, option_eq, nat_eq, arith,
}
use pocket_mo_e.Prelude.Text.{Text}
use pocket_mo_e.Encoding.Parse.{Read, stop_here, read_char, read_until_stop}

abbrev pub is_full : Text → Bool
is_full [] = false
is_full (c ∷ t) = true

stop-nonempty :
    (ps : List Text) (text s : Text)
    → all is_full ps ≡ true
    → stop_here ps text ≡ some s
    → 0 < length s
unfolding stop_here
stop-nonempty [] text s full h = absurd (cc)
stop-nonempty ([] ∷ ps) text s full h = absurd (cc)
stop-nonempty ((c ∷ p) ∷ ps) text s full h = ground (arith, stop-nonempty ps text s)

read_char_lt :
    (c : ℕ) (text : Text) (o : Option Text) (r : Read)
    → ((s : Text) → o ≡ some s → 0 < length s)
    → length r.rest ≤ length text
    → length (read_char c text o r).rest < length (c ∷ text)
unfolding read_char
read_char_lt c text none r full le = omega arith
read_char_lt c text (some s) r full le =
    ground (arith, full s refl, length-drop (length s) (c ∷ text))

pub read_le :
    (ps : List Text) (text : Text)
    → all is_full ps ≡ true
    → length (read_until_stop ps text).rest ≤ length text
unfolding read_until_stop
read_le ps [] full = omega arith
read_le ps (c ∷ text) full =
    let lt =
      read_char_lt c text (stop_here ps (c ∷ text)) (read_until_stop ps text)
        (λ s. stop-nonempty ps (c ∷ text) s full) (read_le ps text full) in
    omega (arith, lt)

-- A read leaves less of a text that is not empty.
pub read_lt :
    (ps : List Text) (c : ℕ) (text : Text)
    → all is_full ps ≡ true
    → length (read_until_stop ps (c ∷ text)).rest < length (c ∷ text)
unfolding read_until_stop
read_lt ps c text full =
    read_char_lt c text (stop_here ps (c ∷ text)) (read_until_stop ps text)
      (λ s. stop-nonempty ps (c ∷ text) s full) (read_le ps text full)
