-- ===== src/Encoding/Laws/Pieces.antt =====
-- The pieces of a call as they are written and matched (encoding/dsv4.py): its name, and a parameter.
use pocket_mo_e.Prelude.{
  ℕ, [], ◌∷◌, ◌++◌, some, Bool, true, false, not, ◌≡◌, refl, ap, ◌∙◌, all, length, list_eq, nat_eq,
  ◌==◌, length-append, beq_refl, beq-false, if◌then◌else◌, arith, ◌<◌,
}
use pocket_mo_e.Prelude.Text.{Text, codes, starts_with, contains, lstrip}
use pocket_mo_e.Encoding.{Parameter, dsml_token}
use pocket_mo_e.Encoding.Parse.{bind, before_tail, match_name, match_key, match_parameter}
use pocket_mo_e.Encoding.Laws.Scan.{contains-split}

-- the text of a parameter between its stops
abbrev pub parameter_body : Parameter → Text
parameter_body p =
    codes " name=\""
    ++ (p.key
        ++ (codes "\" string=\""
            ++ ((if p.is_string then codes "true" else codes "false")
                ++ (codes "\">" ++ (p.value ++ codes "<")))))

-- the text of a call before its first parameter or its end; `gap` is an empty line or nothing
abbrev pub name_body : Text → Text → Text
name_body name gap = codes " name=\"" ++ (name ++ (codes "\">\n" ++ gap))

ne_length : (x y : Text) → length y < length x → (x == y) ≡ false
ne_length x y h = beq-false x y (λ e. ground (arith, ap length e))

-- One character more than a tail, at its front, is not that tail with a newline.
abbrev pub HasOwnEnd : Text → Type 0
HasOwnEnd t = (c : ℕ) → ((c ∷ t) == (t ++ codes "\n")) ≡ false

prepended-ne :
    (t : Text) (c : ℕ) (x : Text) → HasOwnEnd t → ((c ∷ (x ++ t)) == (t ++ codes "\n")) ≡ false
prepended-ne t c [] own = own c
prepended-ne t c (d ∷ x) own =
    ne_length (c ∷ (d ∷ (x ++ t))) (t ++ codes "\n")
      (ground (arith, length-append t (codes "\n"), length-append x t))

-- The text before a tail is all that stands before it.
pub before_tail-append :
    (d : ℕ) (t x : Text) → HasOwnEnd (d ∷ t) → before_tail (d ∷ t) (x ++ (d ∷ t)) ≡ some x
unfolding before_tail
before_tail-append d t [] own = ground (arith, beq_refl (d ∷ t))
before_tail-append d t (c ∷ x) own = ground (
  arith,
  prepended-ne (d ∷ t) c x own,
  ne_length (c ∷ (x ++ (d ∷ t))) (d ∷ t),
  length-append x (d ∷ t),
  before_tail-append d t x own,
)

pub before_tail-append_newline :
    (d : ℕ) (t x : Text) → before_tail (d ∷ t) (x ++ ((d ∷ t) ++ codes "\n")) ≡ some x
unfolding before_tail
before_tail-append_newline d t [] = ground (arith, beq_refl ((d ∷ t) ++ codes "\n"))
before_tail-append_newline d t (c ∷ x) = ground (
  arith,
  ne_length (c ∷ (x ++ ((d ∷ t) ++ codes "\n"))) ((d ∷ t) ++ codes "\n"),
  ne_length (c ∷ (x ++ ((d ∷ t) ++ codes "\n"))) (d ∷ t),
  length-append x ((d ∷ t) ++ codes "\n"),
  length-append t (codes "\n"),
  before_tail-append_newline d t x,
)

pub match_name-body : (name : Text) → match_name (name_body name []) ≡ some name
unfolding match_name lstrip starts_with
match_name-body name = before_tail-append 34 (codes ">\n") name (λ c. ground arith)

pub match_name-body_gap : (name : Text) → match_name (name_body name (codes "\n")) ≡ some name
unfolding match_name lstrip starts_with
match_name-body_gap name = before_tail-append_newline 34 (codes ">\n") name

match_key-append :
    (key value : Text) (b : Bool)
    → contains (codes "\"") key ≡ false
    → match_key (
        key
        ++ (codes "\" string=\""
            ++ ((if b then codes "true" else codes "false") ++ (codes "\">" ++ value))))
      ≡ some (key, (b, value))
unfolding match_key starts_with contains
match_key-append [] value true quote = refl
match_key-append [] value false quote = refl
match_key-append (c ∷ key) value b quote = ground (arith, match_key-append key value b)

pub match_parameter-body :
    (p : Parameter)
    → contains (codes "\"") p.key ≡ false
    → match_parameter (parameter_body p) ≡ some p
unfolding match_parameter starts_with bind
match_parameter-body p quote =
    ap
      (λ o. bind o (λ r.
        bind (before_tail (codes "<") r.1.1)
          (λ value. some (record { key = r.0; is_string = r.1.0; value = value }))))
      (match_key-append p.key (p.value ++ codes "<") p.is_string quote)
    ∙ ap
        (λ o.
          bind o (λ value. some (record { key = p.key; is_string = p.is_string; value = value })))
        (before_tail-append 60 [] p.value (λ c. ground arith))

-- Between its stops, a piece of a call has no token of the format.
abbrev pub NoToken : Text → Type 0
NoToken x = contains dsml_token x ≡ false

no_token :
    (x y : Text) (c : ℕ)
    → all (λ e. not (e == c)) dsml_token ≡ true
    → NoToken x
    → NoToken y
    → NoToken (x ++ (c ∷ y))
no_token x y c = contains-split 65372 (codes "DSML｜") x y c

pub name_body-NoToken :
    (name gap : Text) → NoToken name → NoToken (codes ">\n" ++ gap) → NoToken (name_body name gap)
unfolding contains starts_with
name_body-NoToken name gap clean after =
    no_token (codes " name=") (name ++ (34 ∷ (codes ">\n" ++ gap))) 34 refl refl
      (no_token name (codes ">\n" ++ gap) 34 refl clean after)

flag-NoToken :
    (b : Bool) (value : Text)
    → NoToken value
    → NoToken (
        codes " string=\""
        ++ ((if b then codes "true" else codes "false") ++ (codes "\">" ++ (value ++ codes "<"))))
unfolding contains starts_with
flag-NoToken true value clean =
    no_token (codes " string=\"true\"") (value ++ codes "<") 62 refl refl
      (no_token value [] 60 refl clean refl)
flag-NoToken false value clean =
    no_token (codes " string=\"false\"") (value ++ codes "<") 62 refl refl
      (no_token value [] 60 refl clean refl)

-- the text of a parameter after its key
abbrev flag_text : Parameter → Text
flag_text p =
    codes " string=\""
    ++ ((if p.is_string then codes "true" else codes "false")
        ++ (codes "\">" ++ (p.value ++ codes "<")))

pub parameter_body-NoToken :
    (p : Parameter) → NoToken p.key → NoToken p.value → NoToken (parameter_body p)
unfolding contains starts_with
parameter_body-NoToken p key value =
    no_token (codes " name=") (p.key ++ (34 ∷ flag_text p)) 34 refl refl
      (no_token p.key (flag_text p) 34 refl key (flag-NoToken p.is_string p.value value))
