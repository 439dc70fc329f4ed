-- ===== src/Grippers/Printing/Words.antt =====
-- Texts of src/to_string.cpp, split at their spaces.
use tactile_sensors.Base.{
  Bool, List, [], ap, refl, true, ◌++◌, ◌∷◌, ◌≡◌, ◌≢◌, ◌∙◌, ℕ, append_assoc, append-nil, sym,
}
use tactile_sensors.Base.Split.{lacks, lacks-append, split, split-append, split-word}
use tactile_sensors.Grippers.Printing.{append_field}

-- The parts between the spaces.
abbrev pub words : List ℕ → List (List ℕ)
words text = split b' ' text

abbrev pub no_space : List ℕ → Bool
no_space text = lacks b' ' text

pub words-append : (a b : List ℕ) → words (a ++ b' ' ∷ b) ≡ words a ++ words b
words-append a b = split-append b' ' a b

pub words-word : (w : List ℕ) → no_space w ≡ true → words w ≡ w ∷ []
words-word w h = split-word b' ' w h

pub no_space-append :
    (a b : List ℕ) → no_space a ≡ true → no_space b ≡ true → no_space (a ++ b) ≡ true
no_space-append a b h k = lacks-append b' ' a b h k

-- The text of a field.
abbrev pub field : List ℕ → List ℕ → List ℕ
field name value = name ++ b'=' ∷ value

abbrev pub FieldList : Type 0
FieldList = List (List ℕ × List ℕ)

-- Fields appended one after the other.
unfoldable pub append_fields : List ℕ → FieldList → List ℕ
append_fields out [] = out
append_fields out ((name, value) ∷ fs) = append_fields (append_field out name value) fs

abbrev pub fields : FieldList → List (List ℕ)
fields [] = []
fields ((name, value) ∷ fs) = field name value ∷ fields fs

abbrev pub ArePlain : FieldList → Type 0
ArePlain [] = Unit
ArePlain ((name, value) ∷ fs) = (no_space name ≡ true) × (no_space value ≡ true) × ArePlain fs

-- Each further field is a further word.
words-append_more :
    (c : ℕ) (out : List ℕ) (fs : FieldList)
    → ArePlain fs
    → words (append_fields (c ∷ out) fs) ≡ words (c ∷ out) ++ fields fs
unfolding append_fields append_field
words-append_more c out [] h = sym (append-nil (words (c ∷ out)))
words-append_more c out ((name, value) ∷ fs) (k, l, h) =
    words-append_more c (out ++ b' ' ∷ field name value) fs h
    ∙ ap (λ ws. ws ++ fields fs)
        (words-append (c ∷ out) (field name value)
          ∙ ap (λ ws. words (c ∷ out) ++ ws)
              (words-word (field name value) (no_space-append name (b'=' ∷ value) k l)))
    ∙ append_assoc (words (c ∷ out)) (field name value ∷ []) (fields fs)

-- A text that has a field already.
pub words-append_fields :
    (out : List ℕ) (fs : FieldList)
    → out ≢ []
    → ArePlain fs
    → words (append_fields out fs) ≡ words out ++ fields fs
words-append_fields [] fs h k = absurd (h refl)
words-append_fields (c ∷ out) fs h k = words-append_more c out fs k

pub cons-ne-nil : {A : Type 0} (xs ys : List A) (x : A) → xs ++ x ∷ ys ≢ []
cons-ne-nil [] ys x e = cc
cons-ne-nil (a ∷ xs) ys x e = cc

-- A text of fields, from the start.
pub words-fields :
    (name value : List ℕ) (fs : FieldList)
    → ArePlain ((name, value) ∷ fs)
    → words (append_fields (append_field [] name value) fs) ≡ field name value ∷ fields fs
unfolding append_field
words-fields name value fs (k, l, h) =
    words-append_fields (field name value) fs (cons-ne-nil name value b'=') h
    ∙ ap (λ ws. ws ++ fields fs)
        (words-word (field name value) (no_space-append name (b'=' ∷ value) k l))
