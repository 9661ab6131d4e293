-- ===== src/Json/Closing.antt =====
-- The punctuation in the text of a value: colons, commas and closing brackets, as
-- `read_json` of skate/io/adapters/json.h meets them.
use skate.Prelude.{ℕ, ◌<◌, ◌≡◌, refl, ap, ◌∙◌, arith, ◌==◌, if◌then◌else◌, false}
use skate.Prelude.{List, [], ◌∷◌, ◌++◌, append_assoc}
use skate.Results.{success}
use skate.Utf.Unicode.{Unicode}
use skate.Ascii.Case.{isfpdigit}
use skate.Json.Numbers.{EndsNumber}
use skate.Json.Value.{Values, Members}
use skate.Json.Value.{no_values, element, no_members, member, WriteOptions}
use skate.Json.ReadString.{skip_whitespace, starts_with, starts_with_char}
use skate.Json.Text.{indent_text, colon_text, elements_text, members_text}
use skate.Json.TextHead.{StartsValue, skip_graphic, skip_indent}
use skate.Json.TextHead.{indent-EndsNumber}

pub starts_with-nil : (l : List ℕ) → starts_with l [] ≡ record { input = l; result = success }
unfolding starts_with
starts_with-nil [] = refl
starts_with-nil (c ∷ l) = refl

pub four_parts : (a b c t : List ℕ) → (a ++ (b ++ c)) ++ t ≡ a ++ (b ++ (c ++ t))
four_parts a b c t = simp append_assoc

-- What follows a colon.
abbrev pub after_colon : WriteOptions → List ℕ → List ℕ
after_colon w l = if w.indent == 0 then l else b' ' ∷ l

pub colon-text :
    (w : WriteOptions) (l : List ℕ)
    → starts_with_char (skip_whitespace (colon_text w ++ l)) b':'
      ≡ record { input = after_colon w l; result = success }
unfolding starts_with_char skip_whitespace
colon-text w l = ground arith

pub colon_at_text :
    (w : WriteOptions) (t more close : List ℕ)
    → starts_with_char (skip_whitespace ((colon_text w ++ (t ++ more)) ++ close)) b':'
      ≡ record { input = after_colon w (t ++ (more ++ close)); result = success }
colon_at_text w t more close =
    ap (λ l. starts_with_char (skip_whitespace l) b':') (four_parts (colon_text w) t more close)
    ∙ colon-text w (t ++ (more ++ close))

pub skip-after_colon :
    (w : WriteOptions) (l : List ℕ) → skip_whitespace (after_colon w l) ≡ skip_whitespace l
unfolding skip_whitespace
skip-after_colon w l = ground arith

pub values_end :
    {D : Type 0} (w : WriteOptions) (xs : Values (List Unicode) D) (close : List ℕ)
    → EndsNumber close
    → EndsNumber (elements_text w false xs ++ close)
unfolding elements_text isfpdigit
values_end w no_values close h = h
values_end w (element v xs) close h = refl

pub members_end :
    {D : Type 0} (w : WriteOptions) (m : Members (List Unicode) D) (close : List ℕ)
    → EndsNumber close
    → EndsNumber (members_text w false m ++ close)
unfolding members_text isfpdigit
members_end w no_members close h = h
members_end w (member k v m) close h = refl

-- The end of an array or object.
pub closing :
    (w : WriteOptions) (items : List ℕ) (bracket : ℕ) (rest : List ℕ)
    → (items ++ (indent_text w ++ (bracket ∷ []))) ++ rest
      ≡ items ++ (indent_text w ++ (bracket ∷ rest))
closing w items bracket rest = four_parts items (indent_text w) (bracket ∷ []) rest

pub skip-closing :
    (w : WriteOptions) (bracket : ℕ) (rest : List ℕ)
    → b' ' < bracket
    → skip_whitespace (indent_text w ++ (bracket ∷ rest)) ≡ bracket ∷ rest
unfolding skip_whitespace
skip-closing w bracket rest h = ground (arith, skip_indent w (bracket ∷ rest))

pub closing_ends :
    (w : WriteOptions) (bracket : ℕ) (rest : List ℕ)
    → isfpdigit bracket ≡ false
    → EndsNumber (indent_text w ++ (bracket ∷ rest))
closing_ends w bracket rest h = indent-EndsNumber w (bracket ∷ rest) h

-- A value behind an indentation.
pub value_at :
    (w : WriteOptions) (t more close : List ℕ)
    → StartsValue t
    → skip_whitespace ((indent_text w ++ (t ++ more)) ++ close) ≡ t ++ (more ++ close)
value_at w t more close h =
    ap skip_whitespace (four_parts (indent_text w) t more close)
    ∙ skip_indent w (t ++ (more ++ close))
    ∙ skip_graphic t (more ++ close) h
