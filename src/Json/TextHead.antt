-- ===== src/Json/TextHead.antt =====
-- What the text of a value begins with, and how much of it there is: the first character decides how
-- `read_json` of skate/io/adapters/json.h goes on.
use skate.Prelude.{
  ℕ, zero, suc, ◌+◌, ◌*◌, ◌≤◌, ◌<◌, ◌≡◌, ◌≢◌, refl, ap, arith, ◌==◌, if◌then◌else◌, Bool, true,
  false,
}
use skate.Prelude.{◌⊎◌, List, [], ◌∷◌, ◌++◌, length, length-append, replicate}
use skate.Utf.Unicode.{Unicode}
use skate.Ascii.Case.{isfpdigit, isdigit}
use skate.Number.Decode.{ℤ, pos, negsuc}
use skate.Json.RoundTrip.{quoted}
use skate.Json.Numbers.{EndsNumber, decimal, decimal-IsNumeral, integer_text}
use skate.Json.ReadString.{skip_whitespace}
use skate.Json.ReadScalar.{numeric, kind_of, kind_of_char, next_item, item}
use skate.Json.Value.{Value, Values, Members, null, boolean, floating, string, array, object}
use skate.Json.Value.{no_values, element, no_members, member, WriteOptions, indented}
use skate.Json.Text.{indent_text, colon_text, text_of, elements_text, members_text}
use skate.Json.Text.{cost, values_cost, members_cost, IsPlain, ArePlain, AreSorted}
use skate.Utf.Encode.{CharSize}

-- A character that is neither white space nor ends an element.
abbrev pub IsGraphic : ℕ → Type 0
IsGraphic c = (b' ' < c) × (c ≢ b',') × (c ≢ b']') × (c ≢ b'}')

pub record StartsValue (l : List ℕ) : Type 0 where
  pub head : ℕ
  pub others : List ℕ
  pub shape : l ≡ head ∷ others
  pub graphic : IsGraphic head

abbrev pub starting : (c : ℕ) (l : List ℕ) → IsGraphic c → StartsValue (c ∷ l)
starting c l h = record { head = c; others = l; shape = refl; graphic = h }

decimal-StartsValue : (n : ℕ) → StartsValue (decimal n)
decimal-StartsValue n =
    let s = decimal-IsNumeral n in
    record {
      head = s.digit;
      others = s.others;
      shape = s.shape;
      graphic = ground (arith, s.decimal);
    }

pub integer_text-StartsValue : (i : ℤ) → StartsValue (integer_text i)
integer_text-StartsValue (pos n) = decimal-StartsValue n
integer_text-StartsValue (negsuc n) = starting b'-' (decimal (suc n)) (ground arith)

module _ {D : Type 0} (c : CharSize) where
  pub text-StartsValue :
      (o : WriteOptions) (v : Value (List Unicode) D) → IsPlain c v → StartsValue (text_of o v)
  unfolding text_of
  text-StartsValue o null h = starting b'n' _ (ground arith)
  text-StartsValue o (boolean true) h = starting b't' _ (ground arith)
  text-StartsValue o (boolean false) h = starting b'f' _ (ground arith)
  text-StartsValue o (floating d) h = absurd h
  text-StartsValue o (Value.int64 i) h = integer_text-StartsValue i
  text-StartsValue o (Value.uint64 n) h = decimal-StartsValue n
  text-StartsValue o (string us) h = starting 0x22 _ (ground arith)
  text-StartsValue o (array xs) h = starting b'[' _ (ground arith)
  text-StartsValue o (object m) h = starting b'{' _ (ground arith)

pub skip_graphic :
    (l : List ℕ) (rest : List ℕ) → StartsValue l → skip_whitespace (l ++ rest) ≡ l ++ rest
unfolding skip_whitespace
skip_graphic l rest s = rw s.shape (ground (arith, s.graphic))

pub next_item-graphic :
    (bracket : ℕ) (l : List ℕ) (rest : List ℕ)
    → StartsValue l
    → (bracket ≡ b']') ⊎ (bracket ≡ b'}')
    → next_item bracket false (l ++ rest) ≡ item (l ++ rest)
unfolding next_item
next_item-graphic bracket l rest s b = rw s.shape (ground (arith, s.graphic))

skip_spaces : (n : ℕ) (l : List ℕ) → skip_whitespace (replicate n b' ' ++ l) ≡ skip_whitespace l
unfolding skip_whitespace
skip_spaces zero l = refl
skip_spaces (suc n) l = skip_spaces n l

pub skip_indent :
    (o : WriteOptions) (l : List ℕ) → skip_whitespace (indent_text o ++ l) ≡ skip_whitespace l
unfolding skip_whitespace
skip_indent o l = ground (arith, skip_spaces o.current_indentation l)

replicate-EndsNumber : (n : ℕ) (l : List ℕ) → EndsNumber l → EndsNumber (replicate n b' ' ++ l)
unfolding isfpdigit
replicate-EndsNumber zero l h = h
replicate-EndsNumber (suc n) l h = ground arith

pub indent-EndsNumber :
    (o : WriteOptions) (l : List ℕ) → EndsNumber l → EndsNumber (indent_text o ++ l)
unfolding isfpdigit
indent-EndsNumber o l h =
    elim (o.indent == 0)
      as (λ b.
        EndsNumber (((if b then [] else 10 ∷ []) ++ replicate o.current_indentation b' ') ++ l)) [
          | true ↦ replicate-EndsNumber o.current_indentation l h
          | false ↦ ground arith
        ]

pub skip_skip : (l : List ℕ) → skip_whitespace (skip_whitespace l) ≡ skip_whitespace l
unfolding skip_whitespace
skip_skip [] = refl
skip_skip (c ∷ l) = ground (arith, skip_skip l)

pub decimal-numeric : (n : ℕ) (rest : List ℕ) → kind_of (decimal n ++ rest) ≡ numeric
unfolding kind_of kind_of_char isdigit
decimal-numeric n rest = let s = decimal-IsNumeral n in rw s.shape (ground (arith, s.decimal))

starts-length : (l : List ℕ) → StartsValue l → 0 < length l
starts-length l s = omega (arith, ap length s.shape)

length_parts : (a b c : List ℕ) → length (a ++ (b ++ c)) ≡ length a + (length b + length c)
length_parts a b c = omega (arith, length-append a (b ++ c), length-append b c)

module _ {D : Type 0} (c : CharSize) where
  mutual
    unfolding text_of elements_text members_text cost values_cost members_cost

    cost_text :
        (o : WriteOptions) (v : Value (List Unicode) D)
        → IsPlain c v
        → cost v ≤ 2 * length (text_of o v)
    cost_text o null h = omega arith
    cost_text o (boolean true) h = omega arith
    cost_text o (boolean false) h = omega arith
    cost_text o (floating d) h = absurd h
    cost_text o (Value.int64 i) h = omega (arith, starts-length _ (integer_text-StartsValue i))
    cost_text o (Value.uint64 n) h = omega (arith, starts-length _ (decimal-StartsValue n))
    cost_text o (string us) h = omega arith
    cost_text o (array xs) h = omega (
      arith,
      values_cost_text (indented o) true xs h,
      length-append (elements_text (indented o) true xs) (indent_text o ++ (b']' ∷ [])),
      length-append (indent_text o) (b']' ∷ []),
    )
    cost_text o (object m) h = omega (
      arith,
      members_cost_text (indented o) true m h,
      length-append (members_text (indented o) true m) (indent_text o ++ (b'}' ∷ [])),
      length-append (indent_text o) (b'}' ∷ []),
    )

    values_cost_text :
        (o : WriteOptions) (first : Bool) (xs : Values (List Unicode) D)
        → ArePlain c xs
        → values_cost xs ≤ 2 * length (elements_text o first xs) + (if first then 2 else 1)
    values_cost_text o true no_values h = omega arith
    values_cost_text o false no_values h = omega arith
    values_cost_text o true (element v xs) (hv, h) = omega (
      arith,
      cost_text o v hv,
      values_cost_text o false xs h,
      length_parts (indent_text o) (text_of o v) (elements_text o false xs),
    )
    values_cost_text o false (element v xs) (hv, h) = omega (
      arith,
      cost_text o v hv,
      values_cost_text o false xs h,
      length_parts (indent_text o) (text_of o v) (elements_text o false xs),
    )

    members_cost_text :
        (o : WriteOptions) (first : Bool) (m : Members (List Unicode) D)
        → AreSorted c m
        → members_cost m ≤ 2 * length (members_text o first m) + (if first then 2 else 1)
    members_cost_text o true no_members h = omega arith
    members_cost_text o false no_members h = omega arith
    members_cost_text o true (member k v m) (hk, hv, ha, h) = omega (
      arith,
      cost_text o v hv,
      members_cost_text o false m h,
      length_parts (indent_text o) (quoted k)
          (colon_text o ++ (text_of o v ++ members_text o false m)),
      length_parts (colon_text o) (text_of o v) (members_text o false m),
    )
    members_cost_text o false (member k v m) (hk, hv, ha, h) = omega (
      arith,
      cost_text o v hv,
      members_cost_text o false m h,
      length_parts (indent_text o) (quoted k)
          (colon_text o ++ (text_of o v ++ members_text o false m)),
      length_parts (colon_text o) (text_of o v) (members_text o false m),
    )

  -- The fuel of `from_json` is more than the cost of a text.
  pub cost-text :
      (o : WriteOptions) (v : Value (List Unicode) D)
      → IsPlain c v
      → cost v ≤ 2 * length (text_of o v)
  cost-text = cost_text
