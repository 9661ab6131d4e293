-- ===== src/Json/WriteText.antt =====
-- `write_json` of a plain value of skate/io/adapters/json.h writes its text.
use skate.Prelude.{ℕ, ◌≡◌, refl, sym, ap, ◌∙◌, arith, Bool, true, false}
use skate.Prelude.{List, [], ◌∷◌, ◌++◌, append-nil, append_assoc, replicate, Option, some}
use skate.Results.{success, OutputResult}
use skate.Utf.Unicode.{Unicode}
use skate.Utf.Encode.{CharSize}
use skate.Number.Floating.{FloatLibrary}
use skate.Json.RoundTrip.{quoted, write_json_string-quoted}
use skate.Json.Numbers.{int_encode-uint64, int_encode-int64}
use skate.Json.Value.{Value, Values, Members, null, boolean, floating, string, array, object}
use skate.Json.Value.{no_values, element, no_members, member, WriteOptions, indented, write_indent}
use skate.Json.WriteValue.{write_bool, separate, close_with, close_option, write_colon, then_write}
use skate.Json.WriteValue.{write_value, write_elements, write_members, to_json}
use skate.Json.Text.{indent_text, comma_text, colon_text, text_of, elements_text, members_text}
use skate.Json.Text.{value_of, values_of, members_of, IsPlain, ArePlain, AreSorted}

abbrev written : List ℕ → Option (OutputResult (List ℕ))
written out = some (record { output = out; result = success })

write_indent-text : (o : WriteOptions) (out : List ℕ) → write_indent o out ≡ out ++ indent_text o
unfolding write_indent
write_indent-text o out =
    ground (arith, append_assoc out (10 ∷ []) (replicate o.current_indentation b' '))

separate-text :
    (o : WriteOptions) (first : Bool) (out : List ℕ)
    → write_indent o (separate first out) ≡ out ++ (comma_text first ++ indent_text o)
unfolding separate
separate-text o true out = write_indent-text o out
separate-text o false out =
    write_indent-text o (out ++ (b',' ∷ [])) ∙ append_assoc out (b',' ∷ []) (indent_text o)

write_colon-text : (o : WriteOptions) (out : List ℕ) → write_colon o out ≡ out ++ colon_text o
unfolding write_colon
write_colon-text o out = ground (arith, append_assoc out (b':' ∷ []) (b' ' ∷ []))

close-text :
    (o : WriteOptions) (bracket : ℕ) (out : List ℕ)
    → close_option o bracket (written out) ≡ written (out ++ (indent_text o ++ (bracket ∷ [])))
unfolding close_option close_with
close-text o bracket out =
    ap (λ l. written (l ++ (bracket ∷ []))) (write_indent-text o out)
    ∙ ap written (append_assoc out (indent_text o) (bracket ∷ []))

module _ (f : FloatLibrary) (c : CharSize) where
  mutual
    unfolding write_value write_elements write_members text_of elements_text members_text value_of
        values_of members_of write_bool

    value_text :
        (o : WriteOptions) (v : Value (List Unicode) f.Double) (out : List ℕ)
        → IsPlain c v
        → write_value f c o (value_of c v) out ≡ written (out ++ text_of o v)
    value_text o null out h = refl
    value_text o (boolean true) out h = refl
    value_text o (boolean false) out h = refl
    value_text o (floating d) out h = absurd h
    value_text o (Value.int64 i) out h = int_encode-int64 i out h
    value_text o (Value.uint64 n) out h = int_encode-uint64 n out h
    value_text o (string us) out (h, n) = write_json_string-quoted c us out h
    value_text o (array xs) out h =
        ap (close_option o b']') (elements_lem (indented o) xs true (out ++ (b'[' ∷ [])) h)
        ∙ close-text o b']' _
        ∙ ap written (simp append_assoc)
    value_text o (object m) out h =
        ap (close_option o b'}') (members_lem (indented o) m true (out ++ (b'{' ∷ [])) h)
        ∙ close-text o b'}' _
        ∙ ap written (simp append_assoc)

    elements_lem :
        (o : WriteOptions) (xs : Values (List Unicode) f.Double) (first : Bool) (out : List ℕ)
        → ArePlain c xs
        → write_elements f c o (values_of c xs) first out
          ≡ written (out ++ elements_text o first xs)
    elements_lem o no_values first out h = ap written (sym (append-nil out))
    elements_lem o (element v xs) first out (hv, h) =
        ap
          (λ l.
            then_write (write_value f c o (value_of c v) l)
              (write_elements f c o (values_of c xs) false))
          (separate-text o first out)
        ∙ ap (λ r. then_write r (write_elements f c o (values_of c xs) false))
            (value_text o v (out ++ (comma_text first ++ indent_text o)) hv)
        ∙ elements_lem o xs false ((out ++ (comma_text first ++ indent_text o)) ++ text_of o v) h
        ∙ ap written (simp append_assoc)

    members_lem :
        (o : WriteOptions) (m : Members (List Unicode) f.Double) (first : Bool) (out : List ℕ)
        → AreSorted c m
        → write_members f c o (members_of c m) first out ≡ written (out ++ members_text o first m)
    members_lem o no_members first out h = ap written (sym (append-nil out))
    members_lem o (member k v m) first out ((hk, nk), hv, ha, h) =
        rw
          (
            separate-text o first out,
            write_json_string-quoted c k (out ++ (comma_text first ++ indent_text o)) hk,
            write_colon-text o ((out ++ (comma_text first ++ indent_text o)) ++ quoted k),
            value_text o v
                (((out ++ (comma_text first ++ indent_text o)) ++ quoted k) ++ colon_text o) hv,
          )
          (members_lem o m false
              ((((out ++ (comma_text first ++ indent_text o)) ++ quoted k) ++ colon_text o)
                ++ text_of o v)
              h
            ∙ ap written (simp append_assoc))

  -- A value without floating point numbers, with its integers in range and its strings made of
  -- characters that every encoding carries, is written as its text, whatever was written before.
  pub write_value-text :
      (o : WriteOptions) (v : Value (List Unicode) f.Double) (out : List ℕ)
      → IsPlain c v
      → write_value f c o (value_of c v) out
        ≡ some (record { output = out ++ text_of o v; result = success })
  write_value-text = value_text

  pub to_json-text :
      (o : WriteOptions) (v : Value (List Unicode) f.Double)
      → IsPlain c v
      → to_json f c o (value_of c v) ≡ some (record { output = text_of o v; result = success })
  unfolding to_json text_of
  to_json-text o v h = rw (value_text o v [] h, to_json) refl
