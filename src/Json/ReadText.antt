-- ===== src/Json/ReadText.antt =====
-- `read_json` of skate/io/adapters/json.h on the text of a plain value.
use skate.Prelude.{
  ℕ, zero, suc, ◌+◌, ◌≤◌, ◌<◌, ◌^◌, ◌≡◌, refl, sym, ap, ◌∙◌, arith, not, Bool, true, false, inl,
  inr,
}
use skate.Prelude.{List, [], ◌∷◌, ◌++◌, some, codes}
use skate.Results.{success}
use skate.Utf.Unicode.{Unicode}
use skate.Utf.Encode.{CharSize}
use skate.Number.Floating.{FloatLibrary}
use skate.Number.Decode.{ℤ, pos, negsuc}
use skate.Number.RoundTrip.{IsIn}
use skate.Number.Decode
use skate.Ascii.Case.{isfpdigit}
use skate.Json.RoundTrip.{quoted, escape_forms, read_json_string-quoted}
use skate.Json.Numbers.{EndsNumber, decimal, integer_text, read_number-decimal, read_number-minus}
use skate.Json.Value.{Value, Values, Members, null, boolean, floating, string, array, object}
use skate.Json.Value.{no_values, element, no_members, member, WriteOptions, indented}
use skate.Json.Value.{push_value, insert_member, ReadOptions, nested, nesting_limit_reached}
use skate.Json.ReadString.{
  skip_whitespace, starts_with, starts_with_char, read_quoted, read_json_string,
}
use skate.Json.ReadScalar.{read_null, read_bool, read_word, bool_result, open_bracket, next_item}
use skate.Json.ReadScalar.{text, list, map, boolean_word, null_word, numeric, kind_of, kind_of_char}
use skate.Json.ReadValue.{as_string, read_value, read_elements, read_members}
use skate.Json.Text.{indent_text, colon_text, text_of, elements_text, members_text}
use skate.Json.Text.{IsText, encoded, value_of, values_of, members_of, IsPlain, ArePlain, AreSorted}
use skate.Json.Text.{
  normal, normal_int, normal_values, normal_members, cost, values_cost, members_cost,
}
use skate.Json.Text.{depth, values_depth, members_depth}
use skate.Json.TextHead.{starting, text-StartsValue, skip_graphic, next_item-graphic}
use skate.Json.TextHead.{decimal-numeric}
use skate.Json.Concat.{concat_values, concat_members, concat_values-nil, concat_members-nil}
use skate.Json.Concat.{concat_values-push_value, concat_members-insert_member, IsBelow}
use skate.Json.Concat.{IsBelow-AllBefore, insert_member-IsBelow}
use skate.Json.Steps.{
  gives, list_at, map_at, switch_at, elements_at, members_at, element_round, member_round,
}
use skate.Json.Closing.{
  starts_with-nil, after_colon, colon_at_text, skip-after_colon, values_end, members_end, closing,
  skip-closing, closing_ends, value_at,
}

module _ (beyond : ℕ → ℕ) (f : FloatLibrary) (d : CharSize) where
  -- A bracket below the limit of nesting.
  opened :
      (o : ReadOptions) (bracket : ℕ) (l : List ℕ)
      → b' ' < bracket
      → o.current_nesting < o.max_nesting
      → open_bracket o bracket (bracket ∷ l) ≡ record { input = l; result = success }
  unfolding open_bracket nesting_limit_reached skip_whitespace starts_with_char
  opened o bracket l b h = ground arith

  read_digits :
      (fuel : ℕ) (o : ReadOptions) (s : List ℕ) (j : Value (List ℕ) f.Double) (n : ℕ)
      (rest : List ℕ)
      → skip_whitespace s ≡ decimal n ++ rest
      → n ≤ 0xffffffffffffffff
      → EndsNumber rest
      → read_value beyond f d (suc fuel) o s j ≡ gives beyond f d rest (Value.uint64 n)
  read_digits fuel o s j n rest e h x =
      switch_at beyond f d fuel o s (decimal n ++ rest) j numeric e (decimal-numeric n rest)
      ∙ ap some (read_number-decimal beyond f n rest j h x)

  read_integer :
      (fuel : ℕ) (o : ReadOptions) (s : List ℕ) (j : Value (List ℕ) f.Double) (i : ℤ)
      (rest : List ℕ)
      → skip_whitespace s ≡ integer_text i ++ rest
      → IsIn Decode.int64 i
      → EndsNumber rest
      → read_value beyond f d (suc fuel) o s j ≡ gives beyond f d rest (value_of d (normal_int i))
  unfolding value_of kind_of kind_of_char
  read_integer fuel o s j (pos n) rest e h x = read_digits fuel o s j n rest e (omega arith) x
  read_integer fuel o s j (negsuc n) rest e (u, h) x =
      switch_at beyond f d fuel o s (b'-' ∷ (decimal (suc n) ++ rest)) j numeric e refl
      ∙ ap some (read_number-minus beyond f n rest j h x)

  -- A key behind white space.
  key_at :
      (s rest : List ℕ) (us : List Unicode)
      → skip_whitespace s ≡ quoted us ++ rest
      → IsText us
      → read_json_string beyond d s []
        ≡ some (record { input = rest; output = encoded d us; result = success })
  unfolding read_json_string skip_whitespace
  key_at s rest us e (h, n) =
      ap (λ l. read_quoted beyond d (starts_with_char l 0x22) []) e
      ∙ read_json_string-quoted beyond d us rest [] h n

  mutual
    unfolding value_of values_of members_of normal normal_values normal_members cost values_cost
        members_cost depth values_depth members_depth text_of elements_text members_text kind_of
        kind_of_char next_item isfpdigit read_null read_bool read_word bool_result starts_with
        skip_whitespace as_string nested read_elements read_members

    value_lem :
        (w : WriteOptions) (v : Value (List Unicode) f.Double) (fuel : ℕ) (o : ReadOptions)
        (s rest : List ℕ) (j : Value (List ℕ) f.Double)
        → skip_whitespace s ≡ text_of w v ++ rest
        → IsPlain d v
        → cost v ≤ fuel
        → o.max_nesting < 2 ^ 32
        → o.current_nesting + depth v ≤ o.max_nesting
        → EndsNumber rest
        → read_value beyond f d fuel o s j ≡ gives beyond f d rest (value_of d (normal v))
    value_lem w (floating x) fuel o s rest j e p c b n r = absurd p
    value_lem w null zero o s rest j e p c b n r = absurd (omega arith)
    value_lem w null (suc fuel) o s rest j e p c b n r =
        switch_at beyond f d fuel o s (codes "null" ++ rest) j null_word e refl
        ∙ rw (starts_with-nil rest) refl
    value_lem w (boolean x) zero o s rest j e p c b n r = absurd (omega arith)
    value_lem w (boolean true) (suc fuel) o s rest j e p c b n r =
        switch_at beyond f d fuel o s (codes "true" ++ rest) j boolean_word e refl
        ∙ rw (starts_with-nil rest) refl
    value_lem w (boolean false) (suc fuel) o s rest j e p c b n r =
        switch_at beyond f d fuel o s (codes "false" ++ rest) j boolean_word e refl
        ∙ rw (starts_with-nil rest) refl
    value_lem w (Value.int64 i) zero o s rest j e p c b n r = absurd (omega arith)
    value_lem w (Value.int64 i) (suc fuel) o s rest j e p c b n r =
        read_integer fuel o s j i rest e p r
    value_lem w (Value.uint64 i) zero o s rest j e p c b n r = absurd (omega arith)
    value_lem w (Value.uint64 i) (suc fuel) o s rest j e p c b n r =
        read_digits fuel o s j i rest e p r
    value_lem w (string us) zero o s rest j e p c b n r = absurd (omega arith)
    value_lem w (string us) (suc fuel) o s rest j e (p, q) c b n r =
        switch_at beyond f d fuel o s (quoted us ++ rest) j text e refl
        ∙ ap (as_string beyond f d) (read_json_string-quoted beyond d us rest [] p q)
    value_lem w (array xs) zero o s rest j e p c b n r = absurd (omega arith)
    value_lem w (array xs) (suc fuel) o s rest j e p c b n r =
        let close = indent_text w ++ (b']' ∷ rest) in
        let body = elements_text (indented w) true xs in
        let text = (body ++ (indent_text w ++ (b']' ∷ []))) ++ rest in
        switch_at beyond f d fuel o s (b'[' ∷ text) j list e refl
        ∙ ap (list_at beyond f d fuel o) (opened o b'[' text (omega arith) (omega arith))
        ∙ elements_lem (indented w) xs fuel (nested o) no_values true text close rest
            (ap skip_whitespace (closing w body b']' rest)) (skip-closing w b']' rest (omega arith))
            (closing_ends w b']' rest refl) p (omega arith) b (omega arith)
    value_lem w (object m) zero o s rest j e p c b n r = absurd (omega arith)
    value_lem w (object m) (suc fuel) o s rest j e p c b n r =
        let close = indent_text w ++ (b'}' ∷ rest) in
        let body = members_text (indented w) true m in
        let text = (body ++ (indent_text w ++ (b'}' ∷ []))) ++ rest in
        switch_at beyond f d fuel o s (b'{' ∷ text) j map e refl
        ∙ ap (map_at beyond f d fuel o) (opened o b'{' text (omega arith) (omega arith))
        ∙ members_lem (indented w) m fuel (nested o) no_members true text close rest
            (ap skip_whitespace (closing w body b'}' rest)) (skip-closing w b'}' rest (omega arith))
            (closing_ends w b'}' rest refl) p tt (omega arith) b (omega arith)

    elements_lem :
        (w : WriteOptions) (xs : Values (List Unicode) f.Double) (fuel : ℕ) (o : ReadOptions)
        (a : Values (List ℕ) f.Double) (first : Bool) (s close rest : List ℕ)
        → skip_whitespace s ≡ skip_whitespace (elements_text w first xs ++ close)
        → skip_whitespace close ≡ b']' ∷ rest
        → EndsNumber close
        → ArePlain d xs
        → values_cost xs ≤ fuel
        → o.max_nesting < 2 ^ 32
        → o.current_nesting + values_depth xs ≤ o.max_nesting
        → read_elements beyond f d fuel o a (not first) s
          ≡ gives beyond f d rest (array (concat_values a (values_of d (normal_values xs))))
    elements_lem w no_values zero o a first s close rest e q x p c b n = absurd (omega arith)
    elements_lem w no_values (suc fuel) o a first s close rest e q x p c b n =
        ap (elements_at beyond f d fuel o a) (ap (next_item b']' (not first)) (e ∙ q))
        ∙ ap (λ y. gives beyond f d rest (array y)) (sym (concat_values-nil a))
    elements_lem w (element v xs) zero o a first s close rest e q x p c b n = absurd (omega arith)
    elements_lem w (element v xs) (suc fuel) o a true s close rest e q x (hv, p) c b n =
        let after = elements_text w false xs ++ close in
        let start = text-StartsValue d w v hv in
        let at = value_at w (text_of w v) (elements_text w false xs) close start in
        element_round beyond f d fuel o a false s (text_of w v ++ after) (text_of w v ++ after)
          after (value_of d (normal v)) _ (e ∙ at)
          (next_item-graphic b']' (text_of w v) after start (inl refl))
          (value_lem w v fuel o (text_of w v ++ after) after null
            (skip_graphic (text_of w v) after start) hv (omega arith) b (omega arith)
            (values_end w xs close x))
          (elements_lem w xs fuel o (push_value a (value_of d (normal v))) false after close rest
            refl q x p (omega arith) b (omega arith))
        ∙ ap (λ y. gives beyond f d rest (array y))
            (concat_values-push_value a (values_of d (normal_values xs)) (value_of d (normal v)))
    elements_lem w (element v xs) (suc fuel) o a false s close rest e q x (hv, p) c b n =
        let after = elements_text w false xs ++ close in
        let start = text-StartsValue d w v hv in
        let at = value_at w (text_of w v) (elements_text w false xs) close start in
        element_round beyond f d fuel o a true s
          (b',' ∷ ((indent_text w ++ (text_of w v ++ elements_text w false xs)) ++ close))
          ((indent_text w ++ (text_of w v ++ elements_text w false xs)) ++ close) after
          (value_of d (normal v)) _ e refl
          (value_lem w v fuel o
            ((indent_text w ++ (text_of w v ++ elements_text w false xs)) ++ close) after null at hv
            (omega arith) b (omega arith) (values_end w xs close x))
          (elements_lem w xs fuel o (push_value a (value_of d (normal v))) false after close rest
            refl q x p (omega arith) b (omega arith))
        ∙ ap (λ y. gives beyond f d rest (array y))
            (concat_values-push_value a (values_of d (normal_values xs)) (value_of d (normal v)))

    members_lem :
        (w : WriteOptions) (m : Members (List Unicode) f.Double) (fuel : ℕ) (o : ReadOptions)
        (a : Members (List ℕ) f.Double) (first : Bool) (s close rest : List ℕ)
        → skip_whitespace s ≡ skip_whitespace (members_text w first m ++ close)
        → skip_whitespace close ≡ b'}' ∷ rest
        → EndsNumber close
        → AreSorted d m
        → IsBelow d a m
        → members_cost m ≤ fuel
        → o.max_nesting < 2 ^ 32
        → o.current_nesting + members_depth m ≤ o.max_nesting
        → read_members beyond f d fuel o a (not first) s
          ≡ gives beyond f d rest (object (concat_members a (members_of d (normal_members m))))
    members_lem w no_members zero o a first s close rest e q x p l c b n = absurd (omega arith)
    members_lem w no_members (suc fuel) o a first s close rest e q x p l c b n =
        ap (members_at beyond f d fuel o a) (ap (next_item b'}' (not first)) (e ∙ q))
        ∙ ap (λ y. gives beyond f d rest (object y)) (sym (concat_members-nil a))
    members_lem w (member k v m) zero o a first s close rest e q x p l c b n = absurd (omega arith)
    members_lem w (member k v m) (suc fuel) o a true s close rest e q x (hk, hv, ha, p) l c b n =
        let more = colon_text w ++ (text_of w v ++ members_text w false m) in
        let after = members_text w false m ++ close in
        let start = starting 0x22 (escape_forms k ++ (0x22 ∷ [])) (ground arith) in
        let at = value_at w (quoted k) more close start in
        member_round beyond f d fuel o a false s (quoted k ++ (more ++ close))
          (quoted k ++ (more ++ close)) (more ++ close) (after_colon w (text_of w v ++ after)) after
          (encoded d k) (value_of d (normal v)) _ (e ∙ at)
          (next_item-graphic b'}' (quoted k) (more ++ close) start (inr refl))
          (key_at (quoted k ++ (more ++ close)) (more ++ close) k
            (skip_graphic (quoted k) (more ++ close) start) hk)
          (colon_at_text w (text_of w v) (members_text w false m) close)
          (value_lem w v fuel o (after_colon w (text_of w v ++ after)) after null
            (skip-after_colon w (text_of w v ++ after)
              ∙ skip_graphic (text_of w v) after (text-StartsValue d w v hv))
            hv (omega arith) b (omega arith) (members_end w m close x))
          (members_lem w m fuel o (insert_member a (encoded d k) (value_of d (normal v))) false
            after close rest refl q x p
            (insert_member-IsBelow d a k (value_of d (normal v)) v m l ha) (omega arith) b
            (omega arith))
        ∙ ap (λ y. gives beyond f d rest (object y))
            (concat_members-insert_member a (members_of d (normal_members m)) (encoded d k)
              (value_of d (normal v)) (IsBelow-AllBefore d a k v m l))
    members_lem w (member k v m) (suc fuel) o a false s close rest e q x (hk, hv, ha, p) l c b n =
        let more = colon_text w ++ (text_of w v ++ members_text w false m) in
        let after = members_text w false m ++ close in
        let start = starting 0x22 (escape_forms k ++ (0x22 ∷ [])) (ground arith) in
        let at = value_at w (quoted k) more close start in
        member_round beyond f d fuel o a true s
          (b',' ∷ ((indent_text w ++ (quoted k ++ more)) ++ close))
          ((indent_text w ++ (quoted k ++ more)) ++ close) (more ++ close)
          (after_colon w (text_of w v ++ after)) after (encoded d k) (value_of d (normal v)) _ e
          refl (key_at ((indent_text w ++ (quoted k ++ more)) ++ close) (more ++ close) k at hk)
          (colon_at_text w (text_of w v) (members_text w false m) close)
          (value_lem w v fuel o (after_colon w (text_of w v ++ after)) after null
            (skip-after_colon w (text_of w v ++ after)
              ∙ skip_graphic (text_of w v) after (text-StartsValue d w v hv))
            hv (omega arith) b (omega arith) (members_end w m close x))
          (members_lem w m fuel o (insert_member a (encoded d k) (value_of d (normal v))) false
            after close rest refl q x p
            (insert_member-IsBelow d a k (value_of d (normal v)) v m l ha) (omega arith) b
            (omega arith))
        ∙ ap (λ y. gives beyond f d rest (object y))
            (concat_members-insert_member a (members_of d (normal_members m)) (encoded d k)
              (value_of d (normal v)) (IsBelow-AllBefore d a k v m l))

  -- The text of a plain value, behind white space, is read as the value, with integers that are not
  -- negative as unsigned ones, and what follows it is left.
  pub read_value-text :
      (w : WriteOptions) (v : Value (List Unicode) f.Double) (fuel : ℕ) (o : ReadOptions)
      (s rest : List ℕ) (j : Value (List ℕ) f.Double)
      → skip_whitespace s ≡ text_of w v ++ rest
      → IsPlain d v
      → cost v ≤ fuel
      → o.max_nesting < 2 ^ 32
      → o.current_nesting + depth v ≤ o.max_nesting
      → EndsNumber rest
      → read_value beyond f d fuel o s j
        ≡ some (record { input = rest; output = value_of d (normal v); result = success })
  read_value-text = value_lem
