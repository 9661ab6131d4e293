-- ===== src/Json/Invariant.antt =====
-- The invariant of the values that `read_json` of skate/io/adapters/json.h gives: the keys of a map
-- ascend, and nothing is nested deeper than the limit of the options.
use skate.Prelude.{ℕ, ◌≤◌, max, ◌≡◌, refl, arith, ◌==◌, if◌then◌else◌}
use skate.Prelude.{Bool-cases, inl, inr, Bool, true, false, List, [], ◌∷◌}
use skate.Results.{success, failure, ParsingResult}
use skate.Number.Decode.{ℤ, pos, negsuc, int_decode}
use skate.Number.Decode
use skate.Number.Floating.{FloatLibrary}
use skate.Json.Value.{
  Value, Values, Members, null, boolean, floating, int64, uint64, string, array, object,
}
use skate.Json.Value.{no_values, element, no_members, member, lt_string, push_value, insert_member}
use skate.Json.ReadString.{skip_whitespace}
use skate.Json.ReadScalar.{
  read_null, bool_result, read_word, read_bool, copy_number, has_fraction, if_whole,
}
use skate.Json.ReadScalar.{read_floating, integer_result, decode_number, read_number, as_uint64}
use skate.Json.ReadScalar.{int64_ref, uint64_ref}
use skate.Json.Text.{depth, values_depth, members_depth}

module _ {D : Type 0} where
  -- The first key, if there is one, is behind `k`.
  abbrev pub HeadAfter : List ℕ → Members (List ℕ) D → Type 0
  HeadAfter k no_members = Unit {0}
  HeadAfter k (member k' v m) = lt_string k k' ≡ true

  -- The keys of every object ascend.
  abbrev mutual
    pub IsOrdered : Value (List ℕ) D → Type 0
    IsOrdered null = Unit {0}
    IsOrdered (boolean b) = Unit {0}
    IsOrdered (floating x) = Unit {0}
    IsOrdered (int64 i) = Unit {0}
    IsOrdered (uint64 n) = Unit {0}
    IsOrdered (string s) = Unit {0}
    IsOrdered (array xs) = AreOrdered xs
    IsOrdered (object m) = IsMap m

    pub AreOrdered : Values (List ℕ) D → Type 0
    AreOrdered no_values = Unit {0}
    AreOrdered (element v xs) = IsOrdered v × AreOrdered xs

    pub IsMap : Members (List ℕ) D → Type 0
    IsMap no_members = Unit {0}
    IsMap (member k v m) = HeadAfter k m × IsOrdered v × IsMap m

  pub push_value-AreOrdered :
      (a : Values (List ℕ) D) (v : Value (List ℕ) D)
      → AreOrdered a
      → IsOrdered v
      → AreOrdered (push_value a v)
  unfolding push_value
  push_value-AreOrdered no_values v h i = (i, tt)
  push_value-AreOrdered (element x a) v (hx, h) i = (hx, push_value-AreOrdered a v h i)

  pub push_value-depth :
      (a : Values (List ℕ) D) (v : Value (List ℕ) D)
      → values_depth (push_value a v) ≤ max (values_depth a) (depth v)
  unfolding push_value values_depth
  push_value-depth no_values v = omega arith
  push_value-depth (element x a) v = omega (arith, push_value-depth a v)

  insert_head :
      (m : Members (List ℕ) D) (k key : List ℕ) (v : Value (List ℕ) D)
      → HeadAfter k m
      → lt_string k key ≡ true
      → HeadAfter k (insert_member m key v)
  unfolding insert_member
  insert_head no_members k key v h l = l
  insert_head (member k' x m) k key v h l = elim (Bool-cases (lt_string k' key)) [
    | inl e ↦ rw e h
    | inr e ↦ rw e (elim (Bool-cases (lt_string key k')) [ inl t ↦ rw t l | inr t ↦ rw t h ])
  ]

  -- `insert` keeps the order of the keys.
  pub insert_member-IsMap :
      (m : Members (List ℕ) D) (key : List ℕ) (v : Value (List ℕ) D)
      → IsMap m
      → IsOrdered v
      → IsMap (insert_member m key v)
  unfolding insert_member
  insert_member-IsMap no_members key v h i = (tt, i, tt)
  insert_member-IsMap (member k x m) key v (hk, hx, h) i = elim (Bool-cases (lt_string k key)) [
    | inl e ↦ rw e (insert_head m k key v hk e, hx, insert_member-IsMap m key v h i)
    | inr e ↦ rw e (elim (Bool-cases (lt_string key k)) [
      | inl t ↦ rw t (t, i, (hk, hx, h))
      | inr t ↦ rw t (hk, hx, h)
    ])
  ]

  pub insert_member-depth :
      (m : Members (List ℕ) D) (key : List ℕ) (v : Value (List ℕ) D)
      → members_depth (insert_member m key v) ≤ max (members_depth m) (depth v)
  unfolding insert_member members_depth
  insert_member-depth no_members key v = omega arith
  insert_member-depth (member k x m) key v = elim (Bool-cases (lt_string k key)) [
    | inl e ↦ rw e (omega (arith, insert_member-depth m key v))
    | inr e ↦ rw e (elim (Bool-cases (lt_string key k)) [
      | inl t ↦ rw t (omega arith)
      | inr t ↦ rw t (omega arith)
    ])
  ]

-- A value that is neither an array nor an object.
abbrev pub IsFlat : {D : Type 0} → Value (List ℕ) D → Type 0
IsFlat {D} v = IsOrdered v × (depth v ≡ 0)

module _ (D : Type 0) where
  pub read_null-IsFlat : (s : List ℕ) → IsFlat (read_null {S = List ℕ} {D = D} s).output
  unfolding read_null depth
  read_null-IsFlat s = (tt, refl)

  read_word-IsFlat : (s : List ℕ) → IsFlat (read_word {S = List ℕ} {D = D} s).output
  unfolding read_word bool_result depth
  read_word-IsFlat [] = (tt, refl)
  read_word-IsFlat (c ∷ s) = elim (Bool-cases (c == b't')) [
    | inl e ↦ rw e (tt, refl)
    | inr e ↦ rw e (tt, refl)
  ]

  pub read_bool-IsFlat : (s : List ℕ) → IsFlat (read_bool {S = List ℕ} {D = D} s).output
  unfolding read_bool
  read_bool-IsFlat s = read_word-IsFlat (skip_whitespace s)

module _ (beyond : ℕ → ℕ) (f : FloatLibrary) where
  integer-IsFlat :
      (of : ℤ → Value (List ℕ) f.Double) (temp first : List ℕ) (r : ParsingResult (List ℕ) ℤ)
      → IsFlat (of r.output)
      → IsFlat (integer_result beyond f of temp first r).output
  unfolding integer_result read_floating depth
  integer-IsFlat of temp first r h =
      elim (if_whole r.input r.result)
        as (λ k.
          IsFlat
            (elim k as (λ t. ParsingResult (List ℕ) (Value (List ℕ) f.Double)) [
              | success ↦ record { input = first; output = of r.output; result = success }
              | failure ↦ read_floating beyond f {S = List ℕ} temp first f.zero_value
            ]).output) [ success ↦ h | failure ↦ (tt, refl) ]

  as_uint64-IsFlat : (i : ℤ) → IsFlat (as_uint64 beyond f {S = List ℕ} i)
  unfolding as_uint64 depth
  as_uint64-IsFlat (pos n) = (tt, refl)
  as_uint64-IsFlat (negsuc n) = (tt, refl)

  decode-IsFlat :
      (negative : Bool) (j : Value (List ℕ) f.Double) (temp first : List ℕ)
      → IsFlat (decode_number beyond f negative j (temp, first)).output
  unfolding decode_number read_floating depth
  decode-IsFlat negative j temp first = elim (Bool-cases (has_fraction temp)) [
    | inl e ↦ rw e (tt, refl)
    | inr e ↦
        rw e
          (elim negative
            as (λ b.
              IsFlat
                (if b
                  then integer_result beyond f int64 temp first
                      (int_decode beyond Decode.int64 10 temp (int64_ref beyond f j))
                  else integer_result beyond f (as_uint64 beyond f) temp first
                      (int_decode beyond Decode.uint64 10 temp (uint64_ref beyond f j))).output) [
                        | true ↦ integer-IsFlat int64 temp first _ (tt, refl)
                        | false ↦
                            integer-IsFlat (as_uint64 beyond f) temp first _ (as_uint64-IsFlat _)
                      ])
  ]

  pub read_number-IsFlat :
      (s : List ℕ) (j : Value (List ℕ) f.Double)
      → IsFlat j
      → IsFlat (read_number beyond f s j).output
  unfolding read_number
  read_number-IsFlat [] j h = h
  read_number-IsFlat (c ∷ s) j h =
      let p = copy_number (c ∷ []) s in decode-IsFlat (c == b'-') j p.0 p.1
