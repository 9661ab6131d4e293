-- ===== src/Json/Value.antt =====
-- `basic_json_value`, its arrays and objects, and the options of skate/io/adapters/json.h.
use skate.Prelude.{
  ℕ, ◌+◌, ◌==◌, ltb, leb, if◌then◌else◌, Bool, true, false, List, [], ◌∷◌, ◌++◌, replicate,
}
use skate.Prelude.Bits.{u32}
use skate.Number.Decode.{ℤ}

-- A value, with the type `S` of its strings and the type `D` of its floating point numbers.
mutual
  pub data Value (S D : Type 0) : Type 0 where
    null : Value S D
    boolean : Bool → Value S D
    floating : D → Value S D
    int64 : ℤ → Value S D
    uint64 : ℕ → Value S D
    string : S → Value S D
    array : Values S D → Value S D
    object : Members S D → Value S D

  -- The vector of `basic_json_array`.
  pub data Values (S D : Type 0) : Type 0 where
    no_values : Values S D
    element : Value S D → Values S D → Values S D

  -- The map of `basic_json_object`, in the order of its keys.
  pub data Members (S D : Type 0) : Type 0 where
    no_members : Members S D
    member : S → Value S D → Members S D → Members S D

-- The order of strings, by their characters.
abbrev pub lt_string : List ℕ → List ℕ → Bool
lt_string s [] = false
lt_string [] (c ∷ t) = true
lt_string (x ∷ s) (c ∷ t) =
    let rest = lt_string s t in if ltb x c then true else if ltb c x then false else rest

module _ {D : Type 0} where
  -- `push_back`.
  unfoldable pub push_value : Values (List ℕ) D → Value (List ℕ) D → Values (List ℕ) D
  push_value no_values v = element v no_values
  push_value (element x xs) v = element x (push_value xs v)

  -- `insert`, which leaves the value of a key that is there already.
  unfoldable pub insert_member : Members (List ℕ) D → List ℕ → Value (List ℕ) D → Members (List ℕ) D
  insert_member no_members key value = member key value no_members
  insert_member (member k v m) key value =
      let rest = insert_member m key value in
      if lt_string k key
      then member k v rest
      else if lt_string key k
      then member key value (member k v m)
      else member k v m

pub record ReadOptions : Type 0 where
  pub max_nesting : ℕ
  pub current_nesting : ℕ

unfoldable pub nested : ReadOptions → ReadOptions
nested o = record o { current_nesting = u32 (o.current_nesting + 1) }

unfoldable pub nesting_limit_reached : ReadOptions → Bool
nesting_limit_reached o = leb o.max_nesting o.current_nesting

pub record WriteOptions : Type 0 where
  pub current_indentation : ℕ
  pub indent : ℕ

unfoldable pub indented : WriteOptions → WriteOptions
indented o = record o { current_indentation = u32 (o.current_indentation + o.indent) }

unfoldable pub write_indent : WriteOptions → List ℕ → List ℕ
write_indent o out =
    (if o.indent == 0 then out else out ++ (10 ∷ [])) ++ replicate o.current_indentation b' '
