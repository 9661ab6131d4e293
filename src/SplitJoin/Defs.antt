-- ===== src/SplitJoin/Defs.antt =====
-- The functions of skate/containers/split_join.h. A string is the list of its characters.
use skate.Prelude.{
  ℕ, zero, suc, ◌+◌, ◌==◌, ◌&&◌, if◌then◌else◌, Bool, true, false, Option, none, some,
}
use skate.Prelude.{List, [], ◌∷◌, ◌++◌, length, take, drop}

-- The loop of `join_copy`, over what is left of the list.
unfoldable pub join_loop : List ℕ → Bool → List (List ℕ) → List ℕ → List ℕ
join_loop sep add_separator [] out = out
join_loop sep add_separator (s ∷ list) out =
    join_loop sep true list ((if add_separator then out ++ sep else out) ++ s)

unfoldable pub join_copy : List (List ℕ) → List ℕ → List ℕ → List ℕ
join_copy list sep out = join_loop sep false list out

-- The loops of `tjoin` and of `join_append`, with a formatter for the elements.
unfoldable pub tjoin_loop {ℓ} :
    {A : Type ℓ} → List ℕ → (A → List ℕ) → Bool → List A → List ℕ → List ℕ
tjoin_loop sep formatter add_sep [] append_to = append_to
tjoin_loop sep formatter add_sep (element ∷ range) append_to =
    tjoin_loop sep formatter true range
      ((if add_sep then append_to ++ sep else append_to) ++ formatter element)

unfoldable pub tjoin {ℓ} : {A : Type ℓ} → List A → List ℕ → (A → List ℕ) → List ℕ
tjoin range sep formatter = tjoin_loop sep formatter false range []

-- `join`, with the formatter `impl::identity`.
unfoldable pub join : List (List ℕ) → List ℕ → List ℕ
join range sep = tjoin range sep (λ s. s)

-- Whether a text begins with another.
abbrev pub is_prefix : List ℕ → List ℕ → Bool
is_prefix [] s = true
is_prefix (c ∷ sep) [] = false
is_prefix (c ∷ sep) (x ∷ s) = (x == c) && is_prefix sep s

-- `std::basic_string::find`: where the first `sep` from `start` on is; `none` is `npos`.
abbrev pub find_in : List ℕ → List ℕ → Option ℕ
find_in [] sep = if is_prefix sep [] then some 0 else none
find_in (x ∷ s) sep =
    let later : Option ℕ = elim (find_in s sep) [ none ↦ none | some k ↦ some (suc k) ] in
    if is_prefix sep (x ∷ s) then some 0 else later

abbrev pub substr : List ℕ → ℕ → ℕ → List ℕ
substr string start count = take count (drop start string)

-- Each character alone.
abbrev pub characters : List ℕ → List (List ℕ)
characters [] = []
characters (x ∷ s) = (x ∷ []) ∷ characters s

-- The `do` loop of `tsplit_append`, from `start` on, where `find` has its answer relative to it.
-- `none` means that the fuel ran out.
unfoldable pub split_loop : List ℕ → List ℕ → Bool → ℕ → ℕ → List (List ℕ) → Option (List (List ℕ))
split_loop string sep remove_empty zero start append_to = none
split_loop string sep remove_empty (suc fuel) start append_to =
    elim (find_in (drop start string) sep) [
      | none ↦ some (append_to ++ (drop start string ∷ []))
      | some k ↦
          split_loop string sep remove_empty fuel (start + k + length sep) (
            if remove_empty && k == 0 then append_to else append_to ++ (substr string start k ∷ []))
    ]

-- Each round goes on behind a separator, so the length is fuel enough.
unfoldable pub tsplit_append : List (List ℕ) → List ℕ → List ℕ → Bool → Option (List (List ℕ))
tsplit_append append_to string [] remove_empty = some (append_to ++ characters string)
tsplit_append append_to string (c ∷ sep) remove_empty =
    split_loop string (c ∷ sep) remove_empty (suc (length string)) 0 append_to

unfoldable pub split : List ℕ → List ℕ → Bool → Option (List (List ℕ))
split string sep remove_empty = tsplit_append [] string sep remove_empty
