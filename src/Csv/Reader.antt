-- ===== src/Csv/Reader.antt =====
-- A reader of one row by RFC 4180, which the source does not have: what the rows that `write_csv` of
-- skate/io/adapters/csv.h writes mean.
use skate.Prelude.{ℕ, ◌==◌, if◌then◌else◌, Option, none, some, List, [], ◌∷◌, ◌++◌}
use skate.Utf.Unicode.{Unicode}

-- At the start of a field, in a field without quotes, in quotes, behind a quotation mark in quotes,
-- and behind a carriage return.
pub data Mode : Type 0 where
  start plain inside closing line_end : Mode

-- What a character does: the reader goes on with a field and the fields before it, or it ends.
pub data Move : Type 0 where
  go : Mode → List Unicode → List (List Unicode) → Move
  finish : List (List Unicode) → Move
  refuse : Move

-- The end of a field.
abbrev pub end_field : List Unicode → List (List Unicode) → ℕ → Move → Move
end_field field row c other =
    if c == b','
    then go start [] (row ++ (field ∷ []))
    else if c == 10
    then finish (row ++ (field ∷ []))
    else if c == 13
    then go line_end [] (row ++ (field ∷ []))
    else other

unfoldable pub move : Mode → List Unicode → List (List Unicode) → Unicode → Move
move start field row u =
    if u.cp == 0x22
    then go inside [] row
    else end_field field row u.cp (go plain (field ++ (u ∷ [])) row)
move plain field row u = end_field field row u.cp (go plain (field ++ (u ∷ [])) row)
move inside field row u =
    if u.cp == 0x22 then go closing field row else go inside (field ++ (u ∷ [])) row
move closing field row u =
    if u.cp == 0x22 then go inside (field ++ (u ∷ [])) row else end_field field row u.cp refuse
move line_end field row u = if u.cp == 10 then finish row else refuse

-- The fields of a row, and what follows its line ending.
unfoldable pub scan :
    Mode
    → List Unicode
    → List (List Unicode)
    → List Unicode
    → Option (List (List Unicode) × List Unicode)
scan mode field row [] = none
scan mode field row (u ∷ us) = elim (move mode field row u) [
  | go mode' field' row' ↦ scan mode' field' row' us
  | finish row' ↦ some (row', us)
  | refuse ↦ none
]

abbrev pub read_row : List Unicode → Option (List (List Unicode) × List Unicode)
read_row us = scan start [] [] us
