-- ===== src/SplitJoin/Tests.antt =====
-- `split` and `join` on concrete strings.
use skate.Prelude.{ℕ, ◌≡◌, List, some, codes, false}
use skate.SplitJoin.Defs.{split, join}
use skate.SplitJoin.RoundTrip.{join-split}

join-split_example :
    (list : List (List ℕ)) × (split (codes "a, b, , c") (codes ", ") false ≡ some list)
    × (join list (codes ", ") ≡ codes "a, b, , c")
join-split_example = join-split (codes "a, b, , c") (codes ", ")
