-- ===== src/IoBuffer/Tests.antt =====
-- The theorems on `io_buffer` at a small buffer that wraps round.
use skate.Prelude.{ℕ, ◌+◌, ◌≤◌, ◌≡◌, refl, arith, true, false, ltb, inl, inr, if◌then◌else◌}
use skate.Prelude.{List, [], ◌∷◌, ◌++◌, take, drop, some}
use skate.IoBuffer.Vector.{StdVector}
use skate.IoBuffer.Defs.{IoBuffer, free_space}
use skate.IoBuffer.Defs
use skate.IoBuffer.Read.{read_some}
use skate.IoBuffer.Read
use skate.IoBuffer.Contents.{contents, IsValid}
use skate.IoBuffer.Write.{write_lem, write_from_lem}
use skate.IoBuffer.Offer.{offer, read_some-offer}
use skate.IoBuffer.Queue.{Op, step, run, queue_step, queue_run, write, write_from, read}
use skate.IoBuffer.Queue.{read_all_into, moved, close, done, accepted, element}
use skate.IoBuffer.Refine.{queue_of, run_refines}

-- A vector of at most a hundred elements that doubles, and takes what it needs beyond that.
abbrev vector : StdVector
vector = record {
  max_elements = 100;
  grow = λ old n. if ltb (old + old) n then n else old + old;
  max_elements_lt = omega arith;
}

-- Two elements at the end of four slots, and one at their beginning; at most five.
abbrev wrapped : IoBuffer ℕ
wrapped = record {
  items = 30 ∷ 0 ∷ 10 ∷ 20 ∷ [];
  reserved = 4;
  buffer_limit = 5;
  buffer_first_element = 2;
  buffer_size = 3;
  closed = false;
}

wrapped-contents : contents wrapped ≡ 10 ∷ 20 ∷ 30 ∷ []
wrapped-contents = refl

wrapped-IsValid : IsValid vector wrapped
wrapped-IsValid = record {
  size_in = omega arith;
  first_in = inr (omega arith);
  bounded = omega arith;
  limited = omega arith;
}

write_lem_example :
    let (b', ok) = Defs.write vector wrapped 40 in
    (ok ≡ true)
    × (contents b' ≡ (if ok then 10 ∷ 20 ∷ 30 ∷ 40 ∷ [] else (10 ∷ 20 ∷ 30 ∷ [])))
    × IsValid vector b'
    × (b'.buffer_limit ≡ 5)
    × (b'.closed ≡ false)
unfolding free_space
write_lem_example = write_lem vector wrapped 40 wrapped-IsValid

write_from_lem_example :
    let (b', ok) = Defs.write_from vector wrapped (40 ∷ 50 ∷ 60 ∷ []) in
    (ok ≡ false)
    × (contents b' ≡ (if ok then 30 ∷ 10 ∷ 20 ∷ 40 ∷ 50 ∷ 60 ∷ [] else (10 ∷ 20 ∷ 30 ∷ [])))
    × IsValid vector b'
    × (b'.buffer_limit ≡ 5)
    × (b'.closed ≡ false)
unfolding free_space
write_from_lem_example = write_from_lem vector wrapped (40 ∷ 50 ∷ 60 ∷ []) wrapped-IsValid

-- A predicate that consumes one element of each piece that it is offered.
abbrev consume_one : List ℕ → List ℕ → List ℕ × ℕ
consume_one seen [] = (seen, 0)
consume_one seen (x ∷ xs) = (seen ++ (x ∷ []), 1)

-- One of three elements is consumed, and the other two are lost.
read_some-offer_example :
    let (n, s', b') = read_some vector consume_one 3 wrapped [] in
    ((s', n) ≡ offer consume_one [] (10 ∷ 20 ∷ []) (30 ∷ []))
    × (n ≤ 3)
    × (contents b' ≡ take 0 (drop n (10 ∷ 20 ∷ 30 ∷ [])))
    × IsValid vector b'
    × (b'.buffer_limit ≡ 5)
    × (b'.closed ≡ false)
read_some-offer_example = read_some-offer vector consume_one 3 wrapped [] wrapped-IsValid

abbrev calls : List (Op ℕ)
calls = write 40 ∷ read ∷ write_from (50 ∷ []) ∷ read ∷ close ∷ write 70 ∷ []

calls_replies :
    queue_run vector (queue_of vector wrapped) calls
    ≡ accepted true
      ∷ element (some 10)
      ∷ accepted true
      ∷ element (some 20)
      ∷ done
      ∷ accepted false
      ∷ []
unfolding queue_run queue_step
calls_replies = refl

run_refines_example : run vector 0 wrapped calls ≡ queue_run vector (queue_of vector wrapped) calls
unfolding step Defs.write Defs.write_from Defs.store Defs.store_all Read.read Read.advance
    Read.close free_space
run_refines_example = run_refines vector 0 wrapped calls wrapped-IsValid (
  tt,
  inr (inr (omega arith)),
  (tt, tt, (tt, inr (inr (omega arith)), (tt, tt, (tt, tt, (tt, inl refl, tt))))),
)

-- Three writes, the last of which grows the storage while the queue wraps round.
abbrev growing : List (Op ℕ)
growing = write 1 ∷ write 2 ∷ read ∷ write 3 ∷ write 4 ∷ read_all_into ∷ []

-- The element written last but one comes out before an older one.
grown_out_of_order :
    run vector 0 (Defs.create vector 0) growing
    ≡ accepted true
      ∷ accepted true
      ∷ element (some 1)
      ∷ accepted true
      ∷ accepted true
      ∷ moved 3 (3 ∷ 2 ∷ 4 ∷ [])
      ∷ []
unfolding run step Defs.create Defs.write Defs.append_aligned Defs.align Defs.aligned_items
    Defs.store Read.read Read.read_all_into free_space Read.advance Read.read_into read_some
    Read.consume
grown_out_of_order = refl
