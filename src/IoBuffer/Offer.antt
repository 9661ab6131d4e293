-- ===== src/IoBuffer/Offer.antt =====
-- What `read` of `io_buffer` with a predicate offers the predicate.
use skate.Prelude.{
  ℕ, ◌+◌, ◌-◌, ◌≤◌, ◌<◌, ◌≡◌, refl, sym, ap, min, ◌==◌, leb, if◌then◌else◌, arith, ◌∙◌,
}
use skate.Prelude.{
  List, [], ◌++◌, length, take, drop, length-take, length-drop, take-append, drop-append,
}
use skate.Prelude.{Bool-cases, inl, inr}
use skate.IoBuffer.Vector.{StdVector}
use skate.IoBuffer.Defs.{IoBuffer}
use skate.IoBuffer.Read.{consume, read_some}
use skate.IoBuffer.Contents.{contents, IsValid, length-contents}
use skate.IoBuffer.Take.{one_piece, two_pieces, take_all, drop_all, read_some_lem}

module _ {A S : Type 0} (p : S → List A → S × ℕ) where
  -- The predicate is offered one list, and the other one, if there is any, when it has consumed all of
  -- the first. It never consumes more than it is offered.
  abbrev pub offer : S → List A → List A → S × ℕ
  offer s front back =
      let r = p s front in
      let r' = p r.0 back in
      if length back == 0
      then (r.0, min (length front) r.1)
      else if leb (length front) r.1
      then (r'.0, length front + min (length back) r'.1)
      else (r.0, r.1)

  offer-two :
      (s : S) (xs ys : List A) (c m : ℕ)
      → length xs ≡ c
      → length ys ≡ m - c
      → c < m
      → (if min c (p s xs).1 == c
          then ((p (p s xs).0 ys).0, c + min (m - c) (p (p s xs).0 ys).1)
          else ((p s xs).0, min c (p s xs).1))
        ≡ offer s xs ys
  offer-two s xs ys c m e f h = ground arith

module _ {A : Type 0} (v : StdVector) where
  consume-offer :
      {S : Type 0} (p : S → List A → S × ℕ) (b : IoBuffer A) (m : ℕ) (s : S)
      → IsValid v b
      → m ≤ b.buffer_size
      → let c = length b.items - b.buffer_first_element in
        let q = take m (contents b) in consume p b m s ≡ offer p s (take c q) (drop c q)
  unfolding consume
  consume-offer p b m s h k =
      let c = length b.items - b.buffer_first_element in
      let q = take m (contents b) in
      let lq : length q ≡ m =
        ground (arith, h.size_in, h.first_in, length-take m (contents b), length-contents b) in
      elim (Bool-cases (leb m c)) [
        | inl e ↦
            let l : m ≤ c = ground arith in
            let w : take m (drop b.buffer_first_element b.items) ≡ q = one_piece v b m h k l in
            let tq : take c q ≡ q = take_all v q c (omega (arith, lq)) in
            let dq : drop c q ≡ [] = drop_all v q c (omega (arith, lq)) in
            rw (e, w, tq, dq, lq) refl
        | inr e ↦
            let l : c < m = ground arith in
            let xs = take c (drop b.buffer_first_element b.items) in
            let ys = take (m - c) b.items in
            let lx : length xs ≡ c = ground (
              arith,
              length-take c (drop b.buffer_first_element b.items),
              length-drop b.buffer_first_element b.items,
            ) in
            let ly : length ys ≡ m - c = ground (arith, h.size_in, length-take (m - c) b.items) in
            let w : xs ++ ys ≡ q = two_pieces v b m h k l in
            let tx : take c q ≡ xs = ap (take c) (sym w) ∙ take-append c xs ys (sym lx) in
            let dy : drop c q ≡ ys = ap (drop c) (sym w) ∙ drop-append c xs ys (sym lx) in
            rw (e, tx, dy) (offer-two p s xs ys c m lx ly l)
      ]

  -- `read` with a predicate offers it the first elements of the queue, no more than the limit: those
  -- up to the end of the storage, and then the others when it has consumed these. It returns the number
  -- of elements consumed, at most the limit. What is left of the queue is what lies behind them, cut to
  -- the length that it would have if all of the first elements had been consumed.
  pub read_some-offer :
      {S : Type 0} (p : S → List A → S × ℕ) (limit : ℕ) (b : IoBuffer A) (s : S)
      → IsValid v b
      → let m = min limit b.buffer_size in
        let c = length b.items - b.buffer_first_element in
        let q = take m (contents b) in
        let (n, s', b') = read_some v p limit b s in
        ((s', n) ≡ (if m == 0 then (s, 0) else offer p s (take c q) (drop c q)))
        × (n ≤ m)
        × (contents b' ≡ take (b.buffer_size - m) (drop n (contents b)))
        × IsValid v b'
        × (b'.buffer_limit ≡ b.buffer_limit)
        × (b'.closed ≡ b.closed)
  unfolding read_some
  read_some-offer p limit b s h =
      let m = min limit b.buffer_size in
      let e = consume-offer p b m s h (omega arith) in
      let offered : ((read_some v p limit b s).1, (read_some v p limit b s).0) ≡ (
          if m == 0
          then (s, 0)
          else offer p s (take (length b.items - b.buffer_first_element) (take m (contents b)))
              (drop (length b.items - b.buffer_first_element) (take m (contents b)))) =
        elim (Bool-cases (m == 0)) [ inl z ↦ rw z refl | inr z ↦ rw z e ] in
      let (n, q, k, l, d) = read_some_lem v p limit b s h in (offered, n, q, k, l, d)
