-- ===== src/ThreadBuffer/Limit.antt =====
-- `set_max_size` of `io_threadsafe_buffer` of skate/io/buffer.h notifies nobody.
use skate.Prelude.{ℕ, ◌≤◌, ◌<◌, ◌≡◌, refl, arith}
use skate.Prelude.{true, false}
use skate.Prelude.{some}
use skate.IoBuffer.Vector.{StdVector}
use skate.IoBuffer.Defs.{IoBuffer, create, free_space, max_size}
use skate.IoBuffer.Defs
use skate.IoBuffer.Write.{write_lem}
use skate.IoBuffer.Contents.{IsValid}
use skate.IoBuffer.Queue.{accepted}
use skate.IoBuffer.Read
use skate.ThreadBuffer.Defs.{write_one}
use skate.ThreadBuffer.Defs.{turn, write_one_turn}
use skate.ThreadBuffer.Defs.{set_max_size_shared}
use skate.ThreadBuffer.System.{System, change}

module _ {A : Type 0} (v : StdVector) (d : A) where
  -- `set_max_size` leaves a producer waiting which it gives the space for its element: the producers
  -- that wait stay as they are, and the turn that none of them gets would succeed.
  pub set_max_size_lost :
      (t : System A) (x : A) (n : ℕ)
      → IsValid v t.shared.buffer
      → t.shared.buffer.closed ≡ false
      → t.shared.buffer.buffer_size < n
      → n ≤ v.max_elements
      → let t' = change t (set_max_size_shared v t.shared n) in
        (t'.producers ≡ t.producers)
        × (t'.ready ≡ t.ready)
        × ((turn v d t'.shared (write_one x true)).reply ≡ some (accepted true))
  unfolding set_max_size_shared Read.set_max_size turn write_one_turn free_space max_size
  set_max_size_lost t x n h o l m =
      let b = record t.shared.buffer { buffer_limit = n } in
      let w : IsValid v b = record {
        size_in = h.size_in;
        first_in = h.first_in;
        bounded = h.bounded;
        limited = m;
      } in
      let ok : (Defs.write v b x).1 ≡ true = ground (arith, (write_lem v b x w).0, o, l) in
      (refl, refl, rw ok refl)
