-- ===== src/ThreadBuffer/Defs.antt =====
-- The state of `io_threadsafe_buffer` of skate/io/buffer.h, and what its member functions do while
-- they hold the mutex: a turn begins when a thread gets the mutex, at a call or after a wait, and ends
-- when it returns or waits.
use skate.Prelude.{ℕ, ◌+◌, ◌-◌, ◌==◌, ltb, not, ◌&&◌, ◌||◌, if◌then◌else◌, Bool, true, false}
use skate.Prelude.{List, Option, none, some, length}
use skate.IoBuffer.Vector.{StdVector}
use skate.IoBuffer.Defs.{IoBuffer, create, max_size, free_space, capacity}
use skate.IoBuffer.Defs
use skate.IoBuffer.Read
use skate.IoBuffer.Queue.{Op, Reply, accepted, step}

pub record Shared (A : Type 0) : Type 0 where
  pub buffer : IoBuffer A
  pub consumer_count : ℕ
  pub producer_count : ℕ
  pub consumer_registered : Bool
  pub producer_registered : Bool

-- The calls that may wait. A sequence is written by `write_from` or by `write` with two iterators. The
-- forms of `read` that copy are `read_into` and `read_all_into`.
pub data Call (A : Type 0) : Type 0 where
  write_one : A → Bool → Call A
  write_many : List A → Bool → Call A
  read_one : Bool → Call A
  read_some : ℕ → Bool → Call A
  read_all : Bool → Call A
  read_swap : ℕ → Bool → Call A

-- Whom a call notifies.
pub data Notice : Type 0 where
  nobody : Notice
  one_consumer : Notice
  all_consumers : Notice
  all_producers : Notice

-- What a turn ends with. Without a reply the thread waits.
pub record Turn (A : Type 0) : Type 0 where
  pub shared : Shared A
  pub reply : Option (Reply A)
  pub notice : Notice

module _ {A : Type 0} where
  unfoldable pub consumers_available : Shared A → Bool
  consumers_available s = not (s.consumer_count == 0) || not s.consumer_registered

  unfoldable pub producers_available : Shared A → Bool
  producers_available s = not (s.producer_count == 0) || not s.producer_registered

  unfoldable pub register_consumer : Shared A → Shared A
  register_consumer s = record s {
    consumer_registered = true;
    consumer_count = s.consumer_count + 1;
  }

  unfoldable pub register_producer : Shared A → Shared A
  register_producer s = record s {
    producer_registered = true;
    producer_count = s.producer_count + 1;
  }

  -- `unregister_consumer` tells the producers when the last consumer has hung up.
  unfoldable pub unregister_consumer : Shared A → Shared A × Notice
  unregister_consumer s = if s.consumer_count == 0 then (s, nobody) else (
    record s { consumer_count = s.consumer_count - 1 },
    if s.consumer_count - 1 == 0 then all_producers else nobody,
  )

  unfoldable pub unregister_producer : Shared A → Shared A × Notice
  unregister_producer s = if s.producer_count == 0 then (s, nobody) else (
    record s { producer_count = s.producer_count - 1 },
    if s.producer_count - 1 == 0 then all_consumers else nobody,
  )

  unfoldable pub at_end : Shared A → Bool
  unfolding producers_available
  at_end s = s.buffer.buffer_size == 0 && not (producers_available s)

module _ {A : Type 0} (v : StdVector) where
  unfoldable pub create_shared : ℕ → Shared A
  create_shared limit = record {
    buffer = create v limit;
    consumer_count = 0;
    producer_count = 0;
    consumer_registered = false;
    producer_registered = false;
  }

  -- The loop of `write(U &&, bool)`, once round.
  unfoldable pub write_one_turn : Shared A → A → Bool → Turn A
  unfolding consumers_available
  write_one_turn s x wait =
      let (b, success) = Defs.write v s.buffer x in
      let s' = record s { buffer = b } in
      if success || not wait
      then record { shared = s'; reply = some (accepted success); notice = one_consumer }
      else if not (consumers_available s')
      then record { shared = s'; reply = some (accepted false); notice = nobody }
      else record { shared = s'; reply = none; notice = nobody }

  -- The loops of `write_from` and `write(It, It, bool)`, once round.
  unfoldable pub write_many_turn : Shared A → List A → Bool → Turn A
  unfolding consumers_available
  write_many_turn s xs wait =
      let (b, success) = Defs.write_from v s.buffer xs in
      let s' = record s { buffer = b } in
      if success || not wait
      then record { shared = s'; reply = some (accepted success); notice = all_consumers }
      else if not (consumers_available s') || ltb (max_size v b) (length xs)
      then record { shared = s'; reply = some (accepted false); notice = nobody }
      else record { shared = s'; reply = none; notice = nobody }

  -- The functions that read wait by the same loop, and then call that of the class `io_buffer`.
  unfoldable pub read_turn : A → Shared A → Op A → Bool → Turn A
  unfolding producers_available
  read_turn d s op wait =
      let (r, b) = step v d s.buffer op in
      if wait && s.buffer.buffer_size == 0 && producers_available s
      then record { shared = s; reply = none; notice = nobody }
      else record { shared = record s { buffer = b }; reply = some r; notice = all_producers }

  unfoldable pub turn : A → Shared A → Call A → Turn A
  unfolding write_one_turn write_many_turn read_turn
  turn d s (write_one x wait) = write_one_turn s x wait
  turn d s (write_many xs wait) = write_many_turn s xs wait
  turn d s (read_one wait) = read_turn d s Op.read wait
  turn d s (read_some n wait) = read_turn d s (Op.read_into n) wait
  turn d s (read_all wait) = read_turn d s Op.read_all_into wait
  turn d s (read_swap c wait) = read_turn d s (Op.read_all_swap c) wait

  unfoldable pub clear_shared : Shared A → Shared A × Notice
  clear_shared s = (record s { buffer = Read.clear v s.buffer }, all_producers)

  -- `set_max_size` tells nobody.
  unfoldable pub set_max_size_shared : Shared A → ℕ → Shared A × Notice
  set_max_size_shared s max = (record s { buffer = Read.set_max_size v s.buffer max }, nobody)
