-- ===== src/ThreadBuffer/Tests.antt =====
-- Threads that share a small buffer.
use skate.Prelude.{ℕ, ◌+◌, ◌<◌, ◌≡◌, refl, arith, true, false, ltb, inl}
use skate.Prelude.{[], ◌∷◌, ◌++◌, some, All, if◌then◌else◌}
use skate.IoBuffer.Vector.{StdVector}
use skate.IoBuffer.Defs.{create, max_size, free_space, capacity, append_aligned, align}
use skate.IoBuffer.Defs
use skate.IoBuffer.Queue.{accepted, step}
use skate.IoBuffer.Contents.{IsValid}
use skate.ThreadBuffer.Defs.{write_one, read_one, turn, write_one_turn, read_turn, create_shared}
use skate.ThreadBuffer.Defs.{set_max_size_shared, consumers_available, producers_available}
use skate.ThreadBuffer.System.{System, begin_call, run_turn, take_turn, start_system, change}
use skate.ThreadBuffer.System.{Reach, start, later}
use skate.ThreadBuffer.Turns.{must_wait, is_none}
use skate.ThreadBuffer.Pipe.{Pipe, Guard, left_end, right_end, clear_guard, close_write, pipe_turn}
use skate.ThreadBuffer.Pipe.{pipe_at_end, sink, source}
use skate.ThreadBuffer.Guard.{clear_guard_lem, close_write_returns}
use skate.ThreadBuffer.Defs.{nobody, all_producers}
use skate.ThreadBuffer.Producers.{Reach-Sleeps}
use skate.ThreadBuffer.Limit.{set_max_size_lost}
use skate.ThreadBuffer.Hungry.{Served, Attended}
use skate.ThreadBuffer.Hungry
use skate.ThreadBuffer.Consumers.{Served-Attended}

abbrev vector : StdVector
vector = record {
  max_elements = 100;
  grow = λ old n. if ltb (old + old) n then n else old + old;
  max_elements_lt = omega arith;
}

-- Two producers write to a buffer of one element; the second waits.
abbrev first_call : System ℕ
first_call = record (start_system vector 0 1) { ready = write_one 7 true ∷ [] }

abbrev first_done : System ℕ
first_done = take_turn vector 0 first_call 0 (write_one 7 true) 0

abbrev second_call : System ℕ
second_call = record first_done { ready = write_one 8 true ∷ first_done.ready }

abbrev second_waits : System ℕ
second_waits = take_turn vector 0 second_call 0 (write_one 8 true) 0

second_waits-Reach : Reach vector 0 1 second_waits
unfolding turn write_one_turn create_shared create Defs.write max_size free_space append_aligned
    align consumers_available
second_waits-Reach =
    let s1 : Reach vector 0 1 first_call = later start (begin_call (write_one 7 true)) refl in
    let s2 : Reach vector 0 1 first_done =
      later s1 (run_turn 0 (write_one 7 true) 0 refl (inl refl)) refl in
    let s3 : Reach vector 0 1 second_call = later s2 (begin_call (write_one 8 true)) refl in
    later s3 (run_turn 0 (write_one 8 true) 0 refl (inl refl)) refl

second_waits-IsValid : IsValid vector second_waits.shared.buffer
unfolding turn write_one_turn create_shared create Defs.write max_size free_space append_aligned
    align consumers_available
second_waits-IsValid = record {
  size_in = omega arith;
  first_in = inl refl;
  bounded = omega arith;
  limited = omega arith;
}

second_open : second_waits.shared.buffer.closed ≡ false
unfolding turn write_one_turn create_shared create Defs.write max_size free_space append_aligned
    align consumers_available
second_open = refl

second_size : second_waits.shared.buffer.buffer_size < 2
unfolding turn write_one_turn create_shared create Defs.write max_size free_space append_aligned
    align consumers_available
second_size = omega arith

Reach-Sleeps_example :
    All (λ c. must_wait vector second_waits.shared c ≡ true) second_waits.producers
Reach-Sleeps_example = Reach-Sleeps vector 0 1 second_waits (omega arith) second_waits-Reach

-- A consumer waits on an empty buffer.
abbrev consumer_call : System ℕ
consumer_call = record (start_system vector 0 1) { ready = read_one true ∷ [] }

abbrev consumer_waits : System ℕ
consumer_waits = take_turn vector 0 consumer_call 0 (read_one true) 0

consumer_waits-Served : Served vector 0 consumer_waits
unfolding turn read_turn create_shared create producers_available step
consumer_waits-Served =
    let s1 : Served vector 0 consumer_call =
      Hungry.later (Hungry.start 1 (omega arith)) (begin_call (read_one true)) (refl, tt)
        (omega arith) in
    Hungry.later s1 (run_turn 0 (read_one true) 0 refl (inl refl)) tt (omega arith)

Served-Attended_example : Attended vector 0 consumer_waits
Served-Attended_example = Served-Attended vector 0 consumer_waits consumer_waits-Served

set_max_size_lost_example :
    let t' = change second_waits (set_max_size_shared vector second_waits.shared 2) in
    (t'.producers ≡ second_waits.producers)
    × (t'.ready ≡ second_waits.ready)
    × ((turn vector 0 t'.shared (write_one 8 true)).reply ≡ some (accepted true))
set_max_size_lost_example =
    set_max_size_lost vector 0 second_waits 8 2 second_waits-IsValid second_open second_size
      (omega arith)

-- A pipe whose left end alone has a guard.
abbrev guarded : Pipe ℕ
guarded = record {
  left_buffer = record (create_shared vector 4) { producer_count = 1; producer_registered = true };
  right_buffer = record (create_shared vector 4) { consumer_count = 1; consumer_registered = true };
}

abbrev both_open : Guard
both_open = record { consumer = true; producer = true }

clear_guard_lem_example :
    let c = clear_guard guarded left_end both_open in
    (c.just_closed ≡ true)
    × (c.guard.consumer ≡ false)
    × (c.guard.producer ≡ true)
    × (source c.pipe left_end ≡ record guarded.right_buffer { consumer_count = 0 })
    × (sink c.pipe left_end ≡ guarded.left_buffer)
    × (c.source_notice ≡ all_producers)
    × (c.sink_notice ≡ nobody)
clear_guard_lem_example = clear_guard_lem guarded left_end both_open

close_write_returns_example :
    let q = close_write guarded left_end both_open in
    let t' = change consumer_waits (sink q.pipe left_end, q.sink_notice) in
    (t'.consumers ≡ [])
    × (t'.ready ≡ consumer_waits.consumers ++ consumer_waits.ready)
    × (is_none (pipe_turn vector 0 q.pipe right_end (read_one true)).1.reply ≡ false)
    × (pipe_at_end q.pipe right_end ≡ true)
unfolding create_shared create
close_write_returns_example =
    close_write_returns vector 0 guarded left_end both_open (read_one true) consumer_waits refl refl
      refl refl
