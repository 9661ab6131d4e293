-- ===== src/IoBuffer/Vector.antt =====
-- What skate/io/buffer.h relies on of `std::vector`: how large one may become, and the capacity that
-- it takes when it has to grow.
use skate.Prelude.{ℕ, ◌^◌, ◌<◌}

pub record StdVector : Type 0 where
  pub max_elements : ℕ
  pub grow : ℕ → ℕ → ℕ
  -- The standard bounds `max_size` by the largest difference of two iterators.
  pub max_elements_lt : max_elements < 2 ^ 63
