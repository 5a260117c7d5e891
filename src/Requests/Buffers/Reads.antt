-- ===== src/Requests/Buffers/Reads.antt =====
-- The calls of `simple_read` give the bytes of the buffer, each once and in order.
use extreme_s.Prelude.{ℕ, ◌+◌, List, [], ◌∷◌}

abbrev pub sum : List ℕ → ℕ
sum [] = 0
sum (n ∷ ns) = n + sum ns
