-- ===== src/Prelude/Int.antt =====
-- Integers, where the source's numbers can be negative: `negsuc n` is -(n + 1).
use Prim.Native.Nat.{ℕ, suc, ◌+◌, ◌-◌}
use inkstave.Prelude.Tests.{ltb, leb, if◌then◌else◌}

pub data ℤ : Type 0 where
  pos : ℕ → ℤ
  negsuc : ℕ → ℤ

-- `i + d` and `i - d`.
abbrev pub plus : ℤ → ℕ → ℤ
plus (pos n) d = pos (n + d)
plus (negsuc n) d = if ltb n d then pos (d - suc n) else negsuc (n - d)

abbrev pub minus : ℤ → ℕ → ℤ
minus (pos n) d = if leb d n then pos (n - d) else negsuc (d - n - 1)
minus (negsuc n) d = negsuc (n + d)

-- The distance of an integer and an offset.
abbrev pub dist : ℤ → ℕ → ℕ
dist (pos n) c = (n - c) + (c - n)
dist (negsuc n) c = c + suc n
