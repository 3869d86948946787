-- ===== src/Prelude/Int64.antt =====
-- Go's `int64` arithmetic, with its wrap-around, on integers in the range of `InInt64`.
use Prim.Native.Nat.{ℕ, ◌-◌, ◌%◌, ◌^◌}
use ninj_os_proxie_edge_fabr.Prelude.Tests.{ltb, if◌then◌else◌}
use ninj_os_proxie_edge_fabr.Prelude.Int.{ℤ, pos, negsuc, ◌-ℤ◌}

-- The integer that a 64-bit pattern stands for.
unfoldable pub to_signed : ℕ → ℤ
to_signed v = if ltb v (2 ^ 63) then pos v else negsuc (2 ^ 64 - 1 - v)

unfoldable pub wrap64 : ℤ → ℤ
unfolding to_signed
wrap64 (pos n) = to_signed (n % 2 ^ 64)
wrap64 (negsuc n) = to_signed (2 ^ 64 - 1 - n % 2 ^ 64)

unfoldable pub sub64 : ℤ → ℤ → ℤ
unfolding wrap64 ◌-ℤ◌
sub64 a b = wrap64 (a -ℤ b)
