-- ===== src/Gen/Numbers/Laws.antt =====
-- The range of a block number in src/gen.rs.
use beerus.Prelude.{◌≡◌, ◌↔◌, arith, ok, ℤ, pos, negsuc, ◌≤ℤ◌}
use beerus.Gen.Numbers.{try_block_number, in_range}

-- An `i64` is accepted as a block number exactly if it is not negative.
pub try_block_number_iff :
    (z : ℤ)
    → ◌≤ℤ◌ z (pos 9223372036854775807)
    → (try_block_number z ≡ ok (record { value = z })) ↔ (◌≤ℤ◌ (pos 0) z)
unfolding try_block_number in_range
try_block_number_iff (pos n) h = (λ e. ground arith, λ e. ground arith)
try_block_number_iff (negsuc n) h = (λ e. ground arith, λ e. ground arith)
