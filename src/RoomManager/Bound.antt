-- ===== src/RoomManager/Bound.antt =====
-- The range of `shardFor` of internal/service/chat/room_manager.go.
use Prim.Native.Nat.{min, digits, bit_and, bit_and-bitwise, bit_xor}
use todo_chat_app.Prelude.{ℕ, zero, suc, ◌/◌, ◌%◌, ◌^◌, ◌≤◌, ◌<◌, arith}
use todo_chat_app.Model.{Uuid}
use todo_chat_app.RoomManager.{shard_for, shard_count, shard_mask}

-- A mask on the right bounds what `bit_and` gives, digit by digit.
abbrev common : ℕ → ℕ → ℕ → ℕ
common n a b = digits (λ b. zero) min n a b

common_bound : (n a b : ℕ) → common n a b ≤ b
common_bound zero a b = omega arith
common_bound (suc n) zero b = omega arith
common_bound (suc n) (suc a) b = omega (arith, common_bound n (suc a / 2) (b / 2))

bit_and_bound : (a b : ℕ) → bit_and a b ≤ b
bit_and_bound a b = omega (arith, bit_and-bitwise a b, common_bound a a b)

-- `shardFor` gives the index of a shard for every channel.
pub shard_for_bound : (channel : Uuid) → shard_for channel < shard_count
unfolding shard_for
shard_for_bound channel =
    omega (arith, bit_and_bound (bit_xor (channel / 2 ^ 64 % 2 ^ 64) (channel % 2 ^ 64)) shard_mask)
