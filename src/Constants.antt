-- ===== src/Constants.antt =====
-- include/bitcoin/constants.hpp.
use libbitcoin.Prelude.{ℕ, zero, suc, ◌+◌, ◌*◌, ◌/◌, List, replicate, if◌then◌else◌, ltb}

abbrev pub protocol_version : ℕ
protocol_version = 60000

abbrev pub block_reward : ℕ
block_reward = 50

abbrev pub reward_interval : ℕ
reward_interval = 210000

abbrev pub coinbase_maturity : ℕ
coinbase_maturity = 100

abbrev pub locktime_threshold : ℕ
locktime_threshold = 500000000

-- `current >> 1` is 0 after 64 rounds, so a fuel of 64 ends the recursion on every uint64_t.
unfoldable pub max_money_recursive : ℕ → ℕ → ℕ
max_money_recursive zero current = 0
max_money_recursive (suc fuel) current =
    let rest = max_money_recursive fuel (current / 2) in if ltb 0 current then current + rest else 0

abbrev pub coin_price : ℕ → ℕ
coin_price value = value * 100000000

unfoldable pub max_money : ℕ
unfolding max_money_recursive
max_money = reward_interval * max_money_recursive 64 (coin_price block_reward)

abbrev pub null_hash : List ℕ
null_hash = replicate 32 0

abbrev pub max_bits : ℕ
max_bits = 0x1d00ffff

abbrev pub target_timespan : ℕ
target_timespan = 14 * 24 * 60 * 60

abbrev pub target_spacing : ℕ
target_spacing = 10 * 60

abbrev pub readjustment_interval : ℕ
readjustment_interval = target_timespan / target_spacing

abbrev pub bip16_switchover_timestamp : ℕ
bip16_switchover_timestamp = 1333238400

abbrev pub bip16_switchover_depth : ℕ
bip16_switchover_depth = 173805
