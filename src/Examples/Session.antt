-- ===== src/Examples/Session.antt =====
-- A session that grabs three hashes into a buffer of two, one of them twice.
use libbitcoin.Prelude.{arith, ◌≡◌, List, [], ◌∷◌, replicate, ℕ, ok}
use libbitcoin.Session.{PumpkinBuffer, Call, new_buffer, new_tx_inventories}
use libbitcoin.Session.Grabbed.{IsValid, new_tx_inventories-IsValid}

abbrev announced : List (List ℕ)
announced = replicate 32 1 ∷ replicate 32 2 ∷ replicate 32 1 ∷ replicate 32 3 ∷ []

new_tx_inventories-IsValid_example :
    (after : PumpkinBuffer) × (calls : List Call) × (new_tx_inventories announced (new_buffer 2)
      ≡ ok (after, calls))
    × IsValid after
    × (after.max_size ≡ 2)
new_tx_inventories-IsValid_example = new_tx_inventories-IsValid announced 2 (omega arith)
