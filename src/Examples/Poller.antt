-- ===== src/Examples/Poller.antt =====
-- A poller that is told of two blocks, gets an orphan and asks for the blocks before it.
use libbitcoin.Prelude.{◌≡◌, List, [], ◌∷◌, replicate, All, none, ok}
use libbitcoin.Messages.{InventoryType, InventoryVector}
use libbitcoin.Organizer.{BlockStatus}
use libbitcoin.Poller.{
  Poller, Call, new_poller, Event, inventory_received, block_received, block_stored, asked,
  handle_all,
}
use libbitcoin.Poller.Requests.{Alternates, HasFront, handle_all-Alternates}
use libbitcoin.Examples.Toy.{toy, mined}

abbrev announced : InventoryVector
announced = record { kind = InventoryType.block; hash = replicate 32 3 }

abbrev events : List Event
events =
    inventory_received none (announced ∷ announced ∷ [])
    ∷ block_received none mined
    ∷ block_stored (record { status = BlockStatus.orphan; depth = 0 }) (replicate 32 3)
    ∷ asked none (replicate 32 1 ∷ replicate 32 2 ∷ []) (replicate 32 3)
    ∷ asked none (replicate 32 1 ∷ []) (replicate 32 4)
    ∷ asked none (replicate 32 5 ∷ []) (replicate 32 4)
    ∷ []

events-HasFront : All HasFront events
unfolding HasFront
events-HasFront = (tt, (tt, (tt, (tt, (tt, (tt, tt))))))

handle_all-Alternates_example :
    (after : Poller) × (calls : List Call) × (handle_all toy events new_poller ≡ ok (after, calls))
    × Alternates new_poller.last_hash_end calls
handle_all-Alternates_example = handle_all-Alternates toy events new_poller events-HasFront
