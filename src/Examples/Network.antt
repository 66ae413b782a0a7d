-- ===== src/Examples/Network.antt =====
-- A handshake and a node's addresses at concrete events.
use libbitcoin.Prelude.{
  refl, chunk_eq, ◌≡◌, List, [], ◌∷◌, ◌++◌, replicate, leb, if◌then◌else◌, none, some,
}
use libbitcoin.Messages.{NetworkAddress}
use libbitcoin.Network.Hosts.{
  Hosts, HostsField, erase_field, field_eq, field_of, store, do_remove, do_fetch_address,
}
use libbitcoin.Network.Hosts.Stored.{store-do_remove}
use libbitcoin.Network.Handshake.{
  Event, message_sent, version_received, verack_received, ready, handle_all,
}
use libbitcoin.Network.Handshake.Completions.{
  successes, failures, cleared, failed, handle_all-completions,
}
use libbitcoin.Validate.{ErrorCode}

-- The version is sent, theirs received and acknowledged, and ours acknowledged; then the channel stops.
abbrev events : List Event
events =
    message_sent none
    ∷ version_received none
    ∷ message_sent none
    ∷ verack_received none
    ∷ verack_received (some ErrorCode.service_stopped)
    ∷ []

handle_all-completions_example :
    (successes (handle_all ready events).completions ≡ (if leb 3 (cleared events) then 1 else 0))
    × (failures (handle_all ready events).completions ≡ failed events)
handle_all-completions_example = handle_all-completions events

abbrev known : NetworkAddress
known = record { timestamp = 0; services = 1; ip = replicate 16 1; port = 8333 }

abbrev other : NetworkAddress
other = record { timestamp = 9; services = 1; ip = replicate 16 2; port = 8333 }

-- A push_back with room.
abbrev append_back : List HostsField → HostsField → List HostsField
append_back fields field = fields ++ field ∷ []

abbrev known_host : Hosts
known_host = record { buffer = field_of known ∷ [] }

other_unknown : (do_remove known_host other).1 ≡ some ErrorCode.not_found
unfolding do_remove erase_field field_eq field_of chunk_eq
other_unknown = refl

store-do_remove_example :
    (do_fetch_address (store append_back known_host other) 1
      ≡ some (record { timestamp = 0; services = 0; ip = other.ip; port = other.port }))
    × (do_remove (store append_back known_host other) other ≡ (known_host, none))
store-do_remove_example = store-do_remove append_back known_host other refl other_unknown
