-- ===== src/Network/Hosts.antt =====
-- The class hosts of src/network/hosts.cpp: the addresses that a node knows.
pub mod Stored
use libbitcoin.Prelude.{
  arith, ℕ, ◌+◌, ◌%◌, ◌≤◌, ◌<◌, ◌≡◌, ◌≢◌, refl, Bool, true, false, ◌&&◌, List, [], ◌∷◌, ◌++◌,
  length, length-append, leb, ◌==◌, if◌then◌else◌, chunk_eq, chunk_eq_refl, get_elem?, Option, none,
  some,
}
use libbitcoin.Messages.{NetworkAddress}
use libbitcoin.Validate.{ErrorCode}

pub record HostsField : Type 0 where
  pub ip : List ℕ
  pub port : ℕ

-- The circular buffer, its front first.
pub record Hosts : Type 0 where
  pub buffer : List HostsField

unfoldable pub field_eq : HostsField → HostsField → Bool
field_eq a b = chunk_eq a.ip b.ip && a.port == b.port

unfoldable pub field_of : NetworkAddress → HostsField
field_of address = record { ip = address.ip; port = address.port }

-- `push_back` is that of boost::circular_buffer.
unfoldable pub store :
    (List HostsField → HostsField → List HostsField) → Hosts → NetworkAddress → Hosts
unfolding field_of
store push_back hosts address = record hosts { buffer = push_back hosts.buffer (field_of address) }

-- The buffer without the first field that is equal, where there is one.
unfoldable pub erase_field : List HostsField → HostsField → List HostsField × Bool
unfolding field_eq
erase_field [] field = ([], false)
erase_field (other ∷ fields) field =
    let (rest, erased) = erase_field fields field in
    if field_eq other field then (fields, true) else (other ∷ rest, erased)

-- The new hosts, and the argument of the handler.
unfoldable pub do_remove : Hosts → NetworkAddress → Hosts × Option ErrorCode
unfolding erase_field field_of
do_remove hosts address =
    let (buffer, erased) = erase_field hosts.buffer (field_of address) in
    if erased then (record hosts { buffer = buffer }, none) else (hosts, some ErrorCode.not_found)

unfoldable pub address_of : Option HostsField → Option NetworkAddress
address_of none = none
address_of (some field) =
    some (record { timestamp = 0; services = 0; ip = field.ip; port = field.port })

-- The address for a number of rand(); `none` is not_found.
unfoldable pub do_fetch_address : Hosts → ℕ → Option NetworkAddress
unfolding address_of
do_fetch_address hosts random =
    if length hosts.buffer == 0
    then none
    else address_of (get_elem? hosts.buffer (random % length hosts.buffer))

unfoldable pub do_fetch_count : Hosts → ℕ
do_fetch_count hosts = length hosts.buffer
