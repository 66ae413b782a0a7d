-- ===== src/SatoshiSerialize/Control.antt =====
-- The header of a message, and the messages version, ping and pong.
pub mod RoundTrip
use libbitcoin.Prelude.{
  ℕ, ◌+◌, List, [], length, ltb, leb, ◌==◌, if◌then◌else◌, Result, ok, assert, ◌>>=◌, ◌>>◌,
}
use libbitcoin.Messages.{NetworkAddress, Header, Version}
use libbitcoin.SatoshiSerialize.{variable_uint_size}
use libbitcoin.Serializer.{
  write_4_bytes, write_8_bytes, write_network_address, write_fixed_string, write_string,
  read_4_bytes, read_8_bytes, read_network_address, read_fixed_string, read_string,
}

unfoldable pub header_raw_size : Header → ℕ
header_raw_size head = 20 + (if head.checksum == 0 then 0 else 4)

abbrev pub command_size : ℕ
command_size = 12

unfoldable pub save_header : Header → Result (List ℕ)
save_header head = do
  serial ← write_fixed_string head.command command_size (write_4_bytes head.magic [])
  let serial = write_4_bytes head.payload_length serial
  let raw_data = (if head.checksum == 0 then serial else write_4_bytes head.checksum serial)
  assert (header_raw_size head == length raw_data)
  ok raw_data

checked_header : Header → List ℕ → Result Header
checked_header head stream = do assert (header_raw_size head == length stream); ok head

unfoldable pub load_header : List ℕ → Result Header
unfolding checked_header
load_header stream = do
  (magic, rest) ← read_4_bytes stream
  (command, rest) ← read_fixed_string command_size rest
  (payload_length, rest) ← read_4_bytes rest
  checked_header
      (record { magic = magic; command = command; payload_length = payload_length; checksum = 0 })
      stream

unfoldable pub version_raw_size : Version → ℕ
version_raw_size packet =
    84 + variable_uint_size (length packet.user_agent) + length packet.user_agent

unfoldable pub save_version : Version → Result (List ℕ)
save_version packet = do
  let serial = write_4_bytes packet.version []
  let serial = write_8_bytes packet.services serial
  let serial = write_8_bytes packet.timestamp serial
  let serial = write_network_address packet.address_me serial
  let serial = write_network_address packet.address_you serial
  let serial = write_8_bytes packet.nonce serial
  serial ← write_string packet.user_agent serial
  let raw_data = write_4_bytes packet.start_depth serial
  assert (version_raw_size packet == length raw_data)
  ok raw_data

-- The last field, from version 209 on.
load_start_depth : Version → List ℕ → List ℕ → Result Version
load_start_depth packet stream rest = do
  (start_depth, rest) ← read_4_bytes rest
  assert (leb (4 + 8 + 8 + 26 + 26 + 8 + 1 + 4) (length stream))
  assert (version_raw_size (record packet { start_depth = start_depth }) == length stream)
  ok (record packet { start_depth = start_depth })

early_return : ℕ → Version → List ℕ → Result Version
early_return least packet stream = do assert (leb least (length stream)); ok packet

-- The fields from version 106 on.
load_address_you : Version → List ℕ → List ℕ → Result Version
unfolding load_start_depth early_return
load_address_you packet stream rest = do
  (address_you, rest) ← read_network_address 0 rest
  (nonce, rest) ← read_8_bytes rest
  (user_agent, rest) ← read_string rest
  let packet : Version = record packet {
    address_you = address_you;
    nonce = nonce;
    user_agent = user_agent;
  }
  if ltb packet.version 209
      then early_return (4 + 8 + 8 + 26 + 26 + 8 + 1) packet stream
      else load_start_depth packet stream rest

-- The code sets the timestamp of an address that it read to 0. An early return leaves the fields of
-- `packet` that it has not reached as they were.
unfoldable pub load_version : Version → List ℕ → Result Version
unfolding load_address_you early_return
load_version packet stream = do
  (version, rest) ← read_4_bytes stream
  (services, rest) ← read_8_bytes rest
  (timestamp, rest) ← read_8_bytes rest
  (address_me, rest) ← read_network_address 0 rest
  let packet : Version = record packet {
    version = version;
    services = services;
    timestamp = timestamp;
    address_me = address_me;
  }
  if ltb version 106
      then early_return (4 + 8 + 8 + 26) packet stream
      else load_address_you packet stream rest

-- ping and pong are one nonce.
unfoldable pub save_nonce : ℕ → Result (List ℕ)
save_nonce nonce = do
  let raw_data = write_8_bytes nonce []
  assert (8 == length raw_data)
  ok raw_data

unfoldable pub load_nonce : List ℕ → Result ℕ
load_nonce stream = do (nonce, _) ← read_8_bytes stream; assert (8 == length stream); ok nonce
