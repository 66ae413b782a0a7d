-- ===== src/Serializer.antt =====
-- src/utility/serializer.cpp. The state of a serializer is `data_`, and that of a deserializer the
-- bytes between `begin_` and `end_`.
pub mod Lengths
pub mod RoundTrip
use libbitcoin.Prelude.{
  ℕ, zero, suc, ◌+◌, ◌-◌, ◌%◌, ◌^◌, Bool, true, false, List, [], ◌∷◌, ◌++◌, reverse, length, take,
  drop, replicate, ltb, leb, ◌==◌, if◌then◌else◌, Result, ok, err, end_of_stream, assert, ◌>>=◌,
  ◌>>◌,
}
use libbitcoin.Format.{uncast_type, cast_chunk}
use libbitcoin.Messages.{NetworkAddress}

unfoldable pub write_byte : ℕ → List ℕ → List ℕ
write_byte v serial = serial ++ v ∷ []

unfoldable pub write_2_bytes : ℕ → List ℕ → List ℕ
write_2_bytes v serial = serial ++ uncast_type 2 v false

unfoldable pub write_4_bytes : ℕ → List ℕ → List ℕ
write_4_bytes v serial = serial ++ uncast_type 4 v false

unfoldable pub write_8_bytes : ℕ → List ℕ → List ℕ
write_8_bytes v serial = serial ++ uncast_type 8 v false

unfoldable pub write_variable_uint : ℕ → List ℕ → List ℕ
write_variable_uint v serial =
    if ltb v 0xfd
    then write_byte v serial
    else if leb v 0xffff
    then write_2_bytes v (write_byte 0xfd serial)
    else if leb v 0xffffffff
    then write_4_bytes v (write_byte 0xfe serial)
    else write_8_bytes v (write_byte 0xff serial)

unfoldable pub write_data : List ℕ → List ℕ → List ℕ
write_data other serial = serial ++ other

unfoldable pub write_network_address : NetworkAddress → List ℕ → List ℕ
write_network_address addr serial =
    (write_8_bytes addr.services serial ++ addr.ip) ++ uncast_type 2 addr.port true

-- The bytes are inserted from `rbegin` to `rend`.
unfoldable pub write_hash : List ℕ → List ℕ → List ℕ
write_hash hash serial = serial ++ reverse hash

unfoldable pub write_short_hash : List ℕ → List ℕ → List ℕ
write_short_hash hash serial = serial ++ reverse hash

-- `std::copy` over a chunk of zeros.
unfoldable pub write_fixed_string : List ℕ → ℕ → List ℕ → Result (List ℕ)
write_fixed_string command string_size serial = do
  assert (leb (length command) string_size)
  ok (serial ++ (command ++ replicate (string_size - length command) 0))

unfoldable pub write_string : List ℕ → List ℕ → Result (List ℕ)
write_string str serial =
    write_fixed_string str (length str) (write_variable_uint (length str) serial)

unfoldable pub check_distance : List ℕ → ℕ → Result (Unit {0})
check_distance stream distance = if ltb (length stream) distance then err end_of_stream else ok tt

unfoldable pub read_data_impl : ℕ → Bool → List ℕ → Result (ℕ × List ℕ)
unfolding check_distance
read_data_impl w reversed stream = do
  check_distance stream w
  ok (cast_chunk w (take w stream) reversed, drop w stream)

unfoldable pub read_byte : List ℕ → Result (ℕ × List ℕ)
read_byte [] = err end_of_stream
read_byte (b ∷ stream) = ok (b, stream)

unfoldable pub read_2_bytes : List ℕ → Result (ℕ × List ℕ)
read_2_bytes stream = read_data_impl 2 false stream

unfoldable pub read_4_bytes : List ℕ → Result (ℕ × List ℕ)
read_4_bytes stream = read_data_impl 4 false stream

unfoldable pub read_8_bytes : List ℕ → Result (ℕ × List ℕ)
read_8_bytes stream = read_data_impl 8 false stream

-- The last test of the source, `length == 0xff`, holds of every byte that comes so far.
unfoldable pub read_variable_uint : List ℕ → Result (ℕ × List ℕ)
read_variable_uint stream = do
  (len, rest) ← read_byte stream
  if ltb len 0xfd
      then ok (len, rest)
      else if len == 0xfd
      then read_2_bytes rest
      else if len == 0xfe
      then read_4_bytes rest
      else if len == 0xff
      then read_8_bytes rest
      else ok (0, rest)

-- `std::array<uint8_t, N>`.
unfoldable pub read_bytes : ℕ → Bool → List ℕ → Result (List ℕ × List ℕ)
unfolding check_distance
read_bytes n reversed stream = do
  check_distance stream n
  ok ((if reversed then reverse (take n stream) else take n stream), drop n stream)

read_data_loop : ℕ → List ℕ → List ℕ → Result (List ℕ × List ℕ)
unfolding read_byte
read_data_loop zero raw_bytes stream = ok (raw_bytes, stream)
read_data_loop (suc n) raw_bytes stream = do
  (b, rest) ← read_byte stream
  read_data_loop n (raw_bytes ++ b ∷ []) rest

unfoldable pub read_data : ℕ → List ℕ → Result (List ℕ × List ℕ)
unfolding check_distance read_data_loop
read_data n_bytes stream = do check_distance stream n_bytes; read_data_loop n_bytes [] stream

-- `addr` is declared without an initialiser: what its timestamp holds is the first argument.
unfoldable pub read_network_address : ℕ → List ℕ → Result (NetworkAddress × List ℕ)
read_network_address uninitialised stream = do
  (services, rest) ← read_8_bytes stream
  (ip, rest) ← read_bytes 16 false rest
  (port, rest) ← read_data_impl 2 true rest
  ok (record { timestamp = uninitialised; services = services; ip = ip; port = port }, rest)

unfoldable pub read_hash : List ℕ → Result (List ℕ × List ℕ)
read_hash stream = read_bytes 32 true stream

unfoldable pub read_short_hash : List ℕ → Result (List ℕ × List ℕ)
read_short_hash stream = read_bytes 20 true stream

-- `std::string(result.c_str())`: the bytes before the first zero.
unfoldable pub c_str : List ℕ → List ℕ
c_str [] = []
c_str (b ∷ bs) = if b == 0 then [] else b ∷ c_str bs

unfoldable pub read_fixed_string : ℕ → List ℕ → Result (List ℕ × List ℕ)
read_fixed_string len stream = do
  (string_bytes, rest) ← read_data len stream
  ok (c_str string_bytes, rest)

unfoldable pub read_string : List ℕ → Result (List ℕ × List ℕ)
read_string stream = do
  (string_size, rest) ← read_variable_uint stream
  read_fixed_string string_size rest
