-- ===== src/SatoshiSerialize/Control/RoundTrip.antt =====
-- Headers and version messages survive a save and a load.
use libbitcoin.Prelude.{
  ℕ, ◌≤◌, ◌<◌, ◌^◌, ◌≡◌, false, List, [], ◌++◌, append_assoc, append-nil, length, Bool-cases, inl,
  inr, ==-refl, length-replicate, length-append, take, take-append, All, arith, ok, if◌then◌else◌,
  ◌==◌,
}
use libbitcoin.Format.{uncast_type, length-uncast_type}
use libbitcoin.Messages.{Header}
use libbitcoin.Serializer.{write_4_bytes}
use libbitcoin.Serializer.RoundTrip.{
  IsNonzero, field, write_fixed_string-field, read_4_bytes-uncast_type, read_fixed_string-field,
}
use libbitcoin.SatoshiSerialize.Control.{header_raw_size, save_header, checked_header, load_header}

pub record HeaderFits (head : Header) : Type 0 where
  pub magic_fits : head.magic < 2 ^ 32
  pub command_fits : length head.command ≤ 12
  pub command_text : All IsNonzero head.command
  pub payload_fits : head.payload_length < 2 ^ 32

-- The twenty bytes before a checksum, and the checksum.
abbrev header_prefix : Header → List ℕ
header_prefix head =
    uncast_type 4 head.magic false
    ++ (field head.command 12 ++ (uncast_type 4 head.payload_length false ++ []))

abbrev checksum_bytes : Header → List ℕ
checksum_bytes head = if head.checksum == 0 then [] else uncast_type 4 head.checksum false

length-header_prefix : (head : Header) → length head.command ≤ 12 → length (header_prefix head) ≡ 20
length-header_prefix head h =
    simp (length-append, length-uncast_type, length-replicate) (omega arith)

saved_fields :
    (head : Header)
    → let serial =
        write_4_bytes head.payload_length
          (uncast_type 4 head.magic false ++ field head.command 12) in
      (if head.checksum == 0 then serial else write_4_bytes head.checksum serial)
      ≡ header_prefix head ++ checksum_bytes head
unfolding write_4_bytes
saved_fields head = elim (Bool-cases (head.checksum == 0)) [
  | inl zero ↦ rw zero (simp (append-nil, append_assoc))
  | inr given ↦ rw given (simp append_assoc)
]

length_saved :
    (head : Header)
    → length head.command ≤ 12
    → length (header_prefix head ++ checksum_bytes head) ≡ header_raw_size head
unfolding header_raw_size
length_saved head h =
    rw (length-append (header_prefix head) (checksum_bytes head), length-header_prefix head h)
      (ground (arith, length-uncast_type 4 head.checksum false))

save_header-bytes :
    (head : Header)
    → length head.command ≤ 12
    → save_header head ≡ ok (header_prefix head ++ checksum_bytes head)
unfolding save_header
save_header-bytes head h =
    rw (write_fixed_string-field head.command 12 (write_4_bytes head.magic []) h) (
      unfold write_4_bytes in
      rw (saved_fields head, length_saved head h, ==-refl (header_raw_size head)))

load_header-prefix :
    (head : Header)
    → HeaderFits head
    → load_header (header_prefix head) ≡ ok (record head { checksum = 0 })
unfolding load_header checked_header header_raw_size
load_header-prefix head f =
    let payload = uncast_type 4 head.payload_length false ++ [] in
    rw (
      read_4_bytes-uncast_type head.magic (field head.command 12 ++ payload) f.magic_fits,
      read_fixed_string-field head.command 12 payload f.command_text f.command_fits,
      read_4_bytes-uncast_type head.payload_length [] f.payload_fits,
      length-header_prefix head f.command_fits,
    )

-- A header whose fields fit, with a command of at most 12 bytes and no zero byte, is saved in as many bytes as its size says, and its first twenty bytes are loaded as the
-- header without its checksum, which the reader of the stream takes by itself.
load_header-save_header :
    (head : Header)
    → HeaderFits head
    → (out : List ℕ) × (save_header head ≡ ok out)
      × (length out ≡ header_raw_size head)
      × (load_header (take 20 out) ≡ ok (record head { checksum = 0 }))
load_header-save_header head f = (
  header_prefix head ++ checksum_bytes head,
  save_header-bytes head f.command_fits,
  length_saved head f.command_fits,
  rw
      (take-append 20 (header_prefix head) (checksum_bytes head)
        (length-header_prefix head f.command_fits))
      (load_header-prefix head f),
)
