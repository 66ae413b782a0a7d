-- ===== src/SatoshiSerialize/Inventories/RoundTrip.antt =====
-- Inventories and addresses survive a save and a load.
use libbitcoin.Prelude.{
  arith, ℕ, ◌+◌, ◌*◌, ◌<◌, ◌^◌, ◌≡◌, ◌≢◌, refl, sym, ap, ◌∙◌, false, List, [], ◌∷◌, ◌++◌,
  append_assoc, append-nil, reverse, length, ==-refl, length-append, length-reverse, All, ok,
}
use libbitcoin.Format.{uncast_type, length-uncast_type}
use libbitcoin.Messages.{NetworkAddress, InventoryType, InventoryVector}
use libbitcoin.Serializer.{write_4_bytes, write_hash, write_variable_uint, write_network_address}
use libbitcoin.Serializer.Lengths.{
  variable_uint_bytes, network_address_bytes, length-network_address_bytes,
  write_variable_uint-append, writes,
}
use libbitcoin.Serializer.RoundTrip.{
  read_4_bytes-uncast_type, read_hash-reverse, read_network_address-bytes, read_variable_uint-bytes,
}
use libbitcoin.SatoshiSerialize.{variable_uint_size, length-variable_uint_bytes}
use libbitcoin.SatoshiSerialize.Inventories.{
  address_raw_size, save_addresses, save_address, load_addresses, load_address,
  inventory_type_to_number, inventory_type_from_number, raw_size_inventory_impl, save_inventories,
  save_inventory_impl, load_inventories, load_inventory_impl,
}

-- `none` is saved as 0, which is loaded as `error`.
abbrev pub InventoryFits : InventoryVector → Type 0
InventoryFits inv = (inv.kind ≢ InventoryType.none) × (length inv.hash ≡ 32)

abbrev pub AddressFits : NetworkAddress → Type 0
AddressFits a =
    (a.timestamp < 2 ^ 32) × (a.services < 2 ^ 64) × (length a.ip ≡ 16) × (a.port < 2 ^ 16)

inventory_type_from_number-to_number :
    (kind : InventoryType)
    → kind ≢ InventoryType.none
    → inventory_type_from_number (inventory_type_to_number kind) ≡ kind
unfolding inventory_type_from_number inventory_type_to_number
inventory_type_from_number-to_number InventoryType.error h = refl
inventory_type_from_number-to_number InventoryType.transaction h = refl
inventory_type_from_number-to_number InventoryType.block h = refl
inventory_type_from_number-to_number InventoryType.none h = elim (h refl) [ ]

inventory_type_to_number-lt : (kind : InventoryType) → inventory_type_to_number kind < 2 ^ 32
unfolding inventory_type_to_number
inventory_type_to_number-lt InventoryType.error = omega arith
inventory_type_to_number-lt InventoryType.transaction = omega arith
inventory_type_to_number-lt InventoryType.block = omega arith
inventory_type_to_number-lt InventoryType.none = omega arith

inventories_bytes : List InventoryVector → List ℕ
inventories_bytes [] = []
inventories_bytes (inv ∷ rest) =
    uncast_type 4 (inventory_type_to_number inv.kind) false
    ++ (reverse inv.hash ++ inventories_bytes rest)

save_inventories-bytes :
    (inventories : List InventoryVector) (s : List ℕ)
    → save_inventories inventories s ≡ s ++ inventories_bytes inventories
unfolding save_inventories inventories_bytes
save_inventories-bytes [] s = sym (append-nil s)
save_inventories-bytes (inv ∷ rest) s =
    save_inventories-bytes rest
      (write_hash inv.hash (write_4_bytes (inventory_type_to_number inv.kind) s))
    ∙ simp writes

length-inventories_bytes :
    (inventories : List InventoryVector)
    → All InventoryFits inventories
    → length (inventories_bytes inventories) ≡ 36 * length inventories
unfolding inventories_bytes
length-inventories_bytes [] h = refl
length-inventories_bytes (inv ∷ rest) h =
    rw
      (
        length-append (uncast_type 4 (inventory_type_to_number inv.kind) false),
        length-append (reverse inv.hash),
        length-uncast_type 4 (inventory_type_to_number inv.kind) false,
        length-reverse inv.hash,
        h.0.1,
        length-inventories_bytes rest h.1,
      )
      (omega arith)

load_inventories-bytes :
    (inventories done : List InventoryVector) (rest : List ℕ)
    → All InventoryFits inventories
    → load_inventories (length inventories) done (inventories_bytes inventories ++ rest)
      ≡ ok (done ++ inventories, rest)
unfolding load_inventories inventories_bytes
load_inventories-bytes [] done rest h = ap (λ k. ok (k, rest)) (sym (append-nil done))
load_inventories-bytes (inv ∷ more) done rest h =
    let code = inventory_type_to_number inv.kind in
    rw
      (
        append_assoc (uncast_type 4 code false) (reverse inv.hash ++ inventories_bytes more) rest,
        read_4_bytes-uncast_type code ((reverse inv.hash ++ inventories_bytes more) ++ rest)
            (inventory_type_to_number-lt inv.kind),
        append_assoc (reverse inv.hash) (inventories_bytes more) rest,
        read_hash-reverse inv.hash (inventories_bytes more ++ rest) h.0.1,
        inventory_type_from_number-to_number inv.kind h.0.0,
      )
      (load_inventories-bytes more (done ++ inv ∷ []) rest h.1
        ∙ ap (λ k. ok (k, rest)) (append_assoc done (inv ∷ []) more))

-- A list of fewer than 2^64 inventories with hashes of 32 bytes, none of the kind `none`, is saved in as many bytes as its size says, and is
-- loaded from them as it was.
load_inventory-save_inventory :
    (inventories : List InventoryVector)
    → All InventoryFits inventories
    → length inventories < 2 ^ 64
    → (out : List ℕ) × (save_inventory_impl inventories ≡ ok out)
      × (length out ≡ raw_size_inventory_impl inventories)
      × (load_inventory_impl out ≡ ok inventories)
unfolding save_inventory_impl load_inventory_impl raw_size_inventory_impl
load_inventory-save_inventory inventories h fits =
    let count = variable_uint_bytes (length inventories) in
    let out = count ++ inventories_bytes inventories in
    let saved : save_inventories inventories (write_variable_uint (length inventories) []) ≡ out =
      save_inventories-bytes inventories (write_variable_uint (length inventories) [])
      ∙ ap (λ k. k ++ inventories_bytes inventories)
          (write_variable_uint-append (length inventories) []) in
    let size : length out ≡ variable_uint_size (length inventories) + 36 * length inventories = rw (
      length-append count (inventories_bytes inventories),
      length-variable_uint_bytes (length inventories),
      length-inventories_bytes inventories h,
    ) in
    let read = load_inventories-bytes inventories [] [] h in
    (
      out,
      rw (saved, size, ==-refl (variable_uint_size (length inventories) + 36 * length inventories)),
      size,
      rw (
        read_variable_uint-bytes (length inventories) (inventories_bytes inventories) fits,
        ap (load_inventories (length inventories) [])
              (sym (append-nil (inventories_bytes inventories)))
            ∙ read,
        size,
        ==-refl (variable_uint_size (length inventories) + 36 * length inventories),
      ),
    )

addresses_bytes : List NetworkAddress → List ℕ
addresses_bytes [] = []
addresses_bytes (a ∷ rest) =
    uncast_type 4 a.timestamp false ++ (network_address_bytes a ++ addresses_bytes rest)

save_addresses-bytes :
    (addresses : List NetworkAddress) (s : List ℕ)
    → save_addresses addresses s ≡ s ++ addresses_bytes addresses
unfolding save_addresses addresses_bytes
save_addresses-bytes [] s = sym (append-nil s)
save_addresses-bytes (a ∷ rest) s =
    save_addresses-bytes rest (write_network_address a (write_4_bytes a.timestamp s)) ∙ simp writes

length-addresses_bytes :
    (addresses : List NetworkAddress)
    → All AddressFits addresses
    → length (addresses_bytes addresses) ≡ 30 * length addresses
unfolding addresses_bytes
length-addresses_bytes [] h = refl
length-addresses_bytes (a ∷ rest) h =
    let (_, _, ip, _) = h.0 in
    rw
      (
        length-append (uncast_type 4 a.timestamp false),
        length-append (network_address_bytes a),
        length-uncast_type 4 a.timestamp false,
        length-network_address_bytes a ip,
        length-addresses_bytes rest h.1,
      )
      (omega arith)

load_addresses-bytes :
    (addresses done : List NetworkAddress) (rest : List ℕ)
    → All AddressFits addresses
    → load_addresses (length addresses) done (addresses_bytes addresses ++ rest)
      ≡ ok (done ++ addresses, rest)
unfolding load_addresses addresses_bytes
load_addresses-bytes [] done rest h = ap (λ k. ok (k, rest)) (sym (append-nil done))
load_addresses-bytes (a ∷ more) done rest h =
    let (timestamp, services, ip, port) = h.0 in
    rw
      (
        append_assoc (uncast_type 4 a.timestamp false)
            (network_address_bytes a ++ addresses_bytes more) rest,
        read_4_bytes-uncast_type a.timestamp
            ((network_address_bytes a ++ addresses_bytes more) ++ rest) timestamp,
        append_assoc (network_address_bytes a) (addresses_bytes more) rest,
        read_network_address-bytes a a.timestamp (addresses_bytes more ++ rest) services ip port,
      )
      (load_addresses-bytes more (done ++ a ∷ []) rest h.1
        ∙ ap (λ k. ok (k, rest)) (append_assoc done (a ∷ []) more))

-- A list of fewer than 2^64 addresses whose fields fit their widths is saved in as many bytes as its size says, and is loaded from
-- them as it was, with the timestamps.
load_address-save_address :
    (addresses : List NetworkAddress)
    → All AddressFits addresses
    → length addresses < 2 ^ 64
    → (out : List ℕ) × (save_address addresses ≡ ok out)
      × (length out ≡ address_raw_size addresses)
      × (load_address out ≡ ok addresses)
unfolding save_address load_address address_raw_size
load_address-save_address addresses h fits =
    let count = variable_uint_bytes (length addresses) in
    let out = count ++ addresses_bytes addresses in
    let saved : save_addresses addresses (write_variable_uint (length addresses) []) ≡ out =
      save_addresses-bytes addresses (write_variable_uint (length addresses) [])
      ∙ ap (λ k. k ++ addresses_bytes addresses)
          (write_variable_uint-append (length addresses) []) in
    let size : length out ≡ variable_uint_size (length addresses) + 30 * length addresses = rw (
      length-append count (addresses_bytes addresses),
      length-variable_uint_bytes (length addresses),
      length-addresses_bytes addresses h,
    ) in
    let read = load_addresses-bytes addresses [] [] h in
    (
      out,
      rw (saved, size, ==-refl (variable_uint_size (length addresses) + 30 * length addresses)),
      size,
      rw (
        read_variable_uint-bytes (length addresses) (addresses_bytes addresses) fits,
        ap (load_addresses (length addresses) []) (sym (append-nil (addresses_bytes addresses)))
            ∙ read,
        size,
        ==-refl (variable_uint_size (length addresses) + 30 * length addresses),
      ),
    )
