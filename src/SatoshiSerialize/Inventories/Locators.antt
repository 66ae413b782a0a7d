-- ===== src/SatoshiSerialize/Inventories/Locators.antt =====
-- A getblocks message is loaded from the bytes that were saved of it.
use libbitcoin.Prelude.{
  arith, ℕ, ◌+◌, ◌*◌, ◌%◌, ◌<◌, ◌^◌, ◌≡◌, refl, sym, ap, ◌∙◌, List, [], ◌∷◌, ◌++◌, append_assoc,
  append-nil, reverse, length, length-append, length-reverse, All, ==-refl, ok, false,
}
use libbitcoin.Constants.{protocol_version}
use libbitcoin.Format.{uncast_type, length-uncast_type}
use libbitcoin.Messages.{GetBlocks}
use libbitcoin.Serializer.{write_4_bytes, write_variable_uint, write_hash, read_hash}
use libbitcoin.Serializer.Lengths.{variable_uint_bytes, writes}
use libbitcoin.Serializer.RoundTrip.{
  read_4_bytes-uncast_type, read_hash-reverse, read_variable_uint-bytes,
}
use libbitcoin.SatoshiSerialize.{length-variable_uint_bytes}
use libbitcoin.SatoshiSerialize.Inventories.{
  get_blocks_raw_size, save_hashes, save_get_blocks, load_hashes, checked_get_blocks,
  load_get_blocks,
}

abbrev pub IsHash : List ℕ → Type 0
IsHash hash = length hash ≡ 32

hashes_bytes : List (List ℕ) → List ℕ → List ℕ
hashes_bytes [] rest = rest
hashes_bytes (hash ∷ hashes) rest = reverse hash ++ hashes_bytes hashes rest

save_hashes-bytes :
    (hashes : List (List ℕ)) (s rest : List ℕ)
    → save_hashes hashes s ++ rest ≡ s ++ hashes_bytes hashes rest
unfolding save_hashes hashes_bytes
save_hashes-bytes [] s rest = refl
save_hashes-bytes (hash ∷ hashes) s rest =
    save_hashes-bytes hashes (write_hash hash s) rest ∙ simp writes

length-hashes_bytes :
    (hashes : List (List ℕ)) (rest : List ℕ)
    → All IsHash hashes
    → length (hashes_bytes hashes rest) ≡ 32 * length hashes + length rest
unfolding hashes_bytes
length-hashes_bytes [] rest h = omega arith
length-hashes_bytes (hash ∷ hashes) rest h =
    rw
      (
        length-append (reverse hash) (hashes_bytes hashes rest),
        length-reverse hash,
        h.0,
        length-hashes_bytes hashes rest h.1,
      )
      (omega arith)

load_hashes-bytes :
    (hashes done : List (List ℕ)) (rest : List ℕ)
    → All IsHash hashes
    → load_hashes (length hashes) done (hashes_bytes hashes rest) ≡ ok (done ++ hashes, rest)
unfolding load_hashes hashes_bytes
load_hashes-bytes [] done rest h = ap (λ k. ok (k, rest)) (sym (append-nil done))
load_hashes-bytes (hash ∷ hashes) done rest h =
    rw (read_hash-reverse hash (hashes_bytes hashes rest) h.0) (
      load_hashes-bytes hashes (done ++ hash ∷ []) rest h.1
      ∙ ap (λ k. ok (k, rest)) (append_assoc done (hash ∷ []) hashes))

get_blocks_bytes : GetBlocks → List ℕ
get_blocks_bytes packet =
    uncast_type 4 protocol_version false
    ++ (variable_uint_bytes (length packet.start_hashes)
        ++ hashes_bytes packet.start_hashes (reverse packet.hash_stop))

save_get_blocks-fields :
    (packet : GetBlocks)
    → write_hash packet.hash_stop (
        save_hashes packet.start_hashes
          (write_variable_uint (length packet.start_hashes) (write_4_bytes protocol_version [])))
      ≡ get_blocks_bytes packet
unfolding get_blocks_bytes write_hash
save_get_blocks-fields packet =
    save_hashes-bytes packet.start_hashes
      (write_variable_uint (length packet.start_hashes) (write_4_bytes protocol_version []))
      (reverse packet.hash_stop)
    ∙ simp writes

length-get_blocks_bytes :
    (packet : GetBlocks)
    → All IsHash packet.start_hashes
    → IsHash packet.hash_stop
    → length (get_blocks_bytes packet) ≡ get_blocks_raw_size packet
unfolding get_blocks_bytes get_blocks_raw_size
length-get_blocks_bytes packet h stop =
    simp (length-append, length-uncast_type, length-variable_uint_bytes)
      (omega (
        arith,
        length-hashes_bytes packet.start_hashes (reverse packet.hash_stop) h,
        length-reverse packet.hash_stop,
        stop,
      ))

-- A getblocks message with fewer than 2^32 hashes of 32 bytes is saved in as many bytes as its size says,
-- and is loaded from them as it was.
load_get_blocks-save_get_blocks :
    (packet : GetBlocks)
    → All IsHash packet.start_hashes
    → IsHash packet.hash_stop
    → length packet.start_hashes < 2 ^ 32
    → (out : List ℕ) × (save_get_blocks packet ≡ ok out)
      × (length out ≡ get_blocks_raw_size packet)
      × (load_get_blocks out ≡ ok packet)
unfolding save_get_blocks load_get_blocks checked_get_blocks get_blocks_bytes
load_get_blocks-save_get_blocks packet h stop fits =
    let size = length-get_blocks_bytes packet h stop in
    let hashes = hashes_bytes packet.start_hashes (reverse packet.hash_stop) in
    let count = variable_uint_bytes (length packet.start_hashes) in
    let whole : length packet.start_hashes % 2 ^ 32 ≡ length packet.start_hashes =
      omega (arith, fits) in
    (
      get_blocks_bytes packet,
      rw (save_get_blocks-fields packet, size, ==-refl (get_blocks_raw_size packet)),
      size,
      rw (
        read_4_bytes-uncast_type protocol_version (count ++ hashes) (omega arith),
        read_variable_uint-bytes (length packet.start_hashes) hashes (omega (arith, fits)),
        whole,
        load_hashes-bytes packet.start_hashes [] (reverse packet.hash_stop) h,
        ap read_hash (sym (append-nil (reverse packet.hash_stop)))
            ∙ read_hash-reverse packet.hash_stop [] stop,
        size,
        ==-refl (get_blocks_raw_size packet),
      ),
    )
