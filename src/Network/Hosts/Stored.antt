-- ===== src/Network/Hosts/Stored.antt =====
-- An address that hosts has just stored can be fetched and removed again.
use native.Mathlib.Nat.{mod-eq_of_lt}
use libbitcoin.Prelude.{
  arith, ℕ, ◌%◌, ◌+◌, ◌≡◌, refl, ap, ◌∙◌, Bool, true, false, List, [], ◌∷◌, ◌++◌, length,
  length-append, ==-refl, ◌==◌, if◌then◌else◌, chunk_eq_refl, get_elem?, Option, none, some,
}
use libbitcoin.Messages.{NetworkAddress}
use libbitcoin.Network.Hosts.{
  Hosts, HostsField, field_eq, field_of, store, erase_field, do_remove, address_of,
  do_fetch_address,
}
use libbitcoin.Validate.{ErrorCode}

field_eq_refl : (field : HostsField) → field_eq field field ≡ true
unfolding field_eq
field_eq_refl field = rw (chunk_eq_refl field.ip, ==-refl field.port) refl

not_erased :
    (test : Bool) (fields : List HostsField) (other : HostsField) (rest : List HostsField × Bool)
    {result : List HostsField × Bool}
    → (if test then (fields, true) else (other ∷ rest.0, rest.1)) ≡ result
    → result.1 ≡ false
    → (test ≡ false) × (rest.1 ≡ false)
not_erased true fields other rest e h = cc
not_erased false fields other rest e h = (refl, ap (λ (r : List HostsField × Bool). r.1) e ∙ h)

-- Without an equal field before it, the last field is the one that is erased.
erase_field-append :
    (fields : List HostsField) (field : HostsField)
    → (erase_field fields field).1 ≡ false
    → erase_field (fields ++ field ∷ []) field ≡ (fields, true)
unfolding erase_field
erase_field-append [] field h = rw (field_eq_refl field) refl
erase_field-append (other ∷ fields) field h =
    let (differs, none_left) =
      not_erased (field_eq other field) fields other (erase_field fields field) refl h in
    rw (differs, erase_field-append fields field none_left) refl

answered :
    (erased : Bool) (yes_case no_case : Hosts) {result : Hosts × Option ErrorCode}
    → (if erased then (yes_case, none) else (no_case, some ErrorCode.not_found)) ≡ result
    → result.1 ≡ some ErrorCode.not_found
    → erased ≡ false
answered true yes_case no_case e h = cc
answered false yes_case no_case e h = refl

absent :
    (hosts : Hosts) (address : NetworkAddress)
    → (do_remove hosts address).1 ≡ some ErrorCode.not_found
    → (erase_field hosts.buffer (field_of address)).1 ≡ false
unfolding do_remove
absent hosts address h = answered (erase_field hosts.buffer (field_of address)).1 _ hosts refl h

get_elem?-last {ℓ} :
    {A : Type ℓ} (xs : List A) (x : A) → get_elem? (xs ++ x ∷ []) (length xs) ≡ some x
get_elem?-last [] x = refl
get_elem?-last (y ∷ xs) x = get_elem?-last xs x

fetched :
    (buffer : List HostsField) (random : ℕ) (field : HostsField)
    → length buffer ≡ random + 1
    → get_elem? buffer random ≡ some field
    → do_fetch_address (record { buffer = buffer }) random
      ≡ some (record { timestamp = 0; services = 0; ip = field.ip; port = field.port })
unfolding do_fetch_address address_of
fetched buffer random field h e =
    let filled : (length buffer == 0) ≡ false = ground (arith, h) in
    let same : random % length buffer ≡ random = mod-eq_of_lt (omega (arith, h)) in
    rw (filled, same, e) refl

-- An address that hosts does not know, stored where the circular buffer appends it, is fetched with its ip
-- and port at the last index, and its removal leaves hosts as it was.
pub store-do_remove :
    (push_back : List HostsField → HostsField → List HostsField) (hosts : Hosts)
    (address : NetworkAddress)
    → push_back hosts.buffer (field_of address) ≡ hosts.buffer ++ field_of address ∷ []
    → (do_remove hosts address).1 ≡ some ErrorCode.not_found
    → (do_fetch_address (store push_back hosts address) (length hosts.buffer)
        ≡ some (record { timestamp = 0; services = 0; ip = address.ip; port = address.port }))
      × (do_remove (store push_back hosts address) address ≡ (hosts, none))
unfolding store field_of
store-do_remove push_back hosts address appends unknown = (
  rw appends (
      fetched (hosts.buffer ++ field_of address ∷ []) (length hosts.buffer) (field_of address)
        (length-append hosts.buffer (field_of address ∷ []))
        (get_elem?-last hosts.buffer (field_of address))),
  rw appends (
      unfold do_remove in
      rw (erase_field-append hosts.buffer (field_of address) (absent hosts address unknown)) refl),
)
