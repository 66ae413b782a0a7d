-- ===== src/Poller/Requests.antt =====
-- Which blocks a poller asks for, over any sequence of its handlers.
use libbitcoin.Prelude.{
  ℕ, ◌≡◌, ◌≢◌, refl, sym, ap, ◌∙◌, true, false, List, [], ◌∷◌, ◌++◌, All, chunk_eq, chunk_eq_refl,
  Bool-cases, inl, inr, none, some, subst, Result, ok,
}
use libbitcoin.Openssl.{Openssl}
use libbitcoin.Messages.{InventoryVector}
use libbitcoin.Organizer.{BlockStatus}
use libbitcoin.Poller.{
  Poller, Call, send_get_data, send_get_blocks, store_block, fetch_locator, dispatch_ask,
  subscribe_inventory, subscribe_block, Event, inventory_received, block_received, block_stored,
  locator_fetched, asked, back_hash, requested, block_inventories, receive_inv, handle_store,
  ask_blocks, handle, handle_all,
}

-- The locator sent starts with another hash than `last`, the start of the one sent before.
abbrev pub StartsAfter : List ℕ → List (List ℕ) → Type 0
StartsAfter last [] = ⊥
StartsAfter last (front ∷ locator) = front ≢ last

front_of : List ℕ → List (List ℕ) → List ℕ
front_of last [] = last
front_of last (front ∷ locator) = front

-- Each getblocks of some calls starts with another hash than the one sent before it, and `last` is the
-- start of the one sent before the calls.
pub Alternates : List ℕ → List Call → Type 0
unfolding front_of
Alternates last [] = Unit {0}
Alternates last (send_get_blocks packet ∷ calls) =
    StartsAfter last packet.start_hashes × Alternates (front_of last packet.start_hashes) calls
Alternates last (send_get_data inventories ∷ calls) = Alternates last calls
Alternates last (store_block block hash ∷ calls) = Alternates last calls
Alternates last (fetch_locator hash ∷ calls) = Alternates last calls
Alternates last (dispatch_ask locator hash ∷ calls) = Alternates last calls
Alternates last (subscribe_inventory ∷ calls) = Alternates last calls
Alternates last (subscribe_block ∷ calls) = Alternates last calls

-- The start of the last getblocks, where there is one.
last_start : List ℕ → List Call → List ℕ
unfolding front_of
last_start last [] = last
last_start last (send_get_blocks packet ∷ calls) =
    last_start (front_of last packet.start_hashes) calls
last_start last (send_get_data inventories ∷ calls) = last_start last calls
last_start last (store_block block hash ∷ calls) = last_start last calls
last_start last (fetch_locator hash ∷ calls) = last_start last calls
last_start last (dispatch_ask locator hash ∷ calls) = last_start last calls
last_start last (subscribe_inventory ∷ calls) = last_start last calls
last_start last (subscribe_block ∷ calls) = last_start last calls

Alternates-append :
    (last : List ℕ) (calls more : List Call)
    → Alternates last calls
    → Alternates (last_start last calls) more
    → Alternates last (calls ++ more)
unfolding Alternates last_start
Alternates-append last [] more h k = k
Alternates-append last (send_get_blocks packet ∷ calls) more h k =
    (h.0, Alternates-append (front_of last packet.start_hashes) calls more h.1 k)
Alternates-append last (send_get_data inventories ∷ calls) more h k =
    Alternates-append last calls more h k
Alternates-append last (store_block block hash ∷ calls) more h k =
    Alternates-append last calls more h k
Alternates-append last (fetch_locator hash ∷ calls) more h k = Alternates-append last calls more h k
Alternates-append last (dispatch_ask locator hash ∷ calls) more h k =
    Alternates-append last calls more h k
Alternates-append last (subscribe_inventory ∷ calls) more h k =
    Alternates-append last calls more h k
Alternates-append last (subscribe_block ∷ calls) more h k = Alternates-append last calls more h k

-- A locator is not empty where the chain has given it with no error.
unfoldable pub HasFront : Event → Type 0
HasFront (asked none [] hash_stop) = ⊥
HasFront _ = Unit {0}

-- A handler has run: what it has sent alternates, and the poller knows the last start.
record Handled (poller : Poller) (result : Result (Poller × List Call)) : Type 0 where
  after : Poller
  calls : List Call
  is_ok : result ≡ ok (after, calls)
  alternates : Alternates poller.last_hash_end calls
  last : last_start poller.last_hash_end calls ≡ after.last_hash_end

no_calls : (poller : Poller) → Handled poller (ok (poller, []))
unfolding Alternates last_start
no_calls poller = record { after = poller; calls = []; is_ok = refl; alternates = tt; last = refl }

handle_store-Handled :
    (status : BlockStatus) (block_hash : List ℕ) (poller : Poller)
    → Handled poller (ok (poller, handle_store status block_hash))
unfolding handle_store Alternates last_start
handle_store-Handled BlockStatus.orphan block_hash poller = record {
  after = _;
  calls = _;
  is_ok = refl;
  alternates = tt;
  last = refl;
}
handle_store-Handled BlockStatus.rejected block_hash poller = no_calls poller
handle_store-Handled BlockStatus.confirmed block_hash poller = no_calls poller

true-ne-false : true ≢ false
true-ne-false h = cc

receive_inv-Handled :
    (inventories : List InventoryVector) (poller : Poller)
    → Handled poller (ok (receive_inv none inventories poller))
unfolding receive_inv requested Alternates last_start
receive_inv-Handled inventories poller =
    by_getdata (block_inventories poller.last_block_hash inventories)
  where
    by_getdata :
        (getdata : List InventoryVector)
        → Handled poller (
            ok (
              record poller { last_block_hash = back_hash poller.last_block_hash getdata },
              requested getdata ++ subscribe_inventory ∷ [],
            ))
    by_getdata [] = record { after = _; calls = _; is_ok = refl; alternates = tt; last = refl }
    by_getdata (ivv ∷ getdata) = record {
      after = _;
      calls = _;
      is_ok = refl;
      alternates = tt;
      last = refl;
    }

ask_blocks-Handled :
    (front : List ℕ) (locator : List (List ℕ)) (hash_stop : List ℕ) (poller : Poller)
    → Handled poller (ask_blocks none (front ∷ locator) hash_stop poller)
unfolding ask_blocks Alternates last_start front_of
ask_blocks-Handled front locator hash_stop poller =
    elim (Bool-cases (chunk_eq poller.last_hash_end front)) [
      | inl same ↦ record {
        after = poller;
        calls = [];
        is_ok = rw same refl;
        alternates = tt;
        last = refl;
      }
      | inr other ↦ record {
        after = record poller { last_hash_end = front };
        calls =
            send_get_blocks (record { start_hashes = front ∷ locator; hash_stop = hash_stop }) ∷ [];
        is_ok = rw other refl;
        alternates = (
          (λ e.
              true-ne-false
                (sym (chunk_eq_refl front) ∙ ap (λ hash. chunk_eq hash front) e ∙ other)),
          tt,
        );
        last = refl;
      }
    ]

handle-Handled :
    (o : Openssl) (event : Event) (poller : Poller)
    → HasFront event
    → Handled poller (handle o event poller)
unfolding handle HasFront Alternates last_start
handle-Handled o (inventory_received none inventories) poller h =
    receive_inv-Handled inventories poller
handle-Handled o (inventory_received (some ec) inventories) poller h = no_calls poller
handle-Handled o (block_received none block) poller h = record {
  after = _;
  calls = _;
  is_ok = refl;
  alternates = tt;
  last = refl;
}
handle-Handled o (block_received (some ec) block) poller h = no_calls poller
handle-Handled o (block_stored info block_hash) poller h =
    handle_store-Handled info.status block_hash poller
handle-Handled o (locator_fetched none locator) poller h = record {
  after = _;
  calls = _;
  is_ok = refl;
  alternates = tt;
  last = refl;
}
handle-Handled o (locator_fetched (some ec) locator) poller h = no_calls poller
handle-Handled o (asked none [] hash_stop) poller h = absurd h
handle-Handled o (asked none (front ∷ locator) hash_stop) poller h =
    ask_blocks-Handled front locator hash_stop poller
handle-Handled o (asked (some ec) locator hash_stop) poller h = no_calls poller

-- Over any sequence of handlers, where the locators that the chain gives are not empty, none of them
-- breaks, and no getblocks starts with the same hash as the getblocks sent before it.
pub handle_all-Alternates :
    (o : Openssl) (events : List Event) (poller : Poller)
    → All HasFront events
    → (after : Poller) × (calls : List Call) × (handle_all o events poller ≡ ok (after, calls))
      × Alternates poller.last_hash_end calls
unfolding handle_all
handle_all-Alternates o [] poller h = (poller, [], refl, unfold Alternates in tt)
handle_all-Alternates o (event ∷ events) poller h =
    let handled = handle-Handled o event poller h.0 in
    let (after, calls, rest, alternates) = handle_all-Alternates o events handled.after h.1 in
    (
      after,
      handled.calls ++ calls,
      rw (handled.is_ok, rest) refl,
      Alternates-append poller.last_hash_end handled.calls calls handled.alternates
          (subst (λ last. Alternates last calls) (sym handled.last) alternates),
    )
