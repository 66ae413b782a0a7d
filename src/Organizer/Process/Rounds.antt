-- ===== src/Organizer/Process/Rounds.antt =====
-- The loop of organizer::start ends.
use libbitcoin.Prelude.{
  arith, ℕ, zero, suc, ◌≤◌, ◌≡◌, ◌≢◌, refl, ap, ◌⊎◌, inl, inr, List, [], ◌∷◌, length, Option, none,
  some, Result, ok, err, end_of_stream, out_of_bounds, assertion_failed, out_of_fuel, ok-eq, ◌>>=◌,
  >>=-eq-ok,
}
use libbitcoin.Openssl.{Openssl}
use libbitcoin.Organizer.Keeper.{ChainKeeper}
use libbitcoin.Organizer.Orphans
use libbitcoin.Organizer.Replace.{Organizer}
use libbitcoin.Organizer.Replace.Queue.{replace_chain-queue}
use libbitcoin.Organizer.Replace.Rounds.{Runs, >>=-Runs, replace_chain-Runs}
use libbitcoin.Organizer.Process.{
  pop_back, replace_from, process_traced, process, process_back, process_loop,
}

pop_back-length : (p : ℕ) (pointers : List ℕ) → length (pop_back p pointers).0 ≡ length pointers
unfolding pop_back
pop_back-length p [] = refl
pop_back-length p (next ∷ pointers) = omega (arith, pop_back-length next pointers)

module _ {o : Openssl} (keeper : ChainKeeper o) (trace_fuel : ℕ) where
  process_traced-queue :
      (orphan_chain : List ℕ) (organizer : Organizer keeper) {after : Organizer keeper}
      → process_traced keeper trace_fuel orphan_chain organizer ≡ ok after
      → length after.process_queue ≤ length organizer.process_queue
  unfolding process_traced
  process_traced-queue [] organizer e = cc
  process_traced-queue (first ∷ orphan_chain) organizer {after = after} e =
      from (keeper.find_index (Orphans.previous_hash organizer.heap first) organizer.chain) e
    where
      from :
          (fork : Option ℕ)
          → replace_from keeper trace_fuel fork (first ∷ orphan_chain) organizer ≡ ok after
          → length after.process_queue ≤ length organizer.process_queue
      from none h =
          unfold replace_from in
          omega (arith, ap (λ (r : Organizer keeper). length r.process_queue) (ok-eq h))
      from (some fork_index) h =
          unfold replace_from in
          replace_chain-queue keeper fork_index (first ∷ orphan_chain) organizer h

  process-queue :
      (process_block : ℕ) (organizer : Organizer keeper) {after : Organizer keeper}
      → process keeper trace_fuel process_block organizer ≡ ok after
      → length after.process_queue ≤ length organizer.process_queue
  unfolding process
  process-queue process_block organizer e =
      let (orphan_chain, _, e1) =
        >>=-eq-ok (Orphans.trace trace_fuel organizer.heap organizer.orphans process_block) _ e in
      let (middle, processed, e2) =
        >>=-eq-ok (process_traced keeper trace_fuel orphan_chain organizer) _ e1 in
      omega (
        arith,
        process_traced-queue orphan_chain organizer processed,
        ap (λ (r : Organizer keeper). length r.process_queue) (ok-eq e2),
      )

  process_back-queue :
      (p : ℕ) (pointers : List ℕ) (organizer : Organizer keeper) {after : Organizer keeper}
      → process_back keeper trace_fuel p pointers organizer ≡ ok after
      → length after.process_queue ≤ length pointers
  unfolding process_back
  process_back-queue p pointers organizer e =
      let popped = pop_back p pointers in
      let (middle, processed, e1) =
        >>=-eq-ok
          (process keeper trace_fuel popped.1
            (record organizer { process_queue = popped.0; chain = keeper.start organizer.chain }))
          _ e in
      omega (
        arith,
        process-queue popped.1 _ processed,
        pop_back-length p pointers,
        ap (λ (r : Organizer keeper). length r.process_queue) (ok-eq e1),
      )

  process_traced-Runs :
      (orphan_chain : List ℕ) (organizer : Organizer keeper)
      → Runs (process_traced keeper trace_fuel orphan_chain organizer)
  unfolding process_traced replace_from
  process_traced-Runs [] organizer = λ e. cc
  process_traced-Runs (first ∷ orphan_chain) organizer =
      from (keeper.find_index (Orphans.previous_hash organizer.heap first) organizer.chain)
    where
      from :
          (fork : Option ℕ)
          → Runs (replace_from keeper trace_fuel fork (first ∷ orphan_chain) organizer)
      from none = λ e. cc
      from (some fork_index) = replace_chain-Runs keeper fork_index (first ∷ orphan_chain) organizer

  process_back-Runs :
      (p : ℕ) (pointers : List ℕ) (organizer : Organizer keeper)
      → Runs (Orphans.trace trace_fuel organizer.heap organizer.orphans (pop_back p pointers).1)
      → Runs (process_back keeper trace_fuel p pointers organizer)
  unfolding process_back process
  process_back-Runs p pointers organizer h =
      >>=-Runs (process keeper trace_fuel (pop_back p pointers).1 _) _
        (>>=-Runs
          (Orphans.trace trace_fuel organizer.heap organizer.orphans (pop_back p pointers).1) _ h
          (λ orphan_chain.
            >>=-Runs (process_traced keeper trace_fuel orphan_chain _) _
              (process_traced-Runs orphan_chain _) (λ after e. cc)))
        (λ after e. cc)

  -- The rounds of the loop: from a queue and an organizer to those of a later round.
  data Reaches : List ℕ → Organizer keeper → List ℕ → Organizer keeper → Type 0 where
    here : {queue : List ℕ} {organizer : Organizer keeper} → Reaches queue organizer queue organizer
    round :
        {p : ℕ} {pointers later : List ℕ} {organizer after at : Organizer keeper}
        → process_back keeper trace_fuel p pointers organizer ≡ ok after
        → Reaches after.process_queue after later at
        → Reaches (p ∷ pointers) organizer later at

  -- A round of the loop, reached from the given queue and organizer, whose trace needs more rounds than
  -- the model allows a trace.
  pub record TraceStops (queue : List ℕ) (organizer : Organizer keeper) : Type 0 where
    p : ℕ
    pointers : List ℕ
    at : Organizer keeper
    reached : Reaches queue organizer (p ∷ pointers) at
    stops : Orphans.trace trace_fuel at.heap at.orphans (pop_back p pointers).1 ≡ err out_of_fuel

  traces-or-stops : (result : Result (List ℕ)) → Runs result ⊎ (result ≡ err out_of_fuel)
  traces-or-stops (err out_of_fuel) = inr refl
  traces-or-stops (err end_of_stream) = inl (λ e. cc)
  traces-or-stops (err out_of_bounds) = inl (λ e. cc)
  traces-or-stops (err assertion_failed) = inl (λ e. cc)
  traces-or-stops (ok orphan_chain) = inl (λ e. cc)

  -- With as many rounds as the queue is long, the loop of start does not run out of rounds, but for a
  -- round it reaches whose trace runs out of its own.
  pub process_loop-ends :
      (fuel : ℕ) (queue : List ℕ) (organizer : Organizer keeper)
      → length queue ≤ fuel
      → (process_loop keeper trace_fuel fuel queue organizer ≢ err out_of_fuel)
        ⊎ TraceStops queue organizer
  unfolding process_loop
  process_loop-ends zero [] organizer h = inl (λ e. cc)
  process_loop-ends (suc fuel) [] organizer h = inl (λ e. cc)
  process_loop-ends zero (p ∷ pointers) organizer h = absurd (omega arith)
  process_loop-ends (suc fuel) (p ∷ pointers) organizer h =
      elim (traces-or-stops
        (Orphans.trace trace_fuel organizer.heap organizer.orphans (pop_back p pointers).1)) [
          | inr stops ↦
              inr (record {
                p = p;
                pointers = pointers;
                at = organizer;
                reached = here;
                stops = stops;
              })
          | inl traces ↦
              again (process_back keeper trace_fuel p pointers organizer) refl
                (process_back-Runs p pointers organizer traces)
                (λ after shorter. process_loop-ends fuel after.process_queue after shorter)
        ]
    where
      later :
          {after : Organizer keeper}
          → process_back keeper trace_fuel p pointers organizer ≡ ok after
          → TraceStops after.process_queue after
          → TraceStops (p ∷ pointers) organizer
      later e found = record {
        p = found.p;
        pointers = found.pointers;
        at = found.at;
        reached = round e found.reached;
        stops = found.stops;
      }

      again :
          (result : Result (Organizer keeper))
          → process_back keeper trace_fuel p pointers organizer ≡ result
          → Runs result
          → ((after : Organizer keeper)
              → length after.process_queue ≤ fuel
              → Runs (process_loop keeper trace_fuel fuel after.process_queue after)
                ⊎ TraceStops after.process_queue after)
          → Runs (result >>= λ after. process_loop keeper trace_fuel fuel after.process_queue after)
            ⊎ TraceStops (p ∷ pointers) organizer
      again (err code) e runs next = inl runs
      again (ok after) e runs next =
          elim (next after (omega (arith, process_back-queue p pointers organizer e))) [
            | inl ends ↦ inl ends
            | inr found ↦ inr (later e found)
          ]
