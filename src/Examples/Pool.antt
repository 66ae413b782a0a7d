-- ===== src/Examples/Pool.antt =====
-- Validations and the transaction pool at concrete transactions.
use libbitcoin.Prelude.{
  arith, ℕ, zero, suc, ◌≡◌, ◌≢◌, refl, List, [], ◌∷◌, ◌++◌, replicate, some, none, All, chunk_eq,
  if◌then◌else◌, ok,
}
use libbitcoin.Transaction.Hash.{hash_transaction}
use libbitcoin.TransactionPool.{Entry, Pool, fetch, push_back, tx_exists}
use libbitcoin.TransactionPool.Delegate.{
  client, Call, store_called, confirm_called, Delegate, do_store, handle_delegate,
}
use libbitcoin.TransactionPool.Reorganize.{Posted, takeout_confirmed}
use libbitcoin.TransactionPool.Steps.{
  State, store, run_store, answer, deliver, Reach, started, then_step,
}
use libbitcoin.TransactionPool.Steps.Invariant.{IsValid}
use libbitcoin.TransactionPool.Steps.Keeps.{Reach-IsValid}
use libbitcoin.TransactionPool.Steps.Takeout.{NonePooled, takeout_confirmed-NonePooled}
use libbitcoin.TransactionPool.Steps.Asserts.{handle_delegate-run_through}
use libbitcoin.Validate.{ErrorCode}
use libbitcoin.Validate.Transaction.{
  found, failed, Moment, Validation, Awaited, Progress, waiting, finished,
}
use libbitcoin.Validate.Transaction.Handlers.{
  resume, run_through, start, any_spent, basic_checks, is_spent,
}
use libbitcoin.Validate.Transaction.Reports.{Sound}
use libbitcoin.Validate.Transaction.Rounds.{start-ends}
use libbitcoin.Validate.Transaction.Guarantees.{Among, Answers, run_through-start}
use libbitcoin.SatoshiSerialize.Tx.{
  satoshi_save_transaction, save_transaction, transaction_raw_size,
}
use libbitcoin.SatoshiSerialize.{variable_uint_size}
use libbitcoin.Script.Codec.{code_eq, operation_metadata, save_loop, save_script, script_size}
use libbitcoin.Serializer.{
  write_4_bytes, write_8_bytes, write_byte, write_data, write_hash, write_variable_uint,
}
use libbitcoin.Format.{uncast_type, value_bytes}
use libbitcoin.Digest.{generate_sha256_hash}
use libbitcoin.Validate.Check.{check_transaction}
use libbitcoin.Constants.{max_money}
use libbitcoin.Transaction.{is_coinbase, previous_output_is_null}
use libbitcoin.Validate.Connect.{connect_input}
use libbitcoin.Script.Run.{run}
use libbitcoin.Script.Values.{cast_to_bool, closed, has_failed_branches}
use libbitcoin.Script.Machine.{run_operation}
use libbitcoin.Script.Arithmetic.{op_x}
use libbitcoin.BigNumber.{data_of, set_uint32}
use libbitcoin.Script.Types.{pays_script_hash}
use libbitcoin.Examples.Toy.{toy, coinbase, spender, funding, mined}

-- The chain has the output that is spent, and no spend of it.
abbrev now : Moment
now = record {
  fetch_transaction =
      λ hash. if chunk_eq hash (replicate 32 7) then found funding else failed ErrorCode.not_found;
  fetch_last_depth = found 5;
  fetch_transaction_index = λ hash. found 3;
  fetch_spend = λ output. some ErrorCode.unspent_output;
  pool = [];
}

abbrev moments : List Moment
moments = replicate 5 now

now-Answers : Answers now
now-Answers e = cc

moments-Answers : All Answers moments
moments-Answers = (now-Answers, (now-Answers, (now-Answers, (now-Answers, (now-Answers, tt)))))

run_through-start_example :
    Sound toy [] spender (λ at. Among at moments) (run_through toy moments (start toy [] spender))
run_through-start_example = run_through-start toy [] spender moments moments-Answers

abbrev validation : Validation
validation = record {
  tx = spender;
  tx_hash = [];
  last_block_depth = 0;
  value_in = 0;
  current_input = 0;
  unconfirmed = [];
}

start-ends_example :
    run_through toy (replicate 8 now) (start toy [] spender)
    ≢ waiting Awaited.handle_duplicate_check validation
start-ends_example = start-ends toy [] spender (replicate 8 now) (omega arith)

abbrev entry : Entry
entry = record { hash = replicate 27 7 ++ 1 ∷ 0 ∷ 0 ∷ 0 ∷ 1 ∷ []; tx = spender; handle_confirm = 9 }

spender_hashed : hash_transaction toy spender ≡ ok entry.hash
unfolding hash_transaction satoshi_save_transaction transaction_raw_size variable_uint_size
    save_script code_eq save_loop operation_metadata save_transaction write_4_bytes write_data
    write_variable_uint write_byte write_8_bytes write_hash uncast_type value_bytes
    generate_sha256_hash
spender_hashed = refl

mined_hashed : hash_transaction toy coinbase ≡ ok (replicate 27 0 ++ 1 ∷ 0 ∷ 0 ∷ 0 ∷ 1 ∷ [])
unfolding hash_transaction satoshi_save_transaction transaction_raw_size variable_uint_size
    save_script code_eq save_loop operation_metadata save_transaction write_4_bytes write_data
    write_variable_uint write_byte write_8_bytes write_hash uncast_type value_bytes
    generate_sha256_hash
mined_hashed = refl

abbrev waiting_first : Progress
waiting_first = waiting Awaited.handle_duplicate_check (record validation { tx_hash = entry.hash })

started_waiting : start toy [] spender ≡ waiting_first
unfolding start basic_checks check_transaction max_money is_coinbase previous_output_is_null fetch
started_waiting = rw spender_hashed refl

answered :
    resume toy now (resume toy now (resume toy now (resume toy now (resume toy now waiting_first))))
    ≡ finished none []
unfolding resume chunk_eq any_spent is_spent connect_input max_money is_coinbase
    previous_output_is_null run script_size code_eq has_failed_branches closed run_operation op_x
    cast_to_bool data_of set_uint32 pays_script_hash
answered = refl

accepted : run_through toy moments (start toy [] spender) ≡ finished none []
unfolding run_through
accepted = rw started_waiting answered

handle_delegate-run_through_example :
    (result : Pool × List Call) × (handle_delegate [] none [] entry (client 1) ≡ ok result)
handle_delegate-run_through_example =
    handle_delegate-run_through toy [] [] entry (client 1) moments moments-Answers accepted

-- The validation of an entry after a number of answers.
abbrev progress_after : ℕ → Progress
progress_after zero = start toy [] spender
progress_after (suc answers) = resume toy now (progress_after answers)

abbrev delegate_after : ℕ → Delegate
delegate_after answers = record {
  tx_entry = entry;
  handler = client 1;
  progress = progress_after answers;
}

abbrev running : ℕ → State
running answers = record { pool = []; posted = []; delegates = delegate_after answers ∷ [] }

abbrev call : Posted
call = record { stored_transaction = spender; confirm = 9; handler = client 1 }

spender_stored : do_store toy [] spender 9 (client 1) ≡ ok (delegate_after 0)
unfolding do_store
spender_stored = rw spender_hashed refl

running-Reach : (answers : ℕ) → Reach toy (running answers)
running-Reach zero =
    then_step [] (then_step [] started (store call refl refl))
      (run_store call [] (delegate_after 0) refl spender_stored refl refl)
running-Reach (suc answers) =
    then_step [] (running-Reach answers)
      (answer now [] (delegate_after answers) [] refl refl refl refl)

validated : progress_after 5 ≡ finished none []
validated = rw started_waiting answered

pooled : handle_delegate [] none [] entry (client 1) ≡ ok (entry ∷ [], store_called 1 none [] ∷ [])
unfolding handle_delegate tx_exists push_back
pooled = refl

abbrev one_entry : State
one_entry = record { pool = entry ∷ []; posted = []; delegates = [] }

one_entry-Reach : Reach toy one_entry
one_entry-Reach =
    then_step (store_called 1 none [] ∷ []) (running-Reach 5)
      (deliver [] (delegate_after 5) [] (entry ∷ []) none [] refl validated pooled refl)

Reach-IsValid_example : IsValid toy (entry ∷ [])
Reach-IsValid_example = Reach-IsValid one_entry-Reach

taken_out : takeout_confirmed toy (entry ∷ []) (mined ∷ []) ≡ ok ([], confirm_called 9 none ∷ [])
unfolding takeout_confirmed chunk_eq
taken_out = rw (mined_hashed, spender_hashed) refl

takeout_confirmed-NonePooled_example :
    All (λ block. NonePooled toy [] block.transactions) (mined ∷ [])
takeout_confirmed-NonePooled_example =
    takeout_confirmed-NonePooled toy (entry ∷ []) (mined ∷ []) (Reach-IsValid one_entry-Reach)
      taken_out
