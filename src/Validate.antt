-- ===== src/Validate.antt =====
-- src/validate.cpp: the checks of a transaction by itself, of its inputs and of its fees, and the count
-- of signature operations.
pub mod Check
pub mod Connect
pub mod Sigops
pub mod Bounds
pub mod Accepts
pub mod Verdict
pub mod Block
pub mod Transaction

-- The enumerators of error_code_t in include/bitcoin/error.hpp; the absence of an error is `none`.
pub data ErrorCode : Type 0 where
  service_stopped not_found duplicate unspent_output unsupported_payment_type start_failed :
      ErrorCode
  resolve_failed network_unreachable address_in_use listen_failed accept_failed bad_stream :
      ErrorCode
  channel_timeout coinbase_transaction is_not_standard double_spend input_not_found : ErrorCode
  empty_transaction output_value_overflow invalid_coinbase_script_size previous_output_null :
      ErrorCode
  previous_block_invalid size_limits proof_of_work futuristic_timestamp first_not_coinbase :
      ErrorCode
  extra_coinbases too_many_sigs merkle_mismatch incorrect_proof_of_work timestamp_too_early :
      ErrorCode
  non_final_transaction checkpoints_failed duplicate_or_spent validate_inputs_failed : ErrorCode
  fees_out_of_range coinbase_too_large : ErrorCode
