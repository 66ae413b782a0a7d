-- ===== src/Validate/Block/Start.antt =====
-- validate_block::start of src/validate.cpp.
use libbitcoin.Prelude.{ℕ}
use libbitcoin.Openssl.{Openssl}
use libbitcoin.Messages.{Block}
use libbitcoin.Validate.Verdict.{Verdict, ◌>>◌}
use libbitcoin.Validate.Block.{BlockContext}
use libbitcoin.Validate.Block.Check.{check_block}
use libbitcoin.Validate.Block.Accept.{accept_block}
use libbitcoin.Validate.Block.Connect.{connect_block}

unfoldable pub validate_block : Openssl → BlockContext → ℕ → Block → Verdict (Unit {0})
validate_block o context depth block = do
  check_block o context.universal_time block
  accept_block o context depth block
  connect_block o context depth block
