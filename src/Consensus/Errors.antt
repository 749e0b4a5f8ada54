-- ===== src/Consensus/Errors.antt =====
-- The errors of consensus/validation.go and consensus/scratch.go, without the indices and values
-- that their texts quote.
use sunyata.Common.Outcome.{Outcome}

pub data Error : Type 0 where
  wrong_height wrong_parent_id insufficient_work timestamp_too_old : Error
  zero_value overflow immature unequal : Error
  proof_double_spends not_present : Error
  incorrect_pubkey invalid_signature : Error
  overweight ephemeral_missing ephemeral_value ephemeral_address double_spends : Error
  commitment_mismatch more_blocks_than_headers : Error

abbrev pub Result : Type 0 → Type 0
Result A = Outcome Error A
