-- ===== src/Receipt/Tests.antt =====
-- Receipts that are minted and relayed, with a tag in place of HMAC-SHA1 whose last four bytes are
-- those of the event counter.
use ephemerkey.Common.{ℕ, ◌+◌, ◌≡◌, refl, none, some, List, ◌++◌, drop, replicate, arith}
use ephemerkey.Policy.{Action}
use ephemerkey.Totp.{Code, hotp}
use ephemerkey.Receipt.{Receipt, Receipts, ReceiptMode, mint, msg, secret_slice}
use ephemerkey.Receipt.Check.{
  ReceiptCheck, Validator, check_seq, check_time, search_time, search_seq, verify, verify_code,
}
use ephemerkey.Receipt.Relay.{Proved, verify_once}
use ephemerkey.Receipt.Delivery.{Paired, verify-mint}

abbrev tag : List ℕ → List ℕ → List ℕ
tag key message = drop 4 message ++ replicate 16 0

abbrev minter : Receipts
minter = record {
  secret = replicate 32 7;
  secret_len = 20;
  digits = 6;
  mode = ReceiptMode.sequence;
  next_seq = 3;
}

abbrev remote : Validator
remote = record {
  secret = replicate 32 7;
  secret_len = 20;
  digits = 6;
  mode = ReceiptMode.sequence;
  expected_seq = 1;
  look_ahead = 16;
  time_window_s = 3600;
}

abbrev relayed : Receipt
relayed = record {
  action = Action.unlock;
  seq = 3;
  time_s = 3000;
  seq_code = some (record { value = 3; digits = 6 });
  time_code = none;
}

minted : mint tag minter Action.unlock 3000 ≡ some (record minter { next_seq = 4 }, relayed)
unfolding mint secret_slice hotp msg
minted = refl

accepted :
    verify tag remote relayed 3010
    ≡ some (record remote { expected_seq = 4 }, ReceiptCheck.valid 2 0)
unfolding verify check_seq secret_slice hotp msg
accepted = refl

-- By the code alone: the look-ahead is searched from the expected counter on.
code_alone :
    verify_code tag remote Action.unlock (record { value = 3; digits = 6 }) 3010
    ≡ some (record remote { expected_seq = 4 }, ReceiptCheck.valid 2 0)
unfolding verify_code search_seq secret_slice hotp msg
code_alone = refl

-- By the time: the code of counter 99 is 40 seconds old at 3010.
on_time :
    verify_code tag
      (record remote { mode = ReceiptMode.time })
      Action.unlock
      (record { value = 99; digits = 6 })
      3010
    ≡ some (record remote { mode = ReceiptMode.time }, ReceiptCheck.valid 0 4294967256)
unfolding verify_code check_time search_time secret_slice hotp msg
on_time = refl

verify_once_example :
    (c : Code) × (relayed.seq_code ≡ some c)
    × Proved tag remote Action.unlock 3 c 2
    × (4 ≡ relayed.seq + 1)
    × ((later : ℕ)
        → verify tag (record remote { expected_seq = 4 }) relayed later
          ≡ some (record remote { expected_seq = 4 }, ReceiptCheck.replay))
verify_once_example =
    verify_once tag remote (record remote { expected_seq = 4 }) relayed 3010 2 0 refl accepted

remote-Paired : Paired minter remote
remote-Paired = record {
  secret_eq = refl;
  len_eq = refl;
  digits_eq = refl;
  mints_seq = refl;
  checks_seq = refl;
  fits = omega arith;
  small = omega arith;
}

verify-mint_example :
    (m' : Receipts) × (r : Receipt) × (mint tag minter Action.unlock 3000 ≡ some (m', r))
    × (verify tag remote r 3010
        ≡ some (record remote { expected_seq = m'.next_seq }, ReceiptCheck.valid 2 0))
verify-mint_example =
    verify-mint tag minter Action.unlock 3000 remote 3010 remote-Paired (omega arith) (omega arith)
