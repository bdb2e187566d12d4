-- ===== src/Receipt/Delivery.antt =====
-- A receipt that the lock mints is accepted by a remote side that is in step.
use ephemerkey.Common.{ℕ, ◌+◌, ◌-◌, ◌≡◌, ◌≤◌, ◌<◌, true, none, some, List, take, arith}
use ephemerkey.Policy.{Action}
use ephemerkey.Totp.{Code, code_eq, hotp}
use ephemerkey.Totp.Entry.{hotp_returns}
use ephemerkey.Receipt.{Receipt, Receipts, ReceiptMode, kind_seq, mint, msg, secret_slice}
use ephemerkey.Receipt.Check.{ReceiptCheck, Validator, seq_end, check_seq, verify}

-- A minter and a validator of the sequence mode with one secret and one code length.
pub record Paired (m : Receipts) (v : Validator) : Type 0 where
  pub secret_eq : v.secret ≡ m.secret
  pub len_eq : v.secret_len ≡ m.secret_len
  pub digits_eq : v.digits ≡ m.digits
  pub mints_seq : m.mode ≡ ReceiptMode.sequence
  pub checks_seq : v.mode ≡ ReceiptMode.sequence
  pub fits : m.secret_len ≤ 32
  pub small : m.digits ≤ 10

code_eq_refl : (c : Code) → code_eq c c ≡ true
code_eq_refl c = ground arith

module _ (hmac : List ℕ → List ℕ → List ℕ) (m : Receipts) (a : Action) (time_s : ℕ) where
  abbrev receipt_of : Code → Receipt
  receipt_of c = record {
    action = a;
    seq = m.next_seq;
    time_s = time_s;
    seq_code = some c;
    time_code = none;
  }

  mint_lem :
      (c : Code)
      → m.mode ≡ ReceiptMode.sequence
      → m.secret_len ≤ 32
      → m.next_seq < 4294967295
      → hotp hmac (take m.secret_len m.secret) (msg kind_seq a m.next_seq) m.digits ≡ some c
      → mint hmac m a time_s ≡ some (record m { next_seq = m.next_seq + 1 }, receipt_of c)
  unfolding mint secret_slice
  mint_lem c mode fits word h = rw mode (ground (arith, h))

  verify_lem :
      (v : Validator) (now_s : ℕ) (c : Code)
      → v.mode ≡ ReceiptMode.sequence
      → v.secret_len ≤ 32
      → v.expected_seq ≤ m.next_seq
      → m.next_seq < seq_end v
      → hotp hmac (take v.secret_len v.secret) (msg kind_seq a m.next_seq) v.digits ≡ some c
      → verify hmac v (receipt_of c) now_s
        ≡ some (
          record v { expected_seq = m.next_seq + 1 },
          ReceiptCheck.valid (m.next_seq - v.expected_seq) 0,
        )
  unfolding verify check_seq secret_slice
  verify_lem v now_s c mode fits lo hi h = rw mode (ground (arith, h, code_eq_refl c))

  -- A paired minter and validator: while the minter's next counter is inside the validator's
  -- look-ahead, the lock mints a receipt, and the validator accepts it at every time, reports the
  -- events it missed, and expects the counter that the minter assigns next.
  pub verify-mint :
      (v : Validator) (now_s : ℕ)
      → Paired m v
      → v.expected_seq ≤ m.next_seq
      → m.next_seq < seq_end v
      → (m' : Receipts) × (r : Receipt) × (mint hmac m a time_s ≡ some (m', r))
        × (verify hmac v r now_s
            ≡ some (
              record v { expected_seq = m'.next_seq },
              ReceiptCheck.valid (m.next_seq - v.expected_seq) 0,
            ))
  verify-mint v now_s p lo hi =
      let (c, h) =
        hotp_returns hmac (take m.secret_len m.secret) (msg kind_seq a m.next_seq) m.digits
          p.small in
      (
        record m { next_seq = m.next_seq + 1 },
        receipt_of c,
        mint_lem c p.mints_seq p.fits (omega arith) h,
        verify_lem v now_s c p.checks_seq (omega (arith, p.len_eq, p.fits)) lo hi
            (rw (p.secret_eq, p.len_eq, p.digits_eq) h),
      )
