-- ===== src/Receipt/Relay.antt =====
-- What the remote side learns from a receipt that it accepts by its event counter.
use ephemerkey.Common.{
  ℕ, zero, suc, ◌+◌, ◌≡◌, ◌<◌, Bool, true, false, Option, none, some, List, take, arith, refl,
  sub32, ◌==◌, Bool-cases, inl, inr, >>=-eq-some,
}
use mathlib.Core.Path.{subst}
use ephemerkey.Policy.{Action}
use ephemerkey.Totp.{Code, code_eq, hotp}
use ephemerkey.Receipt.{Receipt, has_seq, has_time, kind_seq, kind_time, msg, secret_slice}
use ephemerkey.Receipt.Check.{
  ReceiptCheck, Validator, Proof, ok, err, seq_end, check_seq, search_time, check_time, seq_proof,
  time_proof, commit, after_time, after_seq, verify,
}

code_eq-eq : (a b : Code) → code_eq a b ≡ true → a ≡ b
code_eq-eq a b h = ground arith

-- A proof that fails is no valid one.
abbrev Refused : Proof → Type 0
Refused (ok s) = Unit {0}
Refused (err (ReceiptCheck.valid s d)) = ⊥
Refused (err ReceiptCheck.bad_code) = Unit {0}
Refused (err ReceiptCheck.replay) = Unit {0}
Refused (err ReceiptCheck.too_far_ahead) = Unit {0}
Refused (err ReceiptCheck.out_of_window) = Unit {0}
Refused (err ReceiptCheck.mode_mismatch) = Unit {0}

module _ (hmac : List ℕ → List ℕ → List ℕ) where
  -- The counter is one of those that the validator still expects, and the lock's secret mints the
  -- code for it and for the action.
  pub record Proved (v : Validator) (a : Action) (seq : ℕ) (code : Code) (skipped : ℕ)
      : Type 0 where
    pub expected : seq ≡ v.expected_seq + skipped
    pub ahead : seq < seq_end v
    pub minted : hotp hmac (take v.secret_len v.secret) (msg kind_seq a seq) v.digits ≡ some code

  abbrev SeqProof : Validator → Action → ℕ → Code → Proof → Type 0
  SeqProof v a seq code (ok s) = Proved v a seq code s
  SeqProof v a seq code (err e) = Refused (err e)

  check_seq-SeqProof :
      (v : Validator) (a : Action) (seq : ℕ) (code : Code) (p : Proof)
      → check_seq hmac v a seq code ≡ some p
      → SeqProof v a seq code p
  unfolding check_seq secret_slice
  check_seq-SeqProof v a seq code (ok s) h = record {
    expected = ground arith;
    ahead = ground arith;
    minted = ground arith;
  }
  check_seq-SeqProof v a seq code (err (ReceiptCheck.valid s d)) h = ground arith
  check_seq-SeqProof v a seq code (err ReceiptCheck.bad_code) h = tt
  check_seq-SeqProof v a seq code (err ReceiptCheck.replay) h = tt
  check_seq-SeqProof v a seq code (err ReceiptCheck.too_far_ahead) h = tt
  check_seq-SeqProof v a seq code (err ReceiptCheck.out_of_window) h = tt
  check_seq-SeqProof v a seq code (err ReceiptCheck.mode_mismatch) h = tt

  search_time-Refused :
      (fuel : ℕ) (k : List ℕ) (d : ℕ) (a : Action) (code : Code) (now_s c lo : ℕ) (p : Proof)
      → search_time hmac fuel k d a code now_s c lo ≡ some p
      → Refused p
  unfolding search_time
  search_time-Refused zero k d a code now_s c lo p h = absurd (cc)
  search_time-Refused (suc fuel) k d a code now_s c lo p h =
      let (m, e, rest) = >>=-eq-some (hotp hmac k (msg kind_time a c) d) _ h in
      elim (Bool-cases (code_eq m code)) [
        | inl same ↦ refused p (rw same at rest)
        | inr other ↦ elim (Bool-cases (c == lo)) [
          | inl last ↦ outside p (rw (other, last) at rest)
          | inr more ↦
              search_time-Refused fuel k d a code now_s (sub32 c 1) lo p (rw (other, more) at rest)
        ]
      ]
    where
      refused : {s : ℕ} (p : Proof) → some (ok s) ≡ some p → Refused p
      refused {s} p e = let q : ok s ≡ p = cc in subst Refused q tt

      outside : (p : Proof) → some (err ReceiptCheck.out_of_window) ≡ some p → Refused p
      outside p e = let q : err ReceiptCheck.out_of_window ≡ p = cc in subst Refused q tt

  time_proof-Refused :
      (v : Validator) (r : Receipt) (now_s : ℕ) (b : Bool) (o : Option Code) (p : Proof)
      → time_proof hmac v r now_s b o ≡ some p
      → Refused p
  unfolding check_time
  time_proof-Refused v r now_s false o p h = let q : ok 0 ≡ p = cc in subst Refused q tt
  time_proof-Refused v r now_s true none p h =
      let q : err ReceiptCheck.mode_mismatch ≡ p = cc in subst Refused q tt
  time_proof-Refused v r now_s true (some code) p h =
      let (k, e, rest) = >>=-eq-some (secret_slice v.secret v.secret_len) _ h in
      search_time-Refused _ k v.digits r.action code now_s _ _ p rest

  abbrev CodeProof : Validator → Receipt → Option Code → Proof → Type 0
  CodeProof v r o (ok s) = (c : Code) × (o ≡ some c) × Proved v r.action r.seq c s
  CodeProof v r o (err e) = Refused (err e)

  seq_proof-CodeProof :
      (v : Validator) (r : Receipt) (b : Bool) (o : Option Code) (p : Proof)
      → b ≡ true
      → seq_proof hmac v r b o ≡ some p
      → CodeProof v r o p
  seq_proof-CodeProof v r false o p t h = absurd (cc)
  seq_proof-CodeProof v r true none p t h =
      let q : err ReceiptCheck.mode_mismatch ≡ p = cc in subst (CodeProof v r none) q tt
  seq_proof-CodeProof v r true (some c) (ok s) t h =
      (c, refl, check_seq-SeqProof v r.action r.seq c (ok s) h)
  seq_proof-CodeProof v r true (some c) (err e) t h =
      check_seq-SeqProof v r.action r.seq c (err e) h

  -- A receipt is accepted only by two proofs that hold.
  accepted_time :
      (v v' : Validator) (r : Receipt) (sk s d : ℕ) (p : Proof)
      → Refused p
      → after_time hmac v r sk p ≡ some (v', ReceiptCheck.valid s d)
      → (sk ≡ s) × (commit hmac v r ≡ v')
  accepted_time v v' r sk s d (ok x) n h = ground arith
  accepted_time v v' r sk s d (err e) n h =
      let q : e ≡ ReceiptCheck.valid s d = cc in absurd (subst (λ x. Refused (err x)) q n)

  accepted_seq :
      (v v' : Validator) (r : Receipt) (now_s s d : ℕ) (p : Proof)
      → CodeProof v r r.seq_code p
      → after_seq hmac v r now_s p ≡ some (v', ReceiptCheck.valid s d)
      → CodeProof v r r.seq_code (ok s) × (commit hmac v r ≡ v')
  accepted_seq v v' r now_s s d (ok x) cp h =
      let (p, e, rest) =
        >>=-eq-some (time_proof hmac v r now_s (has_time v.mode) r.time_code) _ h in
      let (same, c) =
        accepted_time v v' r x s d p
          (time_proof-Refused v r now_s (has_time v.mode) r.time_code p e) rest in
      (subst (λ y. CodeProof v r r.seq_code (ok y)) same cp, c)
  accepted_seq v v' r now_s s d (err e) cp h =
      let q : e ≡ ReceiptCheck.valid s d = cc in absurd (subst (λ x. Refused (err x)) q cp)

  commit-seq :
      (v v' : Validator) (r : Receipt)
      → has_seq v.mode ≡ true
      → r.seq < seq_end v
      → commit hmac v r ≡ v'
      → (v'.expected_seq ≡ r.seq + 1) × (v'.mode ≡ v.mode)
  commit-seq v v' r is ahead c = ground arith

  replay_lem :
      (v : Validator) (r : Receipt) (now_s : ℕ) (c : Code)
      → has_seq v.mode ≡ true
      → r.seq_code ≡ some c
      → r.seq < v.expected_seq
      → verify hmac v r now_s ≡ some (v, ReceiptCheck.replay)
  unfolding verify check_seq
  replay_lem v r now_s c is at old = rw (is, at) (ground arith)

  -- A validator that checks the sequence accepts a receipt only if its event counter is the expected
  -- one plus the reported skips, inside the look-ahead, and the lock's secret mints the receipt's
  -- sequence code for the counter and the action; it then expects the next counter, and answers that
  -- receipt with `replay` at every later time, unchanged.
  pub verify_once :
      (v v' : Validator) (r : Receipt) (now_s skipped drift_s : ℕ)
      → has_seq v.mode ≡ true
      → verify hmac v r now_s ≡ some (v', ReceiptCheck.valid skipped drift_s)
      → (c : Code) × (r.seq_code ≡ some c)
        × Proved v r.action r.seq c skipped
        × (v'.expected_seq ≡ r.seq + 1)
        × ((later : ℕ) → verify hmac v' r later ≡ some (v', ReceiptCheck.replay))
  unfolding verify
  verify_once v v' r now_s s d is h =
      let (p, e, rest) = >>=-eq-some (seq_proof hmac v r (has_seq v.mode) r.seq_code) _ h in
      let ((c, at, proved), done) =
        accepted_seq v v' r now_s s d p (seq_proof-CodeProof v r (has_seq v.mode) r.seq_code p is e)
          rest in
      let (next, mode) = commit-seq v v' r is proved.ahead done in
      let is' : has_seq v'.mode ≡ true = rw mode is in
      (c, at, proved, next, λ later. replay_lem v' r later c is' at (omega arith))
