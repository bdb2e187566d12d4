-- ===== src/Provision/Delivery.antt =====
-- A configuration that is sent as the server sends it arrives and is committed
-- (firmware/ephemerkey-provision/src/lib.rs).
use mathlib.Core.List.{append_assoc, append-nil}
use ephemerkey.Common.{
  ℕ, suc, ◌%◌, ◌/◌, ◌+◌, ◌<◌, ◌≤◌, ◌≡◌, refl, ap, sym, ◌∙◌, false, some, ◌==◌, ltb, List, [], ◌∷◌,
  ◌++◌, length, take, drop, u32, arith, take-append, length-append, u32_bytes, get_u32-u32_bytes,
}
use ephemerkey.Wire.{le_bytes, from_le_bytes}
use ephemerkey.Provision.{
  StoreOps, Crates, Identity, Xfer, Provisioner, write_at, config_begin, config_chunk, ok_frame,
}
use ephemerkey.Provision.Session.{begin, chunk, chunk_of, handle, handle_all}

-- The pieces of a blob as frames, from an offset on.
abbrev pub chunk_frames : ℕ → List (List ℕ) → List (ℕ × List ℕ)
chunk_frames off [] = []
chunk_frames off (c ∷ cs) = (config_chunk, le_bytes off ++ c) ∷ chunk_frames (off + length c) cs

abbrev pub joined : List (List ℕ) → List ℕ
joined [] = []
joined (c ∷ cs) = c ++ joined cs

abbrev pub begin_payload : ℕ → ℕ → ℕ → List ℕ
begin_payload len seq crc = le_bytes len ++ (u32_bytes seq ++ u32_bytes crc)

write_at-take :
    (buf got piece : List ℕ)
    → take (length got) buf ≡ got
    → take (length got + length piece) (write_at buf (length got) piece) ≡ got ++ piece
write_at-take buf got piece h = rw h (
    ap (λ (n : ℕ). take n (got ++ (piece ++ drop (length got + length piece) buf)))
      (sym (length-append got piece))
    ∙ (ap (take (length (got ++ piece)))
          (sym (append_assoc got piece (drop (length got + length piece) buf)))
        ∙ take-append (got ++ piece) (drop (length got + length piece) buf)))

module _ {S : Type 0} (ops : StoreOps S) (crates : Crates) where
  pub handle_begin :
      (p : Provisioner S) (len seq crc : ℕ)
      → 0 < len
      → len ≤ 4096
      → seq < 4294967296
      → crc < 4294967296
      → handle ops crates p config_begin (begin_payload len seq crc) ≡ (
        record p { xfer = some (record { len = len; filled = 0; seq_hint = seq; crc = crc }) },
        (ok_frame, []),
      )
  unfolding handle begin
  handle_begin p len seq crc lo hi ls lc =
      let l : from_le_bytes (len % 256) (len / 256) ≡ len = omega arith in
      let z : (len == 0) ≡ false = ground arith in
      let m : ltb 4096 len ≡ false = ground arith in
      let s = get_u32-u32_bytes seq (u32_bytes crc) ls in
      let c = get_u32-u32_bytes crc [] lc in rw (l, z, m, s, c) refl

  handle_chunk :
      (p : Provisioner S) (x : Xfer) (off : ℕ) (piece : List ℕ)
      → p.xfer ≡ some x
      → x.len ≤ 4096
      → off + length piece ≤ x.len
      → handle ops crates p config_chunk (le_bytes off ++ piece) ≡ (
        record p {
          cfg_buf = write_at p.cfg_buf off piece;
          xfer = some (record x { filled = u32 (x.filled + length piece) });
        },
        (ok_frame, []),
      )
  unfolding handle chunk chunk_of
  handle_chunk p x off piece h lx fits =
      let l : from_le_bytes (off % 256) (off / 256) ≡ off = omega arith in
      let short : ltb (suc (suc (length piece))) 2 ≡ false = ground arith in
      let inside : ltb x.len (off + length piece) ≡ false = ground arith in
      rw (ap (λ r. chunk_of ops crates p r (le_bytes off ++ piece)) h)
        (rw (l, inside) (rw short refl))

  -- The bytes that have arrived are at the front of the buffer, and counted.
  pub record Holding (p : Provisioner S) (store : S) (id : Identity) (x : Xfer) (got : List ℕ)
      : Type 0 where
    pub stored : p.store ≡ store
    pub same_id : p.id ≡ id
    pub begun : p.xfer ≡ some (record x { filled = length got })
    pub held : take (length got) p.cfg_buf ≡ got

  chunk-Holding :
      (p : Provisioner S) (store : S) (id : Identity) (x : Xfer) (got piece : List ℕ)
      → Holding p store id x got
      → x.len ≤ 4096
      → length got + length piece ≤ x.len
      → Holding
          (handle ops crates p config_chunk (le_bytes (length got) ++ piece)).0
          store
          id
          x
          (got ++ piece)
  chunk-Holding p store id x got piece h lx fits =
      let n : u32 (length got + length piece) ≡ length (got ++ piece) =
        omega (arith, length-append got piece) in
      let e =
        handle_chunk p (record x { filled = length got }) (length got) piece h.begun lx fits in
      rw e (record {
        stored = h.stored;
        same_id = h.same_id;
        begun = ap (λ k. some (record x { filled = k })) n;
        held =
            ap (λ k. take k (write_at p.cfg_buf (length got) piece)) (length-append got piece)
            ∙ write_at-take p.cfg_buf got piece h.held;
      })

  -- Where the pieces from an offset on leave the device: with the whole in its buffer.
  pub chunks-Holding :
      (cs : List (List ℕ)) (p : Provisioner S) (store : S) (id : Identity) (x : Xfer) (got : List ℕ)
      → Holding p store id x got
      → x.len ≤ 4096
      → length got + length (joined cs) ≤ x.len
      → Holding
          (handle_all ops crates p (chunk_frames (length got) cs)).0
          store
          id
          x
          (got ++ joined cs)
  unfolding handle_all
  chunks-Holding [] p store id x got h lx fits = rw (append-nil got) h
  chunks-Holding (c ∷ cs) p store id x got h lx fits =
      let l = length-append c (joined cs) in
      let step = chunk-Holding p store id x got c h lx (omega arith) in
      let n = length-append got c in
      let rest =
        chunks-Holding cs (handle ops crates p config_chunk (le_bytes (length got) ++ c)).0 store id
          x (got ++ c) step lx (omega arith) in
      rw (sym n, sym (append_assoc got c (joined cs))) rest
