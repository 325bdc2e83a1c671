-- ===== src/Shim/Exchange.antt =====
-- `soem_exchange_process_data` of soem_shim.c: one cycle of the bus.
pub mod Buffers
pub mod Cycle
pub mod Fresh
use xeryon_ether_cat.Base.{
  ℕ, zero, suc, ℤ, pos, Option, none, some, Bool, not, List, [], ◌∷◌, ◌++◌, ◌+◌, ◌*◌, ◌≤◌, ltb, leb,
  ltb_ℤ, leb_ℤ, ◌==◌, ◌&&◌, signed32, length, take, drop, replicate, pos_part, if◌then◌else◌,
}
use xeryon_ether_cat.Soem.{Group, Platform}
use xeryon_ether_cat.Shim.{
  M, Pointer, null, valid, Call, pure, ◌>>=◌, ◌>>◌, get_group, deref, view, soem_call, bad_args,
  send_fail, recv_fail, wkc_low,
}
use xeryon_ether_cat.Shim.Log.{log_err, log_warn}
use xeryon_ether_cat.Shim.Pdo.{put_bytes}

-- `(int)(g->outputsWKC * 2 + g->inputsWKC)`
abbrev pub expected_wkc : Group → ℤ
expected_wkc g = pos (g.outputs_wkc * 2 + g.inputs_wkc)

-- `len < (int)bytes ? len : (int)bytes`, for a `uint32` number of bytes.
abbrev pub clamped_copy : ℤ → ℕ → ℤ
clamped_copy len bytes = if ltb_ℤ len (signed32 bytes) then len else signed32 bytes

-- The `n` bytes from `at` on.
abbrev pub bytes_from : (ℕ → ℕ) → ℕ → List ℕ
bytes_from mem zero = []
bytes_from mem (suc n) = mem 0 ∷ bytes_from (λ k. mem (suc k)) n

-- The first `n` bytes of a caller's buffer, which must have as many.
abbrev pub read_buffer : {X : Type 0} → List ℕ → ℕ → M X (List ℕ)
read_buffer buf n s = if leb n (length buf) then some (take n buf, s) else none

-- A caller's buffer with other bytes at its start.
abbrev pub write_buffer : {X : Type 0} → List ℕ → ℕ → (ℕ → ℕ) → M X (Option (List ℕ))
write_buffer buf n bytes s =
    if leb n (length buf) then some (some (bytes_from bytes n ++ drop n buf), s) else none

module _ {X : Type 0} where
  -- "Prepare outputs": the group's outputs are cleared and get what the caller passes, or stay as
  -- they are if there is none of them or the caller passes nothing.
  pub prepare_outputs : Option (List ℕ) → ℤ → M X (Unit {0})
  prepare_outputs none outputs_len = pure tt
  prepare_outputs (some outputs) outputs_len = do
    g ← get_group
    if not (g.obytes == 0) && ltb_ℤ (pos 0) outputs_len
        then (do
          at ← deref g.outputs
          put_bytes at (replicate g.obytes 0)
          let copy = clamped_copy outputs_len g.obytes
          if ltb_ℤ (pos 0) copy
              then (do bytes ← read_buffer outputs (pos_part copy); put_bytes at bytes)
              else pure tt)
        else pure tt

  -- "Copy inputs up to Ibytes"
  pub copy_inputs : Option (List ℕ) → ℤ → M X (Option (List ℕ))
  copy_inputs none inputs_len = pure none
  copy_inputs (some inputs) inputs_len = do
    g ← get_group
    let copy = clamped_copy inputs_len g.ibytes
    if ltb_ℤ (pos 0) inputs_len && not (g.ibytes == 0) && ltb_ℤ (pos 0) copy
        then (do
          at ← deref g.inputs
          bytes ← view at (pos_part copy)
          write_buffer inputs (pos_part copy) bytes)
        else pure (some inputs)

  -- `h->last_wkc = wkc; h->last_expected_wkc = expected;`
  abbrev pub set_last_wkc : ℤ → ℤ → M X (Unit {0})
  set_last_wkc wkc expected s =
      if s.allocated
      then some (
        tt,
        record s { handle = record s.handle { last_wkc = wkc; last_expected_wkc = expected } },
      )
      else none

module _ {X : Type 0} ⦃p : Platform X⦄ where
  -- The tests of the working counter at the end.
  pub judge_wkc : ℤ → ℤ → M X ℤ
  judge_wkc wkc expected =
      if leb_ℤ expected (pos 0)
      then (do log_warn "Expected WKC is %d (check mapping). Returning wkc=%d"; pure wkc)
      else (if ltb_ℤ wkc expected
          then (do
            log_err "WKC low: got=%d expected=%d (Obytes=%u Ibytes=%u, oWKC=%u iWKC=%u)"
            pure wkc_low)
          else pure wkc)

  -- What follows a frame that was sent.
  pub receive_cycle : Option (List ℕ) → ℤ → ℤ → ℤ → M X (ℤ × Option (List ℕ))
  receive_cycle inputs inputs_len timeout_us expected = do
    wkc ← soem_call (Call.receive timeout_us) (p.ecx_receive_processdata timeout_us)
    set_last_wkc wkc expected
    if ltb_ℤ wkc (pos 0)
        then (do
          log_err "ecx_receive_processdata failed rc=%d (expected WKC=%d, timeout_us=%d)"
          pure (recv_fail, inputs))
        else (do
          inputs' ← copy_inputs inputs inputs_len
          rc ← judge_wkc wkc expected
          pure (rc, inputs'))

  -- What follows the preparation of the outputs.
  pub run_cycle : Option (List ℕ) → ℤ → ℤ → M X (ℤ × Option (List ℕ))
  run_cycle inputs inputs_len timeout_us = do
    wkc ← soem_call Call.send p.ecx_send_processdata
    g ← get_group
    if ltb_ℤ wkc (pos 0)
        then (do
          log_err "ecx_send_processdata failed rc=%d (expected WKC=%d)"
          pure (send_fail, inputs))
        else receive_cycle inputs inputs_len timeout_us (expected_wkc g)

  -- `soem_exchange_process_data`: a buffer is `none` for NULL, and `inputs` comes back as it is
  -- left.
  pub soem_exchange_process_data :
      Pointer → Option (List ℕ) → ℤ → Option (List ℕ) → ℤ → ℤ → M X (ℤ × Option (List ℕ))
  soem_exchange_process_data null outputs outputs_len inputs inputs_len timeout_us =
      pure (bad_args, inputs)
  soem_exchange_process_data valid outputs outputs_len inputs inputs_len timeout_us = do
    prepare_outputs outputs outputs_len
    run_cycle inputs inputs_len (if ltb_ℤ timeout_us (pos 0) then pos 0 else timeout_us)
