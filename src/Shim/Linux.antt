-- ===== src/Shim/Linux.antt =====
-- `soem_try_recover` of native/soemshim-linux/soem_shim.c, the one function whose logic differs
-- from native/soemshim/soem_shim.c.
pub mod Shared
pub mod Types
pub mod Ends
pub mod Stale
pub mod Verdict
pub mod Contrast
use xeryon_ether_cat.Base.{
  ℕ, zero, suc, ℤ, pos, Bool, true, false, not, none, ◌+◌, leb_ℤ, ◌==◌, bit_and, bit_or,
  if◌then◌else◌,
}
use xeryon_ether_cat.Soem.{Platform, ec_maxslave}
use xeryon_ether_cat.Soem.EcState
use xeryon_ether_cat.Shim.{
  M, Pointer, null, valid, Call, pure, ◌>>=◌, ◌>>◌, get_context, get_slave, soem_do, mul_int,
}
use xeryon_ether_cat.Shim.Log.{log_info, log_warn}
use xeryon_ether_cat.Shim.Recover.{
  for_slaves, check_state, write_state, send_processdata, receive_processdata,
}

-- `(uint16)(EC_STATE_SAFE_OP | EC_STATE_ACK)`
abbrev pub safe_op_ack : ℕ
safe_op_ack = bit_or EcState.safe_op EcState.ack

-- The last loop, which breaks off at the first slave that is not OPERATIONAL.
pub all_operational : {X : Type 0} → ℕ → ℕ → M X Bool
all_operational zero i s = none
all_operational (suc fuel) i s =
    (do
      c ← get_context
      elim (leb_ℤ (pos i) c.slavecount) [
        | true ↦ (do
          slave ← get_slave i
          elim (slave.state == EcState.operational) [
            | true ↦ all_operational fuel (i + 1)
            | false ↦ pure false
          ])
        | false ↦ pure true
      ])
      s

module _ {X : Type 0} ⦃p : Platform X⦄ where
  -- The body of the first loop: an error is acknowledged.
  pub acknowledge_slave : ℕ → Unit {0} → M X (Unit {0})
  acknowledge_slave i u = do
    slave ← get_slave i
    if not (bit_and slave.state EcState.error == 0) then write_state i safe_op_ack else pure tt

  -- `n` cycles whose results nobody looks at.
  pub run_cycles : ℕ → M X (Unit {0})
  run_cycles zero s = pure tt s
  run_cycles (suc n) s =
      (do sent ← send_processdata; wkc ← receive_processdata (pos 1000); run_cycles n) s

  -- What follows the check of the group's state, which was found to be `rc`.
  pub judge_group : ℕ → M X ℤ
  judge_group rc =
      if not (rc == EcState.operational)
      then (do log_warn "Group failed to reach OP in %d ms"; pure (pos 0))
      else (do
        log_info "Recovery OK"
        ok ← all_operational ec_maxslave 1
        pure (if ok then pos 1 else pos 0))

  -- What follows the first loop.
  pub finish_recovery : ℤ → Unit {0} → M X ℤ
  finish_recovery timeout_ms u = do
    write_state 0 EcState.operational
    run_cycles 3
    timeout_us ← mul_int timeout_ms 1000
    rc ← check_state 0 EcState.operational timeout_us
    judge_group rc

  unfoldable pub soem_try_recover : Pointer → ℤ → M X ℤ
  soem_try_recover null timeout_ms = pure (pos 0)
  soem_try_recover valid timeout_ms = do
    soem_do Call.read_state p.ecx_readstate
    u ← for_slaves ec_maxslave 1 tt acknowledge_slave
    finish_recovery timeout_ms u
