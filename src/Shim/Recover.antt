-- ===== src/Shim/Recover.antt =====
-- `soem_try_recover` of native/soemshim/soem_shim.c with `is_slave_really_op` and
-- `force_full_reinit_slave`.
pub mod Steps
pub mod Reinit
pub mod Loops
pub mod Verify
pub mod Success
pub mod Cooperates
pub mod Reaches
pub mod Up
pub mod Succeeds
use xeryon_ether_cat.Base.{
  ℕ, zero, suc, ℤ, pos, Bool, true, false, not, none, ◌+◌, ltb, ltb_ℤ, leb_ℤ, ◌==◌, ◌&&◌, ◌||◌,
  bit_and, pos_part, if◌then◌else◌, ◌==ℤ◌,
}
use xeryon_ether_cat.Soem.{Slave, Platform, ec_maxslave}
use xeryon_ether_cat.Soem.EcState
use xeryon_ether_cat.Shim.{
  M, Handle, Pointer, null, valid, Call, pure, ◌>>=◌, ◌>>◌, get_handle, get_context, get_group,
  get_slave, put_slave_state, soem_call, soem_do, mul_int,
}
use xeryon_ether_cat.Shim.Log.{log_info, log_warn, log_err}
use xeryon_ether_cat.Shim.Pdo.{out_of_range}
use xeryon_ether_cat.Shim.Exchange.{expected_wkc}

-- `for (int i = ...; i <= h->context.slavecount; ++i)`, which reads `slavecount` in every round.
-- With the fuel `ec_maxslave` from 1 on it ends before the fuel does, or has left the array.
pub for_slaves : {X A : Type 0} → ℕ → ℕ → A → (ℕ → A → M X A) → M X A
for_slaves zero i a body s = none
for_slaves (suc fuel) i a body s =
    (do
      c ← get_context
      elim (leb_ℤ (pos i) c.slavecount) [
        | true ↦ (do next ← body i a; for_slaves fuel (i + 1) next body)
        | false ↦ pure a
      ])
      s

-- `last_expected_wkc > 0 && last_wkc >= 0 && last_wkc < last_expected_wkc`
abbrev pub wkc_bad : Handle → Bool
wkc_bad h =
    ltb_ℤ (pos 0) h.last_expected_wkc
    && leb_ℤ (pos 0) h.last_wkc
    && ltb_ℤ h.last_wkc h.last_expected_wkc

-- The conditions of `unhealthy`.
abbrev pub unhealthy : Slave → Bool → Bool → Bool
unhealthy slave bad really_op =
    not (bit_and slave.state EcState.error == 0)
    || not (slave.state == EcState.operational)
    || not (slave.islost == 0)
    || (bad && not really_op)

module _ {X : Type 0} ⦃p : Platform X⦄ where
  -- `ecx_statecheck`
  abbrev pub check_state : ℕ → ℕ → ℤ → M X ℕ
  check_state i want timeout_us =
      soem_call (Call.state_check i want timeout_us) (p.ecx_statecheck i want timeout_us)

  -- `slavelist[i].state = st; ecx_writestate(&h->context, i);`
  abbrev pub write_state : ℕ → ℕ → M X (Unit {0})
  write_state i st = do put_slave_state i st; soem_do (Call.write_state i st) (p.ecx_writestate i)

  abbrev pub usleep : ℕ → M X (Unit {0})
  usleep us = soem_do (Call.sleep us) (p.osal_usleep us)

  abbrev pub send_processdata : M X ℤ
  send_processdata = soem_call Call.send p.ecx_send_processdata

  abbrev pub receive_processdata : ℤ → M X ℤ
  receive_processdata timeout_us =
      soem_call (Call.receive timeout_us) (p.ecx_receive_processdata timeout_us)

  pub is_slave_really_op : ℕ → M X Bool
  is_slave_really_op i = do
    rc ← check_state i EcState.operational (pos 1000)
    pure (rc == EcState.operational)

  -- One step of `force_full_reinit_slave`: a state is asked for and waited for.
  pub request_state : ℕ → ℤ → ℕ → M X ℕ
  request_state i timeout_ms st = do
    write_state i st
    timeout_us ← mul_int timeout_ms 1000
    check_state i st timeout_us

  -- The body of `force_full_reinit_slave` behind its checks.
  pub reinit_slave : ℕ → ℤ → M X ℤ
  reinit_slave i timeout_ms = do
    in_init ← request_state i timeout_ms EcState.init
    in_pre_op ← request_state i timeout_ms EcState.pre_op
    in_safe_op ← request_state i timeout_ms EcState.safe_op
    rc ← request_state i timeout_ms EcState.operational
    if rc == EcState.operational
        then (do
          log_info "force_full_reinit_slave(%d): slave reached OP cleanly (AL=0x%04x)"
          pure (pos 1))
        else (do
          log_err "force_full_reinit_slave(%d): failed to reach OP (rc=0x%04x AL=0x%04x)"
          pure (pos 0))

  pub force_full_reinit_slave : Pointer → ℤ → ℤ → M X ℤ
  force_full_reinit_slave null slave timeout_ms = pure (pos 0)
  force_full_reinit_slave valid slave timeout_ms = do
    c ← get_context
    if out_of_range slave c then pure (pos 0) else reinit_slave (pos_part slave) timeout_ms

  -- What the first loop does with an unhealthy slave, which it counts.
  pub recover_slave : ℤ → ℕ → ℕ → M X ℕ
  recover_slave timeout_ms i error_count = do
    log_warn "Slave %d not healthy (state=0x%04x AL=0x%04x islost=%d). Forcing full reinit."
    reached ← force_full_reinit_slave valid (pos i) timeout_ms
    if reached ==ℤ pos 0 then log_err "Slave %d failed full reinit to OP" else pure tt
    pure (error_count + 1)

  -- The body of the first loop.
  pub check_slave : ℤ → ℕ → ℕ → M X ℕ
  check_slave timeout_ms i error_count = do
    h ← get_handle
    really_op ← is_slave_really_op i
    slave ← get_slave i
    if unhealthy slave (wkc_bad h) really_op
        then recover_slave timeout_ms i error_count
        else pure error_count

  -- `n` cycles whose results nobody looks at.
  pub stabilize : ℕ → M X (Unit {0})
  stabilize zero s = pure tt s
  stabilize (suc n) s =
      (do sent ← send_processdata; wkc ← receive_processdata (pos 2000); usleep 2000; stabilize n) s

  -- Up to `n` attempts to get a working counter of at least `expected`.
  pub verify_wkc : ℤ → ℕ → M X Bool
  verify_wkc expected zero s = pure false s
  verify_wkc expected (suc n) s =
      (do
        sent ← send_processdata
        wkc ← receive_processdata (pos 2000)
        log_info "Recovery WKC check attempt %d: wkc=%d expected=%d"
        elim (leb_ℤ expected wkc) [
          | true ↦ pure true
          | false ↦ (do usleep 5000; verify_wkc expected n)
        ])
        s

  -- The body of the last loop.
  pub check_op : ℕ → Bool → M X Bool
  check_op i all_op = do
    slave ← get_slave i
    if slave.state == EcState.operational
        then pure all_op
        else (do log_err "Slave %d not OPERATIONAL after recovery (state=0x%04x)"; pure false)

  -- What follows the check of the working counter.
  pub conclude_recovery : Bool → M X ℤ
  conclude_recovery wkc_ok =
      if not wkc_ok
      then (do log_err "Recovery failed: WKC still low after 5 attempts"; pure (pos 0))
      else (do
        all_op ← for_slaves ec_maxslave 1 true check_op
        if all_op && wkc_ok
            then (do
              log_info "Recovery successful: all slaves OPERATIONAL with good WKC"
              pure (pos 1))
            else pure (pos 0))

  -- What follows the check of the group's state, which was found to be `rc`.
  pub judge_group : ℤ → ℕ → M X ℤ
  judge_group expected rc =
      if not (rc == EcState.operational)
      then (do
        log_err "Group failed to reach OPERATIONAL (got state=0x%04x) in %d ms"
        pure (pos 0))
      else (do wkc_ok ← verify_wkc expected 5; conclude_recovery wkc_ok)

  -- What follows the cycles that stabilize the bus.
  pub verify_recovery : ℤ → ℤ → M X ℤ
  verify_recovery expected timeout_ms = do
    timeout_us ← mul_int timeout_ms 1000
    rc ← check_state 0 EcState.operational timeout_us
    judge_group expected rc

  -- What follows the first loop.
  pub finish_recovery : ℤ → ℤ → ℕ → M X ℤ
  finish_recovery expected timeout_ms error_count = do
    if ltb 0 error_count then usleep 10000 else pure tt
    write_state 0 EcState.operational
    stabilize 5
    verify_recovery expected timeout_ms

  -- `soem_try_recover`
  unfoldable pub soem_try_recover : Pointer → ℤ → M X ℤ
  soem_try_recover null timeout_ms = pure (pos 0)
  soem_try_recover valid timeout_ms = do
    g ← get_group
    log_warn "Starting recovery (expected_wkc=%d, last_wkc=%d)"
    soem_do Call.read_state p.ecx_readstate
    error_count ← for_slaves ec_maxslave 1 0 (check_slave timeout_ms)
    finish_recovery (expected_wkc g) timeout_ms error_count
