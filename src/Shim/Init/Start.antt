-- ===== src/Shim/Init/Start.antt =====
-- The part of `soem_initialize` that runs on a mapped bus: it ends, and leaves the bus mapped.
use Prim.Native.String.{String}
use xeryon_ether_cat.Base.{
  ℕ, zero, suc, pos, true, none, some, ◌≡◌, refl, ◌+◌, ◌*◌, arith, Bool, ◌==ℤ◌, if◌then◌else◌,
  ltb_ℤ, pos_part, signed32, false,
}
use xeryon_ether_cat.Soem.{Net, Platform, ec_timeoutstate}
use xeryon_ether_cat.Soem.EcState
use xeryon_ether_cat.Soem.Mapping.{KeepsMapping}
use xeryon_ether_cat.Shim.{St, Call, valid, LogLevel, info, pure, net_of, after_call, err}
use xeryon_ether_cat.Shim.Log.{log_message, log_err, log_info}
use xeryon_ether_cat.Shim.Mapped.{IsMapped}
use xeryon_ether_cat.Shim.Runs.{
  Runs, Runs->>=, Stays, Stays-refl, Stays-trans, same-Stays, after_call-Stays,
}
use xeryon_ether_cat.Shim.Pdo.{soem_write_rxpdo, soem_read_txpdo}
use xeryon_ether_cat.Shim.Pdo.Image.{IsRxPdo}
use xeryon_ether_cat.Shim.Pdo.Calls.{write-Stays, read-Stays}
use xeryon_ether_cat.Shim.Exchange.{soem_exchange_process_data}
use xeryon_ether_cat.Shim.Exchange.Cycle.{soem_exchange_process_data-codes}
use xeryon_ether_cat.Shim.Recover.{check_state, write_state}
use xeryon_ether_cat.Shim.Recover.Steps.{check_state-Runs, write_state-Runs}
use xeryon_ether_cat.Shim.Init.{
  nop, zero_txpdo, stage_nops, read_inputs, probe_bus, go_operational, set_lengths, start_bus,
}

pub nop-IsRxPdo : IsRxPdo nop
nop-IsRxPdo = record {
  command = refl;
  parameter = omega arith;
  velocity = omega arith;
  acceleration = omega arith;
  deceleration = omega arith;
  execute = omega arith;
}

module _ {X : Type 0} ⦃p : Platform X⦄ where
  pub log_message-Stays :
      (lvl : LogLevel) (message : String) (s : St X)
      → IsMapped s
      → Runs (log_message lvl message) s (λ _ t. Stays s t)
  log_message-Stays lvl message s m = (tt, _, refl, same-Stays s _ refl refl refl refl m)

  -- A message that depends on a test.
  pub if_then_log-Stays :
      (b : Bool) (message : String) (s : St X)
      → IsMapped s
      → Runs (if b then log_err message else pure tt) s (λ _ t. Stays s t)
  if_then_log-Stays true message s m = log_message-Stays err message s m
  if_then_log-Stays false message s m = (tt, s, refl, Stays-refl s m)

  pub if_not_log-Stays :
      (b : Bool) (message : String) (s : St X)
      → IsMapped s
      → Runs (if b then pure tt else log_info message) s (λ _ t. Stays s t)
  if_not_log-Stays true message s m = (tt, s, refl, Stays-refl s m)
  if_not_log-Stays false message s m = log_message-Stays info message s m

  stage_nops-Stays :
      (left i : ℕ) (s : St X) → IsMapped s → Runs (stage_nops left i) s (λ _ t. Stays s t)
  unfolding stage_nops
  stage_nops-Stays zero i s m = (tt, s, refl, Stays-refl s m)
  stage_nops-Stays (suc left) i s m =
      Runs->>= (soem_write_rxpdo valid (pos i) (some nop)) _ s
        (write-Stays (pos i) nop s nop-IsRxPdo m)
        λ written s1 q1.
          Runs->>=
            (if written ==ℤ pos 0 then log_err "write_rxpdo failed for slave %d" else pure tt) _ s1
            (if_then_log-Stays (written ==ℤ pos 0) _ s1 q1.mapped)
            λ _ s2 q2.
              let (a, t, e, q) = stage_nops-Stays left (i + 1) s2 q2.mapped in
              (a, t, e, Stays-trans q1 (Stays-trans q2 q))

  read_inputs-Stays :
      (left i : ℕ) (s : St X) → IsMapped s → Runs (read_inputs left i) s (λ _ t. Stays s t)
  unfolding read_inputs
  read_inputs-Stays zero i s m = (tt, s, refl, Stays-refl s m)
  read_inputs-Stays (suc left) i s m =
      Runs->>= (soem_read_txpdo valid (pos i) (some zero_txpdo)) _ s
        (read-Stays (pos i) zero_txpdo s m)
        λ r s1 q1.
          Runs->>= (if r.0 ==ℤ pos 0 then pure tt else log_info "Slave %d ActualPosition=%d") _ s1
            (if_not_log-Stays (r.0 ==ℤ pos 0) _ s1 q1.mapped)
            λ _ s2 q2.
              let (a, t, e, q) = read_inputs-Stays left (i + 1) s2 q2.mapped in
              (a, t, e, Stays-trans q1 (Stays-trans q2 q))

module _ {X : Type 0} ⦃p : Platform X⦄ (keeps : KeepsMapping p) where
  probe_bus-Stays : (s : St X) → IsMapped s → Runs probe_bus s (λ _ t. Stays s t)
  unfolding probe_bus
  probe_bus-Stays s m =
      Runs->>= (soem_exchange_process_data valid none (pos 0) none (pos 0) (pos 2000)) _ s
        (let (mem, rc, out, t, prepared, e, q, codes) =
            soem_exchange_process_data-codes none none (pos 0) (pos 0) (pos 2000) s keeps m tt tt in
          ((rc, out), t, e, q))
        λ r s1 q1.
          let (a, t, e, q) =
            if_then_log-Stays (ltb_ℤ r.0 (pos 0)) "probe exchange failed rc=%d" s1 q1.mapped in
          (a, t, e, Stays-trans q1 q)

  go_operational-Stays : (s : St X) → IsMapped s → Runs go_operational s (λ _ t. Stays s t)
  unfolding go_operational
  go_operational-Stays s m =
      Runs->>= (check_state 0 EcState.safe_op (pos (ec_timeoutstate * 4))) _ s
        (check_state-Runs keeps 0 EcState.safe_op (pos (ec_timeoutstate * 4)) s m)
        λ _ s1 q1.
          Runs->>= (write_state 0 EcState.operational) _ s1
            (write_state-Runs keeps 0 EcState.operational s1 q1.0.mapped (omega arith))
            λ _ s2 q2.
              Runs->>= (check_state 0 EcState.operational (pos ec_timeoutstate)) _ s2
                (check_state-Runs keeps 0 EcState.operational (pos ec_timeoutstate) s2 q2.0.mapped)
                λ _ s3 q3. (tt, s3, refl, Stays-trans q1.0 (Stays-trans q2.0 q3.0))

  pub set_lengths-Stays : (s : St X) → IsMapped s → Runs set_lengths s (λ _ t. Stays s t)
  unfolding set_lengths
  set_lengths-Stays s m = (
    tt,
    record s {
      handle = record s.handle {
        output_length = signed32 s.handle.context.group.obytes;
        input_length = signed32 s.handle.context.group.ibytes;
      };
    },
    ground (arith, m.live),
    same-Stays s _ refl refl refl refl m,
  )

  pub start_bus-Stays : (s : St X) → IsMapped s → Runs start_bus s (λ r t. (r ≡ valid) × Stays s t)
  unfolding start_bus
  start_bus-Stays s m =
      let n : Net X = p.ecx_configdc (net_of s) in
      let s0 : St X = after_call Call.config_dc s n in
      let q0 : Stays s s0 = after_call-Stays Call.config_dc s n (keeps.configdc (net_of s)) m in
      let count : ℕ = pos_part s0.handle.context.slavecount in
      let (r, t, e, q) =
        Runs->>= (stage_nops count 1) _ s0 (stage_nops-Stays count 1 s0 q0.mapped) λ _ s1 q1.
          Runs->>= probe_bus _ s1 (probe_bus-Stays s1 q1.mapped) λ _ s2 q2.
            Runs->>= (read_inputs count 1) _ s2 (read_inputs-Stays count 1 s2 q2.mapped) λ _ s3 q3.
              Runs->>= go_operational _ s3 (go_operational-Stays s3 q3.mapped) λ _ s4 q4.
                Runs->>= set_lengths (λ _. pure valid) s4 {R = λ r t. (r ≡ valid) × Stays s t}
                  (set_lengths-Stays s4 q4.mapped)
                  λ _ s5 q5. (
                    valid,
                    s5,
                    refl,
                    (
                      refl,
                      Stays-trans q0
                          (Stays-trans q1 (Stays-trans q2 (Stays-trans q3 (Stays-trans q4 q5)))),
                    ),
                  ) in
      (r, t, ground (arith, m.live, e), q)
