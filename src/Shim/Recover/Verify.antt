-- ===== src/Shim/Recover/Verify.antt =====
-- `soem_try_recover`: it always comes to an end, and what success means.
use mathlib.Core.Path.{subst}
use xeryon_ether_cat.Base.{
  ℕ, zero, suc, ℤ, pos, pos_part, Bool, true, false, List, ◌∷◌, ◌≡◌, refl, sym, ◌+◌, ◌≤◌, ◌<◌, ◌≤ℤ◌,
  ◌⊎◌, inl, inr, arith, Bool-cases, ◌==◌, leb_ℤ, some, ◌&&◌, ◌==ℤ◌,
}
use xeryon_ether_cat.Soem.{Platform, ec_maxslave}
use xeryon_ether_cat.Soem.EcState
use xeryon_ether_cat.Soem.Mapping.{KeepsMapping}
use xeryon_ether_cat.Shim.{St, Call, LogLine, info, warn, err, valid}
use xeryon_ether_cat.Shim.Log.{log_after}
use xeryon_ether_cat.Shim.Mapped.{IsMapped, same-IsMapped}
use xeryon_ether_cat.Shim.Runs.{Stays-refl, Runs, Runs->>=, Stays, Stays-trans, same-Stays}
use xeryon_ether_cat.Shim.Recover.{
  verify_wkc, stabilize, check_op, check_slave, for_slaves, is_slave_really_op,
  force_full_reinit_slave, unhealthy, wkc_bad, send_processdata, receive_processdata, usleep,
  check_state, recover_slave,
}
use xeryon_ether_cat.Shim.Recover.Steps.{
  IsTimeout, check_state-Runs, usleep-Runs, send_processdata-Runs, receive_processdata-Runs,
}
use xeryon_ether_cat.Shim.Recover.Reinit.{force_full_reinit_slave-Reinit}
use xeryon_ether_cat.Shim.Recover.Loops.{for_slaves-Runs}

module _ {X : Type 0} where
  -- The last call was a cycle that came back with a working counter of at least `expected`.
  abbrev pub GoodCycle : ℤ → St X → Type 0
  GoodCycle expected s =
      (wkc : ℤ) × (rest : List Call) × (expected ≤ℤ wkc)
      × (s.calls ≡ Call.receive (pos 2000) wkc ∷ rest)

  -- The slaves from 1 up to below `i` are OPERATIONAL.
  abbrev pub AllOp : ℕ → St X → Type 0
  AllOp i s =
      (j : ℕ) → (j < 1) ⊎ (i ≤ j) ⊎ ((s.handle.context.slavelist j).state ≡ EcState.operational)

module _ {X : Type 0} ⦃p : Platform X⦄ (keeps : KeepsMapping p) where
  -- A check of the working counter has ended: with no success, or with a good cycle.
  abbrev pub Checked : ℤ → St X → Bool → St X → Type 0
  Checked expected s ok t = Stays s t × ((ok ≡ false) ⊎ ((ok ≡ true) × GoodCycle expected t))

  pub stabilize-Stays : (n : ℕ) (s : St X) → IsMapped s → Runs (stabilize n) s (λ _ t. Stays s t)
  unfolding stabilize
  stabilize-Stays zero s m = (tt, s, refl, Stays-refl s m)
  stabilize-Stays (suc n) s m =
      Runs->>= send_processdata _ s (send_processdata-Runs keeps s m) λ sent s1 q1.
        Runs->>= (receive_processdata (pos 2000)) _ s1
          (receive_processdata-Runs keeps (pos 2000) s1 q1.0.mapped)
          λ wkc s2 q2.
            Runs->>= (usleep 2000) _ s2 (usleep-Runs keeps 2000 s2 q2.0.mapped) λ _ s3 q3.
              let (a, t, e, stays) = stabilize-Stays n s3 q3.0.mapped in
              (a, t, e, Stays-trans q1.0 (Stays-trans q2.0 (Stays-trans q3.0 stays)))

  pub verify_wkc-GoodCycle :
      (expected : ℤ) (n : ℕ) (s : St X)
      → IsMapped s
      → Runs (verify_wkc expected n) s (Checked expected s)
  unfolding verify_wkc
  verify_wkc-GoodCycle expected zero s m = (false, s, refl, (Stays-refl s m, inl refl))
  verify_wkc-GoodCycle expected (suc n) s m =
      Runs->>= send_processdata _ s (send_processdata-Runs keeps s m) λ sent s1 q1.
        Runs->>= (receive_processdata (pos 2000)) _ s1
          (receive_processdata-Runs keeps (pos 2000) s1 q1.0.mapped)
          λ wkc s2 q2.
            let s3 : St X = record s2 {
              log = log_after info "Recovery WKC check attempt %d: wkc=%d expected=%d" s2;
            } in
            let q3 : Stays s2 s3 = same-Stays s2 s3 refl refl refl refl q2.0.mapped in
            let there : Stays s s3 = Stays-trans q1.0 (Stays-trans q2.0 q3) in
            elim (Bool-cases (leb_ℤ expected wkc)) [
              | inl good ↦
                  (true, s3, ground arith, (there, inr (refl, (wkc, s1.calls, ground arith, q2.1))))
              | inr low ↦
                  let (ok, t, e, q) =
                    Runs->>= (usleep 5000) (λ _. verify_wkc expected n) s3 {R = Checked expected s}
                      (usleep-Runs keeps 5000 s3 q3.mapped)
                      (λ _ s4 q4.
                        let (ok, t, e, q) = verify_wkc-GoodCycle expected n s4 q4.0.mapped in
                        (ok, t, e, (Stays-trans (Stays-trans there q4.0) q.0, q.1))) in
                  (ok, t, rw low e, q)
            ]

  pub check_op-AllOp :
      (s : St X) (i : ℕ) (all_op : Bool)
      → IsMapped s
      → i < ec_maxslave
      → (lines : List LogLine) × (check_op i all_op s
          ≡ some (
            all_op && ((s.handle.context.slavelist i).state == EcState.operational),
            record s { log = lines },
          ))
  unfolding check_op
  check_op-AllOp s i all_op m fits =
      elim (Bool-cases ((s.handle.context.slavelist i).state == EcState.operational)) [
        | inl op ↦ (s.log, ground (arith, m.live))
        | inr other ↦ (
          log_after err "Slave %d not OPERATIONAL after recovery (state=0x%04x)" s,
          ground (arith, m.live),
        )
      ]

  -- The last loop only looks, and answers whether all slaves are OPERATIONAL.
  abbrev pub Looked : St X → ℕ → Bool → St X → Type 0
  Looked s i all_op t =
      (lines : List LogLine) × (t ≡ record s { log = lines })
      × ((all_op ≡ false) ⊎ ((all_op ≡ true) × AllOp i s))

  check_op-Looked :
      (s : St X) (i : ℕ) (a : Bool) (lines : List LogLine)
      → IsMapped s
      → i < ec_maxslave
      → (a ≡ false) ⊎ ((a ≡ true) × AllOp i s)
      → Runs (check_op i a) (record s { log = lines }) (Looked s (i + 1))
  check_op-Looked s i a lines m fits so_far =
      let s1 : St X = record s { log = lines } in
      let (more, e) = check_op-AllOp s1 i a (same-IsMapped s s1 refl refl refl m) fits in
      elim (Bool-cases ((s.handle.context.slavelist i).state == EcState.operational)) [
        | inl op ↦ (
          a && ((s.handle.context.slavelist i).state == EcState.operational),
          record s { log = more },
          e,
          (more, refl, ground (arith, op)),
        )
        | inr other ↦ (
          a && ((s.handle.context.slavelist i).state == EcState.operational),
          record s { log = more },
          e,
          (more, refl, inl (ground (arith, other))),
        )
      ]

  pub check_op_loop :
      (s : St X)
      → IsMapped s
      → Runs
          (for_slaves ec_maxslave 1 true check_op)
          s
          (Looked s (pos_part s.handle.context.slavecount + 1))
  check_op_loop s m =
      for_slaves-Runs check_op s.handle.context.slavecount (Looked s)
        (λ i a t q. rw q.1 (m.live, refl))
        (λ i a t one upto q.
          subst (λ u. Runs (check_op i a) u (Looked s (i + 1))) (sym q.1)
            (check_op-Looked s i a q.0 m (omega (arith, m.few)) q.2))
        ec_maxslave 1 true s (ground (arith, m.few)) (omega arith) (omega arith)
        (s.log, refl, inr (refl, λ j. ground arith))

  recover_slave-Stays :
      (ms : ℤ) (i errors : ℕ) (s : St X)
      → IsMapped s
      → IsTimeout ms
      → 1 ≤ i
      → pos i ≤ℤ s.handle.context.slavecount
      → Runs (recover_slave ms i errors) s (λ _ t. Stays s t)
  unfolding recover_slave
  recover_slave-Stays ms i errors s m h one upto =
      let s1 : St X = record s {
        log =
            log_after warn
              "Slave %d not healthy (state=0x%04x AL=0x%04x islost=%d). Forcing full reinit." s;
      } in
      let q1 : Stays s s1 = same-Stays s s1 refl refl refl refl m in
      Runs->>= (force_full_reinit_slave valid (pos i) ms) _ s1
        (force_full_reinit_slave-Reinit keeps i ms s1 q1.mapped one upto h)
        λ reached s2 q2.
          let there : Stays s s2 = Stays-trans q1 q2.0 in
          elim (Bool-cases (reached ==ℤ pos 0)) [
            | inr came_up ↦ (errors + 1, s2, ground arith, there)
            | inl failed ↦
                let s3 : St X = record s2 {
                  log = log_after err "Slave %d failed full reinit to OP" s2;
                } in
                (
                  errors + 1,
                  s3,
                  ground arith,
                  Stays-trans there (same-Stays s2 s3 refl refl refl refl q2.0.mapped),
                )
          ]

  is_slave_really_op-Stays :
      (i : ℕ) (s : St X) → IsMapped s → Runs (is_slave_really_op i) s (λ _ t. Stays s t)
  unfolding is_slave_really_op
  is_slave_really_op-Stays i s m =
      Runs->>= (check_state i EcState.operational (pos 1000)) _ s
        (check_state-Runs keeps i EcState.operational (pos 1000) s m)
        λ rc t q. (rc == EcState.operational, t, refl, q.0)

  pub check_slave-Stays :
      (ms : ℤ) (i errors : ℕ) (s : St X)
      → IsMapped s
      → IsTimeout ms
      → 1 ≤ i
      → pos i ≤ℤ s.handle.context.slavecount
      → Runs (check_slave ms i errors) s (λ _ t. Stays s t)
  unfolding check_slave
  check_slave-Stays ms i errors s m h one upto =
      let (really_op, s1, e1, q1) = is_slave_really_op-Stays i s m in
      let fits : i < ec_maxslave = omega (arith, m.few) in
      elim (Bool-cases (unhealthy (s1.handle.context.slavelist i) (wkc_bad s.handle) really_op)) [
        | inr healthy ↦ (errors, s1, ground (arith, m.live, q1.mapped.live, fits, e1), q1)
        | inl sick ↦
            let (n, t, e2, q2) =
              recover_slave-Stays ms i errors s1 q1.mapped h one (rw q1.slavecount upto) in
            (n, t, ground (arith, m.live, q1.mapped.live, fits, e1, e2), Stays-trans q1 q2)
      ]
