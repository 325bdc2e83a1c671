-- ===== src/Shim/Recover/Success.antt =====
-- `soem_try_recover` as a whole: it comes to an end, and what its result means.
use xeryon_ether_cat.Base.{
  ℕ, ℤ, pos, pos_part, Bool, true, false, ◌≡◌, refl, ◌+◌, ◌⊎◌, inl, inr, arith, Bool-cases, ◌==◌,
  ltb, if◌then◌else◌,
}
use xeryon_ether_cat.Soem.{Net, Platform, ec_maxslave}
use xeryon_ether_cat.Soem.EcState
use xeryon_ether_cat.Soem.Mapping.{KeepsMapping}
use xeryon_ether_cat.Shim.{St, Call, info, warn, err, valid, pure, net_of, after_call}
use xeryon_ether_cat.Shim.Log.{log_after}
use xeryon_ether_cat.Shim.Mapped.{IsMapped}
use xeryon_ether_cat.Shim.Runs.{
  Stays-refl, Runs, Runs->>=, Stays, Stays-trans, same-Stays, after_call-Stays,
}
use xeryon_ether_cat.Shim.Exchange.{expected_wkc}
use xeryon_ether_cat.Shim.Recover.{
  soem_try_recover, finish_recovery, verify_recovery, judge_group, conclude_recovery, verify_wkc,
  stabilize, check_slave, for_slaves, usleep, check_state, write_state,
}
use xeryon_ether_cat.Shim.Recover.Steps.{
  IsTimeout, micros, mul_int-micros, check_state-Runs, usleep-Runs, write_state-Runs,
}
use xeryon_ether_cat.Shim.Recover.Loops.{for_slaves-Runs}
use xeryon_ether_cat.Shim.Recover.Verify.{
  GoodCycle, AllOp, check_op_loop, verify_wkc-GoodCycle, stabilize-Stays, check_slave-Stays,
}

module _ {X : Type 0} where
  -- A recovery from `s` has ended in `t`: with no success, or with every slave's entry OPERATIONAL
  -- and, as the last thing on the bus, a cycle with a working counter of at least `expected`.
  abbrev pub Recovered : ℤ → St X → ℤ → St X → Type 0
  Recovered expected s rc t =
      Stays s t
      × ((rc ≡ pos 0)
          ⊎ ((rc ≡ pos 1)
              × AllOp (pos_part t.handle.context.slavecount + 1) t
              × GoodCycle expected t))

module _ {X : Type 0} ⦃p : Platform X⦄ (keeps : KeepsMapping p) where
  conclude_recovery-Recovered :
      (expected : ℤ) (ok : Bool) (s : St X)
      → IsMapped s
      → (ok ≡ false) ⊎ ((ok ≡ true) × GoodCycle expected s)
      → Runs (conclude_recovery ok) s (Recovered expected s)
  unfolding conclude_recovery
  conclude_recovery-Recovered expected false s m checked =
      let t : St X = record s {
        log = log_after err "Recovery failed: WKC still low after 5 attempts" s;
      } in
      (pos 0, t, refl, (same-Stays s t refl refl refl refl m, inl refl))
  conclude_recovery-Recovered expected true s m (inl e) = absurd (ground arith)
  conclude_recovery-Recovered expected true s m (inr good) =
      let (all_op, s1, e, (lines, same, looked)) = check_op_loop keeps s m in
      let s2 : St X = record s { log = lines } in
      let e2 = rw same at e in
      elim (Bool-cases all_op) [
        | inr some_not ↦ (
          pos 0,
          s2,
          ground (arith, e2, some_not),
          (same-Stays s s2 refl refl refl refl m, inl refl),
        )
        | inl all ↦
            let t : St X = record s2 {
              log = log_after info "Recovery successful: all slaves OPERATIONAL with good WKC" s2;
            } in
            (
              pos 1,
              t,
              ground (arith, e2, all),
              (
                same-Stays s t refl refl refl refl m,
                inr (refl, elim looked [ inl e ↦ cc | inr (e, ops) ↦ ops ], good.1),
              ),
            )
      ]

  judge_group-Recovered :
      (expected : ℤ) (rc : ℕ) (s : St X)
      → IsMapped s
      → Runs (judge_group expected rc) s (Recovered expected s)
  unfolding judge_group
  judge_group-Recovered expected rc s m = elim (Bool-cases (rc == EcState.operational)) [
    | inr other ↦
        let t : St X = record s {
          log = log_after err "Group failed to reach OPERATIONAL (got state=0x%04x) in %d ms" s;
        } in
        (pos 0, t, ground arith, (same-Stays s t refl refl refl refl m, inl refl))
    | inl op ↦
        let (rc, t, e, q) =
          Runs->>= (verify_wkc expected 5) conclude_recovery s {R = Recovered expected s}
            (verify_wkc-GoodCycle keeps expected 5 s m)
            (λ ok s1 q1.
              let (rc, t, e, q) = conclude_recovery-Recovered expected ok s1 q1.0.mapped q1.1 in
              (rc, t, e, (Stays-trans q1.0 q.0, q.1))) in
        (rc, t, ground (arith, e), q)
  ]

  verify_recovery-Recovered :
      (expected ms : ℤ) (s : St X)
      → IsMapped s
      → IsTimeout ms
      → Runs (verify_recovery expected ms) s (Recovered expected s)
  unfolding verify_recovery
  verify_recovery-Recovered expected ms s m h =
      let (rc, t, e, q) =
        Runs->>= (check_state 0 EcState.operational (micros ms)) (judge_group expected) s
          {R = Recovered expected s} (check_state-Runs keeps 0 EcState.operational (micros ms) s m)
          (λ got s1 q1.
            let (rc, t, e, q) = judge_group-Recovered expected got s1 q1.0.mapped in
            (rc, t, e, (Stays-trans q1.0 q.0, q.1))) in
      (rc, t, rw (mul_int-micros ms s h) e, q)

  settle-Stays :
      (errors : ℕ) (s : St X)
      → IsMapped s
      → Runs (if ltb 0 errors then usleep 10000 else pure tt) s (λ _ t. Stays s t)
  settle-Stays errors s m = elim (Bool-cases (ltb 0 errors)) [
    | inl some_errors ↦
        let (u, t, e, q) = usleep-Runs keeps 10000 s m in (u, t, ground (arith, e), q.0)
    | inr none ↦ (tt, s, ground arith, Stays-refl s m)
  ]

  finish_recovery-Recovered :
      (expected ms : ℤ) (errors : ℕ) (s : St X)
      → IsMapped s
      → IsTimeout ms
      → Runs (finish_recovery expected ms errors) s (Recovered expected s)
  unfolding finish_recovery
  finish_recovery-Recovered expected ms errors s m h =
      Runs->>= (if ltb 0 errors then usleep 10000 else pure tt) _ s (settle-Stays errors s m)
        λ _ s1 q1.
          Runs->>= (write_state 0 EcState.operational) _ s1
            (write_state-Runs keeps 0 EcState.operational s1 q1.mapped (omega arith))
            λ _ s2 q2.
              Runs->>= (stabilize 5) _ s2 (stabilize-Stays keeps 5 s2 q2.0.mapped) λ _ s3 q3.
                let (rc, t, e, q) = verify_recovery-Recovered expected ms s3 q3.mapped h in
                (rc, t, e, (Stays-trans q1 (Stays-trans q2.0 (Stays-trans q3 q.0)), q.1))

  -- Recovery of a mapped bus comes to an end and leaves it mapped, and returns 0 or 1; and 1 only
  -- if at the end every slave's entry is OPERATIONAL and the last cycle on the bus came back with
  -- a working counter of at least what the group expects.
  pub soem_try_recover-Recovered :
      (ms : ℤ) (s : St X)
      → IsMapped s
      → IsTimeout ms
      → Runs (soem_try_recover valid ms) s (Recovered (expected_wkc s.handle.context.group) s)
  unfolding soem_try_recover
  soem_try_recover-Recovered ms s m h =
      let expected = expected_wkc s.handle.context.group in
      let s1 : St X = record s {
        log = log_after warn "Starting recovery (expected_wkc=%d, last_wkc=%d)" s;
      } in
      let q1 : Stays s s1 = same-Stays s s1 refl refl refl refl m in
      let n : Net X = p.ecx_readstate (net_of s1) in
      let s2 : St X = after_call Call.read_state s1 n in
      let q2 : Stays s s2 =
        Stays-trans q1
          (after_call-Stays Call.read_state s1 n (keeps.readstate (net_of s1)) q1.mapped) in
      let looped =
        for_slaves-Runs (check_slave ms) s.handle.context.slavecount (λ i a t. Stays s t)
          (λ i a t q. (q.mapped.live, q.slavecount))
          (λ i a t one upto q.
            let (b, u, e, r) =
              check_slave-Stays keeps ms i a t q.mapped h one (rw q.slavecount upto) in
            (b, u, e, Stays-trans q r))
          ec_maxslave 1 0 s2 (ground (arith, m.few)) (omega arith) (omega arith) q2 in
      let (rc, t, e, q) =
        Runs->>= (for_slaves ec_maxslave 1 0 (check_slave ms)) (finish_recovery expected ms) s2
          {R = Recovered expected s} looped
          (λ errors s3 q3.
            let (rc, t, e, q) = finish_recovery-Recovered expected ms errors s3 q3.mapped h in
            (rc, t, e, (Stays-trans q3 q.0, q.1))) in
      (rc, t, ground (arith, m.live, e), q)
