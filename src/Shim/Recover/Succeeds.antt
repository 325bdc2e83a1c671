-- ===== src/Shim/Recover/Succeeds.antt =====
-- Recovery of a bus whose slaves answer, from its first loop to its result.
use mathlib.Core.Path.{subst}
use xeryon_ether_cat.Base.{
  ℕ, ℤ, pos, pos_part, true, ◌≡◌, refl, ◌∙◌, sym, ap, ◌+◌, inl, inr, arith, Bool-cases, ltb,
  if◌then◌else◌,
}
use xeryon_ether_cat.Soem.{Net, Platform, ec_maxslave}
use xeryon_ether_cat.Soem.EcState
use xeryon_ether_cat.Soem.Mapping.{KeepsMapping}
use xeryon_ether_cat.Shim.{St, Call, info, warn, valid, net_of, pure, after_call}
use xeryon_ether_cat.Shim.Log.{log_after}
use xeryon_ether_cat.Shim.Mapped.{IsMapped}
use xeryon_ether_cat.Shim.Runs.{
  Runs, Runs->>=, Runs-at, Stays, Stays-trans, Stays-refl, same-Stays, after_call-Stays,
}
use xeryon_ether_cat.Shim.Exchange.{expected_wkc}
use xeryon_ether_cat.Shim.Recover.{
  write_state, usleep, check_slave, for_slaves, stabilize, verify_wkc, conclude_recovery,
  judge_group, verify_recovery, finish_recovery, soem_try_recover,
}
use xeryon_ether_cat.Shim.Recover.Steps.{IsTimeout, micros, mul_int-micros}
use xeryon_ether_cat.Shim.Recover.Loops.{for_slaves-Runs}
use xeryon_ether_cat.Shim.Recover.Verify.{AllOp, GoodCycle}
use xeryon_ether_cat.Shim.Recover.Success.{Recovered, soem_try_recover-Recovered}
use xeryon_ether_cat.Shim.Recover.Cooperates.{Cooperates, AllOp-step}
use xeryon_ether_cat.Shim.Recover.Reaches.{
  check_state-Touches, write_state-Touches, check_slave-Touches,
}
use xeryon_ether_cat.Shim.Linux.Stale.{KeepsStates}
use xeryon_ether_cat.Shim.Recover.Up.{
  Up, Touches-Up, usleep-Up, stabilize-Up, verify_wkc-Up, check_op_loop-Up,
}

module _ {X : Type 0} ⦃p : Platform X⦄ (keeps : KeepsMapping p) (states : KeepsStates p)
    {expected : ℤ} (coop : Cooperates p expected) where
  conclude_recovery-Up : (s : St X) → Up s → Runs (conclude_recovery true) s (λ rc _. rc ≡ pos 1)
  unfolding conclude_recovery
  conclude_recovery-Up s up =
      let (all, s1, e, (good, looked)) = check_op_loop-Up keeps states coop s up in
      (
        pos 1,
        record s1 {
          log = log_after info "Recovery successful: all slaves OPERATIONAL with good WKC" s1;
        },
        ground (arith, e, good),
        refl,
      )

  judge_group-Up :
      (s : St X) → Up s → Runs (judge_group expected EcState.operational) s (λ rc _. rc ≡ pos 1)
  unfolding judge_group
  judge_group-Up s up =
      Runs->>= (verify_wkc expected 5) conclude_recovery s (verify_wkc-Up keeps states coop 4 s up)
        λ ok s1 q.
          subst (λ b. Runs (conclude_recovery b) s1 (λ rc _. rc ≡ pos 1)) (sym q.0)
            (conclude_recovery-Up s1 q.1)

  verify_recovery-Up :
      (ms : ℤ) (s : St X)
      → Up s
      → IsTimeout ms
      → Runs (verify_recovery expected ms) s (λ rc _. rc ≡ pos 1)
  unfolding verify_recovery
  verify_recovery-Up ms s up h =
      let (got, s1, e, (touched, left)) =
        check_state-Touches keeps states coop 0 EcState.operational (micros ms) s up.0 in
      let found : EcState.operational ≡ got =
        sym (coop.group (micros ms) (net_of s) up.1) ∙ ap (λ r. r.0) left in
      let (rc, t, e', one) = judge_group-Up s1 (Touches-Up up touched) in
      (rc, t, rw (mul_int-micros ms s h) (ground (arith, e, e', found)), one)

  settle-Up :
      (errors : ℕ) (s : St X)
      → Up s
      → Runs (if ltb 0 errors then usleep 10000 else pure tt) s (λ _ t. Up t)
  settle-Up errors s up = elim (Bool-cases (ltb 0 errors)) [
    | inl some_errors ↦
        let (u, t, e, q) = usleep-Up keeps states coop 10000 s up in (u, t, ground (arith, e), q)
    | inr none ↦ (tt, s, ground arith, up)
  ]

  finish_recovery-Up :
      (ms : ℤ) (errors : ℕ) (s : St X)
      → Up s
      → IsTimeout ms
      → Runs (finish_recovery expected ms errors) s (λ rc _. rc ≡ pos 1)
  unfolding finish_recovery
  finish_recovery-Up ms errors s up h =
      Runs->>= (if ltb 0 errors then usleep 10000 else pure tt) _ s (settle-Up errors s up)
        λ _ s1 q1.
          Runs->>= (write_state 0 EcState.operational) _ s1
            (write_state-Touches keeps states coop 0 EcState.operational s1 q1.0 (omega arith))
            λ _ s2 q2.
              Runs->>= (stabilize 5) _ s2 (stabilize-Up keeps states coop 5 s2 (Touches-Up q1 q2.0))
                λ _ s3 q3. verify_recovery-Up ms s3 q3 h

module _ {X : Type 0} ⦃p : Platform X⦄ (keeps : KeepsMapping p) (states : KeepsStates p) where
  recover_all-Up :
      {expected : ℤ} (coop : Cooperates p expected) (ms : ℤ) (s : St X)
      → IsMapped s
      → IsTimeout ms
      → Runs (for_slaves ec_maxslave 1 0 (check_slave ms)) s (λ _ t. Stays s t × Up t)
  recover_all-Up coop ms s m h =
      let (errors, t, e, (q, ups)) =
        for_slaves-Runs (check_slave ms) s.handle.context.slavecount
          (λ i a t. Stays s t × AllOp i t) (λ i a t q. (q.0.mapped.live, q.0.slavecount))
          (λ i a t one upto q.
            let (b, u, e, (touched, up)) =
              check_slave-Touches keeps states coop ms i a t q.0.mapped h one
                (rw q.0.slavecount upto) in
            (b, u, e, (Stays-trans q.0 touched.0, AllOp-step i t u touched up q.1)))
          ec_maxslave 1 0 s (ground (arith, m.few)) (omega arith) (omega arith)
          (Stays-refl s m, λ j. ground arith) in
      (errors, t, e, (q, (q.mapped, rw q.slavecount ups)))

  try_recover_succeeds :
      (ms : ℤ) (s : St X)
      → IsMapped s
      → IsTimeout ms
      → Cooperates p (expected_wkc s.handle.context.group)
      → Runs (soem_try_recover valid ms) s (λ rc _. rc ≡ pos 1)
  unfolding soem_try_recover
  try_recover_succeeds ms s m h coop =
      let s1 : St X = record s {
        log = log_after warn "Starting recovery (expected_wkc=%d, last_wkc=%d)" s;
      } in
      let q1 : Stays s s1 = same-Stays s s1 refl refl refl refl m in
      let n : Net X = p.ecx_readstate (net_of s1) in
      let s2 : St X = after_call Call.read_state s1 n in
      let q2 : Stays s1 s2 =
        after_call-Stays Call.read_state s1 n (keeps.readstate (net_of s1)) q1.mapped in
      let (rc, t, e, one) =
        Runs->>= (for_slaves ec_maxslave 1 0 (check_slave ms))
          (finish_recovery (expected_wkc s.handle.context.group) ms) s2
          (recover_all-Up coop ms s2 q2.mapped h)
          λ errors s3 q3. finish_recovery-Up keeps states coop ms errors s3 q3.1 h in
      (rc, t, ground (arith, m.live, e), one)

  -- On a mapped bus whose slaves answer, in whatever states they are, recovery returns 1: then
  -- every slave's entry is OPERATIONAL, and the last cycle on the bus came back with a working
  -- counter of at least what the group expects.
  pub soem_try_recover-succeeds :
      (ms : ℤ) (s : St X)
      → IsMapped s
      → IsTimeout ms
      → Cooperates p (expected_wkc s.handle.context.group)
      → Runs (soem_try_recover valid ms) s (λ rc t.
        (rc ≡ pos 1)
        × Stays s t
        × AllOp (pos_part t.handle.context.slavecount + 1) t
        × GoodCycle (expected_wkc s.handle.context.group) t)
  soem_try_recover-succeeds ms s m h coop =
      let (rc, t, e, one) = try_recover_succeeds ms s m h coop in
      let q =
        Runs-at (soem_try_recover valid ms) s (Recovered (expected_wkc s.handle.context.group) s)
          (soem_try_recover-Recovered keeps ms s m h) e in
      elim q.1 [
        | inl failed ↦ absurd (ground (arith, one, failed))
        | inr (good, ups, counted) ↦ (rc, t, e, (one, q.0, ups, counted))
      ]
