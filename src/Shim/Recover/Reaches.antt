-- ===== src/Shim/Recover/Reaches.antt =====
-- Recovery of a bus whose slaves answer: the calls for one slave.
use xeryon_ether_cat.Base.{
  ℕ, ℤ, pos, ◌≡◌, refl, ◌∙◌, sym, ap, ◌+◌, ◌≤◌, ◌<◌, ◌≤ℤ◌, inl, inr, arith, Bool-cases, ◌==◌,
  ==_iff, ◌==ℤ◌,
}
use mathlib.Core.Path.{subst}
use xeryon_ether_cat.Soem.{Net, Platform, ec_maxslave}
use xeryon_ether_cat.Soem.EcState
use xeryon_ether_cat.Soem.Mapping.{KeepsMapping}
use xeryon_ether_cat.Shim.{St, info, warn, err, net_of, set_state, with_context}
use xeryon_ether_cat.Shim.Log.{log_after}
use xeryon_ether_cat.Shim.Mapped.{IsMapped}
use xeryon_ether_cat.Shim.Runs.{Runs, Runs->>=}
use xeryon_ether_cat.Shim.Recover.{
  check_state, write_state, request_state, reinit_slave, force_full_reinit_slave, recover_slave,
  check_slave, unhealthy, wkc_bad, is_slave_really_op,
}
use xeryon_ether_cat.Shim.Recover.Steps.{
  IsTimeout, micros, mul_int-micros, check_state-Runs, write_state-Runs,
}
use xeryon_ether_cat.Shim.Linux.Stale.{KeepsStates}
use xeryon_ether_cat.Shim.Recover.Cooperates.{
  NextState, asked, Cooperates, state_at, Touches, Touches-trans, log-Touches, call-Touches,
}

module _ {X : Type 0} ⦃p : Platform X⦄ (keeps : KeepsMapping p) (states : KeepsStates p)
    {expected : ℤ} (coop : Cooperates p expected) where
  pub check_state-Touches :
      (i want : ℕ) (t : ℤ) (s : St X)
      → IsMapped s
      → Runs
          (check_state i want t)
          s
          (λ got s'. Touches i s s' × (p.ecx_statecheck i want t (net_of s) ≡ (got, net_of s')))
  check_state-Touches i want t s m =
      let (got, s', e, (stays, calls, left)) = check_state-Runs keeps i want t s m in
      (
        got,
        s',
        e,
        (
          call-Touches i (p.ecx_statecheck i want t (net_of s)) got s s' stays left
              (coop.statecheck i want t (net_of s)),
          left,
        ),
      )

  pub write_state-Touches :
      (i st : ℕ) (s : St X)
      → IsMapped s
      → i < ec_maxslave
      → Runs (write_state i st) s (λ _ s'.
        Touches i s s'
        × (net_of s'
            ≡ p.ecx_writestate i (net_of (with_context s (set_state i st s.handle.context)))))
  write_state-Touches i st s m fits =
      let (u, s', e, (stays, calls, left)) = write_state-Runs keeps i st s m fits in
      let n : Net X = net_of (with_context s (set_state i st s.handle.context)) in
      (
        u,
        s',
        e,
        (
          call-Touches i (u, p.ecx_writestate i n) u s s' stays (ap (λ x. (u, x)) (sym left))
              (λ j. elim (Bool-cases (i == j)) [
                | inl here ↦ inl (sym ((==_iff _ _).0 here))
                | inr there ↦ inr (states.writestate i n j ∙ ground (arith, there))
              ]),
          left,
        ),
      )

  -- A slave that is asked for the next state is in it, and is found in it.
  request_state-Touches :
      (i st : ℕ) (ms : ℤ) (s : St X)
      → IsMapped s
      → 1 ≤ i
      → i < ec_maxslave
      → IsTimeout ms
      → NextState (state_at s i) st
      → Runs (request_state i ms st) s (λ got t. Touches i s t × (got ≡ st) × (state_at t i ≡ st))
  unfolding request_state
  request_state-Touches i st ms s m one fits h next =
      Runs->>= (write_state i st) _ s (write_state-Touches i st s m fits) λ _ s1 w.
        let (got, s2, e, (touched, left)) = check_state-Touches i st (micros ms) s1 w.0.0.mapped in
        let found : asked p i st (micros ms) (net_of s) ≡ (got, net_of s2) =
          subst (λ n. p.ecx_statecheck i st (micros ms) n ≡ (got, net_of s2)) w.1 left in
        let there = coop.reaches i st (micros ms) (net_of s) one next in
        (
          got,
          s2,
          rw (mul_int-micros ms s1 h) e,
          (
            Touches-trans w.0 touched,
            sym (ap (λ r. r.0) found) ∙ there.0,
            sym (ap (λ r. (r.1.context.slavelist i).state) found) ∙ there.1,
          ),
        )

  -- The four steps bring a slave up.
  reinit_slave-Touches :
      (i : ℕ) (ms : ℤ) (s : St X)
      → IsMapped s
      → 1 ≤ i
      → i < ec_maxslave
      → IsTimeout ms
      → Runs (reinit_slave i ms) s (λ rc t. Touches i s t × (state_at t i ≡ EcState.operational))
  unfolding reinit_slave
  reinit_slave-Touches i ms s m one fits h =
      Runs->>= (request_state i ms EcState.init) _ s
        (request_state-Touches i EcState.init ms s m one fits h (inl refl))
        λ g1 s1 q1.
          Runs->>= (request_state i ms EcState.pre_op) _ s1
            (request_state-Touches i EcState.pre_op ms s1 q1.0.0.mapped one fits h
              (inr (inl (q1.2, refl))))
            λ g2 s2 q2.
              Runs->>= (request_state i ms EcState.safe_op) _ s2
                (request_state-Touches i EcState.safe_op ms s2 q2.0.0.mapped one fits h
                  (inr (inr (inl (q2.2, refl)))))
                λ g3 s3 q3.
                  Runs->>= (request_state i ms EcState.operational) _ s3
                    (request_state-Touches i EcState.operational ms s3 q3.0.0.mapped one fits h
                      (inr (inr (inr (q3.2, refl)))))
                    λ g4 s4 q4.
                      let t : St X = record s4 {
                        log =
                            log_after info
                              "force_full_reinit_slave(%d): slave reached OP cleanly (AL=0x%04x)"
                              s4;
                      } in
                      (
                        pos 1,
                        t,
                        ground (arith, q4.1),
                        (
                          Touches-trans q1.0 (
                              Touches-trans q2.0 (
                                Touches-trans q3.0 (
                                  Touches-trans q4.0
                                    (log-Touches i s4 t refl refl refl refl q4.0.0.mapped)))),
                          q4.2,
                        ),
                      )

  recover_slave-Touches :
      (ms : ℤ) (i errors : ℕ) (s : St X)
      → IsMapped s
      → IsTimeout ms
      → 1 ≤ i
      → pos i ≤ℤ s.handle.context.slavecount
      → Runs
          (recover_slave ms i errors)
          s
          (λ _ t. Touches i s t × (state_at t i ≡ EcState.operational))
  unfolding recover_slave force_full_reinit_slave
  recover_slave-Touches ms i errors s m h one upto =
      let s1 : St X = record s {
        log =
            log_after warn
              "Slave %d not healthy (state=0x%04x AL=0x%04x islost=%d). Forcing full reinit." s;
      } in
      let q1 : Touches i s s1 = log-Touches i s s1 refl refl refl refl m in
      let (reached, s2, e, (q2, up)) =
        reinit_slave-Touches i ms s1 q1.0.mapped one (omega (arith, m.few)) h in
      let there : Touches i s s2 = Touches-trans q1 q2 in
      elim (Bool-cases (reached ==ℤ pos 0)) [
        | inr came_up ↦ (errors + 1, s2, ground (arith, m.live, e, came_up), (there, up))
        | inl failed ↦
            let s3 : St X = record s2 {
              log = log_after err "Slave %d failed full reinit to OP" s2;
            } in
            (
              errors + 1,
              s3,
              ground (arith, m.live, e, failed),
              (Touches-trans there (log-Touches i s2 s3 refl refl refl refl q2.0.mapped), up),
            )
      ]

  -- The body of the first loop leaves its slave up, whether it had to recover it or not.
  pub check_slave-Touches :
      (ms : ℤ) (i errors : ℕ) (s : St X)
      → IsMapped s
      → IsTimeout ms
      → 1 ≤ i
      → pos i ≤ℤ s.handle.context.slavecount
      → Runs
          (check_slave ms i errors)
          s
          (λ _ t. Touches i s t × (state_at t i ≡ EcState.operational))
  unfolding check_slave is_slave_really_op
  check_slave-Touches ms i errors s m h one upto =
      let (rc, s1, e1, (q1, found)) = check_state-Touches i EcState.operational (pos 1000) s m in
      let fits : i < ec_maxslave = omega (arith, m.few) in
      let slave = s1.handle.context.slavelist i in
      elim (Bool-cases (unhealthy slave (wkc_bad s.handle) (rc == EcState.operational))) [
        | inr healthy ↦ (
          errors,
          s1,
          ground (arith, m.live, q1.0.mapped.live, fits, e1, healthy),
          (q1, (==_iff _ _).0 (ground (arith, healthy))),
        )
        | inl sick ↦
            let (n, t, e2, (q2, up)) =
              recover_slave-Touches ms i errors s1 q1.0.mapped h one (rw q1.0.slavecount upto) in
            (
              n,
              t,
              ground (arith, m.live, q1.0.mapped.live, fits, e1, e2, sick),
              (Touches-trans q1 q2, up),
            )
      ]
