-- ===== src/Shim/Recover/Reinit.antt =====
-- `force_full_reinit_slave`: the calls it makes, and what its result means.
use xeryon_ether_cat.Base.{
  ℕ, ℤ, pos, List, ◌∷◌, ◌≡◌, ◌≢◌, refl, ◌<◌, ◌≤ℤ◌, ◌⊎◌, inl, inr, arith, Bool-cases, ◌==◌, ◌≤◌,
}
use xeryon_ether_cat.Soem.{Platform, ec_maxslave}
use xeryon_ether_cat.Soem.EcState
use xeryon_ether_cat.Soem.Mapping.{KeepsMapping}
use xeryon_ether_cat.Shim.{St, Call, info, err, valid}
use xeryon_ether_cat.Shim.Log.{log_after}
use xeryon_ether_cat.Shim.Mapped.{IsMapped}
use xeryon_ether_cat.Shim.Runs.{Runs, Runs->>=, Stays, Stays-trans, same-Stays}
use xeryon_ether_cat.Shim.Recover.{reinit_slave, request_state, force_full_reinit_slave}
use xeryon_ether_cat.Shim.Recover.Steps.{IsTimeout, micros, request_state-Runs}

-- The calls of one step, on top of those before.
abbrev pub step_calls : ℕ → ℤ → ℕ → ℕ → List Call → List Call
step_calls i ms st got calls = Call.state_check i st (micros ms) got ∷ Call.write_state i st ∷ calls

-- The four steps, and the states that were found after them.
abbrev pub reinit_calls : ℕ → ℤ → ℕ → ℕ → ℕ → ℕ → List Call → List Call
reinit_calls i ms g1 g2 g3 g4 calls = step_calls i ms EcState.operational g4 (
    step_calls i ms EcState.safe_op g3
      (step_calls i ms EcState.pre_op g2 (step_calls i ms EcState.init g1 calls)))

module _ {X : Type 0} ⦃p : Platform X⦄ (keeps : KeepsMapping p) where
  -- What a reinitialisation of slave `i` from `s` has done.
  abbrev pub Reinit : ℕ → ℤ → St X → ℤ → St X → Type 0
  Reinit i ms s rc s' =
      Stays s s'
      × ((g1 : ℕ) × (g2 : ℕ) × (g3 : ℕ) × (g4 : ℕ) × (s'.calls
            ≡ reinit_calls i ms g1 g2 g3 g4 s.calls)
          × (((g4 ≡ EcState.operational) × (rc ≡ pos 1))
              ⊎ ((g4 ≢ EcState.operational) × (rc ≡ pos 0))))

  pub reinit_slave-Reinit :
      (i : ℕ) (ms : ℤ) (s : St X)
      → IsMapped s
      → i < ec_maxslave
      → IsTimeout ms
      → Runs (reinit_slave i ms) s (Reinit i ms s)
  unfolding reinit_slave
  reinit_slave-Reinit i ms s m fits h =
      Runs->>= (request_state i ms EcState.init) _ s
        (request_state-Runs keeps i EcState.init ms s m fits h)
        λ g1 s1 q1.
          Runs->>= (request_state i ms EcState.pre_op) _ s1
            (request_state-Runs keeps i EcState.pre_op ms s1 q1.0.mapped fits h)
            λ g2 s2 q2.
              Runs->>= (request_state i ms EcState.safe_op) _ s2
                (request_state-Runs keeps i EcState.safe_op ms s2 q2.0.mapped fits h)
                λ g3 s3 q3.
                  Runs->>= (request_state i ms EcState.operational) _ s3
                    (request_state-Runs keeps i EcState.operational ms s3 q3.0.mapped fits h)
                    λ g4 s4 q4.
                      let stays : Stays s s4 =
                        Stays-trans q1.0 (Stays-trans q2.0 (Stays-trans q3.0 q4.0)) in
                      let calls : s4.calls ≡ reinit_calls i ms g1 g2 g3 g4 s.calls =
                        cc (q1.1, q2.1, q3.1, q4.1) in
                      elim (Bool-cases (g4 == EcState.operational)) [
                        | inl reached ↦
                            let t : St X = record s4 {
                              log =
                                  log_after info
                                    "force_full_reinit_slave(%d): slave reached OP cleanly (AL=0x%04x)"
                                    s4;
                            } in
                            (
                              pos 1,
                              t,
                              ground arith,
                              (
                                Stays-trans stays
                                    (same-Stays s4 t refl refl refl refl stays.mapped),
                                (g1, g2, g3, g4, calls, inl (ground arith, refl)),
                              ),
                            )
                        | inr not_reached ↦
                            let t : St X = record s4 {
                              log =
                                  log_after err
                                    "force_full_reinit_slave(%d): failed to reach OP (rc=0x%04x AL=0x%04x)"
                                    s4;
                            } in
                            (
                              pos 0,
                              t,
                              ground arith,
                              (
                                Stays-trans stays
                                    (same-Stays s4 t refl refl refl refl stays.mapped),
                                (g1, g2, g3, g4, calls, inr (ground arith, refl)),
                              ),
                            )
                      ]

  -- For a slave that was found, the call takes it through INIT, PRE_OP, SAFE_OP and OPERATIONAL in
  -- this order, each asked for and then waited for, and returns 1 if the last wait found it
  -- OPERATIONAL and 0 if not, whatever the other waits found.
  pub force_full_reinit_slave-Reinit :
      (i : ℕ) (ms : ℤ) (s : St X)
      → IsMapped s
      → 1 ≤ i
      → pos i ≤ℤ s.handle.context.slavecount
      → IsTimeout ms
      → Runs (force_full_reinit_slave valid (pos i) ms) s (Reinit i ms s)
  unfolding force_full_reinit_slave
  force_full_reinit_slave-Reinit i ms s m above below h =
      let (rc, t, e, r) = reinit_slave-Reinit i ms s m (omega (arith, m.few)) h in
      (rc, t, ground (arith, e, m.live), r)
