-- ===== src/Shim/Linux/Verdict.antt =====
-- What `soem_try_recover` of the Linux shim answers when a slave had to be recovered.

use xeryon_ether_cat.Base.{ℕ, ℤ, pos, ◌≡◌, ◌≢◌, refl, ◌≤◌, ◌≤ℤ◌, inl, inr, arith}
use xeryon_ether_cat.Soem.{Net, Platform, ec_maxslave}
use xeryon_ether_cat.Soem.EcState
use xeryon_ether_cat.Soem.Mapping.{KeepsMapping}
use xeryon_ether_cat.Shim.{St, Call, valid, net_of, after_call}
use xeryon_ether_cat.Shim.Mapped.{IsMapped}
use xeryon_ether_cat.Shim.Runs.{Runs, Runs->>=, Stays, Stays-trans, after_call-Stays}
use xeryon_ether_cat.Shim.Recover.{write_state, check_state, for_slaves}
use xeryon_ether_cat.Shim.Recover.Steps.{IsTimeout, micros, mul_int-micros}
use xeryon_ether_cat.Shim.Recover.Loops.{for_slaves-Runs}
use xeryon_ether_cat.Shim.Linux.{
  soem_try_recover, finish_recovery, judge_group, run_cycles, acknowledge_slave,
}
use xeryon_ether_cat.Shim.Linux.Stale.{
  KeepsStates, Stale, StaysStale, same-Stale, write_state-Stale, run_cycles-Stale,
  judge_group-Stale, acknowledge_slave-Stale,
}

module _ {X : Type 0} ⦃p : Platform X⦄ (keeps : KeepsMapping p) (states : KeepsStates p)
    (j : ℕ) where
  -- The recovery from `s` has returned 0 and left the bus mapped.
  abbrev pub Failed : St X → ℤ → St X → Type 0
  Failed s rc t = (rc ≡ pos 0) × Stays s t

  -- The check of the whole group leaves the entry of the slave alone.
  check_group-Stale :
      (ms : ℤ) (s : St X)
      → IsMapped s
      → Stale j s
      → Runs (check_state 0 EcState.operational ms) s (λ _ t. StaysStale j s t)
  check_group-Stale ms s m stale =
      let r = p.ecx_statecheck 0 EcState.operational ms (net_of s) in
      let t : St X = after_call (Call.state_check 0 EcState.operational ms r.0) s r.1 in
      let q : Stays s t =
        after_call-Stays (Call.state_check 0 EcState.operational ms r.0) s r.1
          (keeps.statecheck 0 EcState.operational ms (net_of s)) m in
      let kept : (t.handle.context.slavelist j).state ≡ (s.handle.context.slavelist j).state =
        elim (states.statecheck_all EcState.operational ms (net_of s) j) [
          | inl zero_entry ↦ absurd (omega (arith, stale.above))
          | inr same ↦ same
        ] in
      (r.0, t, ground (arith, m.live), (q, same-Stale keeps states j s t q kept stale))

  finish_recovery-Stale :
      (ms : ℤ) (u : Unit {0}) (s : St X)
      → IsMapped s
      → IsTimeout ms
      → Stale j s
      → Runs (finish_recovery ms u) s (Failed s)
  unfolding finish_recovery
  finish_recovery-Stale ms u s m h stale =
      Runs->>= (write_state 0 EcState.operational) _ s
        (write_state-Stale keeps states j 0 EcState.operational s m (omega arith) (inl refl) stale)
        λ _ s1 q1.
          Runs->>= (run_cycles 3) _ s1 (run_cycles-Stale keeps states j 3 s1 q1.0.mapped q1.1)
            λ _ s2 q2.
              let (rc, t, e, q) =
                Runs->>= (check_state 0 EcState.operational (micros ms)) judge_group s2
                  {R = Failed s} (check_group-Stale (micros ms) s2 q2.0.mapped q2.1)
                  (λ got s3 q3.
                    let (rc, t, e, q) = judge_group-Stale keeps states j got s3 q3.0.mapped q3.1 in
                    (
                      rc,
                      t,
                      e,
                      (q.0, Stays-trans q1.0 (Stays-trans q2.0 (Stays-trans q3.0 q.1))),
                    )) in
              (rc, t, rw (mul_int-micros ms s2 h) e, q)

  -- If, when the states are read at the start, a slave is not OPERATIONAL, the recovery of the
  -- Linux shim fails: it returns 0, even if the slave comes up and the group is found OPERATIONAL.
  pub soem_try_recover-Stale :
      (ms : ℤ) (s : St X)
      → IsMapped s
      → IsTimeout ms
      → 1 ≤ j
      → pos j ≤ℤ s.handle.context.slavecount
      → ((p.ecx_readstate (net_of s)).context.slavelist j).state ≢ EcState.operational
      → Runs (soem_try_recover valid ms) s (Failed s)
  unfolding soem_try_recover
  soem_try_recover-Stale ms s m h above below state =
      let n : Net X = p.ecx_readstate (net_of s) in
      let s1 : St X = after_call Call.read_state s n in
      let q1 : Stays s s1 = after_call-Stays Call.read_state s n (keeps.readstate (net_of s)) m in
      let stale : Stale j s1 = record {
        above = above;
        below = rw q1.slavecount below;
        state = state;
      } in
      let looped =
        for_slaves-Runs acknowledge_slave s.handle.context.slavecount (λ i u t. StaysStale j s t)
          (λ i u t q. (q.0.mapped.live, q.0.slavecount))
          (λ i u t one upto q.
            let (v, w, e, r) =
              acknowledge_slave-Stale keeps states j i u t q.0.mapped q.1 (omega (arith, m.few)) in
            (v, w, e, (Stays-trans q.0 r.0, r.1)))
          ec_maxslave 1 tt s1 (ground (arith, m.few)) (omega arith) (omega arith) (q1, stale) in
      let (rc, t, e, q) =
        Runs->>= (for_slaves ec_maxslave 1 tt acknowledge_slave) (finish_recovery ms) s1
          {R = Failed s} looped
          (λ u s2 q2.
            let (rc, t, e, q) = finish_recovery-Stale ms u s2 q2.0.mapped h q2.1 in
            (rc, t, e, (q.0, Stays-trans q2.0 q.1))) in
      (rc, t, ground (arith, m.live, e), q)
