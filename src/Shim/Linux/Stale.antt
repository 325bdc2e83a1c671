-- ===== src/Shim/Linux/Stale.antt =====
-- The recovery of the Linux shim judges the slaves by entries that it has not read again.
use mathlib.Core.Path.{subst}
use xeryon_ether_cat.Base.{
  ℕ, zero, suc, ℤ, pos, false, not, ◌≡◌, ◌≢◌, refl, ◌∙◌, sym, ◌+◌, ◌≤◌, ◌<◌, ◌≤ℤ◌, ◌⊎◌, inl, inr,
  arith, some, Bool-cases, ◌==◌, bit_and, ==_iff,
}
use xeryon_ether_cat.Soem.{Net, Platform, ec_maxslave}
use xeryon_ether_cat.Soem.EcState
use xeryon_ether_cat.Soem.Mapping.{KeepsMapping}
use xeryon_ether_cat.Shim.{St, Call, info, warn, net_of, after_call, set_state, with_context}
use xeryon_ether_cat.Shim.Log.{log_after}
use xeryon_ether_cat.Shim.Mapped.{IsMapped}
use xeryon_ether_cat.Shim.Runs.{Stays-refl, Runs, Stays, Stays-trans, same-Stays, after_call-Stays}
use xeryon_ether_cat.Shim.Recover.{write_state}
use xeryon_ether_cat.Shim.Recover.Steps.{set_state-Stays}
use xeryon_ether_cat.Shim.Linux.{
  judge_group, run_cycles, acknowledge_slave, all_operational, safe_op_ack,
}

-- SOEM documents that `ecx_writestate` does not look whether the state was reached, and that
-- `ecx_statecheck` for all slaves refreshes the entry 0 alone; process data has nothing to do with
-- the entries.
pub record KeepsStates {X : Type 0} (p : Platform X) : Type 0 where
  pub send :
      (n : Net X) (j : ℕ)
      → ((p.ecx_send_processdata n).1.context.slavelist j).state ≡ (n.context.slavelist j).state
  pub receive :
      (t : ℤ) (n : Net X) (j : ℕ)
      → ((p.ecx_receive_processdata t n).1.context.slavelist j).state
        ≡ (n.context.slavelist j).state
  pub writestate :
      (i : ℕ) (n : Net X) (j : ℕ)
      → ((p.ecx_writestate i n).context.slavelist j).state ≡ (n.context.slavelist j).state
  pub statecheck_all :
      (want : ℕ) (t : ℤ) (n : Net X) (j : ℕ)
      → (j ≡ 0)
        ⊎ (((p.ecx_statecheck 0 want t n).1.context.slavelist j).state
            ≡ (n.context.slavelist j).state)

-- Slave `j` was found, and its entry is not OPERATIONAL.
pub record Stale {X : Type 0} (j : ℕ) (s : St X) : Type 0 where
  pub above : 1 ≤ j
  pub below : pos j ≤ℤ s.handle.context.slavecount
  pub state : (s.handle.context.slavelist j).state ≢ EcState.operational

module _ {X : Type 0} (j : ℕ) where
  abbrev pub StaysStale : St X → St X → Type 0
  StaysStale s t = Stays s t × Stale j t

  -- The last loop does not get past such a slave.
  all_operational-Stale :
      (fuel i : ℕ) (s : St X)
      → IsMapped s
      → Stale j s
      → i ≤ j
      → j < fuel + i
      → all_operational fuel i s ≡ some (false, s)
  unfolding all_operational
  all_operational-Stale zero i s m stale le lt = absurd (omega arith)
  all_operational-Stale (suc fuel) i s m stale le lt =
      let upto : pos i ≤ℤ s.handle.context.slavecount = omega (arith, stale.below) in
      let fits : i < ec_maxslave = omega (arith, m.few) in
      elim (Bool-cases ((s.handle.context.slavelist i).state == EcState.operational)) [
        | inr other ↦ ground (arith, m.live, upto, fits, other)
        | inl op ↦
            let ne : i ≢ j = λ e. stale.state (
              subst (λ k. (s.handle.context.slavelist k).state ≡ EcState.operational) e
                ((==_iff _ _).0 op)) in
            let rest =
              all_operational-Stale fuel (i + 1) s m stale (omega (arith, ne)) (omega arith) in
            ground (arith, m.live, upto, fits, op, rest)
      ]

module _ {X : Type 0} ⦃p : Platform X⦄ (keeps : KeepsMapping p) (states : KeepsStates p)
    (j : ℕ) where
  -- A call that leaves the entry's state alone leaves the slave stale.
  pub same-Stale :
      (s t : St X)
      → Stays s t
      → (t.handle.context.slavelist j).state ≡ (s.handle.context.slavelist j).state
      → Stale j s
      → Stale j t
  same-Stale s t stays same stale = record {
    above = stale.above;
    below = rw stays.slavecount stale.below;
    state = λ e. stale.state (sym same ∙ e);
  }

  -- A new state for an entry, which is not OPERATIONAL or is that of the entry 0.
  pub write_state-Stale :
      (i st : ℕ) (s : St X)
      → IsMapped s
      → i < ec_maxslave
      → (i ≡ 0) ⊎ (st ≢ EcState.operational)
      → Stale j s
      → Runs (write_state i st) s (λ _ t. StaysStale j s t)
  write_state-Stale i st s m fits harmless stale =
      let s1 : St X = with_context s (set_state i st s.handle.context) in
      let q1 : Stays s s1 = set_state-Stays s i st m in
      let n : Net X = p.ecx_writestate i (net_of s1) in
      let t : St X = after_call (Call.write_state i st) s1 n in
      let q : Stays s t = Stays-trans q1 (
        after_call-Stays (Call.write_state i st) s1 n (keeps.writestate i (net_of s1)) q1.mapped) in
      let written : (s1.handle.context.slavelist j).state ≢ EcState.operational =
        ground (arith, stale.above, stale.state, harmless) in
      (
        tt,
        t,
        ground (arith, m.live, fits),
        (
          q,
          record {
            above = stale.above;
            below = rw q.slavecount stale.below;
            state = λ e. written (sym (states.writestate i (net_of s1) j) ∙ e);
          },
        ),
      )

  pub run_cycles-Stale :
      (n : ℕ) (s : St X) → IsMapped s → Stale j s → Runs (run_cycles n) s (λ _ t. StaysStale j s t)
  unfolding run_cycles
  run_cycles-Stale zero s m stale = (tt, s, refl, (Stays-refl s m, stale))
  run_cycles-Stale (suc n) s m stale =
      let r1 = p.ecx_send_processdata (net_of s) in
      let s1 : St X = after_call (Call.send r1.0) s r1.1 in
      let q1 : Stays s s1 = after_call-Stays (Call.send r1.0) s r1.1 (keeps.send (net_of s)) m in
      let r2 = p.ecx_receive_processdata (pos 1000) (net_of s1) in
      let s2 : St X = after_call (Call.receive (pos 1000) r2.0) s1 r2.1 in
      let q2 : Stays s1 s2 =
        after_call-Stays (Call.receive (pos 1000) r2.0) s1 r2.1
          (keeps.receive (pos 1000) (net_of s1)) q1.mapped in
      let there : Stays s s2 = Stays-trans q1 q2 in
      let stale2 : Stale j s2 =
        same-Stale s s2 there (states.receive (pos 1000) (net_of s1) j ∙ states.send (net_of s) j)
          stale in
      let (u, t, e, q) = run_cycles-Stale n s2 q2.mapped stale2 in
      (u, t, ground (arith, m.live, e), (Stays-trans there q.0, q.1))

  pub judge_group-Stale :
      (rc : ℕ) (s : St X)
      → IsMapped s
      → Stale j s
      → Runs (judge_group rc) s (λ res t. (res ≡ pos 0) × Stays s t)
  unfolding judge_group
  judge_group-Stale rc s m stale = elim (Bool-cases (rc == EcState.operational)) [
    | inr other ↦
        let t : St X = record s { log = log_after warn "Group failed to reach OP in %d ms" s } in
        (pos 0, t, ground arith, (refl, same-Stays s t refl refl refl refl m))
    | inl op ↦
        let t : St X = record s { log = log_after info "Recovery OK" s } in
        let q : Stays s t = same-Stays s t refl refl refl refl m in
        let e =
          all_operational-Stale j ec_maxslave 1 t q.mapped (same-Stale s t q refl stale) stale.above
            (omega (arith, m.few, stale.below)) in
        (pos 0, t, ground (arith, e), (refl, q))
  ]

  pub acknowledge_slave-Stale :
      (i : ℕ) (u : Unit {0}) (s : St X)
      → IsMapped s
      → Stale j s
      → i < ec_maxslave
      → Runs (acknowledge_slave i u) s (λ _ t. StaysStale j s t)
  unfolding acknowledge_slave
  acknowledge_slave-Stale i u s m stale fits =
      elim (Bool-cases (not (bit_and (s.handle.context.slavelist i).state EcState.error == 0))) [
        | inr fine ↦ (tt, s, ground (arith, m.live, fits), (Stays-refl s m, stale))
        | inl failed ↦
            let (v, t, e, q) = write_state-Stale i safe_op_ack s m fits (inr (λ e. cc e)) stale in
            (v, t, ground (arith, m.live, fits, e), q)
      ]
