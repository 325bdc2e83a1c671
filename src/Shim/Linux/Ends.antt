-- ===== src/Shim/Linux/Ends.antt =====
-- How the recovery of the Linux shim ends.

use xeryon_ether_cat.Base.{
  ℕ, zero, suc, ℤ, pos, pos_part, Bool, true, false, not, ◌≡◌, refl, ◌+◌, ◌≤◌, ◌<◌, ◌⊎◌, inl, inr,
  arith, Bool-cases, ◌==◌, bit_and, leb_ℤ, ==_iff, some,
}
use xeryon_ether_cat.Soem.{Net, Platform, ec_maxslave}
use xeryon_ether_cat.Soem.EcState
use xeryon_ether_cat.Soem.Mapping.{KeepsMapping}
use xeryon_ether_cat.Shim.{St, Call, info, warn, valid, net_of, after_call}
use xeryon_ether_cat.Shim.Log.{log_after}
use xeryon_ether_cat.Shim.Mapped.{IsMapped}
use xeryon_ether_cat.Shim.Runs.{
  Runs, Stays, Stays-refl, Stays-trans, same-Stays, after_call-Stays, Stays->>=,
}
use xeryon_ether_cat.Shim.Recover.{write_state, check_state, send_processdata, receive_processdata}
use xeryon_ether_cat.Shim.Recover.Steps.{
  IsTimeout, micros, mul_int-micros, check_state-Runs, write_state-Runs, send_processdata-Runs,
  receive_processdata-Runs,
}
use xeryon_ether_cat.Shim.Recover.Loops.{for_slaves-Runs}
use xeryon_ether_cat.Shim.Linux.{
  soem_try_recover, finish_recovery, judge_group, run_cycles, acknowledge_slave, all_operational,
  safe_op_ack,
}

module _ {X : Type 0} where
  -- The slaves from `i` on are OPERATIONAL.
  abbrev OpFrom : ℕ → St X → Type 0
  OpFrom i s =
      (j : ℕ)
      → (j < i)
        ⊎ (pos_part s.handle.context.slavecount < j)
        ⊎ ((s.handle.context.slavelist j).state ≡ EcState.operational)

  -- What the recovery returns: 0, or 1 if every slave's entry is OPERATIONAL.
  abbrev pub Verified : ℤ → St X → Type 0
  Verified rc t = (rc ≡ pos 0) ⊎ ((rc ≡ pos 1) × OpFrom 1 t)

  OpFrom-step :
      (i : ℕ) (ok : Bool) (s : St X)
      → ((s.handle.context.slavelist i).state == EcState.operational) ≡ true
      → (ok ≡ false) ⊎ ((ok ≡ true) × OpFrom (i + 1) s)
      → (ok ≡ false) ⊎ ((ok ≡ true) × OpFrom i s)
  OpFrom-step i ok s up (inl no_more) = inl no_more
  OpFrom-step i ok s up (inr (all, states)) = inr (
    all,
    λ j. elim (Bool-cases (j == i)) [
      | inl here ↦ let e : j ≡ i = ground (arith, here) in inr (inr (rw e ((==_iff _ _).0 up)))
      | inr there ↦ ground (arith, states j, there)
    ],
  )

  all_operational-OpFrom :
      (fuel i : ℕ) (s : St X)
      → IsMapped s
      → 1 ≤ i
      → pos_part s.handle.context.slavecount + 1 < fuel + i
      → i ≤ pos_part s.handle.context.slavecount + 1
      → (ok : Bool) × (all_operational fuel i s ≡ some (ok, s))
        × ((ok ≡ false) ⊎ ((ok ≡ true) × OpFrom i s))
  unfolding all_operational
  all_operational-OpFrom zero i s m one enough last = absurd (omega arith)
  all_operational-OpFrom (suc fuel) i s m one enough last =
      elim (Bool-cases (leb_ℤ (pos i) s.handle.context.slavecount)) [
        | inr done ↦ (true, ground (arith, m.live, done), inr (refl, λ j. ground arith))
        | inl more ↦
            let fits : i < ec_maxslave = ground (arith, m.few) in
            elim (Bool-cases ((s.handle.context.slavelist i).state == EcState.operational)) [
              | inr down ↦ (false, ground (arith, m.live, fits, more, down), inl refl)
              | inl up ↦
                  let (ok, e, r) =
                    all_operational-OpFrom fuel (i + 1) s m (omega arith) (omega arith)
                      (ground arith) in
                  (ok, ground (arith, m.live, fits, more, up, e), OpFrom-step i ok s up r)
            ]
      ]

module _ {X : Type 0} ⦃p : Platform X⦄ (keeps : KeepsMapping p) where
  run_cycles-Stays :
      (n : ℕ) (s : St X) → IsMapped s → Runs (run_cycles n) s (λ _ t. Stays s t × Unit {0})
  unfolding run_cycles
  run_cycles-Stays zero s m = (tt, s, refl, (Stays-refl s m, tt))
  run_cycles-Stays (suc n) s m =
      Stays->>= send_processdata _ s (send_processdata-Runs keeps s m) (λ _ _ q. q.0)
        λ sent s1 m1 _.
          Stays->>= (receive_processdata (pos 1000)) _ s1
            (receive_processdata-Runs keeps (pos 1000) s1 m1) (λ _ _ q. q.0)
            λ wkc s2 m2 _. run_cycles-Stays n s2 m2

  acknowledge_slave-Stays :
      (i : ℕ) (u : Unit {0}) (s : St X)
      → IsMapped s
      → i < ec_maxslave
      → Runs (acknowledge_slave i u) s (λ _ t. Stays s t)
  unfolding acknowledge_slave
  acknowledge_slave-Stays i u s m fits =
      elim (Bool-cases (not (bit_and (s.handle.context.slavelist i).state EcState.error == 0))) [
        | inr fine ↦ (tt, s, ground (arith, m.live, fits), Stays-refl s m)
        | inl failed ↦
            let (v, t, e, q) = write_state-Runs keeps i safe_op_ack s m fits in
            (v, t, ground (arith, m.live, fits, e), q.0)
      ]

  judge_group-Verified :
      (rc : ℕ) (s : St X)
      → IsMapped s
      → Runs (judge_group rc) s (λ res t. Stays s t × Verified res t)
  unfolding judge_group
  judge_group-Verified rc s m = elim (Bool-cases (rc == EcState.operational)) [
    | inr other ↦
        let t : St X = record s { log = log_after warn "Group failed to reach OP in %d ms" s } in
        (pos 0, t, ground arith, (same-Stays s t refl refl refl refl m, inl refl))
    | inl op ↦
        let t : St X = record s { log = log_after info "Recovery OK" s } in
        let q : Stays s t = same-Stays s t refl refl refl refl m in
        let (ok, e, verified) =
          all_operational-OpFrom ec_maxslave 1 t q.mapped (omega arith) (ground (arith, m.few))
            (omega arith) in
        elim verified [
          | inl bad ↦ (pos 0, t, ground (arith, e, bad), (q, inl refl))
          | inr (good, all) ↦ (pos 1, t, ground (arith, e, good), (q, inr (refl, all)))
        ]
  ]

  finish_recovery-Verified :
      (ms : ℤ) (u : Unit {0}) (s : St X)
      → IsMapped s
      → IsTimeout ms
      → Runs (finish_recovery ms u) s (λ rc t. Stays s t × Verified rc t)
  unfolding finish_recovery
  finish_recovery-Verified ms u s m h =
      Stays->>= (write_state 0 EcState.operational) _ s
        (write_state-Runs keeps 0 EcState.operational s m (omega arith)) (λ _ _ q. q.0)
        λ _ s1 m1 _.
          Stays->>= (run_cycles 3) _ s1 (run_cycles-Stays 3 s1 m1) (λ _ _ q. q.0)
            λ _ s2 m2 _.
              let (rc, t, e, q) =
                Stays->>= (check_state 0 EcState.operational (micros ms)) judge_group s2
                  (check_state-Runs keeps 0 EcState.operational (micros ms) s2 m2) (λ _ _ q. q.0)
                  (λ got s3 m3 _. judge_group-Verified got s3 m3) in
              (rc, t, rw (mul_int-micros ms s2 h) e, q)

  -- The recovery of the Linux shim of a mapped bus comes to an end and leaves it mapped. It returns
  -- 0 or 1, and 1 only if every slave's entry is OPERATIONAL.
  pub soem_try_recover-Verified :
      (ms : ℤ) (s : St X)
      → IsMapped s
      → IsTimeout ms
      → Runs (soem_try_recover valid ms) s (λ rc t. Stays s t × Verified rc t)
  unfolding soem_try_recover
  soem_try_recover-Verified ms s m h =
      let n : Net X = p.ecx_readstate (net_of s) in
      let s1 : St X = after_call Call.read_state s n in
      let q1 : Stays s s1 = after_call-Stays Call.read_state s n (keeps.readstate (net_of s)) m in
      let looped =
        for_slaves-Runs acknowledge_slave s.handle.context.slavecount (λ i u t. Stays s t)
          (λ i u t q. (q.mapped.live, q.slavecount))
          (λ i u t one upto q.
            let (v, w, e, r) = acknowledge_slave-Stays i u t q.mapped (omega (arith, m.few)) in
            (v, w, e, Stays-trans q r))
          ec_maxslave 1 tt s1 (ground (arith, m.few)) (omega arith) (omega arith) q1 in
      let (u, s2, e2, q2) = looped in
      let (rc, t, e, (q, verified)) = finish_recovery-Verified ms u s2 q2.mapped h in
      (rc, t, ground (arith, m.live, e2, e), (Stays-trans q2 q, verified))
