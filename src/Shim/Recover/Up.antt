-- ===== src/Shim/Recover/Up.antt =====
-- On a bus whose slaves answer and are OPERATIONAL, the calls and loops that end recovery keep them so.
use mathlib.Core.Path.{subst}
use xeryon_ether_cat.Base.{
  ℕ, zero, suc, ℤ, pos, pos_part, true, List, ◌≡◌, refl, ◌∙◌, sym, ap, ◌+◌, ◌≤ℤ◌, inl, inr, arith,
  ◌==◌, ◌&&◌,
}
use xeryon_ether_cat.Soem.{Platform, ec_maxslave}
use xeryon_ether_cat.Soem.EcState
use xeryon_ether_cat.Soem.Mapping.{KeepsMapping}
use xeryon_ether_cat.Shim.{St, LogLine, info, net_of}
use xeryon_ether_cat.Shim.Log.{log_after}
use xeryon_ether_cat.Shim.Mapped.{IsMapped, same-IsMapped}
use xeryon_ether_cat.Shim.Runs.{Runs, Runs->>=}
use xeryon_ether_cat.Shim.Recover.{
  usleep, send_processdata, receive_processdata, check_op, for_slaves, stabilize, verify_wkc,
}
use xeryon_ether_cat.Shim.Recover.Steps.{
  usleep-Runs, send_processdata-Runs, receive_processdata-Runs,
}
use xeryon_ether_cat.Shim.Recover.Loops.{for_slaves-Runs}
use xeryon_ether_cat.Shim.Recover.Verify.{AllOp, check_op-AllOp}
use xeryon_ether_cat.Shim.Recover.Cooperates.{
  Cooperates, state_at, Touches, log-Touches, call-Touches,
}
use xeryon_ether_cat.Shim.Linux.Stale.{KeepsStates}

module _ {X : Type 0} where
  -- The bus is mapped, and all slaves that were found are OPERATIONAL.
  abbrev pub Up : St X → Type 0
  Up s = IsMapped s × AllOp (pos_part s.handle.context.slavecount + 1) s

  pub Touches-Up : {s t : St X} → Up s → Touches 0 s t → Up t
  Touches-Up up touched = (
    touched.0.mapped,
    λ j. elim (touched.1 j) [
      | inl e ↦ inl (ground (arith, e))
      | inr same ↦ elim (up.1 j) [
        | inl none ↦ inl none
        | inr (inl behind) ↦ inr (inl (rw touched.0.slavecount behind))
        | inr (inr op) ↦ inr (inr (same ∙ op))
      ]
    ],
  )

module _ {X : Type 0} ⦃p : Platform X⦄ (keeps : KeepsMapping p) (states : KeepsStates p)
    {expected : ℤ} (coop : Cooperates p expected) where
  pub usleep-Up : (us : ℕ) (s : St X) → Up s → Runs (usleep us) s (λ _ t. Up t)
  usleep-Up us s up =
      let (u, t, e, (stays, calls, left)) = usleep-Runs keeps us s up.0 in
      (
        u,
        t,
        e,
        Touches-Up up (
            call-Touches 0 (u, p.osal_usleep us (net_of s)) u s t stays
              (ap (λ n. (u, n)) (sym left)) (λ j. inr (coop.usleep us (net_of s) j))),
      )

  send-Up : (s : St X) → Up s → Runs send_processdata s (λ _ t. Up t)
  send-Up s up =
      let (wkc, t, e, (stays, calls, left)) = send_processdata-Runs keeps s up.0 in
      (
        wkc,
        t,
        e,
        Touches-Up up (
            call-Touches 0 (p.ecx_send_processdata (net_of s)) wkc s t stays left
              (λ j. inr (states.send (net_of s) j))),
      )

  -- A cycle comes back with the working counter that is expected.
  receive-Up :
      (timeout_us : ℤ) (s : St X)
      → Up s
      → Runs (receive_processdata timeout_us) s (λ wkc t. Up t × (expected ≤ℤ wkc))
  receive-Up timeout_us s up =
      let (wkc, t, e, (stays, calls, left)) = receive_processdata-Runs keeps timeout_us s up.0 in
      (
        wkc,
        t,
        e,
        (
          Touches-Up up (
              call-Touches 0 (p.ecx_receive_processdata timeout_us (net_of s)) wkc s t stays left
                (λ j. inr (states.receive timeout_us (net_of s) j))),
          subst (λ r. expected ≤ℤ r.0) left (coop.wkc timeout_us (net_of s) up.1),
        ),
      )

  pub stabilize-Up : (n : ℕ) (s : St X) → Up s → Runs (stabilize n) s (λ _ t. Up t)
  unfolding stabilize
  stabilize-Up zero s up = (tt, s, refl, up)
  stabilize-Up (suc n) s up = Runs->>= send_processdata _ s (send-Up s up) λ sent s1 q1.
      Runs->>= (receive_processdata (pos 2000)) _ s1 (receive-Up (pos 2000) s1 q1) λ wkc s2 q2.
        Runs->>= (usleep 2000) _ s2 (usleep-Up 2000 s2 q2.0) λ _ s3 q3. stabilize-Up n s3 q3

  -- The first attempt is good.
  pub verify_wkc-Up :
      (n : ℕ) (s : St X) → Up s → Runs (verify_wkc expected (suc n)) s (λ ok t. (ok ≡ true) × Up t)
  unfolding verify_wkc
  verify_wkc-Up n s up = Runs->>= send_processdata _ s (send-Up s up) λ sent s1 q1.
      Runs->>= (receive_processdata (pos 2000)) _ s1 (receive-Up (pos 2000) s1 q1) λ wkc s2 q2.
        let t : St X = record s2 {
          log = log_after info "Recovery WKC check attempt %d: wkc=%d expected=%d" s2;
        } in
        (
          true,
          t,
          ground (arith, q2.1),
          (refl, Touches-Up q2.0 (log-Touches 0 s2 t refl refl refl refl q2.0.0)),
        )

  -- The last loop finds all slaves OPERATIONAL.
  pub check_op_loop-Up :
      (s : St X)
      → Up s
      → Runs
          (for_slaves ec_maxslave 1 true check_op)
          s
          (λ all t. (all ≡ true) × ((lines : List LogLine) × (t ≡ record s { log = lines })))
  check_op_loop-Up s up =
      for_slaves-Runs check_op s.handle.context.slavecount
        (λ i all t. (all ≡ true) × ((lines : List LogLine) × (t ≡ record s { log = lines })))
        (λ i all t q. rw q.1.1 (up.0.live, refl))
        (λ i all t one upto q.
          let s1 : St X = record s { log = q.1.0 } in
          let (more, e) =
            check_op-AllOp keeps s1 i all (same-IsMapped s s1 refl refl refl up.0)
              (omega (arith, up.0.few)) in
          (
            all && (state_at s i == EcState.operational),
            record s1 { log = more },
            rw q.1.1 e,
            (ground (arith, q.0, up.1 i, one, upto), (more, refl)),
          ))
        ec_maxslave 1 true s (ground (arith, up.0.few)) (omega arith) (omega arith)
        (refl, (s.log, refl))
