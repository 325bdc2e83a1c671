-- ===== src/Shim/Init/Idle.antt =====
-- What initialisation leaves at the outputs of the slaves.

use mathlib.Core.Path.{subst}
use xeryon_ether_cat.Base.{
  ◌-◌, ℕ, zero, suc, ℤ, pos, pos_part, true, none, some, ◌≡◌, refl, ◌∙◌, sym, ap, ◌+◌, ◌*◌, ◌≤◌,
  arith, ◌==ℤ◌, ltb_ℤ, if◌then◌else◌,
}
use xeryon_ether_cat.Soem.{Context, Net, Platform, ec_timeoutstate}
use xeryon_ether_cat.Soem.EcState
use xeryon_ether_cat.Soem.Mapping.{KeepsMapping, SameMapping, SameMapping-trans}
use xeryon_ether_cat.Shim.{St, Call, valid, pure, net_of, after_call, with_context, set_state}
use xeryon_ether_cat.Shim.Log.{log_err}
use xeryon_ether_cat.Shim.Mapped.{IsMapped}
use xeryon_ether_cat.Shim.Runs.{Runs, Runs->>=, Stays, after_call-Stays}
use xeryon_ether_cat.Shim.Pdo.{soem_write_rxpdo}
use xeryon_ether_cat.Shim.Pdo.Image.{IsStaged}
use xeryon_ether_cat.Shim.Pdo.Write.{Writable}
use xeryon_ether_cat.Shim.Exchange.{soem_exchange_process_data}
use xeryon_ether_cat.Shim.Recover.{check_state, write_state}
use xeryon_ether_cat.Shim.Recover.Steps.{check_state-Runs, write_state-Runs, set_state-SameMapping}
use xeryon_ether_cat.Shim.Staging.{Commands, accepts, Shown, IsLaidOut, KeepsOutputs}
use xeryon_ether_cat.Shim.Staging.Layout.{accepts-Writable}
use xeryon_ether_cat.Shim.Staging.Refines.{ShowsOn, stage_act, exchange-ShowsOn, after_Shows}
use xeryon_ether_cat.Shim.Init.{
  nop, stage_nops, read_inputs, probe_bus, go_operational, set_lengths, start_bus,
}
use xeryon_ether_cat.Shim.Init.Start.{nop-IsRxPdo}
use xeryon_ether_cat.Shim.Init.Nops.{
  nops, nops-step, Quiet-ShowsOn, Shows-ext, if_log-Quiet, read_inputs-Quiet, set_lengths-Quiet,
}

-- The calls that change the states of slaves do not write to the IO map.
pub record KeepsBytes {X : Type 0} (p : Platform X) : Type 0 where
  pub statecheck :
      (i want : ℕ) (t : ℤ) (n : Net X) (a : ℕ) → (p.ecx_statecheck i want t n).1.byte a ≡ n.byte a
  pub writestate : (i : ℕ) (n : Net X) (a : ℕ) → (p.ecx_writestate i n).byte a ≡ n.byte a

module _ {X : Type 0} ⦃p : Platform X⦄ (keeps : KeepsMapping p) (outputs : KeepsOutputs p)
    (bytes : KeepsBytes p) where
  stage_nops-ShowsOn :
      (c : Context) (left i : ℕ) (s : St X)
      → IsLaidOut c
      → 1 ≤ i
      → ShowsOn c (nops c i) s
      → Runs (stage_nops left i) s (λ _ t. ShowsOn c (nops c (left + i)) t)
  unfolding stage_nops
  stage_nops-ShowsOn c zero i s laid one on =
      (tt, s, refl, subst (λ k. ShowsOn c (nops c k) s) (omega arith) on)
  stage_nops-ShowsOn c (suc left) i s laid one on =
      Runs->>= (soem_write_rxpdo valid (pos i) (some nop)) _ s
        (stage_act keeps outputs c (pos i) nop (nops c i) s laid nop-IsRxPdo on)
        λ written s1 on1.
          Runs->>=
            (if written ==ℤ pos 0 then log_err "write_rxpdo failed for slave %d" else pure tt) _ s1
            (if_log-Quiet (written ==ℤ pos 0) _ s1 on1.mapped)
            λ _ s2 q2.
              let on2 = Quiet-ShowsOn c _ s1 s2 q2 on1 in
              let (a, t, e, q) = stage_nops-ShowsOn c left (i + 1) s2 laid (omega arith) (record {
                mapped = on2.mapped;
                same = on2.same;
                shows = Shows-ext _ (nops c (i + 1)) s2 (λ j. nops-step c i j one) on2.shows;
              }) in
              (a, t, e, subst (λ k. ShowsOn c (nops c k) t) (omega arith) q)

  probe_bus-ShowsOn :
      (c : Context) (commands : Commands) (s : St X)
      → IsLaidOut c
      → ShowsOn c commands s
      → Runs probe_bus s (λ _ t. ShowsOn c commands t)
  unfolding probe_bus
  probe_bus-ShowsOn c commands s laid on =
      Runs->>= (soem_exchange_process_data valid none (pos 0) none (pos 0) (pos 2000)) _ s
        (exchange-ShowsOn keeps outputs c none (pos 0) (pos 2000) commands s laid tt on)
        λ r s1 q1.
          let (a, t, e, q) =
            if_log-Quiet (ltb_ℤ r.0 (pos 0)) "probe exchange failed rc=%d" s1 q1.1.mapped in
          (a, t, e, Quiet-ShowsOn c commands s1 t q q1.1)

  -- A call of SOEM that leaves the mapping and the bytes alone.
  call-ShowsOn :
      (c : Context) (commands : Commands) (s t : St X) (n : Net X)
      → net_of t ≡ n
      → Stays s t
      → SameMapping n.context s.handle.context
      → ((a : ℕ) → n.byte a ≡ s.iomap.byte a)
      → ShowsOn c commands s
      → ShowsOn c commands t
  call-ShowsOn c commands s t n e stays same unwritten on =
      let kept =
        after_Shows keeps outputs s t n commands e same (λ i at k o below. unwritten (at + k))
          on.shows in
      record {
        mapped = stays.mapped;
        same = SameMapping-trans _ _ _ kept.0 on.same;
        shows = kept.1;
      }

  check_state-ShowsOn :
      (want : ℕ) (timeout_us : ℤ) (c : Context) (commands : Commands) (s : St X)
      → ShowsOn c commands s
      → Runs (check_state 0 want timeout_us) s (λ _ t. ShowsOn c commands t)
  check_state-ShowsOn want timeout_us c commands s on =
      let (got, t, e, (stays, calls, left)) =
        check_state-Runs keeps 0 want timeout_us s on.mapped in
      (
        got,
        t,
        e,
        call-ShowsOn c commands s t (p.ecx_statecheck 0 want timeout_us (net_of s)).1
            (sym (ap (λ r. r.1) left)) stays (keeps.statecheck 0 want timeout_us (net_of s))
            (bytes.statecheck 0 want timeout_us (net_of s)) on,
      )

  write_state-ShowsOn :
      (st : ℕ) (c : Context) (commands : Commands) (s : St X)
      → ShowsOn c commands s
      → Runs (write_state 0 st) s (λ _ t. ShowsOn c commands t)
  write_state-ShowsOn st c commands s on =
      let (u, t, e, (stays, calls, left)) = write_state-Runs keeps 0 st s on.mapped (omega arith) in
      let n : Net X = net_of (with_context s (set_state 0 st s.handle.context)) in
      (
        u,
        t,
        e,
        call-ShowsOn c commands s t (p.ecx_writestate 0 n) left stays
            (SameMapping-trans _ _ _ (keeps.writestate 0 n)
              (set_state-SameMapping s.handle.context 0 st))
            (bytes.writestate 0 n) on,
      )

  go_operational-ShowsOn :
      (c : Context) (commands : Commands) (s : St X)
      → ShowsOn c commands s
      → Runs go_operational s (λ _ t. ShowsOn c commands t)
  unfolding go_operational
  go_operational-ShowsOn c commands s on =
      Runs->>= (check_state 0 EcState.safe_op (pos (ec_timeoutstate * 4))) _ s
        (check_state-ShowsOn EcState.safe_op (pos (ec_timeoutstate * 4)) c commands s on)
        λ _ s1 q1.
          Runs->>= (write_state 0 EcState.operational) _ s1
            (write_state-ShowsOn EcState.operational c commands s1 q1)
            λ _ s2 q2.
              Runs->>= (check_state 0 EcState.operational (pos ec_timeoutstate)) _ s2
                (check_state-ShowsOn EcState.operational (pos ec_timeoutstate) c commands s2 q2)
                λ _ s3 q3. (tt, s3, refl, q3)

  start_bus-ShowsOn :
      (s : St X)
      → IsMapped s
      → IsLaidOut s.handle.context
      → Runs start_bus s (λ h t.
        (h ≡ valid)
        × ShowsOn s.handle.context
            (nops s.handle.context (pos_part s.handle.context.slavecount + 1))
            t)
  unfolding start_bus
  start_bus-ShowsOn s m laid =
      let c : Context = s.handle.context in
      let n : Net X = p.ecx_configdc (net_of s) in
      let s0 : St X = after_call Call.config_dc s n in
      let q0 : Stays s s0 = after_call-Stays Call.config_dc s n (keeps.configdc (net_of s)) m in
      let count : ℕ = pos_part s0.handle.context.slavecount in
      let same : count + 1 ≡ pos_part c.slavecount + 1 = ap (λ z. pos_part z + 1) q0.slavecount in
      let on0 : ShowsOn c (nops c 1) s0 = record {
        mapped = q0.mapped;
        same = keeps.configdc (net_of s);
        shows =
            Shows-ext (λ _. none) (nops c 1) s0 (λ j. ground arith) (record { shown = λ j. tt });
      } in
      let (h, t, e, q) =
        Runs->>= (stage_nops count 1) _ s0 (stage_nops-ShowsOn c count 1 s0 laid (omega arith) on0)
          λ _ s1 q1.
            Runs->>= probe_bus _ s1 (probe_bus-ShowsOn c (nops c (count + 1)) s1 laid q1) λ _ s2 q2.
              Runs->>= (read_inputs count 1) _ s2 (read_inputs-Quiet count 1 s2 q2.mapped)
                λ _ s3 q3.
                  Runs->>= go_operational _ s3
                    (go_operational-ShowsOn c (nops c (count + 1)) s3
                      (Quiet-ShowsOn c (nops c (count + 1)) s2 s3 q3 q2))
                    λ _ s4 q4.
                      Runs->>= set_lengths (λ _. pure valid) s4
                        {R = λ h t. (h ≡ valid) × ShowsOn c (nops c (count + 1)) t}
                        (set_lengths-Quiet s4 q4.mapped)
                        λ _ s5 q5. (
                          valid,
                          s5,
                          refl,
                          (refl, Quiet-ShowsOn c (nops c (count + 1)) s4 s5 q5 q4),
                        ) in
      (h, t, ground (arith, m.live, e), (q.0, subst (λ k. ShowsOn c (nops c k) t) same q.1))

  -- Behind a mapping in which SOEM has laid the slaves' outputs apart, initialisation starts the
  -- bus, returns the handle, and leaves the NOP command at the outputs of every slave that can be
  -- written to.
  pub start_bus-IsStaged :
      (s : St X) (i : ℤ) (at : ℕ)
      → IsMapped s
      → IsLaidOut s.handle.context
      → Writable s i at
      → Runs start_bus s (λ h t. (h ≡ valid) × IsStaged t.iomap.byte at nop)
  start_bus-IsStaged s i at m laid w =
      let (h, t, e, (good, on)) = start_bus-ShowsOn s m laid in
      let j : ℕ = pos_part i - 1 in
      let number : pos (suc j) ≡ i = ground (arith, w.above) in
      let there : Writable s (pos (suc j)) at = subst (λ k. Writable s k at) (sym number) w in
      let taken : accepts s.handle.context (pos (suc j)) ≡ true =
        accepts-Writable s (pos (suc j)) at there in
      let given : nops s.handle.context (pos_part s.handle.context.slavecount + 1) (suc j)
          ≡ some nop =
        ground (arith, taken, there.below) in
      let place : (t.handle.context.slavelist (suc j)).outputs ≡ some at =
        (on.same.slaves (suc j)).outputs ∙ there.mapped in
      let shown : Shown (some nop) (some at) t.iomap.byte =
        subst (λ o. Shown (some nop) o t.iomap.byte) place
          (subst (λ d. Shown d (t.handle.context.slavelist (suc j)).outputs t.iomap.byte) given
            (on.shows.shown j)) in
      (h, t, e, (good, shown))
