-- ===== src/Shim/Exchange/Cycle.antt =====
-- `soem_exchange_process_data`: what it returns, and what it remembers of the cycle.
use xeryon_ether_cat.Shim.Pdo.Write.{with_bytes}
use mathlib.Core.Path.{subst}
use xeryon_ether_cat.Base.{
  ℕ, ℤ, pos, List, ◌∷◌, Option, some, Bool-cases, ◌≡◌, refl, ◌≤ℤ◌, ◌<ℤ◌, ◌⊎◌, inl, inr, arith,
  ltb_ℤ, leb_ℤ, if◌then◌else◌, ap, ◌∙◌,
}
use xeryon_ether_cat.Soem.{Net, Platform}
use xeryon_ether_cat.Soem.Mapping.{KeepsMapping}
use xeryon_ether_cat.Shim.{
  St, Call, valid, net_of, after_call, send_fail, recv_fail, wkc_low, LogLine, warn, err,
}
use xeryon_ether_cat.Shim.Log.{log_after}
use xeryon_ether_cat.Shim.Mapped.{IsMapped}
use xeryon_ether_cat.Shim.Runs.{Stays, Stays-trans, after_call-Stays, same-Stays}
use xeryon_ether_cat.Shim.Exchange.{
  soem_exchange_process_data, run_cycle, receive_cycle, judge_wkc, expected_wkc, prepare_outputs,
}
use xeryon_ether_cat.Shim.Exchange.Buffers.{Fits, copy_inputs_total, prepare_outputs_total}

-- What a received frame leads to: an error, a working counter that is too low, or the counter.
abbrev pub Received : ℤ → ℤ → ℤ → Type 0
Received received expected rc =
    ((received <ℤ pos 0) × (rc ≡ recv_fail))
    ⊎ ((pos 0 ≤ℤ received) × (pos 0 <ℤ expected) × (received <ℤ expected) × (rc ≡ wkc_low))
    ⊎ ((pos 0 ≤ℤ received) × ((expected ≤ℤ pos 0) ⊎ (expected ≤ℤ received)) × (rc ≡ received))

module _ {X : Type 0} ⦃p : Platform X⦄ where
  -- The state after `ecx_send_processdata`.
  abbrev pub sent_state : St X → St X
  sent_state s =
      after_call (Call.send (p.ecx_send_processdata (net_of s)).0) s
        (p.ecx_send_processdata (net_of s)).1

  abbrev pub wkc_sent : St X → ℤ
  wkc_sent s = (p.ecx_send_processdata (net_of s)).0

  abbrev pub wkc_received : ℤ → St X → ℤ
  wkc_received t s = (p.ecx_receive_processdata t (net_of s)).0

  judge_wkc-Received :
      (s : St X) (received expected : ℤ)
      → pos 0 ≤ℤ received
      → (rc : ℤ) × (lines : List LogLine) × (judge_wkc received expected s
          ≡ some (rc, record s { log = lines }))
        × Received received expected rc
  unfolding judge_wkc
  judge_wkc-Received s received expected nonneg = elim (Bool-cases (leb_ℤ expected (pos 0))) [
    | inl unmapped ↦ (
      received,
      log_after warn "Expected WKC is %d (check mapping). Returning wkc=%d" s,
      ground arith,
      ground arith,
    )
    | inr mapped ↦ elim (Bool-cases (ltb_ℤ received expected)) [
      | inl low ↦ (
        wkc_low,
        log_after err "WKC low: got=%d expected=%d (Obytes=%u Ibytes=%u, oWKC=%u iWKC=%u)" s,
        ground arith,
        ground arith,
      )
      | inr enough ↦ (received, s.log, ground arith, ground arith)
    ]
  ]

  receive_cycle-Received :
      (inputs : Option (List ℕ)) (len t expected : ℤ) (s : St X)
      → KeepsMapping p
      → IsMapped s
      → Fits inputs len
      → (rc : ℤ) × (out : Option (List ℕ)) × (s' : St X) × (receive_cycle inputs len t expected s
          ≡ some ((rc, out), s'))
        × Stays s s'
        × Received (wkc_received t s) expected rc
        × (s'.handle.last_wkc ≡ wkc_received t s)
        × (s'.handle.last_expected_wkc ≡ expected)
        × (s'.calls ≡ Call.receive t (wkc_received t s) ∷ s.calls)
        × (net_of s' ≡ (p.ecx_receive_processdata t (net_of s)).1)
  unfolding receive_cycle
  receive_cycle-Received inputs len t expected s keeps m fits =
      let received = wkc_received t s in
      let n : Net X = (p.ecx_receive_processdata t (net_of s)).1 in
      let s1 : St X = after_call (Call.receive t received) s n in
      let s2 : St X = record s1 {
        handle = record s1.handle { last_wkc = received; last_expected_wkc = expected };
      } in
      let q1 : Stays s s1 =
        after_call-Stays (Call.receive t received) s n (keeps.receive t (net_of s)) m in
      let q2 : Stays s s2 = Stays-trans q1 (same-Stays s1 s2 refl refl refl refl q1.mapped) in
      elim (Bool-cases (ltb_ℤ received (pos 0))) [
        | inl failed ↦
            let s3 : St X = record s2 {
              log =
                  log_after err
                    "ecx_receive_processdata failed rc=%d (expected WKC=%d, timeout_us=%d)" s2;
            } in
            (
              recv_fail,
              inputs,
              s3,
              ground (arith, m.live),
              Stays-trans q2 (same-Stays s2 s3 refl refl refl refl q2.mapped),
              ground arith,
              refl,
              refl,
              refl,
              refl,
            )
        | inr came ↦
            let (out, copied) = copy_inputs_total s2 inputs len q2.mapped fits in
            let (rc, lines, judged, code) =
              judge_wkc-Received s2 received expected (ground arith) in
            let s3 : St X = record s2 { log = lines } in
            (
              rc,
              out,
              s3,
              ground (arith, m.live, copied, judged),
              Stays-trans q2 (same-Stays s2 s3 refl refl refl refl q2.mapped),
              code,
              refl,
              refl,
              refl,
              refl,
            )
      ]

  -- How a cycle from `s` with the code `rc` and the buffer `out` has ended, in the state `s'`. A
  -- frame that was not sent leaves the counters of the handle alone. The context and the IO map are
  -- as the last call of SOEM left them.
  abbrev pub Cycle : Option (List ℕ) → ℤ → St X → ℤ → Option (List ℕ) → St X → Type 0
  Cycle inputs t s rc out s' =
      ((wkc_sent s <ℤ pos 0)
        × (rc ≡ send_fail)
        × (out ≡ inputs)
        × (s'.handle.last_wkc ≡ s.handle.last_wkc)
        × (s'.handle.last_expected_wkc ≡ s.handle.last_expected_wkc)
        × (s'.calls ≡ Call.send (wkc_sent s) ∷ s.calls)
        × (net_of s' ≡ net_of (sent_state s)))
      ⊎ ((pos 0 ≤ℤ wkc_sent s)
          × Received (wkc_received t (sent_state s)) (expected_wkc s.handle.context.group) rc
          × (s'.handle.last_wkc ≡ wkc_received t (sent_state s))
          × (s'.handle.last_expected_wkc ≡ expected_wkc s.handle.context.group)
          × (s'.calls
              ≡ Call.receive t (wkc_received t (sent_state s)) ∷ Call.send (wkc_sent s) ∷ s.calls)
          × (net_of s' ≡ (p.ecx_receive_processdata t (net_of (sent_state s))).1))

  -- The whole cycle of a mapped state: it comes to an end, leaves the state mapped, and its code
  -- says how far it came. A frame that was not sent leaves the counters of the handle alone.
  pub run_cycle-codes :
      (inputs : Option (List ℕ)) (len t : ℤ) (s : St X)
      → KeepsMapping p
      → IsMapped s
      → Fits inputs len
      → (rc : ℤ) × (out : Option (List ℕ)) × (s' : St X) × (run_cycle inputs len t s
          ≡ some ((rc, out), s'))
        × Stays s s'
        × Cycle inputs t s rc out s'
  unfolding run_cycle
  run_cycle-codes inputs len t s keeps m fits =
      let n : Net X = (p.ecx_send_processdata (net_of s)).1 in
      let s1 : St X = sent_state s in
      let q1 : Stays s s1 =
        after_call-Stays (Call.send (wkc_sent s)) s n (keeps.send (net_of s)) m in
      elim (Bool-cases (ltb_ℤ (wkc_sent s) (pos 0))) [
        | inl failed ↦
            let s2 : St X = record s1 {
              log = log_after err "ecx_send_processdata failed rc=%d (expected WKC=%d)" s1;
            } in
            (
              send_fail,
              inputs,
              s2,
              ground (arith, m.live),
              Stays-trans q1 (same-Stays s1 s2 refl refl refl refl q1.mapped),
              inl (ground arith, refl, refl, refl, refl, refl, refl),
            )
        | inr went ↦
            let (rc, out, s2, run, q2, code, last, expected, calls, left) =
              receive_cycle-Received inputs len t (expected_wkc s1.handle.context.group) s1 keeps
                q1.mapped fits in
            let same = (keeps.send (net_of s)).group in
            (
              rc,
              out,
              s2,
              ground (arith, m.live, run),
              Stays-trans q1 q2,
              inr (
                ground arith,
                subst (λ g. Received (wkc_received t s1) (expected_wkc g) rc) same code,
                last,
                expected ∙ ap expected_wkc same,
                calls,
                left,
              ),
            )
      ]

  -- An exchange on a mapped bus, with buffers of the lengths that are passed, comes to an end and
  -- leaves the bus mapped: the outputs are prepared, and one cycle is run, with a negative timeout
  -- taken for 0. If the frame is not sent the code is SEND_FAIL, and the counters of the handle and
  -- the caller's inputs stay; else the handle has the counters of this cycle, and the code is
  -- RECV_FAIL for an error, WKC_LOW for a counter below an expected one that is positive, and the
  -- counter itself if not. The context and the IO map are as SOEM's last call left them.
  pub soem_exchange_process_data-codes :
      (outputs inputs : Option (List ℕ)) (outputs_len inputs_len timeout_us : ℤ) (s : St X)
      → KeepsMapping p
      → IsMapped s
      → Fits outputs outputs_len
      → Fits inputs inputs_len
      → let t : ℤ = if ltb_ℤ timeout_us (pos 0) then pos 0 else timeout_us in
        (mem : ℕ → ℕ) × (rc : ℤ) × (out : Option (List ℕ)) × (s' : St X) × (prepare_outputs outputs
            outputs_len s
          ≡ some (tt, with_bytes s mem))
        × (soem_exchange_process_data valid outputs outputs_len inputs inputs_len timeout_us s
            ≡ some ((rc, out), s'))
        × Stays s s'
        × Cycle inputs t (with_bytes s mem) rc out s'
  unfolding soem_exchange_process_data
  soem_exchange_process_data-codes outputs inputs outputs_len inputs_len timeout_us s keeps m fo
        fi =
      let (mem, prepared) = prepare_outputs_total s outputs outputs_len m fo in
      let t : ℤ = if ltb_ℤ timeout_us (pos 0) then pos 0 else timeout_us in
      let s1 : St X = with_bytes s mem in
      let q1 : Stays s s1 = same-Stays s s1 refl refl refl refl m in
      let (rc, out, s', run, q, codes) =
        run_cycle-codes inputs inputs_len t s1 keeps q1.mapped fi in
      (mem, rc, out, s', prepared, rw (prepared) run, Stays-trans q1 q, codes)
