-- ===== src/Shim/Info/Report.antt =====
-- What `soem_scan_slaves` and `soem_get_health` report of a mapped bus.
use xeryon_ether_cat.Shim.Exchange.{expected_wkc}
use xeryon_ether_cat.Base.{
  ℕ, zero, suc, pos, some, List, [], ◌∷◌, ◌≡◌, ◌≢◌, refl, ◌∙◌, ◌+◌, ◌≤◌, ◌<◌, ◌<ℤ◌, ◌⊎◌, inl, inr,
  arith, true, Bool-cases, ◌==◌, ltb, if◌then◌else◌, length, get_or, ap, signed32, leb_ℤ,
}
use xeryon_ether_cat.Soem.{Platform, ec_maxslave}
use xeryon_ether_cat.Soem.EcState
use xeryon_ether_cat.Soem.Mapping.{KeepsMapping}
use xeryon_ether_cat.Shim.{St, Call, valid, net_of, after_call}
use xeryon_ether_cat.Shim.Mapped.{IsMapped, after_call-IsMapped}
use xeryon_ether_cat.Shim.Info.{
  SlaveInfo, slave_info, scan_from, soem_scan_slaves, Health, count_op, soem_get_health,
}

-- An element in front of a list that is filled from the next one on.
cons_fills :
    (f : ℕ → SlaveInfo) (out buffer : List SlaveInfo) (first : SlaveInfo) (left i : ℕ)
    → ((k : ℕ) (old : SlaveInfo)
        → get_or out k old ≡ (if ltb k left then f (i + 1 + k) else get_or buffer k old))
    → (k : ℕ) (old : SlaveInfo)
    → get_or (f i ∷ out) k old
      ≡ (if ltb k (suc left) then f (i + k) else get_or (first ∷ buffer) k old)
cons_fills f out buffer first left i rest zero old = ground arith
cons_fills f out buffer first left i rest (suc k) old =
    let same : f (i + 1 + k) ≡ f (i + suc k) = ap f (omega arith) in
    ground (arith, rest k old, same)

module _ {X : Type 0} where
  -- The element `j` of a scan.
  abbrev pub scanned : St X → ℕ → SlaveInfo
  scanned s j = slave_info (j + 1) (s.handle.context.slavelist (j + 1))

  pub scan_from-fills :
      (left i : ℕ) (buffer : List SlaveInfo) (s : St X)
      → s.allocated ≡ true
      → i + left < ec_maxslave
      → left ≤ length buffer
      → (out : List SlaveInfo) × (scan_from left i buffer s ≡ some (out, s))
        × (length out ≡ length buffer)
        × ((k : ℕ) (old : SlaveInfo)
            → get_or out k old ≡ (if ltb k left then scanned s (i + k) else get_or buffer k old))
  unfolding scan_from
  scan_from-fills zero i buffer s live few room = (buffer, refl, refl, λ k old. ground arith)
  scan_from-fills (suc left) i [] s live few room = absurd (omega arith)
  scan_from-fills (suc left) i (first ∷ buffer) s live few room =
      let (out, e, same, elements) =
        scan_from-fills left (i + 1) buffer s live (omega arith) (omega arith) in
      (
        slave_info (i + 1) (s.handle.context.slavelist (i + 1)) ∷ out,
        ground (arith, live, e),
        ground (arith, same),
        cons_fills (scanned s) out buffer first left i elements,
      )

  -- What the health function reports in `t`, behind a call in `s`, of `n` OPERATIONAL slaves.
  abbrev pub health_of : St X → St X → ℕ → Health
  health_of s t n = record {
    slaves_found = s.handle.context.slavecount;
    group_expected_wkc = expected_wkc s.handle.context.group;
    last_wkc = s.handle.last_wkc;
    bytes_out = signed32 s.handle.context.group.obytes;
    bytes_in = signed32 s.handle.context.group.ibytes;
    slaves_op = n;
    al_status_code =
        if leb_ℤ (pos 1) t.handle.context.slavecount
        then (t.handle.context.slavelist 1).al_status_code
        else 0;
  }

  -- The states of the slaves from `i` on, `left` of them: all are OPERATIONAL, or one is not and
  -- fewer are.
  abbrev pub Counted : ℕ → ℕ → St X → ℕ → Type 0
  Counted left i s n =
      ((n ≡ left)
        × ((j : ℕ)
            → (j < i)
              ⊎ (i + left ≤ j)
              ⊎ ((s.handle.context.slavelist j).state ≡ EcState.operational)))
      ⊎ ((n < left)
          × ((j : ℕ) × (i ≤ j)
              × (j < i + left)
              × ((s.handle.context.slavelist j).state ≢ EcState.operational)))

  Counted-up :
      (left i n : ℕ) (s : St X)
      → (s.handle.context.slavelist i).state ≡ EcState.operational
      → Counted left (i + 1) s n
      → Counted (suc left) i s (suc n)
  Counted-up left i n s up (inl (all, states)) = inl (
    ap suc all,
    λ j. elim (Bool-cases (j == i)) [
      | inl here ↦ let e : j ≡ i = ground (arith, here) in inr (inr (rw e up))
      | inr there ↦ ground (arith, states j, there)
    ],
  )
  Counted-up left i n s up (inr (fewer, (j, above, below, state))) =
      inr (omega arith, (j, omega arith, omega arith, state))

  Counted-down :
      (left i n : ℕ) (s : St X)
      → (s.handle.context.slavelist i).state ≢ EcState.operational
      → Counted left (i + 1) s n
      → Counted (suc left) i s n
  Counted-down left i n s down (inl (all, states)) =
      inr (omega arith, (i, omega arith, omega arith, down))
  Counted-down left i n s down (inr (fewer, (j, above, below, state))) =
      inr (omega arith, (j, omega arith, omega arith, state))

  pub count_op-Counted :
      (left i op : ℕ) (s : St X)
      → s.allocated ≡ true
      → i + left ≤ ec_maxslave
      → (n : ℕ) × (count_op left i op s ≡ some (op + n, s)) × Counted left i s n
  unfolding count_op
  count_op-Counted zero i op s live few = (0, ground arith, inl (refl, λ j. ground arith))
  count_op-Counted (suc left) i op s live few =
      elim (Bool-cases ((s.handle.context.slavelist i).state == EcState.operational)) [
        | inl up ↦
            let (n, e, counted) = count_op-Counted left (i + 1) (op + 1) s live (omega arith) in
            (suc n, ground (arith, live, up, e), Counted-up left i n s (ground (arith, up)) counted)
        | inr down ↦
            let (n, e, counted) = count_op-Counted left (i + 1) op s live (omega arith) in
            (
              n,
              ground (arith, live, down, e),
              Counted-down left i n s (ground (arith, down)) counted,
            )
      ]

  -- A scan of a mapped bus with a buffer of `max_count` elements returns how many it has filled:
  -- the smaller of that number and the number of slaves. Element `k` tells of slave `k + 1`, and
  -- the elements behind them stay.
  pub soem_scan_slaves-fills :
      (buffer : List SlaveInfo) (max_count slaves : ℕ) (s : St X)
      → IsMapped s
      → s.handle.context.slavecount ≡ pos slaves
      → 0 < max_count
      → max_count ≤ length buffer
      → let count : ℕ = if ltb max_count slaves then max_count else slaves in
        (out : List SlaveInfo) × (soem_scan_slaves valid (some buffer) (pos max_count) s
          ≡ some ((pos count, some out), s))
        × (length out ≡ length buffer)
        × ((k : ℕ) (old : SlaveInfo)
            → get_or out k old ≡ (if ltb k count then scanned s k else get_or buffer k old))
  unfolding soem_scan_slaves
  soem_scan_slaves-fills buffer max_count slaves s m found some_room room =
      let count : ℕ = if ltb max_count slaves then max_count else slaves in
      let few : pos slaves <ℤ pos ec_maxslave = rw found at m.few in
      let (out, e, same, elements) =
        scan_from-fills count 0 buffer s m.live (ground arith) (ground arith) in
      (
        out,
        ground (arith, m.live, found, e),
        same,
        λ k old.
            let shift : scanned s (0 + k) ≡ scanned s k = ap (scanned s) (omega arith) in
            ground (arith, elements k old, shift),
      )

module _ {X : Type 0} ⦃p : Platform X⦄ (keeps : KeepsMapping p) where
  -- The health of a mapped bus, by states that are read anew: the counters are those of the last
  -- cycle, and the number of OPERATIONAL slaves is the number of slaves found if all of them are
  -- OPERATIONAL, and less if one is not.
  pub soem_get_health-Counted :
      (old : Health) (slaves : ℕ) (s : St X)
      → IsMapped s
      → s.handle.context.slavecount ≡ pos slaves
      → let t : St X = after_call Call.read_state s (p.ecx_readstate (net_of s)) in
        (h : Health) × (soem_get_health valid (some old) s ≡ some ((pos 1, some h), t))
        × (h.slaves_found ≡ pos slaves)
        × (h.last_wkc ≡ s.handle.last_wkc)
        × (h.group_expected_wkc ≡ expected_wkc s.handle.context.group)
        × Counted slaves 1 t h.slaves_op
  unfolding soem_get_health
  soem_get_health-Counted old slaves s m found =
      let t : St X = after_call Call.read_state s (p.ecx_readstate (net_of s)) in
      let mt : IsMapped t =
        after_call-IsMapped Call.read_state s (p.ecx_readstate (net_of s))
          (keeps.readstate (net_of s)) m in
      let same : t.handle.context.slavecount ≡ pos slaves =
        (keeps.readstate (net_of s)).slavecount ∙ found in
      let few : pos slaves <ℤ pos ec_maxslave = rw found at m.few in
      let (n, e, counted) = count_op-Counted slaves 1 0 t m.live (omega arith) in
      (
        health_of s t n,
        let counts : (0 + n) ≡ n = omega arith in ground (arith, m.live, same, e, counts),
        found,
        refl,
        refl,
        counted,
      )
