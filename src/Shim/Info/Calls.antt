-- ===== src/Shim/Info/Calls.antt =====
-- The functions that report leave a mapped bus mapped, whatever they are asked.
use xeryon_ether_cat.Base.{
  ℕ, ℤ, pos, pos_part, some, none, Option, Bool-cases, List, refl, ◌+◌, ◌≤◌, inl, inr, arith, ltb_ℤ,
  leb_ℤ, length, if◌then◌else◌, ◌∷◌, take, drop, suc, ◌++◌, ◌<◌, ◌-◌, ltb,
}
use xeryon_ether_cat.Soem.{Platform, Net}
use xeryon_ether_cat.Soem.Mapping.{KeepsMapping}
use xeryon_ether_cat.Shim.{St, Call, valid, net_of, after_call, err}
use xeryon_ether_cat.Shim.Log.{log_after}
use xeryon_ether_cat.Shim.Mapped.{IsMapped}
use xeryon_ether_cat.Shim.Runs.{Runs, Stays, Stays-refl, Stays-trans, same-Stays, after_call-Stays}
use xeryon_ether_cat.Shim.Info.{
  SlaveInfo, Health, soem_scan_slaves, soem_get_health, soem_drain_error_list, copy_error,
  soem_get_process_sizes,
}
use xeryon_ether_cat.Shim.Info.Report.{scan_from-fills, count_op-Counted, health_of}

module _ {X : Type 0} where
  pub sizes-Stays :
      (outputs inputs : ℤ) (s : St X)
      → IsMapped s
      → Runs (soem_get_process_sizes valid (some outputs) (some inputs)) s (λ _ t. Stays s t)
  unfolding soem_get_process_sizes
  sizes-Stays outputs inputs s m = (
    (pos 1, some s.handle.output_length, some s.handle.input_length),
    s,
    ground (arith, m.live),
    Stays-refl s m,
  )

  pub scan-Stays :
      (buffer : List SlaveInfo) (max_count : ℤ) (s : St X)
      → pos_part max_count ≤ length buffer
      → IsMapped s
      → Runs (soem_scan_slaves valid (some buffer) max_count) s (λ _ t. Stays s t)
  unfolding soem_scan_slaves
  scan-Stays buffer max_count s room m =
      let found : ℤ = s.handle.context.slavecount in
      let filled : ℤ = if ltb_ℤ max_count found then max_count else found in
      elim (Bool-cases (leb_ℤ max_count (pos 0))) [
        | inl nothing ↦ ((pos 0, some buffer), s, ground (arith, nothing), Stays-refl s m)
        | inr something ↦
            let (out, e, same, elements) =
              scan_from-fills (pos_part filled) 0 buffer s m.live (ground (arith, m.few))
                (ground arith) in
            ((filled, some out), s, ground (arith, something, m.live, e), Stays-refl s m)
      ]

module _ {X : Type 0} ⦃p : Platform X⦄ (keeps : KeepsMapping p) where
  pub health-Stays :
      (old : Health) (s : St X)
      → IsMapped s
      → Runs (soem_get_health valid (some old)) s (λ _ t. Stays s t)
  unfolding soem_get_health
  health-Stays old s m =
      let n : Net X = p.ecx_readstate (net_of s) in
      let t : St X = after_call Call.read_state s n in
      let q : Stays s t = after_call-Stays Call.read_state s n (keeps.readstate (net_of s)) m in
      let found : ℕ = pos_part t.handle.context.slavecount in
      let (op, e, counted) =
        count_op-Counted found 1 0 t q.mapped.live (ground (arith, q.mapped.few)) in
      ((pos 1, some (health_of s t (0 + op))), t, ground (arith, m.live, e), q)

  copy_error-Stays :
      (error : Option (List ℕ)) (buf : List ℕ) (room : ℕ) (s : St X)
      → 0 < room
      → room ≤ length buf
      → IsMapped s
      → Runs (copy_error error buf room) s (λ _ t. Stays s t)
  unfolding copy_error
  copy_error-Stays none buf room s some_room fits m = (
    (pos 1, some (0 ∷ drop 1 buf)),
    record s { log = log_after err "No error string available.\n" s },
    ground arith,
    same-Stays s _ refl refl refl refl m,
  )
  copy_error-Stays (some error) buf room s some_room fits m =
      let n : ℕ = if ltb (length error) (room - 1) then length error else room - 1 in
      elim (Bool-cases (ltb 0 n)) [
        | inl text ↦ (
          (pos 1, some (take n error ++ 0 ∷ drop (suc n) buf)),
          record s { log = log_after err "Drained error string: %s\n" s },
          ground (arith, text),
          same-Stays s _ refl refl refl refl m,
        )
        | inr empty ↦ (
          (pos 1, some (take n error ++ 0 ∷ drop (suc n) buf)),
          s,
          ground (arith, empty),
          Stays-refl s m,
        )
      ]

  pub drain-Stays :
      (buf : List ℕ) (buf_sz : ℤ) (s : St X)
      → pos_part buf_sz ≤ length buf
      → IsMapped s
      → Runs (soem_drain_error_list valid (some buf) buf_sz) s (λ _ t. Stays s t)
  unfolding soem_drain_error_list
  drain-Stays buf buf_sz s room m = elim (Bool-cases (leb_ℤ buf_sz (pos 0))) [
    | inl nothing ↦ (
      (pos 0, some buf),
      record s { log = log_after err "Invalid arguments: h=%p, buf=%p, buf_sz=%d\n" s },
      ground (arith, nothing),
      same-Stays s _ refl refl refl refl m,
    )
    | inr something ↦
        let r = p.ecx_elist2string (net_of s) in
        let s1 : St X = after_call Call.error_list s r.1 in
        let q1 : Stays s s1 = after_call-Stays Call.error_list s r.1 (keeps.elist (net_of s)) m in
        let (out, t, e, q) =
          copy_error-Stays r.0 buf (pos_part buf_sz) s1 (ground (arith, something)) room
            q1.mapped in
        (out, t, ground (arith, something, m.live, e), Stays-trans q1 q)
  ]
