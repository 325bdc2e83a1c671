-- ===== src/Shim/Init/Lifecycle.antt =====
-- What `soem_initialize` and `soem_shutdown` do with the handle, the IO map and the port.
use Prim.Native.String.{String}
use xeryon_ether_cat.Base.{
  ℤ, pos, ◌≤ℤ◌, true, false, Option, ◌∷◌, ◌≡◌, refl, ◌<ℤ◌, inl, inr, arith, Bool-cases, ◌==ℤ◌,
  leb_ℤ, ap,
}
use xeryon_ether_cat.Soem.{Platform, ec_maxslave}
use xeryon_ether_cat.Soem.EcState
use xeryon_ether_cat.Soem.Mapping.{KeepsMapping}
use xeryon_ether_cat.Shim.{St, Call, Pointer, null, valid, ◌>>=◌, net_of, after_call, err}
use xeryon_ether_cat.Shim.Log.{log_after}
use xeryon_ether_cat.Shim.Mapped.{IsMapped}
use xeryon_ether_cat.Shim.Runs.{Runs, Runs->>=}
use xeryon_ether_cat.Shim.Recover.{write_state}
use xeryon_ether_cat.Shim.Recover.Steps.{write_state-Runs}
use xeryon_ether_cat.Shim.Init.{
  iomap_size, new_handle, allocate_iomap, find_slaves, open_interface, soem_initialize,
  soem_shutdown,
}
use xeryon_ether_cat.Shim.Init.Resources.{
  MapsInside, Released, Outcome, fail_early-Released, map_bus-Outcome,
}

module _ {X : Type 0} ⦃p : Platform X⦄ (keeps : KeepsMapping p) where
  -- Shutting down a mapped bus asks all slaves for INIT, closes the port after that, and releases
  -- every block.
  pub soem_shutdown-Released :
      (s : St X)
      → IsMapped s
      → Runs (soem_shutdown valid) s (λ _ t.
        Released t × (t.calls ≡ Call.close_port ∷ Call.write_state 0 EcState.init ∷ s.calls))
  unfolding soem_shutdown
  soem_shutdown-Released s m =
      Runs->>= (write_state 0 EcState.init) _ s
        (write_state-Runs keeps 0 EcState.init s m (omega arith))
        λ _ s1 q1.
          let s2 : St X = after_call Call.close_port s1 (p.ecx_close (net_of s1)) in
          (
            tt,
            record s2 {
              port_open = false;
              iomap = record s2.iomap { size = 0 };
              allocated = false;
            },
            ground (arith, q1.0.mapped.live),
            (
              record { allocated = refl; size = refl; port_open = refl },
              ap (λ calls. Call.close_port ∷ calls) q1.1,
            ),
          )

module _ {X : Type 0} ⦃p : Platform X⦄ (keeps : KeepsMapping p) (maps : MapsInside p) where
  allocate_iomap-Outcome :
      (s : St X)
      → s.allocated ≡ true
      → s.port_open ≡ true
      → s.iomap.size ≡ 0
      → s.handle.context.slavecount <ℤ pos ec_maxslave
      → pos 0 ≤ℤ s.handle.context.slavecount
      → Runs allocate_iomap s Outcome
  unfolding allocate_iomap
  allocate_iomap-Outcome s live port size few counted =
      elim (Bool-cases (p.malloc s.bus iomap_size)) [
        | inl room ↦
            let (r, t, e, o) =
              map_bus-Outcome keeps maps
                (record s { iomap = record { size = iomap_size; byte = λ a. 0 } }) live port refl
                few counted in
            (r, t, ground (arith, room, e), o)
        | inr none_left ↦
            let (r, t, e, o) =
              fail_early-Released "IOmap allocation failed (size=%zu)" s live size in
            (r, t, ground (arith, none_left, e), o)
      ]

  find_slaves-Outcome :
      (s : St X)
      → s.allocated ≡ true
      → s.port_open ≡ true
      → s.iomap.size ≡ 0
      → Runs find_slaves s Outcome
  unfolding find_slaves
  find_slaves-Outcome s live port size =
      let rc : ℤ = (p.ecx_config_init (net_of s)).0 in
      let s1 : St X = after_call Call.config_init s (p.ecx_config_init (net_of s)).1 in
      elim (Bool-cases (leb_ℤ rc (pos 0))) [
        | inl failed ↦
            let (r, t, e, o) =
              fail_early-Released "ecx_config_init failed: no slaves found or error (rc=%d)" s1 live
                size in
            (r, t, ground (arith, live, e), o)
        | inr found ↦
            let (r, t, e, o) =
              allocate_iomap-Outcome s1 live port size (maps.few (net_of s))
                (maps.counted (net_of s)) in
            (r, t, ground (arith, live, e), o)
      ]

  -- Initialisation from a state without blocks and with its port closed comes to an end. It
  -- returns NULL and has released what it took, on every path, or it returns the handle, with the
  -- port open and every slave's process data inside the IO map of 64 KiB.
  pub soem_initialize-Outcome :
      (ifname : Option String) (s : St X) → Released s → Runs (soem_initialize ifname) s Outcome
  unfolding soem_initialize open_interface
  soem_initialize-Outcome ifname s free =
      let s0 : St X = record s { handle = new_handle; allocated = true } in
      let s1 : St X = after_call Call.open_port s0 (p.ecx_init ifname (net_of s0)).1 in
      elim (Bool-cases (p.malloc s.bus p.handle_size)) [
        | inr none_left ↦ (null, s, ground (arith, none_left), inl (refl, free))
        | inl room ↦ elim (Bool-cases ((p.ecx_init ifname (net_of s0)).0 ==ℤ pos 0)) [
          | inl failed ↦ (
            null,
            record s1 {
              log = log_after err "ecx_init failed for interface '%s'" s1;
              allocated = false;
            },
            ground (arith, room, failed),
            inl (refl, record { allocated = refl; size = free.size; port_open = free.port_open }),
          )
          | inr opened ↦
              let (r, t, e, o) =
                find_slaves-Outcome (record s1 { port_open = true }) refl refl free.size in
              (r, t, ground (arith, room, opened, e), o)
        ]
      ]

  Outcome-shutdown :
      (r : Pointer) (s : St X) → Outcome r s → Runs (soem_shutdown r) s (λ _ t. Released t)
  unfolding soem_shutdown
  Outcome-shutdown null s (inl (e, released)) = (tt, s, refl, released)
  Outcome-shutdown null s (inr (e, started)) = absurd (ground (arith, e))
  Outcome-shutdown valid s (inl (e, released)) = absurd (ground (arith, e))
  Outcome-shutdown valid s (inr (e, started)) =
      let (u, t, run, q) = soem_shutdown-Released keeps s started.mapped in (u, t, run, q.0)

  -- Whatever `soem_initialize` returns, `soem_shutdown` of it leaves nothing behind.
  pub initialize_shutdown-Released :
      (ifname : Option String) (s : St X)
      → Released s
      → Runs (soem_initialize ifname >>= soem_shutdown) s (λ _ t. Released t)
  initialize_shutdown-Released ifname s free =
      Runs->>= (soem_initialize ifname) soem_shutdown s (soem_initialize-Outcome ifname s free)
        Outcome-shutdown
