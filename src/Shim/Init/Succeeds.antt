-- ===== src/Shim/Init/Succeeds.antt =====
-- Initialisation on a machine with memory left, and a bus that answers.
use Prim.Native.String.{String}
use xeryon_ether_cat.Base.{
  ℕ, pos, pos_part, true, false, Option, some, ◌≡◌, refl, ◌≤◌, ◌<ℤ◌, inl, inr, arith, ◌==ℤ◌,
}
use xeryon_ether_cat.Soem.{Net, Platform, ec_maxslave}
use xeryon_ether_cat.Soem.Mapping.{KeepsMapping}
use xeryon_ether_cat.Shim.{St, Call, valid, net_of, after_call}
use xeryon_ether_cat.Shim.Mapped.{IsMapped}
use xeryon_ether_cat.Shim.Runs.{Runs, Runs-at}
use xeryon_ether_cat.Shim.Init.{
  iomap_size, new_handle, map_bus, allocate_iomap, find_slaves, open_interface, soem_initialize,
}
use xeryon_ether_cat.Shim.Init.Start.{start_bus-Stays}
use xeryon_ether_cat.Shim.Init.Resources.{MapsInside, Released, Started, Outcome, IsMapped-after}
use xeryon_ether_cat.Shim.Init.Lifecycle.{soem_initialize-Outcome}

-- There is memory left, the network card opens, there is a slave on the bus, and the process data
-- of the slaves fits the IO map that the shim has for it.
pub record Answers {X : Type 0} (p : Platform X) : Type 0 where
  pub malloc : (bus : X) (size : ℕ) → p.malloc bus size ≡ true
  pub init : (ifname : Option String) (n : Net X) → ((p.ecx_init ifname n).0 ==ℤ pos 0) ≡ false
  pub found : (n : Net X) → pos 0 <ℤ (p.ecx_config_init n).0
  pub some_data : (n : Net X) → pos 0 <ℤ (p.ecx_config_map_group n).0
  pub fits : (n : Net X) → pos_part (p.ecx_config_map_group n).0 ≤ iomap_size

module _ {X : Type 0} ⦃p : Platform X⦄ (keeps : KeepsMapping p) (maps : MapsInside p)
    (answers : Answers p) where
  map_bus-succeeds :
      (s : St X)
      → s.allocated ≡ true
      → s.iomap.size ≡ iomap_size
      → s.handle.context.slavecount <ℤ pos ec_maxslave
      → Runs map_bus s (λ h _. h ≡ valid)
  unfolding map_bus
  map_bus-succeeds s live size few =
      let s1 : St X = after_call Call.map_group s (p.ecx_config_map_group (net_of s)).1 in
      let positive = answers.some_data (net_of s) in
      let fits = answers.fits (net_of s) in
      let m1 : IsMapped s1 = IsMapped-after keeps maps s live size few positive fits in
      let (h, t, e, q) = start_bus-Stays keeps s1 m1 in
      (h, t, ground (arith, live, e, positive, fits), q.0)

  find_slaves-succeeds : (s : St X) → s.allocated ≡ true → Runs find_slaves s (λ h _. h ≡ valid)
  unfolding find_slaves allocate_iomap
  find_slaves-succeeds s live =
      let s1 : St X = after_call Call.config_init s (p.ecx_config_init (net_of s)).1 in
      let found = answers.found (net_of s) in
      let room = answers.malloc s1.bus iomap_size in
      let (h, t, e, q) =
        map_bus-succeeds (record s1 { iomap = record { size = iomap_size; byte = λ a. 0 } }) live
          refl (maps.few (net_of s)) in
      (h, t, ground (arith, live, found, room, e), q)

  -- With memory left, and a bus that opens and has slaves whose process data fits the IO map,
  -- initialisation from a state without blocks and with its port closed returns the handle, with
  -- the bus running on its IO map of 64 KiB and the port open.
  pub soem_initialize-Started :
      (ifname : Option String) (s : St X)
      → Released s
      → Runs (soem_initialize ifname) s (λ h t. (h ≡ valid) × Started t)
  unfolding soem_initialize open_interface
  soem_initialize-Started ifname s free =
      let s0 : St X = record s { handle = new_handle; allocated = true } in
      let s1 : St X = record (after_call Call.open_port s0 (p.ecx_init ifname (net_of s0)).1) {
        port_open = true;
      } in
      let room = answers.malloc s.bus p.handle_size in
      let opened = answers.init ifname (net_of s0) in
      let (h, t, e, good) = find_slaves-succeeds s1 refl in
      let run : soem_initialize ifname s ≡ some (h, t) = ground (arith, room, opened, e) in
      (
        h,
        t,
        run,
        elim (Runs-at (soem_initialize ifname) s Outcome
            (soem_initialize-Outcome keeps maps ifname s free) run) [
              | inl (no_handle, released) ↦ absurd (ground (arith, good, no_handle))
              | inr started ↦ started
            ],
      )
