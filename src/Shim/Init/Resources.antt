-- ===== src/Shim/Init/Resources.antt =====
-- The handle, the IO map and the port in `soem_initialize`: its exits, and its part from
-- `ecx_config_map_group` on.
use Prim.Native.String.{String}
use xeryon_ether_cat.Base.{
  ℕ, ℤ, pos, true, false, Option, none, some, ◌≡◌, refl, ◌∙◌, ◌≤◌, ◌≤ℤ◌, ◌<ℤ◌, ◌⊎◌, inl, inr, arith,
  Bool-cases, leb_ℤ, ltb, pos_part,
}
use xeryon_ether_cat.Soem.{Context, Net, Platform, ec_maxslave}
use xeryon_ether_cat.Soem.Mapping.{KeepsMapping}
use xeryon_ether_cat.Shim.{St, Call, Pointer, null, valid, net_of, after_call, err}
use xeryon_ether_cat.Shim.Log.{log_after}
use xeryon_ether_cat.Shim.Mapped.{IsMapped, Inside, InsideAll}
use xeryon_ether_cat.Shim.Runs.{Runs, Stays}
use xeryon_ether_cat.Shim.Init.{iomap_size, fail_early, fail_late, map_bus}
use xeryon_ether_cat.Shim.Init.Start.{start_bus-Stays}

-- All process data of a context lies in the first `size` bytes of the IO map.
pub record LiesInside (c : Context) (size : ℕ) : Type 0 where
  pub outs : (i : ℕ) → Inside (c.slavelist i).outputs (c.slavelist i).obytes size
  pub ins : (i : ℕ) → Inside (c.slavelist i).inputs (c.slavelist i).ibytes size
  pub group_outs : InsideAll c.group.outputs c.group.obytes size
  pub group_ins : InsideAll c.group.inputs c.group.ibytes size

-- SOEM finds no negative number of slaves, and fewer than its list has room for, mapping finds no more of them, and
-- `ecx_config_map_group` returns an error or the size of the part of the IO map that it uses.
pub record MapsInside {X : Type 0} (p : Platform X) : Type 0 where
  pub few : (n : Net X) → (p.ecx_config_init n).1.context.slavecount <ℤ pos ec_maxslave
  pub counted : (n : Net X) → pos 0 ≤ℤ (p.ecx_config_init n).1.context.slavecount
  pub slavecount :
      (n : Net X) → (p.ecx_config_map_group n).1.context.slavecount ≡ n.context.slavecount
  pub lies :
      (n : Net X)
      → ((p.ecx_config_map_group n).0 ≤ℤ pos 0)
        ⊎ LiesInside (p.ecx_config_map_group n).1.context (pos_part (p.ecx_config_map_group n).0)

module _ {X : Type 0} where
  -- No block is allocated, and the port is closed.
  pub record Released (s : St X) : Type 0 where
    pub allocated : s.allocated ≡ false
    pub size : s.iomap.size ≡ 0
    pub port_open : s.port_open ≡ false

  -- The bus runs on an IO map of 64 KiB.
  pub record Started (s : St X) : Type 0 where
    pub mapped : IsMapped s
    pub size : s.iomap.size ≡ iomap_size
    pub port_open : s.port_open ≡ true
    pub counted : pos 0 ≤ℤ s.handle.context.slavecount

  pub Stays-Started : (s t : St X) → Stays s t → Started s → Started t
  Stays-Started s t q o = record {
    mapped = q.mapped;
    size = q.size ∙ o.size;
    port_open = q.port_open ∙ o.port_open;
    counted = rw q.slavecount o.counted;
  }

  -- How an initialisation can end.
  abbrev pub Outcome : Pointer → St X → Type 0
  Outcome r t = ((r ≡ null) × Released t) ⊎ ((r ≡ valid) × Started t)

Inside-weaken : (q : Option ℕ) (n a b : ℕ) → a ≤ b → Inside q n a → Inside q n b
Inside-weaken none n a b h i = tt
Inside-weaken (some at) n a b h i = omega arith

InsideAll-weaken : (q : Option ℕ) (n a b : ℕ) → a ≤ b → InsideAll q n a → InsideAll q n b
InsideAll-weaken none n a b h i = i
InsideAll-weaken (some at) n a b h i = omega arith

module _ {X : Type 0} ⦃p : Platform X⦄ where
  pub fail_early-Released :
      (message : String) (s : St X)
      → s.allocated ≡ true
      → s.iomap.size ≡ 0
      → Runs (fail_early message) s Outcome
  unfolding fail_early
  fail_early-Released message s live size =
      let s1 : St X = record s { log = log_after err message s } in
      let s2 : St X = after_call Call.close_port s1 (p.ecx_close (net_of s1)) in
      (
        null,
        record s2 { port_open = false; allocated = false },
        ground (arith, live),
        inl (refl, record { allocated = refl; size = size; port_open = refl }),
      )

  pub fail_late-Released :
      (message : String) (s : St X) → s.allocated ≡ true → Runs (fail_late message) s Outcome
  unfolding fail_late
  fail_late-Released message s live =
      let s1 : St X = record s { log = log_after err message s } in
      let s2 : St X = after_call Call.close_port s1 (p.ecx_close (net_of s1)) in
      (
        null,
        record s2 { port_open = false; iomap = record s2.iomap { size = 0 }; allocated = false },
        ground (arith, live),
        inl (refl, record { allocated = refl; size = refl; port_open = refl }),
      )

module _ {X : Type 0} ⦃p : Platform X⦄ (keeps : KeepsMapping p) (maps : MapsInside p) where
  -- A size that fits makes the state mapped.
  pub IsMapped-after :
      (s : St X)
      → s.allocated ≡ true
      → s.iomap.size ≡ iomap_size
      → s.handle.context.slavecount <ℤ pos ec_maxslave
      → pos 0 <ℤ (p.ecx_config_map_group (net_of s)).0
      → pos_part (p.ecx_config_map_group (net_of s)).0 ≤ iomap_size
      → IsMapped (after_call Call.map_group s (p.ecx_config_map_group (net_of s)).1)
  IsMapped-after s live size few positive fits = elim (maps.lies (net_of s)) [
    | inl failed ↦ absurd (omega arith)
    | inr l ↦
        let c : Context = (p.ecx_config_map_group (net_of s)).1.context in
        let fits' : pos_part (p.ecx_config_map_group (net_of s)).0 ≤ s.iomap.size = omega arith in
        record {
          live = live;
          few = rw (maps.slavecount (net_of s)) few;
          outs = λ i. Inside-weaken (c.slavelist i).outputs _ _ _ fits' (l.outs i);
          ins = λ i. Inside-weaken (c.slavelist i).inputs _ _ _ fits' (l.ins i);
          group_outs = InsideAll-weaken c.group.outputs _ _ _ fits' l.group_outs;
          group_ins = InsideAll-weaken c.group.inputs _ _ _ fits' l.group_ins;
        }
  ]

  pub map_bus-Outcome :
      (s : St X)
      → s.allocated ≡ true
      → s.port_open ≡ true
      → s.iomap.size ≡ iomap_size
      → s.handle.context.slavecount <ℤ pos ec_maxslave
      → pos 0 ≤ℤ s.handle.context.slavecount
      → Runs map_bus s Outcome
  unfolding map_bus
  map_bus-Outcome s live port size few counted =
      let rc : ℤ = (p.ecx_config_map_group (net_of s)).0 in
      let s1 : St X = after_call Call.map_group s (p.ecx_config_map_group (net_of s)).1 in
      elim (Bool-cases (leb_ℤ rc (pos 0))) [
        | inl failed ↦
            let (r, t, e, o) = fail_late-Released "ecx_config_map_group failed: rc=%d" s1 live in
            (r, t, ground (arith, live, e), o)
        | inr positive ↦ elim (Bool-cases (ltb iomap_size (pos_part rc))) [
          | inl large ↦
              let (r, t, e, o) =
                fail_late-Released
                  "ecx_config_map_group: actual IOmap size (%d) exceeds allocated size (%zu). Aborting to prevent memory corruption."
                  s1 live in
              (r, t, ground (arith, live, e), o)
          | inr fits ↦
              let m1 : IsMapped s1 = IsMapped-after s live size few (ground arith) (ground arith) in
              let (r, t, e, (v, q)) = start_bus-Stays keeps s1 m1 in
              (
                r,
                t,
                ground (arith, live, e),
                inr (
                  v,
                  record {
                    mapped = q.mapped;
                    size = q.size ∙ size;
                    port_open = q.port_open ∙ port;
                    counted = rw (q.slavecount ∙ maps.slavecount (net_of s)) counted;
                  },
                ),
              )
        ]
      ]
