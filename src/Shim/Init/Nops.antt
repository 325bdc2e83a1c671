-- ===== src/Shim/Init/Nops.antt =====
-- The steps of initialisation that change nothing at the outputs of the slaves, and NOP for one slave
-- more.
use Prim.Native.String.{String}
use mathlib.Core.Path.{subst}
use xeryon_ether_cat.Base.{
  ℕ, zero, suc, pos, Bool, true, false, none, some, ◌≡◌, refl, ◌∙◌, sym, ◌+◌, ◌≤◌, inl, inr, arith,
  Bool-cases, ◌==◌, ◌&&◌, ◌==ℤ◌, ltb, leb, signed32, if◌then◌else◌,
}
use xeryon_ether_cat.Soem.{Context, Platform}
use xeryon_ether_cat.Soem.Mapping.{SameMapping}
use xeryon_ether_cat.Shim.{St, valid, pure}
use xeryon_ether_cat.Shim.Log.{log_err, log_info}
use xeryon_ether_cat.Shim.Mapped.{IsMapped}
use xeryon_ether_cat.Shim.Runs.{Runs, Runs->>=, Stays, Stays-refl, Stays-trans, same-Stays}
use xeryon_ether_cat.Shim.Pdo.{soem_read_txpdo}
use xeryon_ether_cat.Shim.Pdo.Read.{soem_read_txpdo_cases}
use xeryon_ether_cat.Shim.Staging.{Commands, accepts, command, Shown, Shows}
use xeryon_ether_cat.Shim.Staging.Refines.{ShowsOn}
use xeryon_ether_cat.Shim.Init.{nop, zero_txpdo, read_inputs, set_lengths}

-- The slaves below `i` that take a command have NOP.
abbrev pub nops : Context → ℕ → Commands
nops c i j = if leb 1 j && ltb j i && accepts c (pos j) then some nop else none

module _ {X : Type 0} where
  -- Nothing has changed that a slave's outputs depend on.
  abbrev pub Quiet : St X → St X → Type 0
  Quiet s t = Stays s t × (t.handle.context ≡ s.handle.context) × (t.iomap.byte ≡ s.iomap.byte)

  pub Quiet-trans : {s t u : St X} → Quiet s t → Quiet t u → Quiet s u
  Quiet-trans a b = (Stays-trans a.0 b.0, b.1 ∙ a.1, b.2 ∙ a.2)

  pub Quiet-ShowsOn :
      (c : Context) (commands : Commands) (s t : St X)
      → Quiet s t
      → ShowsOn c commands s
      → ShowsOn c commands t
  Quiet-ShowsOn c commands s t q on = record {
    mapped = q.0.mapped;
    same = subst (λ d. SameMapping d c) (sym q.1) on.same;
    shows = record {
      shown = λ j.
          subst (λ d. Shown (commands (suc j)) (d.slavelist (suc j)).outputs t.iomap.byte) (sym q.1)
            (subst (λ b. Shown (commands (suc j)) (s.handle.context.slavelist (suc j)).outputs b)
              (sym q.2) (on.shows.shown j));
    };
  }

  pub Shows-ext :
      (a b : Commands) (s : St X) → ((j : ℕ) → a (suc j) ≡ b (suc j)) → Shows a s → Shows b s
  Shows-ext a b s same shows = record {
    shown = λ j.
        subst (λ d. Shown d (s.handle.context.slavelist (suc j)).outputs s.iomap.byte) (same j)
          (shows.shown j);
  }

  pub if_log-Quiet :
      (b : Bool) (message : String) (s : St X) ⦃p : Platform X⦄
      → IsMapped s
      → Runs (if b then log_err message else pure tt) s (λ _ t. Quiet s t)
  if_log-Quiet true message s m = (tt, _, refl, (same-Stays s _ refl refl refl refl m, refl, refl))
  if_log-Quiet false message s m = (tt, s, refl, (Stays-refl s m, refl, refl))

  if_info-Quiet :
      (b : Bool) (message : String) (s : St X) ⦃p : Platform X⦄
      → IsMapped s
      → Runs (if b then pure tt else log_info message) s (λ _ t. Quiet s t)
  if_info-Quiet true message s m = (tt, s, refl, (Stays-refl s m, refl, refl))
  if_info-Quiet false message s m =
      (tt, _, refl, (same-Stays s _ refl refl refl refl m, refl, refl))

-- One slave more has NOP, if it takes a command.
pub nops-step :
    (c : Context) (i j : ℕ)
    → 1 ≤ i
    → (if accepts c (pos i) then command i nop (nops c i) else nops c i) (suc j)
      ≡ nops c (i + 1) (suc j)
nops-step c i j one = elim (Bool-cases (accepts c (pos i))) [
  | inl taken ↦ elim (Bool-cases (i == suc j)) [
    | inl here ↦
        let e : i ≡ suc j = ground (arith, here) in
        let mine : accepts c (pos (suc j)) ≡ true = subst (λ k. accepts c (pos k) ≡ true) e taken in
        rw taken (ground (arith, here, mine))
    | inr there ↦ rw taken (ground (arith, there))
  ]
  | inr refused ↦ elim (Bool-cases (i == suc j)) [
    | inl here ↦
        let e : i ≡ suc j = ground (arith, here) in
        let mine : accepts c (pos (suc j)) ≡ false =
          subst (λ k. accepts c (pos k) ≡ false) e refused in
        rw refused (ground (arith, here, mine))
    | inr there ↦ rw refused (ground (arith, there))
  ]
]

module _ {X : Type 0} ⦃p : Platform X⦄ where
  pub read_inputs-Quiet :
      (left i : ℕ) (s : St X) → IsMapped s → Runs (read_inputs left i) s (λ _ t. Quiet s t)
  unfolding read_inputs
  read_inputs-Quiet zero i s m = (tt, s, refl, (Stays-refl s m, refl, refl))
  read_inputs-Quiet (suc left) i s m =
      Runs->>= (soem_read_txpdo valid (pos i) (some zero_txpdo)) _ s {Q = λ _ t. Quiet s t}
        (elim (soem_read_txpdo_cases s (pos i) zero_txpdo m) [
          | inl (buf, r, e) ↦ (_, s, e, (Stays-refl s m, refl, refl))
          | inr (lines, unfit, e) ↦
              (_, record s { log = lines }, e, (same-Stays s _ refl refl refl refl m, refl, refl))
        ])
        λ r s1 q1.
          Runs->>= (if r.0 ==ℤ pos 0 then pure tt else log_info "Slave %d ActualPosition=%d") _ s1
            (if_info-Quiet (r.0 ==ℤ pos 0) _ s1 q1.0.mapped)
            λ _ s2 q2.
              let (a, t, e, q) = read_inputs-Quiet left (i + 1) s2 q2.0.mapped in
              (a, t, e, Quiet-trans q1 (Quiet-trans q2 q))

  pub set_lengths-Quiet : (s : St X) → IsMapped s → Runs set_lengths s (λ _ t. Quiet s t)
  unfolding set_lengths
  set_lengths-Quiet s m = (
    tt,
    record s {
      handle = record s.handle {
        output_length = signed32 s.handle.context.group.obytes;
        input_length = signed32 s.handle.context.group.ibytes;
      };
    },
    ground (arith, m.live),
    (same-Stays s _ refl refl refl refl m, refl, refl),
  )
