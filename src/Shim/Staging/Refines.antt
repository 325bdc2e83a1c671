-- ===== src/Shim/Staging/Refines.antt =====
-- Staging and cycles of the shim, against the abstract view of the commands.
use mathlib.Core.Path.{subst}
use xeryon_ether_cat.Base.{
  ℕ, suc, ℤ, pos, pos_part, Option, none, some, Bool-cases, List, [], ◌∷◌, ◌≡◌, refl, ◌∙◌, sym, ap,
  ◌+◌, ◌<◌, inl, inr, arith, if◌then◌else◌, ltb_ℤ,
}
use xeryon_ether_cat.Soem.{Context, Net, Platform}
use xeryon_ether_cat.Soem.Mapping.{KeepsMapping, SameMapping, SameMapping-trans, same_itself}
use xeryon_ether_cat.Shim.{St, valid, net_of}
use xeryon_ether_cat.Shim.Mapped.{IsMapped, same-IsMapped}
use xeryon_ether_cat.Shim.Runs.{Runs->>=, Runs, Stays}
use xeryon_ether_cat.Shim.Pdo.{DriveRxPdo}
use xeryon_ether_cat.Shim.Pdo.Image.{IsRxPdo}
use xeryon_ether_cat.Shim.Pdo.Write.{with_bytes, soem_write_rxpdo-IsStaged, soem_write_rxpdo_cases}
use xeryon_ether_cat.Shim.Exchange.{soem_exchange_process_data}
use xeryon_ether_cat.Shim.Exchange.Cycle.{Cycle, soem_exchange_process_data-codes, sent_state}
use xeryon_ether_cat.Shim.Exchange.Buffers.{Fits, prepare_none}
use xeryon_ether_cat.Shim.Staging.{
  Commands, accepts, Action, stage, cycle, AreActions, command, commands_after, Shown, Shows,
  IsLaidOut, Input, KeepsOutputs, act, act_all, Apart,
}
use xeryon_ether_cat.Shim.Staging.Layout.{
  Shown-same, accepts-same, IsLaidOut-same, Apart-some, accepts-Writable, Writable-accepts,
  staged-Shows,
}

-- A byte of the outputs is none of the inputs.
disjoint_bytes :
    (o inputs : Option ℕ) (n at k : ℕ)
    → o ≡ some at
    → k < 17
    → Apart o inputs n
    → Input inputs n (at + k)
    → ⊥
disjoint_bytes o none n at k e below apart input = input
disjoint_bytes o (some other) n at k e below apart input =
    let disjoint = Apart-some o (some other) n at other e refl apart in ground (arith, disjoint)

module _ {X : Type 0} where
  -- A state that shows commands on a bus laid out as in `c`.
  pub record ShowsOn (c : Context) (commands : Commands) (s : St X) : Type 0 where
    pub mapped : IsMapped s
    pub same : SameMapping s.handle.context c
    pub shows : Shows commands s

module _ {X : Type 0} ⦃p : Platform X⦄ (keeps : KeepsMapping p) (outputs : KeepsOutputs p) where
  -- Staging gives the slave its command if it takes one, and does nothing else.
  pub stage_act :
      (c : Context) (i : ℤ) (rx : DriveRxPdo) (commands : Commands) (s : St X)
      → IsLaidOut c
      → IsRxPdo rx
      → ShowsOn c commands s
      → Runs
          (act (stage i rx))
          s
          (λ rc t. ShowsOn c (if accepts c i then command (pos_part i) rx commands else commands) t)
  stage_act c i rx commands s laid h on =
      let given : Commands = command (pos_part i) rx commands in
      let agree : accepts s.handle.context i ≡ accepts c i =
        accepts-same s.handle.context c i on.same in
      elim (Bool-cases (accepts s.handle.context i)) [
        | inl taken ↦
            let (buf, w) = Writable-accepts s i taken in
            let (mem, e, new, rest) = soem_write_rxpdo-IsStaged s i rx buf on.mapped w h in
            let chosen : (if accepts c i then given else commands) ≡ given =
              ap (λ b. if b then given else commands) (sym agree ∙ taken) in
            (
              pos 1,
              with_bytes s mem,
              e,
              record {
                mapped = same-IsMapped s (with_bytes s mem) refl refl refl on.mapped;
                same = on.same;
                shows =
                    subst (λ cs. Shows cs (with_bytes s mem)) (sym chosen)
                      (staged-Shows s i rx buf mem commands
                        (IsLaidOut-same s.handle.context c on.same laid) w new rest on.shows);
              },
            )
        | inr refused ↦ elim (soem_write_rxpdo_cases s i rx on.mapped h) [
          | inl (buf, w, e) ↦ absurd (ground (arith, accepts-Writable s i buf w, refused))
          | inr (lines, unfit, e) ↦
              let chosen : (if accepts c i then given else commands) ≡ commands =
                ap (λ b. if b then given else commands) (sym agree ∙ refused) in
              let t : St X = record s { log = lines } in
              (
                pos 0,
                t,
                e,
                record {
                  mapped = same-IsMapped s t refl refl refl on.mapped;
                  same = on.same;
                  shows = subst (λ cs. Shows cs t) (sym chosen) (record { shown = on.shows.shown });
                },
              )
        ]
      ]

  -- Neither sending nor receiving changes a slave's outputs.
  cycle_keeps :
      (t : ℤ) (s : St X) (i at k : ℕ)
      → IsLaidOut s.handle.context
      → (s.handle.context.slavelist (suc i)).outputs ≡ some at
      → k < 17
      → (p.ecx_receive_processdata t (net_of (sent_state s))).1.byte (at + k)
        ≡ s.iomap.byte (at + k)
  cycle_keeps t s i at k laid e below =
      let n : Net X = net_of (sent_state s) in
      let sent = keeps.send (net_of s) in
      let unsent = outputs.send (net_of s) (at + k) in
      elim (outputs.receive t n (at + k)) [
        | inl same ↦ same ∙ unsent
        | inr input ↦
            let there = subst (λ g. Input g.inputs g.ibytes (at + k)) sent.group input in
            absurd (disjoint_bytes _ _ _ at k e below (laid.separate i) there)
      ]

  -- A state that agrees with `n`, which shows the commands of `s`, shows them too.
  pub after_Shows :
      (s t : St X) (n : Net X) (commands : Commands)
      → net_of t ≡ n
      → SameMapping n.context s.handle.context
      → ((i at k : ℕ)
          → (s.handle.context.slavelist (suc i)).outputs ≡ some at
          → k < 17
          → n.byte (at + k) ≡ s.iomap.byte (at + k))
      → Shows commands s
      → SameMapping t.handle.context s.handle.context × Shows commands t
  after_Shows s t n commands e same bytes shows =
      let context = ap (λ m. m.context) e in
      let there = subst (λ c. SameMapping c s.handle.context) (sym context) same in
      (
        there,
        record {
          shown = λ j.
              subst (λ o. Shown (commands (suc j)) o t.iomap.byte)
                (sym (there.slaves (suc j)).outputs)
                (Shown-same (commands (suc j)) (s.handle.context.slavelist (suc j)).outputs
                  s.iomap.byte t.iomap.byte
                  (λ at o k below. ap (λ m. m.byte (at + k)) e ∙ bytes j at k o below)
                  (shows.shown j));
        },
      )

  -- A cycle sends what is staged, and leaves it staged.
  pub exchange-ShowsOn :
      (c : Context) (inputs : Option (List ℕ)) (len timeout_us : ℤ) (commands : Commands) (s : St X)
      → IsLaidOut c
      → Fits inputs len
      → ShowsOn c commands s
      → Runs
          (soem_exchange_process_data valid none (pos 0) inputs len timeout_us)
          s
          (λ _ t. Stays s t × ShowsOn c commands t)
  exchange-ShowsOn c inputs len timeout_us commands s laid fits on =
      let t : ℤ = if ltb_ℤ timeout_us (pos 0) then pos 0 else timeout_us in
      let (mem, rc, out, s', prepared, e, q, codes) =
        soem_exchange_process_data-codes none inputs (pos 0) len timeout_us s keeps on.mapped tt
          fits in
      let same : mem ≡ s.iomap.byte = prepare_none mem s prepared in
      let ended : Cycle inputs t s rc out s' =
        subst (λ b. Cycle inputs t (with_bytes s b) rc out s') same codes in
      let laid' = IsLaidOut-same s.handle.context c on.same laid in
      let sent = keeps.send (net_of s) in
      let kept : SameMapping s'.handle.context s.handle.context × Shows commands s' = elim ended [
        | inl (bad, code, unread, wkc, expected, calls, left) ↦
            after_Shows s s' (net_of (sent_state s)) commands left sent
              (λ i at k o below. outputs.send (net_of s) (at + k)) on.shows
        | inr (good, received, wkc, expected, calls, left) ↦
            after_Shows s s' (p.ecx_receive_processdata t (net_of (sent_state s))).1 commands left
              (SameMapping-trans _ _ _ (keeps.receive t (net_of (sent_state s))) sent)
              (λ i at k o below. cycle_keeps t s i at k laid' o below) on.shows
      ] in
      (
        (rc, out),
        s',
        e,
        (
          q,
          record {
            mapped = q.mapped;
            same = SameMapping-trans _ _ _ kept.0 on.same;
            shows = kept.1;
          },
        ),
      )

  cycle_act :
      (c : Context) (inputs : Option (List ℕ)) (len timeout_us : ℤ) (commands : Commands) (s : St X)
      → IsLaidOut c
      → Fits inputs len
      → ShowsOn c commands s
      → Runs (act (cycle inputs len timeout_us)) s (λ rc t. ShowsOn c commands t)
  cycle_act c inputs len timeout_us commands s laid fits on =
      let (r, t, e, q) = exchange-ShowsOn c inputs len timeout_us commands s laid fits on in
      (r.0, t, ground (arith, e), q.1)

  act_all_on :
      (c : Context) (actions : List Action) (commands : Commands) (s : St X)
      → IsLaidOut c
      → AreActions actions
      → ShowsOn c commands s
      → Runs (act_all actions) s (λ _ t. ShowsOn c (commands_after c actions commands) t)
  unfolding act_all commands_after
  act_all_on c [] commands s laid fine on = (tt, s, refl, on)
  act_all_on c (stage i rx ∷ actions) commands s laid fine on =
      Runs->>= (act (stage i rx)) (λ _. act_all actions) s
        (stage_act c i rx commands s laid fine.0 on)
        λ rc t q. act_all_on c actions _ t laid fine.1 q
  act_all_on c (cycle inputs len timeout_us ∷ actions) commands s laid fine on =
      Runs->>= (act (cycle inputs len timeout_us)) (λ _. act_all actions) s
        (cycle_act c inputs len timeout_us commands s laid fine.0 on)
        λ rc t q. act_all_on c actions commands t laid fine.1 q

  -- A caller stages commands and runs cycles, in any order, on a bus that SOEM has laid out. Every
  -- call comes back, and in the end the outputs of each slave hold the command that it was given
  -- last, the first four bytes of its `Command` and all its numbers, as the abstract view of these
  -- actions says.
  pub act_all-Shows :
      (actions : List Action) (commands : Commands) (s : St X)
      → IsLaidOut s.handle.context
      → AreActions actions
      → IsMapped s
      → Shows commands s
      → Runs (act_all actions) s (λ _ t.
        IsMapped t
        × SameMapping t.handle.context s.handle.context
        × Shows (commands_after s.handle.context actions commands) t)
  act_all-Shows actions commands s laid fine m shows =
      let (u, t, e, q) =
        act_all_on s.handle.context actions commands s laid fine
          (record { mapped = m; same = same_itself s.handle.context; shows = shows }) in
      (u, t, e, (q.mapped, q.same, q.shows))
