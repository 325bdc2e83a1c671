-- ===== src/Service/Loop/Staged.antt =====
-- What a cycle sends: the commands that the axes have, in the outputs of their slaves.
use xeryon_ether_cat.Base.{
  ℕ, Bool-cases, inl, inr, ==_iff, zero, suc, ℤ, pos, Option, none, some, List, [], ◌∷◌, ◌≡◌, refl,
  ◌∙◌, ap, ◌≤◌, ◌+◌, arith, All, true, if◌then◌else◌, ◌==◌,
}
use mathlib.Core.Path.{subst}
use xeryon_ether_cat.Soem.{Context, Platform}
use xeryon_ether_cat.Soem.Mapping.{KeepsMapping, same_itself}
use xeryon_ether_cat.Shim.{St, valid}
use xeryon_ether_cat.Shim.Mapped.{IsMapped}
use xeryon_ether_cat.Shim.Pdo.{DriveRxPdo}
use xeryon_ether_cat.Shim.Pdo.Image.{IsRxPdo}
use xeryon_ether_cat.Shim.Api.{System, windows, linux, api_of}
use xeryon_ether_cat.Shim.Staging.{
  Commands, accepts, Action, stage, command, commands_after, Shown, IsLaidOut, KeepsOutputs,
}
use xeryon_ether_cat.Shim.Staging.Refines.{ShowsOn, stage_act, exchange-ShowsOn}
use xeryon_ether_cat.Service.Act.{Does, Does->>=, done, ◌>>=◌}
use xeryon_ether_cat.Service.Client.{soem_client, exchange_process_data}
use xeryon_ether_cat.Service.Axis.{Axis, stage_axis}
use xeryon_ether_cat.Service.Axis.Asked.{Asked, stage_axis-Asked}
use xeryon_ether_cat.Service.Axis.Keeps.{Proper, stage_axis-IsRxPdo}
use xeryon_ether_cat.Service.State.{axis_at}
use xeryon_ether_cat.Service.Loop.{stage_outputs}

-- What the service asks for, for the axes from one on.
abbrev stages : ℕ → List Axis → List Action
stages i [] = []
stages i (a ∷ axes) = stage (pos (suc i)) (stage_axis a).rx ∷ stages (suc i) axes

-- The axes from one on leave the commands of the slaves before alone.
stages_before :
    (c : Context) (i : ℕ) (axes : List Axis) (commands : Commands) (j : ℕ)
    → j ≤ i
    → commands_after c (stages i axes) commands j ≡ commands j
unfolding commands_after
stages_before c i [] commands j below = refl
stages_before c i (a ∷ axes) commands j below =
    stages_before c (suc i) axes _ j (omega (arith, below))
    ∙ elim (Bool-cases (accepts c (pos (suc i)))) [
      | inl taken ↦ rw taken (ground (arith, below))
      | inr refused ↦ rw refused refl
    ]

-- The command that was staged last.
given_command :
    (c : Context) (i : ℕ) (rx : DriveRxPdo) (commands : Commands)
    → accepts c (pos (suc i)) ≡ true
    → (if accepts c (pos (suc i)) then command (suc i) rx commands else commands) (suc i) ≡ some rx
given_command c i rx commands taken =
    let here : (suc i == suc i) ≡ true = (==_iff _ _).1 refl in rw taken (rw here refl)

-- A slave that takes commands gets that of its axis.
stages_at :
    (c : Context) (i : ℕ) (axes : List Axis) (commands : Commands) (k n : ℕ) (a : Axis)
    → axis_at axes (pos k) ≡ some a
    → n ≡ i + k
    → accepts c (pos (suc n)) ≡ true
    → commands_after c (stages i axes) commands (suc n) ≡ some (stage_axis a).rx
unfolding commands_after
stages_at c i [] commands k n a e at taken = absurd (ground (arith, e))
stages_at c i (b ∷ axes) commands zero n a e at taken =
    let same : n ≡ i = omega (arith, at) in
    let given : ◌≡◌ {A = Option Axis} (some b) (some a) = e in
    let this : b ≡ a = cc in
    stages_before c (suc i) axes _ (suc n) (omega (arith, same))
    ∙ ap
        (λ m.
          (if accepts c (pos (suc i)) then command (suc i) (stage_axis b).rx commands else commands)
            (suc m))
        same
    ∙ given_command c i (stage_axis b).rx commands
        (subst (λ m. accepts c (pos (suc m)) ≡ true) same taken)
    ∙ ap (λ x. some (stage_axis x).rx) this
stages_at c i (b ∷ axes) commands (suc k) n a e at taken =
    stages_at c (suc i) axes _ k n a e (omega (arith, at)) taken

axis_at-Proper :
    (axes : List Axis) (k : ℕ) (a : Axis)
    → All (λ a. Proper a.active) axes
    → axis_at axes (pos k) ≡ some a
    → Proper a.active
axis_at-Proper [] k a h e = absurd (ground (arith, e))
axis_at-Proper (b ∷ axes) zero a h e =
    let given : ◌≡◌ {A = Option Axis} (some b) (some a) = e in
    let this : b ≡ a = cc in subst (λ (x : Axis). Proper x.active) this h.0
axis_at-Proper (b ∷ axes) (suc k) a h e = axis_at-Proper axes k a h.1 e

Shown-Asked :
    (a : Axis) (o : Option ℕ) (mem : ℕ → ℕ)
    → Proper a.active
    → Shown (some (stage_axis a).rx) o mem
    → (buf : ℕ) × (o ≡ some buf) × Asked a.active mem buf
Shown-Asked a none mem h shown = absurd shown
Shown-Asked a (some buf) mem h shown = (buf, refl, stage_axis-Asked a mem buf h shown)

module _ {X : Type 0} where
  -- The outputs of each slave that takes commands hold what the command of its axis asks for.
  abbrev pub Sends : List Axis → Context → St X → Type 0
  Sends axes c t =
      (k : ℕ) (a : Axis)
      → axis_at axes (pos k) ≡ some a
      → accepts c (pos (suc k)) ≡ true
      → (buf : ℕ) × ((c.slavelist (suc k)).outputs ≡ some buf) × Asked a.active t.iomap.byte buf

  ShowsOn-Sends :
      (axes : List Axis) (commands : Commands) (s t : St X)
      → All (λ a. Proper a.active) axes
      → ShowsOn s.handle.context (commands_after s.handle.context (stages 0 axes) commands) t
      → Sends axes s.handle.context t
  ShowsOn-Sends axes commands s t h on k a e taken =
      let c = s.handle.context in
      Shown-Asked a (c.slavelist (suc k)).outputs t.iomap.byte (axis_at-Proper axes k a h e) (
        subst (λ o. Shown (some (stage_axis a).rx) o t.iomap.byte) (on.same.slaves (suc k)).outputs
          (subst (λ cmd. Shown cmd (t.handle.context.slavelist (suc k)).outputs t.iomap.byte)
            (stages_at c 0 axes commands k k a e (omega arith) taken) (on.shows.shown k)))

module _ {X : Type 0} ⦃p : Platform X⦄ (keeps : KeepsMapping p) (outputs : KeepsOutputs p) where
  -- The bus stays mapped and as it was laid out, and shows commands.
  write_act :
      (os : System) (c : Context) (i : ℕ) (rx : DriveRxPdo) (commands : Commands) (s : St X)
      → IsLaidOut c
      → IsRxPdo rx
      → ShowsOn c commands s
      → Does ((soem_client (api_of os)).write_rx_pdo valid (pos (suc i)) rx) s (λ rc t.
        ShowsOn c (if accepts c (pos (suc i)) then command (suc i) rx commands else commands) t)
  write_act windows c i rx commands s laid h on =
      stage_act keeps outputs c (pos (suc i)) rx commands s laid h on
  write_act linux c i rx commands s laid h on =
      stage_act keeps outputs c (pos (suc i)) rx commands s laid h on

  exchange_act :
      (os : System) (c : Context) (timeout_us : ℤ) (commands : Commands) (s : St X)
      → IsLaidOut c
      → ShowsOn c commands s
      → Does
          ((soem_client (api_of os)).exchange_process_data valid timeout_us)
          s
          (λ wkc t. ShowsOn c commands t)
  unfolding exchange_process_data
  exchange_act windows c timeout_us commands s laid on =
      let (r, t, e, q) =
        exchange-ShowsOn keeps outputs c none (pos 0) timeout_us commands s laid tt on in
      (r.0, t, ground (arith, e), q.1)
  exchange_act linux c timeout_us commands s laid on =
      let (r, t, e, q) =
        exchange-ShowsOn keeps outputs c none (pos 0) timeout_us commands s laid tt on in
      (r.0, t, ground (arith, e), q.1)

  stage_outputs-ShowsOn :
      (os : System) (c : Context) (i : ℕ) (axes : List Axis) (commands : Commands) (s : St X)
      → IsLaidOut c
      → All (λ a. Proper a.active) axes
      → ShowsOn c commands s
      → Does
          (stage_outputs (soem_client (api_of os)) valid i axes)
          s
          (λ r t. ShowsOn c (commands_after c (stages i axes) commands) t)
  unfolding stage_outputs commands_after
  stage_outputs-ShowsOn os c i [] commands s laid h on = ([], s, refl, on)
  stage_outputs-ShowsOn os c i (a ∷ axes) commands s laid h on =
      Does->>= ((soem_client (api_of os)).write_rx_pdo valid (pos (suc i)) (stage_axis a).rx) _ s
        (write_act os c i (stage_axis a).rx commands s laid (stage_axis-IsRxPdo a h.0).0 on)
        λ rc t q.
          Does->>= (stage_outputs (soem_client (api_of os)) valid (suc i) axes)
            (λ rest. done (stage_axis a ∷ rest)) t
            (stage_outputs-ShowsOn os c (suc i) axes _ t laid h.1 q)
            λ rest u q1. (stage_axis a ∷ rest, u, refl, q1)

  -- On a mapped bus whose outputs SOEM has laid apart, the first half of a cycle over either shim,
  -- staging and exchange, comes back with the bus mapped. Then the outputs of each slave that takes
  -- commands hold what the command of its axis asks for, if the axes have proper commands: the first
  -- four letters of its keyword, its numbers, and a 1 for its execution until it is acknowledged, or
  -- always if it waits for no acknowledgement; and NOP with a 0 if the axis has no command, or a
  -- cancelled one.
  pub stage_outputs-Sends :
      (os : System) (axes : List Axis) (timeout_us : ℤ) (s : St X)
      → IsLaidOut s.handle.context
      → All (λ a. Proper a.active) axes
      → IsMapped s
      → Does
          (do
            staged ← stage_outputs (soem_client (api_of os)) valid 0 axes
            (soem_client (api_of os)).exchange_process_data valid timeout_us)
          s
          (λ wkc t. IsMapped t × Sends axes s.handle.context t)
  stage_outputs-Sends os axes timeout_us s laid h m =
      let c = s.handle.context in
      let start : ShowsOn c (λ j. none) s = record {
        mapped = m;
        same = same_itself c;
        shows = record { shown = λ j. tt };
      } in
      Does->>= (stage_outputs (soem_client (api_of os)) valid 0 axes) _ s
        (stage_outputs-ShowsOn os c 0 axes (λ j. none) s laid h start)
        λ staged t q.
          let (wkc, u, e, q1) = exchange_act os c timeout_us _ t laid q in
          (wkc, u, e, (q1.mapped, ShowsOn-Sends axes (λ j. none) s u h q1))
