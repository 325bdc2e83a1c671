-- ===== src/Shim/Staging.antt =====
-- An abstract view of the outputs: the command that each slave was given last. Staging and cycles
-- of soem_shim.c implement it on the bytes of the IO map.
pub mod Layout
pub mod Refines
use xeryon_ether_cat.Base.{
  ℕ, suc, ℤ, pos, pos_part, Bool, true, false, not, Option, none, some, List, [], ◌∷◌, ◌≡◌, ◌+◌,
  ◌≤◌, ◌<◌, ◌⊎◌, ◌==◌, ◌&&◌, leb_ℤ, signed32, if◌then◌else◌,
}
use xeryon_ether_cat.Soem.{Slave, Context, Net, Platform}
use xeryon_ether_cat.Shim.{St, M, valid, pure, ◌>>=◌}
use xeryon_ether_cat.Shim.Pdo.{DriveRxPdo, soem_write_rxpdo, out_of_range, io_rx_bytes}
use xeryon_ether_cat.Shim.Pdo.Image.{IsRxPdo, IsStaged}
use xeryon_ether_cat.Shim.Exchange.{soem_exchange_process_data}
use xeryon_ether_cat.Shim.Exchange.Buffers.{Fits}

-- The last command of each slave, if it was given one.
abbrev pub Commands : Type 0
Commands = ℕ → Option DriveRxPdo

-- Whether a slave with these outputs takes a command.
abbrev pub takes : Option ℕ → ℕ → Bool
takes none obytes = false
takes (some buf) obytes = leb_ℤ (pos io_rx_bytes) (signed32 obytes)

abbrev pub accepts : Context → ℤ → Bool
accepts c i =
    not (out_of_range i c)
    && takes (c.slavelist (pos_part i)).outputs (c.slavelist (pos_part i)).obytes

-- A caller stages a command, or lets a cycle send what is staged and gets the inputs.
pub data Action : Type 0 where
  stage : ℤ → DriveRxPdo → Action
  cycle : Option (List ℕ) → ℤ → ℤ → Action

abbrev pub AreActions : List Action → Type 0
AreActions [] = Unit
AreActions (stage i rx ∷ actions) = IsRxPdo rx × AreActions actions
AreActions (cycle inputs inputs_len timeout_us ∷ actions) =
    Fits inputs inputs_len × AreActions actions

-- What the actions mean for the commands.
abbrev pub command : ℕ → DriveRxPdo → Commands → Commands
command i rx commands j = if i == j then some rx else commands j

unfoldable pub commands_after : Context → List Action → Commands → Commands
commands_after c [] commands = commands
commands_after c (stage i rx ∷ actions) commands =
    commands_after c actions (if accepts c i then command (pos_part i) rx commands else commands)
commands_after c (cycle inputs inputs_len timeout_us ∷ actions) commands =
    commands_after c actions commands

-- The bytes at a slave's outputs show its last command.
abbrev pub Shown : Option DriveRxPdo → Option ℕ → (ℕ → ℕ) → Type 0
Shown none at mem = Unit
Shown (some rx) none mem = ⊥
Shown (some rx) (some at) mem = IsStaged mem at rx

pub record Shows {X : Type 0} (commands : Commands) (s : St X) : Type 0 where
  pub shown :
      (j : ℕ) → Shown (commands (suc j)) (s.handle.context.slavelist (suc j)).outputs s.iomap.byte

-- Two places of 17 bytes, or a place of 17 bytes and one of `n`, have no byte in common.
abbrev pub Apart : Option ℕ → Option ℕ → ℕ → Type 0
Apart none other n = Unit
Apart (some at) none n = Unit
Apart (some at) (some other) n = (at + 17 ≤ other) ⊎ (other + n ≤ at)

-- SOEM has laid the outputs of the slaves apart from one another and from the inputs.
pub record IsLaidOut (c : Context) : Type 0 where
  pub apart :
      (i j : ℕ) → (i ≡ j) ⊎ Apart (c.slavelist (suc i)).outputs (c.slavelist (suc j)).outputs 17
  pub separate : (i : ℕ) → Apart (c.slavelist (suc i)).outputs c.group.inputs c.group.ibytes

-- A byte of the group's inputs.
abbrev pub Input : Option ℕ → ℕ → ℕ → Type 0
Input none n a = ⊥
Input (some at) n a = (at ≤ a) × (a < at + n)

-- Sending does not write to the IO map, and receiving writes to the inputs alone.
pub record KeepsOutputs {X : Type 0} (p : Platform X) : Type 0 where
  pub send : (n : Net X) (a : ℕ) → (p.ecx_send_processdata n).1.byte a ≡ n.byte a
  pub receive :
      (t : ℤ) (n : Net X) (a : ℕ)
      → ((p.ecx_receive_processdata t n).1.byte a ≡ n.byte a)
        ⊎ Input n.context.group.inputs n.context.group.ibytes a

-- The actions as calls of the shim.
module _ {X : Type 0} ⦃p : Platform X⦄ where
  abbrev pub act : Action → M X ℤ
  act (stage i rx) = soem_write_rxpdo valid i (some rx)
  act (cycle inputs inputs_len timeout_us) = do
    r ← soem_exchange_process_data valid none (pos 0) inputs inputs_len timeout_us
    pure r.0

  pub act_all : List Action → M X (Unit {0})
  act_all [] s = pure tt s
  act_all (action ∷ actions) s = (do rc ← act action; act_all actions) s
