-- ===== src/Service/Axis/Asked.antt =====
-- What a slave is asked for by the command of its axis, read from the slave's outputs.
use xeryon_ether_cat.Base.{
  ℕ, zero, suc, ℤ, pos, Option, none, some, List, [], ◌∷◌, ◌≡◌, refl, ◌∙◌, ap, ◌+◌, ◌*◌, ◌<◌, arith,
  true, false, ◌⊎◌, get_or, signed32, signed32-word32,
}
use xeryon_ether_cat.Shim.Pdo.{le_word32}
use xeryon_ether_cat.Shim.Pdo.Image.{IsStaged}
use xeryon_ether_cat.Service.Command.{PendingCommand, fill_command, apply}
use xeryon_ether_cat.Service.Axis.{Axis, nop_pdo, stage_active, stage_axis}
use xeryon_ether_cat.Service.Axis.Keeps.{Proper}

-- The bytes at `buf` carry the first four letters of a keyword, zeros behind a shorter one, and
-- numbers, all as the drive reads them.
pub record Carried (mem : ℕ → ℕ) (buf : ℕ) (keyword : List ℕ) (parameter velocity : ℤ) (acc dec : ℕ)
    : Type 0 where
  pub letters : (k : ℕ) → k < 4 → mem (buf + k) ≡ get_or keyword k 0
  pub parameter_is : signed32 (le_word32 (λ k. mem (buf + (4 + k)))) ≡ parameter
  pub velocity_is : signed32 (le_word32 (λ k. mem (buf + (8 + k)))) ≡ velocity
  pub acceleration_is : mem (buf + 12) + 256 * mem (buf + 13) ≡ acc
  pub deceleration_is : mem (buf + 14) + 256 * mem (buf + 15) ≡ dec

-- "NOP", with no numbers, and nothing to execute.
abbrev pub Idle : (ℕ → ℕ) → ℕ → Type 0
Idle mem buf = Carried mem buf (b'N' ∷ b'O' ∷ b'P' ∷ []) (pos 0) (pos 0) 0 0 × (mem (buf + 16) ≡ 0)

-- The command of an axis: its own keyword and numbers, to be executed until the drive has
-- acknowledged it, or always if it waits for no acknowledgement. Without one, or with one that is
-- cancelled, the slave is idle.
abbrev pub Asked : Option PendingCommand → (ℕ → ℕ) → ℕ → Type 0
Asked none mem buf = Idle mem buf
Asked (some c) mem buf =
    (c.cancelled ≡ true → Idle mem buf)
    × (c.cancelled ≡ false
        → Carried mem buf c.keyword c.parameter c.velocity c.acceleration c.deceleration
          × ((c.acked ≡ false) ⊎ (c.requires_ack ≡ false) → mem (buf + 16) ≡ 1)
          × (c.acked ≡ true → c.requires_ack ≡ true → mem (buf + 16) ≡ 0))

get_or-fill_command :
    (keyword : List ℕ) (k : ℕ) → k < 4 → get_or (fill_command keyword) k 0 ≡ get_or keyword k 0
get_or-fill_command keyword (suc (suc (suc (suc k)))) h = absurd (omega (arith, h))
get_or-fill_command [] zero h = refl
get_or-fill_command [] (suc zero) h = refl
get_or-fill_command [] (suc (suc zero)) h = refl
get_or-fill_command [] (suc (suc (suc zero))) h = refl
get_or-fill_command (a ∷ []) zero h = refl
get_or-fill_command (a ∷ []) (suc zero) h = refl
get_or-fill_command (a ∷ []) (suc (suc zero)) h = refl
get_or-fill_command (a ∷ []) (suc (suc (suc zero))) h = refl
get_or-fill_command (a ∷ b ∷ []) zero h = refl
get_or-fill_command (a ∷ b ∷ []) (suc zero) h = refl
get_or-fill_command (a ∷ b ∷ []) (suc (suc zero)) h = refl
get_or-fill_command (a ∷ b ∷ []) (suc (suc (suc zero))) h = refl
get_or-fill_command (a ∷ b ∷ c ∷ keyword) zero h = refl
get_or-fill_command (a ∷ b ∷ c ∷ keyword) (suc zero) h = refl
get_or-fill_command (a ∷ b ∷ c ∷ keyword) (suc (suc zero)) h = refl
get_or-fill_command (a ∷ b ∷ c ∷ []) (suc (suc (suc zero))) h = refl
get_or-fill_command (a ∷ b ∷ c ∷ d ∷ keyword) (suc (suc (suc zero))) h = refl

nop_pdo-Idle : (mem : ℕ → ℕ) (buf : ℕ) → IsStaged mem buf nop_pdo → Idle mem buf
nop_pdo-Idle mem buf staged = (
  record {
    letters = λ k lt. staged.command k lt ∙ get_or-fill_command (b'N' ∷ b'O' ∷ b'P' ∷ []) k lt;
    parameter_is = staged.parameter;
    velocity_is = ap signed32 staged.velocity;
    acceleration_is = staged.acceleration;
    deceleration_is = staged.deceleration;
  },
  staged.execute,
)

apply-Carried :
    (c : PendingCommand) (mem : ℕ → ℕ) (buf : ℕ)
    → Proper (some c)
    → IsStaged mem buf (apply c)
    → Carried mem buf c.keyword c.parameter c.velocity c.acceleration c.deceleration
apply-Carried c mem buf h staged = record {
  letters = λ k lt. staged.command k lt ∙ get_or-fill_command c.keyword k lt;
  parameter_is = staged.parameter;
  velocity_is = ap signed32 staged.velocity ∙ signed32-word32 c.velocity h.velocity;
  acceleration_is = staged.acceleration;
  deceleration_is = staged.deceleration;
}

stage_active-Asked :
    (a : Axis) (o : Option PendingCommand) (mem : ℕ → ℕ) (buf : ℕ)
    → Proper o
    → IsStaged mem buf (stage_active a o).rx
    → Asked o mem buf
stage_active-Asked a none mem buf h staged = nop_pdo-Idle mem buf staged
stage_active-Asked a (some c) mem buf h staged = (
  λ gone. nop_pdo-Idle mem buf (rw gone at staged),
  λ live.
      let here : IsStaged mem buf (apply c) = rw live at staged in
      (
        apply-Carried c mem buf h here,
        λ waits. ground (arith, waits, here.execute),
        λ acked waits. ground (arith, acked, waits, here.execute),
      ),
)

-- What is staged for an axis is what its command asks for.
pub stage_axis-Asked :
    (a : Axis) (mem : ℕ → ℕ) (buf : ℕ)
    → Proper a.active
    → IsStaged mem buf (stage_axis a).rx
    → Asked a.active mem buf
stage_axis-Asked a mem buf h staged = stage_active-Asked a a.active mem buf h staged
