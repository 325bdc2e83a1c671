-- ===== src/Service/Methods/Reasons.antt =====
-- What reasons a method has in its arguments and in the state of the drive.

use xeryon_ether_cat.Base.{
  ℕ, suc, ℤ, pos, ◌≡◌, ◌⊎◌, ◌<◌, ◌≤◌, ◌^◌, Bool, true, false, IsInt32, length, ◌≤ℤ◌, List, [], ◌∷◌,
  none, some,
}
use xeryon_ether_cat.Service.Errors.{is_set}
use xeryon_ether_cat.Service.Command.{
  PendingCommand, CommandCompletion, ack_only, position_reached, indexed, enabled, disabled, halt,
  ack_with_timeout,
}
use xeryon_ether_cat.Service.Axis.Keeps.{IsCommand}
use xeryon_ether_cat.Service.State.{Service}
use xeryon_ether_cat.Service.Methods.{
  Method, move_absolute, jog, index, reset, enable, halt_drive, stop, send_raw_command, normalize,
  not_initialized, bad_argument, no_such_axis, latched, not_enabled, not_referenced, Answer,
  refused, at_once, execute, status_of, latch_at, is_bad,
}

-- The numbers are ones of C#'s types.
abbrev pub IsMethod : Method → Type 0
IsMethod (move_absolute target velocity acc dec timeout) =
    IsInt32 target × IsInt32 velocity × (acc < 2 ^ 16) × (dec < 2 ^ 16)
IsMethod (jog direction velocity acc dec) =
    IsInt32 direction × IsInt32 velocity × (acc < 2 ^ 16) × (dec < 2 ^ 16)
IsMethod (index direction velocity acc dec timeout) =
    IsInt32 direction × IsInt32 velocity × (acc < 2 ^ 16) × (dec < 2 ^ 16)
IsMethod (send_raw_command keyword parameter velocity acc dec requires_ack timeout) =
    IsInt32 parameter × IsInt32 velocity × (acc < 2 ^ 16) × (dec < 2 ^ 16)
IsMethod _ = Unit

-- The methods that look whether the axis is ready for a motion. A raw command does not, whatever its
-- keyword does. The one method that also needs the encoder's position is the absolute move.
abbrev pub is_guarded : Method → Bool
is_guarded (move_absolute target velocity acc dec timeout) = true
is_guarded (jog direction velocity acc dec) = true
is_guarded (index direction velocity acc dec timeout) = true
is_guarded _ = false

abbrev pub is_absolute : Method → Bool
is_absolute (move_absolute target velocity acc dec timeout) = true
is_absolute _ = false

-- The drive is where the method would bring it.
abbrev pub IsThere : Service → ℕ → Method → Type 0
IsThere s axis (index direction velocity acc dec timeout) =
    is_set (status_of s axis).encoder_valid ≡ true
IsThere s axis (enable on) = is_set (status_of s axis).amplifiers_enabled ≡ on
IsThere s axis _ = ⊥

-- What a command carries: its keyword, its numbers, when it is over and whether it waits for the
-- acknowledgement.
pub record Carries (c : PendingCommand) (keyword : List ℕ) (parameter velocity : ℤ) (acc dec : ℕ)
    (completion : CommandCompletion) (requires_ack : Bool) : Type 0 where
  pub keyword_is : c.keyword ≡ keyword
  pub parameter_is : c.parameter ≡ parameter
  pub velocity_is : c.velocity ≡ velocity
  pub acceleration_is : c.acceleration ≡ acc
  pub deceleration_is : c.deceleration ≡ dec
  pub completion_is : c.completion ≡ completion
  pub requires_ack_is : c.requires_ack ≡ requires_ack

-- A timeout that is not above 0 stands for the default one.
abbrev pub IsSettleTimeout : ℤ → ℤ → ℤ → Type 0
IsSettleTimeout default_timeout given timeout =
    (pos 1 ≤ℤ given → timeout ≡ given) × (given ≤ℤ pos 0 → timeout ≡ default_timeout)

-- The command that each method stands for, with its timeout in ticks of 100 ns.
abbrev pub Asks : ℤ → Method → PendingCommand → Type 0
Asks default_timeout (move_absolute target velocity acc dec timeout) c =
    Carries c (b'D' ∷ b'P' ∷ b'O' ∷ b'S' ∷ []) target velocity acc dec position_reached true
    × IsSettleTimeout default_timeout timeout c.timeout
Asks default_timeout (jog direction velocity acc dec) c =
    Carries c (b'S' ∷ b'C' ∷ b'A' ∷ b'N' ∷ []) direction velocity acc dec ack_only true
    × (c.timeout ≡ pos 0)
Asks default_timeout (index direction velocity acc dec timeout) c =
    Carries c (b'I' ∷ b'N' ∷ b'D' ∷ b'X' ∷ []) direction velocity acc dec indexed true
    × IsSettleTimeout default_timeout timeout c.timeout
Asks default_timeout reset c =
    Carries c (b'R' ∷ b'S' ∷ b'E' ∷ b'T' ∷ []) (pos 0) (pos 0) 0 0 ack_with_timeout true
    × (c.timeout ≡ pos 10000000)
Asks default_timeout (enable true) c =
    Carries c (b'E' ∷ b'N' ∷ b'B' ∷ b'L' ∷ []) (pos 1) (pos 0) 0 0 enabled true
    × (c.timeout ≡ pos 5000000)
Asks default_timeout (enable false) c =
    Carries c (b'E' ∷ b'N' ∷ b'B' ∷ b'L' ∷ []) (pos 0) (pos 0) 0 0 disabled true
    × (c.timeout ≡ pos 5000000)
Asks default_timeout halt_drive c =
    Carries c (b'H' ∷ b'A' ∷ b'L' ∷ b'T' ∷ []) (pos 0) (pos 0) 0 0 halt true
    × (c.timeout ≡ pos 20000000)
Asks default_timeout stop c =
    Carries c (b'S' ∷ b'T' ∷ b'O' ∷ b'P' ∷ []) (pos 0) (pos 0) 0 0 ack_only true
    × (c.timeout ≡ pos 20000000)
Asks default_timeout (send_raw_command keyword parameter velocity acc dec requires_ack timeout) c =
    Carries c (normalize keyword) parameter velocity acc dec ack_only requires_ack
    × ((given : ℤ) → (timeout ≡ some given) → c.timeout ≡ given)
    × ((timeout ≡ none) → c.timeout ≡ pos 0)

-- A command of the axis that was not started.
pub record IsNew (ticket axis : ℕ) (c : PendingCommand) : Type 0 where
  pub ticket_is : c.ticket ≡ ticket
  pub slave_index_is : c.slave_index ≡ pos axis
  pub acked_is : c.acked ≡ false
  pub cancelled_is : c.cancelled ≡ false
  pub edge_detection_initialized_is : c.edge_detection_initialized ≡ false

-- What the state says when a method for an axis does what it does: a refusal has its reason, at once
-- it returns where nothing is to be done, and a command is a new and proper one for the axis, the one
-- that the method stands for; and a guarded method passes it on only if the axis is not latched by
-- STOP, is enabled and, for an absolute move, referenced.
abbrev pub Reason : ℤ → ℕ → Service → ℕ → Method → Answer → Type 0
Reason default_timeout ticket s axis m (refused not_initialized) = ⊥
Reason default_timeout ticket s axis m (refused bad_argument) = ⊥
Reason default_timeout ticket s axis m (refused no_such_axis) = length s.axes ≤ axis
Reason default_timeout ticket s axis m (refused latched) =
    (is_guarded m ≡ true) × (latch_at s.axes axis ≡ true)
Reason default_timeout ticket s axis m (refused not_enabled) =
    (is_guarded m ≡ true) × (is_set (status_of s axis).amplifiers_enabled ≡ false)
Reason default_timeout ticket s axis m (refused not_referenced) =
    (is_absolute m ≡ true) × (is_set (status_of s axis).encoder_valid ≡ false)
Reason default_timeout ticket s axis m at_once = IsThere s axis m
Reason default_timeout ticket s axis m (execute c) =
    IsCommand c
    × Asks default_timeout m c
    × IsNew ticket axis c
    × (axis < length s.axes)
    × (¬ IsThere s axis m)
    × (is_guarded m ≡ true
        → (latch_at s.axes axis ≡ false) × (is_set (status_of s axis).amplifiers_enabled ≡ true))
    × (is_absolute m ≡ true → is_set (status_of s axis).encoder_valid ≡ true)

-- Why a method does what it does, its arguments included.
abbrev pub Explained : ℤ → Bool → ℕ → Service → ℤ → Method → Answer → Type 0
Explained default_timeout initialized ticket s slave m answer =
    ((initialized ≡ false) × (answer ≡ refused not_initialized))
    ⊎ (((is_bad m ≡ true) ⊎ (slave ≤ℤ pos 0)) × (answer ≡ refused bad_argument))
    ⊎ ((axis : ℕ) × (slave ≡ pos (suc axis)) × Reason default_timeout ticket s axis m answer)
