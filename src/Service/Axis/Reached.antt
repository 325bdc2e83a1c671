-- ===== src/Service/Axis/Reached.antt =====
-- What a command waits for, for each way of completion, and that `Evaluate` finds it so.

use xeryon_ether_cat.Base.{
  ℕ, ℤ, pos, negsuc, ◌≡◌, refl, ◌∙◌, ap, inl, inr, true, false, arith, Bool, Bool-cases, ◌==ℤ◌,
  ◌&&◌, ◌||◌, ◌-◌, if◌then◌else◌, not, leb_ℤ, ltb_ℤ,
}
use xeryon_ether_cat.Shim.Pdo.{DriveTxPdo}
use xeryon_ether_cat.Service.Errors.{is_set}
use xeryon_ether_cat.Service.Command.{
  CommandState, pending, completed, timed_out, PendingCommand, CommandCompletion, ack_only,
  position_reached, indexed, enabled, disabled, halt, ack_with_timeout, evaluate_as,
  evaluate_position_reached, is_late, complete_if, is_dpos,
}
use xeryon_ether_cat.Service.Axis.{take_ack}

-- The drive has acknowledged the command, before or in the state at hand.
abbrev pub is_acknowledged : DriveTxPdo → PendingCommand → Bool
is_acknowledged tx c = c.acked || is_set tx.execute_ack

-- The command has no timeout, or is not past it.
abbrev pub is_in_time : ℕ → PendingCommand → Bool
is_in_time now c = leb_ℤ c.timeout (pos 0) || leb_ℤ (pos (now - c.started)) c.timeout

-- The state at hand ends a move: the position is newly reached, the motor newly off, or a "DPOS" is
-- at its target. The first state that a command sees ends none.
abbrev pub ends_move : DriveTxPdo → PendingCommand → Bool
ends_move tx c =
    c.edge_detection_initialized
    && ((not c.previous_position_reached && is_set tx.position_reached)
        || ((c.previous_motor_on && not (is_set tx.motor_on))
            || (is_dpos c.keyword && (tx.actual_position ==ℤ c.parameter))))

-- What each way of completion waits for.
abbrev pub is_reached : CommandCompletion → ℕ → DriveTxPdo → PendingCommand → Bool
is_reached ack_only now tx c = is_in_time now c && is_acknowledged tx c
is_reached position_reached now tx c = is_in_time now c && ends_move tx c
is_reached indexed now tx c =
    is_in_time now c && (is_set tx.encoder_valid && is_set tx.position_reached)
is_reached enabled now tx c =
    is_in_time now c && (is_set tx.amplifiers_enabled && is_set tx.motor_on)
is_reached disabled now tx c = is_in_time now c && not (is_set tx.amplifiers_enabled)
is_reached halt now tx c = is_in_time now c && not (is_set tx.scanning)
is_reached ack_with_timeout now tx c =
    is_acknowledged tx c && (ltb_ℤ (pos 0) c.timeout && leb_ℤ c.timeout (pos (now - c.started)))

abbrev pub is_done : CommandState → Bool
is_done completed = true
is_done _ = false

is_done-complete_if :
    (late b : Bool) → is_done (if late then timed_out else complete_if b) ≡ not late && b
is_done-complete_if true b = refl
is_done-complete_if false true = refl
is_done-complete_if false false = refl

late_or_not_below :
    (t : ℤ) (e : ℕ) → not (ltb_ℤ (pos 0) t && ltb_ℤ t (pos e)) ≡ leb_ℤ t (pos 0) || leb_ℤ (pos e) t
late_or_not_below (pos n) e = ground arith
late_or_not_below (negsuc n) e = ground arith

is_done-move :
    (late edge over : Bool) (x y z : PendingCommand)
    → let r : CommandState × PendingCommand =
        if late then (timed_out, x) else if edge then (complete_if over, y) else (pending, z) in
      is_done r.0 ≡ not late && (edge && over)
is_done-move true edge over x y z = refl
is_done-move false false over x y z = refl
is_done-move false true true x y z = refl
is_done-move false true false x y z = refl

is_done-wait :
    (acked late over : Bool)
    → is_done (if acked then complete_if over else (if late then timed_out else pending))
      ≡ acked && over
is_done-wait true late true = refl
is_done-wait true late false = refl
is_done-wait false true over = refl
is_done-wait false false over = refl

late_or_in_time : (now : ℕ) (c : PendingCommand) → not (is_late now c) ≡ is_in_time now c
late_or_in_time now c = late_or_not_below c.timeout (now - c.started)

-- The state of a command that has taken the acknowledgement in.
abbrev pub acked_as : Bool → PendingCommand → PendingCommand
acked_as b c = record c { acked = b }

pub take_ack_lem :
    (tx : DriveTxPdo) (c : PendingCommand) → take_ack tx c ≡ acked_as (is_acknowledged tx c) c
take_ack_lem tx c = elim (Bool-cases c.acked) [
  | inl acked ↦ rw acked refl
  | inr waiting ↦ elim (Bool-cases (is_set tx.execute_ack)) [
    | inl ack ↦ rw waiting (rw ack refl)
    | inr none_yet ↦ rw waiting (rw none_yet refl)
  ]
]

in_time :
    (kind : Bool) (now : ℕ) (c : PendingCommand)
    → not (is_late now c) && kind ≡ is_in_time now c && kind
in_time kind now c = ap (λ b. b && kind) (late_or_in_time now c)

pub is_done-evaluate :
    (kind : CommandCompletion) (now : ℕ) (tx : DriveTxPdo) (c : PendingCommand)
    → is_done (evaluate_as kind now tx (acked_as (is_acknowledged tx c) c)).0
      ≡ is_reached kind now tx c
unfolding evaluate_position_reached
is_done-evaluate ack_only now tx c = is_done-complete_if (is_late now c) _ ∙ in_time _ now c
is_done-evaluate position_reached now tx c =
    is_done-move (is_late now c) c.edge_detection_initialized _ _ _ _ ∙ in_time _ now c
is_done-evaluate indexed now tx c = is_done-complete_if (is_late now c) _ ∙ in_time _ now c
is_done-evaluate enabled now tx c = is_done-complete_if (is_late now c) _ ∙ in_time _ now c
is_done-evaluate disabled now tx c = is_done-complete_if (is_late now c) _ ∙ in_time _ now c
is_done-evaluate halt now tx c = is_done-complete_if (is_late now c) _ ∙ in_time _ now c
is_done-evaluate ack_with_timeout now tx c = is_done-wait (is_acknowledged tx c) (is_late now c) _

-- Evaluating a command keeps its task.
pub ticket-evaluate_as :
    (kind : CommandCompletion) (now : ℕ) (tx : DriveTxPdo) (c : PendingCommand)
    → (evaluate_as kind now tx c).1.ticket ≡ c.ticket
unfolding evaluate_position_reached
ticket-evaluate_as ack_only now tx c = refl
ticket-evaluate_as position_reached now tx c = elim (Bool-cases (is_late now c)) [
  | inl late ↦ rw late refl
  | inr fine ↦ elim (Bool-cases c.edge_detection_initialized) [
    | inl init ↦ rw fine (rw init refl)
    | inr fresh ↦ rw fine (rw fresh refl)
  ]
]
ticket-evaluate_as indexed now tx c = refl
ticket-evaluate_as enabled now tx c = refl
ticket-evaluate_as disabled now tx c = refl
ticket-evaluate_as halt now tx c = refl
ticket-evaluate_as ack_with_timeout now tx c = refl
