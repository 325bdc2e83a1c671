-- ===== src/Service/Axis/Keeps.antt =====
-- The command of an axis has numbers in the ranges of their types, before a cycle and after it.
use xeryon_ether_cat.Base.{
  ℕ, suc, Option, inl, inr, none, some, List, [], ◌∷◌, ◌-◌, ◌^◌, ◌<◌, ◌≡◌, refl, ap, true, false,
  arith, Bool-cases, ◌==◌, ◌&&◌, not, IsInt32, word32-lt, length, length-append, Bool,
  if◌then◌else◌, take, replicate, zero,
}
use xeryon_ether_cat.Shim.Pdo.{DriveTxPdo}
use xeryon_ether_cat.Shim.Pdo.Image.{IsRxPdo}
use xeryon_ether_cat.Shim.Info.{Health}
use xeryon_ether_cat.Service.Errors.{is_set}
use xeryon_ether_cat.Service.Command.{
  CommandState, pending, completed, timed_out, PendingCommand, CommandCompletion, ack_only,
  position_reached, indexed, enabled, disabled, halt, ack_with_timeout, evaluate, evaluate_as,
  evaluate_position_reached, is_late, fill_command, apply,
}
use xeryon_ether_cat.Service.Axis.{
  Axis, Moment, Event, settle, conclude, take_ack, follow_command, process_axis, process_active,
  decode_fault, has_changed, stage_axis, stage_active, nop_pdo,
}

-- A command that a caller can give.
pub record IsCommand (c : PendingCommand) : Type 0 where
  pub parameter : IsInt32 c.parameter
  pub velocity : IsInt32 c.velocity
  pub acceleration : c.acceleration < 2 ^ 16
  pub deceleration : c.deceleration < 2 ^ 16

abbrev pub Proper : Option PendingCommand → Type 0
Proper none = Unit
Proper (some c) = IsCommand c

length-replicate : (n : ℕ) → length {A = ℕ} (replicate n 0) ≡ n
length-replicate zero = refl
length-replicate (suc n) = ap suc (length-replicate n)

length-take : (n : ℕ) (xs : List ℕ) → length (take n xs) < suc n
length-take zero xs = omega arith
length-take (suc n) [] = omega arith
length-take (suc n) (x ∷ xs) = omega (arith, length-take n xs)

length-fill_command : (keyword : List ℕ) → length (fill_command keyword) ≡ 32
length-fill_command keyword =
    let ascii = take 32 keyword in
    omega (
      arith,
      length-append ascii (replicate (32 - length ascii) 0),
      length-replicate (32 - length ascii),
      length-take 32 keyword,
    )

pub apply-IsRxPdo : (c : PendingCommand) → IsCommand c → IsRxPdo (apply c)
apply-IsRxPdo c h = record {
  command = length-fill_command c.keyword;
  parameter = h.parameter;
  velocity = word32-lt c.velocity h.velocity;
  acceleration = h.acceleration;
  deceleration = h.deceleration;
  execute = ground arith;
}

pub nop_pdo-IsRxPdo : IsRxPdo nop_pdo
nop_pdo-IsRxPdo = record {
  command = refl;
  parameter = omega arith;
  velocity = omega arith;
  acceleration = omega arith;
  deceleration = omega arith;
  execute = omega arith;
}

pub if-holds :
    {A : Type 0} (P : A → Type 0) (b : Bool) {x y : A} → P x → P y → P (if b then x else y)
if-holds P true h k = h
if-holds P false h k = k

stage_active-IsRxPdo :
    (a : Axis) (o : Option PendingCommand)
    → Proper a.active
    → Proper o
    → let r = stage_active a o in IsRxPdo r.rx × Proper r.active
stage_active-IsRxPdo a none h q = (nop_pdo-IsRxPdo, h)
stage_active-IsRxPdo a (some c) h q =
    if-holds (λ (r : Axis). IsRxPdo r.rx × Proper r.active) c.cancelled (nop_pdo-IsRxPdo, tt)
      (apply-IsRxPdo c q, h)

-- What is staged for an axis is a command that the shim takes, and the axis stays proper.
pub stage_axis-IsRxPdo :
    (a : Axis) → Proper a.active → IsRxPdo (stage_axis a).rx × Proper (stage_axis a).active
stage_axis-IsRxPdo a h = stage_active-IsRxPdo a a.active h h

-- The numbers of a command stay when the rest changes.
abbrev pub SameNumbers : PendingCommand → PendingCommand → Type 0
SameNumbers c d =
    (d.parameter ≡ c.parameter)
    × (d.velocity ≡ c.velocity)
    × (d.acceleration ≡ c.acceleration)
    × (d.deceleration ≡ c.deceleration)

pub SameNumbers-IsCommand : (c d : PendingCommand) → SameNumbers c d → IsCommand c → IsCommand d
SameNumbers-IsCommand c d (p, v, a, e) h = record {
  parameter = rw p h.parameter;
  velocity = rw v h.velocity;
  acceleration = rw a h.acceleration;
  deceleration = rw e h.deceleration;
}

evaluate_as-IsCommand :
    (kind : CommandCompletion) (now : ℕ) (tx : DriveTxPdo) (c : PendingCommand)
    → IsCommand c
    → IsCommand (evaluate_as kind now tx c).1
unfolding evaluate_position_reached
evaluate_as-IsCommand ack_with_timeout now tx c h = h
evaluate_as-IsCommand position_reached now tx c h =
    let seen = SameNumbers-IsCommand c _ (refl, refl, refl, refl) h in
    if-holds (λ (r : CommandState × PendingCommand). IsCommand r.1) (is_late now c) h
      (if-holds (λ (r : CommandState × PendingCommand). IsCommand r.1) c.edge_detection_initialized
        seen seen)
evaluate_as-IsCommand ack_only now tx c h = h
evaluate_as-IsCommand indexed now tx c h = h
evaluate_as-IsCommand enabled now tx c h = h
evaluate_as-IsCommand disabled now tx c h = h
evaluate_as-IsCommand halt now tx c h = h

settle-Proper :
    (now slave : ℕ) (tx : DriveTxPdo) (health : Health) (st : CommandState) (c : PendingCommand)
    (a : Axis)
    → IsCommand c
    → Proper (settle now slave tx health st c a).0.active
settle-Proper now slave tx health pending c a h = h
settle-Proper now slave tx health completed c a h = tt
settle-Proper now slave tx health timed_out c a h = tt

conclude-Proper :
    (now slave : ℕ) (tx : DriveTxPdo) (health : Health) (c : PendingCommand) (a : Axis)
    → IsCommand c
    → Proper (conclude now slave tx health c a).0.active
unfolding conclude evaluate
conclude-Proper now slave tx health c a h = elim (Bool-cases (health.al_status_code == 0)) [
  | inl fine ↦
      rw fine
        (settle-Proper now slave tx health _ _ a (evaluate_as-IsCommand c.completion now tx c h))
  | inr alarm ↦ rw alarm tt
]

take_ack-IsCommand :
    (tx : DriveTxPdo) (c : PendingCommand) → IsCommand c → IsCommand (take_ack tx c)
take_ack-IsCommand tx c h =
    if-holds IsCommand (not c.acked && is_set tx.execute_ack)
      (SameNumbers-IsCommand c _ (refl, refl, refl, refl) h) h

follow_command-Proper :
    (now slave : ℕ) (tx : DriveTxPdo) (health : Health) (c : PendingCommand) (a : Axis)
    → IsCommand c
    → Proper (follow_command now slave tx health c a).0.active
unfolding follow_command
follow_command-Proper now slave tx health c a h =
    let later =
      conclude-Proper now slave tx health (take_ack tx c) (decode_fault now slave tx health a).0
        (take_ack-IsCommand tx c h) in
    if-holds (λ (r : Axis × List Event). Proper r.0.active) c.cancelled tt later

process_active-Proper :
    (m : Moment) (slave : ℕ) (tx previous : DriveTxPdo) (health : Health) (a : Axis)
    (o : Option PendingCommand)
    → Proper a.active
    → Proper o
    → Proper (process_active m slave tx previous health a o).0.active
process_active-Proper m slave tx previous health a none h q = h
process_active-Proper m slave tx previous health a (some c) h q =
    let followed = follow_command-Proper m.now slave tx health c a q in
    if-holds (λ (r : Axis × List Event × Bool). Proper r.0.active) (has_changed tx previous)
      (if-holds (λ (r : Axis × List Event × Bool). Proper r.0.active) (m.throws _) h followed)
      followed

pub process_axis-Proper :
    (m : Moment) (slave : ℕ) (tx : DriveTxPdo) (health : Health) (a : Axis)
    → Proper a.active
    → Proper (process_axis m slave tx health a).0.active
unfolding process_axis
process_axis-Proper m slave tx health a h =
    process_active-Proper m slave tx a.previous_tx health (record a { previous_tx = tx; tx = tx })
      a.active h h
