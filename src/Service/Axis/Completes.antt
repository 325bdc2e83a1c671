-- ===== src/Service/Axis/Completes.antt =====
-- When a cycle tells that the command of an axis has completed.
use mathlib.Core.Path.{subst}
use Prim.Native.Nat.{bit_xor}
use xeryon_ether_cat.Base.{
  ℕ, Option, none, some, List, [], ◌∷◌, ◌++◌, ◌≡◌, refl, ◌∙◌, ap, sym, inl, inr, true, false, Bool,
  Bool-cases, ◌==◌, ◌&&◌, if◌then◌else◌, not,
}
use xeryon_ether_cat.Shim.Pdo.{DriveTxPdo}
use xeryon_ether_cat.Shim.Info.{Health}
use xeryon_ether_cat.Service.Formatter.{to_bit_mask}
use xeryon_ether_cat.Service.Errors.{DriveError, try_decode_error}
use xeryon_ether_cat.Service.Command.{
  CommandState, pending, completed, timed_out, PendingCommand, evaluate, evaluate_as,
}
use xeryon_ether_cat.Service.Axis.{
  Axis, Event, command_completed, command_failed, command_cancelled, status_changed, faulted,
  Moment, timeout_error, al_error, note_fault, raise_fault, decode_fault, settle, conclude,
  take_ack, follow_command, process_axis, process_active, code_number, is_recent, has_changed,
}
use xeryon_ether_cat.Service.Axis.Reached.{
  is_acknowledged, is_reached, is_done, acked_as, take_ack_lem, is_done-evaluate,
  ticket-evaluate_as,
}

-- The tasks that events complete.
abbrev pub completions : List Event → List ℕ
completions [] = []
completions (command_completed ticket ∷ events) = ticket ∷ completions events
completions (_ ∷ events) = completions events

completions-append :
    (xs ys : List Event) → completions (xs ++ ys) ≡ completions xs ++ completions ys
completions-append [] ys = refl
completions-append (command_completed ticket ∷ xs) ys =
    ap (λ r. ticket ∷ r) (completions-append xs ys)
completions-append (command_failed ticket error ∷ xs) ys = completions-append xs ys
completions-append (command_cancelled ticket ∷ xs) ys = completions-append xs ys
completions-append (status_changed slave tx old mask keyword ∷ xs) ys = completions-append xs ys
completions-append (faulted slave tx error health ∷ xs) ys = completions-append xs ys

-- A fault that is raised completes nothing.
completions-raise_fault :
    (now slave : ℕ) (tx : DriveTxPdo) (error : DriveError) (health : Health) (a : Axis)
    → completions (raise_fault now slave tx error health a).1 ≡ []
unfolding raise_fault
completions-raise_fault now slave tx error health a =
    elim (Bool-cases
      ((code_number a.last_fault == code_number error.code) && is_recent now a.last_fault_time)) [
        | inl again ↦ rw again refl
        | inr new ↦ rw new refl
      ]

completions-note_fault :
    (now slave : ℕ) (tx : DriveTxPdo) (health : Health) (error : Option DriveError) (a : Axis)
    → completions (note_fault now slave tx health error a).1 ≡ []
completions-note_fault now slave tx health none a = refl
completions-note_fault now slave tx health (some error) a =
    completions-raise_fault now slave tx error health a

completions-decode_fault :
    (now slave : ℕ) (tx : DriveTxPdo) (health : Health) (a : Axis)
    → completions (decode_fault now slave tx health a).1 ≡ []
unfolding decode_fault
completions-decode_fault now slave tx health a =
    completions-note_fault now slave tx health (try_decode_error tx) a

-- What is told for a command that was evaluated.
abbrev pub told_if : Bool → ℕ → List ℕ
told_if b ticket = if b then ticket ∷ [] else []

completions-settle :
    (now slave : ℕ) (tx : DriveTxPdo) (health : Health) (st : CommandState) (left : PendingCommand)
    (a : Axis)
    → completions (settle now slave tx health st left a).1 ≡ told_if (is_done st) left.ticket
completions-settle now slave tx health pending left a = refl
completions-settle now slave tx health completed left a = refl
completions-settle now slave tx health timed_out left a =
    completions-raise_fault now slave tx timeout_error health a

-- What a cycle tells of the completion of a command.
abbrev pub completes : ℕ → DriveTxPdo → Health → PendingCommand → Bool
completes now tx health c =
    not c.cancelled && ((health.al_status_code == 0) && is_reached c.completion now tx c)

completions-conclude :
    (now slave : ℕ) (tx : DriveTxPdo) (health : Health) (c : PendingCommand) (a : Axis)
    → completions (conclude now slave tx health (acked_as (is_acknowledged tx c) c) a).1
      ≡ told_if ((health.al_status_code == 0) && is_reached c.completion now tx c) c.ticket
unfolding conclude evaluate
completions-conclude now slave tx health c a = elim (Bool-cases (health.al_status_code == 0)) [
  | inl fine ↦
      let d = acked_as (is_acknowledged tx c) c in
      let r = evaluate_as c.completion now tx d in
      rw fine (
        completions-settle now slave tx health r.0 r.1 a
        ∙ ap (λ b. told_if b r.1.ticket) (is_done-evaluate c.completion now tx c)
        ∙ ap (λ t. told_if (is_reached c.completion now tx c) t)
            (ticket-evaluate_as c.completion now tx d))
  | inr alarm ↦ rw alarm (completions-raise_fault now slave tx al_error health a)
]

completions-unless :
    (gone b : Bool) (ticket : ℕ) (x y : Axis × List Event)
    → completions x.1 ≡ []
    → completions y.1 ≡ told_if b ticket
    → let r : Axis × List Event = if gone then x else y in
      completions r.1 ≡ told_if (not gone && b) ticket
completions-unless true b ticket x y silent told = silent
completions-unless false b ticket x y silent told = told

completions-follow_command :
    (now slave : ℕ) (tx : DriveTxPdo) (health : Health) (c : PendingCommand) (a : Axis)
    → completions (follow_command now slave tx health c a).1
      ≡ told_if (completes now tx health c) c.ticket
unfolding follow_command
completions-follow_command now slave tx health c a =
    let decoded = decode_fault now slave tx health a in
    let concluded = conclude now slave tx health (take_ack tx c) decoded.0 in
    completions-unless c.cancelled _ c.ticket (record a { active = none }, [])
      (concluded.0, decoded.1 ++ concluded.1) refl
      (completions-append decoded.1 concluded.1
        ∙ ap (λ told. told ++ completions concluded.1)
            (completions-decode_fault now slave tx health a)
        ∙ ap (λ d. completions (conclude now slave tx health d decoded.0).1) (take_ack_lem tx c)
        ∙ completions-conclude now slave tx health c decoded.0)

completions-process_active :
    (m : Moment) (slave : ℕ) (tx previous : DriveTxPdo) (health : Health) (c : PendingCommand)
    (a : Axis)
    → ((e : Event) → m.throws e ≡ false)
    → completions (process_active m slave tx previous health a (some c)).1
      ≡ told_if (completes m.now tx health c) c.ticket
completions-process_active m slave tx previous health c a quiet =
    let change =
      status_changed slave tx previous (bit_xor (to_bit_mask tx) (to_bit_mask previous))
        c.keyword in
    let followed = completions-follow_command m.now slave tx health c a in
    elim (Bool-cases (has_changed tx previous)) [
      | inl changed ↦ rw changed (rw (quiet change) followed)
      | inr still ↦ rw still followed
    ]

-- In a cycle in which no listener throws, the command of an axis is told to have completed, once,
-- exactly if it is not cancelled, the AL status code is 0 and what it waits for has come: for each
-- way of completion the flags of the state, the end of a move or the acknowledgement, and that it is
-- not past its timeout, or for ACK_WITH_TIMEOUT that its timeout has passed. No other command is told
-- to have completed.
pub completions-process_axis :
    (m : Moment) (slave : ℕ) (tx : DriveTxPdo) (health : Health) (c : PendingCommand) (a : Axis)
    → a.active ≡ some c
    → ((e : Event) → m.throws e ≡ false)
    → completions (process_axis m slave tx health a).1
      ≡ told_if (completes m.now tx health c) c.ticket
unfolding process_axis
completions-process_axis m slave tx health c a here quiet =
    let stored = record a { previous_tx = tx; tx = tx } in
    subst
      (λ o.
        completions (process_active m slave tx a.previous_tx health stored o).1
        ≡ told_if (completes m.now tx health c) c.ticket)
      (sym here) (completions-process_active m slave tx a.previous_tx health c stored quiet)
