-- ===== src/Service/Axis/Resolves.antt =====
-- What becomes of the command of an axis in a cycle.
use xeryon_ether_cat.Base.{
  ℕ, Option, none, some, List, [], ◌∷◌, ◌++◌, ◌≡◌, refl, ◌∙◌, ap, sym, ◌⊎◌, inl, inr, false, arith,
  Bool-cases, ◌==◌, ◌&&◌, if◌then◌else◌, not,
}
use mathlib.Core.Path.{subst}
use Prim.Native.Nat.{bit_xor}
use xeryon_ether_cat.Service.Formatter.{to_bit_mask}
use xeryon_ether_cat.Shim.Pdo.{DriveTxPdo}
use xeryon_ether_cat.Shim.Info.{Health}
use xeryon_ether_cat.Service.Errors.{DriveError, try_decode_error, is_set}
use xeryon_ether_cat.Service.Command.{
  CommandState, pending, completed, timed_out, PendingCommand, CommandCompletion, ack_only,
  position_reached, indexed, enabled, disabled, halt, ack_with_timeout, evaluate, evaluate_as,
  evaluate_wait, evaluate_position_reached, is_late,
}
use xeryon_ether_cat.Service.Axis.{
  Axis, Event, command_completed, command_failed, command_cancelled, status_changed, faulted,
  Moment, timeout_error, al_error, note_fault, raise_fault, decode_fault, settle, conclude,
  take_ack, follow_command, process_axis, process_active, code_number, is_recent, has_changed,
}

-- The tasks that events end.
abbrev pub answers : List Event → List ℕ
answers [] = []
answers (command_completed ticket ∷ events) = ticket ∷ answers events
answers (command_failed ticket error ∷ events) = ticket ∷ answers events
answers (command_cancelled ticket ∷ events) = ticket ∷ answers events
answers (status_changed slave tx old mask keyword ∷ events) = answers events
answers (faulted slave tx error health ∷ events) = answers events

answers-append : (xs ys : List Event) → answers (xs ++ ys) ≡ answers xs ++ answers ys
answers-append [] ys = refl
answers-append (command_completed ticket ∷ xs) ys = ap (λ r. ticket ∷ r) (answers-append xs ys)
answers-append (command_failed ticket error ∷ xs) ys = ap (λ r. ticket ∷ r) (answers-append xs ys)
answers-append (command_cancelled ticket ∷ xs) ys = ap (λ r. ticket ∷ r) (answers-append xs ys)
answers-append (status_changed slave tx old mask keyword ∷ xs) ys = answers-append xs ys
answers-append (faulted slave tx error health ∷ xs) ys = answers-append xs ys

-- A fault that is raised is no answer, and leaves the command of the axis alone.
pub raise_fault_lem :
    (now slave : ℕ) (tx : DriveTxPdo) (error : DriveError) (health : Health) (a : Axis)
    → let r = raise_fault now slave tx error health a in
      (r.0.active ≡ a.active) × (answers r.1 ≡ [])
unfolding raise_fault
raise_fault_lem now slave tx error health a =
    elim (Bool-cases
      ((code_number a.last_fault == code_number error.code) && is_recent now a.last_fault_time)) [
        | inl again ↦ rw again (refl, refl)
        | inr new ↦ rw new (refl, refl)
      ]

note_fault_lem :
    (now slave : ℕ) (tx : DriveTxPdo) (health : Health) (error : Option DriveError) (a : Axis)
    → let r = note_fault now slave tx health error a in (r.0.active ≡ a.active) × (answers r.1 ≡ [])
note_fault_lem now slave tx health none a = (refl, refl)
note_fault_lem now slave tx health (some error) a = raise_fault_lem now slave tx error health a

decode_fault_lem :
    (now slave : ℕ) (tx : DriveTxPdo) (health : Health) (a : Axis)
    → let r = decode_fault now slave tx health a in (r.0.active ≡ a.active) × (answers r.1 ≡ [])
unfolding decode_fault
decode_fault_lem now slave tx health a = note_fault_lem now slave tx health (try_decode_error tx) a

-- What `Evaluate` returns and leaves: the command keeps its ticket, and a late one is over.
record Evaluated (now : ℕ) (c : PendingCommand) (st : CommandState) (left : PendingCommand)
    : Type 0 where
  ticket : left.ticket ≡ c.ticket
  late : (is_late now c ≡ false) ⊎ (st ≡ completed) ⊎ (st ≡ timed_out)

late_first :
    (now : ℕ) (c : PendingCommand) (st : CommandState)
    → Evaluated now c (if is_late now c then timed_out else st) c
late_first now c st = elim (Bool-cases (is_late now c)) [
  | inl late ↦ record { ticket = refl; late = inr (inr (rw late refl)) }
  | inr fine ↦ record { ticket = refl; late = inl fine }
]

evaluate_wait_late :
    (now : ℕ) (c : PendingCommand)
    → (is_late now c ≡ false)
      ⊎ (evaluate_wait now c ≡ completed)
      ⊎ (evaluate_wait now c ≡ timed_out)
evaluate_wait_late now c = elim (Bool-cases (is_late now c)) [
  | inr early ↦ inl early
  | inl late ↦ elim (Bool-cases c.acked) [
    | inl acked ↦ inr (inl ground (arith, acked, late))
    | inr waiting ↦ inr (inr (rw waiting (rw late refl)))
  ]
]

evaluate_as-Evaluated :
    (kind : CommandCompletion) (now : ℕ) (tx : DriveTxPdo) (c : PendingCommand)
    → let r = evaluate_as kind now tx c in Evaluated now c r.0 r.1
unfolding evaluate_position_reached
evaluate_as-Evaluated ack_with_timeout now tx c = record {
  ticket = refl;
  late = evaluate_wait_late now c;
}
evaluate_as-Evaluated position_reached now tx c = elim (Bool-cases (is_late now c)) [
  | inl late ↦ rw late (record { ticket = refl; late = inr (inr refl) })
  | inr fine ↦ elim (Bool-cases c.edge_detection_initialized) [
    | inl init ↦ rw fine (rw init (record { ticket = refl; late = inl fine }))
    | inr fresh ↦ rw fine (rw fresh (record { ticket = refl; late = inl fine }))
  ]
]
evaluate_as-Evaluated ack_only now tx c = late_first now c _
evaluate_as-Evaluated indexed now tx c = late_first now c _
evaluate_as-Evaluated enabled now tx c = late_first now c _
evaluate_as-Evaluated disabled now tx c = late_first now c _
evaluate_as-Evaluated halt now tx c = late_first now c _

-- The command of an axis was answered and is gone, or it is still there, not late, and unanswered.
abbrev pub Resolved : ℕ → Health → PendingCommand → Axis → List Event → Type 0
Resolved now health c a events =
    ((a.active ≡ none) × (answers events ≡ c.ticket ∷ []))
    ⊎ ((left : PendingCommand) × (a.active ≡ some left)
        × (left.ticket ≡ c.ticket)
        × (is_late now c ≡ false)
        × (health.al_status_code ≡ 0)
        × (answers events ≡ []))

settle-Resolved :
    (now slave : ℕ) (tx : DriveTxPdo) (health : Health) (c : PendingCommand) (st : CommandState)
    (left : PendingCommand) (a : Axis)
    → Evaluated now c st left
    → health.al_status_code ≡ 0
    → let r = settle now slave tx health st left a in Resolved now health c r.0 r.1
settle-Resolved now slave tx health c pending left a e fine = elim e.late [
  | inl early ↦ inr (left, refl, e.ticket, early, fine, refl)
  | inr (inl over) ↦ absurd (ground (arith, over))
  | inr (inr over) ↦ absurd (ground (arith, over))
]
settle-Resolved now slave tx health c completed left a e fine =
    inl (refl, ap (λ t. t ∷ []) e.ticket)
settle-Resolved now slave tx health c timed_out left a e fine =
    inl (refl, λ i. e.ticket i ∷ (raise_fault_lem now slave tx timeout_error health a).1 i)

conclude-Resolved :
    (now slave : ℕ) (tx : DriveTxPdo) (health : Health) (c : PendingCommand) (a : Axis)
    → let r = conclude now slave tx health c a in Resolved now health c r.0 r.1
unfolding conclude evaluate
conclude-Resolved now slave tx health c a = elim (Bool-cases (health.al_status_code == 0)) [
  | inl fine ↦ rw fine (
      settle-Resolved now slave tx health c _ _ a (evaluate_as-Evaluated c.completion now tx c)
        (ground (arith, fine)))
  | inr alarm ↦
      rw alarm
        (inl (refl, ap (λ r. c.ticket ∷ r) (raise_fault_lem now slave tx al_error health a).1))
]

take_ack_lem :
    (tx : DriveTxPdo) (c : PendingCommand)
    → let d = take_ack tx c in (d.ticket ≡ c.ticket) × ((now : ℕ) → is_late now d ≡ is_late now c)
take_ack_lem tx c = elim (Bool-cases (not c.acked && is_set tx.execute_ack)) [
  | inl acked ↦ rw acked (refl, λ now. refl)
  | inr not_acked ↦ rw not_acked (refl, λ now. refl)
]

-- What was told before is no answer.
Resolved-told :
    (now : ℕ) (health : Health) (c d : PendingCommand) (a : Axis) (told events : List Event)
    → answers told ≡ []
    → d.ticket ≡ c.ticket
    → is_late now d ≡ is_late now c
    → Resolved now health d a events
    → Resolved now health c a (told ++ events)
Resolved-told now health c d a told events silent ticket late r =
    let both : answers (told ++ events) ≡ answers events =
      answers-append told events ∙ ap (λ t. t ++ answers events) silent in
    elim r [
      | inl (gone, ended) ↦ inl (gone, both ∙ ended ∙ ap (λ t. t ∷ []) ticket)
      | inr (left, there, same, early, fine, none_yet) ↦
          inr (left, there, same ∙ ticket, sym late ∙ early, fine, both ∙ none_yet)
    ]

follow_command-Resolved :
    (now slave : ℕ) (tx : DriveTxPdo) (health : Health) (c : PendingCommand) (a : Axis)
    → c.cancelled ≡ false
    → let r = follow_command now slave tx health c a in Resolved now health c r.0 r.1
unfolding follow_command
follow_command-Resolved now slave tx health c a live =
    let decoded = decode_fault now slave tx health a in
    let ack = take_ack_lem tx c in
    let later = conclude now slave tx health (take_ack tx c) decoded.0 in
    let e : follow_command now slave tx health c a ≡ (later.0, decoded.1 ++ later.1) =
      ap (λ b. if b then (record a { active = none }, []) else (later.0, decoded.1 ++ later.1))
        live in
    subst (λ r. Resolved now health c r.0 r.1) (sym e)
      (Resolved-told now health c (take_ack tx c) later.0 decoded.1 later.1
        (decode_fault_lem now slave tx health a).1 ack.0 (ack.1 now)
        (conclude-Resolved now slave tx health (take_ack tx c) decoded.0))

process_active-Resolved :
    (m : Moment) (slave : ℕ) (tx previous : DriveTxPdo) (health : Health) (c : PendingCommand)
    (a : Axis)
    → c.cancelled ≡ false
    → ((e : Event) → m.throws e ≡ false)
    → let r = process_active m slave tx previous health a (some c) in
      Resolved m.now health c r.0 r.1
process_active-Resolved m slave tx previous health c a live quiet =
    let r = follow_command m.now slave tx health c a in
    let change =
      status_changed slave tx previous (bit_xor (to_bit_mask tx) (to_bit_mask previous))
        c.keyword in
    let followed = follow_command-Resolved m.now slave tx health c a live in
    elim (Bool-cases (has_changed tx previous)) [
      | inl changed ↦ rw changed (
          rw (quiet change)
            (Resolved-told m.now health c c r.0 (change ∷ []) r.1 refl refl refl followed))
      | inr still ↦ rw still followed
    ]

-- In a cycle in which no listener throws, the command of an axis that is not cancelled is either
-- answered once and leaves the axis, or stays there under its ticket without an answer; it stays
-- only if it is not past its timeout and the AL status code is 0.
pub process_axis-Resolved :
    (m : Moment) (slave : ℕ) (tx : DriveTxPdo) (health : Health) (c : PendingCommand) (a : Axis)
    → a.active ≡ some c
    → c.cancelled ≡ false
    → ((e : Event) → m.throws e ≡ false)
    → let r = process_axis m slave tx health a in Resolved m.now health c r.0 r.1
unfolding process_axis
process_axis-Resolved m slave tx health c a here live quiet =
    let stored = record a { previous_tx = tx; tx = tx } in
    subst
      (λ o.
        let r = process_active m slave tx a.previous_tx health stored o in
        Resolved m.now health c r.0 r.1)
      (sym here) (process_active-Resolved m slave tx a.previous_tx health c stored live quiet)
