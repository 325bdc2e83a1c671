-- ===== src/Service/Command/Settles.antt =====
-- When a move is over: what ends it in the states that a drive reports one after the other.
use xeryon_ether_cat.Base.{
  ℕ, pos, ap, sym, List, [], ◌∷◌, true, false, ◌≡◌, refl, ◌∙◌, inl, inr, ◌≤ℤ◌, ◌==ℤ◌, not, ◌&&◌,
  ◌||◌, arith, Bool, Bool-cases,
}
use xeryon_ether_cat.Shim.Pdo.{DriveTxPdo}
use xeryon_ether_cat.Service.Errors.{is_set}
use xeryon_ether_cat.Service.Command.{
  CommandState, pending, completed, timed_out, PendingCommand, position_reached, evaluate,
  evaluate_position_reached, move_is_over, is_late, is_dpos, complete_if,
}

abbrev pub or_later : CommandState → CommandState → CommandState
or_later pending later = later
or_later st later = st

-- What becomes of a command while states come in, each with its time.
unfoldable pub watch : PendingCommand → List (ℕ × DriveTxPdo) → CommandState
watch c [] = pending
watch c ((now, t) ∷ rest) = let r = evaluate now t c in or_later r.0 (watch r.1 rest)

-- From one state to the next the position is reached, or the motor goes off.
abbrev pub is_edge : DriveTxPdo → DriveTxPdo → Bool
is_edge old t =
    (not (is_set old.position_reached) && is_set t.position_reached)
    || (is_set old.motor_on && not (is_set t.motor_on))

-- A "DPOS" is at its target.
abbrev pub is_at_target : PendingCommand → DriveTxPdo → Bool
is_at_target c t = is_dpos c.keyword && (t.actual_position ==ℤ c.parameter)

-- Whether one of the states behind the first is at the target, or an edge leads to it.
pub settles : PendingCommand → DriveTxPdo → List (ℕ × DriveTxPdo) → Bool
settles c old [] = false
settles c old ((now, t) ∷ rest) = (is_edge old t || is_at_target c t) || settles c t rest

-- The command once it has seen a state.
abbrev seen : DriveTxPdo → PendingCommand → PendingCommand
seen t c = record c {
  previous_position_reached = is_set t.position_reached;
  previous_motor_on = is_set t.motor_on;
  edge_detection_initialized = true;
}

evaluate_late :
    (now : ℕ) (t : DriveTxPdo) (c : PendingCommand)
    → c.completion ≡ position_reached
    → is_late now c ≡ true
    → evaluate now t c ≡ (timed_out, c)
unfolding evaluate
evaluate_late now t c kind late = rw kind (rw late refl)

evaluate_first :
    (now : ℕ) (t : DriveTxPdo) (c : PendingCommand)
    → c.completion ≡ position_reached
    → is_late now c ≡ false
    → c.edge_detection_initialized ≡ false
    → evaluate now t c ≡ (pending, seen t c)
unfolding evaluate evaluate_position_reached
evaluate_first now t c kind late fresh = rw kind (rw late (rw fresh refl))

evaluate_next :
    (now : ℕ) (t : DriveTxPdo) (c : PendingCommand)
    → c.completion ≡ position_reached
    → is_late now c ≡ false
    → c.edge_detection_initialized ≡ true
    → evaluate now t c ≡ (complete_if (move_is_over c t), seen t c)
unfolding evaluate evaluate_position_reached
evaluate_next now t c kind late init = rw kind (rw late (rw init refl))

watch_step :
    (now : ℕ) (t : DriveTxPdo) (c : PendingCommand) (states : List (ℕ × DriveTxPdo))
    (st : CommandState) (c1 : PendingCommand)
    → evaluate now t c ≡ (st, c1)
    → watch c ((now, t) ∷ states) ≡ or_later st (watch c1 states)
unfolding watch
watch_step now t c states st c1 e = ap (λ r. or_later r.0 (watch r.1 states)) e

-- What the states behind the first have to do with the end of the command.
abbrev Agrees : PendingCommand → CommandState → Bool → Type 0
Agrees c st over =
    ((st ≡ completed) → over ≡ true) × (c.timeout ≤ℤ pos 0 → over ≡ true → st ≡ completed)

late-Agrees :
    (now : ℕ) (c : PendingCommand) (over : Bool) (st : CommandState)
    → is_late now c ≡ true
    → st ≡ timed_out
    → Agrees c st over
late-Agrees now c over st late e = (
  λ done. absurd (ground (arith, e, done)),
  λ no_limit settled. absurd (ground (arith, late, no_limit)),
)

-- The command has seen a state.
record HasSeen (c : PendingCommand) (old : DriveTxPdo) : Type 0 where
  kind : c.completion ≡ position_reached
  init : c.edge_detection_initialized ≡ true
  reached : c.previous_position_reached ≡ is_set old.position_reached
  motor : c.previous_motor_on ≡ is_set old.motor_on

move_is_over_lem :
    (c : PendingCommand) (old t : DriveTxPdo)
    → HasSeen c old
    → move_is_over c t ≡ (is_edge old t || is_at_target c t)
move_is_over_lem c old t h = ground (arith, h.reached, h.motor)

seen_same :
    (c : PendingCommand) (s old : DriveTxPdo) (states : List (ℕ × DriveTxPdo))
    → settles (seen s c) old states ≡ settles c old states
unfolding settles
seen_same c s old [] = refl
seen_same c s old ((now, t) ∷ rest) =
    ap (λ b. (is_edge old t || is_at_target c t) || b) (seen_same c s t rest)

watch_seen :
    (c : PendingCommand) (old : DriveTxPdo) (states : List (ℕ × DriveTxPdo))
    → HasSeen c old
    → Agrees c (watch c states) (settles c old states)
unfolding settles watch
watch_seen c old [] h = (λ e. absurd (ground (arith, e)), λ no_limit e. absurd (ground (arith, e)))
watch_seen c old ((now, t) ∷ rest) h =
    let next : HasSeen (seen t c) t = record {
      kind = h.kind;
      init = refl;
      reached = refl;
      motor = refl;
    } in
    let later = watch_seen (seen t c) t rest next in
    let same = seen_same c t t rest in
    let over = move_is_over_lem c old t h in
    elim (Bool-cases (is_late now c)) [
      | inl late ↦
          late-Agrees now c _ _ late
            (watch_step now t c rest _ _ (evaluate_late now t c h.kind late))
      | inr fine ↦
          let e = watch_step now t c rest _ _ (evaluate_next now t c h.kind fine h.init) in
          elim (Bool-cases (move_is_over c t)) [
            | inl done ↦ (λ w. ground (arith, done, over), λ no_limit w. ground (arith, e, done))
            | inr not_yet ↦ (
              λ w. ground (arith, not_yet, over, e, w, later.0, same),
              λ no_limit w. ground (arith, not_yet, over, e, w, later.1, same, no_limit),
            )
          ]
    ]

-- A fresh command that waits for a position is over only when a state behind the first is at the
-- target of a "DPOS", or an edge leads to it; and if the command has no timeout, it is then over.
pub watch-settles :
    (c : PendingCommand) (now : ℕ) (t : DriveTxPdo) (states : List (ℕ × DriveTxPdo))
    → c.completion ≡ position_reached
    → c.edge_detection_initialized ≡ false
    → ((watch c ((now, t) ∷ states) ≡ completed) → settles c t states ≡ true)
      × (c.timeout ≤ℤ pos 0 → settles c t states ≡ true → watch c ((now, t) ∷ states) ≡ completed)
watch-settles c now t states kind fresh =
    let next : HasSeen (seen t c) t = record {
      kind = kind;
      init = refl;
      reached = refl;
      motor = refl;
    } in
    let later = watch_seen (seen t c) t states next in
    let same = seen_same c t t states in
    elim (Bool-cases (is_late now c)) [
      | inl late ↦
          late-Agrees now c _ _ late
            (watch_step now t c states _ _ (evaluate_late now t c kind late))
      | inr fine ↦
          let e = watch_step now t c states _ _ (evaluate_first now t c kind fine fresh) in
          (λ w. sym same ∙ later.0 (sym e ∙ w), λ no_limit w. e ∙ later.1 no_limit (same ∙ w))
    ]
