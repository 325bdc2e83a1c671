-- ===== src/Service/Methods/Ready.antt =====
-- A command of a method has its reason, once the axis is found ready for it.

use xeryon_ether_cat.Base.{
  ℕ, ℤ, List, ◌≡◌, refl, ◌<◌, ◌^◌, Bool, true, false, not, ◌&&◌, arith, IsInt32, length,
  if◌then◌else◌, ltb,
}
use xeryon_ether_cat.Service.Errors.{is_set}
use xeryon_ether_cat.Service.Command.{PendingCommand, CommandCompletion}
use xeryon_ether_cat.Service.Axis.Keeps.{IsCommand}
use xeryon_ether_cat.Service.State.{Service}
use xeryon_ether_cat.Service.Methods.{
  create_motion, Method, Answer, status_of, latch_at, ensure_axis_ready, enter, settle_timeout,
}
use xeryon_ether_cat.Service.Methods.Reasons.{
  is_guarded, is_absolute, IsThere, Carries, IsSettleTimeout, Asks, IsNew, Reason,
}

pub unset : (b : Bool) → b ≡ false → ¬ (b ≡ true)
unset b off on = absurd (ground (arith, off, on))

turn_off : (b : Bool) → not b ≡ true → b ≡ false
turn_off true e = absurd (ground (arith, e))
turn_off false e = refl

turn_on : (b : Bool) → not b ≡ false → b ≡ true
turn_on true e = refl
turn_on false e = absurd (ground (arith, e))

both_true : (a b : Bool) → a && b ≡ true → (a ≡ true) × (b ≡ true)
both_true true b e = (refl, e)
both_true false b e = absurd (ground (arith, e))

second_false : (a b : Bool) → a ≡ true → a && b ≡ false → b ≡ false
second_false true b h e = e
second_false false b h e = absurd (ground (arith, h))

module _ (default_timeout : ℤ) (ticket : ℕ) (s : Service) (axis : ℕ) where
  pub if-Reason :
      (m : Method) (b : Bool) (x y : Answer)
      → (b ≡ true → Reason default_timeout ticket s axis m x)
      → (b ≡ false → Reason default_timeout ticket s axis m y)
      → Reason default_timeout ticket s axis m (if b then x else y)
  if-Reason m true x y first second = first refl
  if-Reason m false x y first second = second refl

  -- What `ExecuteCommandAsync` gets, if the axis is ready for it.
  enter-Reason :
      (m : Method) (c : PendingCommand)
      → IsCommand c × Asks default_timeout m c × IsNew ticket axis c
      → ¬ IsThere s axis m
      → (is_guarded m ≡ true
          → (latch_at s.axes axis ≡ false) × (is_set (status_of s axis).amplifiers_enabled ≡ true))
      → (is_absolute m ≡ true → is_set (status_of s axis).encoder_valid ≡ true)
      → Reason default_timeout ticket s axis m (enter s axis c)
  enter-Reason m c (h, asks, new) away ready known =
      if-Reason m (ltb axis (length s.axes)) _ _
        (λ inside. (h, asks, new, ground (arith, inside), away, ready, known))
        (λ outside. ground (arith, outside))

  -- A guarded method, once the axis is found ready.
  pub ensure_axis_ready-Reason :
      (m : Method) (c : PendingCommand)
      → is_guarded m ≡ true
      → IsCommand c × Asks default_timeout m c × IsNew ticket axis c
      → ¬ IsThere s axis m
      → Reason default_timeout ticket s axis m
          (ensure_axis_ready s axis (is_absolute m) (enter s axis c))
  ensure_axis_ready-Reason m c moves h away =
      if-Reason m (latch_at s.axes axis) _ _ (λ shut. (moves, shut))
        λ free.
          if-Reason m (not (is_set (status_of s axis).amplifiers_enabled)) _ _
            (λ off. (moves, turn_off _ off))
            λ on.
              if-Reason m (is_absolute m && not (is_set (status_of s axis).encoder_valid)) _ _
                (λ lost. let (absolute, dark) = both_true _ _ lost in (absolute, turn_off _ dark))
                λ found.
                  enter-Reason m c h away (λ _. (free, turn_on _ on))
                    (λ absolute. turn_on _ (second_false _ _ absolute found))

  -- A method that is not guarded.
  pub control-Reason :
      (m : Method) (c : PendingCommand)
      → is_guarded m ≡ false
      → is_absolute m ≡ false
      → IsCommand c × Asks default_timeout m c × IsNew ticket axis c
      → ¬ IsThere s axis m
      → Reason default_timeout ticket s axis m (enter s axis c)
  control-Reason m c still relative h away =
      enter-Reason m c h away (λ moves. absurd (ground (arith, still, moves)))
        (λ absolute. absurd (ground (arith, relative, absolute)))

  pub settle_timeout-IsSettleTimeout :
      (given : ℤ) → IsSettleTimeout default_timeout given (settle_timeout given default_timeout)
  settle_timeout-IsSettleTimeout given =
      (λ above. ground (arith, above), λ below. ground (arith, below))

module _ (ticket axis : ℕ) (keyword : List ℕ) (parameter velocity : ℤ) (acc dec : ℕ) (timeout : ℤ)
    (completion : CommandCompletion) (requires_ack : Bool) where
  abbrev made : PendingCommand
  made =
      create_motion ticket axis keyword parameter velocity acc dec timeout completion requires_ack

  -- What `CreateMotion` makes.
  pub create-IsCommand :
      {A : Type 0}
      → IsInt32 parameter × IsInt32 velocity × (acc < 2 ^ 16) × (dec < 2 ^ 16)
      → (Carries made keyword parameter velocity acc dec completion requires_ack → A)
      → IsCommand made × A × IsNew ticket axis made
  create-IsCommand h asks = (
    record { parameter = h.0; velocity = h.1; acceleration = h.2; deceleration = h.3 },
    asks (record {
      keyword_is = refl;
      parameter_is = refl;
      velocity_is = refl;
      acceleration_is = refl;
      deceleration_is = refl;
      completion_is = refl;
      requires_ack_is = refl;
    }),
    record {
      ticket_is = refl;
      slave_index_is = refl;
      acked_is = refl;
      cancelled_is = refl;
      edge_detection_initialized_is = refl;
    },
  )
