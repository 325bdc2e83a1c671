-- ===== src/Service/Methods/Explains.antt =====
-- What a method does has its reason.
use mathlib.Core.Path.{subst}
use xeryon_ether_cat.Base.{
  ap, sym, ℕ, suc, ℤ, pos, Option, none, some, ◌≡◌, refl, inl, inr, Bool, true, false, arith,
  if◌then◌else◌, zero, negsuc, Bool-cases,
}
use xeryon_ether_cat.Service.Errors.{is_set}
use xeryon_ether_cat.Service.State.{Service}
use xeryon_ether_cat.Service.Methods.{
  Method, move_absolute, jog, index, reset, enable, halt_drive, stop, send_raw_command,
  bad_argument, refused, status_of, get_axis_index, is_bad, command_axis, command_slave,
  call_method, or_zero,
}
use xeryon_ether_cat.Service.Methods.Reasons.{IsMethod, Reason, Explained}
use xeryon_ether_cat.Service.Methods.Ready.{
  unset, if-Reason, ensure_axis_ready-Reason, control-Reason, settle_timeout-IsSettleTimeout,
  create-IsCommand,
}

or_zero_lem :
    (timeout : Option ℤ)
    → ((given : ℤ) → (timeout ≡ some given) → or_zero timeout ≡ given)
      × ((timeout ≡ none) → or_zero timeout ≡ pos 0)
or_zero_lem none = (λ given e. ground (arith, e), λ e. refl)
or_zero_lem (some timeout) = (λ given e. ground (arith, e), λ e. ground (arith, e))

command_axis-Reason :
    (default_timeout : ℤ) (ticket : ℕ) (s : Service) (axis : ℕ) (m : Method)
    → IsMethod m
    → Reason default_timeout ticket s axis m (command_axis default_timeout ticket s axis m)
unfolding command_axis
command_axis-Reason default_timeout ticket s axis (move_absolute target velocity acc dec timeout)
      h =
    ensure_axis_ready-Reason default_timeout ticket s axis
      (move_absolute target velocity acc dec timeout) _ refl
      (create-IsCommand ticket axis _ target velocity acc dec _ _ _ h (λ carries.
        (carries, settle_timeout-IsSettleTimeout default_timeout ticket s axis timeout)))
      (λ there. there)
command_axis-Reason default_timeout ticket s axis (jog direction velocity acc dec) h =
    ensure_axis_ready-Reason default_timeout ticket s axis (jog direction velocity acc dec) _ refl
      (create-IsCommand ticket axis _ direction velocity acc dec _ _ _ h
        (λ carries. (carries, refl)))
      (λ there. there)
command_axis-Reason default_timeout ticket s axis (index direction velocity acc dec timeout) h =
    if-Reason default_timeout ticket s axis (index direction velocity acc dec timeout)
      (is_set (status_of s axis).encoder_valid) _ _ (λ known. known)
      λ unknown.
        ensure_axis_ready-Reason default_timeout ticket s axis
          (index direction velocity acc dec timeout) _ refl
          (create-IsCommand ticket axis _ direction velocity acc dec _ _ _ h (λ carries.
            (carries, settle_timeout-IsSettleTimeout default_timeout ticket s axis timeout)))
          (unset _ unknown)
command_axis-Reason default_timeout ticket s axis reset h =
    control-Reason default_timeout ticket s axis reset _ refl refl
      (create-IsCommand ticket axis _ (pos 0) (pos 0) 0 0 _ _ _ (ground arith)
        (λ carries. (carries, refl)))
      (λ there. there)
command_axis-Reason default_timeout ticket s axis (enable true) h =
    if-Reason default_timeout ticket s axis (enable true)
      (is_set (status_of s axis).amplifiers_enabled) _ _ (λ there. there)
      λ off.
        control-Reason default_timeout ticket s axis (enable true) _ refl refl
          (create-IsCommand ticket axis _ (pos 1) (pos 0) 0 0 _ _ _ (ground arith)
            (λ carries. (carries, refl)))
          (unset _ off)
command_axis-Reason default_timeout ticket s axis (enable false) h =
    if-Reason default_timeout ticket s axis (enable false)
      (is_set (status_of s axis).amplifiers_enabled) _ _
      (λ on.
        control-Reason default_timeout ticket s axis (enable false) _ refl refl
          (create-IsCommand ticket axis _ (pos 0) (pos 0) 0 0 _ _ _ (ground arith)
            (λ carries. (carries, refl)))
          (λ off. unset _ off on))
      λ off. off
command_axis-Reason default_timeout ticket s axis halt_drive h =
    control-Reason default_timeout ticket s axis halt_drive _ refl refl
      (create-IsCommand ticket axis _ (pos 0) (pos 0) 0 0 _ _ _ (ground arith)
        (λ carries. (carries, refl)))
      (λ there. there)
command_axis-Reason default_timeout ticket s axis stop h =
    control-Reason default_timeout ticket s axis stop _ refl refl
      (create-IsCommand ticket axis _ (pos 0) (pos 0) 0 0 _ _ _ (ground arith)
        (λ carries. (carries, refl)))
      (λ there. there)
command_axis-Reason default_timeout ticket s axis
      (send_raw_command keyword parameter velocity acc dec requires_ack timeout) h =
    control-Reason default_timeout ticket s axis
      (send_raw_command keyword parameter velocity acc dec requires_ack timeout) _ refl refl
      (create-IsCommand ticket axis _ parameter velocity acc dec _ _ _ h
        (λ carries. (carries, (or_zero_lem timeout).0, (or_zero_lem timeout).1)))
      (λ there. there)

command_slave-Explained :
    (default_timeout : ℤ) (ticket : ℕ) (s : Service) (slave : ℤ) (m : Method)
    → IsMethod m
    → Explained default_timeout true ticket s slave m
        (command_slave default_timeout ticket s (get_axis_index slave) m)
command_slave-Explained default_timeout ticket s (pos zero) m h =
    inr (inl (inr (omega arith), refl))
command_slave-Explained default_timeout ticket s (negsuc n) m h =
    inr (inl (inr (omega arith), refl))
command_slave-Explained default_timeout ticket s (pos (suc axis)) m h =
    inr (inr (axis, refl, command_axis-Reason default_timeout ticket s axis m h))

pub call_method-Explained :
    (default_timeout : ℤ) (initialized : Bool) (ticket : ℕ) (s : Service) (slave : ℤ) (m : Method)
    → IsMethod m
    → Explained default_timeout initialized ticket s slave m
        (call_method default_timeout initialized ticket s slave m)
unfolding call_method
call_method-Explained default_timeout false ticket s slave m h = inl (refl, refl)
call_method-Explained default_timeout true ticket s slave m h = elim (Bool-cases (is_bad m)) [
  | inl bad ↦
      let e =
        ap
          (λ b.
            if b
            then refused bad_argument
            else command_slave default_timeout ticket s (get_axis_index slave) m)
          bad in
      inr (inl (inl bad, e))
  | inr fine ↦
      let e =
        ap
          (λ b.
            if b
            then refused bad_argument
            else command_slave default_timeout ticket s (get_axis_index slave) m)
          fine in
      subst (λ a. Explained default_timeout true ticket s slave m a) (sym e)
        (command_slave-Explained default_timeout ticket s slave m h)
]
