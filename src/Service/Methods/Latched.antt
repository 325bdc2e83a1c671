-- ===== src/Service/Methods/Latched.antt =====
-- What the latch that `StopAsync` sets keeps from the drive.
use mathlib.Core.Path.{subst}
use xeryon_ether_cat.Base.{ℕ, suc, ℤ, pos, List, ◌≡◌, inl, inr, ◌<◌, true, arith, All, length}
use xeryon_ether_cat.Service.Command.{PendingCommand}
use xeryon_ether_cat.Service.State.{Service, Request, latch, serve, serve_all}
use xeryon_ether_cat.Service.State.Latches.{
  LeavesLatched, latch_at-set_latch_same, serve_all-latched,
}
use xeryon_ether_cat.Service.Methods.{Method, execute, call_method, latch_at}
use xeryon_ether_cat.Service.Methods.Reasons.{IsMethod, is_guarded, Explained}
use xeryon_ether_cat.Service.Methods.Explains.{call_method-Explained}

-- A guarded method passes a command on for an axis only if the axis is not latched.
Explained-free :
    (default_timeout : ℤ) (ticket : ℕ) (s : Service) (axis : ℕ) (m : Method) (c : PendingCommand)
    → is_guarded m ≡ true
    → latch_at s.axes axis ≡ true
    → ¬ Explained default_timeout true ticket s (pos (suc axis)) m (execute c)
Explained-free default_timeout ticket s axis m c guarded shut why = elim why [
  | inl (off, e) ↦ absurd (ground (arith, e))
  | inr (inl (bad, e)) ↦ absurd (ground (arith, e))
  | inr (inr (k, at, reason)) ↦
      let same : axis ≡ k = ground (arith, at) in
      let free = (reason.5 guarded).0 in
      let here = subst (λ i. latch_at s.axes i ≡ true) same shut in
      absurd (ground (arith, free, here))
]

-- Once StopAsync has latched an axis that is there, and others then ask of the service whatever
-- they like but to free that axis, with no cycle of the loop in between, MoveAbsoluteAsync,
-- JogAsync and IndexAsync pass no command on for its slave, if their numbers are ones of their
-- types.
pub call_method-latched :
    (default_timeout : ℤ) (ticket : ℕ) (s : Service) (axis : ℕ) (requests : List Request)
    (m : Method) (c : PendingCommand)
    → axis < length s.axes
    → All (LeavesLatched axis) requests
    → IsMethod m
    → is_guarded m ≡ true
    → ¬ (
        call_method default_timeout true ticket
          (serve_all requests (serve (latch axis true) s))
          (pos (suc axis))
          m
        ≡ execute c)
call_method-latched default_timeout ticket s axis requests m c inside leaves h guarded passed =
    let t = serve_all requests (serve (latch axis true) s) in
    let shut =
      serve_all-latched requests (serve (latch axis true) s) axis leaves
        (latch_at-set_latch_same s.axes axis inside) in
    Explained-free default_timeout ticket t axis m c guarded shut (
      subst (λ a. Explained default_timeout true ticket t (pos (suc axis)) m a) passed
        (call_method-Explained default_timeout true ticket t (pos (suc axis)) m h))
