-- ===== src/Service/State/Latches.antt =====
-- What the requests of others make of the latch of an axis.
use xeryon_ether_cat.Base.{
  ℕ, zero, suc, Option, List, [], ◌∷◌, ◌≡◌, ◌<◌, refl, ◌∙◌, arith, Bool, true, All, length,
}
use xeryon_ether_cat.Service.Command.{PendingCommand}
use xeryon_ether_cat.Service.Axis.{Axis}
use xeryon_ether_cat.Service.State.{
  Service, Request, submit, cancel, latch, serve, serve_all, set_active, set_latch,
}
use xeryon_ether_cat.Service.Methods.{latch_at}

-- The request does not free the axis of its latch.
abbrev pub LeavesLatched : ℕ → Request → Type 0
LeavesLatched axis (submit c) = Unit
LeavesLatched axis (cancel ticket k) = Unit
LeavesLatched axis (latch k on) = k ≡ axis → on ≡ true

latch_at-set_active :
    (k : ℕ) (c : Option PendingCommand) (axes : List Axis) (axis : ℕ)
    → latch_at (set_active k c axes) axis ≡ latch_at axes axis
latch_at-set_active k c [] axis = refl
latch_at-set_active zero c (a ∷ axes) zero = refl
latch_at-set_active zero c (a ∷ axes) (suc axis) = refl
latch_at-set_active (suc k) c (a ∷ axes) zero = refl
latch_at-set_active (suc k) c (a ∷ axes) (suc axis) = latch_at-set_active k c axes axis

latch_at-set_latch :
    (k : ℕ) (on : Bool) (axes : List Axis) (axis : ℕ)
    → (k ≡ axis → on ≡ true)
    → latch_at axes axis ≡ true
    → latch_at (set_latch k on axes) axis ≡ true
latch_at-set_latch k on [] axis leaves h = h
latch_at-set_latch zero on (a ∷ axes) zero leaves h = leaves refl
latch_at-set_latch zero on (a ∷ axes) (suc axis) leaves h = h
latch_at-set_latch (suc k) on (a ∷ axes) zero leaves h = h
latch_at-set_latch (suc k) on (a ∷ axes) (suc axis) leaves h =
    latch_at-set_latch k on axes axis (λ e. leaves (ground (arith, e))) h

-- An axis that is there is latched by its own latch.
pub latch_at-set_latch_same :
    (axes : List Axis) (axis : ℕ)
    → axis < length axes
    → latch_at (set_latch axis true axes) axis ≡ true
latch_at-set_latch_same [] axis h = absurd (omega (arith, h))
latch_at-set_latch_same (a ∷ axes) zero h = refl
latch_at-set_latch_same (a ∷ axes) (suc axis) h =
    latch_at-set_latch_same axes axis (omega (arith, h))

serve-latched :
    (r : Request) (s : Service) (axis : ℕ)
    → LeavesLatched axis r
    → latch_at s.axes axis ≡ true
    → latch_at (serve r s).axes axis ≡ true
serve-latched (submit c) s axis leaves h = h
serve-latched (cancel ticket k) s axis leaves h = latch_at-set_active k _ s.axes axis ∙ h
serve-latched (latch k on) s axis leaves h = latch_at-set_latch k on s.axes axis leaves h

-- A latched axis stays latched.
pub serve_all-latched :
    (requests : List Request) (s : Service) (axis : ℕ)
    → All (LeavesLatched axis) requests
    → latch_at s.axes axis ≡ true
    → latch_at (serve_all requests s).axes axis ≡ true
unfolding serve_all
serve_all-latched [] s axis leaves h = h
serve_all-latched (r ∷ requests) s axis leaves h =
    serve_all-latched requests (serve r s) axis leaves.1 (serve-latched r s axis leaves.0 h)
