-- ===== src/Service/Loop/Restart.antt =====
-- A new initialisation comes back and leaves the service with axes for its slaves.

use xeryon_ether_cat.Base.{ℕ, ℤ, pos, negsuc, ◌≡◌, refl, ◌≤ℤ◌, arith, ◌==ℤ◌}
use xeryon_ether_cat.Shim.{Pointer, null, valid}
use xeryon_ether_cat.Service.Act.{Does, Does->>=, Does-if}
use xeryon_ether_cat.Service.Client.{SoemClient}
use xeryon_ether_cat.Service.Client.Serves.{IsServing}
use xeryon_ether_cat.Service.State.{Service, clear_active, tell, fail_active}
use xeryon_ether_cat.Service.State.Keeps.{
  AreAxes, AreCommands, IsReady, clear_active-AreAxes, new_axes-AreAxes,
}
use xeryon_ether_cat.Service.Loop.{shut_down, take_count, take_handle, reinitialize}

module _ {W : Type 0} (Holds : Pointer → W → Type 0) where
  -- The service is ready, and the world holds its handle.
  abbrev pub IsRunning : ℤ → Service → W → Type 0
  IsRunning threshold s w = IsReady threshold s × Holds s.handle w

  -- Without regard to its counters.
  abbrev pub HasAxes : Service → W → Type 0
  HasAxes s w =
      (n : ℕ) × (s.slave_count ≡ pos n) × AreAxes n s.axes × AreCommands s.queue × Holds s.handle w

module _ {W : Type 0} (client : SoemClient W) (Holds : Pointer → W → Type 0)
    (serves : IsServing client Holds) where
  pub shut_down-null :
      (h : Pointer) (w : W) → Holds h w → Does (shut_down client h) w (λ _ u. Holds null u)
  shut_down-null null w held = (tt, w, refl, held)
  shut_down-null valid w held = serves.shutdown w held

  take_count-HasAxes :
      (s : Service) (count : ℤ) (w : W) (n : ℕ)
      → pos 0 ≤ℤ count
      → s.slave_count ≡ pos n
      → AreAxes n s.axes
      → AreCommands s.queue
      → Holds valid w
      → Does
          (take_count client s count)
          w
          (λ t u. HasAxes Holds t u × (t.fatal_error_count ≡ s.fatal_error_count))
  take_count-HasAxes s (negsuc k) w n some_count e axes queue held =
      absurd (ground (arith, some_count))
  take_count-HasAxes s (pos k) w n some_count e axes queue held =
      Does-if (pos k ==ℤ s.slave_count) _ _
        (λ same. (_, w, refl, ((n, e, axes, queue, held), refl)))
        (λ other. (_, w, refl, ((k, refl, new_axes-AreAxes k, queue, held), refl)))

  take_handle-HasAxes :
      (s : Service) (h : Pointer) (w : W) (n : ℕ)
      → s.slave_count ≡ pos n
      → AreAxes n s.axes
      → AreCommands s.queue
      → Holds h w
      → Does
          (take_handle client s h)
          w
          (λ t u. HasAxes Holds t u × (t.fatal_error_count ≡ s.fatal_error_count))
  take_handle-HasAxes s null w n e axes queue held = (_, w, refl, ((n, e, axes, queue, held), refl))
  take_handle-HasAxes s valid w n e axes queue held =
      Does->>= (client.get_slave_count valid) (take_count client s) w
        (serves.get_slave_count w held)
        λ count u q. take_count-HasAxes s count u n q.0 e axes queue q.1

  pub reinitialize-HasAxes :
      (s : Service) (w : W)
      → HasAxes Holds s w
      → Does
          (reinitialize client s)
          w
          (λ t u. HasAxes Holds t u × (t.fatal_error_count ≡ s.fatal_error_count))
  unfolding reinitialize
  reinitialize-HasAxes s w (n, e, axes, queue, held) =
      Does->>= (shut_down client s.handle) _ w (shut_down-null s.handle w held) λ _ u released.
        Does->>= (client.initialize s.interface) _ u (serves.initialize s.interface u released)
          λ h v got.
            take_handle-HasAxes
              (tell (fail_active s.axes) (record s { axes = clear_active s.axes })) h v n e
              (clear_active-AreAxes s.axes n axes.count) queue got
