-- ===== src/Service/Loop/Results.antt =====
-- What the loop does with a cycle's result comes back and leaves the service ready.

use xeryon_ether_cat.Base.{
  ℕ, suc, ℤ, pos, refl, inl, inr, ◌<◌, arith, if◌then◌else◌, leb_ℤ, ltb_ℤ, leb, ◌||◌,
}
use xeryon_ether_cat.Shim.{Pointer}
use xeryon_ether_cat.Shim.Info.{Health}
use xeryon_ether_cat.Shim.Recover.Steps.{IsTimeout}
use xeryon_ether_cat.Service.Act.{Does, Does->>=, Does-if, done}
use xeryon_ether_cat.Service.Client.{SoemClient}
use xeryon_ether_cat.Service.Client.Serves.{IsServing}
use xeryon_ether_cat.Service.Errors.{is_fatal_error, is_recoverable_error}
use xeryon_ether_cat.Service.Axis.{Moment}
use xeryon_ether_cat.Service.State.{Service, tell}
use xeryon_ether_cat.Service.Loop.{
  Options, reinitialize, take_recovery, handle_faulty_cycle, process_axes, process_statuses,
  handle_fatal, handle_result,
}
use xeryon_ether_cat.Service.Loop.Axes.{process_axes-AreAxes}
use xeryon_ether_cat.Service.Loop.Restart.{IsRunning, HasAxes, reinitialize-HasAxes}

module _ {W : Type 0} (client : SoemClient W) (Holds : Pointer → W → Type 0)
    (serves : IsServing client Holds) (options : Options)
    (timeout : IsTimeout options.recovery_timeout_milliseconds) where
  -- With its counters reset, the service is ready again.
  reset-IsRunning :
      (s : Service) (w : W)
      → HasAxes Holds s w
      → s.fatal_error_count < 3
      → IsRunning Holds options.wkc_recovery_threshold (record s { wkc_strikes = 0 }) w
  reset-IsRunning s w (n, e, axes, queue, held) few = (
    record { size = n; count = e; axes = axes; queue = queue; strikes = inl refl; fatal = few },
    held,
  )

  IsRunning-HasAxes :
      (s : Service) (w : W) → IsRunning Holds options.wkc_recovery_threshold s w → HasAxes Holds s w
  IsRunning-HasAxes s w q = (q.0.size, q.0.count, q.0.axes, q.0.queue, q.1)

  take_recovery-IsRunning :
      (s : Service) (rc : ℤ) (w : W)
      → HasAxes Holds s w
      → s.fatal_error_count < 3
      → Does (take_recovery client options s rc) w (IsRunning Holds options.wkc_recovery_threshold)
  take_recovery-IsRunning s rc w has few =
      Does-if (ltb_ℤ (pos 0) rc) _ _ (λ recovered. (_, w, refl, reset-IsRunning s w has few))
        (λ lost.
          Does->>= (reinitialize client s) (λ again. done (record again { wkc_strikes = 0 })) w
            (reinitialize-HasAxes client Holds serves s w has)
            λ again u q.
              (record again { wkc_strikes = 0 }, u, refl, reset-IsRunning again u q.0 (rw q.1 few)))

  handle_faulty_cycle-IsRunning :
      (s : Service) (w : W)
      → IsRunning Holds options.wkc_recovery_threshold s w
      → Does
          (handle_faulty_cycle client options s)
          w
          (IsRunning Holds options.wkc_recovery_threshold)
  unfolding handle_faulty_cycle
  handle_faulty_cycle-IsRunning s w q =
      let struck = record s { wkc_strikes = suc s.wkc_strikes } in
      let has : HasAxes Holds struck w = IsRunning-HasAxes s w q in
      Does-if (leb_ℤ options.wkc_recovery_threshold (pos (suc s.wkc_strikes))) _ _
        (λ enough.
          Does->>= (client.try_recover s.handle options.recovery_timeout_milliseconds)
            (take_recovery client options struck) w
            (serves.try_recover s.handle options.recovery_timeout_milliseconds w timeout q.1)
            λ rc u held.
              take_recovery-IsRunning struck rc u (has.0, has.1, has.2, has.3, held) q.0.fatal)
        (λ few. (
          struck,
          w,
          refl,
          (
            record {
              size = q.0.size;
              count = q.0.count;
              axes = q.0.axes;
              queue = q.0.queue;
              strikes = inr (ground (arith, few));
              fatal = q.0.fatal;
            },
            q.1,
          ),
        ))

  process_statuses-IsRunning :
      (m : Moment) (health : Health) (s : Service) (w : W)
      → IsRunning Holds options.wkc_recovery_threshold s w
      → Does
          (process_statuses client options m health s)
          w
          (IsRunning Holds options.wkc_recovery_threshold)
  process_statuses-IsRunning m health s w q =
      Does->>=
        (if ltb_ℤ health.last_wkc health.group_expected_wkc
          then handle_faulty_cycle client options s
          else done (record s { wkc_strikes = 0 }))
        _ w
        (Does-if (ltb_ℤ health.last_wkc health.group_expected_wkc) _ _
          (λ low. handle_faulty_cycle-IsRunning s w q)
          (λ fine. (_, w, refl, reset-IsRunning s w (IsRunning-HasAxes s w q) q.0.fatal)))
        λ checked u q1.
          Does->>= (process_axes client m checked.handle health 0 checked.axes)
            (λ r. done (tell r.1 (record checked { axes = r.0 }))) u
            (process_axes-AreAxes client Holds serves m checked.handle health 0 checked.axes
              q1.0.size u q1.0.axes q1.1)
            λ r v q2. (
              tell r.1 (record checked { axes = r.0 }),
              v,
              refl,
              (
                record {
                  size = q1.0.size;
                  count = q1.0.count;
                  axes = q2.0;
                  queue = q1.0.queue;
                  strikes = q1.0.strikes;
                  fatal = q1.0.fatal;
                },
                q2.1,
              ),
            )

  -- Another number of fatal errors.
  recount-IsRunning :
      (s : Service) (w : W) (n : ℕ)
      → n < 3
      → IsRunning Holds options.wkc_recovery_threshold s w
      → IsRunning Holds options.wkc_recovery_threshold (record s { fatal_error_count = n }) w
  recount-IsRunning s w n few q = (
    record {
      size = q.0.size;
      count = q.0.count;
      axes = q.0.axes;
      queue = q.0.queue;
      strikes = q.0.strikes;
      fatal = few;
    },
    q.1,
  )

  handle_fatal-IsRunning :
      (s : Service) (w : W)
      → IsRunning Holds options.wkc_recovery_threshold s w
      → Does (handle_fatal client options s) w (IsRunning Holds options.wkc_recovery_threshold)
  handle_fatal-IsRunning s w q =
      let counted = record s { fatal_error_count = suc s.fatal_error_count } in
      Does-if (leb 3 (suc s.fatal_error_count)) _ _
        (λ many.
          Does->>= (reinitialize client counted)
            (λ again. done (record again { fatal_error_count = 0; wkc_strikes = 0 })) w
            (reinitialize-HasAxes client Holds serves counted w (IsRunning-HasAxes s w q))
            λ again u r. (
              record again { fatal_error_count = 0; wkc_strikes = 0 },
              u,
              refl,
              reset-IsRunning (record again { fatal_error_count = 0 }) u r.0 (omega arith),
            ))
        (λ few.
          handle_faulty_cycle-IsRunning counted w
            (recount-IsRunning s w (suc s.fatal_error_count) (ground (arith, few)) q))

  pub handle_result-IsRunning :
      (m : Moment) (health : Health) (wkc : ℤ) (s : Service) (w : W)
      → IsRunning Holds options.wkc_recovery_threshold s w
      → Does
          (handle_result client options m health wkc s)
          w
          (IsRunning Holds options.wkc_recovery_threshold)
  handle_result-IsRunning m health wkc s w q =
      Does-if (leb_ℤ (pos 0) wkc || is_recoverable_error wkc) _ _
        (λ fine.
          process_statuses-IsRunning m health (record s { fatal_error_count = 0 }) w
            (recount-IsRunning s w 0 (omega arith) q))
        (λ bad.
          Does-if (is_fatal_error wkc) _ _ (λ fatal. handle_fatal-IsRunning s w q)
            (λ unknown. handle_faulty_cycle-IsRunning s w q))
