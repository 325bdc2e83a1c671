-- ===== src/Service/Loop/Keeps.antt =====
-- A cycle of the loop comes back and leaves the service ready for the next one.
use mathlib.Core.Path.{subst}
use xeryon_ether_cat.Base.{pos, List, [], ◌∷◌, refl, sym, All, ◌==ℤ◌, if◌then◌else◌}
use xeryon_ether_cat.Shim.{Pointer}
use xeryon_ether_cat.Shim.Info.{Health}
use xeryon_ether_cat.Shim.Recover.Steps.{IsTimeout}
use xeryon_ether_cat.Service.Act.{Does, Does->>=, Does-map, done, ◌>>=◌}
use xeryon_ether_cat.Service.Client.{SoemClient}
use xeryon_ether_cat.Service.Client.Serves.{IsServing}
use xeryon_ether_cat.Service.Axis.{Axis}
use xeryon_ether_cat.Service.State.{
  Cycle, Service, Request, serve_all, process_incoming_commands, drive_states_of, zero_health,
}
use xeryon_ether_cat.Service.State.Keeps.{
  AreAxes, IsCycle, IsReady, IsRequest, serve_all-IsReady, serve_all-handle,
  process_incoming_commands-IsReady,
}
use xeryon_ether_cat.Service.Loop.{
  Options, stage_outputs, read_health, handle_result, run_io_cycle, run_io_loop,
}
use xeryon_ether_cat.Service.Loop.Axes.{stage_outputs-AreAxes}
use xeryon_ether_cat.Service.Loop.Restart.{IsRunning}
use xeryon_ether_cat.Service.Loop.Results.{handle_result-IsRunning}

module _ {W : Type 0} (client : SoemClient W) (Holds : Pointer → W → Type 0)
    (serves : IsServing client Holds) (options : Options)
    (timeout : IsTimeout options.recovery_timeout_milliseconds) where
  -- The service while others ask for something.
  serve_all-IsRunning :
      (requests : List Request) (s : Service) (w : W)
      → All IsRequest requests
      → IsRunning Holds options.wkc_recovery_threshold s w
      → IsRunning Holds options.wkc_recovery_threshold (serve_all requests s) w
  serve_all-IsRunning requests s w h q = (
    serve_all-IsReady options.wkc_recovery_threshold requests s h q.0,
    subst (λ handle. Holds handle w) (sym (serve_all-handle requests s)) q.1,
  )

  -- What a cycle stages.
  prepare-IsRunning :
      (c : Cycle) (s : Service) (w : W)
      → IsCycle c
      → IsRunning Holds options.wkc_recovery_threshold s w
      → IsRunning Holds options.wkc_recovery_threshold
          (serve_all c.second (process_incoming_commands c.moment.now (serve_all c.first s)))
          w
  prepare-IsRunning c s w h q =
      let first = serve_all-IsRunning c.first s w h.first q in
      serve_all-IsRunning c.second (process_incoming_commands c.moment.now (serve_all c.first s)) w
        h.second
        (
          process_incoming_commands-IsReady options.wkc_recovery_threshold c.moment.now
              (serve_all c.first s) first.0,
          first.1,
        )

  with_axes-IsRunning :
      (s : Service) (axes : List Axis) (w : W) (r : IsReady options.wkc_recovery_threshold s)
      → AreAxes r.size axes
      → Holds s.handle w
      → IsRunning Holds options.wkc_recovery_threshold (record s { axes = axes }) w
  with_axes-IsRunning s axes w r fine held = (
    record {
      size = r.size;
      count = r.count;
      axes = fine;
      queue = r.queue;
      strikes = r.strikes;
      fatal = r.fatal;
    },
    held,
  )

  -- The end of a cycle.
  finish-IsRunning :
      (health : Health) (s : Service) (w : W)
      → IsRunning Holds options.wkc_recovery_threshold s w
      → Does
          (do
            errors ← client.drain_error_list s.handle
            done (record s {
              snapshot = record { health = health; drive_states = drive_states_of s.axes };
            }))
          w
          (IsRunning Holds options.wkc_recovery_threshold)
  finish-IsRunning health s w q =
      Does->>= (client.drain_error_list s.handle) _ w (serves.drain_error_list s.handle w q.1)
        λ errors u held. (
          record s { snapshot = record { health = health; drive_states = drive_states_of s.axes } },
          u,
          refl,
          (
            record {
              size = q.0.size;
              count = q.0.count;
              axes = q.0.axes;
              queue = q.0.queue;
              strikes = q.0.strikes;
              fatal = q.0.fatal;
            },
            held,
          ),
        )

  -- A cycle of a service that is ready comes back, and the service is ready again.
  pub run_io_cycle-IsRunning :
      (c : Cycle) (s : Service) (w : W)
      → IsCycle c
      → IsRunning Holds options.wkc_recovery_threshold s w
      → Does (run_io_cycle client options c s) w (IsRunning Holds options.wkc_recovery_threshold)
  unfolding run_io_cycle
  run_io_cycle-IsRunning c s w h q =
      let asked =
        serve_all c.second (process_incoming_commands c.moment.now (serve_all c.first s)) in
      let ready = prepare-IsRunning c s w h q in
      Does->>= (stage_outputs client asked.handle 0 asked.axes) _ w
        (stage_outputs-AreAxes client Holds serves asked.handle 0 asked.axes ready.0.size w
          ready.0.axes ready.1)
        λ axes u1 q1.
          let staged = record asked { axes = axes } in
          Does->>=
            (client.exchange_process_data staged.handle options.exchange_timeout_microseconds) _ u1
            (serves.exchange_process_data staged.handle options.exchange_timeout_microseconds u1
              q1.1)
            λ wkc u2 held2.
              Does->>= (read_health client staged.handle) _ u2
                (Does-map (client.get_health staged.handle zero_health)
                  (λ r. if r.0 ==ℤ pos 0 then zero_health else r.1) u2
                  (serves.get_health staged.handle zero_health u2 held2))
                λ health u3 held3.
                  Does->>=
                    (handle_result client options c.moment health wkc (serve_all c.third staged)) _
                    u3
                    (handle_result-IsRunning client Holds serves options timeout c.moment health wkc
                      (serve_all c.third staged) u3
                      (serve_all-IsRunning c.third staged u3 h.third
                        (with_axes-IsRunning asked axes u3 ready.0 q1.0 held3)))
                    λ handled u4 q4. finish-IsRunning health handled u4 q4

  -- The loop comes back after any number of cycles, with the service ready.
  pub run_io_loop-IsRunning :
      (cycles : List Cycle) (s : Service) (w : W)
      → All IsCycle cycles
      → IsRunning Holds options.wkc_recovery_threshold s w
      → Does
          (run_io_loop client options cycles s)
          w
          (IsRunning Holds options.wkc_recovery_threshold)
  unfolding run_io_loop
  run_io_loop-IsRunning [] s w h q = (s, w, refl, q)
  run_io_loop-IsRunning (c ∷ cycles) s w h q =
      Does->>= (run_io_cycle client options c s) (run_io_loop client options cycles) w
        (run_io_cycle-IsRunning c s w h.0 q) λ next u q1. run_io_loop-IsRunning cycles next u h.1 q1
