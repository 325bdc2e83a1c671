-- ===== src/Service/Loop/Lives.antt =====
-- The whole life of a service, from its initialisation to its disposal.
use Prim.Native.String.{String}
use xeryon_ether_cat.Base.{
  ℤ, pos, negsuc, Option, none, some, List, refl, inl, arith, All, leb_ℤ, ◌≤ℤ◌,
}
use xeryon_ether_cat.Soem.{Platform}
use xeryon_ether_cat.Soem.Mapping.{KeepsMapping}
use xeryon_ether_cat.Shim.{St, Pointer, null, valid}
use xeryon_ether_cat.Shim.Recover.Steps.{IsTimeout}
use xeryon_ether_cat.Shim.Init.Resources.{MapsInside, Released}
use xeryon_ether_cat.Shim.Api.{System, api_of}
use xeryon_ether_cat.Service.Act.{Does, Does->>=, Does-if, done}
use xeryon_ether_cat.Service.Client.{SoemClient, soem_client}
use xeryon_ether_cat.Service.Client.Serves.{IsServing, Held}
use xeryon_ether_cat.Service.Client.Shims.{shim_client-IsServing}
use xeryon_ether_cat.Service.State.{Service, Cycle, new_service}
use xeryon_ether_cat.Service.State.Keeps.{IsReady, IsCycle, new_axes-AreAxes}
use xeryon_ether_cat.Service.Loop.{
  Options, shut_down, start_axes, start_service, initialize, run_io_loop, run_started, run_service,
}
use xeryon_ether_cat.Service.Loop.Restart.{IsRunning, shut_down-null}
use xeryon_ether_cat.Service.Loop.Keeps.{run_io_loop-IsRunning}

-- How a service ended: it could not start, or its state at the end is a ready one.
abbrev pub Ended : Options → Option Service → Type 0
Ended options none = Unit
Ended options (some s) = IsReady options.wkc_recovery_threshold s

module _ {W : Type 0} (client : SoemClient W) (Holds : Pointer → W → Type 0)
    (serves : IsServing client Holds) (options : Options)
    (timeout : IsTimeout options.recovery_timeout_milliseconds) where
  -- A service that started is ready with its handle; one that did not holds nothing.
  abbrev HasStarted : Option Service → W → Type 0
  HasStarted none w = Holds null w
  HasStarted (some s) w = IsRunning Holds options.wkc_recovery_threshold s w

  start_axes-HasStarted :
      (iface : String) (count : ℤ) (w : W)
      → pos 0 ≤ℤ count
      → Holds valid w
      → Does (start_axes client iface count) w HasStarted
  start_axes-HasStarted iface (negsuc k) w some_count held = absurd (ground (arith, some_count))
  start_axes-HasStarted iface (pos k) w some_count held =
      Does-if (leb_ℤ (pos k) (pos 0)) _ _
        (λ nothing.
          Does->>= (client.shutdown valid) (λ _. done none) w (serves.shutdown w held)
            λ _ u released. (none, u, refl, released))
        (λ several. (
          some (new_service iface (pos k) _),
          w,
          refl,
          (
            record {
              size = k;
              count = refl;
              axes = new_axes-AreAxes k;
              queue = tt;
              strikes = inl refl;
              fatal = omega arith;
            },
            held,
          ),
        ))

  start_service-HasStarted :
      (iface : String) (h : Pointer) (w : W)
      → Holds h w
      → Does (start_service client iface h) w HasStarted
  start_service-HasStarted iface null w held = (none, w, refl, held)
  start_service-HasStarted iface valid w held =
      Does->>= (client.get_slave_count valid) (start_axes client iface) w
        (serves.get_slave_count w held) λ count u q. start_axes-HasStarted iface count u q.0 q.1

  run_started-Ended :
      (cycles : List Cycle) (started : Option Service) (w : W)
      → All IsCycle cycles
      → HasStarted started w
      → Does (run_started client options cycles started) w (λ r u. Holds null u × Ended options r)
  run_started-Ended cycles none w h released = (none, w, refl, (released, tt))
  run_started-Ended cycles (some s) w h q =
      Does->>= (run_io_loop client options cycles s) _ w
        (run_io_loop-IsRunning client Holds serves options timeout cycles s w h q)
        λ ended u q1.
          Does->>= (shut_down client ended.handle) (λ _. done (some ended)) u
            (shut_down-null client Holds serves ended.handle u q1.1)
            λ _ v released. (some ended, v, refl, (released, q1.0))

  run_service-Ended :
      (iface : String) (cycles : List Cycle) (w : W)
      → All IsCycle cycles
      → Holds null w
      → Does (run_service client options iface cycles) w (λ r u. Holds null u × Ended options r)
  unfolding run_service
  run_service-Ended iface cycles w h released =
      Does->>= (initialize client iface) (run_started client options cycles) w
        (Does->>= (client.initialize iface) (start_service client iface) w
          (serves.initialize iface w released)
          λ handle u held. start_service-HasStarted iface handle u held)
        λ started u q. run_started-Ended cycles started u h q

-- Over either shim a service that starts with nothing held, and whose recovery timeout can be taken
-- to microseconds, lives through any cycles with any proper commands and cancellations without a
-- fault, an exception or a loop without end, and at its end everything is released. If it started,
-- it ends with one element of its arrays for each slave, proper commands in them, fewer strikes
-- than lead to a recovery, or none, and fewer than three fatal errors in a row.
pub run_service-Released :
    {X : Type 0} ⦃p : Platform X⦄ (options : Options) (os : System) (iface : String)
    (cycles : List Cycle) (s : St X)
    → KeepsMapping p
    → MapsInside p
    → IsTimeout options.recovery_timeout_milliseconds
    → All IsCycle cycles
    → Released s
    → Does
        (run_service (soem_client (api_of os)) options iface cycles)
        s
        (λ r t. Released t × Ended options r)
run_service-Released options os iface cycles s keeps maps timeout fine free =
    run_service-Ended (soem_client (api_of os)) Held (shim_client-IsServing keeps maps os) options
      timeout iface cycles s fine free
