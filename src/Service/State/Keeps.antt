-- ===== src/Service/State/Keeps.antt =====
-- The service's arrays, one for each slave, and the commands in them, before and after the parts of
-- the loop that do not call the shim.
use xeryon_ether_cat.Base.{
  ℕ, Bool, zero, suc, ℤ, pos, Option, none, some, List, [], ◌∷◌, ◌++◌, ◌≡◌, refl, ◌∙◌, ap, ◌⊎◌, ◌<◌,
  ◌<ℤ◌, length, replicate, All, ◌==◌,
}
use xeryon_ether_cat.Service.Command.{PendingCommand, start}
use xeryon_ether_cat.Service.Axis.{Axis, Event, new_axis}
use xeryon_ether_cat.Service.Axis.Keeps.{IsCommand, Proper, if-holds, SameNumbers-IsCommand}
use xeryon_ether_cat.Service.State.{
  Cycle, Service, Request, submit, cancel, latch, set_latch, axis_at, set_active, mark_cancelled,
  serve, serve_all, admit_at, activate, admit, admit_all, slot, process_incoming_commands,
  clear_active,
}

-- `n` axes with proper commands.
pub record AreAxes (n : ℕ) (axes : List Axis) : Type 0 where
  pub count : length axes ≡ n
  pub proper : All (λ a. Proper a.active) axes

abbrev pub AreCommands : List PendingCommand → Type 0
AreCommands queue = All IsCommand queue

abbrev pub IsRequest : Request → Type 0
IsRequest (submit c) = IsCommand c
IsRequest (cancel ticket axis) = Unit
IsRequest (latch axis on) = Unit

pub AreAxes-cons :
    (n : ℕ) (a : Axis) (axes : List Axis)
    → Proper a.active
    → AreAxes n axes
    → AreAxes (suc n) (a ∷ axes)
AreAxes-cons n a axes h r = record { count = ap suc r.count; proper = (h, r.proper) }

pub set_active-AreAxes :
    (i : ℕ) (o : Option PendingCommand) (axes : List Axis) (n : ℕ)
    → Proper o
    → AreAxes n axes
    → AreAxes n (set_active i o axes)
set_active-AreAxes i o [] n h r = r
set_active-AreAxes zero o (a ∷ axes) n h r = record { count = r.count; proper = (h, r.proper.1) }
set_active-AreAxes (suc i) o (a ∷ axes) n h r =
    let rest =
      set_active-AreAxes i o axes (length axes) h (record { count = refl; proper = r.proper.1 }) in
    record { count = ap suc rest.count ∙ r.count; proper = (r.proper.0, rest.proper) }

set_latch-AreAxes :
    (i : ℕ) (on : Bool) (axes : List Axis) (n : ℕ)
    → AreAxes n axes
    → AreAxes n (set_latch i on axes)
set_latch-AreAxes i on [] n r = r
set_latch-AreAxes zero on (a ∷ axes) n r = record { count = r.count; proper = r.proper }
set_latch-AreAxes (suc i) on (a ∷ axes) n r =
    let rest =
      set_latch-AreAxes i on axes (length axes) (record { count = refl; proper = r.proper.1 }) in
    record { count = ap suc rest.count ∙ r.count; proper = (r.proper.0, rest.proper) }

mark_cancelled-AreCommands :
    (ticket : ℕ) (queue : List PendingCommand)
    → AreCommands queue
    → AreCommands (mark_cancelled ticket queue)
mark_cancelled-AreCommands ticket [] h = tt
mark_cancelled-AreCommands ticket (c ∷ queue) h = (
  if-holds IsCommand (c.ticket == ticket) (SameNumbers-IsCommand c _ (refl, refl, refl, refl) h.0)
      h.0,
  mark_cancelled-AreCommands ticket queue h.1,
)

append-AreCommands :
    (xs ys : List PendingCommand) → AreCommands xs → AreCommands ys → AreCommands (xs ++ ys)
append-AreCommands [] ys h k = k
append-AreCommands (x ∷ xs) ys h k = (h.0, append-AreCommands xs ys h.1 k)

activate-AreAxes :
    (now : ℕ) (c : PendingCommand) (axes : List Axis) (o : Option PendingCommand) (n : ℕ)
    → IsCommand c
    → AreAxes n axes
    → AreAxes n (activate now c axes o).0
activate-AreAxes now c axes (some busy) n h r = r
activate-AreAxes now c axes none n h r =
    set_active-AreAxes (slot c.slave_index) (some (start now c)) axes n
      (SameNumbers-IsCommand c _ (refl, refl, refl, refl) h) r

admit_at-AreAxes :
    (now : ℕ) (c : PendingCommand) (axes : List Axis) (o : Option Axis) (n : ℕ)
    → IsCommand c
    → AreAxes n axes
    → AreAxes n (admit_at now c axes o).0
admit_at-AreAxes now c axes none n h r = r
admit_at-AreAxes now c axes (some a) n h r = activate-AreAxes now c axes a.active n h r

admit-AreAxes :
    (now : ℕ) (c : PendingCommand) (axes : List Axis) (n : ℕ)
    → IsCommand c
    → AreAxes n axes
    → AreAxes n (admit now c axes).0
unfolding admit
admit-AreAxes now c axes n h r = admit_at-AreAxes now c axes (axis_at axes c.slave_index) n h r

pub admit_all-AreAxes :
    (now : ℕ) (queue : List PendingCommand) (axes : List Axis) (n : ℕ)
    → AreCommands queue
    → AreAxes n axes
    → AreAxes n (admit_all now queue axes).0
unfolding admit_all
admit_all-AreAxes now [] axes n h r = r
admit_all-AreAxes now (c ∷ queue) axes n h r = admit_all-AreAxes now queue _ n h.1 (
    if-holds (λ (q : List Axis × List Event). AreAxes n q.0) c.cancelled r
      (admit-AreAxes now c axes n h.0 r))

pub clear_active-AreAxes :
    (axes : List Axis) (n : ℕ) → length axes ≡ n → AreAxes n (clear_active axes)
unfolding clear_active
clear_active-AreAxes [] n e = record { count = e; proper = tt }
clear_active-AreAxes (a ∷ axes) n e =
    let rest = clear_active-AreAxes axes (length axes) refl in
    record { count = ap suc rest.count ∙ e; proper = (tt, rest.proper) }

pub new_axes-AreAxes : (n : ℕ) → AreAxes n (replicate n new_axis)
new_axes-AreAxes zero = record { count = refl; proper = tt }
new_axes-AreAxes (suc n) = AreAxes-cons n new_axis _ tt (new_axes-AreAxes n)

-- The service between two calls of the shim: one element of its arrays for each slave, proper
-- commands, fewer strikes than lead to a recovery, and fewer fatal errors in a row than three.
pub record IsReady (threshold : ℤ) (s : Service) : Type 0 where
  pub size : ℕ
  pub count : s.slave_count ≡ pos size
  pub axes : AreAxes size s.axes
  pub queue : AreCommands s.queue
  pub strikes : (s.wkc_strikes ≡ 0) ⊎ (pos s.wkc_strikes <ℤ threshold)
  pub fatal : s.fatal_error_count < 3

serve-IsReady :
    (threshold : ℤ) (r : Request) (s : Service)
    → IsRequest r
    → IsReady threshold s
    → IsReady threshold (serve r s)
serve-IsReady threshold (submit c) s h q = record {
  size = q.size;
  count = q.count;
  axes = q.axes;
  queue = append-AreCommands s.queue (c ∷ []) q.queue (h, tt);
  strikes = q.strikes;
  fatal = q.fatal;
}
serve-IsReady threshold (cancel ticket axis) s h q = record {
  size = q.size;
  count = q.count;
  axes = set_active-AreAxes axis none s.axes q.size tt q.axes;
  queue = mark_cancelled-AreCommands ticket s.queue q.queue;
  strikes = q.strikes;
  fatal = q.fatal;
}
serve-IsReady threshold (latch axis on) s h q = record {
  size = q.size;
  count = q.count;
  axes = set_latch-AreAxes axis on s.axes q.size q.axes;
  queue = q.queue;
  strikes = q.strikes;
  fatal = q.fatal;
}

pub serve_all-IsReady :
    (threshold : ℤ) (requests : List Request) (s : Service)
    → All IsRequest requests
    → IsReady threshold s
    → IsReady threshold (serve_all requests s)
unfolding serve_all
serve_all-IsReady threshold [] s h q = q
serve_all-IsReady threshold (r ∷ requests) s h q =
    serve_all-IsReady threshold requests (serve r s) h.1 (serve-IsReady threshold r s h.0 q)

serve-handle : (r : Request) (s : Service) → (serve r s).handle ≡ s.handle
serve-handle (submit c) s = refl
serve-handle (cancel ticket axis) s = refl
serve-handle (latch axis on) s = refl

pub serve_all-handle :
    (requests : List Request) (s : Service) → (serve_all requests s).handle ≡ s.handle
unfolding serve_all
serve_all-handle [] s = refl
serve_all-handle (r ∷ requests) s = serve_all-handle requests (serve r s) ∙ serve-handle r s

pub process_incoming_commands-IsReady :
    (threshold : ℤ) (now : ℕ) (s : Service)
    → IsReady threshold s
    → IsReady threshold (process_incoming_commands now s)
process_incoming_commands-IsReady threshold now s q = record {
  size = q.size;
  count = q.count;
  axes = admit_all-AreAxes now s.queue s.axes q.size q.queue q.axes;
  queue = tt;
  strikes = q.strikes;
  fatal = q.fatal;
}

-- What others ask for in a cycle is for commands that callers can give.
pub record IsCycle (c : Cycle) : Type 0 where
  pub first : All IsRequest c.first
  pub second : All IsRequest c.second
  pub third : All IsRequest c.third
