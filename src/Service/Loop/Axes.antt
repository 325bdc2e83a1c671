-- ===== src/Service/Loop/Axes.antt =====
-- The loops over the axes come back and leave the axes as many, with proper commands.

use xeryon_ether_cat.Base.{
  ℕ, suc, pos, List, [], ◌∷◌, ◌++◌, refl, ◌∙◌, ap, false, Bool, length, if◌then◌else◌, ltb_ℤ,
}
use xeryon_ether_cat.Shim.{Pointer}
use xeryon_ether_cat.Shim.Info.{Health}
use xeryon_ether_cat.Service.Act.{Does, Does->>=, Does-if, done}
use xeryon_ether_cat.Service.Client.{SoemClient}
use xeryon_ether_cat.Service.Client.Serves.{IsServing}
use xeryon_ether_cat.Service.Axis.{Axis, Event, Moment, stage_axis, process_axis}
use xeryon_ether_cat.Service.Axis.Keeps.{Proper, if-holds, stage_axis-IsRxPdo, process_axis-Proper}
use xeryon_ether_cat.Service.State.Keeps.{AreAxes}
use xeryon_ether_cat.Service.Loop.{stage_outputs, process_axes}

module _ {W : Type 0} (client : SoemClient W) (Holds : Pointer → W → Type 0)
    (serves : IsServing client Holds) where
  pub stage_outputs-AreAxes :
      (h : Pointer) (i : ℕ) (axes : List Axis) (n : ℕ) (w : W)
      → AreAxes n axes
      → Holds h w
      → Does (stage_outputs client h i axes) w (λ r u. AreAxes n r × Holds h u)
  unfolding stage_outputs
  stage_outputs-AreAxes h i [] n w r held = ([], w, refl, (r, held))
  stage_outputs-AreAxes h i (a ∷ axes) n w r held =
      let staged = stage_axis-IsRxPdo a r.proper.0 in
      Does->>= (client.write_rx_pdo h (pos (suc i)) (stage_axis a).rx) _ w
        (serves.write_rx_pdo h (pos (suc i)) (stage_axis a).rx w staged.0 held)
        λ rc u held1.
          Does->>= (stage_outputs client h (suc i) axes) (λ rest. done (stage_axis a ∷ rest)) u
            (stage_outputs-AreAxes h (suc i) axes (length axes) u
              (record { count = refl; proper = r.proper.1 }) held1)
            λ rest v q. (
              stage_axis a ∷ rest,
              v,
              refl,
              (record { count = ap suc q.0.count ∙ r.count; proper = (staged.1, q.0.proper) }, q.1),
            )

  -- The loop goes on behind an axis, or it ends there.
  go_on-AreAxes :
      (b : Bool) (m : Moment) (h : Pointer) (health : Health) (i : ℕ) (axes : List Axis) (n : ℕ)
      (w : W)
      → AreAxes n axes
      → Holds h w
      → Does (process_axes client m h health i axes) w (λ r u. AreAxes n r.0 × Holds h u)
      → Does
          (if b then done (axes, []) else process_axes client m h health i axes)
          w
          (λ r u. AreAxes n r.0 × Holds h u)
  go_on-AreAxes b m h health i axes n w r held rest =
      Does-if b _ _ (λ ended. ((axes, []), w, refl, (r, held))) (λ goes_on. rest)

  pub process_axes-AreAxes :
      (m : Moment) (h : Pointer) (health : Health) (i : ℕ) (axes : List Axis) (n : ℕ) (w : W)
      → AreAxes n axes
      → Holds h w
      → Does (process_axes client m h health i axes) w (λ r u. AreAxes n r.0 × Holds h u)
  unfolding process_axes
  process_axes-AreAxes m h health i [] n w r held = (([], []), w, refl, (r, held))
  process_axes-AreAxes m h health i (a ∷ axes) n w r held =
      let others : AreAxes (length axes) axes = record { count = refl; proper = r.proper.1 } in
      Does->>= (client.read_tx_pdo h (pos (suc i)) (m.stale (suc i))) _ w
        (serves.read_tx_pdo h (pos (suc i)) (m.stale (suc i)) w held)
        λ read u held1.
          let p =
            if ltb_ℤ read.0 (pos 0)
            then (a, [], false)
            else process_axis m (suc i) read.1 health a in
          let fine : Proper p.0.active =
            if-holds (λ (q : Axis × List Event × Bool). Proper q.0.active) (ltb_ℤ read.0 (pos 0))
              r.proper.0 (process_axis-Proper m (suc i) read.1 health a r.proper.0) in
          Does->>= (if p.2 then done (axes, []) else process_axes client m h health (suc i) axes)
            (λ rest. done (p.0 ∷ rest.0, p.1 ++ rest.1)) u
            (go_on-AreAxes p.2 m h health (suc i) axes (length axes) u others held1
              (process_axes-AreAxes m h health (suc i) axes (length axes) u others held1))
            λ rest v q. (
              (p.0 ∷ rest.0, p.1 ++ rest.1),
              v,
              refl,
              (record { count = ap suc q.0.count ∙ r.count; proper = (fine, q.0.proper) }, q.1),
            )
