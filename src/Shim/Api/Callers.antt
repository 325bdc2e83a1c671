-- ===== src/Shim/Api/Callers.antt =====
-- What callers of either shim can rely on.
use Prim.Native.String.{String}
use xeryon_ether_cat.Base.{ℤ, true, Option, some, List, [], ◌≡◌, ◌⊎◌, length}
use xeryon_ether_cat.Soem.{Platform}
use xeryon_ether_cat.Soem.Mapping.{KeepsMapping}
use xeryon_ether_cat.Shim.{St, valid}
use xeryon_ether_cat.Shim.Runs.{Runs}
use xeryon_ether_cat.Shim.Init.Resources.{MapsInside, Released}
use xeryon_ether_cat.Shim.Api.{System, api_of}
use xeryon_ether_cat.Shim.Api.Session.{Request, IsRequest, AreRequests, perform}
use xeryon_ether_cat.Shim.Api.Sound.{api_of-IsSound}
use xeryon_ether_cat.Shim.Api.Lives.{
  Reach, IsLegal, Reach-IsLegal, Reach-progress, life, life-Released,
}

module _ {X : Type 0} ⦃p : Platform X⦄ (keeps : KeepsMapping p) (maps : MapsInside p)
    (os : System) where
  -- Whatever calls callers make of a shim, from a state on where nothing is held or the bus runs:
  -- again nothing is held, or the bus runs on its IO map with its port open.
  pub api_of-IsLegal :
      {s t : St X} → IsLegal (api_of os) s → Reach (api_of os) s t → IsLegal (api_of os) t
  api_of-IsLegal = Reach-IsLegal (api_of os) (api_of-IsSound keeps maps os)

  -- A caller that holds a handle after any calls of a shim, from a state on where nothing is held
  -- or the bus runs, is never stuck: a proper call comes back, and so does giving the handle back,
  -- which releases everything.
  pub api_of-progress :
      {s t : St X} (q : Request)
      → IsLegal (api_of os) s
      → Reach (api_of os) s t
      → t.allocated ≡ true
      → IsRequest q
      → ((rc : ℤ) × (u : St X) × (perform (api_of os) q t ≡ some (rc, u)))
        × ((u : St X) × ((api_of os).soem_shutdown valid t ≡ some (tt, u)) × Released u)
  api_of-progress = Reach-progress (api_of os) (api_of-IsSound keeps maps os)

  -- A caller of a shim that opens the bus, makes any number of proper calls if it got a handle, and
  -- gives the handle back, comes to an end with every call answered and everything released.
  pub api_of-Released :
      (ifname : Option String) (qs : List Request) (s : St X)
      → AreRequests qs
      → Released s
      → Runs
          (life (api_of os) ifname qs)
          s
          (λ rcs t. Released t × ((rcs ≡ []) ⊎ (length rcs ≡ length qs)))
  api_of-Released = life-Released (api_of os) (api_of-IsSound keeps maps os)
