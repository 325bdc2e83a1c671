-- ===== src/Shim/Api/Lives.antt =====
-- What callers can do with sound functions, in any order and for any time.
use Prim.Native.String.{String}
use xeryon_ether_cat.Base.{
  ℤ, true, false, Option, some, List, [], ◌∷◌, ◌≡◌, refl, ◌⊎◌, inl, inr, arith, length, ap, suc,
}
use xeryon_ether_cat.Shim.{M, pure, St, Pointer, null, valid, ◌>>=◌, ◌>>◌}
use xeryon_ether_cat.Shim.Mapped.{IsMapped}
use xeryon_ether_cat.Shim.Runs.{Runs, Runs->>=, Stays, Stays-refl, Stays-trans, Runs-at}
use xeryon_ether_cat.Shim.Init.Resources.{Released, Started, Outcome, Stays-Started}
use xeryon_ether_cat.Shim.Api.{Api}
use xeryon_ether_cat.Shim.Api.Session.{Request, IsRequest, AreRequests, perform, IsSound}

module _ {X : Type 0} (api : Api X) where
  -- The calls one after the other, with what they return.
  pub perform_all : List Request → M X (List ℤ)
  perform_all [] s = pure [] s
  perform_all (q ∷ qs) s = (do rc ← perform api q; rcs ← perform_all qs; pure (rc ∷ rcs)) s

  abbrev pub with_handle : List Request → Pointer → M X (List ℤ)
  with_handle qs null = pure []
  with_handle qs valid = do rcs ← perform_all qs; api.soem_shutdown valid; pure rcs

  -- A caller's life: it opens the bus, makes its calls if it got a handle, and shuts it down.
  pub life : Option String → List Request → M X (List ℤ)
  life ifname qs = do h ← api.soem_initialize ifname; with_handle qs h

  -- A call that a caller may make: to open the bus while it holds no handle, to use the handle that
  -- it holds, and to give it back.
  pub data Step (s t : St X) : Type 0 where
    open_bus :
        (ifname : Option String) (h : Pointer)
        → s.allocated ≡ false
        → api.soem_initialize ifname s ≡ some (h, t)
        → Step s t
    call :
        (q : Request) (rc : ℤ)
        → IsRequest q
        → s.allocated ≡ true
        → perform api q s ≡ some (rc, t)
        → Step s t
    close : s.allocated ≡ true → api.soem_shutdown valid s ≡ some (tt, t) → Step s t

  pub data Reach (s : St X) : St X → Type 0 where
    here : Reach s s
    next : {t u : St X} → Reach s t → Step t u → Reach s u

  -- Nothing is held, or the bus runs.
  abbrev pub IsLegal : St X → Type 0
  IsLegal s = Released s ⊎ Started s

  module _ (sound : IsSound api) where
    Outcome-IsLegal : (h : Pointer) (t : St X) → Outcome h t → IsLegal t
    Outcome-IsLegal h t (inl (e, free)) = inl free
    Outcome-IsLegal h t (inr (e, o)) = inr o

    Step-IsLegal : (s t : St X) → Step s t → IsLegal s → IsLegal t
    Step-IsLegal s t (open_bus ifname h held e) (inr o) = absurd (ground (arith, o.mapped.live))
    Step-IsLegal s t (open_bus ifname h held e) (inl free) =
        Outcome-IsLegal h t
          (Runs-at (api.soem_initialize ifname) s Outcome (sound.initialize ifname s free) e)
    Step-IsLegal s t (call q rc fine held e) (inl free) = absurd (ground (arith, free.allocated))
    Step-IsLegal s t (call q rc fine held e) (inr o) = inr (
        Stays-Started s t
          (Runs-at (perform api q) s (λ _ u. Stays s u) (sound.call q s fine o.mapped) e) o)
    Step-IsLegal s t (close held e) (inl free) = absurd (ground (arith, free.allocated))
    Step-IsLegal s t (close held e) (inr o) =
        inl (Runs-at (api.soem_shutdown valid) s (λ _ u. Released u) (sound.shutdown s o.mapped) e)

    -- Whatever calls callers make of sound functions, from a state on where nothing is held or the
    -- bus runs: again nothing is held, or the bus runs on its IO map with its port open.
    pub Reach-IsLegal : {s t : St X} → IsLegal s → Reach s t → IsLegal t
    Reach-IsLegal legal here = legal
    Reach-IsLegal legal (next {t} {u} r st) = Step-IsLegal t u st (Reach-IsLegal legal r)

    -- A caller that holds a handle after any calls of sound functions, from a state on where
    -- nothing is held or the bus runs, is never stuck: a proper call comes back, and so does giving
    -- the handle back, which releases everything.
    pub Reach-progress :
        {s t : St X} (q : Request)
        → IsLegal s
        → Reach s t
        → t.allocated ≡ true
        → IsRequest q
        → ((rc : ℤ) × (u : St X) × (perform api q t ≡ some (rc, u)))
          × ((u : St X) × (api.soem_shutdown valid t ≡ some (tt, u)) × Released u)
    Reach-progress {s} {t} q legal r held fine = elim (Reach-IsLegal legal r) [
      | inl none_held ↦ absurd (ground (arith, none_held.allocated))
      | inr o ↦
          let (rc, u, e, stays) = sound.call q t fine o.mapped in
          let (v, w, e', released) = sound.shutdown t o.mapped in ((rc, u, e), (w, e', released))
    ]

    perform_all-Stays :
        (qs : List Request) (s : St X)
        → AreRequests qs
        → IsMapped s
        → Runs (perform_all qs) s (λ rcs t. Stays s t × (length rcs ≡ length qs))
    unfolding perform_all
    perform_all-Stays [] s fine m = ([], s, refl, (Stays-refl s m, refl))
    perform_all-Stays (q ∷ qs) s fine m =
        let (rc, s1, e1, q1) = sound.call q s fine.0 m in
        let (rcs, t, e, (q2, same)) = perform_all-Stays qs s1 fine.1 q1.mapped in
        (rc ∷ rcs, t, ground (arith, e1, e), (Stays-trans q1 q2, ap suc same))

    with_handle-Released :
        (qs : List Request) (h : Pointer) (s : St X)
        → AreRequests qs
        → Outcome h s
        → Runs (with_handle qs h) s (λ rcs t. Released t × ((rcs ≡ []) ⊎ (length rcs ≡ length qs)))
    with_handle-Released qs null s fine (inl (e, free)) = ([], s, refl, (free, inl refl))
    with_handle-Released qs null s fine (inr (e, o)) = absurd (ground (arith, e))
    with_handle-Released qs valid s fine (inl (e, free)) = absurd (ground (arith, e))
    with_handle-Released qs valid s fine (inr (e, o)) =
        let (rcs, t, e1, (q, same)) = perform_all-Stays qs s fine o.mapped in
        let (v, u, e2, released) = sound.shutdown t q.mapped in
        (rcs, u, ground (arith, e1, e2), (released, inr same))

    -- A caller that opens the bus, makes any number of proper calls if it got a handle, and gives
    -- the handle back, comes to an end with every call answered and everything released.
    pub life-Released :
        (ifname : Option String) (qs : List Request) (s : St X)
        → AreRequests qs
        → Released s
        → Runs (life ifname qs) s (λ rcs t. Released t × ((rcs ≡ []) ⊎ (length rcs ≡ length qs)))
    unfolding life
    life-Released ifname qs s fine free =
        Runs->>= (api.soem_initialize ifname) _ s (sound.initialize ifname s free)
          λ h s1 o. with_handle-Released qs h s1 fine o
