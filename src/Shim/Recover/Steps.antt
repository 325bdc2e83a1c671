-- ===== src/Shim/Recover/Steps.antt =====
-- The calls that recovery is made of, on a mapped state.
use xeryon_ether_cat.Base.{
  ℕ, suc, ℤ, pos, negsuc, pos_part, neg_part, ◌≡◌, refl, ◌-◌, ◌*◌, ◌^◌, ◌≤◌, ◌<◌, arith, some, ◌∷◌,
  ap, ◌∙◌,
}
use xeryon_ether_cat.Soem.{Net, Platform, ec_maxslave, Context}
use xeryon_ether_cat.Soem.Mapping.{KeepsMapping, SameMapping}
use xeryon_ether_cat.Shim.{St, Call, mul_int, net_of, after_call, set_state, with_context}
use xeryon_ether_cat.Shim.Mapped.{IsMapped, SameMapping-IsMapped}
use xeryon_ether_cat.Shim.Runs.{Runs, Stays, after_call-Stays, Stays-trans, Runs->>=}
use xeryon_ether_cat.Shim.Recover.{
  check_state, write_state, request_state, usleep, send_processdata, receive_processdata,
}

-- The timeout in microseconds is an `int` too.
pub record IsTimeout (ms : ℤ) : Type 0 where
  pub above : neg_part ms * 1000 ≤ 2 ^ 31
  pub below : pos_part ms * 1000 < 2 ^ 31

abbrev pub micros : ℤ → ℤ
micros (pos n) = pos (n * 1000)
micros (negsuc n) = negsuc (suc n * 1000 - 1)

pub mul_int-micros :
    {X : Type 0} (ms : ℤ) (s : St X) → IsTimeout ms → mul_int ms 1000 s ≡ some (micros ms, s)
mul_int-micros (pos n) s h = ground arith
mul_int-micros (negsuc n) s h = ground arith

pub set_state-SameMapping : (c : Context) (i st : ℕ) → SameMapping (set_state i st c) c
set_state-SameMapping c i st = record {
  slavecount = refl;
  group = refl;
  slaves = λ j. record {
    obytes = ground arith;
    outputs = ground arith;
    ibytes = ground arith;
    inputs = ground arith;
  };
}

module _ {X : Type 0} where
  -- A new entry for a slave's state moves nothing.
  pub set_state-Stays :
      (s : St X) (i st : ℕ)
      → IsMapped s
      → Stays s (with_context s (set_state i st s.handle.context))
  set_state-Stays s i st m =
      let same = set_state-SameMapping s.handle.context i st in
      record {
        mapped =
            SameMapping-IsMapped s (with_context s (set_state i st s.handle.context)) refl refl same
              m;
        slavecount = refl;
        size = refl;
        port_open = refl;
      }

module _ {X : Type 0} ⦃p : Platform X⦄ (keeps : KeepsMapping p) where
  pub check_state-Runs :
      (i want : ℕ) (t : ℤ) (s : St X)
      → IsMapped s
      → Runs (check_state i want t) s (λ got s'.
        Stays s s'
        × (s'.calls ≡ Call.state_check i want t got ∷ s.calls)
        × (p.ecx_statecheck i want t (net_of s) ≡ (got, net_of s')))
  check_state-Runs i want t s m =
      let r = p.ecx_statecheck i want t (net_of s) in
      let c : Call = Call.state_check i want t r.0 in
      (
        r.0,
        after_call c s r.1,
        ground (arith, m.live),
        (after_call-Stays c s r.1 (keeps.statecheck i want t (net_of s)) m, refl, refl),
      )

  pub usleep-Runs :
      (us : ℕ) (s : St X)
      → IsMapped s
      → Runs (usleep us) s (λ _ s'.
        Stays s s'
        × (s'.calls ≡ Call.sleep us ∷ s.calls)
        × (net_of s' ≡ p.osal_usleep us (net_of s)))
  usleep-Runs us s m =
      let n : Net X = p.osal_usleep us (net_of s) in
      (
        tt,
        after_call (Call.sleep us) s n,
        ground (arith, m.live),
        (after_call-Stays (Call.sleep us) s n (keeps.usleep us (net_of s)) m, refl, refl),
      )

  pub send_processdata-Runs :
      (s : St X)
      → IsMapped s
      → Runs send_processdata s (λ wkc s'.
        Stays s s'
        × (s'.calls ≡ Call.send wkc ∷ s.calls)
        × (p.ecx_send_processdata (net_of s) ≡ (wkc, net_of s')))
  send_processdata-Runs s m =
      let r = p.ecx_send_processdata (net_of s) in
      (
        r.0,
        after_call (Call.send r.0) s r.1,
        ground (arith, m.live),
        (after_call-Stays (Call.send r.0) s r.1 (keeps.send (net_of s)) m, refl, refl),
      )

  pub receive_processdata-Runs :
      (t : ℤ) (s : St X)
      → IsMapped s
      → Runs (receive_processdata t) s (λ wkc s'.
        Stays s s'
        × (s'.calls ≡ Call.receive t wkc ∷ s.calls)
        × (p.ecx_receive_processdata t (net_of s) ≡ (wkc, net_of s')))
  receive_processdata-Runs t s m =
      let r = p.ecx_receive_processdata t (net_of s) in
      (
        r.0,
        after_call (Call.receive t r.0) s r.1,
        ground (arith, m.live),
        (after_call-Stays (Call.receive t r.0) s r.1 (keeps.receive t (net_of s)) m, refl, refl),
      )

  pub write_state-Runs :
      (i st : ℕ) (s : St X)
      → IsMapped s
      → i < ec_maxslave
      → Runs (write_state i st) s (λ _ s'.
        Stays s s'
        × (s'.calls ≡ Call.write_state i st ∷ s.calls)
        × (net_of s'
            ≡ p.ecx_writestate i (net_of (with_context s (set_state i st s.handle.context)))))
  write_state-Runs i st s m fits =
      let s1 : St X = with_context s (set_state i st s.handle.context) in
      let stays = set_state-Stays s i st m in
      let n : Net X = p.ecx_writestate i (net_of s1) in
      let c : Call = Call.write_state i st in
      (
        tt,
        after_call c s1 n,
        ground (arith, m.live, fits),
        (
          Stays-trans stays (after_call-Stays c s1 n (keeps.writestate i (net_of s1)) stays.mapped),
          refl,
          refl,
        ),
      )

  -- A step of the reinitialisation: the state is asked for, then waited for.
  pub request_state-Runs :
      (i st : ℕ) (ms : ℤ) (s : St X)
      → IsMapped s
      → i < ec_maxslave
      → IsTimeout ms
      → Runs (request_state i ms st) s (λ got s'.
        Stays s s'
        × (s'.calls ≡ Call.state_check i st (micros ms) got ∷ Call.write_state i st ∷ s.calls))
  unfolding request_state
  request_state-Runs i st ms s m fits h =
      Runs->>= (write_state i st) _ s (write_state-Runs i st s m fits) λ _ s1 w.
        let (got, s2, e, (stays, calls, left)) = check_state-Runs i st (micros ms) s1 w.0.mapped in
        (
          got,
          s2,
          rw (mul_int-micros ms s1 h) e,
          (
            Stays-trans w.0 stays,
            calls ∙ ap (λ cs. Call.state_check i st (micros ms) got ∷ cs) w.1,
          ),
        )
