-- ===== src/Shim/Exchange/Fresh.antt =====
-- A cycle and a read behind it.
use xeryon_ether_cat.Base.{
  ℕ, ℤ, pos, pos_part, List, Option, none, some, ◌≡◌, refl, ◌∙◌, sym, ap, ◌+◌, ◌<◌, ◌≤ℤ◌, inl, inr,
  arith, ltb_ℤ, if◌then◌else◌, get_or,
}
use mathlib.Core.Path.{subst}
use xeryon_ether_cat.Soem.{Platform}
use xeryon_ether_cat.Soem.Mapping.{KeepsMapping, SameMapping, SameMapping-trans}
use xeryon_ether_cat.Shim.{St, valid, net_of, ◌>>=◌}
use xeryon_ether_cat.Shim.Mapped.{IsMapped}
use xeryon_ether_cat.Shim.Runs.{Runs}
use xeryon_ether_cat.Shim.Pdo.{DriveTxPdo, soem_read_txpdo}
use xeryon_ether_cat.Shim.Pdo.Codec.{tx_image, IsTxPdo}
use xeryon_ether_cat.Shim.Pdo.Read.{Readable, soem_read_txpdo-tx_image}
use xeryon_ether_cat.Shim.Pdo.Write.{with_bytes}
use xeryon_ether_cat.Shim.Exchange.{soem_exchange_process_data}
use xeryon_ether_cat.Shim.Exchange.Buffers.{Fits, prepare_none}
use xeryon_ether_cat.Shim.Exchange.Cycle.{
  Cycle, soem_exchange_process_data-codes, sent_state, wkc_sent,
}

Readable-same :
    {X : Type 0} (s t : St X) (i : ℤ) (buf : ℕ)
    → SameMapping t.handle.context s.handle.context
    → Readable s i buf
    → Readable t i buf
Readable-same s t i buf same r =
    let place = same.slaves (pos_part i) in
    record {
      above = r.above;
      below = rw same.slavecount r.below;
      mapped = place.inputs ∙ r.mapped;
      enough = rw place.ibytes r.enough;
      small = rw place.ibytes r.small;
    }

-- The timeout that the cycle waits for.
abbrev pub waited : ℤ → ℤ
waited timeout_us = if ltb_ℤ timeout_us (pos 0) then pos 0 else timeout_us

module _ {X : Type 0} ⦃p : Platform X⦄ where
  -- A cycle without outputs on a mapped bus, whose frame was sent, leaves at the inputs of the
  -- slaves what receiving put there: if that is the image of a state, for a slave that can be read,
  -- a read behind the cycle returns 1 and that state, whatever the code of the cycle was.
  pub soem_exchange_process_data-read :
      (inputs : Option (List ℕ)) (inputs_len timeout_us : ℤ) (s : St X) (i : ℤ)
      (old tx : DriveTxPdo) (buf : ℕ)
      → KeepsMapping p
      → IsMapped s
      → Fits inputs inputs_len
      → Readable s i buf
      → IsTxPdo tx
      → pos 0 ≤ℤ wkc_sent s
      → ((k : ℕ)
          → k < 8
          → (p.ecx_receive_processdata (waited timeout_us) (net_of (sent_state s))).1.byte (buf + k)
            ≡ get_or (tx_image tx) k 0)
      → Runs
          (do
            cycle ← soem_exchange_process_data valid none (pos 0) inputs inputs_len timeout_us
            soem_read_txpdo valid i (some old))
          s
          (λ r _. r ≡ (pos 1, some tx))
  soem_exchange_process_data-read inputs inputs_len timeout_us s i old tx buf keeps m fits r good
        sent image =
      let t : ℤ = waited timeout_us in
      let (mem, rc, out, s', prepared, e, q, codes) =
        soem_exchange_process_data-codes none inputs (pos 0) inputs_len timeout_us s keeps m tt
          fits in
      let ended : Cycle inputs t s rc out s' =
        subst (λ b. Cycle inputs t (with_bytes s b) rc out s') (prepare_none mem s prepared)
          codes in
      elim ended [
        | inl (bad, code, unread, wkc, expected, calls, left) ↦ absurd (ground (arith, bad, sent))
        | inr (good_send, received, wkc, expected, calls, left) ↦
            let brought = (p.ecx_receive_processdata t (net_of (sent_state s))).1 in
            let moved : SameMapping brought.context s.handle.context =
              SameMapping-trans _ _ _ (keeps.receive t (net_of (sent_state s)))
                (keeps.send (net_of s)) in
            let same : SameMapping s'.handle.context s.handle.context =
              subst (λ n. SameMapping n.context s.handle.context) (sym left) moved in
            let read =
              soem_read_txpdo-tx_image s' i old tx buf q.mapped (Readable-same s s' i buf same r)
                good (λ k below. ap (λ n. n.byte (buf + k)) left ∙ image k below) in
            ((pos 1, some tx), s', ground (arith, e, read), refl)
      ]
