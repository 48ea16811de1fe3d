-- ===== src/Lldp/Publish/Decided.antt =====
-- lldp.c, the body of the loop of lldp_port_provider: which neighbours it publishes, and which stop
-- the program.
use tsn.Base.{
  ℕ, ◌≤◌, ◌<◌, arith, Bool, true, false, Bool-cases, ltb, ltb→lt, subst, Option, none, some, ◌++◌,
  ◌≡◌, ◌⊎◌, inl, inr, refl, CStr, length,
}
use tsn.Runtime.{Env, Trace, Result, done, fault, exited}
use tsn.Runtime.Laws.{Returns}
use tsn.Runtime.Records.{nodes}
use tsn.Utils.Mac.{to_ieee_mac_addr}
use tsn.Utils.Mac.Laws.{length-to_ieee_mac_addr}
use tsn.Lldp.{Lldp, Chassis, Port}
use tsn.Lldp.Publish.{from_byte, shown, publish}
use tsn.Lldp.Publish.Laws.{IsComplete, neighbour_nodes, publish-nodes}

-- A run that stops at a null or wild pointer.
abbrev pub Stops : {A : Type 0} → Result A → Type 0
Stops (done a t) = ⊥
Stops (fault t) = Unit
Stops (exited t) = ⊥

-- The neighbour has all that the loop body follows with no test.
pub record HasAll (l : Lldp) : Type 0 where
  pub rid : CStr
  pub port_id : CStr
  pub port : Port
  pub chassis : Chassis
  pub is_complete : IsComplete l rid port_id port chassis

option_cases : {A : Type 0} (o : Option A) → (o ≡ none) ⊎ ((a : A) × (o ≡ some a))
option_cases none = inl refl
option_cases (some a) = inr (a, refl)

from_byte-none : (n : ℕ) (s : CStr) → length s < n → from_byte n s ≡ none
unfolding from_byte
from_byte-none n s h = ground arith

module _ (env : Env) (start : Bool) (l : Lldp) (t : Trace) where
  abbrev pub Decided : Type 0
  Decided =
      ((h : HasAll l) × Returns
          (λ _ u.
            nodes u
            ≡ nodes t
              ++ neighbour_nodes start l (shown env l.name) h.rid h.port_id h.port h.chassis)
          (publish env start l t))
      ⊎ ((¬ HasAll l) × Stops (publish env start l t))

  -- With all pointers there it depends on the length of the port's id.
  by_length :
      (rid port_id : CStr) (port : Port) (chassis : Chassis)
      → l.rid ≡ some rid
      → l.port ≡ some port
      → port.id ≡ some port_id
      → l.chassis ≡ some chassis
      → Decided
  unfolding publish
  by_length rid port_id port chassis r p i c = elim (Bool-cases (ltb (length port_id) 9)) [
    | inr long ↦
        let h : HasAll l = record {
          rid = rid;
          port_id = port_id;
          port = port;
          chassis = chassis;
          is_complete = record {
            has_rid = r;
            has_port = p;
            has_port_id = i;
            long_id = ground arith;
            has_chassis = c;
          };
        } in
        inl (h, publish-nodes env start l rid port_id port chassis t h.is_complete)
    | inl short ↦ inr (
      (λ h.
          let same : h.port_id ≡ port_id =
            cc (p, i, h.is_complete.has_port, h.is_complete.has_port_id) in
          absurd (
            omega (
              arith,
              ltb→lt (length port_id) 9 short,
              subst (λ s. 9 ≤ length s) same h.is_complete.long_id,
            ))),
      stops start short,
    )
  ]
    where
      too_short : ltb (length port_id) 9 ≡ true → from_byte 9 (to_ieee_mac_addr port_id) ≡ none
      too_short short =
          from_byte-none 9 (to_ieee_mac_addr port_id)
            (omega (arith, length-to_ieee_mac_addr port_id, ltb→lt (length port_id) 9 short))

      stops : (start : Bool) → ltb (length port_id) 9 ≡ true → Stops (publish env start l t)
      stops true short = rw (p, i, r, c, too_short short) tt
      stops false short = rw (p, i, r, c, too_short short) tt

  -- A neighbour is published in full exactly if it has a port with an id of 9 bytes at least, a rid
  -- and a chassis: then the loop body's last part returns and has made the seven nodes, for a name
  -- that is NULL with what `vsnprintf` writes for it. Otherwise it stops at a null pointer, or
  -- where it reads behind the id.
  pub publish-Decided : Decided
  unfolding publish
  publish-Decided = elim (option_cases l.port) [
    | inl p ↦ inr ((λ h. cc (p, h.is_complete.has_port)), rw p tt)
    | inr (port, p) ↦ elim (option_cases port.id) [
      | inl i ↦
          inr ((λ h. cc (p, i, h.is_complete.has_port, h.is_complete.has_port_id)), rw (p, i) tt)
      | inr (port_id, i) ↦ elim (option_cases l.rid) [
        | inl r ↦ inr ((λ h. cc (r, h.is_complete.has_rid)), rw (p, i, r) tt)
        | inr (rid, r) ↦ elim (option_cases l.chassis) [
          | inl c ↦ inr ((λ h. cc (c, h.is_complete.has_chassis)), rw (p, i, r, c) tt)
          | inr (chassis, c) ↦ by_length rid port_id port chassis r p i c
        ]
      ]
    ]
  ]
