-- ===== src/SlavePort/Resent.antt =====
-- src/sc_slave_port.cc, `recvRespRetry`: the calls that it makes for the responses that are blocked.
use gem5_wrapper.Prelude.{
  ℕ, zero, suc, ◌+◌, ◌≤◌, ◌<◌, ◌≡◌, inl, inr, Option, none, some, List, [], ◌∷◌, arith, ◌==◌,
  Bool-cases, range,
}
use gem5_wrapper.Prelude.Map.{Map, find, assign, keys}
use gem5_wrapper.Tlm.{end_resp}
use gem5_wrapper.Helper.{first_blocked}
use gem5_wrapper.SlavePort.State.{
  Gem5Extension, Payload, numbered, Call, release, transport_fw, send_timing_resp,
}

abbrev pub packet_of : Option Gem5Extension → ℕ
packet_of none = 0
packet_of (some e) = e.packet

-- The calls for one response, newest first: to gem5, END_RESP to the target, and the release.
abbrev pub resend_calls : (ℕ → Payload) → (c t : ℕ) → List Call → List Call
resend_calls payloads c t l =
    release t
    ∷ transport_fw (numbered c) t end_resp 0
    ∷ send_timing_resp (packet_of (payloads t).extension)
    ∷ l

-- Those for all the responses of a map, in the order of its keys.
abbrev pub resent : (ℕ → Payload) → Map (Option ℕ) → List Call → List Call
resent payloads [] l = l
resent payloads ((k, none) ∷ m) l = resent payloads m l
resent payloads ((k, some t) ∷ m) l = resent payloads m (resend_calls payloads k t l)

pub resent-assign :
    (payloads : ℕ → Payload) (lo n c t : ℕ) (m : Map (Option ℕ)) (l : List Call)
    → keys m ≡ range lo n
    → lo ≤ c
    → first_blocked m ≡ some t
    → find c m ≡ some (some t)
    → ((q : ℕ) → lo ≤ q → q < c → find q m ≡ some none)
    → resent payloads (assign c none m) (resend_calls payloads c t l) ≡ resent payloads m l
unfolding first_blocked find assign
resent-assign payloads lo n c t [] l r b f e w = absurd (cc)
resent-assign payloads lo zero c t (o ∷ m) l r b f e w = absurd (cc)
resent-assign payloads lo (suc n) c t ((k, none) ∷ m) l r b f e w =
    let at_lo : k ≡ lo = cc in
    elim (Bool-cases (k == c)) [
      | inl hit ↦ absurd (some_none (rw hit at e))
      | inr miss ↦ rw miss (
          resent-assign payloads (lo + 1) n c t m l (cc) (ground arith) f (rw miss at e)
            (λ q x y. ground (arith, w q (omega arith) y)))
    ]
  where
    some_none : ◌≡◌ {A = Option (Option ℕ)} (some none) (some (some t)) → ⊥
    some_none x = cc
resent-assign payloads lo (suc n) c t ((k, some u) ∷ m) l r b f e w =
    let at_lo : k ≡ lo = cc in
    elim (Bool-cases (k == c)) [
      | inl hit ↦ rw hit (ground arith)
      | inr miss ↦ absurd (ground (arith, w k))
    ]
