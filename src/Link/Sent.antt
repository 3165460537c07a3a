-- ===== src/Link/Sent.antt =====
-- src/sc_slave_port.cc and include/txn_router.h: the phases that a log of calls shows, for one socket.
use gem5_wrapper.Prelude.{ℕ, false, ◌==◌, ==_iff, refl, ◌≡◌, Bool, true, List, [], ◌∷◌, ◌++◌}
use mathlib.Core.List.{append-nil}
use gem5_wrapper.Tlm.{Phase, begin_req, begin_resp, end_resp}
use gem5_wrapper.SlavePort.State.{
  Gem5Extension, Packet, numbered, Multi, ScSlavePort, socket_for, transport_fw,
}
use gem5_wrapper.SlavePort.State
use gem5_wrapper.Router.{TxnRouter, transport_bw, new, peq_cb, execute_transaction_process}
use gem5_wrapper.Router

-- What the port has sent through the socket `c`, and what the router has, the oldest first.
abbrev pub if_begin_req : Phase → ℕ → List ℕ
if_begin_req begin_req t = t ∷ []
if_begin_req _ t = []

abbrev pub if_end_resp : Phase → ℕ → List ℕ
if_end_resp end_resp t = t ∷ []
if_end_resp _ t = []

abbrev pub if_begin_resp : Phase → ℕ → List ℕ
if_begin_resp begin_resp t = t ∷ []
if_begin_resp _ t = []

abbrev pub through : Bool → List ℕ → List ℕ
through true l = l
through false l = []

pub through-nil : (b : Bool) (l : List ℕ) → l ++ through b [] ≡ l
through-nil true l = append-nil l
through-nil false l = append-nil l

-- A call through the socket itself.
pub through_own : (c : ℕ) (l xs : List ℕ) → l ++ through (c == c) xs ≡ l ++ xs
through_own c l xs = let here : (c == c) ≡ true = (==_iff c c).1 refl in rw here refl

abbrev pub sent_requests : ℕ → List State.Call → List ℕ
sent_requests c [] = []
sent_requests c (transport_fw (numbered k) t phase d ∷ l) =
    sent_requests c l ++ through (k == c) (if_begin_req phase t)
sent_requests c (_ ∷ l) = sent_requests c l

abbrev pub sent_ends : ℕ → List State.Call → List ℕ
sent_ends c [] = []
sent_ends c (transport_fw (numbered k) t phase d ∷ l) =
    sent_ends c l ++ through (k == c) (if_end_resp phase t)
sent_ends c (_ ∷ l) = sent_ends c l

abbrev pub sent_responses : List Router.Call → List ℕ
sent_responses [] = []
sent_responses (transport_bw t phase ∷ l) = sent_responses l ++ if_begin_resp phase t
sent_responses (_ ∷ l) = sent_responses l
