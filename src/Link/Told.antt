-- ===== src/Link/Told.antt =====
-- src/sc_slave_port.cc: a request that gem5 sends again when it is told to, and what the port does
-- for its other sockets, keep a transaction in one place.
use gem5_wrapper.Prelude.{
  ◌≢◌, Bool, some, ℕ, ◌≡◌, refl, sym, ap, ◌∙◌, none, List, [], arith, ok, >>=-eq-ok,
}
use mathlib.Core.List.{append-nil}
use gem5_wrapper.Prelude.Map.{find-assign}
use gem5_wrapper.Helper.{request, response}
use gem5_wrapper.SlavePort.State.{Packet, ScSlavePort}
use gem5_wrapper.SlavePort.Sockets.{get_socket_id}
use gem5_wrapper.SlavePort.Request.{request_socket, recv_timing_req}
use gem5_wrapper.SlavePort.Event.{Answer, Answer}
use gem5_wrapper.SlavePort.Invariant.{core_of, IsUnused}
use gem5_wrapper.SlavePort.Retry.{retrying}
use gem5_wrapper.SlavePort.Retried.{sends_again}
use gem5_wrapper.Router.{TxnRouter}
use gem5_wrapper.Link.{accepting}
use gem5_wrapper.Link.Wire.{
  IsOpen, at_other, IsFresh, Wire, IsForward, with_port, IsOpen, IsSent, IsRetry, later_on, at_once,
}
use gem5_wrapper.Link.Linked.{same-IsLinked, IsLinked, forward_lem}
use gem5_wrapper.Link.Ported.{request-IsLinked}
use gem5_wrapper.Link.Elsewhere.{IsElsewhere, request-IsElsewhere, request_payloads}
use gem5_wrapper.MemoryManager.{allocate}
use gem5_wrapper.SlavePort.Request

-- A request may be sent from the freed port where it might have been before.
retrying-IsUnused :
    (c t : ℕ) (s : ScSlavePort) → IsUnused s.helper t → IsUnused (retrying c s).helper t
retrying-IsUnused c t s n request d e =
    ground (arith, n request d, find-assign c d none s.helper.blocking_request_map)
retrying-IsUnused c t s n response d e = n response d e

retrying-IsSent :
    (c : ℕ) {d : ℕ} {p : Packet} {fresh : ℕ} {s : ScSlavePort} {r : TxnRouter} {ends : List ℕ}
    → IsSent d p fresh s r ends
    → IsSent d p fresh (retrying c s) r ends
unfolding request_socket get_socket_id
retrying-IsSent c {d} {p} {fresh} {s} q = record {
  is_request = q.is_request;
  at_socket = q.at_socket;
  is_fresh = record {
    unused = retrying-IsUnused c _ s q.is_fresh.unused;
    unserved = q.is_fresh.unserved;
  };
}

pub retrying-IsRetry :
    (c : ℕ) {d : ℕ} {s : ScSlavePort} {r : TxnRouter} {ends : List ℕ} {e : Answer}
    → IsRetry d s r ends e
    → IsRetry d (retrying c s) r ends e
unfolding request_socket get_socket_id
retrying-IsRetry c (later_on h) = later_on h
retrying-IsRetry c (at_once p fresh q h) = at_once p fresh (retrying-IsSent c q) h
retrying-IsRetry c {d} {s} (at_other p q n k h) =
    at_other p q n (record { unused = retrying-IsUnused c _ s k.unused; unserved = k.unserved }) h

pub retrying-IsForward :
    (c : ℕ) {d : ℕ} {s s' : ScSlavePort} {a b : List ℕ}
    → IsForward d s s' a b
    → IsForward d (retrying c s) s' a b
retrying-IsForward c f = record { begun = f.begun; ended = f.ended }

module _ {c : ℕ} {start size : ℕ} {w : Wire} (i : IsLinked c start size w) where
  -- What the port does for another socket.
  pub elsewhere-IsLinked :
      {s : ScSlavePort} {a b : List ℕ}
      → IsElsewhere c w.port s
      → ((u : ℕ)
          → w.router.transaction_in_progress ≡ some u
          → w.ends ≡ []
          → core_of (s.payloads u).extension ≡ core_of (w.port.payloads u).extension)
      → IsForward c w.port s a b
      → IsLinked c start size (with_port s a b w)
  elsewhere-IsLinked x p f =
      same-IsLinked i x.is_open x.same_request x.same_response p
        (forward_lem [] [] f (x.requests ∙ sym (append-nil _)) (x.ends ∙ sym (append-nil _)))

  pub other_request-IsLinked :
      (p : Packet) (q : Request.Answer) {s : ScSlavePort} {taken : Bool} {a b : List ℕ}
      → request_socket p w.port ≢ c
      → IsFresh (allocate q.fresh w.port.mm).0 w.port w.router w.ends
      → recv_timing_req p q w.port ≡ ok (s, taken)
      → IsForward c w.port s a b
      → IsLinked c start size (with_port s a b w)
  other_request-IsLinked p q n k e f =
      let o = i.open_port in
      elsewhere-IsLinked (request-IsElsewhere o p q n k.unused e)
        (λ u h z. request_payloads o p q u k.unused e (λ same. k.unserved (h ∙ ap some same) z)) f

  -- What gem5 does when the port has told it to retry.
  pub retry-IsLinked :
      (e : Answer) {s : ScSlavePort} {a b : List ℕ}
      → IsRetry c w.port w.router w.ends e
      → e.retry w.port ≡ ok s
      → IsForward c w.port s a b
      → IsLinked c start size (with_port s a b w)
  unfolding sends_again
  retry-IsLinked e {s} (later_on h) d f =
      let same : s ≡ w.port = ground (arith, d, h w.port) in
      rw same (
        same-IsLinked i i.open_port refl refl (λ u k z. refl)
          (forward_lem [] [] (rw same at f) (sym (append-nil _)) (sym (append-nil _))))
  retry-IsLinked e {s} (at_once p fresh q h) d f =
      let (x, sent, same) =
        >>=-eq-ok (recv_timing_req p (accepting fresh) w.port) _ (sym (h w.port) ∙ d) in
      let here : x.0 ≡ s = cc in
      request-IsLinked i p fresh q (sent ∙ ap (λ (y : ScSlavePort). ok (y, x.1)) here) f
  retry-IsLinked e {s} (at_other p q n k h) d f =
      let (x, sent, same) = >>=-eq-ok (recv_timing_req p q w.port) _ (sym (h w.port) ∙ d) in
      let here : x.0 ≡ s = cc in
      other_request-IsLinked p q n k (sent ∙ ap (λ (y : ScSlavePort). ok (y, x.1)) here) f

-- gem5 sends nothing through the socket when it is told to retry.
abbrev pub IsApart :
    {c : ℕ} {s : ScSlavePort} {r : TxnRouter} {ends : List ℕ} {e : Answer}
    → IsRetry c s r ends e
    → Type 0
IsApart (later_on h) = Unit
IsApart (at_once p fresh q h) = ⊥
IsApart (at_other p q n k h) = Unit

pub retry-IsElsewhere :
    {c : ℕ} {s : ScSlavePort} {r : TxnRouter} {ends : List ℕ} (e : Answer) {s' : ScSlavePort}
    → IsOpen c s
    → (k : IsRetry c s r ends e) → IsApart k
    → e.retry s ≡ ok s'
    → IsElsewhere c s s'
unfolding sends_again
retry-IsElsewhere {c} {s} e {s'} o (later_on h) l d =
    let same : s' ≡ s = ground (arith, d, h s) in
    rw same (record {
      is_open = o;
      same_request = refl;
      same_response = refl;
      requests = refl;
      ends = refl;
    })
retry-IsElsewhere e o (at_once p fresh q h) l d = absurd l
retry-IsElsewhere {s} e {s'} o (at_other p q n k h) l d =
    let (x, sent, same) = >>=-eq-ok (recv_timing_req p q s) _ (sym (h s) ∙ d) in
    let here : x.0 ≡ s' = cc in
    request-IsElsewhere o p q n k.unused (sent ∙ ap (λ (y : ScSlavePort). ok (y, x.1)) here)

pub retrying-IsApart :
    (d : ℕ) {c : ℕ} {s : ScSlavePort} {r : TxnRouter} {ends : List ℕ} {e : Answer}
    (k : IsRetry c s r ends e)
    → IsApart k
    → IsApart (retrying-IsRetry d k)
unfolding retrying-IsRetry
retrying-IsApart d (later_on h) l = tt
retrying-IsApart d (at_once p fresh q h) l = absurd l
retrying-IsApart d (at_other p q n k h) l = tt
