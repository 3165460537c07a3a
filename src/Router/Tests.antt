-- ===== src/Router/Tests.antt =====
-- Runs of the router, and the theorems about it at concrete inputs.
use gem5_wrapper.Prelude.{
  ◌-◌, ◌^◌, ◌≡◌, refl, ◌⊎◌, true, false, none, some, [], ◌∷◌, ◌++◌, arith, ok, stop, sc_fatal,
  ◌>>=◌,
}
use gem5_wrapper.Tlm.{begin_req, end_req, begin_resp, end_resp, accepted, completed}
use gem5_wrapper.Router.{
  TxnRouter, Answer, acquire, release, transport_bw, done_notify, mem_transport, set_ok_response,
  new, to_mem, peq_cb, execute_transaction_process,
}
use gem5_wrapper.Router.Address.{to_mem_iff, to_mem_top}
use gem5_wrapper.Router.Invariant.{
  delivered, woken, Reach, fresh, later, Reach-Inv, peq_cb_total, process_total, legal,
}
use gem5_wrapper.Router.Server.{serving, end_resp_serves, completed-strands}
use gem5_wrapper.Router.Contract.{
  on_begin_req, on_done, observe, ended, events, begin_req-refines, end_resp-refines,
  process-refines,
}
use gem5_wrapper.Router.Responses.{IsServing, Reach-IsServing}
use gem5_wrapper.Router.Waiting.{begin_execution, process-interleaved}
use gem5_wrapper.Router.References.{IsBalanced, references-IsBalanced}
use gem5_wrapper.Router.References
use gem5_wrapper.Router.Order.{accepted_requests, Reach-IsInOrder}

abbrev yes_later : Answer
yes_later = record { status = accepted; phase = begin_resp }

abbrev at_once : Answer
at_once = record { status = completed; phase = begin_resp }

abbrev router : TxnRouter
router = record {
  mem_start_addr = 4096;
  mem_size = 1024;
  transaction_in_progress = none;
  response_in_progress = false;
  next_response_pending = none;
  end_req_pending = none;
  done_pending = false;
  calls = [];
}

-- The transaction 5 was taken.
abbrev taken : TxnRouter
taken = record router {
  transaction_in_progress = some 5;
  done_pending = true;
  calls = done_notify ∷ transport_bw 5 end_req ∷ acquire 5 ∷ [];
}

-- The transaction 6 waits.
abbrev waiting : TxnRouter
waiting = record taken { end_req_pending = some 6; calls = acquire 6 ∷ taken.calls }

-- The response of 5 has begun.
abbrev begun : TxnRouter
begun = record waiting {
  response_in_progress = true;
  done_pending = false;
  calls =
      release 5 ∷ transport_bw 5 begin_resp ∷ set_ok_response 5 ∷ mem_transport 5 ∷ waiting.calls;
}

Reach-taken : Reach 4096 1024 taken
unfolding new peq_cb
Reach-taken = later fresh (delivered 5 begin_req yes_later refl)

Reach-waiting : Reach 4096 1024 waiting
unfolding peq_cb
Reach-waiting = later Reach-taken (delivered 6 begin_req yes_later refl)

Reach-begun : Reach 4096 1024 begun
unfolding execute_transaction_process
Reach-begun = later Reach-waiting (woken yes_later refl refl)

-- END_RESP of 5, and so END_REQ of 6.
end_resp_test :
    peq_cb 5 end_resp yes_later begun
    ≡ ok (record begun {
      transaction_in_progress = some 6;
      response_in_progress = false;
      end_req_pending = none;
      done_pending = true;
      calls = done_notify ∷ transport_bw 6 end_req ∷ begun.calls;
    })
unfolding peq_cb
end_resp_test = refl

to_mem_test : to_mem router 5119 ≡ true
unfolding to_mem
to_mem_test = refl

peq_cb_total_test :
    ((legal end_resp taken ≡ true)
      × ((s' : TxnRouter) × (peq_cb 5 end_resp yes_later taken ≡ ok s')))
    ⊎ ((legal end_resp taken ≡ false) × (peq_cb 5 end_resp yes_later taken ≡ stop sc_fatal))
peq_cb_total_test = peq_cb_total 5 end_resp yes_later taken (Reach-Inv Reach-taken)

process_total_test :
    execute_transaction_process yes_later waiting
    ≡ ok (process_total yes_later Reach-waiting refl).0
process_total_test = (process_total yes_later Reach-waiting refl).1

begin_req-refines_example :
    on_begin_req 6 (observe taken)
    ≡ some (observe (begin_req-refines 6 yes_later taken (Reach-Inv Reach-taken) refl).0)
begin_req-refines_example = (begin_req-refines 6 yes_later taken (Reach-Inv Reach-taken) refl).2

process-refines_example :
    on_done (observe waiting)
    ≡ some (
        observe (process-refines yes_later waiting (Reach-Inv Reach-waiting) (λ e. cc) refl refl).0)
process-refines_example =
    (process-refines yes_later waiting (Reach-Inv Reach-waiting) (λ e. cc) refl refl).2

end_resp-refines_example :
    observe (end_resp-refines 5 yes_later begun (Reach-Inv Reach-begun) (λ e. cc)).0
    ≡ (serving 6 none, ended 6 ∷ events begun.calls)
end_resp-refines_example = (end_resp-refines 5 yes_later begun (Reach-Inv Reach-begun) (λ e. cc)).2

process-interleaved_example :
    (begin_execution taken >>= λ u. peq_cb 5 end_resp yes_later u.0) ≡ stop sc_fatal
process-interleaved_example =
    (process-interleaved 6 5 yes_later yes_later taken (Reach-Inv Reach-taken) refl refl).2

Reach-IsServing_example : IsServing begun
Reach-IsServing_example = Reach-IsServing Reach-begun

end_resp_serves_test :
    (end_resp_serves 5 6 yes_later begun
      (Reach-Inv Reach-begun)
      refl
      refl).0.transaction_in_progress
    ≡ some 6
end_resp_serves_test = (end_resp_serves 5 6 yes_later begun (Reach-Inv Reach-begun) refl refl).2

-- 6 waits, and nothing will answer it.
completed-strands_example :
    peq_cb 5 end_resp yes_later (record waiting {
      transaction_in_progress = none;
      done_pending = false;
      calls =
          release 5
          ∷ transport_bw 5 begin_resp
          ∷ set_ok_response 5
          ∷ mem_transport 5
          ∷ waiting.calls;
    })
    ≡ stop sc_fatal
unfolding execute_transaction_process
completed-strands_example =
    (completed-strands at_once waiting 6 (Reach-Inv Reach-waiting) refl refl refl refl).3 5
      yes_later

held-begun : References.Reach 4096 1024 begun
unfolding new peq_cb execute_transaction_process
held-begun =
    References.Reach.later
      (References.Reach.later
        (References.Reach.later References.Reach.fresh
          (References.Step.requested 5 yes_later refl refl))
        (References.Step.requested 6 yes_later refl refl))
      (References.Step.woken yes_later refl refl)

references-IsBalanced_example : IsBalanced begun 6
references-IsBalanced_example = references-IsBalanced 6 held-begun

Reach-IsInOrder_example : 5 ∷ 6 ∷ [] ≡ accepted_requests begun.calls ++ 6 ∷ []
Reach-IsInOrder_example = (Reach-IsInOrder held-begun).all_accepted

to_mem_iff_example : to_mem router 4096 ≡ true
to_mem_iff_example = (to_mem_iff router 4096 (omega arith)).1 (omega arith, omega arith)

-- 4 KB at the top of the address space.
abbrev top_router : TxnRouter
top_router = record router { mem_start_addr = 2 ^ 64 - 4096; mem_size = 4096 }

to_mem_top_example : to_mem top_router (2 ^ 64 - 1) ≡ false
to_mem_top_example = (to_mem_top top_router 5 (2 ^ 64 - 1) 0 begin_req refl).0
