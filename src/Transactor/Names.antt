-- ===== src/Transactor/Names.antt =====
-- src/slave_transactor.cc: the names of the sockets.
use Prim.Native.String.{String, ◌++◌ as append}
use text.Mathlib.Text.{◌==◌ as str_eq}
use text.Mathlib.TextEquality.{eq_iff}
use text.Mathlib.TextLemmas.{append_cancel_left}
use gem5_wrapper.Prelude.{
  ℕ, zero, suc, ◌+◌, ◌≤◌, ◌%◌, ◌^◌, ◌<◌, ◌≡◌, ◌≢◌, refl, true, false, sym, ap, ◌∙◌, some, List, [],
  ◌∷◌, ◌++◌, arith, ltb, length, get_elem?, ok, stop, assertion,
}
use gem5_wrapper.Prelude.Decimal.{to_string, to_string_inj}
use gem5_wrapper.Transactor.{
  Transactor, create_socket, init_sockets, new_multi, get_name_for_new_socket,
}
use mathlib.Core.List.{append-nil, append_assoc}

-- The names of `n` sockets, numbered from `i` on.
unfoldable pub names_from : String → ℕ → ℕ → List String
names_from name i zero = []
names_from name i (suc n) = append name (to_string i) ∷ names_from name (i + 1) n

init_sockets_lem :
    (rounds : ℕ) (t : Transactor)
    → t.count + rounds ≤ t.multi.socket_num
    → t.multi.socket_num < 2 ^ 32
    → init_sockets rounds t
      ≡ ok (record t {
        count = t.count + rounds;
        sockets = t.sockets ++ names_from t.port_name t.count rounds;
      })
unfolding init_sockets create_socket get_name_for_new_socket names_from
init_sockets_lem zero t l w =
    ap (λ (l : List String). ok (record t { sockets = l })) (sym (append-nil t.sockets))
    ∙ ap (λ (k : ℕ). ok (record t { count = k; sockets = t.sockets ++ [] })) (omega arith)
init_sockets_lem (suc rounds) t l w =
    let name = append t.port_name (to_string t.count) in
    let room : ltb t.count t.multi.socket_num ≡ true = ground arith in
    let small : (t.count + 1) % 2 ^ 32 ≡ t.count + 1 = omega arith in
    let sum : t.count + 1 + rounds ≡ t.count + suc rounds = omega arith in
    let rest = names_from t.port_name (t.count + 1) rounds in
    rw room (
      rw small (
        init_sockets_lem rounds (record t { count = t.count + 1; sockets = t.sockets ++ name ∷ [] })
          (omega arith) w
        ∙ ap (λ (l : List String). ok (record t { count = t.count + 1 + rounds; sockets = l }))
            (append_assoc t.sockets (name ∷ []) rest)
        ∙ ap (λ (k : ℕ). ok (record t { count = k; sockets = t.sockets ++ name ∷ rest })) sum))

length-names_from : (name : String) (i n : ℕ) → length (names_from name i n) ≡ n
unfolding names_from
length-names_from name i zero = refl
length-names_from name i (suc n) = ap suc (length-names_from name (i + 1) n)

get_elem?-names_from :
    (name : String) (i n k : ℕ) {s : String}
    → get_elem? (names_from name i n) k ≡ some s
    → s ≡ append name (to_string (i + k))
unfolding names_from
get_elem?-names_from name i zero k e = absurd (cc)
get_elem?-names_from name i (suc n) zero {s} e = let z : i + 0 ≡ i = omega arith in rw z (cc)
get_elem?-names_from name i (suc n) (suc k) e =
    let z : i + 1 + k ≡ i + suc k = omega arith in
    get_elem?-names_from name (i + 1) n k e ∙ ap (λ (j : ℕ). append name (to_string j)) z

-- Under a name that is not empty a transactor is made with as many sockets as it was asked for, no
-- two of them have the same name, and one more socket fails an assertion.
pub new_multi-sockets :
    (port_name : String) (socket_num : ℕ)
    → port_name ≢ ""
    → socket_num < 2 ^ 32
    → (t : Transactor) × (new_multi port_name socket_num ≡ ok t)
      × (length t.sockets ≡ socket_num)
      × ((i j : ℕ) (name : String)
          → get_elem? t.sockets i ≡ some name
          → get_elem? t.sockets j ≡ some name
          → i ≡ j)
      × (create_socket t ≡ stop assertion)
unfolding new_multi create_socket get_name_for_new_socket
new_multi-sockets port_name socket_num n w =
    let named : str_eq port_name "" ≡ false = ground (arith, eq_iff port_name "") in
    let empty : Transactor = record {
      port_name = port_name;
      multi = record { socket_num = socket_num; socket_core_map = [] };
      count = 0;
      sockets = [];
    } in
    (
      record empty { count = 0 + socket_num; sockets = names_from port_name 0 socket_num },
      rw named (init_sockets_lem socket_num empty (omega arith) w),
      length-names_from port_name 0 socket_num,
      λ i j name e f.
          let same : append port_name (to_string (0 + i)) ≡ append port_name (to_string (0 + j)) =
            sym (get_elem?-names_from port_name 0 socket_num i e)
            ∙ get_elem?-names_from port_name 0 socket_num j f in
          omega (
            arith,
            to_string_inj (0 + i) (0 + j)
                (append_cancel_left port_name (to_string (0 + i)) (to_string (0 + j)) same),
          ),
      ground arith,
    )
