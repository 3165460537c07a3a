-- ===== src/SimControl/Registry.antt =====
-- src/sim_control.cc: the registrations, and what is looked up under a name.
use Prim.Native.String.{String}
use text.Mathlib.Text.{◌==◌ as str_eq}
use text.Mathlib.TextEquality.{eq_iff}
use text.Mathlib.TextPositions.{eq_refl}
use gem5_wrapper.Prelude.{
  ℕ, ◌≡◌, refl, ap, inl, inr, Option, none, some, List, [], ◌∷◌, arith, if◌then◌else◌, Outcome, ok,
  stop, need, ◌∙◌, ◌>>=◌, >>=-eq-ok, exited, Option-cases, Bool-cases,
}
use gem5_wrapper.Prelude.Names.{Names, find_name, set_name, find-set_name}
use gem5_wrapper.SlavePort.State.{ScSlavePort, update}
use gem5_wrapper.SlavePort.Sockets.{update_core_port_map}
use gem5_wrapper.SimControl.{
  Gem5SimControl, External, tlm_slave, tlm_master, register, register_slave_port,
  register_master_port, get_external_port, create_all, get_slave_port, get_master_port,
}

unfoldable pub IsDistinct : Names ℕ → Type 0
IsDistinct [] = Unit {0}
IsDistinct ((name, port) ∷ r) = (find_name name r ≡ none) × IsDistinct r

register_all : Names ℕ → Names ℕ → Outcome (Names ℕ)
unfolding register
register_all [] m = ok m
register_all ((name, port) ∷ r) m = register name port m >>= λ m'. register_all r m'

-- A registration adds the one name, and no other name finds another port than before.
register-find :
    (name : String) (port : ℕ) (m : Names ℕ) (q : String) {m' : Names ℕ}
    → register name port m ≡ ok m'
    → find_name q m' ≡ (if str_eq name q then some port else find_name q m)
unfolding register
register-find name port m q {m'} e =
    let shape : m' ≡ set_name name port m = ground arith in rw shape (find-set_name q name port m)

register-fresh :
    (name : String) (port : ℕ) (m : Names ℕ) {m' : Names ℕ}
    → register name port m ≡ ok m'
    → find_name name m ≡ none
unfolding register
register-fresh name port m e = ground arith

-- A name that is there stays with its port.
register_all-keeps :
    (r m : Names ℕ) (q : String) (p : ℕ) {m' : Names ℕ}
    → register_all r m ≡ ok m'
    → find_name q m ≡ some p
    → find_name q m' ≡ some p
unfolding register_all
register_all-keeps [] m q p e h = cc
register_all-keeps ((name, port) ∷ r) m q p e h =
    let (m1, first, rest) = >>=-eq-ok (register name port m) (register_all r) e in
    register_all-keeps r m1 q p rest (
      ground (
        arith,
        register-find name port m q first,
        eq_iff name q,
        register-fresh name port m first,
        h,
      ))

register_all-find :
    (r m : Names ℕ) (q : String) {m' : Names ℕ}
    → register_all r m ≡ ok m'
    → find_name q m ≡ none
    → find_name q m' ≡ find_name q r
unfolding register_all find_name
register_all-find [] m q e h = cc
register_all-find ((name, port) ∷ r) m q e h =
    let (m1, first, rest) = >>=-eq-ok (register name port m) (register_all r) e in
    let found = register-find name port m q first in
    elim (Bool-cases (str_eq name q)) [
      | inl d ↦ rw d (register_all-keeps r m1 q port rest (ground (arith, found)))
      | inr d ↦ rw d (register_all-find r m1 q rest (ground (arith, found)))
    ]

register_all-ok :
    (r m : Names ℕ)
    → IsDistinct r
    → ((q : String) (p : ℕ) → find_name q r ≡ some p → find_name q m ≡ none)
    → (m' : Names ℕ) × (register_all r m ≡ ok m')
unfolding register_all register find_name IsDistinct
register_all-ok [] m d fresh = (m, refl)
register_all-ok ((name, port) ∷ r) m d fresh =
    let absent : find_name name m ≡ none = fresh name port (rw (eq_refl name) refl) in
    rw absent (
      register_all-ok r (set_name name port m) d.1
        (λ q p e. ground (arith, find-set_name q name port m, eq_iff name q, fresh q p, e, d.0)))

-- The slave ports among the ports that gem5 makes, and the master ports.
unfoldable pub slaves_of : List External → Names ℕ
slaves_of [] = []
slaves_of (tlm_slave name port ∷ r) = (name, port) ∷ slaves_of r
slaves_of (tlm_master name port ∷ r) = slaves_of r

unfoldable pub masters_of : List External → Names ℕ
masters_of [] = []
masters_of (tlm_slave name port ∷ r) = masters_of r
masters_of (tlm_master name port ∷ r) = (name, port) ∷ masters_of r

-- The store with each slave port new.
unfoldable pub made : ScSlavePort → List External → (ℕ → ScSlavePort) → ℕ → ScSlavePort
made fresh [] store = store
made fresh (tlm_slave name port ∷ r) store = made fresh r (update store port fresh)
made fresh (tlm_master name port ∷ r) store = made fresh r store

-- The two maps are filled independently of each other.
create_all-apart :
    (fresh : ScSlavePort) (ports : List External) (c : Gem5SimControl) (store : ℕ → ScSlavePort)
    {slaves masters : Names ℕ}
    → register_all (slaves_of ports) c.slave_ports ≡ ok slaves
    → register_all (masters_of ports) c.master_ports ≡ ok masters
    → create_all fresh ports (c, store)
      ≡ ok (record c { slave_ports = slaves; master_ports = masters }, made fresh ports store)
unfolding create_all get_external_port register_slave_port register_master_port register_all
    slaves_of masters_of made
create_all-apart fresh [] c store e f = cc
create_all-apart fresh (tlm_slave name port ∷ r) c store e f =
    let (m, first, rest) =
      >>=-eq-ok (register name port c.slave_ports) (register_all (slaves_of r)) e in
    rw first
      (create_all-apart fresh r (record c { slave_ports = m }) (update store port fresh) rest f)
create_all-apart fresh (tlm_master name port ∷ r) c store e f =
    let (m, first, rest) =
      >>=-eq-ok (register name port c.master_ports) (register_all (masters_of r)) f in
    rw first (create_all-apart fresh r (record c { master_ports = m }) store e rest)

-- What a lookup comes to that finds a port, or none.
abbrev pub looked_up :
    Names (List ℕ) → (ℕ → ScSlavePort) → Option ℕ → Outcome (ℕ × (ℕ → ScSlavePort))
looked_up cores store none = stop exited
looked_up cores store (some p) = ok (p, update store p (update_core_port_map cores (store p)))

pub get_slave_port_lem :
    (c : Gem5SimControl) (store : ℕ → ScSlavePort) (q : String)
    → get_slave_port q c store ≡ looked_up c.cpu_ports store (find_name q c.slave_ports)
unfolding get_slave_port
get_slave_port_lem c store q = elim (Option-cases (find_name q c.slave_ports)) [
  | inl e ↦ rw e refl
  | inr (p, e) ↦ rw e refl
]

pub get_slave_port-found :
    (c : Gem5SimControl) (store : ℕ → ScSlavePort) (q : String) {cores : Names (List ℕ)}
    {o : Option ℕ}
    → c.cpu_ports ≡ cores
    → find_name q c.slave_ports ≡ o
    → get_slave_port q c store ≡ looked_up cores store o
get_slave_port-found c store q {cores} {o} e f =
    get_slave_port_lem c store q
    ∙ ap (λ (m : Names (List ℕ)). looked_up m store (find_name q c.slave_ports)) e
    ∙ ap (looked_up cores store) f

-- The two maps that are filled from nothing.
pub create_all-find :
    (fresh : ScSlavePort) (ports : List External) (c : Gem5SimControl) (store : ℕ → ScSlavePort)
    → IsDistinct (slaves_of ports)
    → IsDistinct (masters_of ports)
    → c.slave_ports ≡ []
    → c.master_ports ≡ []
    → (c' : Gem5SimControl) × (create_all fresh ports (c, store) ≡ ok (c', made fresh ports store))
      × (c'.cpu_ports ≡ c.cpu_ports)
      × ((q : String) → find_name q c'.slave_ports ≡ find_name q (slaves_of ports))
      × ((q : String) → find_name q c'.master_ports ≡ find_name q (masters_of ports))
unfolding find_name
create_all-find fresh ports c store s t e f =
    let no_slave : (q : String) → find_name q c.slave_ports ≡ none = λ q. rw e refl in
    let no_master : (q : String) → find_name q c.master_ports ≡ none = λ q. rw f refl in
    let (m, slaves) = register_all-ok (slaves_of ports) c.slave_ports s (λ q p h. no_slave q) in
    let (n, masters) = register_all-ok (masters_of ports) c.master_ports t (λ q p h. no_master q) in
    (
      record c { slave_ports = m; master_ports = n },
      create_all-apart fresh ports c store slaves masters,
      refl,
      λ q. register_all-find (slaves_of ports) c.slave_ports q slaves (no_slave q),
      λ q. register_all-find (masters_of ports) c.master_ports q masters (no_master q),
    )

-- Where the slave ports have distinct names and the master ports have, and the control has no
-- ports yet, all ports that gem5 asks for are made and registered. Afterwards the control looks up
-- each name as the port that was made for it, and tells a slave port the requestors of the cores;
-- and any other name makes it exit.
pub create_all-get :
    (fresh : ScSlavePort) (ports : List External) (c : Gem5SimControl) (store : ℕ → ScSlavePort)
    → IsDistinct (slaves_of ports)
    → IsDistinct (masters_of ports)
    → c.slave_ports ≡ []
    → c.master_ports ≡ []
    → (c' : Gem5SimControl) × (create_all fresh ports (c, store) ≡ ok (c', made fresh ports store))
      × ((q : String) (now : ℕ → ScSlavePort)
          → get_slave_port q c' now ≡ looked_up c.cpu_ports now (find_name q (slaves_of ports)))
      × ((q : String) → get_master_port q c' ≡ need (find_name q (masters_of ports)) exited)
unfolding get_master_port
create_all-get fresh ports c store s t e f =
    let (c', done, cores, slaves, masters) = create_all-find fresh ports c store s t e f in
    (
      c',
      done,
      λ q now. get_slave_port-found c' now q cores (slaves q),
      λ q. ap (λ (o : Option ℕ). need o exited) (masters q),
    )

-- A second registration under a name makes the program exit, whatever the port is.
pub register_slave_port-twice :
    (name : String) (port other : ℕ) (c : Gem5SimControl) {c' : Gem5SimControl}
    → register_slave_port name port c ≡ ok c'
    → register_slave_port name other c' ≡ stop exited
unfolding register_slave_port register
register_slave_port-twice name port other c {c'} e =
    let (m, first, rest) =
      >>=-eq-ok (register name port c.slave_ports) (λ m. ok (record c { slave_ports = m })) e in
    let found : find_name name c'.slave_ports ≡ some port =
      ground (arith, register-find name port c.slave_ports name first, eq_refl name, rest) in
    rw found refl
