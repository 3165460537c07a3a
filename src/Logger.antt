-- ===== src/Logger.antt =====
-- include/sc_logger.hh and src/sc_logger.cc: the stream that cuts gem5's output into lines, and the
-- reports that are made of them. A text is the list of its bytes. The reports stand in their
-- order, the oldest first.
pub mod Chop
pub mod Stream
pub mod Tests
use Prim.Native.String.{String}
use gem5_wrapper.Prelude.{
  ℕ, zero, suc, ◌+◌, ◌-◌, ◌%◌, ◌^◌, Bool, ◌||◌, Option, none, some, List, [], ◌∷◌, ◌++◌, ◌==◌,
  if◌then◌else◌,
}

-- `SC_REPORT_INFO (name, message)`
pub record Report : Type 0 where
  pub name : String
  pub message : List ℕ

-- The logger with the line that its stream buffer has gathered.
pub record Logger : Type 0 where
  pub line : List ℕ
  pub reports : List Report

unfoldable pub new : Logger
new = record { line = []; reports = [] }

-- One of " \n\r".
unfoldable pub is_cut : ℕ → Bool
is_cut c = c == 32 || c == 10 || c == 13

-- `none` for `npos`
unfoldable pub find_last_not_of : List ℕ → Option ℕ
unfolding is_cut
find_last_not_of [] = none
find_last_not_of (c ∷ text) = elim (find_last_not_of text) [
  | some i ↦ some (suc i)
  | none ↦ if is_cut c then none else some 0
]

-- `npos` is the greatest number of 64 bits.
abbrev pub position : Option ℕ → ℕ
position none = 2 ^ 64 - 1
position (some i) = i

-- `message.erase (from)`
unfoldable pub erase : ℕ → List ℕ → List ℕ
erase zero text = []
erase (suc from) [] = []
erase (suc from) (c ∷ text) = c ∷ erase from text

unfoldable pub chop : List ℕ → List ℕ
unfolding find_last_not_of erase
chop message = erase ((position (find_last_not_of message) + 1) % 2 ^ 64) message

unfoldable pub log_message : String → List ℕ → Logger → Logger
unfolding chop
log_message name message l = record l {
  reports = l.reports ++ record { name = name; message = chop message } ∷ [];
}

unfoldable pub output_line : Logger → Logger
unfolding log_message
output_line l = record (log_message "gem5" l.line l) { line = [] }

-- `none` is EOF.
unfoldable pub overflow : Option ℕ → Logger → Logger
unfolding output_line
overflow none l = l
overflow (some chr) l = if chr == 10 then output_line l else record l { line = l.line ++ chr ∷ [] }

unfoldable pub sync : Logger → Logger
unfolding output_line
sync l = elim l.line [ [] ↦ l | c ∷ line ↦ output_line l ]

-- A buffer without room gives every byte of a text to `overflow`.
unfoldable pub write : List ℕ → Logger → Logger
unfolding overflow
write [] l = l
write (c ∷ text) l = write text (overflow (some c) l)

-- The destructor flushes the stream, and that of the buffer synchronises once more.
unfoldable pub destroy : Logger → Logger
unfolding sync
destroy l = sync (sync l)
