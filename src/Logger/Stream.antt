-- ===== src/Logger/Stream.antt =====
-- src/sc_logger.cc: the lines that are written, and those that are reported.
use mathlib.Core.List.{append-nil, append_assoc}
use gem5_wrapper.Prelude.{
  ℕ, ◌≡◌, refl, sym, ap, ◌∙◌, false, some, List, [], ◌∷◌, ◌++◌, arith, contains, ◌==◌,
}
use gem5_wrapper.Logger.{
  Report, Logger, chop, write, sync, overflow, output_line, log_message, destroy,
}

-- The report of a line of gem5.
abbrev pub report : List ℕ → Report
report line = record { name = "gem5"; message = chop line }

-- The reports of some lines.
abbrev pub reports_of : List (List ℕ) → List Report
reports_of [] = []
reports_of (line ∷ lines) = report line ∷ reports_of lines

-- Lines, each with its newline, and what stands behind the last newline.
abbrev pub joined : List (List ℕ) → List ℕ → List ℕ
joined [] last = last
joined (line ∷ lines) last = line ++ 10 ∷ joined lines last

-- What stands behind the last newline is a line of its own, unless it is empty.
abbrev pub unfinished : List ℕ → List (List ℕ)
unfinished [] = []
unfinished (c ∷ line) = (c ∷ line) ∷ []

unfoldable pub AreLines : List (List ℕ) → Type 0
AreLines [] = Unit {0}
AreLines (line ∷ lines) = (contains 10 line ≡ false) × AreLines lines

abbrev logger : List ℕ → List Report → Logger
logger line reports = record { line = line; reports = reports }

overflow_plain :
    (c : ℕ) (line : List ℕ) (r : List Report)
    → (c == 10) ≡ false
    → overflow (some c) (logger line r) ≡ logger (line ++ c ∷ []) r
unfolding overflow
overflow_plain c line r e = rw e refl

-- Bytes other than the newline are gathered.
write-line :
    (text more line : List ℕ) (r : List Report)
    → contains 10 text ≡ false
    → write (text ++ more) (logger line r) ≡ write more (logger (line ++ text) r)
unfolding write
write-line [] more line r h = rw (append-nil line) refl
write-line (c ∷ text) more line r h =
    ap (write (text ++ more)) (overflow_plain c line r (ground (arith, h)))
    ∙ write-line text more (line ++ c ∷ []) r (ground (arith, h))
    ∙ ap (λ (l : List ℕ). write more (logger l r)) (append_assoc line (c ∷ []) text)

write-joined :
    (lines : List (List ℕ)) (last : List ℕ) (r : List Report)
    → AreLines lines
    → write (joined lines last) (logger [] r) ≡ write last (logger [] (r ++ reports_of lines))
unfolding AreLines write overflow output_line log_message
write-joined [] last r h = rw (append-nil r) refl
write-joined (line ∷ lines) last r h =
    write-line line (10 ∷ joined lines last) [] r h.0
    ∙ write-joined lines last (r ++ report line ∷ []) h.1
    ∙ ap (λ (l : List Report). write last (logger [] l))
        (append_assoc r (report line ∷ []) (reports_of lines))

written :
    (lines : List (List ℕ)) (last : List ℕ) (r : List Report)
    → AreLines lines
    → contains 10 last ≡ false
    → write (joined lines last) (logger [] r) ≡ logger last (r ++ reports_of lines)
unfolding write
written lines last r h e =
    write-joined lines last r h
    ∙ ap (λ (text : List ℕ). write text (logger [] (r ++ reports_of lines))) (sym (append-nil last))
    ∙ write-line last [] [] (r ++ reports_of lines) e

sync_last :
    (last : List ℕ) (r : List Report)
    → sync (logger last r) ≡ logger [] (r ++ reports_of (unfinished last))
unfolding sync output_line log_message
sync_last [] r = rw (append-nil r) refl
sync_last (c ∷ line) r = refl

split : (a b : List (List ℕ)) → reports_of a ++ reports_of b ≡ reports_of (a ++ b)
split [] b = refl
split (line ∷ a) b = ap (λ (l : List Report). report line ∷ l) (split a b)

together :
    (lines : List (List ℕ)) (last : List ℕ) (r : List Report)
    → (r ++ reports_of lines) ++ reports_of (unfinished last)
      ≡ r ++ reports_of (lines ++ unfinished last)
together lines last r =
    append_assoc r (reports_of lines) (reports_of (unfinished last))
    ∙ ap (λ (l : List Report). r ++ l) (split lines (unfinished last))

destroyed : (l : Logger) (q : List Report) → sync l ≡ logger [] q → destroy l ≡ logger [] q
unfolding destroy sync
destroyed l q e = ap sync e

-- A logger that has gathered nothing is given some lines, each with its newline, and then a text
-- without a newline. Once it is synchronised, which the destructor does too, it has gathered
-- nothing and has reported exactly these lines, chopped and in their order, the text behind the
-- last newline included unless it is empty.
pub write-sync :
    (lines : List (List ℕ)) (last : List ℕ) (r : List Report)
    → AreLines lines
    → contains 10 last ≡ false
    → let l : Logger = record { line = []; reports = r } in
      let done : Logger = record {
        line = [];
        reports = r ++ reports_of (lines ++ unfinished last);
      } in
      (sync (write (joined lines last) l) ≡ done) × (destroy (write (joined lines last) l) ≡ done)
write-sync lines last r h e =
    let synced =
      ap sync (written lines last r h e)
      ∙ sync_last last (r ++ reports_of lines)
      ∙ ap (logger []) (together lines last r) in
    (synced, destroyed _ _ synced)
