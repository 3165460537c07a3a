-- ===== src/Stats/Visits.antt =====
-- src/stats.cc: which statistics a dump reaches, and as what.
use mathlib.Core.List.{append-nil, append_assoc}
use gem5_wrapper.Prelude.{
  ℕ, ◌≡◌, ◌≢◌, refl, sym, ap, ◌∙◌, Bool, true, false, List, [], ◌∷◌, ◌++◌, arith, if◌then◌else◌,
}
use gem5_wrapper.Stats.{
  Casts, vector2d, Call, init_text, process_dump_queue, begin_output, end_output, enable, prepare,
  visit, warn, stats_prepare, stats_enable, dump_stat, dump_stats, stats_dump,
}

-- What a call can do to a statistic; one that is only warned of counts as dumped.
pub data Part : Type 0 where
  enabled prepared dumped : Part

abbrev pub reached_by : Part → Call → List ℕ
reached_by enabled (enable b s) = s ∷ []
reached_by prepared (prepare b s) = s ∷ []
reached_by dumped (visit k s) = s ∷ []
reached_by dumped (warn s) = s ∷ []
reached_by part c = []

-- The statistics that some calls enable, prepare or dump, in their order.
unfoldable pub reached : Part → List Call → List ℕ
reached part [] = []
reached part (c ∷ calls) = reached_by part c ++ reached part calls

abbrev pub is_begin : Call → Bool
is_begin begin_output = true
is_begin c = false

-- The calls before the output begins.
unfoldable pub before_output : List Call → List Call
before_output [] = []
before_output (c ∷ calls) = let rest = before_output calls in if is_begin c then [] else c ∷ rest

reached-append :
    (part : Part) (a b : List Call) → reached part (a ++ b) ≡ reached part a ++ reached part b
unfolding reached
reached-append part [] b = refl
reached-append part (c ∷ a) b =
    ap (λ (l : List ℕ). reached_by part c ++ l) (reached-append part a b)
    ∙ sym (append_assoc (reached_by part c) (reached part a) (reached part b))

-- The three loops.
enable-reached :
    (casts : Casts) (stats : List ℕ)
    → (reached enabled (stats_enable casts stats) ≡ stats)
      × (reached prepared (stats_enable casts stats) ≡ [])
      × (reached dumped (stats_enable casts stats) ≡ [])
unfolding reached stats_enable
enable-reached casts [] = (refl, refl, refl)
enable-reached casts (s ∷ stats) =
    let (e, p, d) = enable-reached casts stats in (ap (λ (l : List ℕ). s ∷ l) e, p, d)

prepare-reached :
    (casts : Casts) (stats : List ℕ)
    → (reached enabled (stats_prepare casts stats) ≡ [])
      × (reached prepared (stats_prepare casts stats) ≡ stats)
      × (reached dumped (stats_prepare casts stats) ≡ [])
unfolding reached stats_prepare
prepare-reached casts [] = (refl, refl, refl)
prepare-reached casts (s ∷ stats) =
    let (e, p, d) = prepare-reached casts stats in (e, ap (λ (l : List ℕ). s ∷ l) p, d)

dump_stat-reached : (casts : Casts) (s : ℕ) → reached_by dumped (dump_stat casts s) ≡ s ∷ []
unfolding dump_stat
dump_stat-reached casts s = ground arith

dump-reached : (casts : Casts) (stats : List ℕ) → reached dumped (dump_stats casts stats) ≡ stats
unfolding reached dump_stats
dump-reached casts [] = refl
dump-reached casts (s ∷ stats) =
    rw (dump_stat-reached casts s) (ap (λ (l : List ℕ). s ∷ l) (dump-reached casts stats))

before_output-enable :
    (casts : Casts) (stats : List ℕ) (calls : List Call)
    → before_output (stats_enable casts stats ++ calls)
      ≡ stats_enable casts stats ++ before_output calls
unfolding before_output stats_enable
before_output-enable casts [] calls = refl
before_output-enable casts (s ∷ stats) calls =
    ap (λ (l : List Call). enable (casts.is_vector s) s ∷ l)
      (before_output-enable casts stats calls)

before_output-prepare :
    (casts : Casts) (stats : List ℕ) (calls : List Call)
    → before_output (stats_prepare casts stats ++ begin_output ∷ calls) ≡ stats_prepare casts stats
unfolding before_output stats_prepare
before_output-prepare casts [] calls = refl
before_output-prepare casts (s ∷ stats) calls =
    ap (λ (l : List Call). prepare (casts.is_vector s) s ∷ l)
      (before_output-prepare casts stats calls)

-- What a dump does before its output begins.
before_output-dump :
    (casts : Casts) (stats : List ℕ)
    → before_output (stats_dump casts stats)
      ≡ init_text ∷ process_dump_queue ∷ (stats_enable casts stats ++ stats_prepare casts stats)
unfolding before_output stats_dump
before_output-dump casts stats =
    ap (λ (l : List Call). init_text ∷ process_dump_queue ∷ l)
      (ap before_output (append_assoc (stats_enable casts stats) (stats_prepare casts stats) _)
        ∙ before_output-enable casts stats _
        ∙ ap (λ (l : List Call). stats_enable casts stats ++ l)
            (before_output-prepare casts stats _))

both :
    (part : Part) (a b : List Call) {xs ys : List ℕ}
    → reached part a ≡ xs
    → reached part b ≡ ys
    → reached part (a ++ b) ≡ xs ++ ys
both part a b {xs} {ys} e f =
    reached-append part a b
    ∙ ap (λ (l : List ℕ). l ++ reached part b) e
    ∙ ap (λ (l : List ℕ). xs ++ l) f

-- Before the output of a dump begins, each of gem5's statistics has been enabled once and prepared
-- once, in the list's order, and none has been written; and the dump as a whole writes or warns of
-- each of them once, in that order, whatever the casts answer.
pub stats_dump-reached :
    (casts : Casts) (stats : List ℕ)
    → let first = before_output (stats_dump casts stats) in
      (reached enabled first ≡ stats)
      × (reached prepared first ≡ stats)
      × (reached dumped first ≡ [])
      × (reached dumped (stats_dump casts stats) ≡ stats)
unfolding reached stats_dump
stats_dump-reached casts stats =
    let on = stats_enable casts stats in
    let ready = stats_prepare casts stats in
    let (e, p, d) = enable-reached casts stats in
    let (e', p', d') = prepare-reached casts stats in
    let rest = begin_output ∷ (dump_stats casts stats ++ end_output ∷ []) in
    rw (before_output-dump casts stats) (
      both enabled on ready e e' ∙ append-nil stats,
      both prepared on ready p p',
      both dumped on ready d d',
      both dumped (on ++ ready) rest (both dumped on ready d d') (
          both dumped (dump_stats casts stats) (end_output ∷ []) (dump-reached casts stats) refl
          ∙ append-nil stats),
    )

-- No statistic is ever written by the branch for 2d vectors: a statistic that is a vector is taken
-- by the branch before it, and for another one the pointer that the cast starts from is null.
pub dump_stat-vector2d : (casts : Casts) (s t : ℕ) → dump_stat casts s ≢ visit vector2d t
unfolding dump_stat
dump_stat-vector2d casts s t e = ground (arith, e)
