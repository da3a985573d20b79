-- ===== src/Reporter.antt =====
-- src/scan/reporter.hpp and reporter.cpp: the progress bar. `tick` is split where other threads may
-- come between: the count, and the compare-and-exchange loop, whose outcome is one step. What is
-- printed is the text that goes to std::cerr. The product of an `int` and 100 is taken not to overflow.
use zero_trust_public.Base.{
  ℕ, zero, suc, ◌+◌, ◌*◌, ◌/◌, ◌≡◌, refl, ap, ◌∙◌, Bool, true, false, List, [], ◌∷◌, ◌++◌, Bytes,
  codes, Option, none, some, if◌then◌else◌, ltb, length, to_string, arith, Bool-cases, inl, inr,
  length-append,
}

-- The loop of `build_bar`, from `i` on for `rounds` rounds.
unfoldable pub bar_loop : ℕ → ℕ → ℕ → Bytes
bar_loop filled i zero = []
bar_loop filled i (suc rounds) =
    (if ltb i filled then b'#' else b' ') ∷ bar_loop filled (i + 1) rounds

unfoldable pub build_bar : ℕ → ℕ → Bytes
build_bar percent width = codes "[" ++ (bar_loop (width * percent / 100) 0 width ++ codes "]")

-- `last_percent` is none where the source has -1.
pub record CliReporter : Type 0 where
  pub stage_name : Bytes
  pub total : ℕ
  pub completed : ℕ
  pub last_percent : Option ℕ

unfoldable pub begin : Bytes → ℕ → CliReporter → CliReporter × Bytes
begin stage total_items r = (
  record { stage_name = stage; total = total_items; completed = 0; last_percent = none },
  stage ++ (codes " (" ++ (to_string total_items ++ codes " items)\n")),
)

-- `++completed`, with the value.
unfoldable pub count : CliReporter → CliReporter × ℕ
count r = (record r { completed = r.completed + 1 }, r.completed + 1)

unfoldable pub percent_of : ℕ → ℕ → ℕ
percent_of done total = if ltb 0 total then done * 100 / total else 100

unfoldable pub exceeds : ℕ → Option ℕ → Bool
exceeds percent none = true
exceeds percent (some last) = ltb last percent

-- The loop on `last_percent`: it ends with an exchange if the percentage is above the last one,
-- which allows the line to be printed, and changes nothing otherwise.
unfoldable pub publish : ℕ → CliReporter → CliReporter × Bool
publish percent r =
    if exceeds percent r.last_percent
    then (record r { last_percent = some percent }, true)
    else (r, false)

unfoldable pub line_of : ℕ → ℕ → ℕ → Bytes
line_of percent done total =
    codes "\r"
    ++ (build_bar percent 30
        ++ (codes " "
            ++ (to_string percent
                ++ (codes "%  " ++ (to_string done ++ (codes "/" ++ to_string total))))))

-- `tick` where no other thread comes between.
unfoldable pub tick : CliReporter → CliReporter × Bytes
tick r =
    let (counted, done) = count r in
    let percent = percent_of done counted.total in
    let (published, won) = publish percent counted in
    (published, (if won then line_of percent done counted.total else []))

-- `end`
unfoldable finish_line : CliReporter → Bytes
finish_line r =
    codes "\r"
    ++ (build_bar 100 30
        ++ (codes " 100%  "
            ++ (to_string r.total ++ (codes "/" ++ (to_string r.total ++ codes "\n")))))

-- The percentages that are allowed to be printed, of those that threads publish in this order.
abbrev published : List ℕ → CliReporter → List ℕ
published [] r = []
published (p ∷ ps) r = (if (publish p r).1 then p ∷ [] else []) ++ published ps (publish p r).0

-- Each is above the ones before it.
abbrev IncreasesFrom : Option ℕ → List ℕ → Type 0
IncreasesFrom last [] = Unit
IncreasesFrom last (p ∷ ps) = (exceeds p last ≡ true) × IncreasesFrom (some p) ps

-- In whatever order threads publish their percentages, those that are allowed to be printed grow
-- strictly: no line is allowed twice for a percentage, and none for a smaller one than before.
published-IncreasesFrom :
    (ps : List ℕ) (r : CliReporter) → IncreasesFrom r.last_percent (published ps r)
unfolding publish
published-IncreasesFrom [] r = tt
published-IncreasesFrom (p ∷ ps) r = elim (Bool-cases (exceeds p r.last_percent)) [
  | inl e ↦ rw e (e, published-IncreasesFrom ps (record r { last_percent = some p }))
  | inr e ↦ rw e (published-IncreasesFrom ps r)
]

length-bar_loop : (filled i rounds : ℕ) → length (bar_loop filled i rounds) ≡ rounds
unfolding bar_loop
length-bar_loop filled i zero = refl
length-bar_loop filled i (suc rounds) = ap suc (length-bar_loop filled (i + 1) rounds)

-- The bar is as wide as was asked for, whatever the percentage, also one above 100.
length-build_bar : (percent width : ℕ) → length (build_bar percent width) ≡ width + 2
unfolding build_bar
length-build_bar percent width =
    ap suc (length-append (bar_loop (width * percent / 100) 0 width) (codes "]"))
    ∙ rw (length-bar_loop (width * percent / 100) 0 width) (omega arith)
