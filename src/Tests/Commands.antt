-- ===== src/Tests/Commands.antt =====
-- A command line that is given as names with their values.
use uip.Base.{
  ℕ, ◌≡◌, refl, List, [], ◌∷◌, Option, none, some, Bool, true, false, not, ◌&&◌, ◌||◌, ◌==◌, Result,
  ok, err, Elem, here, there, arith, Bool-cases, inl, inr, subst, if◌then◌else◌,
}
use uip.Bin.Clap.{Arg, App, Clap}
use uip.Bin.Uipcat.Arguments.{Mode, listens}
use uip.Bin.Uipcat.Command.{run, IsComplete, run-IsComplete}
use Prim.Native.String.{String}
use Prim.Native.Char.{code}

abbrev codes : String → List ℕ
codes String.[] = []
codes (String.◌∷◌ c s) = code c ∷ codes s

abbrev Parsed : Type 0
Parsed = List (List ℕ × List ℕ)

abbrev pairs : List (List ℕ) → Parsed
pairs [] = []
pairs (name ∷ []) = []
pairs (name ∷ value ∷ rest) = (name, value) ∷ pairs rest

abbrev same : List ℕ → List ℕ → Bool
same [] [] = true
same [] (d ∷ ds) = false
same (c ∷ cs) [] = false
same (c ∷ cs) (d ∷ ds) = c == d && same cs ds

abbrev lookup : List ℕ → Parsed → Option (List ℕ)
lookup name [] = none
lookup name ((n, v) ∷ m) = let rest = lookup name m in if same n name then some v else rest

abbrev value_of : String → Parsed → Option (List ℕ)
value_of name m = lookup (codes name) m

abbrev is_some : Option (List ℕ) → Bool
is_some none = false
is_some (some v) = true

abbrev is_present : String → Parsed → Bool
is_present name m = is_some (value_of name m)

abbrev unless : Option String → Parsed → Bool
unless none m = true
unless (some other) m = is_present other m

abbrev fits : Arg → Parsed → Bool
fits a m =
    (not a.required || is_present a.name m) && (is_present a.name m || unless a.required_unless m)

abbrev all_fit : List Arg → Parsed → Bool
all_fit [] m = true
all_fit (a ∷ rest) m = fits a m && all_fit rest m

abbrev get_matches : App → List (List ℕ) → Result Parsed (Unit {0})
get_matches app words = if all_fit app.args (pairs words) then ok (pairs words) else err tt

Elem-fits :
    (a : Arg) (args : List Arg) (m : Parsed) → Elem a args → all_fit args m ≡ true → fits a m ≡ true
Elem-fits a _ m (here) h = ground arith
Elem-fits a _ m (there e) h = Elem-fits a _ m e (ground arith)

accepted :
    (app : App) (words : List (List ℕ)) (m : Parsed)
    → get_matches app words ≡ ok m
    → all_fit app.args m ≡ true
accepted app words m e = elim (Bool-cases (all_fit app.args (pairs words))) [
  | inl t ↦
      let kept : pairs words ≡ m = let e' = rw t at e in cc in
      subst (λ x. all_fit app.args x ≡ true) kept t
  | inr f ↦ let e' = rw f at e in absurd (refused m e')
]
  where
    refused : (m : Parsed) → ◌≡◌ {A = Result Parsed (Unit {0})} (err tt) (ok m) → ⊥
    refused m q = cc

found : (v : Option (List ℕ)) → is_some v ≡ true → (w : List ℕ) × (v ≡ some w)
found none h = absurd (cc)
found (some v) h = (v, refl)

fit_required :
    (a : Arg) (m : Parsed) → a.required ≡ true → fits a m ≡ true → is_present a.name m ≡ true
fit_required a m r h = ground arith

fit_unless :
    (a : Arg) (other : String) (m : Parsed)
    → a.required_unless ≡ some other
    → is_present other m ≡ false
    → fits a m ≡ true
    → is_present a.name m ≡ true
fit_unless a other m r o h = unless_absent (is_present a.name m) a.required_unless m r o h
  where
    unless_absent :
        (p : Bool) (u : Option String) (m : Parsed)
        → u ≡ some other
        → is_present other m ≡ false
        → ((not a.required || p) && (p || unless u m)) ≡ true
        → p ≡ true
    unless_absent true u m r o h = refl
    unless_absent false none m r o h = absurd (cc)
    unless_absent false (some x) m r o h = ground arith

abbrev toy : Clap
toy = record {
  ArgMatches = Parsed;
  get_matches = get_matches;
  value_of = value_of;
  is_present = is_present;
  subcommand_name = λ m. none;
  get_matches-required =
      λ app words m a e i r. fit_required a m r (Elem-fits a app.args m i (accepted app words m e));
  get_matches-required_unless = λ app words m a other e i r o.
      fit_unless a other m r o (Elem-fits a app.args m i (accepted app words m e));
  get_matches-value_of = λ app words m a e i t p. found (value_of a.name m) p;
}

-- `--listen`, `--socket` with `/s`, and `--port` with `80`.
abbrev command : List (List ℕ)
command = codes "listen" ∷ [] ∷ codes "socket" ∷ codes "/s" ∷ codes "port" ∷ codes "80" ∷ []

runs : run toy command ≡ some (listens (codes "/s") 80)
unfolding run uip.Bin.Uipcat.Arguments.main uip.Bin.Uipcat.Arguments.parse_u16
    uip.Bin.Uipcat.Arguments.decimal_digits
runs = refl

run-IsComplete_example : IsComplete (listens (codes "/s") 80)
run-IsComplete_example = run-IsComplete toy command (listens (codes "/s") 80) runs
