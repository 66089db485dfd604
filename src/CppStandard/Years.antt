-- ===== src/CppStandard/Years.antt =====
-- The years that cpp_standard.rs reads.
use autocxx.Prelude.{
  ℕ, ◌+◌, ◌≤◌, ◌<◌, ◌≡◌, refl, Bool, true, false, List, [], ◌∷◌, ◌++◌, Option, none, some, Text,
  codes, is_digit, leb, ◌&&◌, ◌-◌, ◌*◌, arith, Bool-cases, inl, inr, if◌then◌else◌, strip_prefix,
  list_eq, nat_eq, ◌==◌,
}
use autocxx.CppStandard.{
  or_else, two_digit_year, year_of_digits, standard_year, Expected, argument, value, standard, Kind,
  driver_mode, takes_a_value, names, standard_follows, irrelevant, kind_of_argument, year_from,
  parse_standard_year,
}

abbrev pub IsYear : Option ℕ → Type 0
IsYear none = Unit
IsYear (some year) = (1990 ≤ year) × (year < 2090)

two_digit_year-IsYear : (digits : Text) → IsYear (two_digit_year digits)
unfolding two_digit_year
two_digit_year-IsYear [] = tt
two_digit_year-IsYear (c ∷ []) = tt
two_digit_year-IsYear (c ∷ d ∷ []) = elim (Bool-cases (is_digit c && is_digit d)) [
  | inr other ↦ rw other tt
  | inl digits ↦
      let tens : c ≤ b'9' = ground arith in
      let ones : d ≤ b'9' = ground arith in
      elim (Bool-cases (leb 90 ((c - b'0') * 10 + (d - b'0')))) [
        | inl late ↦
            let from : 90 ≤ (c - b'0') * 10 + (d - b'0') = ground arith in
            rw (digits, late) (omega (arith, from, tens, ones), omega (arith, from, tens, ones))
        | inr early ↦
            let below : (c - b'0') * 10 + (d - b'0') < 90 = ground arith in
            rw (digits, early) (omega (arith, below), omega (arith, below))
      ]
]
two_digit_year-IsYear (c ∷ d ∷ e ∷ digits) = tt

if_IsYear : (b : Bool) (x y : Option ℕ) → IsYear x → IsYear y → IsYear (if b then x else y)
if_IsYear true x y a b = a
if_IsYear false x y a b = b

year_of_digits-IsYear : (digits : Text) → IsYear (year_of_digits digits)
unfolding year_of_digits
year_of_digits-IsYear digits =
    let later = two_digit_year-IsYear digits in
    if_IsYear (digits == codes "0x") (some 2011) _ (omega arith, omega arith)
      (if_IsYear (digits == codes "1y") (some 2014) _ (omega arith, omega arith)
        (if_IsYear (digits == codes "1z") (some 2017) _ (omega arith, omega arith)
          (if_IsYear (digits == codes "2a") (some 2020) _ (omega arith, omega arith)
            (if_IsYear (digits == codes "2b") (some 2023) _ (omega arith, omega arith)
              (if_IsYear (digits == codes "2c") (some 2026) _ (omega arith, omega arith) later)))))

-- The year of a standard, where there is one, is from 1990 to 2089, whatever its name.
pub standard_year-IsYear : (name : Text) → IsYear (standard_year name)
unfolding standard_year
standard_year-IsYear name =
    at (or_else (strip_prefix (codes "c++") name) (strip_prefix (codes "gnu++") name)) refl
  where
    at :
        (o : Option Text)
        → or_else (strip_prefix (codes "c++") name) (strip_prefix (codes "gnu++") name) ≡ o
        → IsYear (standard_year name)
    at none e = rw (standard_year, e) tt
    at (some digits) e = rw (standard_year, e) (year_of_digits-IsYear digits)

-- What is expected behind arguments, where reading them does not stop.
abbrev pub reads : Expected → List Text → Option Expected
reads e [] = some e
reads value (arg ∷ args) = reads argument args
reads standard (arg ∷ args) = reads argument args
reads argument (arg ∷ args) = elim (kind_of_argument arg) [
  | driver_mode is_gcc_like ↦ let rest = reads argument args in if is_gcc_like then rest else none
  | takes_a_value ↦ reads value args
  | names name ↦ reads argument args
  | standard_follows ↦ reads standard args
  | irrelevant ↦ reads argument args
]

-- Arguments that name no standard, with the values that some of them take.
pub data NamesNone : List Text → Type 0 where
  end : NamesNone []
  passed_over :
      {a : Text} {args : List Text}
      → kind_of_argument a ≡ irrelevant
      → NamesNone args
      → NamesNone (a ∷ args)
  gcc_like :
      {a : Text} {args : List Text}
      → kind_of_argument a ≡ driver_mode true
      → NamesNone args
      → NamesNone (a ∷ args)
  valued :
      {a v : Text} {args : List Text}
      → kind_of_argument a ≡ takes_a_value
      → NamesNone args
      → NamesNone (a ∷ v ∷ args)
  value_missing : {a : Text} → kind_of_argument a ≡ takes_a_value → NamesNone (a ∷ [])

-- The three ways to name a standard.
pub data NamesStandard (name : Text) : List Text → Type 0 where
  short : NamesStandard name ((codes "-std=" ++ name) ∷ [])
  long : NamesStandard name ((codes "--std=" ++ name) ∷ [])
  separate : NamesStandard name (codes "--std" ∷ name ∷ [])

year_from-NamesNone :
    (year : Option ℕ) {args : List Text} → NamesNone args → year_from argument year args ≡ year
unfolding year_from
year_from-NamesNone year end = refl
year_from-NamesNone year (passed_over is rest) = rw (is, year_from) (year_from-NamesNone year rest)
year_from-NamesNone year (gcc_like is rest) = rw (is, year_from) (year_from-NamesNone year rest)
year_from-NamesNone year (valued is rest) = rw (is, year_from) (year_from-NamesNone year rest)
year_from-NamesNone year (value_missing is) = rw (is, year_from) refl

year_from-NamesStandard :
    (year : Option ℕ) (name : Text) {arg behind : List Text}
    → NamesStandard name arg
    → NamesNone behind
    → year_from argument year (arg ++ behind) ≡ standard_year name
unfolding year_from kind_of_argument
year_from-NamesStandard year name short rest = year_from-NamesNone (standard_year name) rest
year_from-NamesStandard year name long rest = year_from-NamesNone (standard_year name) rest
year_from-NamesStandard year name separate rest = year_from-NamesNone (standard_year name) rest

through_kind :
    (a : Text) (before rest : List Text) (year target : Option ℕ) (k : Kind)
    → kind_of_argument a ≡ k
    → ((e : Expected) (year : Option ℕ)
        → reads e before ≡ some argument
        → year_from e year (before ++ rest) ≡ target)
    → reads argument (a ∷ before) ≡ some argument
    → year_from argument year (a ∷ before ++ rest) ≡ target
unfolding year_from kind_of_argument
through_kind a before rest year target (driver_mode true) is ih through =
    rw (is, year_from) (ih argument year (rw is at through))
through_kind a before rest year target (driver_mode false) is ih through = cc (rw is at through)
through_kind a before rest year target takes_a_value is ih through =
    rw (is, year_from) (ih value year (rw is at through))
through_kind a before rest year target (names name) is ih through =
    rw (is, year_from) (ih argument (standard_year name) (rw is at through))
through_kind a before rest year target standard_follows is ih through =
    rw (is, year_from) (ih standard year (rw is at through))
through_kind a before rest year target irrelevant is ih through =
    rw (is, year_from) (ih argument year (rw is at through))

-- What is read last decides, whatever was read before.
year_from-through :
    (e : Expected) (year : Option ℕ) (before rest : List Text) (target : Option ℕ)
    → reads e before ≡ some argument
    → ((year : Option ℕ) → year_from argument year rest ≡ target)
    → year_from e year (before ++ rest) ≡ target
unfolding year_from
year_from-through argument year [] rest target through decides = decides year
year_from-through value year [] rest target through decides = cc
year_from-through standard year [] rest target through decides = cc
year_from-through value year (a ∷ before) rest target through decides =
    year_from-through argument year before rest target through decides
year_from-through standard year (a ∷ before) rest target through decides =
    year_from-through argument (standard_year a) before rest target through decides
year_from-through argument year (a ∷ before) rest target through decides =
    through_kind a before rest year target (kind_of_argument a) refl
      (λ e year through. year_from-through e year before rest target through decides) through

-- The last standard that the arguments of clang name, in any of the three spellings, is the one
-- that is obeyed, even where it is one that is not recognised. Before it may stand any arguments
-- that name no driver mode of another kind and do not take it for a value; behind it any that name
-- no such mode and no standard, where the value of an option names none, whatever it looks like.
pub last_standard_wins :
    (autocxx_clang_args env_args extra_clang_args before arg behind : List Text) (name : Text)
    → autocxx_clang_args ++ (extra_clang_args ++ env_args) ≡ before ++ (arg ++ behind)
    → reads argument before ≡ some argument
    → NamesStandard name arg
    → NamesNone behind
    → parse_standard_year autocxx_clang_args env_args extra_clang_args ≡ standard_year name
unfolding parse_standard_year
last_standard_wins autocxx_clang_args env_args extra_clang_args before arg behind name all through
      is rest =
    rw all (
      year_from-through argument none before (arg ++ behind) (standard_year name) through
        (λ year. year_from-NamesStandard year name is rest))
