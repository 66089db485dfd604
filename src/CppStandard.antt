-- ===== src/CppStandard.antt =====
-- engine/src/cpp_standard.rs: which C++ standard the arguments of clang name.
pub mod Years
pub mod Tests
use autocxx.Prelude.{
  ℕ, ◌+◌, ◌-◌, ◌*◌, Bool, true, false, ◌&&◌, List, [], ◌∷◌, ◌++◌, Option, none, some, map, contains,
  Text, codes, strip_prefix, is_digit, leb, if◌then◌else◌, nat_eq, list_eq, ◌==◌,
}

abbrev gcc_like_driver_modes : List Text
gcc_like_driver_modes = codes "gcc" ∷ codes "g++" ∷ codes "cpp" ∷ codes "cpp-output" ∷ []

abbrev options_taking_a_separate_value : List Text
options_taking_a_separate_value =
    codes "-D"
    ∷ codes "-U"
    ∷ codes "-I"
    ∷ codes "-L"
    ∷ codes "-l"
    ∷ codes "-o"
    ∷ codes "-x"
    ∷ codes "-arch"
    ∷ codes "-framework"
    ∷ codes "-idirafter"
    ∷ codes "-imacros"
    ∷ codes "-include"
    ∷ codes "-iprefix"
    ∷ codes "-iquote"
    ∷ codes "-isysroot"
    ∷ codes "-isystem"
    ∷ codes "-iwithprefix"
    ∷ codes "-iwithprefixbefore"
    ∷ codes "-target"
    ∷ codes "-Xclang"
    ∷ codes "-Xpreprocessor"
    ∷ codes "-MF"
    ∷ codes "-MQ"
    ∷ codes "-MT"
    ∷ []

-- `Option::or_else`
abbrev pub or_else : Option Text → Option Text → Option Text
or_else none b = b
or_else (some a) b = some a

-- The year that two digits stand for.
unfoldable pub two_digit_year : Text → Option ℕ
two_digit_year (tens ∷ ones ∷ []) =
    let year = (tens - b'0') * 10 + (ones - b'0') in
    if is_digit tens && is_digit ones
    then if leb 90 year then some (1900 + year) else some (2000 + year)
    else none
two_digit_year _ = none

unfoldable pub year_of_digits : Text → Option ℕ
unfolding two_digit_year
year_of_digits digits =
    if digits == codes "0x"
    then some 2011
    else if digits == codes "1y"
    then some 2014
    else if digits == codes "1z"
    then some 2017
    else if digits == codes "2a"
    then some 2020
    else if digits == codes "2b"
    then some 2023
    else if digits == codes "2c"
    then some 2026
    else two_digit_year digits

unfoldable pub standard_year : Text → Option ℕ
unfolding year_of_digits
standard_year name =
    elim (or_else (strip_prefix (codes "c++") name) (strip_prefix (codes "gnu++") name)) [
      | none ↦ none
      | some digits ↦ year_of_digits digits
    ]

-- What the next argument is: one to look at, the value of an option, or that of `--std`.
pub data Expected : Type 0 where
  argument value standard : Expected

-- What an argument is.
pub data Kind : Type 0 where
  driver_mode : (is_gcc_like : Bool) → Kind
  takes_a_value : Kind
  names : (standard : Text) → Kind
  standard_follows : Kind
  irrelevant : Kind

unfoldable pub kind_of_argument : Text → Kind
kind_of_argument arg = elim (strip_prefix (codes "--driver-mode=") arg) [
  | some mode ↦ driver_mode (contains gcc_like_driver_modes mode)
  | none ↦
      if contains options_taking_a_separate_value arg
      then takes_a_value
      else elim (or_else (strip_prefix (codes "-std=") arg) (strip_prefix (codes "--std=") arg)) [
        | some name ↦ names name
        | none ↦ if arg == codes "--std" then standard_follows else irrelevant
      ]
]

-- The loop of `parse_standard_year`.
unfoldable pub year_from : Expected → Option ℕ → List Text → Option ℕ
year_from standard year [] = none
year_from _ year [] = year
year_from value year (arg ∷ args) = year_from argument year args
year_from standard year (arg ∷ args) = year_from argument (standard_year arg) args
year_from argument year (arg ∷ args) = elim (kind_of_argument arg) [
  | driver_mode is_gcc_like ↦
      let rest = year_from argument year args in if is_gcc_like then rest else none
  | takes_a_value ↦ year_from value year args
  | names name ↦ year_from argument (standard_year name) args
  | standard_follows ↦ year_from standard year args
  | irrelevant ↦ year_from argument year args
]

-- `env_args` are those of `bindgen_extra_clang_args_for_parse`, and `autocxx_clang_args` those that
-- lib.rs always gives.
module _ (autocxx_clang_args env_args : List Text) where
  unfoldable pub parse_standard_year : (extra_clang_args : List Text) → Option ℕ
  unfolding year_from
  parse_standard_year extra_clang_args =
      year_from argument none (autocxx_clang_args ++ (extra_clang_args ++ env_args))

  unfoldable pub exception_specifications_are_part_of_the_type :
      (extra_clang_args : List Text) → Bool
  unfolding parse_standard_year
  exception_specifications_are_part_of_the_type extra_clang_args =
      elim (parse_standard_year extra_clang_args) [ none ↦ false | some year ↦ leb 2017 year ]
