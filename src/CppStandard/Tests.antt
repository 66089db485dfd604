-- ===== src/CppStandard/Tests.antt =====
-- Small argument lists for cpp_standard.rs, and the witnesses.
use autocxx.Prelude.{◌≡◌, refl, false, List, [], ◌∷◌, some, Text, codes}
use autocxx.CppStandard.{
  standard_year, kind_of_argument, parse_standard_year,
  exception_specifications_are_part_of_the_type,
}
use autocxx.CppStandard.Years.{
  short, end, passed_over, valued, IsYear, standard_year-IsYear, last_standard_wins,
}

abbrev before : List Text
before = codes "-x" ∷ codes "c++" ∷ codes "-std=c++14" ∷ []

standard_year-IsYear_example : IsYear (standard_year (codes "gnu++98"))
standard_year-IsYear_example = standard_year-IsYear (codes "gnu++98")

ninety_eight : standard_year (codes "gnu++98") ≡ some 1998
unfolding standard_year
ninety_eight = refl

-- `-std=c++14 -I -std=c++20` parses as C++14.
last_standard_wins_example :
    parse_standard_year before []
      (codes "-std=c++14" ∷ codes "-I" ∷ codes "-std=c++20" ∷ codes "-Wall" ∷ [])
    ≡ standard_year (codes "c++14")
unfolding kind_of_argument
last_standard_wins_example =
    last_standard_wins before []
      (codes "-std=c++14" ∷ codes "-I" ∷ codes "-std=c++20" ∷ codes "-Wall" ∷ []) before
      (codes "-std=c++14" ∷ []) (codes "-I" ∷ codes "-std=c++20" ∷ codes "-Wall" ∷ [])
      (codes "c++14") refl refl short (valued refl (passed_over refl end))

-- The value of an option is no argument.
value_is_passed_over :
    exception_specifications_are_part_of_the_type before [] (codes "-D" ∷ codes "-std=c++20" ∷ [])
    ≡ false
unfolding exception_specifications_are_part_of_the_type kind_of_argument standard_year
value_is_passed_over = refl
