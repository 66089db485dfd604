-- ===== src/BridgeNameTracker/Tests.antt =====
-- The unit test of bridge_name_tracker.rs, and the witnesses.
use autocxx.Prelude.{◌≡◌, ◌≢◌, refl, List, [], ◌∷◌, Text, codes, none, decimal, Distinct, All}
use autocxx.BridgeNameTracker.{Request, bridge_all, get_unique_cxx_bridge_name}
use autocxx.BridgeNameTracker.Numbers.{numbered, undigited, undigited-plain}
use autocxx.BridgeNameTracker.Unique.{
  IsPlain, IsPlainRequest, bridge_all-Distinct, bridge_all_clash,
}

abbrev plain_request : List Text → Text → Request
plain_request ns found_name = record { type_name = none; found_name = found_name; ns = ns }

abbrev requests : List Request
requests =
    plain_request [] (codes "do")
    ∷ plain_request (codes "ns" ∷ []) (codes "do")
    ∷ plain_request (codes "ns" ∷ []) (codes "do")
    ∷ plain_request [] (codes "new")
    ∷ []

four_names :
    bridge_all [] requests
    ≡ codes "do" ∷ codes "ns_do" ∷ codes "ns_do_autocxx1" ∷ codes "new_autocxx" ∷ []
unfolding bridge_all get_unique_cxx_bridge_name decimal
four_names = refl

plain : (key : Text) → undigited key ≡ key → IsPlain key
plain key h = undigited-plain key h

requests-IsPlainRequest : All IsPlainRequest requests
unfolding undigited
requests-IsPlainRequest = (
  (plain (codes "do") refl, plain (codes "do") refl),
  (
    (plain (codes "do") refl, plain (codes "ns_do") refl),
    (
      (plain (codes "do") refl, plain (codes "ns_do") refl),
      ((plain (codes "new_autocxx") refl, plain (codes "new_autocxx") refl), tt),
    ),
  ),
)

bridge_all-Distinct_example : Distinct (bridge_all [] requests)
bridge_all-Distinct_example = bridge_all-Distinct [] requests requests-IsPlainRequest

do_is_not_new : codes "do" ≢ codes "new"
do_is_not_new = λ e. cc

bridge_all_clash_example :
    bridge_all [] (
      plain_request [] (codes "do")
      ∷ plain_request [] (codes "do")
      ∷ plain_request [] (numbered (codes "do") 1)
      ∷ [])
    ≡ codes "do" ∷ numbered (codes "do") 1 ∷ numbered (codes "do") 1 ∷ []
bridge_all_clash_example = bridge_all_clash (codes "do") do_is_not_new
