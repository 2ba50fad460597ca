-- ===== src/Child/Capabilities/Tests.antt =====
-- Runs of `dropCapabilities`, and the theorem about it at one of them.
use bcs_zc241t_study_project.Prelude.{
  ◌-◌, ◌^◌, ◌≡◌, refl, true, some, List, [], ◌∷◌, ◌++◌, ok, err, codes,
}
use bcs_zc241t_study_project.Text.{Text, to_upper, trim_space}
use bcs_zc241t_study_project.Config.Capability.{capability_number}
use bcs_zc241t_study_project.Child.Capabilities.{
  CapUserData, bounding_drop, get_sets, clear_ambient, set_sets, CapKernel, CapLog,
  unknown_capability, mark, drop_capabilities,
}
use bcs_zc241t_study_project.Child.Capabilities.Dropped.{IsDropped, drop_capabilities-IsDropped}

abbrev all_bits : CapUserData
all_bits = record { effective = 2 ^ 32 - 1; permitted = 2 ^ 32 - 1; inheritable = 0 }

-- A kernel that knows the capabilities up to 9 and refuses nothing.
abbrev willing : CapKernel
willing = record {
  succeeds = λ log c. true;
  sets = λ log. record { low = all_bits; high = all_bits };
  cap_last_cap = λ log. some (codes "9" ++ 10 ∷ []);
}

abbrev requested : List Text
requested = codes " cap_setpcap " ∷ codes "CAP_SYSLOG" ∷ []

abbrev changed : CapLog
changed =
    clear_ambient
    ∷ set_sets (record {
      low = record {
        effective = 2 ^ 32 - 1 - 2 ^ 8;
        permitted = 2 ^ 32 - 1 - 2 ^ 8;
        inheritable = 0;
      };
      high = record {
        effective = 2 ^ 32 - 1 - 2 ^ 2;
        permitted = 2 ^ 32 - 1 - 2 ^ 2;
        inheritable = 0;
      };
    })
    ∷ get_sets
    ∷ bounding_drop 8
    ∷ bounding_drop 34
    ∷ []

two_dropped : drop_capabilities willing requested [] ≡ (ok tt, changed)
unfolding drop_capabilities to_upper trim_space mark capability_number
two_dropped = refl

drop_capabilities-IsDropped_example : IsDropped willing requested [] changed
drop_capabilities-IsDropped_example =
    drop_capabilities-IsDropped willing (codes " cap_setpcap ") (codes "CAP_SYSLOG" ∷ []) [] changed
      two_dropped

unknown :
    drop_capabilities willing (codes "CAP_NONE" ∷ []) []
    ≡ (err (unknown_capability (codes "CAP_NONE")), [])
unfolding drop_capabilities to_upper trim_space mark capability_number
unknown = refl
