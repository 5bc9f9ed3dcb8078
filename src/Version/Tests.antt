-- ===== src/Version/Tests.antt =====
-- Versions on examples, and the theorems at inputs that meet their hypotheses.
use ai_env_mgr.Base.{◌≡◌, ◌≢◌, refl, [], ◌∷◌, arith}
use ai_env_mgr.Version.{
  Order, before, after, compare_versions, compare_numbers, compare_number, compare_suffix,
  compare_text, split_version, cut, drop_v, trim_left, trim_right, split_dots, numbers, atoi,
  digits, is_space,
}
use ai_env_mgr.Version.Ordering.{flip, join, compare_versions-flip, compare_versions_trans}

split_runs :
    (split_version " v1.2.16-rc1" ≡ (1 ∷ 2 ∷ 16 ∷ [], "rc1"))
    × (split_version "dev" ≡ ([], ""))
    × (split_version "" ≡ ([], ""))
unfolding split_version cut drop_v trim_left trim_right split_dots numbers atoi digits is_space
split_runs = (refl, refl, refl)

ninth_before : compare_versions "1.2.9" "1.2.16" ≡ before
unfolding compare_versions compare_numbers compare_number compare_suffix compare_text split_version
    cut drop_v trim_left trim_right split_dots numbers atoi digits is_space
ninth_before = refl

candidate_before : compare_versions "1.2.16-rc1" "1.2.16" ≡ before
unfolding compare_versions compare_numbers compare_number compare_suffix compare_text split_version
    cut drop_v trim_left trim_right split_dots numbers atoi digits is_space
candidate_before = refl

-- A text with no numbers is not below a pre-release of version 0.
dev_after : compare_versions "dev" "0.0.0-rc1" ≡ after
unfolding compare_versions compare_numbers compare_number compare_suffix compare_text split_version
    cut drop_v trim_left trim_right split_dots numbers atoi digits is_space
dev_after = refl

ninth_before_candidate : compare_versions "1.2.9" "1.2.16-rc1" ≡ before
unfolding compare_versions compare_numbers compare_number compare_suffix compare_text split_version
    cut drop_v trim_left trim_right split_dots numbers atoi digits is_space
ninth_before_candidate = refl

compare_versions-flip_example :
    compare_versions "1.2.16" "1.2.9" ≡ flip (compare_versions "1.2.9" "1.2.16")
compare_versions-flip_example = compare_versions-flip "1.2.9" "1.2.16"

not_after : (o : Order) → o ≡ before → o ≢ after
not_after o e f = ground arith

compare_versions_trans_example :
    compare_versions "1.2.9" "1.2.16"
    ≡ join (compare_versions "1.2.9" "1.2.16-rc1") (compare_versions "1.2.16-rc1" "1.2.16")
compare_versions_trans_example =
    compare_versions_trans "1.2.9" "1.2.16-rc1" "1.2.16" (not_after _ ninth_before_candidate)
      (not_after _ candidate_before)
