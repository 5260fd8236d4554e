-- ===== src/Protocol/Version/Check.antt =====
-- The comparison of checkVersion (version.go).
use kamune.Prelude.{◌≡◌, ◌↔◌, arith, Bool, true, not, ok}
use kamune.Protocol.Version.{Semver, is_zero, int_eq, compare_versions}

-- Two versions accept each other, with or without a warning, exactly if the majors are equal and,
-- before 1.0, the minors too; the warning is given exactly if the minors differ.
pub compare_versions_iff :
    (local remote : Semver) (warned : Bool)
    → (compare_versions local remote ≡ ok warned)
      ↔ (local.major ≡ remote.major)
        × ((is_zero local.major ≡ true) → local.minor ≡ remote.minor)
        × (warned ≡ not (int_eq local.minor remote.minor))
unfolding compare_versions
compare_versions_iff local remote warned = (λ h. ground arith, λ h. ground arith)

-- Both sides of a connection come to one verdict.
pub compare_versions_comm : (a b : Semver) → compare_versions a b ≡ compare_versions b a
unfolding compare_versions
compare_versions_comm a b = ground arith
