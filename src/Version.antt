-- ===== src/Version.antt =====
-- src/qtl_version.c and include/qtl_version.h.
use libqtl.Base.{ℕ, ◌+◌, ◌*◌, Bool, false, List, ◌++◌, bytes, if◌then◌else◌}

abbrev pub qtl_version_major : ℕ
qtl_version_major = 1

abbrev pub qtl_version_minor : ℕ
qtl_version_minor = 11

abbrev pub qtl_version_patch : ℕ
qtl_version_patch = 1

abbrev pub qtl_version_is_release : Bool
qtl_version_is_release = false

-- The three fields do not overlap, so their union is a sum.
unfoldable pub qtl_version : ℕ
qtl_version = qtl_version_major * 65536 + qtl_version_minor * 256 + qtl_version_patch

unfoldable pub qtl_version_string : List ℕ
qtl_version_string =
    if qtl_version_is_release then bytes "1.11.1" else bytes "1.11.1" ++ bytes "-dev"
