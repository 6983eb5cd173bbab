-- ===== src/Session/NextUrl.antt =====
-- Where a login redirects to.
use luthien_proxy.Base.{◌≡◌, Bool, true, false, not, ◌||◌, if◌then◌else◌}
use luthien_proxy.Text.{Text, codes, starts_with, includes}

-- A path of this server, as far as `startswith` and `in` tell
abbrev pub IsLocal : Text → Type 0
IsLocal url =
    (starts_with url (codes "/") ≡ true)
    × (starts_with url (codes "//") ≡ false)
    × (includes (codes "://") url ≡ false)
    × (includes (codes "@") url ≡ false)

-- The choice of `_validate_next_url` between "/" and the URL, as a function of its tests
abbrev choose : Bool → Bool → Bool → Bool → Bool → Bool → Text → Text
choose a b c d e f url =
    if a || b || c
    then codes "/"
    else if d || e
    then codes "/"
    else if not f
    then codes "/"
    else url
