-- ===== src/Status/Tests.antt =====
-- The theorems about `sentinel/status.py` at concrete metrics.
use soc2_sentinel.Base.{◌≡◌, refl}
use soc2_sentinel.Base.Int.{pos}
use soc2_sentinel.Python.{ok, int, float, Fields, end, field, get, to_int}
use soc2_sentinel.Python.Fixed.{Fixed, fin, fixed, program}
use soc2_sentinel.Status.{green, int_or_zero, status_iam_access_review}

abbrev reviewed : Fields Fixed
reviewed =
    field "orphaned_accounts" (int (pos 2))
      (field "days_since_last_review" (float (fin (pos 9_050))) end)

-- `int(90.5)` is 90, which is in time.
reviewed-green : status_iam_access_review fixed reviewed ≡ ok green
unfolding program status_iam_access_review int_or_zero get to_int
reviewed-green = refl
