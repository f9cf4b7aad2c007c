-- ===== src/Vendor/Register.antt =====
-- `VendorRiskManager` of sentinel/vendor_risk.py. A file of vendors holds a record for each, which is
-- read back as a vendor or raises; a file need not be readable.
use soc2_sentinel.Base.{String, ◌<>◌, List, [], ◌∷◌, map, Option, none, some, str_eq, if◌then◌else◌}
use soc2_sentinel.Base.Int.{ℤ}
use soc2_sentinel.Python.{Py, ok, raise, ◌>>=◌}
use soc2_sentinel.Vendor.Assessment.{Vendor, evaluate_risk}

-- `_get_storage_file`, below the base root.
unfoldable pub storage_file : String → String
storage_file tenant_id =
    if str_eq tenant_id "default"
    then "config/vendors.json"
    else "tenants/" <> (tenant_id <> "/config/vendors.json")

-- What reading the file at a path gives; none if there is no file.
abbrev pub VendorFiles : Type 0
VendorFiles = String → Option (Py (List (Py Vendor)))

abbrev pub all_read : List (Py Vendor) → Py (List Vendor)
all_read [] = ok []
all_read (item ∷ items) = do vendor ← item; vendors ← all_read items; ok (vendor ∷ vendors)

-- Whatever is raised while the file is read, the list is empty.
abbrev pub or_empty : Py (List Vendor) → List Vendor
or_empty (ok vendors) = vendors
or_empty (raise _) = []

unfoldable pub list_vendors : VendorFiles → String → List Vendor
unfolding storage_file
list_vendors files tenant_id = elim (files (storage_file tenant_id)) [
  | none ↦ []
  | some content ↦ or_empty (content >>= all_read)
]

-- The first vendor with the id is replaced; without one the vendor is appended.
unfoldable pub put_vendor : Vendor → List Vendor → List Vendor
put_vendor vendor [] = vendor ∷ []
put_vendor vendor (v ∷ vendors) =
    let rest = put_vendor vendor vendors in
    if str_eq v.vendor_id vendor.vendor_id then vendor ∷ vendors else v ∷ rest

unfoldable pub write_vendors : VendorFiles → String → List Vendor → VendorFiles
write_vendors files path vendors =
    λ other. if str_eq other path then some (ok (map ok vendors)) else files other

unfoldable pub save_vendor : (String → Py ℤ) → VendorFiles → String → Vendor → Vendor × VendorFiles
unfolding list_vendors put_vendor write_vendors evaluate_risk
save_vendor days_left files tenant_id vendor =
    let assessed = evaluate_risk days_left vendor in
    (
      assessed,
      write_vendors files (storage_file tenant_id)
          (put_vendor assessed (list_vendors files tenant_id)),
    )

unfoldable pub find_vendor : String → List Vendor → Option Vendor
find_vendor vendor_id [] = none
find_vendor vendor_id (v ∷ vendors) =
    if str_eq v.vendor_id vendor_id then some v else find_vendor vendor_id vendors

unfoldable pub get_vendor : VendorFiles → String → String → Option Vendor
unfolding list_vendors find_vendor
get_vendor files vendor_id tenant_id = find_vendor vendor_id (list_vendors files tenant_id)
