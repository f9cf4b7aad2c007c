-- ===== src/Vendor/Saved.antt =====
-- What saving a vendor does to the register that is read back.
use soc2_sentinel.Base.{
  String, ◌≡◌, refl, ap, ◌∙◌, true, List, [], ◌∷◌, map, some, str_eq, str_eq_iff, arith, Bool-cases,
  inl, inr, if◌then◌else◌,
}
use soc2_sentinel.Base.Int.{ℤ}
use soc2_sentinel.Python.{Py, ok, raise, Exception, ◌>>=◌}
use soc2_sentinel.Vendor.{
  Vendor, evaluate_risk, storage_file, VendorFiles, all_read, list_vendors, put_vendor,
  write_vendors, save_vendor, find_vendor, get_vendor,
}

-- What is written is read back.
all_read-map : (vendors : List Vendor) → all_read (map ok vendors) ≡ ok vendors
all_read-map [] = refl
all_read-map (v ∷ vendors) = ground (arith, all_read-map vendors)

str_eq_refl : (s : String) → str_eq s s ≡ true
str_eq_refl s = (str_eq_iff s s).1 refl

list_vendors-write :
    (files : VendorFiles) (tenant_id : String) (vendors : List Vendor)
    → list_vendors (write_vendors files (storage_file tenant_id) vendors) tenant_id ≡ vendors
unfolding list_vendors write_vendors
list_vendors-write files tenant_id vendors =
    ground (arith, str_eq_refl (storage_file tenant_id), all_read-map vendors)

list_vendors_unread :
    (files : VendorFiles) (tenant_id : String) (content : Py (List (Py Vendor))) (x : Exception)
    → files (storage_file tenant_id) ≡ some content
    → (content >>= all_read) ≡ raise x
    → list_vendors files tenant_id ≡ []
unfolding list_vendors
list_vendors_unread files tenant_id content x h h' = ground (arith, h, h')

-- Looking up an id after a vendor was put into the register.
find_vendor-put :
    (vendor_id : String) (vendor : Vendor) (vendors : List Vendor)
    → find_vendor vendor_id (put_vendor vendor vendors)
      ≡ (if str_eq vendor.vendor_id vendor_id then some vendor else find_vendor vendor_id vendors)
unfolding find_vendor put_vendor
find_vendor-put vendor_id vendor [] = ground arith
find_vendor-put vendor_id vendor (v ∷ vendors) =
    elim (Bool-cases (str_eq v.vendor_id vendor.vendor_id)) [
      | inl e ↦ let same = (str_eq_iff v.vendor_id vendor.vendor_id).0 e in ground (arith, e, same)
      | inr e ↦ elim (Bool-cases (str_eq v.vendor_id vendor_id)) [
        | inl f ↦
            let same = (str_eq_iff v.vendor_id vendor_id).0 f in
            let apart = str_eq_iff vendor.vendor_id vendor_id in
            ground (
              arith,
              e,
              f,
              same,
              apart,
              str_eq_refl vendor_id,
              find_vendor-put vendor_id vendor vendors,
            )
        | inr f ↦ ground (arith, e, f, find_vendor-put vendor_id vendor vendors)
      ]
    ]

module _ (days_left : String → Py ℤ) where
  save_vendor-list :
      (files : VendorFiles) (tenant_id : String) (vendor : Vendor)
      → list_vendors (save_vendor days_left files tenant_id vendor).1 tenant_id
        ≡ put_vendor (evaluate_risk days_left vendor) (list_vendors files tenant_id)
  unfolding save_vendor
  save_vendor-list files tenant_id vendor = list_vendors-write files tenant_id _

  -- After a vendor is saved, its id is found with the vendor as assessed, and every other id is found as
  -- before.
  pub save_vendor-get_vendor :
      (files : VendorFiles) (tenant_id : String) (vendor : Vendor) (vendor_id : String)
      → get_vendor (save_vendor days_left files tenant_id vendor).1 vendor_id tenant_id ≡ (
          if str_eq vendor.vendor_id vendor_id
          then some (evaluate_risk days_left vendor)
          else get_vendor files vendor_id tenant_id)
  unfolding get_vendor evaluate_risk
  save_vendor-get_vendor files tenant_id vendor vendor_id =
      ap (find_vendor vendor_id) (save_vendor-list files tenant_id vendor)
      ∙ find_vendor-put vendor_id (evaluate_risk days_left vendor) (list_vendors files tenant_id)

  -- Where reading the register or one of its records raises, saving a vendor leaves a register with that
  -- vendor only.
  pub save_vendor_unread :
      (files : VendorFiles) (tenant_id : String) (vendor : Vendor) (content : Py (List (Py Vendor)))
      (x : Exception)
      → files (storage_file tenant_id) ≡ some content
      → (content >>= all_read) ≡ raise x
      → list_vendors (save_vendor days_left files tenant_id vendor).1 tenant_id
        ≡ evaluate_risk days_left vendor ∷ []
  unfolding list_vendors put_vendor evaluate_risk
  save_vendor_unread files tenant_id vendor content x h h' =
      save_vendor-list files tenant_id vendor
      ∙ ap (put_vendor (evaluate_risk days_left vendor))
          (list_vendors_unread files tenant_id content x h h')
