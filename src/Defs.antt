-- ===== src/Defs.antt =====
-- The types of src/defs.h that the record files and the index share.
use rubcase_lab.Base.Int.{ℤ}

pub record Rid : Type 0 where
  pub page_no : ℤ
  pub slot_no : ℤ
