-- ===== src/Index/Manager/Tests.antt =====
-- Index files in memory.
use Prim.Native.String.{String}
use rubcase_lab.Base.{ℕ, ◌+◌, ◌*◌, ◌≤◌, ◌<◌, ◌≡◌, arith}
use rubcase_lab.Storage.Disk
use rubcase_lab.Index.Compare.{type_int}
use rubcase_lab.Index.Node.{IxFileHdr}
use rubcase_lab.Index.Manager.{IxFileOutcome, new_index_hdr, sizeof_page_hdr, sizeof_rid}
use rubcase_lab.Index.Manager.Files.{key_offset, rid_offset, new_index_hdr_lem}

abbrev no_number : ℕ → String
no_number n = "0"

new_index_hdr_lem_example :
    (h : IxFileHdr) × (new_index_hdr type_int 4 ≡ IxFileOutcome.returns h)
    × (h.col_len ≡ 4)
    × (2 < h.btree_order)
    × ((i : ℕ) → i ≤ h.btree_order → key_offset h i + 4 ≤ rid_offset h 0)
    × (rid_offset h h.btree_order + sizeof_rid ≤ 4096)
    × (4096 < sizeof_page_hdr + (h.btree_order + 2) * (4 + sizeof_rid))
new_index_hdr_lem_example = new_index_hdr_lem type_int 4 (omega arith)
