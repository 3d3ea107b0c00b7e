-- ===== src/Index/Manager/Files.antt =====
-- The keys and rids of an index lie in its pages: the header that src/index/ix_manager.h writes.
use native.Mathlib.Nat.{div-mul-le_self, add-mul, mul-add, lt-div-mul-add, le-div_iff_mul-le}
use rubcase_lab.Base.{ℕ, ◌+◌, ◌*◌, ◌/◌, ◌-◌, ◌≤◌, ◌<◌, ◌≡◌, refl, arith}
use rubcase_lab.Record.Layout.Bounds.{times_le}
use rubcase_lab.Index.Compare.{ColType}
use rubcase_lab.Index.Node.{IxFileHdr}
use rubcase_lab.Index.Manager.{IxFileOutcome, new_hdr, new_index_hdr, sizeof_page_hdr, sizeof_rid}

-- Where the keys and the rids of a node begin in its page.
abbrev pub key_offset : IxFileHdr → ℕ → ℕ
key_offset h i = sizeof_page_hdr + i * h.col_len

abbrev pub rid_offset : IxFileHdr → ℕ → ℕ
rid_offset h i = sizeof_page_hdr + h.keys_size + i * sizeof_rid

order_high : (n : ℕ) → n ≤ 512 → 7 ≤ 4072 / (n + 8)
order_high n small =
    let positive : 0 < n + 8 = omega arith in
    let seven_fit : 7 * (n + 8) ≤ 4072 = omega arith in (le-div_iff_mul-le positive).1 seven_fit

before_next : (q : ℕ) → 1 ≤ q → q - 1 + 1 ≡ q
before_next q h = omega arith

before_next_two : (q : ℕ) → 1 ≤ q → q - 1 + 2 ≡ q + 1
before_next_two q h = omega arith

-- The header that `create_index` writes for a column of at most 512 bytes: the assertion on the order
-- holds, the keys of a full node, with one slot to spare, lie before its rids, the rids lie in the
-- page, and one more pair would not fit.
pub new_index_hdr_lem :
    (t : ColType) (col_len : ℕ)
    → col_len ≤ 512
    → (h : IxFileHdr) × (new_index_hdr t col_len ≡ IxFileOutcome.returns h)
      × (h.col_len ≡ col_len)
      × (2 < h.btree_order)
      × ((i : ℕ) → i ≤ h.btree_order → key_offset h i + col_len ≤ rid_offset h 0)
      × (rid_offset h h.btree_order + sizeof_rid ≤ 4096)
      × (4096 < sizeof_page_hdr + (h.btree_order + 2) * (col_len + sizeof_rid))
unfolding new_index_hdr new_hdr
new_index_hdr_lem t n small =
    let q = 4072 / (n + 8) in
    let seven : 7 ≤ q = order_high n small in
    let below = div-mul-le_self 4072 (n + 8) in
    let above = lt-div-mul-add {a = 4072} {b = n + 8} (omega arith) in
    let split = mul-add q n 8 in
    let again = add-mul q 1 (n + 8) in
    let one = before_next q (omega arith) in
    let two = before_next_two q (omega arith) in
    (
      new_hdr t n,
      ground arith,
      refl,
      omega arith,
      λ i le. let inside = times_le i (q - 1 + 1) n (omega arith) in omega arith,
      rw one (omega arith),
      rw two (omega arith),
    )
