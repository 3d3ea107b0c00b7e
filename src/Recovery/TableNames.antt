-- ===== src/Recovery/TableNames.antt =====
-- The table name of a log record, written to a buffer and read back.
use mathlib.Core.List.{append_assoc}
use rubcase_lab.Base.{
  ℕ, zero, suc, ◌+◌, ◌*◌, ◌/◌, ◌%◌, ◌^◌, ◌≤◌, ◌<◌, ◌≡◌, refl, ap, ◌∙◌, [], ◌∷◌, ◌++◌, length, set,
  length-set, arith,
}
use rubcase_lab.Base.Int.{ℤ, pos, int32, bits32}
use rubcase_lab.Storage.Page.{Bytes}
use rubcase_lab.Record.Layout.{take, drop, store, load_int, int_bytes}
use rubcase_lab.Recovery.LogRecord.{LogRecord, serialize_table_name, deserialize_table_name}

load_int-int_bytes :
    (n : ℕ) (rest : Bytes) → n < 2 ^ 31 → load_int (int_bytes (pos n) ++ rest) 0 ≡ pos n
unfolding load_int int_bytes int32 bits32
load_int-int_bytes n rest h =
    let m = n % 2 ^ 32 in
    let whole : m % 256
          + m / 256 % 256 * 256
          + m / 65536 % 256 * 65536
          + m / 16777216 % 256 * 16777216
        ≡ n =
      omega arith in
    rw whole (ground arith)

store_next :
    (y : ℕ) (b : Bytes) (off : ℕ) (new : Bytes) → store (y ∷ b) (suc off) new ≡ y ∷ store b off new
unfolding store
store_next y b off [] = refl
store_next y b off (x ∷ new) =
    let next : suc off + 1 ≡ suc (off + 1) = omega arith in
    rw next (store_next y (set b off x) (off + 1) new)

store_front : (b new : Bytes) → length new ≤ length b → store b 0 new ≡ new ++ drop (length new) b
unfolding store
store_front b [] h = refl
store_front [] (x ∷ new) h = absurd (omega arith)
store_front (y ∷ b) (x ∷ new) h =
    let one : 0 + 1 ≡ suc 0 = omega arith in
    rw one (store_next x b 0 new ∙ ap (◌∷◌ x) (store_front b new (omega arith)))

store-append :
    (b : Bytes) (off : ℕ) (xs ys : Bytes)
    → store (store b off xs) (off + length xs) ys ≡ store b off (xs ++ ys)
unfolding store
store-append b off [] ys = let none_before : off + 0 ≡ off = omega arith in rw none_before refl
store-append b off (x ∷ xs) ys =
    let next : off + suc (length xs) ≡ off + 1 + length xs = omega arith in
    rw next (store-append (set b off x) (off + 1) xs ys)

store_nil : (off : ℕ) (new : Bytes) → store [] off new ≡ []
unfolding store
store_nil off [] = refl
store_nil off (x ∷ new) = store_nil (off + 1) new

drop-store :
    (b : Bytes) (n k : ℕ) (new : Bytes) → drop n (store b (n + k) new) ≡ store (drop n b) k new
drop-store b zero k new = let e : 0 + k ≡ k = omega arith in rw e refl
drop-store [] (suc n) k new = rw (store_nil (suc n + k) new, store_nil k new) refl
drop-store (y ∷ b) (suc n) k new =
    let next : suc n + k ≡ suc (n + k) = omega arith in
    rw next (rw (store_next y b (n + k) new) (drop-store b n k new))

take-append : (b rest : Bytes) → take (length b) (b ++ rest) ≡ b
take-append [] rest = refl
take-append (x ∷ b) rest = ap (◌∷◌ x) (take-append b rest)

-- What is read from the size, the name and what follows.
deserialize-append :
    (r : LogRecord) (name rest : Bytes)
    → length name < 2 ^ 31
    → (deserialize_table_name r (int_bytes (pos (length name)) ++ (name ++ rest))).tab_name ≡ name
unfolding deserialize_table_name int_bytes
deserialize-append r name rest h =
    rw (load_int-int_bytes (length name) (name ++ rest) h, deserialize_table_name)
      (take-append name rest)

length-drop : (n : ℕ) (b : Bytes) → n ≤ length b → n + length (drop n b) ≡ length b
length-drop zero b h = omega arith
length-drop (suc n) [] h = absurd (omega arith)
length-drop (suc n) (x ∷ b) h = omega (arith, length-drop n b (omega arith))

drop-store_at :
    (buf : Bytes) (at : ℕ) (new : Bytes)
    → at + length new ≤ length buf
    → drop at (store buf at new) ≡ new ++ drop (length new) (drop at buf)
drop-store_at buf at new h =
    let zero_on : at + 0 ≡ at = omega arith in
    let room = length-drop at buf (omega arith) in
    rw zero_on at (drop-store buf at 0 new) ∙ store_front (drop at buf) new (omega arith)

length-int_bytes : (z : ℤ) → length (int_bytes z) ≡ 4
unfolding int_bytes
length-int_bytes z = refl

deserialize-append_sized :
    (r : LogRecord) (name rest : Bytes) (n : ℕ)
    → length name ≡ n
    → n < 2 ^ 31
    → (deserialize_table_name r (int_bytes (pos n) ++ (name ++ rest))).tab_name ≡ name
deserialize-append_sized r name rest n e h = rw (← e) (deserialize-append r name rest (rw e h))

-- The bytes that a record puts into the buffer.
name_bytes : LogRecord → Bytes
name_bytes r = int_bytes (pos (length r.tab_name)) ++ r.tab_name

length-name_bytes : (r : LogRecord) → length (name_bytes r) ≡ 4 + length r.tab_name
unfolding name_bytes int_bytes
length-name_bytes r = omega arith

serialize_table_name-store :
    (r : LogRecord) (buf : Bytes) (at : ℕ)
    → (serialize_table_name r buf at).0 ≡ store buf at (name_bytes r)
unfolding serialize_table_name name_bytes
serialize_table_name-store r buf at =
    let size = int_bytes (pos (length r.tab_name)) in
    rw (length-int_bytes (pos (length r.tab_name))) at (store-append buf at size r.tab_name)

-- The buffer from the record on.
serialize_table_name-drop :
    (r : LogRecord) (buf : Bytes) (at : ℕ)
    → at + (4 + length r.tab_name) ≤ length buf
    → drop at (serialize_table_name r buf at).0
      ≡ name_bytes r ++ drop (4 + length r.tab_name) (drop at buf)
serialize_table_name-drop r buf at h = rw (serialize_table_name-store r buf at) (
    rw (length-name_bytes r) at
      (drop-store_at buf at (name_bytes r) (omega (arith, length-name_bytes r))))

-- A table name shorter than 2^31 bytes that `SerializeTableName` writes where the buffer has room is
-- read back from there by `DeserializeTableName`.
pub deserialize-serialize :
    (r q : LogRecord) (buf : Bytes) (at : ℕ)
    → length r.tab_name < 2 ^ 31
    → at + (4 + length r.tab_name) ≤ length buf
    → (deserialize_table_name q (drop at (serialize_table_name r buf at).0)).tab_name ≡ r.tab_name
unfolding name_bytes
deserialize-serialize r q buf at small h =
    let rest = drop (4 + length r.tab_name) (drop at buf) in
    let size = int_bytes (pos (length r.tab_name)) in
    rw (serialize_table_name-drop r buf at h) (
      rw (append_assoc size r.tab_name rest, name_bytes)
        (deserialize-append q r.tab_name rest small))

set-append : (xs ys : Bytes) (i x : ℕ) → i < length xs → set (xs ++ ys) i x ≡ set xs i x ++ ys
set-append [] ys i x h = absurd (omega arith)
set-append (y ∷ xs) ys zero x h = refl
set-append (y ∷ xs) ys (suc i) x h = ap (◌∷◌ y) (set-append xs ys i x (omega arith))

set_behind : (xs ys : Bytes) (i x : ℕ) → set (xs ++ ys) (length xs + i) x ≡ xs ++ set ys i x
set_behind [] ys i x = let none_before : 0 + i ≡ i = omega arith in rw none_before refl
set_behind (y ∷ xs) ys i x =
    let next : suc (length xs) + i ≡ suc (length xs + i) = omega arith in
    rw next (ap (◌∷◌ y) (set_behind xs ys i x))

serialize_table_name_next :
    (r : LogRecord) (buf : Bytes) (at : ℕ) → (serialize_table_name r buf at).1 ≡ at + 8
unfolding serialize_table_name
serialize_table_name_next r buf at = omega arith

-- One byte more, at the position that is returned.
store_next_byte :
    (r : LogRecord) (buf rest : Bytes) (at x : ℕ)
    → 4 < length r.tab_name
    → drop at buf ≡ name_bytes r ++ rest
    → drop at (store buf (at + 8) (x ∷ []))
      ≡ int_bytes (pos (length r.tab_name)) ++ (set r.tab_name 4 x ++ rest)
unfolding name_bytes store int_bytes
store_next_byte r buf rest at x long e =
    let size = int_bytes (pos (length r.tab_name)) in
    let split = append_assoc size r.tab_name rest in
    drop-store buf at 8 (x ∷ [])
    ∙ ap (λ b. store b 8 (x ∷ [])) (e ∙ split)
    ∙ set_behind size (r.tab_name ++ rest) 4 x
    ∙ ap (λ (b : Bytes). size ++ b) (set-append r.tab_name rest 4 x long)

-- The position that `SerializeTableName` moves on to lies in a name of more than four bytes, shorter
-- than 2^31 and written where the buffer has room: a byte that is written there next replaces the
-- fifth of the name that is read back.
pub serialize_table_name_overlaps :
    (r q : LogRecord) (buf : Bytes) (at x : ℕ)
    → length r.tab_name < 2 ^ 31
    → at + (4 + length r.tab_name) ≤ length buf
    → 4 < length r.tab_name
    → let (log_buffer, next) = serialize_table_name r buf at in
      (deserialize_table_name q (drop at (store log_buffer next (x ∷ [])))).tab_name
      ≡ set r.tab_name 4 x
serialize_table_name_overlaps r q buf at x small h long =
    let rest = drop (4 + length r.tab_name) (drop at buf) in
    let written = (serialize_table_name r buf at).0 in
    let bytes = store_next_byte r written rest at x long (serialize_table_name-drop r buf at h) in
    let same = length-set r.tab_name 4 x in
    rw (serialize_table_name_next r buf at) (
      rw bytes
        (deserialize-append_sized q (set r.tab_name 4 x) rest (length r.tab_name) same small))
