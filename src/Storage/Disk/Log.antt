-- ===== src/Storage/Disk/Log.antt =====
-- The log file and the directories in src/storage/disk_manager.cpp. A position in the log is not
-- negative.
use Prim.Native.String.{String, ◌++◌}
use mathlib.Core.Logic.{ite}
use rubcase_lab.Base.{ℕ, ◌+◌, ◌-◌, Bool, ltb, if◌then◌else◌, Option, none, some, length}
use rubcase_lab.Base.Int.{ℤ, pos, negsuc, ℤ-discrete, lt_int}
use rubcase_lab.Storage.Page.{Bytes}
use rubcase_lab.Storage.Posix.{Posix}
use rubcase_lab.Storage.Disk.{DiskState, unix_error, Outcome, returns, throws, open_file}

abbrev log_file_name : String
log_file_name = "db.log"

module _ (P : Posix) where
  unfoldable pub is_dir : DiskState P → String → Bool
  is_dir s path = P.is_directory s.os path

  -- A command of the shell that `system` cannot run throws.
  unfoldable pub run_command : DiskState P → String → DiskState P × Outcome (Unit {0})
  run_command s cmd =
      let (os', ret) = P.system s.os cmd in
      (record s { os = os' }, if lt_int ret (pos 0) then throws unix_error else returns tt)

  unfoldable pub create_dir : DiskState P → String → DiskState P × Outcome (Unit {0})
  unfolding run_command
  create_dir s path = run_command s ("mkdir " ++ path)

  unfoldable pub destroy_dir : DiskState P → String → DiskState P × Outcome (Unit {0})
  unfolding run_command
  destroy_dir s path = run_command s ("rm -r " ++ path)

  unfoldable pub get_file_size : DiskState P → String → ℤ
  get_file_size s path = P.file_size s.os path

  -- The descriptor of the log, which is opened at its first use; a descriptor is not below -1.
  unfoldable pub open_log : DiskState P → DiskState P × Outcome ℕ
  open_log s = elim s.log_fd [
    | pos fd ↦ (s, returns fd)
    | negsuc _ ↦
        let (c, opened) = open_file P s log_file_name in
        elim opened [
          | returns fd ↦ (record c { log_fd = pos fd }, returns fd)
          | throws e ↦ (c, throws e)
        ]
  ]

  -- `ReadLog` from the size of the file on: the bytes that are read, or `none` past the end.
  unfoldable pub read_at : DiskState P → ℕ → ℕ → ℕ → Bytes → DiskState P × Outcome (Option Bytes)
  unfolding get_file_size ℤ-discrete
  read_at s fd size offset log_data = elim (get_file_size s log_file_name) [
    | negsuc _ ↦ (s, returns none)
    | pos file_size ↦
        let left = file_size - offset in
        let wanted = if ltb left size then left else size in
        let (os', bytes, bytes_read) = P.read (P.lseek s.os fd (pos offset)) fd wanted log_data in
        if ltb offset file_size
        then (
          record s { os = os' },
          ite (ℤ-discrete bytes_read (pos wanted)) (returns (some bytes)) (throws unix_error),
        )
        else (s, returns none)
  ]

  unfoldable pub read_log : DiskState P → Bytes → ℕ → ℕ → ℕ → DiskState P × Outcome (Option Bytes)
  unfolding open_log read_at
  read_log s log_data size offset prev_log_end =
      let (c, opened) = open_log s in
      elim opened [
        | returns fd ↦ read_at c fd size (offset + prev_log_end) log_data
        | throws e ↦ (c, throws e)
      ]

  unfoldable pub write_log : DiskState P → Bytes → DiskState P × Outcome (Unit {0})
  unfolding open_log ℤ-discrete
  write_log s log_data =
      let (c, opened) = open_log s in
      elim opened [
        | returns fd ↦
            let (os', bytes_write) = P.write (P.lseek_end c.os fd) fd log_data in
            (
              record c { os = os' },
              ite (ℤ-discrete bytes_write (pos (length log_data))) (returns tt) (throws unix_error),
            )
        | throws e ↦ (c, throws e)
      ]
