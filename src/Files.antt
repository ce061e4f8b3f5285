-- ===== src/Files.antt =====
-- src/ltemc-filesys.c: the file system of the modem. Some of its functions end without a `return`.
mod Tests
use cr_lte_modem.Base.{
  ℕ, zero, suc, ◌+◌, ◌-◌, ◌*◌, ◌/◌, ◌%◌, ◌^◌, ◌≤◌, ◌<◌, min, ◌≡◌, refl, sym, ap, ap₂, ◌∙◌, ◌≢◌, ◌↔◌,
  ◌⊎◌, inl, inr, Bool, true, false, not, ◌&&◌, ◌||◌, Option, none, some, List, [], ◌∷◌, ◌++◌, map,
  append-nil, append_assoc, arith, ltb, leb, ◌==◌, if◌then◌else◌, ltb→lt, lt→ltb, leb→le, ==_iff,
  if-elim, Bool-cases, Option-cases, length, get_elem?, get_or, set, take, drop, replicate,
  length-append, length-set, length-take, length-drop, length-replicate, take-append-drop,
  take-append, drop-append, drop-append_le, drop-add, drop-append_add, get_elem?-eq-get_or,
  get_or-set_self, get_or-set_ne, take-nil, List-cases, bit, bit-bits_or, bit-bits_and,
  bit-bits_and_not, bit-not_zero, bit-pow, bits_or, bits_and, bits_and_not, u8, u16, u32, sub16,
  sub32,
}
use cr_lte_modem.CString.{Bytes, codes, decimal, Strtol, strtol, to_word, snprintf}
use cr_lte_modem.Parser.{Ptr, result_badrequest}
use cr_lte_modem.Device.{Ltem, M, ret, stop, pure, ◌>>=◌}
use cr_lte_modem.Command.Run.{
  Ending, returned, unreturned, run_command, ask, decimal_int, string_at,
}

abbrev pub file_cmd_sz : ℕ
file_cmd_sz = 81

abbrev pub file_info_dataoffset : ℕ
file_info_dataoffset = 10

abbrev pub file_pos_dataoffset : ℕ
file_pos_dataoffset = 12

abbrev pub file_timeout : ℕ
file_timeout = 800

-- `fileInfoResult_t`
pub record FileInfo : Type 0 where
  pub free_sz : ℕ
  pub total_sz : ℕ
  pub files_sz : ℕ
  pub files_cnt : ℕ
  pub result_code : ℕ

-- `fileOpenResult_t`
pub record FileOpen : Type 0 where
  pub file_handle : ℕ
  pub result_code : ℕ

-- `filePositionResult_t`
pub record FilePosition : Type 0 where
  pub file_offset : ℕ
  pub result_code : ℕ

-- a command of the file system, in a buffer of FILE_CMD_SZ bytes
unfoldable pub file_command : ℕ → Bytes → M ℕ
file_command fuel cmd = run_command fuel file_timeout none (snprintf file_cmd_sz cmd)

-- the struct on the stack, with a code
abbrev pub info_failed : ℕ → Ltem → FileInfo
info_failed code s = record {
  free_sz = s.garbage;
  total_sz = s.garbage;
  files_sz = s.garbage;
  files_cnt = s.garbage;
  result_code = code;
}

-- the two numbers of a `+QFLDS` response, the second a byte behind the end of the first
unfoldable pub read_pair : Bytes → Strtol × Strtol
read_pair mem =
    let a = strtol (string_at mem file_info_dataoffset) in
    (a, strtol (string_at mem (file_info_dataoffset + a.stop + 1)))

unfoldable pub read_space : Bytes → FileInfo → FileInfo
unfolding read_pair
read_space mem info =
    let (a, b) = read_pair mem in
    record info { free_sz = to_word 4294967296 a; total_sz = to_word 4294967296 b }

unfoldable pub read_files : Bytes → FileInfo → FileInfo
unfolding read_pair
read_files mem info =
    let (a, b) = read_pair mem in
    record info { files_sz = to_word 4294967296 a; files_cnt = to_word 65536 b }

-- a part of `filsys_info`: a failure is returned, else the function goes on with the local struct
unfoldable pub ask_info : ℕ → Bytes → (Bytes → FileInfo → FileInfo) → FileInfo → M (Ending FileInfo)
ask_info fuel cmd read info =
    ask fuel file_timeout none cmd (λ code s. returned (record info { result_code = code }))
      (λ mem s. unreturned (read mem info))

-- `filsys_info`: behind both successes there is no `return`.
unfoldable pub filsys_info : ℕ → M (Ending FileInfo)
unfolding ask_info
filsys_info fuel s =
    elim (ask_info fuel (codes "AT+QFLDS=\"UFS\"") read_space (info_failed s.garbage s) s) [
      | stop w ↦ stop w
      | ret (returned r) t ↦ ret (returned r) t
      | ret (unreturned info) t ↦ ask_info fuel (codes "AT+QFLDS") read_files info t
    ]

-- `filsys_list`, `filsys_read`, `filsys_write` have empty bodies.
unfoldable pub filsys_list : Bytes → M (Ending (Unit {0}))
filsys_list file_name s = ret (unreturned tt) s

unfoldable pub filsys_read : ℕ → ℕ → M (Ending (Unit {0}))
filsys_read file_handle read_sz s = ret (unreturned tt) s

unfoldable pub filsys_write : ℕ → Bytes → ℕ → M (Ending (Unit {0}))
filsys_write file_handle write_data write_sz s = ret (unreturned tt) s

-- `filsys_delete`
unfoldable pub filsys_delete : ℕ → Bytes → M ℕ
unfolding file_command
filsys_delete fuel file_name = file_command fuel (codes "AT+QFDEL=" ++ file_name)

-- the local result of `filsys_open` with a code
abbrev pub open_failed : ℕ → FileOpen
open_failed code = record { file_handle = 0; result_code = code }

-- `filsys_open`: behind a success there is no `return`, and the code of the local result still is that
-- of a bad request.
unfoldable pub filsys_open : ℕ → Bytes → ℕ → M (Ending FileOpen)
filsys_open fuel [] open_mode s = ret (returned (open_failed result_badrequest)) s
filsys_open fuel (c ∷ file_name) open_mode s =
    ask fuel file_timeout none
      (snprintf file_cmd_sz
        (codes "AT+QFOPEN=" ++ ((c ∷ file_name) ++ (codes "," ++ decimal open_mode))))
      (λ code t. returned (open_failed code))
      (λ mem t. unreturned (record (open_failed result_badrequest) {
        file_handle = to_word 65536 (strtol (string_at mem file_info_dataoffset));
      }))
      s

-- `filsys_seek`; the offset is a `uint32_t` that is printed as an `int`.
unfoldable pub filsys_seek : ℕ → ℕ → ℕ → ℕ → M ℕ
unfolding file_command
filsys_seek fuel file_handle offset seek_from = file_command fuel (
    codes "AT+QFSEEK="
    ++ (decimal file_handle
        ++ (codes "," ++ (decimal_int offset ++ (codes "," ++ decimal seek_from)))))

-- the number in a `+QFPOSITION` response
unfoldable pub read_position : Bytes → ℕ
read_position mem = to_word 65536 (strtol (string_at mem file_pos_dataoffset))

-- `filsys_getPosition`: behind a success there is no `return`.
unfoldable pub filsys_get_position : ℕ → ℕ → M (Ending FilePosition)
unfolding read_position
filsys_get_position fuel file_handle =
    ask fuel file_timeout none
      (snprintf file_cmd_sz (codes "AT+QFPOSITION=" ++ decimal file_handle))
      (λ code s. returned (record { file_offset = s.garbage; result_code = code }))
      (λ mem s. unreturned (record { file_offset = read_position mem; result_code = s.garbage }))

-- `filsys_truncate`
unfoldable pub filsys_truncate : ℕ → ℕ → M ℕ
unfolding file_command
filsys_truncate fuel file_handle = file_command fuel (codes "AT+QFTUCAT=" ++ decimal file_handle)

-- `filsys_close`
unfoldable pub filsys_close : ℕ → ℕ → M ℕ
unfolding file_command
filsys_close fuel file_handle = file_command fuel (codes "AT+QFCLOSE=" ++ decimal file_handle)
