-- ===== src/Command/Run.antt =====
-- What the services of the driver do with a command: `atcmd_tryInvokeAdv`, `atcmd_awaitResult`, and a
-- conflict where another command is open.
pub mod Answer
pub mod Success
use cr_lte_modem.Base.{
  ℕ, zero, suc, ◌+◌, ◌-◌, ◌*◌, ◌/◌, ◌%◌, ◌^◌, ◌≤◌, ◌<◌, min, ◌≡◌, refl, sym, ap, ap₂, ◌∙◌, ◌≢◌, ◌↔◌,
  ◌⊎◌, inl, inr, Bool, true, false, not, ◌&&◌, ◌||◌, Option, none, some, List, [], ◌∷◌, ◌++◌, map,
  append-nil, append_assoc, arith, ltb, leb, ◌==◌, if◌then◌else◌, ltb→lt, lt→ltb, leb→le, ==_iff,
  if-elim, Bool-cases, Option-cases, length, get_elem?, get_or, set, take, drop, replicate,
  length-append, length-set, length-take, length-drop, length-replicate, take-append-drop,
  take-append, drop-append, drop-append_le, drop-add, drop-append_add, get_elem?-eq-get_or,
  get_or-set_self, get_or-set_ne, take-nil, List-cases, bit, bit-bits_or, bit-bits_and,
  bit-bits_and_not, bit-not_zero, bit-pow, bits_or, bits_and, bits_and_not, u8, u16, u32, sub16,
  sub32,
}
use cr_lte_modem.CString.{Bytes, decimal, Strtol, strtol, c_str}
use cr_lte_modem.Parser.{Ptr, Parser, result_success, result_conflict}
use cr_lte_modem.Device.{Ltem, M, ret, stop, ◌>>=◌, ◌>>◌, pure}
use cr_lte_modem.Command.{close, try_invoke_adv}
use cr_lte_modem.Command.Poll.{AtcmdResult, response_mem, await_result}

-- a command with no answer but its result
unfoldable pub run_command : ℕ → ℕ → Option Parser → Bytes → M ℕ
run_command fuel timeout parser cmd s = elim (try_invoke_adv cmd timeout parser s) [
  | stop w ↦ stop w
  | ret false t ↦ ret result_conflict t
  | ret true t ↦ elim (await_result fuel true t) [ stop w ↦ stop w | ret r u ↦ ret r.status_code u ]
]

-- A command whose answer is read from the memory that the response points to: `failed` of the result
-- code where it is no success or a conflict.
unfoldable pub ask :
    {A : Type 0} → ℕ → ℕ → Option Parser → Bytes → (ℕ → Ltem → A) → (Bytes → Ltem → A) → M A
ask fuel timeout parser cmd failed read s = elim (try_invoke_adv cmd timeout parser s) [
  | stop w ↦ stop w
  | ret false t ↦ ret (failed result_conflict t) t
  | ret true t ↦ elim (await_result fuel false t) [
    | stop w ↦ stop w
    | ret r u ↦
        (close >>= λ _. pure (
            if r.status_code == result_success
            then read (response_mem r.response u) u
            else failed r.status_code u))
          u
  ]
]

-- How a function that has a value ends: by a `return`, or at its closing brace, where its value is
-- undefined and what it has put into its local variable is lost.
pub data Ending (A : Type 0) : Type 0 where
  returned : A → Ending A
  unreturned : A → Ending A

-- `%d` of a `uint32_t`: from 2 ^ 31 on it prints the negative number of the same bits.
unfoldable pub decimal_int : ℕ → Bytes
decimal_int n = if ltb n 2147483648 then decimal n else b'-' ∷ decimal (4294967296 - n)

-- the string at an offset of a stretch of memory
abbrev pub string_at : Bytes → ℕ → Bytes
string_at mem k = c_str (drop k mem)
