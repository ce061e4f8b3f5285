-- ===== src/Network.antt =====
-- src/ltemc-network.c: the PDP contexts and the network operator.
pub mod Report
pub mod Operator
mod Tests
use cr_lte_modem.Base.{
  ℕ, zero, suc, ◌+◌, ◌-◌, ◌*◌, ◌/◌, ◌%◌, ◌^◌, ◌≤◌, ◌<◌, min, ◌≡◌, refl, sym, ap, ap₂, ◌∙◌, ◌≢◌, ◌↔◌,
  ◌⊎◌, inl, inr, Bool, true, false, not, ◌&&◌, ◌||◌, Option, none, some, List, [], ◌∷◌, ◌++◌, map,
  append-nil, append_assoc, arith, ltb, leb, ◌==◌, if◌then◌else◌, ltb→lt, lt→ltb, leb→le, ==_iff,
  if-elim, Bool-cases, Option-cases, length, get_elem?, get_or, set, take, drop, replicate,
  length-append, length-set, length-take, length-drop, length-replicate, take-append-drop,
  take-append, drop-append, drop-append_le, drop-add, drop-append_add, get_elem?-eq-get_or,
  get_or-set_self, get_or-set_ne, take-nil, List-cases, bit, bit-bits_or, bit-bits_and,
  bit-bits_and_not, bit-not_zero, bit-pow, bits_or, bits_and, bits_and_not, u8, u16, u32, sub16,
  sub32,
}
use cr_lte_modem.CString.{Bytes, codes, c_str, strstr, strchr, strtol, to_word, decimal, snprintf}
use cr_lte_modem.Parser.{
  Ptr, Parser, at, low, deref, default_result_parser, ok_completed, result_success,
}
use cr_lte_modem.Token.{Token, zeros, grab_token}
use cr_lte_modem.Device.{
  PdpCntxt, NetworkOperator, Ltem, M, ret, stop, undefined, ◌>>=◌, ◌>>◌, pure, modify, socket_cnt,
}
use cr_lte_modem.Command
use cr_lte_modem.Command.{action_timeout, try_invoke, try_invoke_adv}
use cr_lte_modem.Command.Poll.{AtcmdResult, response_mem, await_result}

abbrev pub pdpcontext_count : ℕ
pdpcontext_count = 3

abbrev pub ip_type_v4 : ℕ
ip_type_v4 = 1

abbrev pub protocols_cmd_buffer_sz : ℕ
protocols_cmd_buffer_sz = 80

abbrev pub qiact : Bytes
qiact = codes "+QIACT: "

-- IP_QIACT_SZ and landmarkSz
abbrev pub qiact_sz : ℕ
qiact_sz = 8

-- TOKEN_BUF_SZ, and the size of `ipAddress`
abbrev pub token_buf_sz : ℕ
token_buf_sz = 16

abbrev pub opername_sz : ℕ
opername_sz = 29

-- `s_contextStatusCompleteParser`
unfoldable pub context_status_complete_parser : Parser
context_status_complete_parser = default_result_parser qiact false 2 (some ok_completed)

-- The loop of `ntwk_create`: the type of the contexts from `i` on is set, `n` of them.
unfoldable pub set_ip_types : ℕ → ℕ → List PdpCntxt → Option (List PdpCntxt)
set_ip_types zero i table = some table
set_ip_types (suc n) i table = elim (get_elem? table i) [
  | none ↦ none
  | some c ↦ set_ip_types n (i + 1) (set table i (record c { ip_type = ip_type_v4 }))
]

-- `ntwk_create`: the loop runs over the number of sockets, not of contexts.
unfoldable pub ntwk_create : M (Unit {0})
unfolding set_ip_types
ntwk_create s =
    let blank : PdpCntxt = record { context_id = 0; ip_type = 0; ip_address = [] } in
    elim (set_ip_types socket_cnt 0 (replicate pdpcontext_count blank)) [
      | none ↦ stop undefined
      | some table ↦ ret tt (record s {
        pdp_cntxts = table;
        network_operator = record { oper_name = zeros opername_sz; ntwk_mode = [] };
      })
    ]

-- the string at an offset of the response
abbrev pub text_at : Bytes → ℕ → Bytes
text_at mem k = c_str (drop k mem)

-- an entry as read, with the token buffer that it leaves
pub record Entry : Type 0 where
  pub context : PdpCntxt
  pub token_buf : Bytes

-- what the tokenizer does to the entry: the address where it finds one
unfoldable pub set_address : PdpCntxt → Token → Entry
set_address c t = elim t.rest [
  | none ↦ record { context = c; token_buf = t.buf }
  | some k ↦ record {
    context = record c { ip_address = c_str (take token_buf_sz t.buf) };
    token_buf = t.buf;
  }
]

-- The type and the address behind the comma at `comma`, of an entry with the number `id`.
unfoldable pub read_address : Bytes → ℕ → ℕ → Bytes → PdpCntxt → Option Entry
unfolding set_address
read_address mem comma id buf c =
    let type = strtol (text_at mem (comma + 1)) in
    let c' = record c { context_id = id; ip_type = to_word 4294967296 type } in
    elim (grab_token (text_at mem (comma + 1 + type.stop + 2)) b'"' buf token_buf_sz) [
      | none ↦ none
      | some t ↦ some (set_address c' t)
    ]

-- One round of the loop of `ntwk_getActivePdpCntxtCnt`: the entry that begins at `next`. With no comma
-- behind the number a pointer near NULL is read, which is undefined (none).
unfoldable pub read_entry : Bytes → ℕ → Bytes → PdpCntxt → Option Entry
unfolding read_address
read_entry mem next buf c =
    let id = strtol (text_at mem (next + qiact_sz)) in
    let behind = next + qiact_sz + id.stop + 1 in
    elim (strchr (text_at mem behind) b',') [
      | none ↦ none
      | some i ↦ read_address mem (behind + i) (to_word 256 id) buf c
    ]

-- what the loop leaves: the table, and the number of entries (a `uint8_t`)
pub record Contexts : Type 0 where
  pub table : List PdpCntxt
  pub found : ℕ

-- a place found behind `k`, as an offset into the response
abbrev pub offset : ℕ → Option ℕ → Option ℕ
offset k none = none
offset k (some i) = some (k + i)

-- The loop of `ntwk_getActivePdpCntxtCnt` from the entry at `next` (none: no further entry). It does
-- not look at the size of the table: an entry past it is undefined (none, as is the end of the fuel, one round for each byte of the
-- response). Each round moves on by the
-- eight bytes of the landmark.
unfoldable pub read_entries : ℕ → Bytes → Option ℕ → Bytes → ℕ → List PdpCntxt → Option Contexts
unfolding read_entry
read_entries fuel mem none buf indx table = some (record { table = table; found = indx })
read_entries zero mem (some next) buf indx table = none
read_entries (suc fuel) mem (some next) buf indx table = elim (get_elem? table indx) [
  | none ↦ none
  | some c ↦ elim (read_entry mem next buf c) [
    | none ↦ none
    | some e ↦
        read_entries fuel mem
          (offset (next + qiact_sz) (strstr (text_at mem (next + qiact_sz)) qiact)) e.token_buf
          (u8 (indx + 1)) (set table indx e.context)
  ]
]

-- The part that parses the response: `tokenBuf` is not initialised, so it starts with what the stack
-- holds.
unfoldable pub parse_contexts : Bytes → ℕ → List PdpCntxt → Option Contexts
unfolding read_entries
parse_contexts mem garbage table =
    if ltb qiact_sz (length (c_str mem))
    then read_entries (length mem) mem (strstr (c_str mem) qiact) (replicate token_buf_sz garbage) 0
        table
    else some (record { table = table; found = 0 })

-- the context table emptied
unfoldable pub clear_contexts : List PdpCntxt → List PdpCntxt
clear_contexts = map (λ (c : PdpCntxt). record c { context_id = 0; ip_address = [] })

-- the end of `ntwk_getActivePdpCntxtCnt`: the table as parsed, and the command closed
unfoldable pub finish_contexts : Option Contexts → M ℕ
finish_contexts none s = stop undefined
finish_contexts (some cs) s = (do Command.close; pure cs.found) (record s { pdp_cntxts = cs.table })

-- behind the wait: the table from the response
unfoldable pub take_contexts : AtcmdResult → M ℕ
take_contexts r s =
    let s' = record s { pdp_cntxts = clear_contexts s.pdp_cntxts } in
    if r.status_code == result_success
    then finish_contexts (parse_contexts (response_mem r.response s') s'.garbage s'.pdp_cntxts) s'
    else (do Command.close; pure 0) s'

-- `ntwk_getActivePdpCntxtCnt`; whether the command was invoked is not looked at.
unfoldable pub get_active_pdp_cntxt_cnt : ℕ → M ℕ
get_active_pdp_cntxt_cnt fuel =
    try_invoke_adv (codes "AT+QIACT?") action_timeout (some context_status_complete_parser) >>= λ _.
    await_result fuel false >>= take_contexts

-- the first context of the table that is in use
unfoldable pub find_context : ℕ → List PdpCntxt → Option ℕ
find_context i [] = none
find_context i (c ∷ table) =
    let rest = find_context (i + 1) table in if c.context_id == 0 then rest else some i

-- `ntwk_getPdpCntxt`: the place in the table; the number asked for is not looked at.
unfoldable pub get_pdp_cntxt : ℕ → Ltem → Option ℕ
unfolding find_context
get_pdp_cntxt cntxt_id s = find_context 0 s.pdp_cntxts

-- a command on a context, and `refresh` after its success
unfoldable pub context_command : ℕ → Bytes → M (Unit {0}) → M (Unit {0})
context_command fuel cmd refresh s =
    elim (try_invoke_adv (snprintf protocols_cmd_buffer_sz cmd) action_timeout
      (some context_status_complete_parser) s) [
        | stop w ↦ stop w
        | ret false t ↦ ret tt t
        | ret true t ↦ elim (await_result fuel true t) [
          | stop w ↦ stop w
          | ret r u ↦ if r.status_code == result_success then refresh u else ret tt u
        ]
      ]

-- `ntwk_activatePdpContext`
unfoldable pub activate_pdp_context : ℕ → ℕ → M (Unit {0})
unfolding context_command
activate_pdp_context fuel cntxt_id =
    context_command fuel (codes "AT+QIACT=" ++ decimal cntxt_id ++ codes "\r")
      (get_active_pdp_cntxt_cnt fuel >>= λ _. pure tt)

-- `ntwk_deactivatePdpContext`; it refreshes the table by `ntwk_getActivePdpContexts`, which the
-- repository does not have: a parameter.
unfoldable pub deactivate_pdp_context : M (Unit {0}) → ℕ → ℕ → M (Unit {0})
unfolding context_command
deactivate_pdp_context get_active_pdp_contexts fuel cntxt_id =
    context_command fuel (codes "AT+QIDEACT=" ++ decimal cntxt_id ++ codes "\r")
      get_active_pdp_contexts

-- the contexts in use at the start, each deactivated and activated
unfoldable pub cycle_contexts : M (Unit {0}) → ℕ → List ℕ → M (Unit {0})
cycle_contexts get_active_pdp_contexts fuel [] s = ret tt s
cycle_contexts get_active_pdp_contexts fuel (id ∷ ids) s =
    elim (if id == 0
      then ret tt s
      else (deactivate_pdp_context get_active_pdp_contexts fuel id >> activate_pdp_context fuel id)
          s) [ stop w ↦ stop w | ret _ t ↦ cycle_contexts get_active_pdp_contexts fuel ids t ]

-- `ntwk_resetPdpContexts`; a `contextId` of 0 stands for an entry that is not in use.
unfoldable pub reset_pdp_contexts : M (Unit {0}) → ℕ → M (Unit {0})
reset_pdp_contexts get_active_pdp_contexts fuel s =
    cycle_contexts get_active_pdp_contexts fuel (map (λ (c : PdpCntxt). c.context_id) s.pdp_cntxts)
      s
