-- ===== src/Sockets/Shut.antt =====
-- `sckt_close` and `sckt_closeAll` of src/ltemc-sockets.c.
use cr_lte_modem.Base.{
  ℕ, zero, suc, ◌+◌, true, false, not, Option, none, some, ◌++◌, ◌==◌, if◌then◌else◌, bits_and,
  bits_and_not,
}
use cr_lte_modem.CString.{Bytes, codes, decimal, snprintf}
use cr_lte_modem.Parser.{result_success}
use cr_lte_modem.Device.{SocketCtrl, Ltem, M, ret, stop, socket_cnt}
use cr_lte_modem.Command.{try_invoke}
use cr_lte_modem.Command.Poll.{await_result}
use cr_lte_modem.Sockets.{protocol_void, socket_bit_map, with_ctrl, get_ctrl, with_map}

-- `sckt_close`: the command, and the maps without the bit; none for a socket that is not open
unfoldable pub close_ssl_cmd : ℕ → Ltem → Option (Bytes × Ltem)
close_ssl_cmd id s =
    let bit = socket_bit_map id in
    if not (bits_and 8 s.iop.peer_type_map.ssl_socket bit == 0)
    then some (
      snprintf 20 (codes "AT+QSSLCLOSE=" ++ decimal id),
      with_map (λ m. record m { ssl_socket = bits_and_not 8 m.ssl_socket bit }) s,
    )
    else none

unfoldable pub close_cmd : ℕ → Ltem → Option (Bytes × Ltem)
close_cmd id s =
    let bit = socket_bit_map id in
    if not (bits_and 8 s.iop.peer_type_map.tcpudp_socket bit == 0)
    then some (
      snprintf 20 (codes "AT+QICLOSE=" ++ decimal id),
      with_map (λ m. record m { tcpudp_socket = bits_and_not 8 m.tcpudp_socket bit }) s,
    )
    else close_ssl_cmd id s

abbrev pub void_ctrl : ℕ → SocketCtrl → SocketCtrl
void_ctrl id c = record c {
  protocol = protocol_void;
  socket_id = id;
  open_flag = false;
  receiver_func = none;
}

unfoldable pub run_close : ℕ → ℕ → Bytes → M (Unit {0})
run_close fuel id cmd s = elim (try_invoke cmd s) [
  | stop w ↦ stop w
  | ret false s' ↦ ret tt s'
  | ret true s' ↦ elim (await_result fuel true s') [
    | stop w ↦ stop w
    | ret r t ↦ if r.status_code == result_success then with_ctrl id (void_ctrl id) t else ret tt t
  ]
]

-- `sckt_close`
unfoldable pub sckt_close : ℕ → ℕ → M (Unit {0})
sckt_close fuel id s = elim (close_cmd id s) [
  | none ↦ ret tt s
  | some (cmd, s') ↦ run_close fuel id cmd s'
]

-- the loop of `sckt_closeAll` over `n` sockets from `i` on
unfoldable pub close_context : (ℕ → M (Unit {0})) → ℕ → ℕ → ℕ → M (Unit {0})
close_context ip_close zero i contxt_id s = ret tt s
close_context ip_close (suc n) i contxt_id s = elim (get_ctrl i s) [
  | stop w ↦ stop w
  | ret c t ↦ elim (if c.pdp_context_id == contxt_id then ip_close i t else ret tt t) [
    | stop w ↦ stop w
    | ret _ u ↦ close_context ip_close n (i + 1) contxt_id u
  ]
]

-- `sckt_closeAll`; the repository does not have `ip_close`: a parameter.
unfoldable pub sckt_close_all : (ℕ → M (Unit {0})) → ℕ → M (Unit {0})
unfolding close_context
sckt_close_all ip_close contxt_id = close_context ip_close socket_cnt 0 contxt_id
