-- ===== src/Iop/Urc/Recv.antt =====
-- The notice of received data, `+QIURC: "recv",<socket>`, in `iop_rxParseImmediate`.
use cr_lte_modem.Base.{
  ℕ, ◌≡◌, refl, ap, ◌∙◌, Bool, true, false, not, ◌&&◌, Option, none, some, List, ◌∷◌, ◌++◌, ◌==◌,
  if◌then◌else◌, get_elem?, set, take, drop,
}
use cr_lte_modem.CString.{
  Bytes, codes, c_str, starts_with, strchr, strtol, strtol_from, strtol_digits, scan_digits,
  to_word,
}
use cr_lte_modem.Device.{SocketCtrl, Ltem, ret, stop, undefined}
use cr_lte_modem.Iop.Urc.{
  ssl_recv, ip_recv, chunk_at, discard_chunk, urc_number, mark_pending, dispatch_urc,
  rx_parse_immediate, other_urc, other_notice, service_urc,
}

-- a chunk that begins with the notice, as the modem sends it
abbrev pub notice : Bytes → Bytes
notice rest = codes "\r\n+QIURC: \"recv" ++ rest

urc_number-notice : (rest : Bytes) (s : Ltem) → chunk_at s ≡ notice rest → urc_number ip_recv s ≡ 0
unfolding urc_number c_str strtol strtol_from strtol_digits scan_digits
urc_number-notice rest s h = ap (λ m. to_word 256 (strtol (c_str (drop 13 m)))) h

mark_pending-first :
    (prefix : Bytes) (s : Ltem) (c : SocketCtrl) (ctrls : List SocketCtrl)
    → urc_number prefix s ≡ 0
    → s.sockets ≡ some (c ∷ ctrls)
    → mark_pending prefix s
      ≡ ret tt
          (discard_chunk (record s { sockets = some (record c { data_pending = true } ∷ ctrls) }))
unfolding mark_pending
mark_pending-first prefix s c ctrls z h =
    ap
      (λ (o : Option (List SocketCtrl)). elim o [
        | none ↦ stop undefined
        | some cs ↦ elim (get_elem? cs (urc_number prefix s)) [
          | none ↦ stop undefined
          | some x ↦ ret tt (
              discard_chunk (record s {
                sockets = some (set cs (urc_number prefix s) (record x { data_pending = true }));
              }))
        ]
      ])
      h
    ∙ ap
        (λ (n : ℕ). elim (get_elem? (c ∷ ctrls) n) [
          | none ↦ stop undefined
          | some x ↦ ret tt (
              discard_chunk (record s {
                sockets = some (set (c ∷ ctrls) n (record x { data_pending = true }));
              }))
        ])
        z

and-false : (c : Bool) → (c && false) ≡ false
and-false true = refl
and-false false = refl

-- Whatever socket a notice of received data names, `iop_rxParseImmediate` notes data for the first
-- one, and drops the chunk. (A TCP or UDP socket is open.)
pub rx_parse_immediate-notice :
    (rest : Bytes) (s : Ltem) (c : SocketCtrl) (ctrls : List SocketCtrl)
    → chunk_at s ≡ notice rest
    → (s.iop.peer_type_map.tcpudp_socket == 0) ≡ false
    → s.sockets ≡ some (c ∷ ctrls)
    → rx_parse_immediate s
      ≡ ret tt
          (discard_chunk (record s { sockets = some (record c { data_pending = true } ∷ ctrls) }))
unfolding rx_parse_immediate dispatch_urc other_urc strchr starts_with
rx_parse_immediate-notice rest s c ctrls h open_map hs =
    ap
      (λ (m : Bytes). elim (strchr (take 6 m) b'+') [
        | some u ↦ dispatch_urc u s
        | none ↦ other_notice s
      ])
      h
    ∙ ap
        (λ (m : Bytes).
          if not (s.iop.peer_type_map.ssl_socket == 0) && starts_with ssl_recv (drop 2 m)
          then mark_pending ssl_recv s
          else other_urc 2 s)
        h
    ∙ ap (λ (y : Bool). if y then mark_pending ssl_recv s else other_urc 2 s)
        (and-false (not (s.iop.peer_type_map.ssl_socket == 0)))
    ∙ ap
        (λ (m : Bytes).
          if not (s.iop.peer_type_map.tcpudp_socket == 0) && starts_with ip_recv (drop 2 m)
          then mark_pending ip_recv s
          else service_urc 2 s)
        h
    ∙ ap (λ (y : Bool). if not y && true then mark_pending ip_recv s else service_urc 2 s) open_map
    ∙ mark_pending-first ip_recv s c ctrls (urc_number-notice rest s h) hs
