-- ===== src/Sockets/Maps.antt =====
-- The bit maps of open sockets: what an open sets, and what `sckt_close` does with it.
use cr_lte_modem.Base.{
  ℕ, zero, suc, ◌%◌, ◌^◌, ◌<◌, ◌≡◌, refl, ap, ap₂, ◌∙◌, ◌≢◌, Bool, true, false, not, ◌&&◌, ◌||◌,
  some, ◌++◌, arith, ◌==◌, if◌then◌else◌, ==_iff, if-elim, bit, bit-bits_or, bit-bits_and,
  bit-bits_and_not, bit-not_zero, bit-pow, bits_or, bits_and, bits_and_not,
}
use cr_lte_modem.CString.{Bytes, codes, decimal, snprintf}
use cr_lte_modem.Device.{Ltem, socket_cnt}
use cr_lte_modem.Parser.{Ptr, result_pending}
use cr_lte_modem.Sockets
use cr_lte_modem.Sockets.{mark_tcpudp, mark_ssl, with_map, socket_bit_map, socket_status_parser}
use cr_lte_modem.Sockets.Shut.{close_ssl_cmd, close_cmd}

-- The mask of a socket has its bit and no other.
bit-socket_bit_map : (k id : ℕ) → id < socket_cnt → bit k (socket_bit_map id) ≡ (k == id)
bit-socket_bit_map k id h = ap (bit k) (no_wrap id h) ∙ bit-pow k id
  where
    no_wrap : (n : ℕ) → n < 6 → 2 ^ n % 256 ≡ 2 ^ n
    no_wrap zero h = refl
    no_wrap (suc zero) h = refl
    no_wrap (suc (suc zero)) h = refl
    no_wrap (suc (suc (suc zero))) h = refl
    no_wrap (suc (suc (suc (suc zero)))) h = refl
    no_wrap (suc (suc (suc (suc (suc zero))))) h = refl
    no_wrap (suc (suc (suc (suc (suc (suc n)))))) h = absurd (omega (arith, h))

own_bit : (id : ℕ) → id < socket_cnt → bit id (socket_bit_map id) ≡ true
own_bit id h = bit-socket_bit_map id id h ∙ (==_iff id id).1 refl

-- a map with the bit of the socket is not empty under its mask
masked :
    (id m : ℕ) → id < socket_cnt → bit id m ≡ true → (bits_and 8 m (socket_bit_map id) == 0) ≡ false
masked id m h e =
    bit-not_zero id (bits_and 8 m (socket_bit_map id))
      (bit-bits_and 8 id m (socket_bit_map id) (omega (arith, h)) ∙ ap₂ ◌&&◌ e (own_bit id h))

marked : (id m : ℕ) → id < socket_cnt → bit id (bits_or 8 m (socket_bit_map id)) ≡ true
marked id m h =
    bit-bits_or 8 id m (socket_bit_map id) (omega (arith, h))
    ∙ ap (λ c. bit id m || c) (own_bit id h)
    ∙ or_true (bit id m)
  where
    or_true : (c : Bool) → (c || true) ≡ true
    or_true true = refl
    or_true false = refl

-- the state with the bit of a socket gone from the map of TCP and UDP
abbrev pub unmark_tcpudp : ℕ → Ltem → Ltem
unmark_tcpudp id =
    with_map (λ m. record m { tcpudp_socket = bits_and_not 8 m.tcpudp_socket (socket_bit_map id) })

-- A TCP or UDP socket that an open has marked is closed by `AT+QICLOSE`, and its bit alone goes from
-- the map of these sockets.
pub close_cmd-mark_tcpudp :
    (id : ℕ) (s : Ltem)
    → id < socket_cnt
    → close_cmd id (mark_tcpudp id s)
      ≡ some (snprintf 20 (codes "AT+QICLOSE=" ++ decimal id), unmark_tcpudp id (mark_tcpudp id s))
unfolding close_cmd mark_tcpudp
close_cmd-mark_tcpudp id s h =
    ap
      (λ (c : Bool).
        if not c
        then some
            (snprintf 20 (codes "AT+QICLOSE=" ++ decimal id), unmark_tcpudp id (mark_tcpudp id s))
        else close_ssl_cmd id (mark_tcpudp id s))
      (masked id (bits_or 8 s.iop.peer_type_map.tcpudp_socket (socket_bit_map id)) h
        (marked id s.iop.peer_type_map.tcpudp_socket h))

-- Marked at an open and unmarked at its close, the bit of a socket is clear in the map of TCP and UDP
-- sockets, and any other is as it was before the open.
pub bit-unmark-mark :
    (id k : ℕ) (s : Ltem)
    → id < socket_cnt
    → k < 8
    → bit k (unmark_tcpudp id (mark_tcpudp id s)).iop.peer_type_map.tcpudp_socket
      ≡ (bit k s.iop.peer_type_map.tcpudp_socket && not (k == id))
unfolding mark_tcpudp
bit-unmark-mark id k s h hk =
    let m : ℕ = s.iop.peer_type_map.tcpudp_socket in
    bit-bits_and_not 8 k (bits_or 8 m (socket_bit_map id)) (socket_bit_map id) hk
    ∙ ap₂ (λ c d. c && not d)
        (bit-bits_or 8 k m (socket_bit_map id) hk
          ∙ ap (λ d. bit k m || d) (bit-socket_bit_map k id h))
        (bit-socket_bit_map k id h)
    ∙ both (bit k m) (k == id)
  where
    both : (c d : Bool) → ((c || d) && not d) ≡ (c && not d)
    both true true = refl
    both true false = refl
    both false true = refl
    both false false = refl

-- The status parser of a socket never asks for more of the response: whatever has come so far, also
-- nothing, it answers success or unavailable.
pub socket_status_parser-decided :
    (low_mem response : Bytes) (endptr : Ptr)
    → (socket_status_parser low_mem response endptr).0 ≢ result_pending
unfolding socket_status_parser
socket_status_parser-decided low_mem response endptr =
    if-elim (λ (n : ℕ). n ≢ result_pending)
      ((Sockets.socket_status low_mem response endptr).0 == 202) (λ _ e. omega (arith, e))
      (λ _ e. omega (arith, e))
