-- ===== src/Network/Tests.antt =====
-- The contexts and the operator at concrete inputs.
use cr_lte_modem.Base.{◌≡◌, refl, ◌++◌, some, [], ◌∷◌, arith, List, drop, replicate}
use cr_lte_modem.CString.{Bytes, codes, c_str, decimal}
use cr_lte_modem.Device.{PdpCntxt, Ltem, ret, stop, undefined}
use cr_lte_modem.Network.{take_contexts, clear_contexts}
use cr_lte_modem.Network.Report.{report}
use cr_lte_modem.Network.Report.RoundTrip.{
  success, with_contexts, take_contexts-report, take_contexts-overflow,
}
use cr_lte_modem.Token.{zeros}
use cr_lte_modem.Network.Operator.{read_operator, read_operator-answer}
use cr_lte_modem.Bench.{small_rx, sample_iop, sample}

abbrev two_contexts : List PdpCntxt
two_contexts =
    record { context_id = 1; ip_type = 1; ip_address = codes "10.7.1.1" }
    ∷ record { context_id = 12; ip_type = 1; ip_address = codes "10.7.157.1" }
    ∷ []

abbrev four_contexts : List PdpCntxt
four_contexts = replicate 4 (record { context_id = 1; ip_type = 1; ip_address = codes "10.7.1.1" })

abbrev done : Bytes
done = codes "\r\nOK\r\n"

-- the device with the modem's answer in its command buffer
abbrev answered : List PdpCntxt → Ltem
answered cs = record sample {
  iop = record sample_iop {
    rx_cmd_buf = record small_rx { mem = codes "\r\n" ++ (report cs done ++ replicate 4 0) };
  };
}

take_contexts-report_example :
    take_contexts success (answered two_contexts)
    ≡ ret 2 (
        with_contexts
          (two_contexts ++ drop 2 (clear_contexts sample.pdp_cntxts))
          (answered two_contexts))
unfolding c_str decimal
take_contexts-report_example =
    take_contexts-report (answered two_contexts) two_contexts (codes "\r\n") done refl (omega arith)
      (omega arith) (omega arith) (omega arith) (omega arith) (omega arith) refl

take_contexts-overflow_example : take_contexts success (answered four_contexts) ≡ stop undefined
unfolding c_str decimal
take_contexts-overflow_example =
    take_contexts-overflow (answered four_contexts) four_contexts (codes "\r\n") done refl
      (omega arith) (omega arith) (omega arith) (omega arith) (omega arith)

read_operator-answer_example :
    read_operator []
      (codes "+COPS: 0,0," ++ b'"' ∷ (codes "AT&T" ++ b'"' ∷ b',' ∷ (decimal 8 ++ codes "\r\n")))
      sample.network_operator
    ≡ some (record { oper_name = codes "AT&T" ++ drop 4 (zeros 29); ntwk_mode = codes "CAT-M1" })
read_operator-answer_example =
    read_operator-answer [] (codes "+COPS: 0,0,") (codes "AT&T") (codes "\r\n") 8
      sample.network_operator refl (omega arith) (omega arith) (omega arith) (omega arith)
      (omega arith) refl
