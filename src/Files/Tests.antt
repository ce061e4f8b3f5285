-- ===== src/Files/Tests.antt =====
-- The file system on the sample device, and on a response of the modem.
use cr_lte_modem.Base.{◌≡◌, refl}
use cr_lte_modem.CString.{codes, strtol, c_str}
use cr_lte_modem.Files.{read_position}

-- The offset of the data is short of the 13 bytes of the name and its blank, and of the line end before
-- them, so a position is read as 0.
position_42 : read_position (codes "\r\n+QFPOSITION: 42\r\n") ≡ 0
unfolding read_position strtol c_str
position_42 = refl
