-- ===== src/Token/Tests.antt =====
-- The tokenizers at concrete inputs.
use cr_lte_modem.Base.{◌≡◌, refl, some, none, if◌then◌else◌}
use cr_lte_modem.CString.{codes, strchr}
use cr_lte_modem.Token.{zeros, str_token, grab_token}
use cr_lte_modem.Token.Agree.{fits, grab_token-str_token}

-- a shorter token leaves the end of the one before it
grab_token_stale :
    grab_token (codes "10,") b',' (codes "1.2.3") 5
    ≡ some (record { rest = some 3; buf = codes "102.3" })
unfolding grab_token strchr
grab_token_stale = refl

grab_token-str_token_example :
    grab_token (codes "10,5") b',' (zeros 12) 12
    ≡ (if fits (codes "10,5") b',' 12 then str_token (codes "10,5") b',' (zeros 12) 12 else none)
grab_token-str_token_example = grab_token-str_token (codes "10,5") b',' 12
