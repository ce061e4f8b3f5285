-- ===== src/Location/Tests.antt =====
-- The command of a geo-fence, with numbers that are printed as they are.
use cr_lte_modem.Base.{◌≡◌, refl, Bool, true, false, some, [], ◌∷◌}
use cr_lte_modem.CString.{Bytes, codes, decimal}
use cr_lte_modem.Location.Fence.{Points, geo_text, too_many_points}

-- a number is its text here
text : Bytes → Bytes
text t = t

is_zero_text : Bytes → Bool
is_zero_text [] = true
is_zero_text (c ∷ t) = false

abbrev two_points : Points Bytes is_zero_text text
two_points = record {
  lat1 = codes "44.747700";
  lon1 = codes "-85.565270";
  lat2 = codes "44.747800";
  lon2 = codes "-185.565270";
  lat3 = [];
  lon3 = [];
  lat4 = [];
  lon4 = [];
}

-- The chunk of the second longitude holds eleven bytes, comma included.
geo_text_cut :
    geo_text Bytes is_zero_text text 1 1 two_points
    ≡ some (codes "AT+QCFGEXT=\"addgeo\",1,0,1,44.747700,-85.565270,44.747800,-185.56527")
unfolding geo_text text decimal
geo_text_cut = refl

too_many : too_many_points Bytes is_zero_text text 0 two_points ≡ true
unfolding too_many_points is_zero_text
too_many = refl
