-- ===== src/Location/Fence.antt =====
-- src/ltemc-geo.c: the geo-fences.
use cr_lte_modem.Base.{
  ℕ, ◌+◌, ◌*◌, Bool, not, ◌&&◌, ◌||◌, Option, none, some, ◌++◌, ltb, leb, ◌==◌, if◌then◌else◌,
  length,
}
use cr_lte_modem.CString.{Bytes, codes, decimal, snprintf}
use cr_lte_modem.Parser.{ok_result_parser, result_success, result_badrequest}
use cr_lte_modem.Device.{M, ret, stop, undefined}
use cr_lte_modem.Command.{action_timeout}
use cr_lte_modem.Command.Run.{run_command}

-- `geo_shape_t`
abbrev pub shape_circlerad : ℕ
shape_circlerad = 0

abbrev pub shape_circlept : ℕ
shape_circlept = 1

abbrev pub shape_triangle : ℕ
shape_triangle = 2

abbrev pub shape_quadrangle : ℕ
shape_quadrangle = 3

abbrev pub mode_no_urc : ℕ
mode_no_urc = 0

abbrev pub coord_sz : ℕ
coord_sz = 12

-- CMDSZ
abbrev pub geo_cmd_sz : ℕ
geo_cmd_sz = 32 + 8 * coord_sz

-- `atcmd_tryInvoke` and the wait
abbrev pub invoke_and_wait : ℕ → Bytes → M ℕ
invoke_and_wait fuel cmd s =
    run_command fuel action_timeout (some (ok_result_parser s.low_mem)) cmd s

-- `strcat` onto a string in an array of CMDSZ bytes; past its end it is undefined (none)
unfoldable pub strcat_cmd : Option Bytes → Bytes → Option Bytes
strcat_cmd none chunk = none
strcat_cmd (some cmd) chunk =
    if ltb (length cmd + length chunk) geo_cmd_sz then some (cmd ++ chunk) else none

-- The model has no `double`: its type, the test for 0 and the text of `%4.6f` are parameters.
module _ (Double : Type 0) (is_zero : Double → Bool) (fixed : Double → Bytes) where
  -- the points of a fence
  pub record Points : Type 0 where
    pub lat1 : Double
    pub lon1 : Double
    pub lat2 : Double
    pub lon2 : Double
    pub lat3 : Double
    pub lon3 : Double
    pub lat4 : Double
    pub lon4 : Double

  -- the points that a shape does not have are to be 0
  unfoldable pub too_many_points : ℕ → Points → Bool
  too_many_points shape p =
      shape == shape_circlerad
        && (not (is_zero p.lon2)
            || not (is_zero p.lat3)
            || not (is_zero p.lon3)
            || not (is_zero p.lat4)
            || not (is_zero p.lon4))
      || shape == shape_circlept
        && (not (is_zero p.lat3)
            || not (is_zero p.lon3)
            || not (is_zero p.lat4)
            || not (is_zero p.lon4))
      || shape == shape_triangle && (not (is_zero p.lat4) || not (is_zero p.lon4))

  -- the command up to the second latitude
  unfoldable pub geo_head : ℕ → ℕ → Points → Bytes
  geo_head geo_id shape p = snprintf geo_cmd_sz (
      codes "AT+QCFGEXT=\"addgeo\","
      ++ (decimal geo_id
          ++ (codes ",0,"
              ++ (decimal shape
                  ++ (codes ","
                      ++ (fixed p.lat1
                          ++ (codes "," ++ (fixed p.lon1 ++ (codes "," ++ fixed p.lat2)))))))))

  -- a pair of coordinates in a chunk of its own
  unfoldable pub pair_chunk : Double → Double → Bytes
  pair_chunk lat lon =
      snprintf (2 * coord_sz) (codes "," ++ (fixed lat ++ (codes "," ++ fixed lon)))

  -- the command with the coordinates of the shape
  unfoldable pub geo_text : ℕ → ℕ → Points → Option Bytes
  unfolding geo_head pair_chunk strcat_cmd
  geo_text geo_id shape p =
      let head : Option Bytes = some (geo_head geo_id shape p) in
      let two =
        if leb shape_circlept shape
        then strcat_cmd head (snprintf coord_sz (codes "," ++ fixed p.lon2))
        else head in
      let three =
        if leb shape_triangle shape then strcat_cmd two (pair_chunk p.lat3 p.lon3) else two in
      if shape == shape_quadrangle then strcat_cmd three (pair_chunk p.lat4 p.lon4) else three

  -- `geo_add`
  unfoldable pub geo_add : ℕ → ℕ → ℕ → ℕ → Points → M ℕ
  unfolding too_many_points geo_text
  geo_add fuel geo_id mode shape p s =
      if not (mode == mode_no_urc)
      then ret result_badrequest s
      else if too_many_points shape p
      then ret result_badrequest s
      else elim (geo_text geo_id shape p) [
        | none ↦ stop undefined
        | some cmd ↦ invoke_and_wait fuel cmd s
      ]

-- `geo_delete`; the text fits its array of 28 bytes.
unfoldable pub geo_delete : ℕ → ℕ → M ℕ
geo_delete fuel geo_id = invoke_and_wait fuel (codes "AT+QCFGEXT=\"deletegeo\"," ++ decimal geo_id)

-- `geo_query`: a success is answered with `geo_position_unknown`, whatever the modem says.
unfoldable pub geo_query : ℕ → ℕ → M ℕ
geo_query fuel geo_id s =
    elim (invoke_and_wait fuel (codes "AT+QCFGEXT=\"querygeo\"," ++ decimal geo_id) s) [
      | stop w ↦ stop w
      | ret code t ↦ ret (if code == result_success then 0 else code) t
    ]
