-- ===== src/Location.antt =====
-- src/ltemc-gnss.c and src/ltemc-geo.c: the position of the modem, and geo-fences.
pub mod Fence
mod Tests
use cr_lte_modem.Base.{
  ℕ, zero, suc, ◌+◌, ◌-◌, ◌*◌, ◌/◌, ◌%◌, ◌^◌, ◌≤◌, ◌<◌, min, ◌≡◌, refl, sym, ap, ap₂, ◌∙◌, ◌≢◌, ◌↔◌,
  ◌⊎◌, inl, inr, Bool, true, false, not, ◌&&◌, ◌||◌, Option, none, some, List, [], ◌∷◌, ◌++◌, map,
  append-nil, append_assoc, arith, ltb, leb, ◌==◌, if◌then◌else◌, ltb→lt, lt→ltb, leb→le, ==_iff,
  if-elim, Bool-cases, Option-cases, length, get_elem?, get_or, set, take, drop, replicate,
  length-append, length-set, length-take, length-drop, length-replicate, take-append-drop,
  take-append, drop-append, drop-append_le, drop-add, drop-append_add, get_elem?-eq-get_or,
  get_or-set_self, get_or-set_ne, take-nil, List-cases, bit, bit-bits_or, bit-bits_and,
  bit-bits_and_not, bit-not_zero, bit-pow, bits_or, bits_and, bits_and_not, u8, u16, u32, sub16,
  sub32,
}
use cr_lte_modem.CString.{Bytes, codes, c_str, strtol, to_word}
use cr_lte_modem.Parser.{Parser, token_result_parser, ok_completed, result_success}
use cr_lte_modem.Token.{zeros, str_token}
use cr_lte_modem.Device.{Ltem, M, ret, stop, undefined, ◌>>=◌, ◌>>◌, pure}
use cr_lte_modem.Command
use cr_lte_modem.Command.{action_timeout, try_invoke_adv}
use cr_lte_modem.Command.Poll.{AtcmdResult, response_mem, await_result}
use cr_lte_modem.Command.Run.{run_command, string_at}

abbrev pub gnss_loc_dataoffset : ℕ
gnss_loc_dataoffset = 12

abbrev pub gnss_loc_expected_tokencount : ℕ
gnss_loc_expected_tokencount = 11

abbrev pub gnss_timeout : ℕ
gnss_timeout = 800

-- the buffer of a token, which the function clears
abbrev pub token_sz : ℕ
token_sz = 12

-- `gnssLocCompleteParser`
unfoldable pub gnss_loc_complete_parser : Parser
gnss_loc_complete_parser =
    token_result_parser (codes "+QGPSLOC:") b',' gnss_loc_expected_tokencount ok_completed

-- `gnss_on`
unfoldable pub gnss_on : ℕ → M ℕ
gnss_on fuel = run_command fuel gnss_timeout none (codes "AT+QGPS=1")

-- `gnss_off`
unfoldable pub gnss_off : ℕ → M ℕ
gnss_off fuel = run_command fuel gnss_timeout none (codes "AT+QGPSEND")

-- `gnssLocation_t` over the numbers of `float`; strings stand for the `char` arrays.
pub record GnssLocation (Float : Type 0) : Type 0 where
  pub utc : Bytes
  pub lat : Float
  pub lat_dir : ℕ
  pub lon : Float
  pub lon_dir : ℕ
  pub hdop : Float
  pub altitude : Float
  pub fix_type : ℕ
  pub course : Float
  pub speedkm : Float
  pub speedkn : Float
  pub date : Bytes
  pub nsat : ℕ
  pub status_code : ℕ

-- There are no floats in the model: their type, `strtof` (a value and the offset of the end) and what an
-- uninitialised one holds are parameters.
module _ (Float : Type 0) (strtof : Bytes → Float × ℕ) (junk : Float) where
  -- the next number of a row, with the place behind the comma that follows it
  unfoldable pub read_float : Bytes → ℕ → Float × ℕ
  read_float mem k = let (v, n) = strtof (string_at mem k) in (v, k + n + 1)

  -- the last part of a response: date and number of satellites
  unfoldable pub read_date : Bytes → ℕ → GnssLocation Float → Option (GnssLocation Float)
  read_date mem k loc = elim (str_token (string_at mem k) b',' (zeros token_sz) token_sz) [
    | none ↦ none
    | some t ↦ elim t.rest [
      | none ↦ none
      | some n ↦ some (record loc {
        date = take 7 (c_str t.buf);
        nsat = to_word 65536 (strtol (string_at mem (k + n)));
      })
    ]
  ]

  -- the middle part: the numbers from the latitude on, each behind a comma
  unfoldable pub read_numbers : Bytes → ℕ → GnssLocation Float → Option (GnssLocation Float)
  unfolding read_float read_date
  read_numbers mem k₁ loc =
      let (lat, k₂) = read_float mem k₁ in
      let (lon, k₃) = read_float mem k₂ in
      let (hdop, k₄) = read_float mem k₃ in
      let (altitude, k₅) = read_float mem k₄ in
      let fix = strtol (string_at mem k₅) in
      let (course, k₆) = read_float mem (k₅ + fix.stop + 1) in
      let (speedkm, k₇) = read_float mem k₆ in
      let (speedkn, k₈) = read_float mem k₇ in
      read_date mem k₈ (record loc {
        lat = lat;
        lat_dir = 32;
        lon = lon;
        lon_dir = 32;
        hdop = hdop;
        altitude = altitude;
        fix_type = to_word 65536 fix;
        course = course;
        speedkm = speedkm;
        speedkn = speedkn;
      })

  -- The response parsed: time of day, numbers, date. A token that is not there makes the next read one
  -- at NULL, which is undefined (none).
  unfoldable pub read_location : Bytes → GnssLocation Float → Option (GnssLocation Float)
  unfolding read_numbers
  read_location mem loc =
      elim (str_token (string_at mem gnss_loc_dataoffset) b',' (zeros token_sz) token_sz) [
        | none ↦ none
        | some t ↦ elim t.rest [
          | none ↦ none
          | some n ↦
              read_numbers mem (gnss_loc_dataoffset + n)
                (record loc { utc = take 11 (c_str t.buf) })
        ]
      ]

  -- the struct on the stack
  unfoldable pub uninitialised : Ltem → GnssLocation Float
  uninitialised s = record {
    utc = s.garbage ∷ [];
    lat = junk;
    lat_dir = s.garbage;
    lon = junk;
    lon_dir = s.garbage;
    hdop = junk;
    altitude = junk;
    fix_type = s.garbage;
    course = junk;
    speedkm = junk;
    speedkn = junk;
    date = s.garbage ∷ [];
    nsat = s.garbage;
    status_code = s.garbage;
  }

  -- `gnss_getLocation`: where the command is not invoked nothing is set, not even the code.
  unfoldable pub gnss_get_location : ℕ → M (GnssLocation Float)
  unfolding read_location uninitialised
  gnss_get_location fuel s =
      elim (try_invoke_adv (codes "AT+QGPSLOC=2") action_timeout (some gnss_loc_complete_parser)
        s) [
          | stop w ↦ stop w
          | ret false t ↦ ret (uninitialised t) t
          | ret true t ↦ elim (await_result fuel false t) [
            | stop w ↦ stop w
            | ret r u ↦
                let loc = record (uninitialised u) { status_code = r.status_code } in
                if r.status_code == result_success
                then elim (read_location (response_mem r.response u) loc) [
                  | none ↦ stop undefined
                  | some l ↦ (Command.close >>= λ _. pure l) u
                ]
                else (Command.close >>= λ _. pure loc) u
          ]
        ]
