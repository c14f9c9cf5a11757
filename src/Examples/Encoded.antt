-- ===== src/Examples/Encoded.antt =====
-- The theorems on encoded variables and on matchers at concrete inputs.
use dballe.Prelude.{
  ℕ, ◌≡◌, refl, arith, Bool, true, false, ◌==◌, ◌||◌, if◌then◌else◌, List, [], ◌∷◌, length, some,
  none, ok,
}
use dballe.Prelude.Int.{pos, negsuc, eqb_ℤ}
use dballe.LonRange.{lon_range}
use dballe.LonRange as LonRanges
use dballe.Query.{Query, no_query}
use dballe.Encoding.{Wreport, text, number, Decoded, decode_loop, encode_onto}
use dballe.Encoding.RoundTrip.{IsEncodable, decode_loop-encode}
use dballe.Encoding.Decoding.{decode_loop_total}
use dballe.Matcher.{Matched, yes, no, na, create, to_query, lon_in_range}
use dballe.Matcher.Conjunction.{lon_in_range-contains}
use dballe.Matcher.Reading.{create-to_query}

-- Two variables: the text "AB" with code 1, and the number -7 with code 258
abbrev table : Wreport Bool
table = record {
  kind = λ c. if c == 1 then some text else if c == 258 then some number else none;
  code = λ v. if v then 1 else 258;
  own_kind = λ v. if v then text else number;
  enqc = λ v. 65 ∷ 66 ∷ [];
  enqi = λ v. negsuc 6;
  of_text = λ c s. ok true;
  of_number = λ c z. ok false;
}

abbrev itself : Bool → Bool
itself v = v

text-IsEncodable : IsEncodable table itself true
text-IsEncodable = record {
  code_in = omega arith;
  known = refl;
  text_in = λ h. (refl, (refl, tt));
  number_in = λ h. record { above = omega arith; below = omega arith };
  of_enqc = λ h. refl;
  of_enqi = λ h. cc;
}

number-IsEncodable : IsEncodable table itself false
number-IsEncodable = record {
  code_in = omega arith;
  known = refl;
  text_in = λ h. (refl, (refl, tt));
  number_in = λ h. record { above = omega arith; below = omega arith };
  of_enqc = λ h. cc;
  of_enqi = λ h. refl;
}

decode_loop-encode_example :
    decode_loop table
      (length (encode_onto table [] (true ∷ false ∷ [])))
      (encode_onto table [] (true ∷ false ∷ []))
    ≡ some (record { vars = true ∷ false ∷ []; thrown = none })
decode_loop-encode_example =
    decode_loop-encode table itself (true ∷ false ∷ []) (text-IsEncodable, (number-IsEncodable, tt))

-- The last string has no end.
abbrev cut_short : List ℕ
cut_short = 0 ∷ 1 ∷ 65 ∷ 66 ∷ 0 ∷ 0 ∷ 0 ∷ 1 ∷ 65 ∷ []

decode_loop_total_example : (d : Decoded Bool) × (decode_loop table 9 cut_short ≡ some d)
decode_loop_total_example = decode_loop_total table 9 cut_short (omega arith)

-- An object of station 5, which has no other property
abbrev station_5 : Matched
station_5 = record {
  match_station_id = λ id. if eqb_ℤ id (pos 5) then yes else no;
  match_station_wmo = λ block station. na;
  match_datetime = λ range. na;
  match_coords = λ lats lons. na;
  match_rep_memo = λ memo. na;
}

abbrev of_station_5 : Query
of_station_5 = record no_query { ana_id = pos 5 }

lon_in_range-contains_example :
    (lon_in_range (negsuc 17499999) (pos 17000000) (negsuc 16999999)
      ≡ ok (
          if eqb_ℤ (pos 17000000) (negsuc 16999999)
            || LonRanges.contains (lon_range (pos 17000000) (negsuc 16999999)) (negsuc 17499999)
          then yes
          else no))
    × (LonRanges.contains (lon_range (pos 17000000) (pos 17000000)) (negsuc 17499999)
        ≡ eqb_ℤ (negsuc 17499999) (pos 17000000))
lon_in_range-contains_example =
    lon_in_range-contains (negsuc 17499999) (pos 17000000) (negsuc 16999999) (omega arith)
      (omega arith) (omega arith) (omega arith)

create-to_query_example : create (to_query (create of_station_5) no_query) ≡ create of_station_5
create-to_query_example = create-to_query of_station_5
