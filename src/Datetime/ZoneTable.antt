-- ===== src/Datetime/ZoneTable.antt =====
-- util/datetime/tokenmaps.go: the table of the abbreviations of time zones.
use sp0rkle.Prelude.{Bytes, codes, List, [], ◌∷◌}

-- `zoneTokenMap`
abbrev pub zone_table : List (Bytes × Bytes)
zone_table =
    (codes "ADT", codes "America/Barbados")
    ∷ (codes "AFT", codes "Asia/Kabul")
    ∷ (codes "AKST", codes "US/Alaska")
    ∷ (codes "AKDT", codes "US/Alaska")
    ∷ (codes "AMT", codes "America/Boa_Vista")
    ∷ (codes "ANAT", codes "Asia/Anadyr")
    ∷ (codes "ART", codes "America/Argentina/Buenos_Aires")
    ∷ (codes "AST", codes "Asia/Qatar")
    ∷ (codes "AZOT", codes "Atlantic/Azores")
    ∷ (codes "BNT", codes "Asia/Brunei")
    ∷ (codes "BRT", codes "Brazil/East")
    ∷ (codes "BRST", codes "Brazil/East")
    ∷ (codes "BST", codes "GB")
    ∷ (codes "CAT", codes "Africa/Harare")
    ∷ (codes "CCT", codes "Indian/Cocos")
    ∷ (codes "CDT", codes "US/Central")
    ∷ (codes "CEST", codes "Europe/Zurich")
    ∷ (codes "CLST", codes "Chile/Continental")
    ∷ (codes "EAT", codes "Africa/Nairobi")
    ∷ (codes "EDT", codes "US/Eastern")
    ∷ (codes "EET", codes "Europe/Athens")
    ∷ (codes "EIT", codes "Asia/Jayapura")
    ∷ (codes "EEST", codes "Europe/Athens")
    ∷ (codes "FET", codes "Europe/Kaliningrad")
    ∷ (codes "FJT", codes "Pacific/Fiji")
    ∷ (codes "FJST", codes "Pacific/Fiji")
    ∷ (codes "GET", codes "Asia/Tbilisi")
    ∷ (codes "GST", codes "Asia/Dubai")
    ∷ (codes "HADT", codes "US/Aleutian")
    ∷ (codes "HAST", codes "US/Aleutian")
    ∷ (codes "HKT", codes "Hongkong")
    ∷ (codes "HST", codes "US/Hawaii")
    ∷ (codes "ICT", codes "Asia/Bangkok")
    ∷ (codes "IDT", codes "Asia/Tel_Aviv")
    ∷ (codes "IDDT", codes "Asia/Tel_Aviv")
    ∷ (codes "IRDT", codes "Iran")
    ∷ (codes "IRST", codes "Iran")
    ∷ (codes "IOT", codes "Indian/Chagos")
    ∷ (codes "IST", codes "Asia/Kolkata")
    ∷ (codes "JST", codes "Asia/Tokyo")
    ∷ (codes "KGT", codes "Asia/Bishkek")
    ∷ (codes "KST", codes "Asia/Pyongyang")
    ∷ (codes "MDT", codes "US/Mountain")
    ∷ (codes "MART", codes "Pacific/Marquesas")
    ∷ (codes "MET", codes "MET")
    ∷ (codes "MEST", codes "MET")
    ∷ (codes "MMT", codes "Asia/Rangoon")
    ∷ (codes "MVT", codes "Indian/Maldives")
    ∷ (codes "MYT", codes "Asia/Kuala_Lumpur")
    ∷ (codes "NDT", codes "Canada/Newfoundland")
    ∷ (codes "NPT", codes "Asia/Kathmandu")
    ∷ (codes "NST", codes "Canada/Newfoundland")
    ∷ (codes "NZDT", codes "Pacific/Auckland")
    ∷ (codes "NZST", codes "Pacific/Auckland")
    ∷ (codes "PDT", codes "US/Pacific")
    ∷ (codes "PHT", codes "Asia/Manila")
    ∷ (codes "PKT", codes "Asia/Karachi")
    ∷ (codes "PST", codes "US/Pacific")
    ∷ (codes "PWT", codes "Pacific/Palau")
    ∷ (codes "RET", codes "Indian/Reunion")
    ∷ (codes "SAST", codes "Africa/Johannesburg")
    ∷ (codes "SCT", codes "Indian/Mahe")
    ∷ (codes "SGT", codes "Asia/Singapore")
    ∷ (codes "SST", codes "US/Samoa")
    ∷ (codes "ULAT", codes "Asia/Ulaanbaatar")
    ∷ (codes "UTC", codes "UTC")
    ∷ (codes "UZT", codes "Asia/Tashkent")
    ∷ (codes "WAT", codes "Africa/Lagos")
    ∷ (codes "WAST", codes "Africa/Lagos")
    ∷ (codes "WET", codes "WET")
    ∷ (codes "WEST", codes "WET")
    ∷ (codes "WIT", codes "Asia/Jakarta")
    ∷ (codes "WST", codes "Australia/West")
    ∷ (codes "VET", codes "America/Caracas")
    ∷ (codes "VLAT", codes "Asia/Vladivostok")
    ∷ (codes "Z", codes "UTC")
    ∷ []
