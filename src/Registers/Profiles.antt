-- ===== src/Registers/Profiles.antt =====
-- `resolve_profile`: which inverter family a record comes from, by the register ranges it reports.
use growatt_datalogger.Base.{
  Bool, List, Option, [], contains, false, if◌then◌else◌, leb, ltb, none, some, true, ℕ, ◌&&◌, ◌==◌,
  ◌||◌, ◌∷◌,
}
use growatt_datalogger.Python.{Str, is_empty, str_eq}

pub data ProfileKey : Type 0 where
  protocol_ii protocol_ii_3000 storage_1000 storage_3000 legacy_315 offgrid : ProfileKey

-- The keys as the configuration spells them.
abbrev pub key_name : ProfileKey → Str
key_name protocol_ii = 112 ∷ 114 ∷ 111 ∷ 116 ∷ 111 ∷ 99 ∷ 111 ∷ 108 ∷ 95 ∷ 105 ∷ 105 ∷ []
key_name protocol_ii_3000 =
    112 ∷ 114 ∷ 111 ∷ 116 ∷ 111 ∷ 99 ∷ 111 ∷ 108 ∷ 95 ∷ 105 ∷ 105 ∷ 95 ∷ 51 ∷ 48 ∷ 48 ∷ 48 ∷ []
key_name storage_1000 = 115 ∷ 116 ∷ 111 ∷ 114 ∷ 97 ∷ 103 ∷ 101 ∷ 95 ∷ 49 ∷ 48 ∷ 48 ∷ 48 ∷ []
key_name storage_3000 = 115 ∷ 116 ∷ 111 ∷ 114 ∷ 97 ∷ 103 ∷ 101 ∷ 95 ∷ 51 ∷ 48 ∷ 48 ∷ 48 ∷ []
key_name legacy_315 = 108 ∷ 101 ∷ 103 ∷ 97 ∷ 99 ∷ 121 ∷ 95 ∷ 51 ∷ 49 ∷ 53 ∷ []
key_name offgrid = 111 ∷ 102 ∷ 102 ∷ 103 ∷ 114 ∷ 105 ∷ 100 ∷ []

abbrev profiles : List ProfileKey
profiles = protocol_ii ∷ protocol_ii_3000 ∷ storage_1000 ∷ storage_3000 ∷ legacy_315 ∷ offgrid ∷ []

-- `PROFILES.get(key)`
abbrev profile_among : List ProfileKey → Str → Option ProfileKey
profile_among [] name = none
profile_among (p ∷ ps) name =
    let rest = profile_among ps name in if str_eq (key_name p) name then some p else rest

abbrev pub profile_get : Str → Option ProfileKey
profile_get name = profile_among profiles name

abbrev pub fallback_profile : ProfileKey
fallback_profile = protocol_ii

-- `ProfileMatch` without its reason, which is a text for the user.
pub record ProfileMatch : Type 0 where
  pub profile : ProfileKey
  pub confident : Bool

abbrev pub sure : ProfileKey → ProfileMatch
sure p = record { profile = p; confident = true }

abbrev pub unsure : ProfileMatch
unsure = record { profile = fallback_profile; confident = false }

abbrev pub protocol_ii_block_end : ℕ
protocol_ii_block_end = 124

abbrev pub legacy_block_ends : List ℕ
legacy_block_ends = 44 ∷ 89 ∷ []

-- `_zero_block_end`
unfoldable pub zero_block_end : List (ℕ × ℕ) → Option ℕ
zero_block_end [] = none
zero_block_end ((start, end) ∷ ranges) = if start == 0 then some end else zero_block_end ranges

-- `any(test(start) for start in starts)`
unfoldable pub any_start : (ℕ → Bool) → List (ℕ × ℕ) → Bool
any_start test [] = false
any_start test ((start, end) ∷ ranges) = test start || any_start test ranges

abbrev pub in_storage_block : ℕ → Bool
in_storage_block start = leb 1000 start && ltb start 2000

unfoldable pub by_block_end : Option ℕ → ProfileMatch
by_block_end none = unsure
by_block_end (some end) =
    if contains legacy_block_ends end
    then sure legacy_315
    else if end == protocol_ii_block_end
    then sure protocol_ii
    else unsure

-- what is inferred from at least one range
unfoldable pub infer : List (ℕ × ℕ) → ProfileMatch
unfolding any_start zero_block_end by_block_end
infer ranges =
    if any_start (leb 3000) ranges
    then if any_start (leb 3125) ranges then sure storage_3000 else sure protocol_ii_3000
    else if any_start in_storage_block ranges
    then sure storage_1000
    else by_block_end (zero_block_end ranges)

abbrev pub infer_any : List (ℕ × ℕ) → ProfileMatch
infer_any ranges = if is_empty ranges then unsure else infer ranges

abbrev pub pinned : Option ProfileKey → ProfileMatch → ProfileMatch
pinned none guess = guess
pinned (some p) guess = sure p

-- An empty override is as good as none; so is one that names no profile.
unfoldable pub resolve_profile : List (ℕ × ℕ) → Option Str → ProfileMatch
unfolding infer
resolve_profile ranges none = infer_any ranges
resolve_profile ranges (some name) =
    pinned (if is_empty name then none else profile_get name) (infer_any ranges)
