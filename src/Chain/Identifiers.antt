-- ===== src/Chain/Identifiers.antt =====
-- backend/src/platform/crypto/license-crypto.ts (uuidToBytes16) and backend/src/modules/blockchain/
-- application/rpc-chain-indexer.service.ts (bytes16ToUuid): identifiers as the contracts write them.
-- A string is the list of its code units.
pub mod Roundtrip
use emu_key.Prelude.{
  ℕ, zero, suc, ◌+◌, ◌-◌, Bool, true, false, not, ◌&&◌, ◌||◌, Option, none, some, List, [], ◌∷◌,
  ◌++◌, map, leb, ◌==◌, if◌then◌else◌, select_all,
}

abbrev pub is_lower_hex : ℕ → Bool
is_lower_hex c = leb 48 c && leb c 57 || leb 97 c && leb c 102

-- `[0-9a-fA-F]`
abbrev pub is_hex : ℕ → Bool
is_hex c = is_lower_hex c || leb 65 c && leb c 70

-- `toLowerCase`, on hexadecimal digits
abbrev pub to_lower : ℕ → ℕ
to_lower c = if leb 65 c && leb c 90 then c + 32 else c

abbrev pub dash : ℕ
dash = 45

-- `[0-9a-f]{n}`, then the rest of the pattern
unfoldable pub hex_run : ℕ → (List ℕ → Bool) → List ℕ → Bool
hex_run zero rest s = rest s
hex_run (suc n) rest [] = false
hex_run (suc n) rest (c ∷ s) = is_hex c && hex_run n rest s

abbrev pub dashed : (List ℕ → Bool) → List ℕ → Bool
dashed rest [] = false
dashed rest (c ∷ s) = c == dash && rest s

abbrev pub is_end : List ℕ → Bool
is_end [] = true
is_end (c ∷ s) = false

-- `/^[0-9a-f]{8}-[0-9a-f]{4}-[0-9a-f]{4}-[0-9a-f]{4}-[0-9a-f]{12}$/i`
unfoldable pub is_uuid : List ℕ → Bool
is_uuid =
    hex_run 8
      (dashed (hex_run 4 (dashed (hex_run 4 (dashed (hex_run 4 (dashed (hex_run 12 is_end))))))))

-- `/^0x[0-9a-fA-F]{32}$/`
unfoldable pub is_bytes16 : List ℕ → Bool
is_bytes16 [] = false
is_bytes16 (a ∷ []) = false
is_bytes16 (a ∷ b ∷ s) = a == 48 && b == 120 && hex_run 32 is_end s

unfoldable pub take : ℕ → List ℕ → List ℕ
take zero s = []
take (suc n) [] = []
take (suc n) (c ∷ s) = c ∷ take n s

unfoldable pub drop : ℕ → List ℕ → List ℕ
drop zero s = s
drop (suc n) [] = []
drop (suc n) (c ∷ s) = drop n s

abbrev pub slice : ℕ → ℕ → List ℕ → List ℕ
slice from to s = take (to - from) (drop from s)

unfoldable pub uuid_of : List ℕ → List ℕ
uuid_of hex =
    slice 0 8 hex
    ++ (dash
        ∷ (slice 8 12 hex
            ++ (dash ∷ (slice 12 16 hex ++ (dash ∷ (slice 16 20 hex ++ (dash ∷ drop 20 hex)))))))

-- `none` is CHAIN_EVENT_…_INVALID
unfoldable pub bytes16_to_uuid : List ℕ → Option (List ℕ)
bytes16_to_uuid value =
    if is_bytes16 value then some (uuid_of (map to_lower (drop 2 value))) else none

-- `none` is the error `Invalid UUID`
unfoldable pub uuid_to_bytes16 : List ℕ → Option (List ℕ)
uuid_to_bytes16 value =
    if is_uuid value
    then some (48 ∷ 120 ∷ map to_lower (select_all (λ c. not (c == dash)) value))
    else none
