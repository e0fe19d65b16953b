-- ===== src/Examples/Identifiers.antt =====
-- backend/src/platform/crypto/license-crypto.ts: a concrete identifier.
use emu_key.Prelude.{ℕ, ◌≡◌, refl, some, List, [], ◌∷◌, map}
use emu_key.Chain.Identifiers.{
  to_lower, bytes16_to_uuid, uuid_to_bytes16, is_bytes16, hex_run, take, drop, uuid_of,
}
use emu_key.Chain.Identifiers.Roundtrip.{uuid_to_bytes16-bytes16_to_uuid}

-- 0x00112233445566778899AABBCCDDEEFf
abbrev sixteen_bytes : List ℕ
sixteen_bytes =
    48 ∷ 120 ∷ 48 ∷ 48 ∷ 49 ∷ 49 ∷ 50 ∷ 50 ∷ 51 ∷ 51 ∷ 52 ∷ 52 ∷ 53 ∷ 53 ∷ 54 ∷ 54 ∷ 55 ∷ 55 ∷ 56
    ∷ 56 ∷ 57 ∷ 57 ∷ 65 ∷ 65 ∷ 66 ∷ 66 ∷ 67 ∷ 67 ∷ 68 ∷ 68 ∷ 69 ∷ 69 ∷ 70 ∷ 102 ∷ []

-- 00112233-4455-6677-8899-aabbccddeeff
abbrev as_uuid : List ℕ
as_uuid =
    48 ∷ 48 ∷ 49 ∷ 49 ∷ 50 ∷ 50 ∷ 51 ∷ 51 ∷ 45 ∷ 52 ∷ 52 ∷ 53 ∷ 53 ∷ 45 ∷ 54 ∷ 54 ∷ 55 ∷ 55 ∷ 45
    ∷ 56 ∷ 56 ∷ 57 ∷ 57 ∷ 45 ∷ 97 ∷ 97 ∷ 98 ∷ 98 ∷ 99 ∷ 99 ∷ 100 ∷ 100 ∷ 101 ∷ 101 ∷ 102 ∷ 102 ∷ []

written : bytes16_to_uuid sixteen_bytes ≡ some as_uuid
unfolding bytes16_to_uuid is_bytes16 hex_run take drop uuid_of
written = refl

uuid_to_bytes16-bytes16_to_uuid_example :
    uuid_to_bytes16 as_uuid ≡ some (map to_lower sixteen_bytes)
uuid_to_bytes16-bytes16_to_uuid_example =
    uuid_to_bytes16-bytes16_to_uuid sixteen_bytes as_uuid written
