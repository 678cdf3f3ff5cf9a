-- ===== src/Fingerprint/Runs.antt =====
-- Runs of src/utils/adu-fingerprint.ts.
use njs_modbus.Common.{◌≡◌, refl, [], ◌∷◌, some, none}
use njs_modbus.Fingerprint.{scramble, mix, avalanche, adu_hash}
use njs_modbus.Fingerprint.Laws.{adu_hash-murmur3}
use njs_modbus.Fingerprint.Murmur.{murmur3}

adu_hash_empty : adu_hash none [] ≡ 0
unfolding adu_hash avalanche
adu_hash_empty = refl

-- A published value of MurmurHash3 with seed 0, for the text "test".
adu_hash_test : adu_hash (some (0x73 ∷ 0x74 ∷ [])) (0x74 ∷ 0x65 ∷ []) ≡ 0xba6bd213
unfolding adu_hash avalanche mix scramble
adu_hash_test = refl

adu_hash-murmur3_example :
    adu_hash (some (0 ∷ 0 ∷ 0 ∷ 10 ∷ [])) (1 ∷ 3 ∷ []) ≡ murmur3 0 (1 ∷ 3 ∷ 0 ∷ 0 ∷ 0 ∷ 10 ∷ [])
adu_hash-murmur3_example = adu_hash-murmur3 (some (0 ∷ 0 ∷ 0 ∷ 10 ∷ [])) (1 ∷ 3 ∷ [])
