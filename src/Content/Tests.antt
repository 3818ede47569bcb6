-- ===== src/Content/Tests.antt =====
-- Runs of the codecs, and the round trips at concrete values.
use kelvin.Prelude.{ℕ, ◌<◌, ◌^◌, [], ◌∷◌, ◌≡◌, refl, length}
use kelvin.Prelude.Outcome.{failed, invalid_data}
use kelvin.Content.{Bytes, ByteHash, Content, writing, option, u8, bool, vec, pair, number}
use kelvin.Content.Laws.{IsPlain}
use kelvin.Content.Codecs.{
  FitsOption, FitsEach, option-IsPlain, vec-IsPlain, pair-IsPlain, u8-IsPlain,
}
use kelvin.Content.Samples.{sample_hash, sample_hash-IsHasher, big_endian, big_endian-IsByteOrder}

abbrev byte : Content Bytes (Unit {0}) ℕ
byte = u8 sample_hash

abbrev byte-plain : IsPlain sample_hash byte (λ t. Unit {0})
byte-plain = u8-IsPlain sample_hash sample_hash-IsHasher

bool-rejects : (bool {B = Unit {0}} sample_hash).restore (2 ∷ []) ≡ failed invalid_data
unfolding bool kelvin.Content.read_byte kelvin.Content.restore_bool
bool-rejects = refl

option-IsPlain_example : IsPlain sample_hash (option sample_hash byte) (FitsOption (λ t. Unit {0}))
option-IsPlain_example =
    option-IsPlain sample_hash sample_hash-IsHasher byte (λ t. Unit {0}) byte-plain

pair-IsPlain_example : IsPlain sample_hash (pair byte byte) (λ r. Unit {0} × Unit {0})
pair-IsPlain_example =
    pair-IsPlain sample_hash sample_hash-IsHasher byte byte (λ t. Unit {0}) (λ t. Unit {0})
      byte-plain byte-plain

vec-IsPlain_example :
    IsPlain sample_hash
      (vec sample_hash big_endian byte)
      (λ ts. (length ts < 2 ^ 64) × FitsEach (λ t. Unit {0}) ts)
vec-IsPlain_example =
    vec-IsPlain sample_hash sample_hash-IsHasher byte (λ t. Unit {0}) byte-plain big_endian
      big_endian-IsByteOrder
