-- ===== src/Hash.antt =====
-- src/hash_utils.c: SHA-256 through the kernel's crypto API, and the table of the digests that
-- were committed, by which duplicates are found.
pub mod Lookup
pub mod Extend
use bpfima.Base.{
  ℕ, ◌+◌, ◌*◌, List, [], ◌∷◌, ◌++◌, Bool, true, false, ◌&&◌, Option, none, some, Bytes, ℤ, einval,
  is_neg, bytes_eq, strscpy, get_or, ◌==◌, if◌then◌else◌,
}

-- The kernel's own functions that the module computes with: the SHA-256 of a byte string, and
-- `hash_min`, by which <linux/hashtable.h> picks the bucket of a key.
pub record Kernel : Type 0 where
  pub sha256 : Bytes → Bytes
  pub hash_min : ℕ → ℕ

abbrev pub merkle_hash_size : ℕ
merkle_hash_size = 32

abbrev pub container_id_max_len : ℕ
container_id_max_len = 128

-- What the four calls of one `crypto_shash` computation return.
pub record ShashRun : Type 0 where
  pub init : ℤ
  pub first_update : ℤ
  pub second_update : ℤ
  pub final : ℤ

pub record HashEntry : Type 0 where
  pub sha256_hash : Bytes
  pub namespace_id : Bytes

-- The bucket heads of `sha256_hash_table`, by bucket number.
abbrev pub HashTable : Type 0
HashTable = ℕ → List HashEntry

abbrev pub empty_table : HashTable
empty_table n = []

-- `get_unaligned_le32`
unfoldable pub le32 : Bytes → ℕ
le32 b = get_or b 0 0 + 256 * get_or b 1 0 + 65536 * get_or b 2 0 + 16777216 * get_or b 3 0

-- The test of `hash_exists` on one entry: same digest and same namespace.
unfoldable pub matches : HashEntry → Bytes → Bytes → Bool
matches e hash_value ns = bytes_eq e.sha256_hash hash_value && bytes_eq e.namespace_id ns

unfoldable pub bucket_has : List HashEntry → Bytes → Bytes → Bool
bucket_has [] hash_value ns = false
bucket_has (e ∷ es) hash_value ns =
    if matches e hash_value ns then true else bucket_has es hash_value ns

-- A NULL namespace is the empty string.
abbrev pub namespace_or_empty : Option Bytes → Bytes
namespace_or_empty none = []
namespace_or_empty (some ns) = ns

-- `kzalloc` fails where the flag is false.
unfoldable pub alloc_hash_entry : Bool → Bytes → Option Bytes → Option HashEntry
alloc_hash_entry allocated hash_value ns =
    if allocated
    then some (record {
      sha256_hash = hash_value;
      namespace_id = strscpy container_id_max_len (namespace_or_empty ns);
    })
    else none

module _ (k : Kernel) where
  -- `calculate_sha256_hash`: the flag says that the transform is there, the number is what
  -- `crypto_shash_digest` returns. The bytes are what `digest` points to afterwards.
  unfoldable pub calculate_sha256_hash : Bool → ℤ → Bytes → ℤ × Bytes
  calculate_sha256_hash tfm digest_ret content =
      if tfm then (digest_ret, k.sha256 content) else (einval, [])

  -- `bpfima_extend_hash`; the pointers other than `tfm` are never NULL in its callers.
  unfoldable pub extend_hash : Bool → ShashRun → Bytes → Bytes → ℤ × Bytes
  extend_hash tfm run old_hash new_data =
      if tfm
      then if is_neg run.init
        then (run.init, [])
        else if is_neg run.first_update
        then (run.first_update, [])
        else if is_neg run.second_update
        then (run.second_update, [])
        else (run.final, k.sha256 (old_hash ++ new_data))
      else (einval, [])

  unfoldable pub hash_exists : HashTable → Bytes → Option Bytes → Bool
  hash_exists table hash_value ns =
      bucket_has (table (k.hash_min (le32 hash_value))) hash_value (namespace_or_empty ns)

  -- `bpfima_publish_hash_entry_locked`: `hash_add` puts the entry at the head of its bucket.
  unfoldable pub publish_hash_entry : HashTable → HashEntry → HashTable
  publish_hash_entry table e n =
      if n == k.hash_min (le32 e.sha256_hash) then e ∷ table n else table n

-- `cleanup_hash_table` unlinks the entries of every bucket.
unfoldable pub cleanup_hash_table : HashTable → HashTable
cleanup_hash_table table = empty_table
