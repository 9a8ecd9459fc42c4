-- ===== src/Hash/Lookup.antt =====
-- The table of committed digests behaves as a set of pairs of a digest and a namespace.
use bpfima.Base.{◌≡◌, ap, true, ◌||◌, Option, Bytes, arith, bytes_eq-eq}
use bpfima.Hash.{
  Kernel, HashEntry, HashTable, matches, bucket_has, hash_exists, publish_hash_entry, le32,
  namespace_or_empty,
}

matches-le32 : (e : HashEntry) (v ns : Bytes) → matches e v ns ≡ true → e.sha256_hash ≡ v
unfolding matches
matches-le32 e v ns h = bytes_eq-eq e.sha256_hash v (ground arith)

module _ (k : Kernel) where
  same_bucket :
      (e : HashEntry) (v ns : Bytes)
      → matches e v ns ≡ true
      → k.hash_min (le32 e.sha256_hash) ≡ k.hash_min (le32 v)
  same_bucket e v ns h = ap (λ b. k.hash_min (le32 b)) (matches-le32 e v ns h)

  pub hash_exists-publish_hash_entry :
      (t : HashTable) (e : HashEntry) (v : Bytes) (ns : Option Bytes)
      → hash_exists k (publish_hash_entry k t e) v ns
        ≡ (matches e v (namespace_or_empty ns) || hash_exists k t v ns)
  unfolding hash_exists publish_hash_entry bucket_has
  hash_exists-publish_hash_entry t e v ns = ground (arith, same_bucket e v (namespace_or_empty ns))
