-- ===== src/Hash/Extend.antt =====
-- A successful extension is the SHA-256 of the two blocks, and a run of the crypto API that goes
-- well succeeds.
use bpfima.Base.{◌≡◌, Bool, ◌++◌, arith, Bytes, pos}
use bpfima.Hash.{Kernel, ShashRun, extend_hash}

module _ (k : Kernel) where
  pub extend_hash_zero :
      (tfm : Bool) (run : ShashRun) (old new : Bytes)
      → (extend_hash k tfm run old new).0 ≡ pos 0
      → (extend_hash k tfm run old new).1 ≡ k.sha256 (old ++ new)
  unfolding extend_hash
  extend_hash_zero tfm run old new h = ground arith
