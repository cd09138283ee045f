-- ===== src/Tests/Bucket/Place.antt =====
-- S3 without a prefix (s3-backend.ts) over a bucket in memory: a place that works, with a listing of 1000.
use lil_bobby_tables_my_crt.Tests.Bucket.{[]}
use lil_bobby_tables_my_crt.Tests.Memory.{find}
use lil_bobby_tables_my_crt.Tests.Bucket.{bucket, bucket-IsS3, keys_with}
use lil_bobby_tables_my_crt.Tests.Unique.{unique-NoRepeats}
use lil_bobby_tables_my_crt.Storage.Backend.{StorageBackend, IsLawful}
use lil_bobby_tables_my_crt.Storage.Fragmented.Listed.{ListsAll}
use lil_bobby_tables_my_crt.Storage.S3.{s3_backend}
use lil_bobby_tables_my_crt.Storage.S3.Unprefixed.{unprefixed_lawful, unprefixed-ListsAll}

module _ (T : Type 0) where
  abbrev pub place : StorageBackend T
  place = s3_backend (bucket T) []

  abbrev pub place_lawful : IsLawful place find
  place_lawful = unprefixed_lawful (bucket T) find (bucket-IsS3 T)

  pub place-ListsAll : ListsAll place find place_lawful 1000
  unfolding bucket-IsS3
  place-ListsAll =
      unprefixed-ListsAll (bucket T) find (bucket-IsS3 T) λ s p. unique-NoRepeats (keys_with p s)
