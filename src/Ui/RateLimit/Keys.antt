-- ===== src/Ui/RateLimit/Keys.antt =====
-- The keys of the counting windows: two buckets, or two callers of one bucket, never share a window.
use hx_fortress.Prelude.{◌≡◌, Text, IsFree, append-separator, arith}
use hx_fortress.Ui.RateLimit.{BucketName, sign_in, bucket_text, window_key}

bucket_text-IsFree : (b : BucketName) → IsFree b':' (bucket_text b)
bucket_text-IsFree sign_in = ground arith
bucket_text-IsFree _ = ground arith

bucket_text-injective : (b c : BucketName) → bucket_text b ≡ bucket_text c → b ≡ c
bucket_text-injective b c e = ground arith

pub window_key-injective :
    (b c : BucketName) (k j : Text) → window_key b k ≡ window_key c j → (b ≡ c) × (k ≡ j)
unfolding window_key
window_key-injective b c k j e =
    let r : (bucket_text b ≡ bucket_text c) × (k ≡ j) =
      append-separator b':' _ _ k j (bucket_text-IsFree b) (bucket_text-IsFree c) e in
    (bucket_text-injective b c r.0, r.1)
