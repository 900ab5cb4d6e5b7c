-- ===== src/RateLimit/Refine.antt =====
-- The table of buckets against its specification: each scope and key has a bucket of its own.
use mikrotik_cpe_cloud.Base.{
  ◌≡◌, refl, inl, inr, Bool, List, [], ◌∷◌, Option, some, if◌then◌else◌, Bool-cases,
}
use mikrotik_cpe_cloud.Base.Text.{Text}
use mikrotik_cpe_cloud.RateLimit.{TokenBucket, Buckets, same_key, lookup, check_rate_limit}
use mikrotik_cpe_cloud.RateLimit.Window.{
  Call, same_key_iff, result, lookup-check_rate_limit, check_rate_limit-eq-result,
}

abbrev pub key_of : Call → Text × Text
key_of c = (c.scope, c.key)

-- What the calls of one key are answered, among the calls of all.
unfoldable pub answers : Text × Text → Buckets → List Call → List Bool
answers k m [] = []
answers k m (c ∷ cs) =
    let (granted, m') = check_rate_limit c.created c.now c.scope c.key m in
    let more = answers k m' cs in if same_key (key_of c) k then granted ∷ more else more

-- The calls of one key.
unfoldable pub calls_of : Text × Text → List Call → List Call
calls_of k [] = []
calls_of k (c ∷ cs) = let more = calls_of k cs in if same_key (key_of c) k then c ∷ more else more

-- The specification: a bucket that is made for the first call, and has only these calls.
unfoldable pub bucket_answers : Option TokenBucket → List Call → List Bool
bucket_answers o [] = []
bucket_answers o (c ∷ cs) =
    let (granted, b) = result c.created c.now o in granted ∷ bucket_answers (some b) cs

-- In any run of calls by all clients, the calls of a key are answered as its own bucket answers them
-- alone: no call for another key or in another scope changes what a key is granted.
pub answers-bucket_answers :
    (k : Text × Text) (m : Buckets) (cs : List Call)
    → answers k m cs ≡ bucket_answers (lookup k m) (calls_of k cs)
unfolding answers calls_of bucket_answers
answers-bucket_answers k m [] = refl
answers-bucket_answers k m (c ∷ cs) = elim (Bool-cases (same_key (key_of c) k)) [
  | inl e ↦
      let same = (same_key_iff (key_of c) k).0 e in
      rw
        (
          e,
          answers-bucket_answers k (check_rate_limit c.created c.now c.scope c.key m).1 cs,
          lookup-check_rate_limit k c.created c.now c.scope c.key m,
          e,
          check_rate_limit-eq-result c.created c.now c.scope c.key m,
          same,
        )
        refl
  | inr e ↦
      rw
        (
          e,
          answers-bucket_answers k (check_rate_limit c.created c.now c.scope c.key m).1 cs,
          lookup-check_rate_limit k c.created c.now c.scope c.key m,
          e,
        )
        refl
]
