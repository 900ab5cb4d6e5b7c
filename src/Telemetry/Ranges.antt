-- ===== src/Telemetry/Ranges.antt =====
-- The ranges of the metrics: what the fields of the models of app/routers/telemetry.py are checked
-- for, and the same for the fields of a point of app/services/influx.py.
use mikrotik_cpe_cloud.Base.{
  ℕ, ◌≡◌, refl, subst, Bool, true, false, [], ◌∷◌, ◌++◌, Option, none, some, arith, leb, length,
  if◌then◌else◌, All, All-append, ◌||◌,
}
use mikrotik_cpe_cloud.Base.Text.{Text, codes, text_eq}
use mikrotik_cpe_cloud.Base.Int.{ℤ, pos, negsuc}
use mikrotik_cpe_cloud.Base.Result.{Result, ok, err, ◌>>=◌}
use mikrotik_cpe_cloud.Influx.Value.{Real, Value, Entries}
use mikrotik_cpe_cloud.Influx.Point.{
  FieldValue, int_field, float_field, bool_field, text_field, PointFields,
}
use mikrotik_cpe_cloud.Telemetry.Payload.{
  Coercions, Counters, in_range, is_count, optional, required,
}
use mikrotik_cpe_cloud.Telemetry.Validate.{validate_system, validate_counters}
use mikrotik_cpe_cloud.Telemetry.Sent.{
  sent_int, sent_real, sent_flag, sent_text, sent_system, sent_counters,
}

-- A value that is there passes the check.
abbrev pub Passes : {A : Type 0} → (A → Bool) → Option A → Type 0
Passes check none = Unit
Passes check (some a) = check a ≡ true

-- What holds of the value, where one is returned.
abbrev pub Returns {ℓ} : {A : Type 0} → (A → Type ℓ) → Result A → Type ℓ
Returns P (ok a) = P a
Returns P (err e) = Unit

pub returned : {A : Type 0} (P : A → Type 0) (r : Result A) (a : A) → r ≡ ok a → Returns P r → P a
returned P r a e h = subst (Returns P) e h

optional-Passes :
    {A : Type 0} (coerce : Value → Option A) (check : A → Bool) (v : Value)
    → Returns (Passes check) (optional coerce check v)
unfolding optional
optional-Passes coerce check v = ground arith

-- A chain goes on with a value of which something holds.
pub >>=-Returns :
    {A B : Type 0} (Q : A → Type 0) (P : B → Type 0) (r : Result A) (next : A → Result B)
    → Returns Q r
    → ((a : A) → Q a → Returns P (next a))
    → Returns P (r >>= next)
>>=-Returns Q P (ok a) next q h = h a q
>>=-Returns Q P (err e) next q h = tt

pub optional-Returns :
    {A B : Type 0} (P : B → Type 0) (coerce : Value → Option A) (check : A → Bool) (v : Value)
    (next : Option A → Result B)
    → ((o : Option A) → Passes check o → Returns P (next o))
    → Returns P (optional coerce check v >>= next)
optional-Returns P coerce check v next h =
    >>=-Returns (Passes check) P (optional coerce check v) next (optional-Passes coerce check v) h

required-Passes :
    {A : Type 0} (coerce : Value → Option A) (check : A → Bool) (v : Value)
    → Returns (λ a. check a ≡ true) (required coerce check v)
unfolding required
required-Passes coerce check v = ground arith

pub required-Returns :
    {A B : Type 0} (P : B → Type 0) (coerce : Value → Option A) (check : A → Bool) (v : Value)
    (next : A → Result B)
    → ((a : A) → check a ≡ true → Returns P (next a))
    → Returns P (required coerce check v >>= next)
required-Returns P coerce check v next h =
    >>=-Returns (λ a. check a ≡ true) P (required coerce check v) next
      (required-Passes coerce check v) h

module _ (co : Coercions) where
  -- The ranges of the metrics, as a point has them.
  abbrev pub int_bound : Text → ℕ → Bool
  int_bound name n =
      if text_eq name (codes "cpu_load_pct")
      then leb n 100
      else if text_eq name (codes "frequency")
      then leb n 8000
      else true

  abbrev pub real_bound : Text → Real → Bool
  real_bound name x =
      if text_eq name (codes "temperature_c")
      then co.within (negsuc 19) (pos 120) x
      else if text_eq name (codes "voltage_v")
      then co.within (pos 0) (pos 60) x
      else true

  abbrev pub text_bound : Text → Text → Bool
  text_bound name s =
      if text_eq name (codes "tx_power")
      then leb (length s) 16
      else if text_eq name (codes "ssid") || text_eq name (codes "configuration")
      then leb (length s) 64
      else leb (length s) 32

  abbrev pub in_bounds : Text → FieldValue → Bool
  in_bounds name (int_field (pos n)) = int_bound name n
  in_bounds name (int_field (negsuc n)) = false
  in_bounds name (float_field x) = real_bound name x
  in_bounds name (bool_field b) = true
  in_bounds name (text_field s) = text_bound name s

  abbrev pub AllInBounds : PointFields → Type 0
  AllInBounds = All (λ f. in_bounds f.0 f.1 ≡ true)

  pub sent_int_bounds :
      (name : Text) (check : ℤ → Bool) (o : Option ℤ) (rest : PointFields)
      → ((n : ℤ) → check n ≡ true → in_bounds name (int_field n) ≡ true)
      → Passes check o
      → AllInBounds rest
      → AllInBounds (sent_int name o rest)
  sent_int_bounds name check none rest fits p q = q
  sent_int_bounds name check (some n) rest fits p q = (fits n p, q)

  sent_real_bounds :
      (name : Text) (check : Real → Bool) (o : Option Real) (rest : PointFields)
      → ((x : Real) → check x ≡ true → in_bounds name (float_field x) ≡ true)
      → Passes check o
      → AllInBounds rest
      → AllInBounds (sent_real name o rest)
  sent_real_bounds name check none rest fits p q = q
  sent_real_bounds name check (some x) rest fits p q = (fits x p, q)

  pub sent_text_bounds :
      (name : Text) (check : Text → Bool) (o : Option Text) (rest : PointFields)
      → ((s : Text) → check s ≡ true → in_bounds name (text_field s) ≡ true)
      → Passes check o
      → AllInBounds rest
      → AllInBounds (sent_text name o rest)
  sent_text_bounds name check none rest fits p q = q
  sent_text_bounds name check (some []) rest fits p q = q
  sent_text_bounds name check (some (c ∷ s)) rest fits p q = (fits (c ∷ s) p, q)

  pub sent_flag_bounds : (name : Text) (o : Option Bool) → AllInBounds (sent_flag name o [])
  sent_flag_bounds name none = tt
  sent_flag_bounds name (some b) = (refl, tt)

  -- A counter, under a name without a range of its own.
  count_bounds :
      (name : Text) (o : Option ℤ) (rest : PointFields)
      → ((n : ℕ) → int_bound name n ≡ true)
      → Passes is_count o
      → AllInBounds rest
      → AllInBounds (sent_int name o rest)
  count_bounds name o rest free p q = sent_int_bounds name is_count o rest fits p q
    where
      fits : (n : ℤ) → is_count n ≡ true → in_bounds name (int_field n) ≡ true
      fits (pos n) h = free n
      fits (negsuc n) h = h

  pub range_bound :
      (hi : ℕ) (n : ℤ) (name : Text)
      → ((m : ℕ) → leb m hi ≡ true → int_bound name m ≡ true)
      → in_range 0 hi n ≡ true
      → in_bounds name (int_field n) ≡ true
  range_bound hi (pos m) name f h = f m (ground arith)
  range_bound hi (negsuc m) name f h = h

  -- What is sent of the two lists that a point's fields are made of.
  pub both_bounds : (xs ys : PointFields) → AllInBounds xs → AllInBounds ys → AllInBounds (xs ++ ys)
  both_bounds xs ys = All-append (λ f. in_bounds f.0 f.1 ≡ true) xs ys

  system_bounds :
      (cpu free total : Option ℤ) (temperature voltage : Option Real)
      → Passes (in_range 0 100) cpu
      → Passes is_count free
      → Passes is_count total
      → Passes (co.within (negsuc 19) (pos 120)) temperature
      → Passes (co.within (pos 0) (pos 60)) voltage
      → AllInBounds (
          sent_int (codes "cpu_load_pct") cpu (
            sent_int
              (codes "free_memory_bytes")
              free
              (sent_int (codes "total_memory_bytes") total []))
          ++ sent_real
              (codes "temperature_c")
              temperature
              (sent_real (codes "voltage_v") voltage []))
  unfolding text_eq
  system_bounds cpu free total temperature voltage p q r t v =
      both_bounds _ _
        (sent_int_bounds (codes "cpu_load_pct") (in_range 0 100) cpu _
          (λ n. range_bound 100 n (codes "cpu_load_pct") (λ m h. h)) p
          (count_bounds (codes "free_memory_bytes") free _ (λ n. refl) q
            (count_bounds (codes "total_memory_bytes") total [] (λ n. refl) r tt)))
        (sent_real_bounds (codes "temperature_c") (co.within (negsuc 19) (pos 120)) temperature _
          (λ x h. h) t
          (sent_real_bounds (codes "voltage_v") (co.within (pos 0) (pos 60)) voltage [] (λ x h. h) v
            tt))

  pub validate_system-Returns :
      (es : Entries) → Returns (λ s. AllInBounds (sent_system (some s))) (validate_system co es)
  unfolding validate_system
  validate_system-Returns es = optional-Returns _ _ _ _ _ (λ uptime u.
      optional-Returns _ _ _ _ _ (λ cpu p. optional-Returns _ _ _ _ _ (λ free q.
        optional-Returns _ _ _ _ _ (λ total r. optional-Returns _ _ _ _ _ (λ temperature t.
          optional-Returns _ _ _ _ _
            (λ voltage v. system_bounds cpu free total temperature voltage p q r t v))))))

  counters_bounds :
      (rx_bytes tx_bytes rx_packets tx_packets : Option ℤ)
      → Passes is_count rx_bytes
      → Passes is_count tx_bytes
      → Passes is_count rx_packets
      → Passes is_count tx_packets
      → AllInBounds (
          sent_int (codes "rx_bytes") rx_bytes (
            sent_int (codes "tx_bytes") tx_bytes (
              sent_int
                (codes "rx_packets")
                rx_packets
                (sent_int (codes "tx_packets") tx_packets []))))
  unfolding text_eq
  counters_bounds a b c d p q r s =
      count_bounds (codes "rx_bytes") a _ (λ n. refl) p
        (count_bounds (codes "tx_bytes") b _ (λ n. refl) q
          (count_bounds (codes "rx_packets") c _ (λ n. refl) r
            (count_bounds (codes "tx_packets") d [] (λ n. refl) s tt)))

  validate_counters-Returns :
      (es : Entries) → Returns (λ c. AllInBounds (sent_counters c)) (validate_counters co es)
  unfolding validate_counters
  validate_counters-Returns es = optional-Returns _ _ _ _ _ (λ a p.
      optional-Returns _ _ _ _ _ (λ b q.
        optional-Returns _ _ _ _ _
          (λ c r. optional-Returns _ _ _ _ _ (λ d s. counters_bounds a b c d p q r s))))

  pub counters-Returns :
      {B : Type 0} (P : B → Type 0) (es : Entries) (next : Counters → Result B)
      → ((c : Counters) → AllInBounds (sent_counters c) → Returns P (next c))
      → Returns P (validate_counters co es >>= next)
  counters-Returns P es next h =
      >>=-Returns (λ c. AllInBounds (sent_counters c)) P (validate_counters co es) next
        (validate_counters-Returns es) h
