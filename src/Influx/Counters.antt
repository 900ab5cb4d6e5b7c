-- ===== src/Influx/Counters.antt =====
-- Which integer fields of an interface are emitted.
use mikrotik_cpe_cloud.Base.{
  ◌≡◌, ◌≢◌, ◌↔◌, refl, ap, ◌∙◌, ◌⊎◌, inl, inr, true, false, List, [], ◌∷◌, Option, arith, In,
  Bool-cases,
}
use mikrotik_cpe_cloud.Base.Text.{Text}
use mikrotik_cpe_cloud.Base.Int.{ℤ}
use mikrotik_cpe_cloud.Base.Result.{Result, ok, err}
use mikrotik_cpe_cloud.Influx.Value.{
  Real, Value, null, int, real, flag, string, list, dict, Entries, get, is_null, int_of,
}
use mikrotik_cpe_cloud.Influx.Point.{FieldValue, int_field, PointFields, counter_fields, converted}

module _ (truncate : Real → ℤ) (read : Text → Option Real) (es : Entries) where
  -- The entry has a value of this name that converts to this integer.
  abbrev pub Emits : Text → FieldValue → Type 0
  Emits name v =
      (n : ℤ) × (get name es ≢ null) × (int_of truncate (get name es) ≡ ok n) × (v ≡ int_field n)

  is_null-eq-null : (v : Value) → is_null v ≡ true → v ≡ null
  is_null-eq-null null h = refl
  is_null-eq-null (int n) h = cc
  is_null-eq-null (real x) h = cc
  is_null-eq-null (flag b) h = cc
  is_null-eq-null (string s) h = cc
  is_null-eq-null (list vs) h = cc
  is_null-eq-null (dict fs) h = cc

  ne-null : (v : Value) → is_null v ≡ false → v ≢ null
  ne-null v h e = cc (ap is_null e, h)

  In-converted :
      (key : Text) (r : Result ℤ) (rest : PointFields) (name : Text) (v : FieldValue)
      → In (name, v) (converted key r rest)
        ↔ (((n : ℤ) × (r ≡ ok n) × (name ≡ key) × (v ≡ int_field n)) ⊎ In (name, v) rest)
  In-converted key (ok n) rest name v = (
    λ m. elim m [
      | inl e ↦
          inl
            (n, refl, ap (λ (p : Text × FieldValue). p.0) e, ap (λ (p : Text × FieldValue). p.1) e)
      | inr i ↦ inr i
    ],
    λ m. elim m [ inl (k, a, b, c) ↦ inl (ground (arith, a, b, c)) | inr i ↦ inr i ],
  )
  In-converted key (err e) rest name v =
      (λ m. inr m, λ m. elim m [ inl (k, a, b, c) ↦ absurd (ground (arith, a)) | inr i ↦ i ])

  -- An integer field of the list of names is emitted with a value exactly if the entry has a value of
  -- that name and `int` of it is that value: a field that is missing, or that does not convert, is
  -- left out and not written as zero, and hides no other field.
  pub counter_fields_iff :
      (names : List Text) (name : Text) (v : FieldValue)
      → In (name, v) (counter_fields truncate read names es) ↔ (In name names × Emits name v)
  unfolding counter_fields
  counter_fields_iff [] name v = (λ m. absurd m, λ m. absurd m.0)
  counter_fields_iff (key ∷ names) name v =
      let (to, back) = counter_fields_iff names name v in
      elim (Bool-cases (is_null (get key es))) [
        | inl e ↦ (
          λ m. let (i, t) = to (rw e at m) in (inr i, t),
          λ m. elim m.0 [
            | inl s ↦ absurd (m.1.1 (ap (λ k. get k es) s ∙ is_null-eq-null (get key es) e))
            | inr i ↦ rw e (back (i, m.1))
          ],
        )
        | inr e ↦
            let (out, into) =
              In-converted key (int_of truncate (get key es))
                (counter_fields truncate read names es) name v in
            (
              λ m. elim (out (rw e at m)) [
                | inl (n, a, b, c) ↦ (inl b, (n, rw b (ne-null (get key es) e), rw b a, c))
                | inr i ↦ let (j, t) = to i in (inr j, t)
              ],
              λ m. elim m.0 [
                | inl s ↦ let (n, a, b, c) = m.1 in rw e (into (inl (n, rw s at b, s, c)))
                | inr i ↦ rw e (into (inr (back (i, m.1))))
              ],
            )
      ]
