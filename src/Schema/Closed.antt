-- ===== src/Schema/Closed.antt =====
-- Databases in which what the foreign keys and the indexes name is there: nothing refers to a name
-- that is free.
use mikrotik_cpe_cloud.Base.{
  ◌≡◌, refl, ap, Bool, true, false, not, List, [], ◌∷◌, ◌++◌, Option, none, some, arith, select,
  Bool-cases, inl, inr,
}
use mikrotik_cpe_cloud.Base.Text.{Text, text_eq, text_eq_iff}
use mikrotik_cpe_cloud.Schema.{ForeignKey, Column, Table, Database}
use mikrotik_cpe_cloud.Schema.Ddl.{
  is_taken, any_of, every, find_table, has_target, refers_to, key_present, key_names, is_key,
  depends_on, names_table, names_relation, names_index, index_of,
}

-- A table of the name is there.
abbrev pub is_table : Text → List Table → Bool
is_table name tables = any_of (names_table name) tables

-- What the foreign keys and the indexes name is there.
abbrev pub IsClosed : Database → Type 0
IsClosed db =
    (every (λ t. every (has_target db.tables) t.columns) db.tables ≡ true)
    × (every (λ i. is_table i.table db.tables) db.indexes ≡ true)

pub any_of-append :
    {A : Type 0} (p : A → Bool) (xs ys : List A)
    → any_of p xs ≡ false
    → any_of p ys ≡ false
    → any_of p (xs ++ ys) ≡ false
unfolding any_of
any_of-append p [] ys h k = k
any_of-append p (x ∷ xs) ys h k = ground (arith, any_of-append p xs ys)

-- None is left out where none passes.
pub select_all :
    {A : Type 0} (p : A → Bool) (xs : List A)
    → any_of p xs ≡ false
    → select (λ x. not (p x)) xs ≡ xs
unfolding any_of select
select_all p [] h = refl
select_all p (x ∷ xs) h = ground (arith, select_all p xs)

pub any_of_weaker :
    {A : Type 0} (p q : A → Bool) (xs : List A)
    → ((x : A) → p x ≡ false → q x ≡ false)
    → any_of p xs ≡ false
    → any_of q xs ≡ false
unfolding any_of
any_of_weaker p q [] f h = refl
any_of_weaker p q (x ∷ xs) f h = ground (arith, f x, any_of_weaker p q xs f)

every-any_of :
    {A : Type 0} (p q : A → Bool) (xs : List A)
    → ((x : A) → p x ≡ true → q x ≡ false)
    → every p xs ≡ true
    → any_of q xs ≡ false
unfolding any_of every
every-any_of p q [] f h = refl
every-any_of p q (x ∷ xs) f h = ground (arith, f x, every-any_of p q xs f)

find_table_absent :
    (name : Text) (ts : List Table) → is_table name ts ≡ false → find_table name ts ≡ none
unfolding find_table any_of
find_table_absent name [] h = refl
find_table_absent name (t ∷ ts) h = ground (arith, find_table_absent name ts)

-- Texts of which a test tells one from the other.
text_eq_apart : (p : Text → Bool) (s t : Text) → p s ≡ true → p t ≡ false → text_eq s t ≡ false
text_eq_apart p s t h k = elim (Bool-cases (text_eq s t)) [
  | inr e ↦ e
  | inl e ↦ cc (h, ap p ((text_eq_iff s t).0 e), k)
]

-- A foreign key whose key is there does not name a table that is not.
has_target-refers_to :
    (name : Text) (ts : List Table) (c : Column)
    → is_table name ts ≡ false
    → has_target ts c ≡ true
    → refers_to name c ≡ false
has_target-refers_to name ts c absent h = by_key c.foreign_key h
  where
    by_key : (key : Option ForeignKey) → key_present ts key ≡ true → key_names name key ≡ false
    by_key none h = refl
    by_key (some key) h =
        text_eq_apart (λ n. is_key key.column (find_table n ts)) key.table name h
          (ap (is_key key.column) (find_table_absent name ts absent))

-- Nothing in a closed database refers to a name that is free.
pub free-depends_on :
    (name : Text) (db : Database)
    → IsClosed db
    → is_table name db.tables ≡ false
    → any_of (depends_on name) db.tables ≡ false
free-depends_on name db closed absent =
    every-any_of (λ t. every (has_target db.tables) t.columns) (depends_on name) db.tables
      (λ t.
        every-any_of (has_target db.tables) (refers_to name) t.columns
          (λ c. has_target-refers_to name db.tables c absent))
      closed.0

pub free-index_of :
    (name : Text) (db : Database)
    → IsClosed db
    → is_table name db.tables ≡ false
    → any_of (index_of name) db.indexes ≡ false
free-index_of name db closed absent =
    every-any_of (λ i. is_table i.table db.tables) (index_of name) db.indexes
      (λ i h. text_eq_apart (λ n. is_table n db.tables) i.table name h absent) closed.1

pub is_taken-is_table :
    (name : Text) (db : Database) → is_taken name db ≡ false → is_table name db.tables ≡ false
unfolding is_taken
is_taken-is_table name db h =
    any_of_weaker (names_relation name) (names_table name) db.tables (λ t. ground arith)
      (ground arith)

pub is_taken-names_index :
    (name : Text) (db : Database)
    → is_taken name db ≡ false
    → any_of (names_index name) db.indexes ≡ false
unfolding is_taken
is_taken-names_index name db h = ground arith
