-- ===== src/Bench/Comparison/Rows.antt =====
-- The table of the comparison (bench/vs_spdlog.cpp) against a search through the runs.
use spdlite.Base.{
  ℕ, suc, ◌≡◌, refl, sym, ap, ◌∙◌, arith, List, [], ◌∷◌, ◌++◌, Bytes, Bool, true, false, Option,
  none, some, length, set, get_elem?, if◌then◌else◌,
}
use spdlite.Disk.{eq_bytes}
use spdlite.Disk.Laws.{eq_bytes_iff}
use spdlite.Bench.Comparison.{Double, Row, Table, find, new_row, place, set_ns, store}

module _ (D : Double) where
  -- The same table with no index: the first row of a key is looked for, or added.
  unfoldable pub upsert : Bytes → (Row D → Row D) → List (Row D) → List (Row D)
  upsert key f [] = f (new_row D key) ∷ []
  upsert key f (row ∷ rows) =
      let rest = upsert key f rows in if eq_bytes row.test key then f row ∷ rows else row ∷ rest

  abbrev later : Option ℕ → Option ℕ
  later none = none
  later (some i) = some (suc i)

  unfoldable pub position : Bytes → List (Row D) → Option ℕ
  position key [] = none
  position key (row ∷ rows) =
      let rest = later (position key rows) in if eq_bytes row.test key then some 0 else rest

  -- The index leads to the row that a search finds.
  abbrev pub Indexed : Table D → Type 0
  Indexed t = (key : Bytes) → find D key t.index ≡ position key t.rows

  -- A change that keeps the key.
  abbrev pub Keeps : (Row D → Row D) → Type 0
  Keeps f = (row : Row D) → (f row).test ≡ row.test

  pub set_ns-Keeps : (lite : Bool) (ns : D.Value) → Keeps (set_ns D lite ns)
  set_ns-Keeps true ns row = refl
  set_ns-Keeps false ns row = refl

  store_later :
      (i : ℕ) (f : Row D → Row D) (row : Row D) (rows : List (Row D))
      → store D (suc i) f (row ∷ rows) ≡ row ∷ store D i f rows
  unfolding store
  store_later i f row rows = by_elem (get_elem? rows i)
    where
      by_elem :
          (o : Option (Row D))
          → elim o [ none ↦ row ∷ rows | some x ↦ row ∷ set rows i (f x) ]
            ≡ row ∷ elim o [ none ↦ rows | some x ↦ set rows i (f x) ]
      by_elem none = refl
      by_elem (some x) = refl

  not_later : (o : Option ℕ) → later o ≡ none → o ≡ none
  not_later none h = refl
  not_later (some i) h = ground (arith, h)

  found_later : (o : Option ℕ) (i : ℕ) → later o ≡ some i → (j : ℕ) × (i ≡ suc j) × (o ≡ some j)
  found_later none i h = ground (arith, h)
  found_later (some j) i h = (j, ground (arith, h), refl)

  at_zero : (i : ℕ) → some 0 ≡ some i → i ≡ 0
  at_zero i h = ground (arith, h)

  store-upsert :
      (key : Bytes) (f : Row D → Row D) (rows : List (Row D)) (i : ℕ)
      → position key rows ≡ some i
      → store D i f rows ≡ upsert key f rows
  unfolding position upsert store
  store-upsert key f [] i h = ground (arith, h)
  store-upsert key f (row ∷ rows) i h =
      by_test (eq_bytes row.test key) (λ j e. store-upsert key f rows j e) h
    where
      by_test :
          (t : Bool)
          → ((j : ℕ) → position key rows ≡ some j → store D j f rows ≡ upsert key f rows)
          → (if t then some 0 else later (position key rows)) ≡ some i
          → store D i f (row ∷ rows) ≡ (if t then f row ∷ rows else row ∷ upsert key f rows)
      by_test true rest h = ap (λ k. store D k f (row ∷ rows)) (at_zero i h)
      by_test false rest h =
          let (j, e, at) = found_later (position key rows) i h in
          ap (λ k. store D k f (row ∷ rows)) e
          ∙ store_later j f row rows
          ∙ ap (λ r. row ∷ r) (rest j at)

  append-upsert :
      (key : Bytes) (f : Row D → Row D) (rows : List (Row D))
      → position key rows ≡ none
      → store D (length rows) f (rows ++ new_row D key ∷ []) ≡ upsert key f rows
  unfolding position upsert store
  append-upsert key f [] h = refl
  append-upsert key f (row ∷ rows) h =
      by_test (eq_bytes row.test key) (λ e. append-upsert key f rows e) h
    where
      by_test :
          (t : Bool)
          → (position key rows ≡ none
              → store D (length rows) f (rows ++ new_row D key ∷ []) ≡ upsert key f rows)
          → (if t then some 0 else later (position key rows)) ≡ none
          → store D (suc (length rows)) f (row ∷ (rows ++ new_row D key ∷ []))
            ≡ (if t then f row ∷ rows else row ∷ upsert key f rows)
      by_test true rest h = ground (arith, h)
      by_test false rest h =
          store_later (length rows) f row (rows ++ new_row D key ∷ [])
          ∙ ap (λ r. row ∷ r) (rest (not_later (position key rows) h))

  -- A key that has a row: all places stay.
  present :
      (key k : Bytes) (f : Row D → Row D) (rows : List (Row D)) (i : ℕ)
      → Keeps f
      → position key rows ≡ some i
      → position k (upsert key f rows) ≡ position k rows
  unfolding position upsert
  present key k f [] i keeps h = ground (arith, h)
  present key k f (row ∷ rows) i keeps h =
      by_test (eq_bytes row.test key) (λ j e. present key k f rows j keeps e) h
    where
      by_test :
          (t : Bool)
          → ((j : ℕ)
              → position key rows ≡ some j
              → position k (upsert key f rows) ≡ position k rows)
          → (if t then some 0 else later (position key rows)) ≡ some i
          → position k (if t then f row ∷ rows else row ∷ upsert key f rows)
            ≡ position k (row ∷ rows)
      by_test true rest h =
          ap (λ s. if eq_bytes s k then some 0 else later (position k rows)) (keeps row)
      by_test false rest h =
          let (j, e, at) = found_later (position key rows) i h in
          ap (λ o. if eq_bytes row.test k then some 0 else later o) (rest j at)

  pub same_key : (a b k : Bytes) → eq_bytes a k ≡ true → eq_bytes b k ≡ true → eq_bytes a b ≡ true
  same_key a b k h g = (eq_bytes_iff a b).1 ((eq_bytes_iff a k).0 h ∙ sym ((eq_bytes_iff b k).0 g))

  -- A key that has none gets the place behind all rows.
  absent :
      (key k : Bytes) (f : Row D → Row D) (rows : List (Row D))
      → Keeps f
      → position key rows ≡ none
      → position k (upsert key f rows)
        ≡ (if eq_bytes key k then some (length rows) else position k rows)
  unfolding position upsert
  absent key k f [] keeps h =
      ap (λ s. if eq_bytes s k then some 0 else none) (keeps (new_row D key))
  absent key k f (row ∷ rows) keeps h =
      by_test (eq_bytes row.test key) (eq_bytes row.test k) (eq_bytes key k) refl refl refl
        (λ e. absent key k f rows keeps e) h
    where
      by_test :
          (t a b : Bool)
          → eq_bytes row.test key ≡ t
          → eq_bytes row.test k ≡ a
          → eq_bytes key k ≡ b
          → (position key rows ≡ none
              → position k (upsert key f rows)
                ≡ (if eq_bytes key k then some (length rows) else position k rows))
          → (if t then some 0 else later (position key rows)) ≡ none
          → position k (if t then f row ∷ rows else row ∷ upsert key f rows) ≡ (
              if b then some (suc (length rows)) else if a then some 0 else later (position k rows))
      by_test true a b et ea eb rest h = ground (arith, h)
      by_test false true true et ea eb rest h = absurd (cc (et, same_key row.test key k ea eb))
      by_test false true false et ea eb rest h = rw ea refl
      by_test false false true et ea eb rest h =
          rw ea (ap later (rest (not_later (position key rows) h)) ∙ rw eb refl)
      by_test false false false et ea eb rest h =
          rw ea (ap later (rest (not_later (position key rows) h)) ∙ rw eb refl)

  module _ (key : Bytes) (f : Row D → Row D) (keeps : Keeps f) (t : Table D) (h : Indexed t) where
    abbrev changed : ℕ × Table D → Table D
    changed (i, t') = record t' { rows = store D i f t'.rows }

    rows_changed :
        (rows' : List (Row D)) (index : List (Bytes × ℕ)) (i : ℕ)
        → position key t.rows ≡ some i
        → rows' ≡ upsert key f t.rows
        → index ≡ t.index
        → Indexed (record { rows = rows'; index = index })
    rows_changed rows' index i at e same k =
        ap (λ x. find D k x) same
        ∙ h k
        ∙ sym (present key k f t.rows i keeps at)
        ∙ ap (λ r. position k r) (sym e)

    by_place :
        (o : Option ℕ)
        → position key t.rows ≡ o
        → (let p : ℕ × Table D = elim o [
          | some i ↦ (i, t)
          | none ↦ (
            length t.rows,
            record { rows = t.rows ++ new_row D key ∷ []; index = (key, length t.rows) ∷ t.index },
          )
        ] in
            ((changed p).rows ≡ upsert key f t.rows) × Indexed (changed p))
    unfolding find
    by_place (some i) at =
        let e = store-upsert key f t.rows i at in (e, rows_changed _ t.index i at e refl)
    by_place none at =
        let e = append-upsert key f t.rows at in
        (
          e,
          λ k.
              ap (λ o. if eq_bytes key k then some (length t.rows) else o) (h k)
              ∙ sym (absent key k f t.rows keeps at)
              ∙ ap (λ r. position k r) (sym e),
        )

    -- A change through the index is the change of the row that a search finds.
    pub place-upsert :
        ((changed (place D key t)).rows ≡ upsert key f t.rows) × Indexed (changed (place D key t))
    unfolding place
    place-upsert = by_place (find D key t.index) (sym (h key))
