-- ===== src/Rotating/Faults.antt =====
-- What each call on the disk does to the active file when any call may fail.
use spdlite.Base.{
  ℕ, zero, suc, ◌≡◌, ap, ◌∙◌, List, [], ◌∷◌, ◌++◌, Bytes, Bool, true, false, Option, none, some,
  append-nil, if◌then◌else◌, if_true, if_false,
}
use spdlite.Disk.{
  FilePath, Node, regular, symlink, other, Entries, Disk, opened, later_faults, same_file, lookup,
  erase, put, remove, rename, fopen, append_bytes, fwrite_bytes,
}
use spdlite.Disk.Laws.{lookup-erase, lookup-put, same_file_refl}
use spdlite.Rotating.{try_rename_}

-- A write that fails writes nothing; all other calls may fail too.
unfoldable pub Harmless : List (Option ℕ) → Type 0
Harmless [] = Unit
Harmless (none ∷ xs) = Harmless xs
Harmless (some k ∷ xs) = (k ≡ 0) × Harmless xs

pub later-Harmless : (xs : List (Option ℕ)) → Harmless xs → Harmless (later_faults xs)
unfolding Harmless
later-Harmless [] h = h
later-Harmless (none ∷ xs) h = h
later-Harmless (some k ∷ xs) h = h.1

-- `d` is harmless, and the file `b` is `n` in it.
abbrev pub Shows : FilePath → Option Node → Disk → Type 0
Shows b n d = Harmless d.faults × (lookup b d.entries ≡ n)

abbrev on : Entries → List (Option ℕ) → Disk
on es fs = record { entries = es; faults = fs }

module _ (b : FilePath) where
  erased :
      (p : FilePath) (es : Entries) → same_file p b ≡ false → lookup b (erase p es) ≡ lookup b es
  erased p es different = lookup-erase p b es ∙ if_false _ different

  pub remove-Shows :
      (p : FilePath) (n : Option Node) (es : Entries) (fs : List (Option ℕ))
      → same_file p b ≡ false
      → Shows b n (on es fs)
      → Shows b n (remove (on es fs) p).1
  unfolding remove
  remove-Shows p n es [] different (h, at) = (h, erased p es different ∙ at)
  remove-Shows p n es (none ∷ fs) different (h, at) =
      (later-Harmless (none ∷ fs) h, erased p es different ∙ at)
  remove-Shows p n es (some k ∷ fs) different (h, at) = (later-Harmless (some k ∷ fs) h, at)

  put_away :
      (p : FilePath) (x : Node) (es : Entries)
      → same_file p b ≡ false
      → lookup b (put p x (erase b es)) ≡ none
  put_away p x es different =
      lookup-put p b x (erase b es)
      ∙ if_false _ different
      ∙ lookup-erase b b es
      ∙ if_true _ (same_file_refl b)

  pub rename-Shows :
      (p : FilePath) (n : Option Node) (es : Entries) (fs : List (Option ℕ))
      → same_file p b ≡ false
      → Shows b n (on es fs)
      → Shows b (if (rename (on es fs) b p).0 then none else n) (rename (on es fs) b p).1
  unfolding rename
  rename-Shows p n es (some k ∷ fs) different (h, at) = (later-Harmless (some k ∷ fs) h, at)
  rename-Shows p none es [] different (h, at) = rw at (h, at)
  rename-Shows p none es (none ∷ fs) different (h, at) = rw at (later-Harmless (none ∷ fs) h, at)
  rename-Shows p (some x) es [] different (h, at) = rw at (h, put_away p x es different)
  rename-Shows p (some x) es (none ∷ fs) different (h, at) =
      rw at (later-Harmless (none ∷ fs) h, put_away p x es different)

  put_here : (x : Node) (es : Entries) → lookup b (put b x es) ≡ some x
  put_here x es = lookup-put b b x es ∙ if_true _ (same_file_refl b)

  -- Opening for `n`: it stands there opened, or nothing changed.
  pub fopen-Shows :
      (truncate : Bool) (n : Option Node) (es : Entries) (fs : List (Option ℕ))
      → Shows b n (on es fs)
      → Shows b
          (if (fopen (on es fs) b truncate).0 then opened (on es fs) truncate n else n)
          (fopen (on es fs) b truncate).1
  unfolding fopen
  fopen-Shows truncate n es (some k ∷ fs) (h, at) = (later-Harmless (some k ∷ fs) h, at)
  fopen-Shows truncate none es [] (h, at) = rw at (h, put_here (regular []) es)
  fopen-Shows truncate none es (none ∷ fs) (h, at) =
      rw at (later-Harmless (none ∷ fs) h, put_here (regular []) es)
  fopen-Shows truncate (some (regular s)) es [] (h, at) = rw at (h, put_here _ es)
  fopen-Shows truncate (some (regular s)) es (none ∷ fs) (h, at) =
      rw at (later-Harmless (none ∷ fs) h, put_here _ es)
  fopen-Shows truncate (some symlink) es [] (h, at) = rw at (h, at)
  fopen-Shows truncate (some symlink) es (none ∷ fs) (h, at) =
      rw at (later-Harmless (none ∷ fs) h, at)
  fopen-Shows truncate (some other) es [] (h, at) = rw at (h, at)
  fopen-Shows truncate (some other) es (none ∷ fs) (h, at) =
      rw at (later-Harmless (none ∷ fs) h, at)

  grown :
      (s old : Bytes) (d : Disk)
      → lookup b d.entries ≡ some (regular old)
      → lookup b (append_bytes d b s) ≡ some (regular (old ++ s))
  unfolding append_bytes
  grown s old d at = rw (at, append_bytes) (put_here (regular (old ++ s)) d.entries)

  pub fwrite_bytes-Shows :
      (s old : Bytes) (es : Entries) (fs : List (Option ℕ))
      → Shows b (some (regular old)) (on es fs)
      → Shows b
          (some (regular (if (fwrite_bytes (on es fs) b s).0 then old ++ s else old)))
          (fwrite_bytes (on es fs) b s).1
  unfolding fwrite_bytes Harmless
  fwrite_bytes-Shows s old es [] (h, at) = (h, grown s old (on es []) at)
  fwrite_bytes-Shows s old es (none ∷ fs) (h, at) = (h, grown s old (on es (none ∷ fs)) at)
  fwrite_bytes-Shows s old es (some k ∷ fs) ((zero_bytes, h), at) = (
    h,
    rw zero_bytes
        (grown [] old (on es (some 0 ∷ fs)) at ∙ ap (λ x. some (regular x)) (append-nil old)),
  )

  attempted :
      (renamed : Bool) (n : Option Node) (d : Disk) (rest : Bool × Disk)
      → Shows b (if renamed then none else n) d
      → (Shows b n d → Shows b (if rest.0 then none else n) rest.1)
      → Shows b
          (if (if renamed then (true, d) else rest).0 then none else n)
          (if renamed then (true, d) else rest).1
  attempted true n d rest h next = h
  attempted false n d rest h next = next h

  -- All attempts of a rotation.
  pub try_rename-Shows :
      (attempts : ℕ) (p : FilePath) (n : Option Node) (d : Disk)
      → same_file p b ≡ false
      → Shows b n d
      → Shows b (if (try_rename_ attempts b p d).0 then none else n) (try_rename_ attempts b p d).1
  unfolding try_rename_
  try_rename-Shows zero p n d different h = h
  try_rename-Shows (suc attempts) p n d different h =
      let d1 = (remove d p).1 in
      let d2 = (rename d1 b p).1 in
      attempted (rename d1 b p).0 n d2 (try_rename_ attempts b p d2)
        (rename-Shows p n d1.entries d1.faults different
          (remove-Shows p n d.entries d.faults different h))
        (λ after. try_rename-Shows attempts p n d2 different after)
