-- ===== src/Rotating/Turns.antt =====
-- The size of the active file (include/spdlite/sinks/rotating_file_sink.h) behind a line and behind
-- a rotation.
use spdlite.Base.{
  ℕ, ◌+◌, ◌-◌, ◌%◌, ◌^◌, ◌≤◌, ◌<◌, ◌≡◌, ◌≢◌, refl, sym, arith, [], ◌++◌, Bytes, Bool, true, false,
  Option, none, some, ltb, length, length-append, if◌then◌else◌,
}
use spdlite.Base.Exec.{Result, ok, fail, Done, continue, ◌>>◌}
use spdlite.Disk.{
  open_error, FilePath, Node, regular, symlink, other, Disk, opened, fopen, fwrite_bytes, remove,
}
use spdlite.Rotating.{
  RotatingFileSink, S, size_mod, max_attempts, open_, set_current, put_line, try_rename_,
  drop_oldest_, rotate_, archive_path_,
}
use spdlite.Rotating.Window.{not_active}
use spdlite.Rotating.Faults.{Shows, remove-Shows, fopen-Shows, fwrite_bytes-Shows, try_rename-Shows}

-- What the file may be: absent, no log file at all, or at most `limit` bytes.
abbrev pub Small : ℕ → Option Node → Type 0
Small limit none = Unit
Small limit (some (regular s)) = length s ≤ limit
Small limit (some symlink) = Unit
Small limit (some other) = Unit

-- The stream, when there is one, is open on a regular file of the size that the sink counted.
abbrev pub Tracked : Bool → ℕ → Option Node → Type 0
Tracked false size n = Unit
Tracked true size (some (regular s)) = length s ≡ size
Tracked true size _ = ⊥

pub record Bounded (limit : ℕ) (s : S) : Type 0 where
  pub named : s.0.base_filename.filename ≢ []
  pub max : s.0.max_size ≤ limit
  pub range : limit < 2 ^ 63
  pub file : Option Node
  pub shows : Shows s.0.base_filename file s.1
  pub small : Small limit file
  pub tracked : Tracked s.0.file s.0.current_size file

module _ (limit : ℕ) (r : RotatingFileSink) (named : r.base_filename.filename ≢ [])
    (max : r.max_size ≤ limit) (range : limit < 2 ^ 63) where
  put_line_by :
      (written : Bool) (line old : Bytes) (new : ℕ) (d : Disk)
      → r.file ≡ true
      → length old ≡ r.current_size
      → new ≡ r.current_size + length line
      → new ≤ limit
      → Shows r.base_filename (some (regular (if written then old ++ line else old))) d
      → (let out : Result Done × S =
            if written then (ok tt, (record r { current_size = new }, d)) else (ok tt, (r, d)) in
          Bounded limit out.1)
  put_line_by true line old new d is_open size grown room h = record {
    named = named;
    max = max;
    range = range;
    file = some (regular (old ++ line));
    shows = h;
    small = simp (length-append) (omega (arith, size, grown, room));
    tracked = rw is_open (simp (length-append) (omega (arith, size, grown)));
  }
  put_line_by false line old new d is_open size grown room h = record {
    named = named;
    max = max;
    range = range;
    file = some (regular old);
    shows = h;
    small = omega (arith, size, grown, room);
    tracked = rw is_open size;
  }

-- A rotation that ends with an open file leaves an empty one.
abbrev pub Turned : ℕ → S → Type 0
Turned limit s = Bounded limit s × (s.0.file ≡ true → s.0.current_size ≡ 0)

pub put_line-Bounded :
    (limit : ℕ) (line : Bytes) (new : ℕ) (r : RotatingFileSink) (d : Disk)
    → Bounded limit (r, d)
    → r.file ≡ true
    → new ≡ r.current_size + length line
    → new ≤ limit
    → Bounded limit (put_line line new (r, d)).1
unfolding put_line
put_line-Bounded limit line new r d h is_open grown room =
    on_file h.file h.shows (rw (sym is_open) h.tracked)
  where
    on_file :
        (file : Option Node)
        → Shows r.base_filename file d
        → Tracked true r.current_size file
        → Bounded limit (put_line line new (r, d)).1
    on_file (some (regular old)) shows size =
        put_line_by limit r h.named h.max h.range (fwrite_bytes d r.base_filename line).0 line old
          new (fwrite_bytes d r.base_filename line).1 is_open size grown room
          (fwrite_bytes-Shows r.base_filename line old d.entries d.faults shows)
    on_file (some symlink) shows size = absurd size
    on_file (some other) shows size = absurd size
    on_file none shows size = absurd size

module _ (limit : ℕ) (r : RotatingFileSink) (named : r.base_filename.filename ≢ [])
    (max : r.max_size ≤ limit) (range : limit < 2 ^ 63) where
  open_by :
      (opened : Bool) (n : Option Node) (d : Disk)
      → Shows r.base_filename (if opened then some (regular []) else n) d
      → Small limit n
      → r.file ≡ false
      → (let out : Result Done × S =
            if opened
            then (ok tt, (record r { file = true }, d))
            else (fail (open_error r.base_filename), (r, d)) in
          Turned limit (continue out.0 (λ _. set_current 0) out.1).1)
  open_by true n d h small closed = (
    record {
      named = named;
      max = max;
      range = range;
      file = some (regular []);
      shows = h;
      small = omega arith;
      tracked = refl;
    },
    λ _. refl,
  )
  open_by false n d h small closed = (
    record {
      named = named;
      max = max;
      range = range;
      file = n;
      shows = h;
      small = small;
      tracked = rw closed tt;
    },
    λ e. ground (arith, closed, e),
  )

  -- Opening, when the file can only be empty behind it.
  reopen-Turned :
      (truncate : Bool) (n : Option Node) (d : Disk)
      → Shows r.base_filename n d
      → opened d truncate n ≡ some (regular [])
      → Small limit n
      → r.file ≡ false
      → Turned limit ((open_ truncate >> set_current 0) (r, d)).1
  unfolding open_
  reopen-Turned truncate n d h empties small closed =
      open_by (fopen d r.base_filename truncate).0 n (fopen d r.base_filename truncate).1
        (rw (sym empties) (fopen-Shows r.base_filename truncate n d.entries d.faults h)) small
        closed

pub kept_when :
    (t : Bool) (b : FilePath) (n : Option Node) (d d' : Disk)
    → Shows b n d
    → Shows b n d'
    → Shows b n (if t then d else d')
kept_when true b n d d' h h' = h
kept_when false b n d d' h h' = h'

module _ (limit : ℕ) (old : Bytes) (r : RotatingFileSink) (named : r.base_filename.filename ≢ [])
    (max : r.max_size ≤ limit) (range : limit < 2 ^ 63) where
  abbrev shut : RotatingFileSink
  shut = record r { file = false }

  dropped-Turned :
      (d : Disk)
      → Shows r.base_filename none d
      → Turned limit ((open_ false >> set_current 0) (drop_oldest_ (shut, d))).1
  unfolding drop_oldest_
  dropped-Turned d h =
      let next = (r.next_index + 1) % size_mod in
      let oldest = next - r.max_files - 1 in
      reopen-Turned limit (record shut { next_index = next }) named max range false none
        (drop_oldest_ (shut, d)).1
        (kept_when (ltb ((r.max_files + 1) % size_mod) next) r.base_filename none
          (remove d (archive_path_ r.base_filename oldest)).1 d
          (remove-Shows r.base_filename (archive_path_ r.base_filename oldest) none d.entries
            d.faults (not_active r.base_filename named oldest).0 h)
          h)
        refl tt refl

  after_rename :
      (renamed : Bool) (d : Disk)
      → length old ≤ limit
      → Shows r.base_filename (if renamed then none else some (regular old)) d
      → (let out : Result Done × S =
            if renamed
            then (open_ false >> set_current 0) (drop_oldest_ (shut, d))
            else (open_ true >> set_current 0) (shut, d) in
          Turned limit out.1)
  after_rename true d small h = dropped-Turned d h
  after_rename false d small h =
      reopen-Turned limit shut named max range true (some (regular old)) d h refl small refl

  pub rotate-Turned :
      (d : Disk)
      → length old ≤ limit
      → Shows r.base_filename (some (regular old)) d
      → Turned limit (rotate_ (r, d)).1
  unfolding rotate_
  rotate-Turned d small h =
      let archive = archive_path_ r.base_filename r.next_index in
      let tried = try_rename_ max_attempts r.base_filename archive d in
      after_rename tried.0 tried.1 small (
        try_rename-Shows r.base_filename max_attempts archive (some (regular old)) d
          (not_active r.base_filename named r.next_index).0 h)
