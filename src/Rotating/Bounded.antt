-- ===== src/Rotating/Bounded.antt =====
-- The size of the active file (include/spdlite/sinks/rotating_file_sink.h) behind a write.
use spdlite.Base.{
  ℕ, ◌+◌, ◌%◌, ◌≤◌, ◌≡◌, refl, sym, arith, Bytes, Bool, true, false, ◌&&◌, not, Option, none, some,
  ltb, length, if◌then◌else◌,
}
use spdlite.Base.Exec.{Result, ok, fail, Done, continue, ◌>>◌}
use spdlite.Disk.{Node, regular, symlink, other, Disk}
use spdlite.Message.{LogMsg}
use spdlite.Rotating.{RotatingFileSink, S, size_mod, put_line, write_bytes, write, rotate_}
use spdlite.Rotating.Faults.{Shows}
use spdlite.Rotating.Turns.{Small, Tracked, Bounded, Turned, put_line-Bounded, rotate-Turned}

-- The line behind a rotation.
after_turn :
    (limit : ℕ) (line : Bytes) (result : Result Done) (s : S)
    → length line ≤ limit
    → Turned limit s
    → Bounded limit
        (continue result
          (λ _ s'. if s'.0.file then put_line line (length line) s' else (ok tt, s'))
          s).1
after_turn limit line (fail e) s small h = h.0
after_turn limit line (ok a) (r, d) small (h, empty) = by_test r.file refl
  where
    by_test :
        (t : Bool)
        → r.file ≡ t
        → (let out : Result Done × S =
              if t then put_line line (length line) (r, d) else (ok tt, (r, d)) in
            Bounded limit out.1)
    by_test true is_open =
        put_line-Bounded limit line (length line) r d h is_open (omega (arith, empty is_open)) small
    by_test false is_open = h

module _ (limit : ℕ) (line : Bytes) (r : RotatingFileSink) (d : Disk) (h : Bounded limit (r, d))
    (small : length line ≤ limit) where
  abbrev new_size : ℕ
  new_size = (r.current_size + length line) % size_mod

  abbrev full : Bool
  full = ltb r.max_size new_size && ltb 0 r.current_size

  on_file :
      (file : Option Node)
      → Shows r.base_filename file d
      → Small limit file
      → Tracked true r.current_size file
      → r.file ≡ true
      → (test : Bool) → full ≡ test
      → (let out : Result Done × S =
            if test
            then (rotate_ >> (λ s. if s.0.file then put_line line (length line) s else (ok tt, s)))
                (r, d)
            else put_line line new_size (r, d) in
          Bounded limit out.1)
  on_file (some (regular old)) shows fits size is_open true test =
      let turned = rotate_ (r, d) in
      after_turn limit line turned.0 turned.1 small
        (rotate-Turned limit old r h.named h.max h.range d fits shows)
  on_file (some (regular old)) shows fits size is_open false test =
      let same : new_size ≡ r.current_size + length line =
        omega (arith, size, fits, small, h.range) in
      put_line-Bounded limit line new_size r d h is_open same
        (ground (arith, test, same, small, h.max))
  on_file (some symlink) shows fits size is_open t test = absurd size
  on_file (some other) shows fits size is_open t test = absurd size
  on_file none shows fits size is_open t test = absurd size

  on_stream :
      (is_open : Bool)
      → r.file ≡ is_open
      → (let out : Result Done × S =
            if not is_open
            then (ok tt, (r, d))
            else if full
            then (rotate_ >> (λ s. if s.0.file then put_line line (length line) s else (ok tt, s)))
                (r, d)
            else put_line line new_size (r, d) in
          Bounded limit out.1)
  on_stream false closed = h
  on_stream true is_open =
      on_file h.file h.shows h.small (rw (sym is_open) h.tracked) is_open full refl

  write_bytes-Bounded : Bounded limit (write_bytes line (r, d)).1
  unfolding write_bytes
  write_bytes-Bounded = on_stream r.file refl

-- Whichever calls of the file system fail during a write, an active file of at most limit bytes
-- stays so, and while the stream is open the counted size is that of the file. The limit is below
-- 2^63 and at least the size limit and the line's length; a write to the stream that fails writes
-- nothing.
pub write-Bounded :
    (limit : ℕ) (msg : LogMsg) (r : RotatingFileSink) (d : Disk)
    → Bounded limit (r, d)
    → length msg.formatted ≤ limit
    → Bounded limit (write msg (r, d)).1
unfolding write
write-Bounded limit msg r d h small = write_bytes-Bounded limit msg.formatted r d h small
