-- ===== src/Rotating/Refine.antt =====
-- The sink and the directory (include/spdlite/sinks/rotating_file_sink.h) against the rolling log.
use spdlite.Base.{
  ℕ, ◌+◌, ◌-◌, ◌%◌, ◌^◌, ◌≤◌, ◌<◌, ◌≡◌, ◌≢◌, refl, sym, ap, ◌∙◌, arith, [], ◌∷◌, ◌++◌, Bytes, Bool,
  true, false, ◌&&◌, none, some, ltb, ◌==◌, length, length-append, length-take, take, IsRange,
  if◌then◌else◌, if_true, if_false,
}
use spdlite.Base.Exec.{Result, ok, Done}
use spdlite.Disk.{FilePath, Node, regular, Entries, lookup, erase, put}
use spdlite.Disk.Laws.{lookup-put, same_file_refl}
use spdlite.Rotating.{RotatingFileSink, S, size_mod, archive_path_, write_bytes}
use spdlite.Rotating.Names.{max_idx}
use spdlite.Rotating.Steps.{calm, renamed, rotated, write-appends, write-rotates}
use spdlite.Rotating.Above.{
  AllBelow, put-AllBelow, active-OneBelow, weaken-AllBelow, rotated-AllBelow,
}
use spdlite.Rotating.Foreign.{IsForeign, foreign-put, foreign-rotated}
use spdlite.Rotating.Log.{RollingLog, roll, archived, archived-roll}
use spdlite.Rotating.Window.{
  not_active, active_found, renamed_archive, renamed_active, dropped_archive, dropped_active,
}

-- The sink `r` over the entries `es` holds `log`.
pub record Holds (r : RotatingFileSink) (es : Entries) (log : RollingLog) : Type 0 where
  pub named : r.base_filename.filename ≢ []
  pub is_open : r.file ≡ true
  pub size : r.current_size ≡ length log.active
  pub limit : r.max_size < 2 ^ 63
  pub few : r.max_files ≤ 1000
  pub fits : IsRange log.active
  pub kept : length log.archives ≤ r.max_files
  pub first : 0 < r.next_index
  pub above : AllBelow r.base_filename r.next_index es
  pub active : lookup r.base_filename es ≡ some (regular log.active)
  pub window :
      (n : ℕ)
      → (0 < n) × (n < max_idx)
      → lookup (archive_path_ r.base_filename n) es ≡ archived log.archives r.next_index n

-- The outcome of writing `line`.
pub record Stepped (r : RotatingFileSink) (es : Entries) (line : Bytes) (log : RollingLog)
    (out : Result Done × S) : Type 0 where
  pub sink : RotatingFileSink
  pub entries : Entries
  pub returns : out ≡ (ok tt, (sink, calm entries))
  pub holds : Holds sink entries (roll r.max_size r.max_files line log)
  pub same_limits : (sink.max_size ≡ r.max_size) × (sink.max_files ≡ r.max_files)
  pub same_base : sink.base_filename ≡ r.base_filename
  pub others : (q : FilePath) → IsForeign r.base_filename q → lookup q entries ≡ lookup q es
  pub index : (r.next_index ≤ sink.next_index) × (sink.next_index ≤ r.next_index + 1)

module _ (r : RotatingFileSink) (es : Entries) (log : RollingLog) (line : Bytes)
    (h : Holds r es log) (range : IsRange line) where
  abbrev pub grows : Bool
  grows = ltb r.max_size (length log.active + length line) && ltb 0 (length log.active)

  no_wrap : (r.current_size + length line) % size_mod ≡ length log.active + length line
  no_wrap = omega (arith, h.size, h.fits)

  test :
      (ltb r.max_size ((r.current_size + length line) % size_mod) && ltb 0 r.current_size) ≡ grows
  test = rw (no_wrap, h.size)

  put_keeps :
      (node : Node) (es' : Entries) (n : ℕ)
      → lookup (archive_path_ r.base_filename n) (put r.base_filename node es')
        ≡ lookup (archive_path_ r.base_filename n) es'
  put_keeps node es' n =
      lookup-put r.base_filename (archive_path_ r.base_filename n) node es'
      ∙ if_false _ (not_active r.base_filename h.named n).1

  put_active :
      (node : Node) (es' : Entries)
      → lookup r.base_filename (put r.base_filename node es') ≡ some node
  put_active node es' =
      lookup-put r.base_filename r.base_filename node es'
      ∙ if_true _ (same_file_refl r.base_filename)

  pub appended : grows ≡ false → Stepped r es line log (write_bytes line (r, calm es))
  unfolding roll
  appended room = record {
    sink = record r { current_size = (r.current_size + length line) % size_mod };
    entries = put r.base_filename (regular (log.active ++ line)) es;
    returns = write-appends r es line log.active h.is_open h.active (test ∙ room);
    holds = rw room (record {
      named = h.named;
      is_open = h.is_open;
      size = no_wrap ∙ sym (length-append log.active line);
      limit = h.limit;
      few = h.few;
      fits = small;
      kept = h.kept;
      first = h.first;
      above =
          put-AllBelow r.base_filename r.next_index r.base_filename (regular (log.active ++ line))
            es (active-OneBelow r.base_filename r.next_index (log.active ++ line)) h.above;
      active = put_active (regular (log.active ++ line)) es;
      window = λ n hn. put_keeps (regular (log.active ++ line)) es n ∙ h.window n hn;
    });
    same_limits = (refl, refl);
    same_base = refl;
    index = omega arith;
    others = λ q foreign.
        foreign-put r.base_filename h.named q foreign (regular (log.active ++ line)) es;
  }
    where
      small : IsRange (log.active ++ line)
      small = ground (arith, room, length-append log.active line, h.limit, range)

  pub rotates :
      grows ≡ true
      → r.next_index + 1 < max_idx
      → Stepped r es line log (write_bytes line (r, calm es))
  unfolding roll
  rotates full room = record {
    sink = record r { next_index = r.next_index + 1; current_size = length line; file = true };
    entries =
        put r.base_filename (regular line)
          (put r.base_filename (regular []) (rotated r log.active es));
    returns =
        write-rotates r es log.active line h.is_open (test ∙ full) (omega (arith, h.few))
          (omega arith) found free;
    holds = rw full (record {
      named = h.named;
      is_open = refl;
      size = refl;
      limit = h.limit;
      few = h.few;
      fits = range;
      kept = omega (arith, length-take r.max_files (log.active ∷ log.archives));
      first = omega arith;
      above = put_below line _ (put_below [] _ rotated_below);
      active = put_active (regular line) _;
      window = λ n hn.
          put_keeps (regular line) (put r.base_filename (regular []) (rotated r log.active es)) n
          ∙ put_keeps (regular []) (rotated r log.active es) n
          ∙ found_in n hn;
    });
    same_limits = (refl, refl);
    same_base = refl;
    index = omega arith;
    others = λ q foreign.
        foreign-put r.base_filename h.named q foreign (regular line) _
        ∙ foreign-put r.base_filename h.named q foreign (regular []) _
        ∙ foreign-rotated r log.active es q h.named (h.first, room) foreign;
  }
    where
      given : (0 < r.next_index) × (r.next_index < max_idx)
      given = (h.first, omega arith)

      behind : Entries
      behind = renamed r.base_filename r.next_index (regular log.active) es

      put_below :
          (s : Bytes) (xs : Entries)
          → AllBelow r.base_filename (r.next_index + 1) xs
          → AllBelow r.base_filename (r.next_index + 1) (put r.base_filename (regular s) xs)
      put_below s xs =
          put-AllBelow r.base_filename (r.next_index + 1) r.base_filename (regular s) xs
            (active-OneBelow r.base_filename (r.next_index + 1) s)

      rotated_below : AllBelow r.base_filename (r.next_index + 1) (rotated r log.active es)
      rotated_below =
          rotated-AllBelow r log.active es h.named given (
            weaken-AllBelow r.base_filename r.next_index (r.next_index + 1) es (omega arith)
              h.above)

      found_in :
          (n : ℕ)
          → (0 < n) × (n < max_idx)
          → lookup (archive_path_ r.base_filename n) (rotated r log.active es)
            ≡ archived (take r.max_files (log.active ∷ log.archives)) (r.next_index + 1) n
      found_in n hn =
          dropped_archive r.base_filename h.named r.max_files r.next_index behind n given hn
          ∙ ap
              (λ x.
                if ltb r.max_files r.next_index && r.next_index - r.max_files == n then none else x)
              (renamed_archive r.base_filename h.named r.next_index n (regular log.active) es given
                  hn
                ∙ ap (λ x. if r.next_index == n then some (regular log.active) else x)
                    (h.window n hn))
          ∙ sym
              (archived-roll log.archives log.active r.max_files r.next_index n h.kept h.first hn.0)

      free : lookup r.base_filename (rotated r log.active es) ≡ none
      free =
          dropped_active r.base_filename h.named r.max_files r.next_index behind
            (renamed_active r.base_filename h.named r.next_index (regular log.active) es)

      found :
          lookup r.base_filename (erase (archive_path_ r.base_filename r.next_index) es)
          ≡ some (regular log.active)
      found = active_found r.base_filename h.named r.next_index es ∙ h.active
