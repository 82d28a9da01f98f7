-- ===== src/Formatter/Pure.antt =====
-- `format_header` as a whole (include/spdlite/formatter.h) against the documented header.
use mathlib.Core.Path.{subst}
use spdlite.Base.{
  ℕ, ◌/◌, ◌%◌, ◌≤◌, ◌≡◌, ◌≢◌, refl, ap, sym, ◌∙◌, arith, ◌++◌, Bytes, IsRange, Bool, true, false,
  if◌then◌else◌, inl, inr,
}
use spdlite.Base.Int.{pos, ◌-ℤ◌, scale, quot, eq_ℤ, eq_ℤ_iff}
use spdlite.Base.Exec.{Result, ok}
use spdlite.Level.{Level, n_levels}
use spdlite.Level.Order.{tag, length-tag, to_string_view-tag}
use spdlite.Digits.Decimal.{decimal, quot-pos}
use spdlite.Buffer.{MemoryBuf, IsLawful}
use spdlite.Formatter.{
  LibC, Formatter, break_down, refresh, rebuild_timestamp, patch_fraction, patch_thread_id,
  patch_level, format_header,
}
use spdlite.Formatter.Layout.{stamp_of, fraction_digits, tag_offset, header_text}
use spdlite.Formatter.Cache.{Shows, Cached}
use spdlite.Formatter.Patch.{InRange}
use spdlite.Formatter.Fields.{rebuild_timestamp-Shows}
use spdlite.Formatter.Steps.{patch_fraction-Shows, patch_thread_id-Shows, patch_level-Shows}

-- Seconds and nanoseconds of a time after the epoch.
whole_seconds : (t : ℕ) → quot (pos t) 1000000000 ≡ pos (t / 1000000000)
whole_seconds t = quot-pos t 1000000000

rest_of_second : (t : ℕ) → pos t -ℤ scale (pos (t / 1000000000)) 1000000000 ≡ pos (t % 1000000000)
rest_of_second t = ground arith

-- `g` is `f` with the timestamp of the second `secs`.
pos_injective : (a b : ℕ) → pos a ≡ pos b → a ≡ b
pos_injective a b h = ground arith

record Refreshed (c : LibC) (name : Bytes) (f : Formatter) (secs : ℕ) (digits thread tag : Bytes)
    (g : Formatter) : Type 0 where
  same_opts : g.opts ≡ f.opts
  last : g.last_secs ≡ pos secs
  shows : Shows name g (stamp_of (break_down c g.opts.utc (pos secs))) digits thread tag

module _ {c : LibC} {name : Bytes} {f : Formatter} (k : Cached c name f) (secs : ℕ)
    (later : secs ≢ 0) where
  refreshed :
      (b : Bool)
      → eq_ℤ (pos secs) f.last_secs ≡ b
      → InRange (break_down c f.opts.utc (pos secs))
      → Refreshed c name f secs k.digits k.thread k.tag
          (if b then f else rebuild_timestamp c (record f { last_secs = pos secs }) (pos secs))
  unfolding rebuild_timestamp
  refreshed true e r =
      let same : pos secs ≡ f.last_secs = (eq_ℤ_iff (pos secs) f.last_secs).0 e in
      elim k.current [
        | inl zero ↦ absurd (later (pos_injective secs 0 (same ∙ zero)))
        | inr fresh ↦ record {
          same_opts = refl;
          last = sym same;
          shows =
              subst (λ s. Shows name f s k.digits k.thread k.tag)
                (fresh ∙ ap (λ t. stamp_of (break_down c f.opts.utc t)) (sym same)) k.shows;
        }
      ]
  refreshed false e r = record {
    same_opts = refl;
    last = refl;
    shows = rebuild_timestamp-Shows with_last c (pos secs) r;
  }
    where
      with_last : Shows name (record f { last_secs = pos secs }) k.stamp k.digits k.thread k.tag
      with_last = record {
        shape = k.shows.shape;
        wide = k.shows.wide;
        length_digits = k.shows.length_digits;
        length_thread = k.shows.length_thread;
        length_tag = k.shows.length_tag;
        frac_at = k.shows.frac_at;
        tid_at = k.shows.tid_at;
        level_at = k.shows.level_at;
      }

  refresh-Refreshed :
      InRange (break_down c f.opts.utc (pos secs))
      → Refreshed c name f secs k.digits k.thread k.tag (refresh c f (pos secs))
  unfolding refresh
  refresh-Refreshed r = refreshed (eq_ℤ (pos secs) f.last_secs) refl r

-- What a call of `format_header` has done.
pub record HasHeader (B : MemoryBuf) (L : IsLawful B) (c : LibC) (name : Bytes) (f : Formatter)
    (t : ℕ) (lvl : Level) (raw : ℕ) (dest : B.State) (out : Result (Formatter × B.State))
    : Type 0 where
  pub next : Formatter
  pub filled : B.State
  pub returns : out ≡ ok (next, filled)
  pub text : B.contents filled ≡ B.contents dest ++ header_text c f.opts name t (tag lvl) raw
  pub valid : L.IsValid filled
  pub cached : Cached c name next
  pub same_opts : next.opts ≡ f.opts
  pub level_at : next.level_offset ≡ tag_offset f.opts name

module _ {c : LibC} {name : Bytes} {f : Formatter} (k : Cached c name f) (t : ℕ) (lvl : Level)
    (raw : ℕ) (known : lvl ≢ n_levels) (after_epoch : 1000000000 ≤ t)
    (in_range : InRange (break_down c f.opts.utc (pos (t / 1000000000)))) where
  abbrev fresh : Formatter
  fresh = refresh c f (pos (t / 1000000000))

  abbrev patched : Formatter
  patched =
      patch_level (patch_thread_id (patch_fraction fresh (pos (t % 1000000000))) raw) (tag lvl)

  behind_refresh : Refreshed c name f (t / 1000000000) k.digits k.thread k.tag fresh
  behind_refresh = refresh-Refreshed k (t / 1000000000) (omega arith) in_range

  patched-Shows :
      Shows name patched
        (stamp_of (break_down c fresh.opts.utc (pos (t / 1000000000))))
        (fraction_digits fresh.opts.precision (t % 1000000000))
        (decimal 6 (raw % 1000000))
        (tag lvl)
  unfolding patch_level patch_thread_id patch_fraction
  patched-Shows =
      patch_level-Shows
        (patch_thread_id-Shows
          (patch_fraction-Shows behind_refresh.shows (t % 1000000000) (omega arith)) raw)
        (tag lvl) (length-tag lvl known)

  opts-patched : patched.opts ≡ f.opts
  unfolding patch_level patch_thread_id patch_fraction
  opts-patched = behind_refresh.same_opts

  patched-text : patched.header ≡ header_text c f.opts name t (tag lvl) raw
  unfolding patch_level patch_thread_id patch_fraction header_text
  patched-text =
      patched-Shows.shape ∙ ap (λ o. header_text c o name t (tag lvl) raw) behind_refresh.same_opts

  patched-Cached : Cached c name patched
  unfolding patch_level patch_thread_id patch_fraction
  patched-Cached = record {
    stamp = stamp_of (break_down c fresh.opts.utc (pos (t / 1000000000)));
    digits = fraction_digits fresh.opts.precision (t % 1000000000);
    thread = decimal 6 (raw % 1000000);
    tag = tag lvl;
    shows = patched-Shows;
    current = inr (ap (λ u. stamp_of (break_down c fresh.opts.utc u)) (sym behind_refresh.last));
  }

  format_header-patched :
      (B : MemoryBuf) (dest : B.State)
      → format_header B c f (pos t) lvl raw dest ≡ ok (patched, B.append dest patched.header)
  unfolding format_header
  format_header-patched B dest =
      rw (whole_seconds t, rest_of_second t, to_string_view-tag lvl known)

  -- Whatever the cached header holds, format_header appends to a valid buffer the documented header
  -- for this time, thread and level, and leaves a cache that is right for the next call. The level
  -- is no sentinel, the clock is a second or more past the epoch, the C library breaks it into
  -- fields of their widths, and the header is shorter than 2^63 bytes.
  pub format_header-pure :
      (B : MemoryBuf) (L : IsLawful B) (dest : B.State)
      → L.IsValid dest
      → IsRange (header_text c f.opts name t (tag lvl) raw)
      → HasHeader B L c name f t lvl raw dest (format_header B c f (pos t) lvl raw dest)
  format_header-pure B L dest v range = record {
    next = patched;
    filled = B.append dest patched.header;
    returns = format_header-patched B dest;
    text =
        L.contents-append dest patched.header fits v ∙ ap (λ h. B.contents dest ++ h) patched-text;
    valid = L.append-IsValid dest patched.header fits v;
    cached = patched-Cached;
    same_opts = opts-patched;
    level_at = patched-Shows.level_at ∙ ap (λ o. tag_offset o name) opts-patched;
  }
    where
      fits : IsRange patched.header
      fits = rw patched-text range
